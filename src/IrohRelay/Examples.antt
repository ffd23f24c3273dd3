-- ===== src/IrohRelay/Examples.antt =====
-- Two peers with keys 7 and 9 over one relay.
use peerscale.Prelude.{
  ℕ, ◌≡◌, ◌≢◌, ◌⊎◌, refl, true, false, some, List, [], ◌∷◌, ◌++◌, length, drop, arith, IfSome,
}
use peerscale.Dict.{lookup}
use peerscale.IrohRelay.Codec.{
  datagram, append_leb128, consume_leb128, key_bytes, StreamFrame, flag_reset,
}
use peerscale.IrohRelay.Conn.{Ws, Conn, alive, disconnected, tick, shutdown, reconnects}
use peerscale.IrohRelay.Streams.{Stream, Pool, new_stream, new_manager, dispatch_stream_frame}
use peerscale.IrohRelay.Ids.{id_at, id_at-new_manager-apart}
use peerscale.IrohRelay.History.{
  Op, opens, accepts, arrives, run, no_streams, run-no_streams-Routed, dispatch-Stays,
}
use peerscale.IrohRelay.Routes.{Routed}
use peerscale.IrohRelay.Parse.{consume_leb128-append_leb128}
use peerscale.IrohRelay.Delivery.{data_frame, HandsOn, Delivers, write-Delivers, write-loses_first}
use peerscale.IrohRelay.KeepAlive.{Beat, turns, reads, live, live-silent}

consume_leb128-append_leb128_example :
    consume_leb128 (append_leb128 [] 300 ++ (1 ∷ [])) ≡ some (300, length (append_leb128 [] 300))
consume_leb128-append_leb128_example = consume_leb128-append_leb128 300 (1 ∷ []) (omega arith)

two_groups : append_leb128 [] 300 ≡ 172 ∷ 2 ∷ []
unfolding append_leb128
two_groups = refl

id_at-new_manager-apart_example :
    (id_at 3 (new_manager 7 9) ≢ id_at 5 (new_manager 9 7))
    × (◌≢◌ {A = ℕ} 3 5 → id_at 3 (new_manager 7 9) ≢ id_at 5 (new_manager 7 9))
id_at-new_manager-apart_example =
    id_at-new_manager-apart 7 9 3 5 (omega arith) (omega arith) (omega arith)

abbrev ops : List Op
ops = opens 9 ∷ arrives (data_frame 5 44 (1 ∷ [])) ∷ accepts ∷ []

run-no_streams-Routed_example : Routed (run ops (no_streams 7 λ n. n))
run-no_streams-Routed_example = run-no_streams-Routed ops 7 (λ n. n)

abbrev opened : Stream
opened = record { id = 1001; remote = 9; rx_buf = []; closed = false; was_reset = false }

-- A RESET from peer 5 for an id that peer 9 uses.
abbrev foreign : StreamFrame
foreign = record { src = 5; id = 1001; flags = flag_reset; content = [] }

dispatch-Stays_example :
    lookup 0 (dispatch_stream_frame foreign (run ops (no_streams 7 λ n. n))).store ≡ some opened
unfolding run
dispatch-Stays_example =
    dispatch-Stays 0 opened foreign (λ e. omega (arith, e.0)) (run ops (no_streams 7 λ n. n))
      (run-no_streams-Routed ops 7 (λ n. n)) refl

abbrev ws : Ws
ws = record { works = true; written = [] }

abbrev conn : Conn
conn = record {
  state = alive;
  ws = some ws;
  stop_closed = false;
  reconnect_now = false;
  last_recv = 0;
  ping_seq = 0;
  pending_ping = 0;
  last_pong = 0;
  pong_cnt = 0;
  tx_bytes = 0;
}

-- The sender with key 7, and the receiver with key 9 that has nothing or the stream already.
abbrev sender : Pool
sender = record (no_streams 7 λ n. n) {
  relays = (3, record conn { state = disconnected }) ∷ (1, conn) ∷ [];
}

abbrev receiver : Pool
receiver = record (no_streams 9 λ n. n) { relays = (2, conn) ∷ [] }

abbrev incoming : Stream
incoming = record { id = 1001; remote = 7; rx_buf = 5 ∷ []; closed = false; was_reset = false }

abbrev knowing : Pool
knowing = record receiver {
  peers = (7, record { odd_bit = 0; next_id = 1000; streams = (1001, 0) ∷ [] }) ∷ [];
  store = (0, incoming) ∷ [];
  free = 1;
}

abbrev forward : List ℕ → List ℕ
forward m = 6 ∷ (key_bytes 7 ++ drop 33 m)

forward-HandsOn : HandsOn 7 9 forward
unfolding datagram key_bytes
forward-HandsOn payload = (0, refl)

write-Delivers_example :
    Delivers 7 2 forward
      (λ n. n)
      (omega arith)
      opened
      (omega arith)
      forward-HandsOn
      (1 ∷ 2 ∷ [])
      sender
      ws
      knowing
      0
      (record incoming { rx_buf = 5 ∷ 1 ∷ 2 ∷ [] })
write-Delivers_example =
    write-Delivers 7 2 forward (λ n. n) (omega arith) opened (omega arith) forward-HandsOn
      (1 ∷ 2 ∷ []) sender ws knowing 0 incoming conn (refl, refl, refl) (refl, refl, refl)

write-loses_first_example :
    Delivers 7 2 forward
      (λ n. n)
      (omega arith)
      opened
      (omega arith)
      forward-HandsOn
      (1 ∷ 2 ∷ [])
      sender
      ws
      receiver
      0
      (record incoming { rx_buf = [] })
unfolding new_stream
write-loses_first_example =
    write-loses_first 7 2 forward (λ n. n) (omega arith) opened (omega arith) forward-HandsOn 1
      (2 ∷ []) sender ws receiver conn (refl, refl, refl) (refl, refl, omega arith)

-- The websocket breaks while ping 5 is out; the next one is opened, and brings a pong for ping 4.
abbrev beats : List Beat
beats =
    turns reconnects []
    ∷ turns reconnects (
        (
          1,
          some (
            ws,
            record {
              challenge =
                  some (0 ∷ 1 ∷ 2 ∷ 3 ∷ 4 ∷ 5 ∷ 6 ∷ 7 ∷ 8 ∷ 9 ∷ 1 ∷ 2 ∷ 3 ∷ 4 ∷ 5 ∷ 6 ∷ 7 ∷ []);
              response = some (2 ∷ []);
              response_cap = 8;
            },
          ),
          false,
        )
        ∷ [])
    ∷ reads 2 (some (10 ∷ 4 ∷ 0 ∷ 0 ∷ 0 ∷ 0 ∷ 0 ∷ 0 ∷ 0 ∷ []))
    ∷ []

live-silent_example :
    IfSome
      (λ c'. (now : ℕ) → (tick now c' ≡ c') ⊎ (tick now c' ≡ shutdown c'))
      (live (λ challenge. challenge) 7 beats (record conn { pending_ping = 5 }))
live-silent_example =
    live-silent (λ challenge. challenge) 7 5 beats (record conn { pending_ping = 5 }) (omega arith)
      (tt, (tt, ((λ e. ground (arith, e)), tt))) refl
