-- ===== src/IrohRelay/Conn.antt =====
-- irohRelayConn of p2put/irohrelay.go: the connection to one relay server, its handshake and its loop.
-- The websocket library and what the server sends are arguments, as are the two signature functions.
use peerscale.Prelude.{
  ℕ, ◌+◌, ◌-◌, ◌*◌, ◌%◌, ◌^◌, Bool, true, false, not, Option, none, some, List, [], ◌∷◌, ◌++◌,
  length, take, ltb, leb, ◌==◌, ◌||◌, ◌&&◌, if◌then◌else◌, and_then,
}
use peerscale.Runtime.{second}
use peerscale.RelayFile.Frame.{uint}
use peerscale.IrohRelay.Codec.{
  append_leb128, consume_leb128, put_le, le, key_bytes, datagram, StreamFrame, parse_datagram,
}

abbrev pub relay_ping_interval : ℕ
relay_ping_interval = 9 * second

pub data State : Type 0 where
  disconnected connecting authenticating alive reconnecting : State

abbrev pub is_alive : State → Bool
is_alive alive = true
is_alive _ = false

-- An open websocket: whether it takes messages, and what was written to it, the newest first.
pub record Ws : Type 0 where
  pub works : Bool
  pub written : List (List ℕ)

-- stop_closed and reconnect_now are the two channels, the second one of capacity 1. rxBytes and
-- failCount stay 0.
pub record Conn : Type 0 where
  pub state : State
  pub ws : Option Ws
  pub stop_closed : Bool
  pub reconnect_now : Bool
  pub last_recv : ℕ
  pub ping_seq : ℕ
  pub pending_ping : ℕ
  pub last_pong : ℕ
  pub pong_cnt : ℕ
  pub tx_bytes : ℕ

unfoldable pub new_relay_conn : ℕ → Conn
new_relay_conn now = record {
  state = disconnected;
  ws = none;
  stop_closed = false;
  reconnect_now = false;
  last_recv = now;
  ping_seq = 0;
  pending_ping = 0;
  last_pong = now;
  pong_cnt = 0;
  tx_bytes = 0;
}

-- ws.WriteMessage
abbrev pub put_message : List ℕ → Ws → Bool × Ws
put_message msg ws =
    if ws.works then (true, record ws { written = msg ∷ ws.written }) else (false, ws)

abbrev pub write_on : List ℕ → Option Ws → Conn → Bool × Conn
write_on msg none c = (false, c)
write_on msg (some ws) c = ((put_message msg ws).0, record c { ws = some (put_message msg ws).1 })

unfoldable pub write_frame : ℕ → List ℕ → Conn → Bool × Conn
write_frame tag payload c = write_on (tag ∷ payload) c.ws c

unfoldable pub send_datagram : ℕ → List ℕ → Conn → Bool × Conn
unfolding datagram
send_datagram remote payload c = write_on (datagram remote payload) c.ws c

unfoldable pub shutdown : Conn → Conn
shutdown c = record c { state = disconnected; ws = none }

-- A second close of the channel panics.
unfoldable pub stop : Conn → Option Conn
stop c = if c.stop_closed then none else some (record c { stop_closed = true })

-- What the server says in the handshake; `none` is a read error. The last message comes in a slice
-- with a capacity.
pub record Server : Type 0 where
  pub challenge : Option (List ℕ)
  pub response : Option (List ℕ)
  pub response_cap : ℕ

pub data Outcome : Type 0 where
  confirmed refused panics : Outcome

-- The end of the reason is `1 + n + len`, an int; the slice panics past the capacity.
abbrev pub read_reason : ℕ → Option (ℕ × ℕ) → Outcome
read_reason cap none = refused
read_reason cap (some (len, n)) = if leb (1 + n + len) cap then refused else panics

abbrev pub on_response : Server → Option (List ℕ) → Outcome
on_response s none = refused
on_response s (some []) = refused
on_response s (some (typ ∷ msg)) =
    if typ == 2
    then confirmed
    else if typ == 3
    then read_reason s.response_cap (consume_leb128 msg)
    else refused

-- ed25519.Sign with the local key, of the key that blake3 derives from the challenge.
abbrev pub client_auth : (List ℕ → List ℕ) → ℕ → List ℕ → List ℕ
client_auth sign local_pub challenge =
    1 ∷ (key_bytes local_pub ++ append_leb128 [] 64 ++ sign challenge)

abbrev pub on_challenge : (List ℕ → List ℕ) → ℕ → Server → Option (List ℕ) → Ws → Outcome × Ws
on_challenge sign local_pub s none ws = (refused, ws)
on_challenge sign local_pub s (some []) ws = (panics, ws)
on_challenge sign local_pub s (some (typ ∷ msg)) ws =
    if ltb (1 + length msg) 17 || not (typ == 0)
    then (refused, ws)
    else (let (sent, ws') = put_message (client_auth sign local_pub (take 16 msg)) ws in
        (if sent then on_response s s.response else refused, ws'))

unfoldable pub handshake : (List ℕ → List ℕ) → ℕ → Server → Ws → Outcome × Ws
unfolding append_leb128 key_bytes consume_leb128
handshake sign local_pub s ws = on_challenge sign local_pub s s.challenge ws

-- What connect does behind the handshake. A websocket that is closed there stays in rc.ws.
abbrev pub after_handshake : ℕ → Outcome × Ws → Conn → Option Conn
after_handshake now (confirmed, ws) c =
    some (record c { ws = some ws; last_recv = now; state = alive })
after_handshake now (refused, ws) c =
    some (record c { ws = some (record ws { works = false }); state = disconnected })
after_handshake now (panics, ws) c = none

-- A dial that fails, or one that opens a websocket to a server.
abbrev pub Dial : Type 0
Dial = Option (Ws × Server)

module _ (sign : List ℕ → List ℕ) (local_pub : ℕ) where
  unfoldable pub connect : ℕ → Dial → Conn → Option Conn
  unfolding handshake
  connect now none c = some (record c { reconnect_now = false; state = disconnected })
  connect now (some (ws, s)) c =
      after_handshake now (handshake sign local_pub s ws) (record c { reconnect_now = false })

  -- Attempts of connectWithBackoff, each with whether the stop channel is closed by the time of its
  -- wait.
  unfoldable pub connect_with_backoff : List (ℕ × Dial × Bool) → Conn → Option Conn
  unfolding connect
  connect_with_backoff [] c = some c
  connect_with_backoff ((now, dial, stopped) ∷ later) c = and_then (connect now dial c) (λ c'.
      let rest = connect_with_backoff later c' in
      if is_alive c'.state || stopped then some c' else rest)

-- The keep-alive tick.
unfoldable pub tick : ℕ → Conn → Conn
unfolding shutdown write_frame
tick now c =
    if ltb (relay_ping_interval * 3) (now - c.last_recv)
    then shutdown c
    else if not (c.pending_ping == 0)
    then c
    else (let seq = (c.ping_seq + 1) % 2 ^ 64 in
        let (sent, c') =
          write_frame 9 (put_le 8 seq) (record c { ping_seq = seq; pending_ping = seq }) in
        if sent then c' else shutdown c')

-- What wakes the `select` of runLoop, and whether its `for` goes on.
pub data Wake : Type 0 where
  stops reconnects : Wake
  ticks : ℕ → Wake

unfoldable pub wake_up : Wake → Conn → Conn × Bool
unfolding shutdown tick
wake_up stops c = (shutdown c, false)
wake_up reconnects c = (shutdown (record c { reconnect_now = false }), true)
wake_up (ticks now) c = (tick now c, true)

-- One turn of the `for` of runLoop.
unfoldable pub run_turn :
    (List ℕ → List ℕ) → ℕ → Wake → List (ℕ × Dial × Bool) → Conn → Option (Conn × Bool)
unfolding wake_up shutdown connect_with_backoff
run_turn sign local_pub wake dials c =
    if is_alive c.state
    then some (wake_up wake c)
    else (let down = shutdown c in
        if down.stop_closed
        then some (down, false)
        else and_then (connect_with_backoff sign local_pub dials down) (λ c'. some (c', true)))

-- What a message means for the streams, and whether the read loop ends.
pub data Event : Type 0 where
  nothing exits : Event
  gone : ℕ → Event
  arrives : StreamFrame → Event

abbrev pub on_pong : ℕ → List ℕ → Conn → Conn
on_pong now body c = if ltb (length body) 8 then c else record c {
  pending_ping = if le (take 8 body) == c.pending_ping then 0 else c.pending_ping;
  last_pong = now;
  pong_cnt = c.pong_cnt + 1;
}

abbrev pub arrived : Option StreamFrame → Event
arrived none = nothing
arrived (some f) = arrives f

abbrev pub on_frame : ℕ → ℕ → List ℕ → Conn → Event × Conn
on_frame now typ body c =
    if typ == 9
    then (let (sent, c') = write_frame 10 body c in (if sent then nothing else exits, c'))
    else if typ == 10
    then (nothing, on_pong now body c)
    else if typ == 6 || typ == 7
    then (arrived (parse_datagram body), c)
    else if typ == 8 && leb 32 (length body)
    then (gone (uint (take 32 body)), c)
    else (nothing, c)

-- One round of readLoop; `none` is a read error.
unfoldable pub read_message : ℕ → Option (List ℕ) → Conn → Event × Conn
unfolding write_frame parse_datagram
read_message now none c = (exits, if c.stop_closed then c else record c { reconnect_now = true })
read_message now (some []) c = (nothing, c)
read_message now (some (typ ∷ body)) c = on_frame now typ body (record c { last_recv = now })
