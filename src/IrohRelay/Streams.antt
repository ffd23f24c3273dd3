-- ===== src/IrohRelay/Streams.antt =====
-- IrohRelayStream and peerStreamManager of p2put/irohrelay.go, on a store of stream objects: the
-- application, the managers and the channel of streams to accept share them by handle. A locked
-- section, and a function whose sections nothing comes between, is one step.
use peerscale.Prelude.{
  ℕ, zero, suc, ◌+◌, ◌*◌, ◌/◌, ◌%◌, ◌^◌, Bool, true, false, not, Option, none, some, List, [], ◌∷◌,
  ◌++◌, length, take, drop, ltb, ◌==◌, if◌then◌else◌,
}
use peerscale.Dict.{lookup, insert, erase, adjust}
use peerscale.IrohRelay.Codec.{flag_data, flag_close, flag_reset, stream_frame, StreamFrame}
use peerscale.IrohRelay.Conn.{
  Conn, is_alive, send_datagram, Event, nothing, exits, gone, arrives, read_message,
}

abbrev pub max_datagram_payload : ℕ
max_datagram_payload = 64000

abbrev pub stream_id_base : ℕ
stream_id_base = 1000

-- The capacity of acceptCh.
abbrev pub accept_cap : ℕ
accept_cap = 64

pub record Stream : Type 0 where
  pub id : ℕ
  pub remote : ℕ
  pub rx_buf : List ℕ
  pub closed : Bool
  pub was_reset : Bool

unfoldable pub new_stream : ℕ → ℕ → Stream
new_stream id remote = record {
  id = id;
  remote = remote;
  rx_buf = [];
  closed = false;
  was_reset = false;
}

-- A stream's dispatch.
unfoldable pub feed : ℕ → List ℕ → Stream → Stream
feed flags content s =
    if flags == flag_reset
    then record s { was_reset = true; rx_buf = [] }
    else if flags == flag_close
    then record s { closed = true }
    else if flags == flag_data
    then record s { rx_buf = s.rx_buf ++ content }
    else s

-- Read gives bytes, net.ErrClosed or io.EOF, or it waits.
pub data Read : Type 0 where
  bytes : List ℕ → Read
  err_closed eof waits : Read

unfoldable pub read : ℕ → Stream → Read × Stream
read size s =
    if not (length s.rx_buf == 0)
    then (bytes (take size s.rx_buf), record s { rx_buf = drop size s.rx_buf })
    else (if s.was_reset then err_closed else if s.closed then eof else waits, s)

-- `streams` has the handle of each stream by its id.
pub record Manager : Type 0 where
  pub odd_bit : ℕ
  pub next_id : ℕ
  pub streams : List (ℕ × ℕ)

-- bytes.Compare of two keys is the order of the numbers that they write.
unfoldable pub new_manager : ℕ → ℕ → Manager
new_manager local_pub remote = record {
  odd_bit = if ltb local_pub remote then 1 else 0;
  next_id = stream_id_base;
  streams = [];
}

-- n | bit
abbrev pub or_bit : ℕ → ℕ → ℕ
or_bit n bit = if bit == 1 then n / 2 * 2 + 1 else n

-- The id, and the manager; `- 2` undoes the addition, also where it wraps.
unfoldable pub alloc_id : Manager → ℕ × Manager
alloc_id m = (or_bit m.next_id m.odd_bit, record m { next_id = (m.next_id + 2) % 2 ^ 64 })

-- `free` is a handle that no object has had. The managers in `peers` go by the remote key. Go ranges
-- over the relays in a new order each time; `rolls` says where each coming `range` starts.
pub record Pool : Type 0 where
  pub started : Bool
  pub local_pub : ℕ
  pub relays : List (ℕ × Conn)
  pub peers : List (ℕ × Manager)
  pub store : List (ℕ × Stream)
  pub free : ℕ
  pub accept_ch : List ℕ
  pub rolls : ℕ → ℕ

-- The loop of sendTo over the relays in the order of one `range`: the first one that is alive takes
-- the frame.
abbrev pub credited : ℕ → Bool × Conn → Conn
credited n (true, c) = record c { tx_bytes = c.tx_bytes + n }
credited n (false, c) = c

unfoldable pub send_first : ℕ → List ℕ → List (ℕ × Conn) → Bool × List (ℕ × Conn)
unfolding send_datagram
send_first remote frame [] = (false, [])
send_first remote frame ((url, c) ∷ relays) =
    let rest = send_first remote frame relays in
    if is_alive c.state
    then (let sent = send_datagram remote frame c in
        (sent.0, (url, credited (length frame) sent) ∷ relays))
    else (rest.0, (url, c) ∷ rest.1)

abbrev pub rotate : ℕ → List (ℕ × Conn) → List (ℕ × Conn)
rotate zero relays = relays
rotate (suc n) [] = []
rotate (suc n) (r ∷ relays) = rotate n (relays ++ (r ∷ []))

-- Of the order only the first relay that is alive matters, so a start serves for any order.
unfoldable pub send_to : ℕ → List ℕ → Pool → Bool × Pool
unfolding send_first
send_to remote frame p =
    let (sent, relays) = send_first remote frame (rotate (p.rolls 0) p.relays) in
    (sent, record p { relays = relays; rolls = λ n. p.rolls (suc n) })

unfoldable pub send_reset : ℕ → ℕ → Pool → Pool
unfolding send_to stream_frame
send_reset remote id p = (send_to remote (stream_frame id flag_reset []) p).1

unfoldable pub remove_stream : ℕ → ℕ → Pool → Pool
remove_stream remote id p = record p {
  peers = adjust remote (λ m. record m { streams = erase id m.streams }) p.peers;
}

-- The manager of a peer, which is made where there is none.
abbrev pub or_new : ℕ → ℕ → Option Manager → Manager
or_new local_pub remote none = new_manager local_pub remote
or_new local_pub remote (some m) = m

abbrev pub manager_for : ℕ → Pool → Manager
manager_for remote p = or_new p.local_pub remote (lookup remote p.peers)

-- `&IrohRelayStream{...}` and its entry in the manager.
unfoldable pub put_stream : ℕ → ℕ → Manager → Pool → Pool
unfolding new_stream
put_stream remote id m p = record p {
  peers = insert remote (record m { streams = insert id p.free m.streams }) p.peers;
  store = insert p.free (new_stream id remote) p.store;
  free = p.free + 1;
}

-- The handle, and the pool.
unfoldable pub open_stream : ℕ → Pool → ℕ × Pool
unfolding new_manager alloc_id put_stream
open_stream remote p =
    let (id, m) = alloc_id (manager_for remote p) in (p.free, put_stream remote id m p)

-- A frame for a stream that the manager does not have. The goroutine that sends RESET runs at once.
unfoldable pub accept_or_reset : StreamFrame → Manager → Pool → Pool
unfolding put_stream send_reset remove_stream
accept_or_reset f m p =
    if not (f.flags == flag_data)
    then record p { peers = insert f.src m p.peers }
    else if ltb (length p.accept_ch) accept_cap
    then record (put_stream f.src f.id m p) { accept_ch = p.accept_ch ++ (p.free ∷ []) }
    else send_reset f.src f.id (remove_stream f.src f.id (put_stream f.src f.id m p))

abbrev pub dispatch_to : StreamFrame → Manager → Option ℕ → Pool → Pool
dispatch_to f m none p = accept_or_reset f m p
dispatch_to f m (some h) p = record p {
  peers = insert f.src m p.peers;
  store = adjust h (feed f.flags f.content) p.store;
}

unfoldable pub dispatch_stream_frame : StreamFrame → Pool → Pool
unfolding accept_or_reset feed new_manager
dispatch_stream_frame f p = let m = manager_for f.src p in dispatch_to f m (lookup f.id m.streams) p

-- AcceptStream, while there is a stream to accept.
abbrev pub accept_first : List ℕ → Pool → Option (ℕ × Pool)
accept_first [] p = none
accept_first (h ∷ later) p = some (h, record p { accept_ch = later })

unfoldable pub accept_stream : Pool → Option (ℕ × Pool)
accept_stream p = accept_first p.accept_ch p

-- The loop of Write, with a round for each byte, which is enough: how many bytes were written, and
-- whether all were.
unfoldable pub write_loop : ℕ → ℕ → ℕ → List ℕ → ℕ → Pool → (ℕ × Bool) × Pool
unfolding send_to
write_loop zero remote id b written p = ((written, length b == 0), p)
write_loop (suc rounds) remote id b written p =
    let chunk = take max_datagram_payload b in
    let (sent, p') = send_to remote (stream_frame id flag_data chunk) p in
    let rest =
      write_loop rounds remote id (drop max_datagram_payload b) (written + length chunk) p' in
    if length b == 0 then ((written, true), p) else if sent then rest else ((written, false), p')

unfoldable pub write : Stream → List ℕ → Pool → (ℕ × Bool) × Pool
unfolding write_loop
write s b p = write_loop (length b) s.remote s.id b 0 p

abbrev pub close_open : ℕ → Option Stream → Pool → Bool × Pool
close_open h none p = (false, p)
close_open h (some s) p = if s.closed then (false, p) else (
  true,
  remove_stream s.remote s.id
      (send_to s.remote (stream_frame s.id flag_close [])
        (record p { store = adjust h (λ t. record t { closed = true }) p.store })).1,
)

-- Close of the stream with a handle, and whether it returns no error.
unfoldable pub close : ℕ → Pool → Bool × Pool
unfolding send_to stream_frame remove_stream
close h p = close_open h (lookup h p.store) p

abbrev pub reset_found : ℕ → Option Stream → Pool → Pool
reset_found h none p = p
reset_found h (some s) p = remove_stream s.remote s.id (
    send_reset s.remote s.id
      (record p { store = adjust h (λ t. record t { was_reset = true; rx_buf = [] }) p.store }))

unfoldable pub reset : ℕ → Pool → Pool
unfolding send_reset remove_stream
reset h p = reset_found h (lookup h p.store) p

unfoldable pub reset_all : List (ℕ × ℕ) → List (ℕ × Stream) → List (ℕ × Stream)
unfolding feed
reset_all [] store = store
reset_all ((id, h) ∷ streams) store = reset_all streams (adjust h (feed flag_reset []) store)

abbrev pub gone_from : ℕ → Option Manager → Pool → Pool
gone_from remote none p = p
gone_from remote (some m) p = record p {
  peers = erase remote p.peers;
  store = reset_all m.streams p.store;
}

unfoldable pub peer_gone : ℕ → Pool → Pool
unfolding reset_all
peer_gone remote p = gone_from remote (lookup remote p.peers) p

abbrev pub handle_event : Event → Pool → Pool
handle_event nothing p = p
handle_event exits p = p
handle_event (gone remote) p = peer_gone remote p
handle_event (arrives f) p = dispatch_stream_frame f p

abbrev pub receive_from : ℕ → ℕ → List ℕ → Option Conn → Pool → Pool
receive_from url now msg none p = p
receive_from url now msg (some c) p =
    let (event, c') = read_message now (some msg) c in
    handle_event event (record p { relays = insert url c' p.relays })

-- A message that the read loop of a relay takes from its websocket.
unfoldable pub receive : ℕ → ℕ → List ℕ → Pool → Pool
unfolding read_message peer_gone dispatch_stream_frame
receive url now msg p = receive_from url now msg (lookup url p.relays) p
