-- ===== src/Softun.antt =====
-- Inbound TCP connections of the user-space network device, of softun/softun_tcp.go: a SYN that the
-- stack does not answer is refused with a RST, if one can be built. What the pktkit library reads from a packet is a
-- field of it; the stack is an argument, the packets that it emits while it takes one.

pub mod Refusal
pub mod Ports
pub mod Udp
mod Icmp
mod Dispatch
pub mod Route
mod Examples
use peerscale.Prelude.{
  ℕ, ◌+◌, ◌-◌, ◌*◌, Bool, true, false, not, ◌&&◌, Option, none, some, List, [], ◌∷◌, length, ltb,
  ◌==◌, if◌then◌else◌,
}
use peerscale.Runtime.{second}

pub data Protocol : Type 0 where
  icmp udp tcp other : Protocol

-- `src` and `dst` are the addresses, `payload` the bytes behind the IP header; `syn` and `ack` are
-- the flags in byte 13 of the payload. `is_group` is IsBroadcast or IsMulticast, and `parses` is
-- whether ParseSegment of the vtcp library takes the payload.
pub record Packet : Type 0 where
  pub is_valid : Bool
  pub is_group : Bool
  pub src : ℕ
  pub dst : ℕ
  pub protocol : Protocol
  pub payload : List ℕ
  pub syn : Bool
  pub ack : Bool
  pub parses : Bool

pub record SynKey : Type 0 where
  pub remote : ℕ
  pub remote_port : ℕ
  pub local_port : ℕ

abbrev pub same_key : SynKey → SynKey → Bool
same_key k l =
    k.remote == l.remote && (k.remote_port == l.remote_port && k.local_port == l.local_port)

abbrev pub syn_ttl : ℕ
syn_ttl = 30 * second

-- synPend, with the time at which each marker was set.
abbrev pub Pending : Type 0
Pending = List (SynKey × ℕ)

abbrev pub is_pending : SynKey → Pending → Bool
is_pending k [] = false
is_pending k ((j, at) ∷ m) = if same_key j k then true else is_pending k m

unfoldable pub set_syn_pending : ℕ → SynKey → Pending → Pending
set_syn_pending now k [] = (k, now) ∷ []
set_syn_pending now k ((j, at) ∷ m) =
    if same_key j k then (k, now) ∷ m else (j, at) ∷ set_syn_pending now k m

abbrev pub forget : SynKey → Pending → Pending
forget k [] = []
forget k ((j, at) ∷ m) = if same_key j k then forget k m else (j, at) ∷ forget k m

unfoldable pub take_syn_pending : SynKey → Pending → Bool × Pending
take_syn_pending k m = (is_pending k m, forget k m)

-- The number of markers dropped, and those that are left.
unfoldable pub reap_syn_pending : ℕ → Pending → ℕ × Pending
reap_syn_pending now [] = (0, [])
reap_syn_pending now ((k, at) ∷ m) =
    let (n, rest) = reap_syn_pending now m in
    if ltb syn_ttl (now - at) then (n + 1, rest) else (n, (k, at) ∷ rest)

-- binary.BigEndian.Uint16 of the two bytes at each end of the ports.
abbrev pub ports : List ℕ → Option (ℕ × ℕ)
ports (a ∷ b ∷ c ∷ d ∷ rest) = some (a * 256 + b, c * 256 + d)
ports _ = none

abbrev syn_key_of : Packet → Option (ℕ × ℕ) → Option SynKey
syn_key_of pkt none = none
syn_key_of pkt (some (from, to)) =
    some (record { remote = pkt.src; remote_port = from; local_port = to })

unfoldable pub syn_key_for_packet : Packet → Option SynKey
syn_key_for_packet pkt = syn_key_of pkt (ports pkt.payload)

abbrev pub syn_ack_key_of : Packet → Option (ℕ × ℕ) → Option SynKey
syn_ack_key_of pkt none = none
syn_ack_key_of pkt (some (from, to)) =
    some (record { remote = pkt.dst; remote_port = to; local_port = from })

unfoldable pub syn_ack_key_from_packet : Packet → Option SynKey
syn_ack_key_from_packet pkt = syn_ack_key_of pkt (ports pkt.payload)

-- tcpFlags finds byte 13.
abbrev pub has_flags : List ℕ → Bool
has_flags payload = not (ltb (length payload) 14)

unfoldable pub is_syn_only : Packet → Bool
is_syn_only pkt = has_flags pkt.payload && (pkt.syn && not pkt.ack)

abbrev pub is_tcp : Protocol → Bool
is_tcp tcp = true
is_tcp _ = false

abbrev forget_some : Option SynKey → Pending → Pending
forget_some none m = m
forget_some (some k) m = forget k m

unfoldable pub clear_syn_pending_for_packet : Packet → Pending → Pending
unfolding syn_ack_key_from_packet
clear_syn_pending_for_packet pkt m =
    if is_tcp pkt.protocol && (has_flags pkt.payload && (pkt.syn && pkt.ack))
    then forget_some (syn_ack_key_from_packet pkt) m
    else m

-- routeWrite of the packets that the stack emits, as far as the markers go.
unfoldable pub emitted : List Packet → Pending → Pending
unfolding clear_syn_pending_for_packet
emitted [] m = m
emitted (pkt ∷ pkts) m = emitted pkts (clear_syn_pending_for_packet pkt m)

-- Whether buildRST gives a packet; its IP version is 4 or 6.
unfoldable pub has_rst : Packet → Bool
has_rst pkt = not (ltb (length pkt.payload) 20) && pkt.parses

-- What handleInboundTCP leaves: whether the packet is consumed, whether a RST is sent, and the
-- markers.
pub record Inbound : Type 0 where
  pub consumed : Bool
  pub refused : Bool
  pub pending : Pending

abbrev pub offered : ℕ → List Packet → Packet → Option SynKey → Pending → Inbound
offered now replies pkt none m = record { consumed = false; refused = false; pending = m }
offered now replies pkt (some k) m =
    let (closed, left) = take_syn_pending k (emitted replies (set_syn_pending now k m)) in
    record { consumed = true; refused = closed && has_rst pkt; pending = left }

-- `replies` is what the stack emits while softTun.Send hands it the packet.
unfoldable pub handle_inbound_tcp : ℕ → List Packet → Packet → Pending → Inbound
unfolding is_syn_only syn_key_for_packet take_syn_pending emitted set_syn_pending has_rst
handle_inbound_tcp now replies pkt m =
    if not (is_syn_only pkt)
    then record { consumed = false; refused = false; pending = m }
    else offered now replies pkt (syn_key_for_packet pkt) m

abbrev sent : List Packet → Pending → Inbound
sent replies m = record { consumed = true; refused = false; pending = emitted replies m }

abbrev looped : ℕ → List Packet → Packet → Option SynKey → Pending → Inbound
looped now replies pkt none m = sent replies m
looped now replies pkt (some k) m = offered now replies pkt (some k) m

-- The RST of a refused SYN goes to the stack; what the stack emits for that one is left out.
unfoldable pub hairpin : ℕ → List Packet → Packet → Pending → Inbound
unfolding is_syn_only syn_key_for_packet has_rst
hairpin now replies pkt m =
    if is_tcp pkt.protocol && is_syn_only pkt
    then looped now replies pkt (syn_key_for_packet pkt) m
    else sent replies m
