-- ===== src/Softun/Refusal.antt =====
-- When an inbound connection is refused.
use peerscale.Prelude.{
  ℕ, ◌+◌, ◌*◌, ◌≤◌, ◌≡◌, refl, inl, inr, Bool, true, false, not, ◌&&◌, ◌||◌, Option, none, some,
  List, [], ◌∷◌, length, leb, ◌==◌, if◌then◌else◌, arith, Option-cases,
}
use peerscale.Softun.{
  Packet, SynKey, same_key, Pending, is_pending, set_syn_pending, forget, take_syn_pending,
  syn_key_for_packet, syn_ack_key_from_packet, is_syn_only, is_tcp, has_flags,
  clear_syn_pending_for_packet, emitted, handle_inbound_tcp, hairpin, has_rst, syn_ack_key_of,
  ports,
}

abbrev pub answers : ℕ → ℕ → ℕ → Packet → List ℕ → Bool
answers remote remote_port local_port pkt (a ∷ b ∷ c ∷ d ∷ rest) =
    pkt.dst == remote && (a * 256 + b == local_port && c * 256 + d == remote_port)
answers remote remote_port local_port pkt _ = false

-- The packet is a SYN-ACK from the local port of the key to its remote end.
abbrev pub accepts : SynKey → Packet → Bool
accepts k pkt =
    (is_tcp pkt.protocol && (has_flags pkt.payload && (pkt.syn && pkt.ack)))
    && answers k.remote k.remote_port k.local_port pkt pkt.payload

abbrev pub any_accepts : SynKey → List Packet → Bool
any_accepts k [] = false
any_accepts k (pkt ∷ pkts) = accepts k pkt || any_accepts k pkts

is_pending-forget :
    (j k : SynKey) (m : Pending)
    → is_pending k (forget j m) ≡ (if same_key j k then false else is_pending k m)
is_pending-forget j k [] = ground arith
is_pending-forget j k ((i, at) ∷ m) = ground (arith, is_pending-forget j k m)

is_pending-set :
    (now : ℕ) (k : SynKey) (m : Pending) → is_pending k (set_syn_pending now k m) ≡ true
unfolding set_syn_pending
is_pending-set now k [] = ground arith
is_pending-set now k ((i, at) ∷ m) = ground (arith, is_pending-set now k m)

abbrev key_is : SynKey → Option SynKey → Bool
key_is k none = false
key_is k (some j) = same_key j k

key_is-ports :
    (k : SynKey) (pkt : Packet) (payload : List ℕ)
    → key_is k (syn_ack_key_of pkt (ports payload))
      ≡ answers k.remote k.remote_port k.local_port pkt payload
key_is-ports k pkt [] = refl
key_is-ports k pkt (a ∷ []) = refl
key_is-ports k pkt (a ∷ b ∷ []) = refl
key_is-ports k pkt (a ∷ b ∷ c ∷ []) = refl
key_is-ports k pkt (a ∷ b ∷ c ∷ d ∷ rest) = ground arith

is_pending-clear :
    (k : SynKey) (pkt : Packet) (m : Pending)
    → is_pending k (clear_syn_pending_for_packet pkt m)
      ≡ (if accepts k pkt then false else is_pending k m)
unfolding clear_syn_pending_for_packet syn_ack_key_from_packet
is_pending-clear k pkt m = elim (Option-cases (syn_ack_key_from_packet pkt)) [
  | inl no_ports ↦ ground (arith, no_ports, key_is-ports k pkt pkt.payload)
  | inr (j, key) ↦ ground (arith, key, is_pending-forget j k m, key_is-ports k pkt pkt.payload)
]

is_pending-emitted :
    (k : SynKey) (pkts : List Packet) (m : Pending)
    → is_pending k (emitted pkts m) ≡ (if any_accepts k pkts then false else is_pending k m)
unfolding emitted
is_pending-emitted k [] m = refl
is_pending-emitted k (pkt ∷ pkts) m = ground (
  arith,
  is_pending-emitted k pkts (clear_syn_pending_for_packet pkt m),
  is_pending-clear k pkt m,
)

has_flags-length : (xs : List ℕ) → 14 ≤ length xs → has_flags xs ≡ true
has_flags-length xs h = ground (arith, h)

-- A SYN without ACK, of at least 14 bytes, is consumed, whatever the stack does. A RST is sent exactly
-- if none of the packets that the stack emits while it takes the SYN is a SYN-ACK from the SYN's
-- destination port to its source, and the SYN has 20 bytes or more and can be parsed. No marker of
-- the connection is left.
pub handle_inbound_tcp-refused :
    (now : ℕ) (replies : List Packet) (pkt : Packet) (a b c d : ℕ) (rest : List ℕ) (m : Pending)
    → (pkt.syn ≡ true) × (pkt.ack ≡ false)
    → pkt.payload ≡ a ∷ b ∷ c ∷ d ∷ rest
    → 14 ≤ length pkt.payload
    → let k : SynKey = record {
      remote = pkt.src;
      remote_port = a * 256 + b;
      local_port = c * 256 + d;
    } in
      let r = handle_inbound_tcp now replies pkt m in
      (r.consumed ≡ true)
      × (r.refused ≡ (not (any_accepts k replies) && (leb 20 (length pkt.payload) && pkt.parses)))
      × (is_pending k r.pending ≡ false)
unfolding handle_inbound_tcp take_syn_pending is_syn_only syn_key_for_packet has_rst
handle_inbound_tcp-refused now replies pkt a b c d rest m (syn, ack) payload long =
    let k : SynKey = record {
      remote = pkt.src;
      remote_port = a * 256 + b;
      local_port = c * 256 + d;
    } in
    let set = set_syn_pending now k m in
    let flagged : is_syn_only pkt ≡ true =
      ground (arith, syn, ack, has_flags-length pkt.payload long) in
    let key : syn_key_for_packet pkt ≡ some k = rw payload refl in
    let closed : is_pending k (emitted replies set) ≡ not (any_accepts k replies) =
      ground (arith, is_pending-emitted k replies set, is_pending-set now k m) in
    rw (flagged, key)
      (refl, ground (arith, closed), ground (arith, is_pending-forget k k (emitted replies set)))

-- A TCP SYN of the host to itself, whose ports can be read, is offered as one from a peer is.
hairpin-inbound :
    (now : ℕ) (replies : List Packet) (pkt : Packet) (k : SynKey) (m : Pending)
    → is_tcp pkt.protocol ≡ true
    → is_syn_only pkt ≡ true
    → syn_key_for_packet pkt ≡ some k
    → hairpin now replies pkt m ≡ handle_inbound_tcp now replies pkt m
unfolding hairpin handle_inbound_tcp
hairpin-inbound now replies pkt k m tcp syn key = rw (tcp, syn, key) refl
