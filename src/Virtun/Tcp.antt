-- ===== src/Virtun/Tcp.antt =====
-- TCP connections of fbvirtun/virtun_tcp.go: the table of bridges, and the RST for a segment without
-- one. What the vtcp library does with a segment is an argument.
use peerscale.Prelude.{
  ℕ, ◌+◌, ◌-◌, ◌*◌, ◌/◌, ◌%◌, ◌^◌, ◌≤◌, ◌<◌, ◌≡◌, ◌≢◌, refl, Bool, true, false, not, Option, none,
  some, List, [], ◌∷◌, length, take, drop, ltb, ◌==◌, ◌&&◌, if◌then◌else◌, arith,
}
use peerscale.Dict.{lookup, insert}
use peerscale.RelayFile.Frame.{uint}

-- binary.BigEndian of `n` bytes from byte `at` on.
abbrev pub field : ℕ → ℕ → List ℕ → ℕ
field at n tcp = uint (take n (drop at tcp))

-- The flag of value `bit` in byte 13.
abbrev pub flag : ℕ → List ℕ → Bool
flag bit tcp = field 13 1 tcp / bit % 2 == 1

abbrev pub fin : List ℕ → Bool
fin = flag 1

abbrev pub syn : List ℕ → Bool
syn = flag 2

abbrev pub ack : List ℕ → Bool
ack = flag 16

-- vtcp.Segment of a reset.
pub record Reset : Type 0 where
  pub src_port : ℕ
  pub dst_port : ℕ
  pub seq : ℕ
  pub ack_number : ℕ
  pub has_ack : Bool

-- uint32(len(tcp) - dataOff), and one more for FIN.
abbrev pub data_len : List ℕ → ℕ
data_len tcp = (length tcp + 2 ^ 32 - field 12 1 tcp / 16 * 4) % 2 ^ 32 + (if fin tcp then 1 else 0)

-- The segment that sendRST4 and sendRST6 send.
unfoldable pub send_rst : List ℕ → Reset
send_rst tcp =
    if ack tcp
    then record {
      src_port = field 2 2 tcp;
      dst_port = field 0 2 tcp;
      seq = field 8 4 tcp;
      ack_number = 0;
      has_ack = false;
    }
    else record {
      src_port = field 2 2 tcp;
      dst_port = field 0 2 tcp;
      seq = 0;
      ack_number = (field 4 4 tcp + data_len tcp) % 2 ^ 32;
      has_ack = true;
    }

-- A connection of the vtcp library with the remote stream that it is bridged to.
pub record Bridge : Type 0 where
  pub vc : ℕ
  pub is_closed : Bool
  pub logged : Bool
  pub remote_open : Bool

-- What happens with a packet: it is too short, goes to a bridge, is answered by a reset, or makes a
-- bridge.
pub data Handled : Type 0 where
  dropped fed opened : Handled
  refused : Reset → Handled

abbrev pub offer : ℕ → List ℕ → Option Bridge → List (ℕ × Bridge) → Handled × List (ℕ × Bridge)
offer key tcp none conns = (refused (send_rst tcp), conns)
offer key tcp (some bridge) conns = (opened, insert key bridge conns)

abbrev pub to_bridge :
    (Bridge → Bridge)
    → ℕ
    → List ℕ
    → Option Bridge
    → Option Bridge
    → List (ℕ × Bridge)
    → Handled × List (ℕ × Bridge)
to_bridge feed key tcp (some b) dialed conns = (fed, insert key (feed b) conns)
to_bridge feed key tcp none dialed conns =
    if not (syn tcp) then (refused (send_rst tcp), conns) else offer key tcp dialed conns

-- handleTCP4 and handleTCP6 at the number `key` of the four parts of a connection. `feed` is what the
-- segment does to its bridge, `dialed` the bridge that newTCPBridge makes, if there is a route and the
-- dial works.
unfoldable pub handle_tcp :
    (Bridge → Bridge) → ℕ → List ℕ → Option Bridge → List (ℕ × Bridge) → Handled × List (ℕ × Bridge)
unfolding send_rst
handle_tcp feed key tcp dialed conns =
    if ltb (length tcp) 20
    then (dropped, conns)
    else to_bridge feed key tcp (lookup key conns) dialed conns

-- The bridges that are left, and those whose remote stream is closed.
unfoldable pub tcp_cleanup : List (ℕ × Bridge) → List (ℕ × Bridge) × List ℕ
tcp_cleanup [] = ([], [])
tcp_cleanup ((key, b) ∷ conns) =
    let (left, closed) = tcp_cleanup conns in
    if b.is_closed then (left, b.vc ∷ closed) else ((key, b) ∷ left, closed)

-- RFC 9293, 3.10.7.3: a client in SYN-SENT that has sent sequence number `iss` takes a reset only if
-- it acknowledges the SYN.
abbrev pub aborts : ℕ → Reset → Bool
aborts iss r = r.has_ack && r.ack_number == (iss + 1) % 2 ^ 32

no_data : (tcp : List ℕ) → length tcp ≡ field 12 1 tcp / 16 * 4 → fin tcp ≡ false → data_len tcp ≡ 0
no_data tcp e f =
    let none_left : (length tcp + 2 ^ 32 - field 12 1 tcp / 16 * 4) % 2 ^ 32 ≡ 0 =
      omega (arith, e) in
    rw (none_left, f) refl

another_number : (n : ℕ) → n < 2 ^ 32 → ((n + 0) % 2 ^ 32 == (n + 1) % 2 ^ 32) ≡ false
another_number n h =
    let differ : (n + 0) % 2 ^ 32 ≢ (n + 1) % 2 ^ 32 = λ e. omega (arith, e, h) in
    ground (arith, differ)

send_rst-aborts :
    (tcp : List ℕ)
    → ack tcp ≡ false
    → data_len tcp ≡ 0
    → field 4 4 tcp < 2 ^ 32
    → aborts (field 4 4 tcp) (send_rst tcp) ≡ false
unfolding send_rst
send_rst-aborts tcp a none_left word = rw (a, none_left) (another_number (field 4 4 tcp) word)

-- A SYN without data that finds no route is answered by a reset that its sender does not take: the
-- reset acknowledges the SYN's own number instead of the next one. No bridge is made.
pub handle_tcp-aborts :
    (feed : Bridge → Bridge) (key : ℕ) (tcp : List ℕ) (conns : List (ℕ × Bridge))
    → (20 ≤ length tcp) × (length tcp ≡ field 12 1 tcp / 16 * 4) × (field 4 4 tcp < 2 ^ 32)
    → (syn tcp ≡ true) × (ack tcp ≡ false) × (fin tcp ≡ false)
    → lookup key conns ≡ none
    → (r : Reset) × (handle_tcp feed key tcp none conns ≡ (refused r, conns))
      × (aborts (field 4 4 tcp) r ≡ false)
unfolding handle_tcp
handle_tcp-aborts feed key tcp conns (long, no_payload, word) (s, a, f) unknown =
    let enough : ltb (length tcp) 20 ≡ false = ground (arith, long) in
    (
      send_rst tcp,
      rw (enough, unknown, s) refl,
      send_rst-aborts tcp a (no_data tcp no_payload f) word,
    )
