-- ===== src/Softun/Udp.antt =====
-- UDP listeners of the user-space network device, of softun/softun_udp.go. A datagram is the bytes
-- behind the IP header; the IP header and the checksum, which the pktkit library fills in, are
-- arguments.
use peerscale.Prelude.{
  ℕ, ◌+◌, ◌-◌, ◌*◌, ◌/◌, ◌%◌, ◌^◌, ◌<◌, ◌≡◌, refl, Bool, true, false, Option, none, some, List, [],
  ◌∷◌, ◌++◌, length, take, ltb, ◌||◌, if◌then◌else◌, arith, ap,
}
use peerscale.Dict.{lookup, has_key, insert, erase}

-- The capacity of recvCh.
abbrev pub recv_cap : ℕ
recv_cap = 64

pub record Datagram : Type 0 where
  pub content : List ℕ
  pub remote : ℕ
  pub remote_port : ℕ

-- udpListeners: what waits in the channel of each, the oldest first.
abbrev pub Listeners : Type 0
Listeners = List (ℕ × List Datagram)

-- Whether the port was free.
unfoldable pub listen_udp : ℕ → Listeners → Bool × Listeners
listen_udp port ls = if has_key port ls then (false, ls) else (true, insert port [] ls)

-- The first Close of a listener.
unfoldable pub close_udp : ℕ → Listeners → Listeners
close_udp port ls = erase port ls

-- ReadFrom of an open listener into a buffer of `size` bytes; `none` while there is nothing to read.
unfoldable pub read_from : ℕ → ℕ → Listeners → Option Datagram × Listeners
read_from port size ls = elim (lookup port ls) [
  | none ↦ (none, ls)
  | some [] ↦ (none, ls)
  | some (d ∷ ds) ↦ (some (record d { content = take size d.content }), insert port ds ls)
]

-- binary.BigEndian.PutUint16(b, uint16(n))
abbrev pub high : ℕ → ℕ
high n = n % 2 ^ 16 / 256

abbrev pub low : ℕ → ℕ
low n = n % 256

-- What WriteTo puts behind the IP header; the checksum's two bytes are filled in later.
unfoldable pub udp_payload : ℕ → ℕ → ℕ → ℕ → List ℕ → List ℕ
udp_payload from to sum_high sum_low p =
    high from
    ∷ low from
    ∷ high to
    ∷ low to
    ∷ high (8 + length p)
    ∷ low (8 + length p)
    ∷ sum_high
    ∷ sum_low
    ∷ p

-- Not consumed, or consumed: as malformed, delivered, or once the listener reads or closes.
pub data Delivery : Type 0 where
  passed_on malformed delivered blocks : Delivery

abbrev pub enqueue : ℕ → Datagram → List Datagram → Listeners → Delivery × Listeners
enqueue port d queue ls =
    if ltb (length queue) recv_cap
    then (delivered, insert port (queue ++ (d ∷ [])) ls)
    else (blocks, ls)

abbrev pub to_listener :
    ℕ → ℕ → ℕ → ℕ → List ℕ → Option (List Datagram) → Listeners → Delivery × Listeners
to_listener src from to len body none ls = (passed_on, ls)
to_listener src from to len body (some queue) ls =
    if ltb len 8 || ltb (8 + length body) len
    then (malformed, ls)
    else enqueue to (record { content = take (len - 8) body; remote = src; remote_port = from })
        queue ls

unfoldable pub handle_inbound_udp : ℕ → List ℕ → Listeners → Delivery × Listeners
handle_inbound_udp src (a ∷ b ∷ c ∷ d ∷ e ∷ f ∷ g ∷ h ∷ body) ls =
    let to = c * 256 + d in to_listener src (a * 256 + b) to (e * 256 + f) body (lookup to ls) ls
handle_inbound_udp src _ ls = (passed_on, ls)

bytes : (n : ℕ) → n < 2 ^ 16 → high n * 256 + low n ≡ n
bytes n h = omega (arith, h)

take-length : (xs : List ℕ) → take (length xs) xs ≡ xs
take-length [] = refl
take-length (x ∷ xs) = ap (λ l. x ∷ l) (take-length xs)

-- A datagram of fewer than 2 ^ 16 bytes with its header that WriteTo sends from one port to another
-- is what the listener there gets, with the sender's address and port, whatever its checksum, if
-- there is a listener and its channel is not full: it comes behind what waits there.
pub handle_inbound_udp-udp_payload :
    (src from to sum_high sum_low : ℕ) (p : List ℕ) (queue : List Datagram) (ls : Listeners)
    → (from < 2 ^ 16) × (to < 2 ^ 16)
    → 8 + length p < 2 ^ 16
    → lookup to ls ≡ some queue
    → length queue < recv_cap
    → handle_inbound_udp src (udp_payload from to sum_high sum_low p) ls ≡ (
      delivered,
      insert to (queue ++ (record { content = p; remote = src; remote_port = from } ∷ [])) ls,
    )
unfolding handle_inbound_udp udp_payload
handle_inbound_udp-udp_payload src from to sum_high sum_low p queue ls (f, t) l there room =
    let free : ltb (length queue) recv_cap ≡ true = ground (arith, room) in
    let whole : (ltb (8 + length p) 8 || ltb (8 + length p) (8 + length p)) ≡ false =
      ground arith in
    let size : 8 + length p - 8 ≡ length p = omega arith in
    rw (bytes from f, bytes to t, bytes (8 + length p) l, there, whole, size, take-length p, free)
      refl
