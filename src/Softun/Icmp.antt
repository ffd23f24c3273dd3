-- ===== src/Softun/Icmp.antt =====
-- Echo requests to the host, of softun/softun_icmp.go. A message is the list of its bytes; the
-- checksum, which the pktkit and slirp libraries compute, is an argument, with the addresses of the
-- reply bound in it for IPv6.
use peerscale.Prelude.{
  ℕ, ◌≡◌, refl, Bool, true, false, not, Option, none, some, List, [], ◌∷◌, ◌==◌, if◌then◌else◌,
}
use peerscale.Softun.Udp.{high, low}

-- The types of a request and of a reply.
abbrev pub echo : Bool → ℕ
echo true = 8
echo false = 128

abbrev pub echo_answer : Bool → ℕ
echo_answer true = 0
echo_answer false = 129

-- The test in front of both the answer and the message that is built.
unfoldable pub is_echo : Bool → List ℕ → Bool
is_echo is_v4 (t ∷ c ∷ s ∷ u ∷ a ∷ b ∷ d ∷ e ∷ rest) = t == echo is_v4
is_echo is_v4 _ = false

abbrev pub with_sum : Bool → ℕ → List ℕ → List ℕ
with_sum is_v4 sum rest = echo_answer is_v4 ∷ 0 ∷ high sum ∷ low sum ∷ rest

abbrev answer : Bool → (List ℕ → ℕ) → List ℕ → Option (List ℕ)
answer is_v4 checksum (t ∷ c ∷ s ∷ u ∷ rest) =
    some (with_sum is_v4 (checksum (with_sum is_v4 0 rest)) rest)
answer is_v4 checksum _ = none

-- The body of buildICMPv4Reply and of buildICMPv6Reply.
unfoldable pub build_reply : Bool → (List ℕ → ℕ) → List ℕ → Option (List ℕ)
unfolding is_echo
build_reply is_v4 checksum icmp =
    if not (is_echo is_v4 icmp) then none else answer is_v4 checksum icmp

-- Whether the message is consumed, and the reply that is routed. `payload` is the IP payload; for
-- IPv4 the reply takes `behind`, all bytes behind the header, for IPv6 the payload again.
unfoldable pub handle_inbound_icmp : Bool → (List ℕ → ℕ) → List ℕ → List ℕ → Bool × Option (List ℕ)
unfolding is_echo build_reply
handle_inbound_icmp is_v4 checksum payload behind =
    if not (is_echo is_v4 payload)
    then (false, none)
    else (true, build_reply is_v4 checksum (if is_v4 then behind else payload))

-- A reply is not answered again, whatever sum it carries.
with_sum-ends :
    (is_v4 : Bool) (checksum : List ℕ → ℕ) (sum : ℕ) (rest behind : List ℕ)
    → handle_inbound_icmp is_v4 checksum (with_sum is_v4 sum rest) behind ≡ (false, none)
unfolding handle_inbound_icmp is_echo
with_sum-ends true checksum sum (a ∷ b ∷ c ∷ d ∷ rest) behind = refl
with_sum-ends false checksum sum (a ∷ b ∷ c ∷ d ∷ rest) behind = refl
with_sum-ends is_v4 checksum sum [] behind = refl
with_sum-ends is_v4 checksum sum (a ∷ []) behind = refl
with_sum-ends is_v4 checksum sum (a ∷ b ∷ []) behind = refl
with_sum-ends is_v4 checksum sum (a ∷ b ∷ c ∷ []) behind = refl

-- A request is consumed and answered with its identifier, its sequence number and its data.
handle_inbound_icmp-echoes :
    (is_v4 : Bool) (checksum : List ℕ → ℕ) (c s u i j k l : ℕ) (rest : List ℕ)
    → let content = i ∷ j ∷ k ∷ l ∷ rest in
      let request = echo is_v4 ∷ c ∷ s ∷ u ∷ content in
      handle_inbound_icmp is_v4 checksum request request
      ≡ (true, some (with_sum is_v4 (checksum (with_sum is_v4 0 content)) content))
unfolding handle_inbound_icmp build_reply is_echo
handle_inbound_icmp-echoes true checksum c s u i j k l rest = refl
handle_inbound_icmp-echoes false checksum c s u i j k l rest = refl
