-- ===== src/Virtun/Validity.antt =====
-- What a receiver finds when it checks a packet that was built.
use peerscale.Prelude.{
  ℕ, ◌+◌, ◌-◌, ◌*◌, ◌/◌, ◌%◌, ◌^◌, ◌≤◌, ◌<◌, ◌≡◌, refl, Option, some, List, [], ◌∷◌, ◌++◌, length,
  length-append, arith, ◌∙◌, sym, subst,
}
use peerscale.Virtun.Checksum.{
  ones_complement_sum, ones_complement_sum_fold, pseudo_checksum, put_word, words, AllBytes,
}
use peerscale.Virtun.Sums.{clear, filled_sum, words-bound, norm, sum_fold-norm}
use peerscale.Virtun.Packets.{
  proto_tcp, proto_udp, header4, with_checksum, build4, build_packet4, build_udp4,
}

-- An IPv4 address as bytes.
abbrev pub IsAddr4 : List ℕ → Type 0
IsAddr4 a = (length a ≡ 4) × AllBytes a

-- The segment with its checksum.
pub with_checksum_valid :
    (k psum : ℕ) (seg : List ℕ)
    → (2 * k + 2 ≤ length seg) × (length seg < 2 ^ 16)
    → psum < 2 ^ 21
    → AllBytes seg
    → (body : List ℕ) × (with_checksum k seg psum ≡ some body)
      × (ones_complement_sum_fold body psum ≡ 0)
      × (length body ≡ length seg)
      × (put_word k 0 body ≡ put_word k 0 seg)
      × (words body < 2 ^ 31 + 2 ^ 17)
unfolding with_checksum
with_checksum_valid k psum seg (room, short) p b =
    let c = clear k seg room b in
    let (body, is, good, size, back, most) =
      filled_sum k psum seg c
        (omega (arith, words-bound c.empty c.bytes, c.same_length, short, p)) in
    (
      body,
      rw c.is is,
      good,
      size,
      back ∙ sym c.is,
      omega (arith, most, words-bound c.empty c.bytes, c.same_length, short),
    )

AllBytes-append : (xs ys : List ℕ) → AllBytes xs → AllBytes ys → AllBytes (xs ++ ys)
AllBytes-append [] ys h k = k
AllBytes-append (x ∷ xs) ys h k = (h.0, AllBytes-append xs ys h.1 k)

module _ (proto : ℕ) (src dst : List ℕ) (total : ℕ) (p : proto < 256) (s : IsAddr4 src)
    (d : IsAddr4 dst) where
  header4-AllBytes : AllBytes (header4 proto src dst total)
  unfolding header4
  header4-AllBytes = ground (arith, AllBytes-append src dst s.1 d.1)

  length-header4 : length (header4 proto src dst total) ≡ 20
  unfolding header4
  length-header4 = omega (arith, length-append src dst, s.0, d.0)

  header4-cleared : put_word 5 0 (header4 proto src dst total) ≡ some (header4 proto src dst total)
  unfolding header4 put_word
  header4-cleared = refl

  header_valid :
      (header : List ℕ) × (v : ℕ) × (put_word 5 v (header4 proto src dst total) ≡ some header)
      × (v ≡ ones_complement_sum (header4 proto src dst total))
      × (ones_complement_sum_fold header 0 ≡ 0)
      × (words header < 2 ^ 31)
  unfolding ones_complement_sum
  header_valid =
      let ip = header4 proto src dst total in
      let c = clear 5 ip (omega (arith, length-header4)) header4-AllBytes in
      let same : c.empty ≡ ip = ground (arith, header4-cleared, c.is) in
      let (header, is, good, size, back, most) =
        filled_sum 5 0 ip c
          (omega (arith, words-bound c.empty c.bytes, c.same_length, length-header4)) in
      (
        header,
        _,
        subst (λ e. put_word 5 (ones_complement_sum_fold e 0) e ≡ some header) same is,
        refl,
        good,
        omega (arith, most, words-bound c.empty c.bytes, c.same_length, length-header4),
      )

-- RFC 1071: words and their checksum are good if their one's complement sum is all ones, so if they
-- add up to a multiple of 65535 that is not 0.
abbrev pub AddsUp : ℕ → Type 0
AddsUp sum = (0 < sum) × (sum % 65535 ≡ 0)

-- The pseudo header of RFC 793 and RFC 768: the addresses, the protocol and the length.
abbrev pub pseudo_header4 : List ℕ → List ℕ → ℕ → ℕ → ℕ
pseudo_header4 src dst proto total = words src + words dst + proto + total

-- A header of RFC 791 without options, with a time to live of 64, neither a fragment nor part of one.
abbrev pub IsHeader4 : ℕ → List ℕ → List ℕ → ℕ → List ℕ → Type 0
IsHeader4 proto src dst total header =
    (hi : ℕ) × (lo : ℕ) × (c : ℕ) × (d : ℕ) × (header
      ≡ 0x45 ∷ 0 ∷ hi ∷ lo ∷ 0 ∷ 0 ∷ 0 ∷ 0 ∷ 64 ∷ proto ∷ c ∷ d ∷ (src ++ dst))
    × (hi * 256 + lo ≡ total)
    × AddsUp (words header)

-- A packet as a receiver checks it: a header for all of it, and a body that is the segment but for
-- its checksum, word `k`, and adds up with the pseudo header.
abbrev pub IsValid4 : ℕ → ℕ → List ℕ → List ℕ → List ℕ → Option (List ℕ) → Type 0
IsValid4 proto k src dst seg packet =
    (header : List ℕ) × (body : List ℕ) × (packet ≡ some (header ++ body))
    × IsHeader4 proto src dst (20 + length seg) header
    × (length body ≡ length seg)
    × AddsUp (pseudo_header4 src dst proto (length body) + words body)
    × (put_word k 0 body ≡ put_word k 0 seg)

good-AddsUp :
    (body : List ℕ) (psum : ℕ)
    → psum + words body < 2 ^ 32
    → ones_complement_sum_fold body psum ≡ 0
    → AddsUp (psum + words body)
good-AddsUp body psum fits good =
    let sum = sum_fold-norm body psum fits in
    let full : 0xffff - norm (psum + words body) ≡ 0 = sym sum ∙ good in
    (ground (arith, full), ground (arith, full))

-- What a value put into the header's checksum makes of it.
put_word-header4 :
    (proto v total : ℕ) (src dst header : List ℕ)
    → put_word 5 v (header4 proto src dst total) ≡ some header
    → total < 2 ^ 16
    → AddsUp (words header)
    → IsHeader4 proto src dst total header
unfolding put_word header4
put_word-header4 proto v total src dst header e small good =
    let is : header
        ≡ 0x45
          ∷ 0
          ∷ (total % 2 ^ 16 / 256)
          ∷ (total % 256)
          ∷ 0
          ∷ 0
          ∷ 0
          ∷ 0
          ∷ 64
          ∷ proto
          ∷ (v / 256)
          ∷ (v % 256)
          ∷ (src ++ dst) =
      cc e in
    (_, _, _, _, is, omega (arith, small), good)

pseudo-lt :
    (proto total : ℕ) (src dst : List ℕ)
    → proto < 256
    → total < 2 ^ 16
    → IsAddr4 src
    → IsAddr4 dst
    → pseudo_checksum src dst proto total < 2 ^ 21
unfolding pseudo_checksum
pseudo-lt proto total src dst p t s d =
    omega (arith, words-bound src s.1, words-bound dst d.1, s.0, d.0)

build4-IsValid4 :
    (proto k : ℕ) (src dst seg : List ℕ)
    → proto < 256
    → IsAddr4 src × IsAddr4 dst
    → (2 * k + 2 ≤ length seg) × (20 + length seg < 2 ^ 16)
    → AllBytes seg
    → IsValid4 proto k src dst seg (build4 proto k src dst seg)
unfolding build4 pseudo_checksum
build4-IsValid4 proto k src dst seg p (s, d) (room, fits) b =
    let short : length seg < 2 ^ 16 = omega (arith, fits) in
    let (header, v, is, at, good, little) = header_valid proto src dst (20 + length seg) p s d in
    let wraps : length seg % 2 ^ 16 ≡ length seg = omega (arith, short) in
    let psum = pseudo_checksum src dst proto (length seg) in
    let bound : psum < 2 ^ 21 = pseudo-lt proto (length seg) src dst p short s d in
    let (body, made, sums, same, kept, most) =
      with_checksum_valid k psum seg (room, short) bound b in
    let adds : AddsUp (words header) =
      subst AddsUp (omega arith) (good-AddsUp header 0 (omega (arith, little)) good) in
    (
      header,
      body,
      rw (sym at, is, wraps, made) refl,
      put_word-header4 proto v (20 + length seg) src dst header is fits adds,
      same,
      rw same (good-AddsUp body psum (omega (arith, bound, most)) sums),
      kept,
    )

-- A TCP segment of at least 18 bytes, between two IPv4 addresses and in a packet of fewer than 2 ^ 16,
-- goes out with a header and a body. The header is one of RFC 791, with the length of both, the
-- protocol and the addresses, and its words add up as a receiver wants them to. The body is the
-- segment but for its checksum, and adds up with the pseudo header of RFC 793.
pub build_packet4-IsValid4 :
    (src dst seg : List ℕ)
    → IsAddr4 src × IsAddr4 dst
    → (18 ≤ length seg) × (20 + length seg < 2 ^ 16)
    → AllBytes seg
    → IsValid4 proto_tcp 8 src dst seg (build_packet4 src dst seg)
unfolding build_packet4
build_packet4-IsValid4 src dst seg addrs size b =
    build4-IsValid4 proto_tcp 8 src dst seg (omega arith) addrs (omega (arith, size)) b

-- A datagram of at least 8 bytes, between two IPv4 addresses and in a packet of fewer than 2 ^ 16, goes
-- out with a header and a body as a TCP segment does, with the checksum at byte 6.
pub build_udp4-IsValid4 :
    (src dst seg : List ℕ)
    → IsAddr4 src × IsAddr4 dst
    → (8 ≤ length seg) × (20 + length seg < 2 ^ 16)
    → AllBytes seg
    → IsValid4 proto_udp 3 src dst seg (build_udp4 src dst seg)
unfolding build_udp4
build_udp4-IsValid4 src dst seg addrs size b =
    build4-IsValid4 proto_udp 3 src dst seg (omega arith) addrs (omega (arith, size)) b
