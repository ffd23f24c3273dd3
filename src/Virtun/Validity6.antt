-- ===== src/Virtun/Validity6.antt =====
-- What a receiver finds when it checks an IPv6 packet that was built.
use peerscale.Prelude.{
  ℕ, ◌+◌, ◌-◌, ◌*◌, ◌%◌, ◌^◌, ◌≤◌, ◌<◌, ◌≡◌, ◌≢◌, refl, Option, some, List, ◌++◌, length, arith, ap,
  sym, ◌∙◌,
}
use peerscale.Virtun.Checksum.{ones_complement_sum_fold, pseudo_checksum6, words, AllBytes}
use peerscale.Virtun.Sums.{sum_fold-norm, norm, words-bound}
use peerscale.Virtun.Packets.{proto_tcp, proto_udp, header6, build6, build_packet6, build_udp6}
use peerscale.Virtun.Validity.{with_checksum_valid}

abbrev pub IsAddr6 : List ℕ → Type 0
IsAddr6 a = (length a ≡ 16) × AllBytes a

-- The pseudo header of RFC 8200: the addresses, the length and the protocol.
abbrev pub pseudo_header6 : List ℕ → List ℕ → ℕ → ℕ → ℕ
pseudo_header6 src dst proto total = words src + words dst + total + proto

norm_shifted : (x n : ℕ) → 0xffff - norm x ≡ 0 → 0 < n → n < 0xffff → norm (x + n) ≡ n
norm_shifted x n h pos small = ground arith

off_by_length :
    (psum n : ℕ) (body : List ℕ)
    → (0 < n) × (n < 0xffff)
    → psum + n + words body < 2 ^ 32
    → ones_complement_sum_fold body psum ≡ 0
    → ones_complement_sum_fold body (psum + n) ≢ 0
off_by_length psum n body (pos, small) fits good bad =
    let sum = sum_fold-norm body psum (omega (arith, fits)) in
    let off = sum_fold-norm body (psum + n) fits in
    let order : psum + n + words body ≡ psum + words body + n = omega arith in
    let shifted = norm_shifted (psum + words body) n (omega (arith, good, sum)) pos small in
    omega (arith, off, bad, ap (λ m. norm m) order, shifted, small)

-- A packet as a receiver checks it by RFC 8200: the header of this segment, and a body of its length
-- whose sum does not check.
abbrev pub FailsCheck6 : ℕ → List ℕ → List ℕ → List ℕ → Option (List ℕ) → Type 0
FailsCheck6 proto src dst seg packet =
    (body : List ℕ) × (packet ≡ some (header6 proto src dst (length seg) ++ body))
    × (length body ≡ length seg)
    × (ones_complement_sum_fold body (pseudo_header6 src dst proto (length body)) ≢ 0)

-- The length does not enter the sum.
pseudo_checksum6_lem :
    (src dst : List ℕ) (proto total : ℕ)
    → pseudo_checksum6 src dst proto (total % 2 ^ 16) ≡ words src + words dst + proto
unfolding pseudo_checksum6
pseudo_checksum6_lem src dst proto total = omega arith

build6-FailsCheck6 :
    (proto k : ℕ) (src dst seg : List ℕ)
    → proto < 256
    → IsAddr6 src × IsAddr6 dst
    → (2 * k + 2 ≤ length seg) × (length seg < 0xffff)
    → AllBytes seg
    → FailsCheck6 proto src dst seg (build6 proto k src dst seg)
unfolding build6
build6-FailsCheck6 proto k src dst seg p (s, d) (room, short) b =
    let psum = words src + words dst + proto in
    let bound : psum < 2 ^ 21 =
      omega (arith, p, words-bound src s.1, words-bound dst d.1, s.0, d.0) in
    let (body, made, sums, same, kept, most) =
      with_checksum_valid k psum seg (room, omega (arith, short)) bound b in
    let right : pseudo_header6 src dst proto (length body) ≡ psum + length seg =
      omega (arith, same) in
    let fails =
      off_by_length psum (length seg) body (omega (arith, room), short)
        (omega (arith, bound, most, short)) sums in
    (
      body,
      rw (pseudo_checksum6_lem src dst proto (length seg), made) refl,
      same,
      λ e. fails (ap (λ n. ones_complement_sum_fold body n) (sym right) ∙ e),
    )

-- No TCP segment that goes out in an IPv6 packet passes the receiver's check, and no datagram: the
-- pseudo header of the sender leaves the length out. The segment has at least 18 bytes and fewer than
-- 65535.
pub build_packet6-build_udp6-FailsCheck6 :
    (src dst seg : List ℕ)
    → IsAddr6 src × IsAddr6 dst
    → (18 ≤ length seg) × (length seg < 0xffff)
    → AllBytes seg
    → FailsCheck6 proto_tcp src dst seg (build_packet6 src dst seg)
      × FailsCheck6 proto_udp src dst seg (build_udp6 src dst seg)
unfolding build_packet6 build_udp6
build_packet6-build_udp6-FailsCheck6 src dst seg addrs (room, short) b = (
  build6-FailsCheck6 proto_tcp 8 src dst seg (omega arith) addrs (omega arith, short) b,
  build6-FailsCheck6 proto_udp 3 src dst seg (omega arith) addrs (omega arith, short) b,
)
