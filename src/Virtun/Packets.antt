-- ===== src/Virtun/Packets.antt =====
-- The packets that fbvirtun/virtun_tcp.go and fbvirtun/virtun_udp.go build: an IP header around a
-- segment. An address is the list of its bytes.
use peerscale.Prelude.{ℕ, ◌+◌, ◌/◌, ◌%◌, ◌^◌, Option, some, List, ◌∷◌, ◌++◌, length, and_then}
use peerscale.Virtun.Checksum.{
  ones_complement_sum, ones_complement_sum_fold, pseudo_checksum, pseudo_checksum6, put_word,
}

abbrev pub proto_tcp : ℕ
proto_tcp = 6

abbrev pub proto_udp : ℕ
proto_udp = 17

-- The 20 bytes before the checksum is put in; uint16(total) wraps.
unfoldable pub header4 : ℕ → List ℕ → List ℕ → ℕ → List ℕ
header4 proto src dst total =
    0x45
    ∷ 0
    ∷ (total % 2 ^ 16 / 256)
    ∷ (total % 256)
    ∷ 0
    ∷ 0
    ∷ 0
    ∷ 0
    ∷ 64
    ∷ proto
    ∷ 0
    ∷ 0
    ∷ (src ++ dst)

unfoldable pub header6 : ℕ → List ℕ → List ℕ → ℕ → List ℕ
header6 proto src dst total =
    0x60 ∷ 0 ∷ 0 ∷ 0 ∷ (total % 2 ^ 16 / 256) ∷ (total % 256) ∷ proto ∷ 64 ∷ (src ++ dst)

-- A copy of the segment with its checksum, which is word `k`.
unfoldable pub with_checksum : ℕ → List ℕ → ℕ → Option (List ℕ)
unfolding put_word ones_complement_sum_fold
with_checksum k seg psum =
    and_then (put_word k 0 seg) λ zeroed. put_word k (ones_complement_sum_fold zeroed psum) zeroed

unfoldable pub build4 : ℕ → ℕ → List ℕ → List ℕ → List ℕ → Option (List ℕ)
build4 proto k src dst seg =
    let ip = header4 proto src dst (20 + length seg) in
    and_then (put_word 5 (ones_complement_sum ip) ip) λ header.
      and_then (with_checksum k seg (pseudo_checksum src dst proto (length seg % 2 ^ 16)))
        (λ body. some (header ++ body))

unfoldable pub build6 : ℕ → ℕ → List ℕ → List ℕ → List ℕ → Option (List ℕ)
build6 proto k src dst seg =
    and_then (with_checksum k seg (pseudo_checksum6 src dst proto (length seg % 2 ^ 16)))
      λ body. some (header6 proto src dst (length seg) ++ body)

-- The checksum of a TCP segment is at byte 16, that of a datagram at byte 6.
unfoldable pub build_packet4 : List ℕ → List ℕ → List ℕ → Option (List ℕ)
unfolding build4
build_packet4 = build4 proto_tcp 8

unfoldable pub build_udp4 : List ℕ → List ℕ → List ℕ → Option (List ℕ)
unfolding build4
build_udp4 = build4 proto_udp 3

unfoldable pub build_packet6 : List ℕ → List ℕ → List ℕ → Option (List ℕ)
unfolding build6
build_packet6 = build6 proto_tcp 8

unfoldable pub build_udp6 : List ℕ → List ℕ → List ℕ → Option (List ℕ)
unfolding build6
build_udp6 = build6 proto_udp 3
