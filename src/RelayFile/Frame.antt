-- ===== src/RelayFile/Frame.antt =====
-- Frames of p2put/relayfile.go on a stream of bytes: the length in 4 bytes, the type, the payload.
-- A byte is a number below 256. Writing gives the bytes that go out; reading takes from the bytes
-- that the stream will bring, and fails if it ends first.
use peerscale.Prelude.{
  ℕ, zero, suc, ◌+◌, ◌*◌, ◌/◌, ◌%◌, ◌^◌, Option, none, some, List, [], ◌∷◌, ◌++◌, length, take,
  drop, ltb, if◌then◌else◌, and_then,
}

abbrev pub frame_type_init : ℕ
frame_type_init = 0

abbrev pub frame_type_accept : ℕ
frame_type_accept = 1

abbrev pub frame_type_reject : ℕ
frame_type_reject = 2

abbrev pub frame_type_data : ℕ
frame_type_data = 3

abbrev pub frame_type_ack : ℕ
frame_type_ack = 4

abbrev pub frame_type_fin : ℕ
frame_type_fin = 5

abbrev pub frame_type_done : ℕ
frame_type_done = 6

abbrev pub frame_type_error : ℕ
frame_type_error = 7

abbrev pub frame_type_cancel : ℕ
frame_type_cancel = 8

-- binary.BigEndian, with `n` bytes.
abbrev pub put_uint : ℕ → ℕ → List ℕ
put_uint zero v = []
put_uint (suc n) v = put_uint n (v / 256) ++ ((v % 256) ∷ [])

abbrev pub uint_from : ℕ → List ℕ → ℕ
uint_from acc [] = acc
uint_from acc (b ∷ bs) = uint_from (256 * acc + b) bs

abbrev pub uint : List ℕ → ℕ
uint bs = uint_from 0 bs

-- io.ReadFull into `n` bytes, with the bytes that are left on the stream.
abbrev pub read_full : ℕ → List ℕ → Option (List ℕ × List ℕ)
read_full n src = if ltb (length src) n then none else some (take n src, drop n src)

unfoldable pub frame_write : ℕ → List ℕ → List ℕ
frame_write typ payload = put_uint 4 (length payload % 2 ^ 32) ++ (typ ∷ payload)

-- The type, the payload, and what is left on the stream.
unfoldable pub frame_read : List ℕ → Option (ℕ × List ℕ × List ℕ)
frame_read src = and_then (read_full 4 src) λ (len_bytes, src₁).
    and_then (read_full 1 src₁) λ (typ_buf, src₂).
      and_then (read_full (uint len_bytes) src₂)
        λ (payload, src₃). some (uint typ_buf, payload, src₃)
