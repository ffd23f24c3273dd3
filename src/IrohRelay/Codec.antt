-- ===== src/IrohRelay/Codec.antt =====
-- The bytes of p2put/irohrelay.go: LEB128 numbers, and the frame of a stream inside a datagram. A byte
-- is a number below 256. The | of a byte with a top bit, or of groups of bits that do not overlap, is a
-- sum.
use peerscale.Prelude.{
  ℕ, zero, suc, ◌+◌, ◌*◌, ◌/◌, ◌%◌, ◌^◌, Option, none, some, List, [], ◌∷◌, ◌++◌, length, take,
  drop, ltb, ◌==◌, if◌then◌else◌,
}
use peerscale.RelayFile.Frame.{put_uint, uint}

-- The loop of appendLEB128; a uint64 has ten groups of seven bits at most.
unfoldable pub leb128_groups : ℕ → ℕ → List ℕ
leb128_groups zero v = []
leb128_groups (suc n) v =
    let rest = leb128_groups n (v / 128) in
    if v / 128 == 0 then v % 128 ∷ [] else (v % 128 + 128) ∷ rest

unfoldable pub append_leb128 : List ℕ → ℕ → List ℕ
unfolding leb128_groups
append_leb128 buf v = buf ++ leb128_groups 10 v

-- The loop of consumeLEB128 from the byte `i` on, with what the bytes before it make. A shift by 64 or
-- more gives 0.
unfoldable pub consume_from : ℕ → ℕ → List ℕ → Option (ℕ × ℕ)
consume_from i v [] = none
consume_from i v (b ∷ bs) =
    let v' = v + b % 128 * 2 ^ (7 * i) % 2 ^ 64 in
    let rest = consume_from (i + 1) v' bs in if ltb b 128 then some (v', i + 1) else rest

-- The number and how many bytes it took.
unfoldable pub consume_leb128 : List ℕ → Option (ℕ × ℕ)
unfolding consume_from
consume_leb128 buf = consume_from 0 0 buf

-- binary.LittleEndian, with `n` bytes.
abbrev pub put_le : ℕ → ℕ → List ℕ
put_le zero v = []
put_le (suc n) v = (v % 256) ∷ put_le n (v / 256)

abbrev pub le : List ℕ → ℕ
le [] = 0
le (b ∷ bs) = b + 256 * le bs

abbrev pub flag_data : ℕ
flag_data = 0

abbrev pub flag_close : ℕ
flag_close = 1

abbrev pub flag_reset : ℕ
flag_reset = 2

unfoldable pub stream_frame : ℕ → ℕ → List ℕ → List ℕ
stream_frame id flags content = put_le 8 id ++ (flags ∷ content)

abbrev pub frame_client_to_relay_datagram : ℕ
frame_client_to_relay_datagram = 4

-- A public key of 32 bytes is the number that they write, the highest byte first.
unfoldable pub key_bytes : ℕ → List ℕ
key_bytes key = put_uint 32 key

unfoldable pub datagram : ℕ → List ℕ → List ℕ
unfolding key_bytes
datagram remote payload = frame_client_to_relay_datagram ∷ (key_bytes remote ++ (0 ∷ payload))

pub record StreamFrame : Type 0 where
  pub src : ℕ
  pub id : ℕ
  pub flags : ℕ
  pub content : List ℕ

abbrev pub parse_payload : ℕ → List ℕ → Option StreamFrame
parse_payload src (a ∷ b ∷ c ∷ d ∷ e ∷ f ∷ g ∷ h ∷ flags ∷ content) = some (record {
  src = src;
  id = le (a ∷ b ∷ c ∷ d ∷ e ∷ f ∷ g ∷ h ∷ []);
  flags = flags;
  content = content;
})
parse_payload src _ = none

-- What handleRecvDatagram reads in the body of a datagram; `none` if it is too short.
unfoldable pub parse_datagram : List ℕ → Option StreamFrame
parse_datagram body =
    if ltb (length body) 33 then none else parse_payload (uint (take 32 body)) (drop 33 body)
