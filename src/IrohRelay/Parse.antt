-- ===== src/IrohRelay/Parse.antt =====
-- What the codec writes is read back.
use peerscale.Prelude.{
  ℕ, zero, suc, ◌+◌, ◌*◌, ◌/◌, ◌%◌, ◌^◌, ◌≤◌, ◌<◌, ◌≡◌, refl, inl, inr, true, false, Option, some,
  List, [], ◌∷◌, ◌++◌, length, length-append, take, drop, ltb, ◌==◌, arith, ap, ◌∙◌, Bool-cases,
  sym,
}
use peerscale.RelayFile.Frame.{uint}
use peerscale.RelayFile.Roundtrip.{
  capacity, uint-put_uint, length-put_uint, take-append, drop-append,
}
use mathlib.Core.List.{append_assoc}
use native.Mathlib.Nat.{div-add-mod}
use native.Mathlib.Numerals.{towards_suc}
use peerscale.IrohRelay.Codec.{
  key_bytes, append_leb128, leb128_groups, consume_from, consume_leb128, put_le, le, stream_frame,
  parse_payload, parse_datagram,
}

pub le-put_le : (n v : ℕ) → v < capacity n → le (put_le n v) ≡ v
le-put_le zero v h = omega arith
le-put_le (suc n) v h = omega (arith, le-put_le n (v / 256) (omega (arith, h)))

length-key_bytes : (key : ℕ) → length (key_bytes key) ≡ 32
unfolding key_bytes
length-key_bytes key = length-put_uint 32 key

uint-key_bytes : (key : ℕ) → key < capacity 32 → uint (key_bytes key) ≡ key
unfolding key_bytes
uint-key_bytes key h = uint-put_uint 32 key h

split_at :
    (n : ℕ) (xs ys : List ℕ) → length xs ≡ n → (take n (xs ++ ys) ≡ xs) × (drop n (xs ++ ys) ≡ ys)
split_at n xs ys e = rw (sym e) (take-append xs ys, drop-append xs ys)

-- The key, one byte, and what comes after it.
split_key :
    (key ecn : ℕ) (rest : List ℕ)
    → (take 32 (key_bytes key ++ (ecn ∷ rest)) ≡ key_bytes key)
      × (drop 33 (key_bytes key ++ (ecn ∷ rest)) ≡ rest)
      × (33 ≤ length (key_bytes key ++ (ecn ∷ rest)))
split_key key ecn rest =
    let size = length-key_bytes key in
    let shift : key_bytes key ++ (ecn ∷ rest) ≡ (key_bytes key ++ (ecn ∷ [])) ++ rest =
      sym (append_assoc (key_bytes key) (ecn ∷ []) rest) in
    (
      (split_at 32 (key_bytes key) (ecn ∷ rest) size).0,
      ap (λ l. drop 33 l) shift
          ∙ (split_at 33 (key_bytes key ++ (ecn ∷ [])) rest
              (omega (arith, size, length-append (key_bytes key) (ecn ∷ [])))).1,
      omega (arith, size, length-append (key_bytes key) (ecn ∷ rest)),
    )

parse_payload-stream_frame :
    (src id flags : ℕ) (content : List ℕ)
    → id < 2 ^ 64
    → parse_payload src (stream_frame id flags content)
      ≡ some (record { src = src; id = id; flags = flags; content = content })
unfolding stream_frame
parse_payload-stream_frame src id flags content l =
    ap (λ n. some (record { src = src; id = n; flags = flags; content = content }))
      (le-put_le 8 id (omega (arith, l)))

-- The body of a datagram that the relay hands on: the sender's key, a byte, and the frame.
pub parse_datagram-stream_frame :
    (src id flags ecn : ℕ) (content : List ℕ)
    → src < capacity 32
    → id < 2 ^ 64
    → parse_datagram (key_bytes src ++ (ecn ∷ stream_frame id flags content))
      ≡ some (record { src = src; id = id; flags = flags; content = content })
unfolding parse_datagram
parse_datagram-stream_frame src id flags ecn content k l =
    let (key, rest, long) = split_key src ecn (stream_frame id flags content) in
    let enough : ltb (length (key_bytes src ++ (ecn ∷ stream_frame id flags content))) 33 ≡ false =
      ground (arith, long) in
    rw (enough, key, rest, uint-key_bytes src k) (parse_payload-stream_frame src id flags content l)

-- 128 ^ n, so that `omega` reads it.
abbrev pub groups_limit : ℕ → ℕ
groups_limit zero = 1
groups_limit (suc n) = 128 * groups_limit n

some_pair : {a b c d : ℕ} → a ≡ b → c ≡ d → ◌≡◌ {A = Option (ℕ × ℕ)} (some (a, c)) (some (b, d))
some_pair p q = cc

groups_left : (n v : ℕ) → v < groups_limit n → 0 < v → 0 < n
groups_left zero v h p = absurd (omega arith)
groups_left (suc n) v h p = omega arith

shift_seven : (i : ℕ) → 2 ^ (7 * (i + 1)) ≡ 128 * 2 ^ (7 * i)
shift_seven i =
    let e : 7 * (i + 1) ≡ 7 * i + 7 = omega arith in rw e (simp towards_suc (omega arith))

-- The lowest group of `v`, and the others at the next byte.
split_group : (v i : ℕ) → v * 2 ^ (7 * i) ≡ v % 128 * 2 ^ (7 * i) + v / 128 * 2 ^ (7 * (i + 1))
split_group v i = omega (
  arith,
  ap (λ (t : ℕ). t * 2 ^ (7 * i)) (div-add-mod v 128),
  ap (λ (t : ℕ). v / 128 * t) (shift_seven i),
)

-- The loop of consumeLEB128 at byte `i`, over the groups that are left of a uint64.
consume_from-groups :
    (n i v acc : ℕ) (rest : List ℕ)
    → v < groups_limit n
    → 0 < n
    → acc + v * 2 ^ (7 * i) < 2 ^ 64
    → consume_from i acc (leb128_groups n v ++ rest)
      ≡ some (acc + v * 2 ^ (7 * i), i + length (leb128_groups n v))
unfolding consume_from leb128_groups
consume_from-groups zero i v acc rest h pos l = absurd (omega arith)
consume_from-groups (suc n) i v acc rest h pos l = elim (Bool-cases (v / 128 == 0)) [
  | inl last ↦
      let small : v < 128 = ground (arith, last) in
      let group : v % 128 ≡ v = omega arith in
      let fits : v * 2 ^ (7 * i) % 2 ^ 64 ≡ v * 2 ^ (7 * i) = omega (arith, l) in
      let low : ltb v 128 ≡ true = ground arith in rw (last, group, group, fits, low) refl
  | inr more ↦
      let left : 0 < v / 128 = ground (arith, more) in
      let split = split_group v i in
      let group : (v % 128 + 128) % 128 ≡ v % 128 = omega arith in
      let fits : v % 128 * 2 ^ (7 * i) % 2 ^ 64 ≡ v % 128 * 2 ^ (7 * i) = omega (arith, l, split) in
      let high : ltb (v % 128 + 128) 128 ≡ false = ground arith in
      let below : v / 128 < groups_limit n = omega (arith, h) in
      rw (more, group, fits, high, split)
        (consume_from-groups n (i + 1) (v / 128) (acc + v % 128 * 2 ^ (7 * i)) rest below
            (groups_left n (v / 128) below left) (omega (arith, l, split))
          ∙ some_pair (omega arith) (omega arith))
]

append_leb128-groups : (v : ℕ) → append_leb128 [] v ≡ leb128_groups 10 v
unfolding append_leb128
append_leb128-groups v = refl

-- A uint64 comes back from its groups, with the number of bytes that it took, whatever follows.
pub consume_leb128-append_leb128 :
    (v : ℕ) (rest : List ℕ)
    → v < 2 ^ 64
    → consume_leb128 (append_leb128 [] v ++ rest) ≡ some (v, length (append_leb128 [] v))
unfolding consume_leb128
consume_leb128-append_leb128 v rest h =
    let one : v * 2 ^ (7 * 0) ≡ v = omega arith in
    rw (append_leb128-groups v) (
      consume_from-groups 10 0 v 0 rest (omega arith) (omega arith) (omega (arith, one))
      ∙ some_pair (omega arith) (omega arith))
