-- ===== src/RelayFile/Chunks.antt =====
-- The bitmap is a set of chunk numbers.
use peerscale.Prelude.{
  ℕ, zero, suc, ◌+◌, ◌/◌, ◌%◌, ◌≤◌, ◌<◌, ◌≡◌, inl, inr, refl, Bool, true, false, ◌&&◌, Option, none,
  some, List, [], ◌∷◌, ◌==◌, ltb, if◌then◌else◌, arith, length, Bool-cases, ap,
}
use peerscale.RelayFile.Bitmap.{
  ℤ, pos, negsuc, test_bit, set_bit, word, set_word, has_pos, bitmap_has, bitmap_set,
  continuous_from, bitmap_max_continuous,
}

test_bit-set_bit : (w k j : ℕ) → test_bit (set_bit w k) j ≡ (if k == j then true else test_bit w j)
test_bit-set_bit w zero zero = ground arith
test_bit-set_bit w zero (suc j) = ground arith
test_bit-set_bit w (suc k) zero = ground arith
test_bit-set_bit w (suc k) (suc j) = ground (arith, test_bit-set_bit (w / 2) k j)

abbrev set_in : Option ℕ → ℕ → Option ℕ
set_in none k = none
set_in (some w) k = some (set_bit w k)

word-set_word :
    (ws : List ℕ) (i j k : ℕ)
    → word (set_word ws i k) j ≡ (if i == j then set_in (word ws j) k else word ws j)
word-set_word [] i j k = ground arith
word-set_word (w ∷ ws) zero zero k = ground arith
word-set_word (w ∷ ws) zero (suc j) k = ground arith
word-set_word (w ∷ ws) (suc i) zero k = ground arith
word-set_word (w ∷ ws) (suc i) (suc j) k = ground (arith, word-set_word ws i j k)

word-in_range : (ws : List ℕ) (i : ℕ) → i < length ws → (w : ℕ) × (word ws i ≡ some w)
word-in_range [] i h = absurd (omega arith)
word-in_range (w ∷ ws) zero h = (w, refl)
word-in_range (w ∷ ws) (suc i) h = word-in_range ws i (omega arith)

word-out_of_range : (ws : List ℕ) (i : ℕ) → length ws ≤ i → word ws i ≡ none
word-out_of_range [] i h = refl
word-out_of_range (w ∷ ws) zero h = absurd (omega arith)
word-out_of_range (w ∷ ws) (suc i) h = word-out_of_range ws i (omega arith)

same_place : (s t : ℕ) → s / 64 ≡ t / 64 → s % 64 ≡ t % 64 → s ≡ t
same_place s t h k = omega (arith, h, k)

pub length-set_word : (ws : List ℕ) (i k : ℕ) → length (set_word ws i k) ≡ length ws
length-set_word [] i k = refl
length-set_word (w ∷ ws) zero k = refl
length-set_word (w ∷ ws) (suc i) k = ap suc (length-set_word ws i k)

pub has_pos-set_word :
    (bitmap : List ℕ) (s t : ℕ)
    → has_pos (set_word bitmap (s / 64) (s % 64)) t
      ≡ (if s == t && ltb (s / 64) (length bitmap) then true else has_pos bitmap t)
unfolding has_pos
has_pos-set_word bitmap s t = elim (Bool-cases (ltb (s / 64) (length bitmap))) [
  | inl inside ↦
      let (w, e) = word-in_range bitmap (s / 64) (ground arith) in
      ground (
        arith,
        word-set_word bitmap (s / 64) (t / 64) (s % 64),
        e,
        test_bit-set_bit w (s % 64) (t % 64),
        same_place s t,
      )
  | inr outside ↦ ground (
    arith,
    word-set_word bitmap (s / 64) (t / 64) (s % 64),
    word-out_of_range bitmap (s / 64),
    same_place s t,
  )
]

-- The loop stops at the first missing chunk, or at its end.
pub continuous_from_first :
    (bitmap : List ℕ) (seq left : ℕ)
    → let n = continuous_from bitmap seq left in
      seq ≤ n
      × n ≤ seq + left
      × ((j : ℕ) → seq ≤ j → j < n → has_pos bitmap j ≡ true)
      × (n < seq + left → has_pos bitmap n ≡ false)
unfolding continuous_from
continuous_from_first bitmap seq zero =
    (omega arith, omega arith, λ j a b. absurd (omega arith), λ h. absurd (omega arith))
continuous_from_first bitmap seq (suc left) = elim (Bool-cases (has_pos bitmap seq)) [
  | inr missing ↦ rw missing (omega arith, omega arith, λ j a b. absurd (omega arith), λ h. missing)
  | inl there ↦
      let (low, high, all, next) = continuous_from_first bitmap (seq + 1) left in
      rw there (
        omega (arith, low),
        omega (arith, high),
        λ j a b. elim (Bool-cases (j == seq)) [
          | inl same ↦ ground (arith, there)
          | inr later ↦ all j (ground arith) b
        ],
        λ h. next (omega arith),
      )
]

abbrev pub same_seq : ℤ → ℤ → Bool
same_seq (pos s) (pos t) = s == t
same_seq (negsuc s) (negsuc t) = s == t
same_seq _ _ = false

-- The chunk has a place in the bitmap.
abbrev pub in_range : List ℕ → ℤ → Bool
in_range bitmap (pos s) = ltb (s / 64) (length bitmap)
in_range bitmap (negsuc n) = false

-- Where bitmapSet does not panic, the bitmap then has exactly the chunk that was set, if there is
-- a place for it, and those that it had before.
pub bitmap_has-bitmap_set :
    (bitmap bitmap' : List ℕ) (s t : ℤ)
    → bitmap_set bitmap s ≡ some bitmap'
    → bitmap_has bitmap' t
      ≡ (if same_seq s t && in_range bitmap s then some true else bitmap_has bitmap t)
unfolding bitmap_has bitmap_set
bitmap_has-bitmap_set bitmap bitmap' (pos s) (pos t) h = ground (arith, has_pos-set_word bitmap s t)
bitmap_has-bitmap_set bitmap bitmap' (pos s) (negsuc t) h = ground arith
bitmap_has-bitmap_set bitmap bitmap' (negsuc s) (pos t) h = ground arith
bitmap_has-bitmap_set bitmap bitmap' (negsuc s) (negsuc t) h = ground arith

-- bitmapMaxContinuous gives the first chunk below the limit that the bitmap does not have, or the
-- limit if it has all of them.
pub bitmap_max_continuous_first :
    (bitmap : List ℕ) (limit : ℕ)
    → let n = bitmap_max_continuous bitmap limit in
      n ≤ limit
      × ((j : ℕ) → j < n → bitmap_has bitmap (pos j) ≡ some true)
      × (n < limit → bitmap_has bitmap (pos n) ≡ some false)
unfolding bitmap_max_continuous bitmap_has
bitmap_max_continuous_first bitmap limit =
    let (low, high, all, next) = continuous_from_first bitmap 0 limit in
    (
      omega (arith, high),
      λ j h. ap (λ b. some b) (all j (omega arith) h),
      λ h. ap (λ b. some b) (next (omega (arith, h))),
    )
