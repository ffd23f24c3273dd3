-- ===== src/RelayFile/Bitmap.antt =====
-- The bitmap of received chunks of p2put/relayfile.go: words of 64 bits, chunk `seq` at bit
-- seq % 64 of word seq / 64. A sequence number is an int64, which the sender chooses; an index
-- below zero panics, which is `none` here.
use peerscale.Prelude.{
  ℕ, zero, suc, ◌+◌, ◌-◌, ◌*◌, ◌/◌, ◌%◌, ◌^◌, Bool, false, Option, none, some, List, [], ◌∷◌, ◌==◌,
  ltb, if◌then◌else◌,
}

-- negsuc n is -(n + 1).
pub data ℤ : Type 0 where
  pos negsuc : ℕ → ℤ

-- int64(v) of a uint64.
unfoldable pub int64 : ℕ → ℤ
int64 v = if ltb v (2 ^ 63) then pos v else negsuc (2 ^ 64 - 1 - v)

-- w & (1 << k) != 0
abbrev pub test_bit : ℕ → ℕ → Bool
test_bit w zero = w % 2 == 1
test_bit w (suc k) = test_bit (w / 2) k

-- w | 1 << k
abbrev pub set_bit : ℕ → ℕ → ℕ
set_bit w zero = 2 * (w / 2) + 1
set_bit w (suc k) = 2 * set_bit (w / 2) k + w % 2

abbrev pub word : List ℕ → ℕ → Option ℕ
word [] i = none
word (w ∷ ws) zero = some w
word (w ∷ ws) (suc i) = word ws i

abbrev pub set_word : List ℕ → ℕ → ℕ → List ℕ
set_word [] i k = []
set_word (w ∷ ws) zero k = set_bit w k ∷ ws
set_word (w ∷ ws) (suc i) k = w ∷ set_word ws i k

-- make([]uint64, n)
abbrev pub zeros : ℕ → List ℕ
zeros zero = []
zeros (suc n) = 0 ∷ zeros n

unfoldable pub has_pos : List ℕ → ℕ → Bool
has_pos bitmap seq = elim (word bitmap (seq / 64)) [ none ↦ false | some w ↦ test_bit w (seq % 64) ]

-- Go's / and % cut towards zero. From -63 to -1 the word is 0, if there is one, and the shift count
-- uint(seq % 64) is past the word's 64 bits, so no bit is meant; below that the word's index is
-- negative.
unfoldable pub bitmap_has : List ℕ → ℤ → Option Bool
unfolding has_pos
bitmap_has bitmap (pos seq) = some (has_pos bitmap seq)
bitmap_has bitmap (negsuc n) = if ltb n 63 then some false else none

unfoldable pub bitmap_set : List ℕ → ℤ → Option (List ℕ)
bitmap_set bitmap (pos seq) = some (set_word bitmap (seq / 64) (seq % 64))
bitmap_set bitmap (negsuc n) = if ltb n 63 then some bitmap else none

-- The loop of bitmapMaxContinuous from `seq` on, with `left` numbers below the limit.
unfoldable pub continuous_from : List ℕ → ℕ → ℕ → ℕ
unfolding has_pos
continuous_from bitmap seq zero = seq
continuous_from bitmap seq (suc left) =
    let rest = continuous_from bitmap (seq + 1) left in if has_pos bitmap seq then rest else seq

unfoldable pub bitmap_max_continuous : List ℕ → ℕ → ℕ
unfolding continuous_from
bitmap_max_continuous bitmap limit = continuous_from bitmap 0 limit
