-- ===== src/Virtun/Checksum.antt =====
-- The Internet checksum of fbvirtun/virtun.go over a list of bytes, numbers below 256. A sum is a
-- uint32; the | of a shifted byte and a byte is a sum.
use peerscale.Prelude.{
  ℕ, zero, suc, ◌+◌, ◌-◌, ◌*◌, ◌/◌, ◌%◌, ◌^◌, ◌<◌, Option, none, some, List, [], ◌∷◌, ltb,
  if◌then◌else◌, All, and_then,
}

-- The loop over the words, from `sum` on; a last odd byte is the high half of a word.
unfoldable pub sum_words : ℕ → List ℕ → ℕ
sum_words sum [] = sum
sum_words sum (a ∷ []) = (sum + a * 256) % 2 ^ 32
sum_words sum (a ∷ b ∷ bs) = sum_words ((sum + (a * 256 + b)) % 2 ^ 32) bs

-- The loop that folds the carries; a uint32 is folded twice at most.
unfoldable pub fold_carries : ℕ → ℕ → ℕ
fold_carries zero sum = sum
fold_carries (suc n) sum =
    let rest = fold_carries n (sum / 2 ^ 16 + sum % 2 ^ 16) in if ltb 0xffff sum then rest else sum

unfoldable pub ones_complement_sum_fold : List ℕ → ℕ → ℕ
unfolding sum_words fold_carries
ones_complement_sum_fold content initial =
    0xffff - fold_carries 3 (sum_words initial content) % 2 ^ 16

unfoldable pub ones_complement_sum : List ℕ → ℕ
unfolding ones_complement_sum_fold
ones_complement_sum content = ones_complement_sum_fold content 0

-- The plain sum of the words.
abbrev pub words : List ℕ → ℕ
words [] = 0
words (a ∷ []) = a * 256
words (a ∷ b ∷ bs) = a * 256 + b + words bs

abbrev pub AllBytes : List ℕ → Type 0
AllBytes = All (λ b. b < 256)

-- pseudoChecksum of two IPv4 addresses, of four bytes each.
unfoldable pub pseudo_checksum : List ℕ → List ℕ → ℕ → ℕ → ℕ
pseudo_checksum src dst proto total = words src + words dst + proto + total

-- pseudoChecksum6 of two IPv6 addresses, of sixteen bytes each. It adds the two high bytes of the
-- length as a uint32, and 0 for the two low ones.
unfoldable pub pseudo_checksum6 : List ℕ → List ℕ → ℕ → ℕ → ℕ
pseudo_checksum6 src dst proto total = words src + words dst + total / 2 ^ 16 + 0 + proto

-- binary.BigEndian.PutUint16 at the bytes 2 * k and 2 * k + 1; past the end it panics, which is `none`.
unfoldable pub put_word : ℕ → ℕ → List ℕ → Option (List ℕ)
put_word zero v (a ∷ b ∷ bs) = some ((v / 256) ∷ (v % 256) ∷ bs)
put_word (suc k) v (a ∷ b ∷ bs) = and_then (put_word k v bs) (λ rest. some (a ∷ b ∷ rest))
put_word k v _ = none
