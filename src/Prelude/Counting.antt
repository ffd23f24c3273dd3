-- ===== src/Prelude/Counting.antt =====
-- Counting the elements that pass a test: multisets of elements as numbers that `omega` reads.
use Prim.Native.Nat.{ℕ, zero, suc, ◌+◌, ◌≤◌}
use mathlib.Core.Path.{◌≡◌, refl, ◌∙◌, ap}
use mathlib.Core.Logic.{∥∥₁_elim}
use mathlib.Core.List.{List, [], ◌∷◌, Perm, Permᴰ}
use mathlib.Core.Bool.{Bool, true, false, not}
use native.Mathlib.Nat.{ℕ_set}
use native.Mathlib.Omega.{arith}
use peerscale.Prelude.Tests.{◌==◌}
use peerscale.Prelude.Lists.{length, drop, keep}

abbrev pub bit : Bool → ℕ
bit true = 1
bit false = 0

module _ {ℓ} {A : Type ℓ} where
  abbrev pub count_if : (A → Bool) → List A → ℕ
  count_if p [] = 0
  count_if p (x ∷ xs) = bit (p x) + count_if p xs

module _ {ℓ} {A : Type ℓ} (p : A → Bool) where
  count_if-permᴰ : (xs ys : List A) → Permᴰ xs ys → count_if p xs ≡ count_if p ys
  count_if-permᴰ [] [] Permᴰ.nil = refl
  count_if-permᴰ _ _ (Permᴰ.cons {a = a} {b = b} {l₁ = xs} {l₂ = ys} e h) =
      omega (arith, ap (λ c. bit (p c)) e, count_if-permᴰ xs ys h)
  count_if-permᴰ _ _ (Permᴰ.swap {a = a} {b = b} {a' = a'} {b' = b'} e f) =
      omega (arith, ap (λ c. bit (p c)) e, ap (λ c. bit (p c)) f)
  count_if-permᴰ _ _ (Permᴰ.trans {l₁ = xs} {l₂ = ys} {l₃ = zs} h k) =
      count_if-permᴰ xs ys h ∙ count_if-permᴰ ys zs k

  -- A permutation has the same count of every test.
  pub count_if-perm : (xs ys : List A) → Perm xs ys → count_if p xs ≡ count_if p ys
  count_if-perm xs ys h = ∥∥₁_elim h (ℕ_set _ _) (count_if-permᴰ xs ys)

  pub count_if-drop-le : (n : ℕ) (xs : List A) → count_if p (drop n xs) ≤ count_if p xs
  count_if-drop-le zero xs = omega arith
  count_if-drop-le (suc n) [] = omega arith
  count_if-drop-le (suc n) (x ∷ xs) = omega (arith, count_if-drop-le n xs)

  pub count_if-keep-le : (q : A → Bool) (xs : List A) → count_if p (keep q xs) ≤ count_if p xs
  count_if-keep-le q [] = omega arith
  count_if-keep-le q (x ∷ xs) = ground (arith, count_if-keep-le q xs)

  pub length-keep : (xs : List A) → length (keep p xs) ≡ count_if p xs
  length-keep [] = refl
  length-keep (x ∷ xs) = ground (arith, length-keep xs)

  pub count_if-le-length : (xs : List A) → count_if p xs ≤ length xs
  count_if-le-length [] = omega arith
  count_if-le-length (x ∷ xs) = ground (arith, count_if-le-length xs)

  pub count_if-split : (xs : List A) → count_if p xs + count_if (λ x. not (p x)) xs ≡ length xs
  count_if-split [] = refl
  count_if-split (x ∷ xs) = ground (arith, count_if-split xs)

module _ {ℓ} {A : Type ℓ} where
  pub count_if-all : (xs : List A) → count_if (λ x. true) xs ≡ length xs
  count_if-all [] = refl
  count_if-all (x ∷ xs) = omega (arith, count_if-all xs)

  pub length-perm : (xs ys : List A) → Perm xs ys → length xs ≡ length ys
  length-perm xs ys h =
      omega (arith, count_if-perm (λ x. true) xs ys h, count_if-all xs, count_if-all ys)

-- How often a number occurs in a list.
abbrev pub occurs : ℕ → List ℕ → ℕ
occurs k = count_if (λ x. x == k)
