-- ===== src/Runtime.antt =====
-- What the Go code takes from the language and its standard library: float64 arithmetic,
-- sort.Slice, and time. Each is an argument of the definitions that use it.
pub mod Examples
use peerscale.Prelude.{ℕ, ◌*◌, ◌≡◌, Bool, true, false, List, Perm, ◌⊎◌}
use mathlib.Core.List.{Pairwise}

-- The float64 operations of the program over a type of values `F`. `lit a b` is the constant a / b,
-- `of_int` the conversion float64(n), `to_int` the truncation int64(x) of a value that is not
-- negative, `ceil` is int(math.Ceil(x)).
pub record Float64 (F : Type 0) : Type 0 where
  pub add : F → F → F
  pub sub : F → F → F
  pub mul : F → F → F
  pub div : F → F → F
  pub min : F → F → F
  pub lt : F → F → Bool
  pub le : F → F → Bool
  pub eq : F → F → Bool
  pub lit : ℕ → ℕ → F
  pub of_int : ℕ → F
  pub to_int : F → ℕ
  pub ceil : F → ℕ

-- What sort.Slice asks of `less`: a strict weak order, in the two laws that its result needs.
pub record IsLess {A : Type 0} (less : A → A → Bool) : Type 0 where
  pub asymmetric : (a b : A) → less a b ≡ true → less b a ≡ false
  pub cotransitive : (a b c : A) → less a c ≡ true → (less a b ≡ true) ⊎ (less b c ≡ true)

-- sort.Slice at elements of type `A`. The result is a permutation of the input, and in the order
-- of `less` if that is an order; equal elements come in any order.
pub record SortSlice (A : Type 0) : Type 0 where
  pub sort : (A → A → Bool) → List A → List A
  pub sort_perm : (less : A → A → Bool) (xs : List A) → Perm (sort less xs) xs
  pub sort_ordered :
      (less : A → A → Bool) (xs : List A)
      → IsLess less
      → Pairwise (λ a b. less b a ≡ false) (sort less xs)

-- A time.Time is the number of nanoseconds since Go's zero time, so IsZero is `== 0`, and a
-- time.Duration that is not negative is a number of nanoseconds.
abbrev pub millisecond : ℕ
millisecond = 1000000

abbrev pub second : ℕ
second = 1000 * millisecond

abbrev pub minute : ℕ
minute = 60 * second
