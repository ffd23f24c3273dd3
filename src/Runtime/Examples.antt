-- ===== src/Runtime/Examples.antt =====
-- Concrete values of the parameters: whole numbers for float64, and insertion for sort.Slice.
use mathlib.Core.Logic.{∥∥₁_elim}
use mathlib.Core.Bool.{Bool-set}
use mathlib.Core.List.{Perm, Pairwise, Pairwise-cons, Mem, not-mem-nil, eq-or-mem_of_mem-cons}
use mathlib.Core.List.Perm as Perm
use peerscale.Prelude.{
  ℕ, ◌+◌, ◌-◌, ◌*◌, ◌/◌, ◌≡◌, Bool, false, List, [], ◌∷◌, ◌==◌, ltb, leb, arith, if◌then◌else◌,
  Bool-cases, inl, inr, min,
}
use peerscale.Runtime.{Float64, IsLess, SortSlice}

-- Whole numbers in hundredths.
abbrev pub hundredths : Float64 ℕ
hundredths = record {
  add = λ a b. a + b;
  sub = λ a b. a - b;
  mul = λ a b. (a * b) / 100;
  div = λ a b. (a * 100) / b;
  min = λ a b. min a b;
  lt = ltb;
  le = leb;
  eq = λ a b. a == b;
  lit = λ a b. (a * 100) / b;
  of_int = λ n. n * 100;
  to_int = λ a. a / 100;
  ceil = λ a. (a + 99) / 100;
}

module _ {A : Type 0} (less : A → A → Bool) where
  abbrev pub put : A → List A → List A
  put x [] = x ∷ []
  put x (y ∷ ys) = if less y x then y ∷ put x ys else x ∷ y ∷ ys

  abbrev pub insertion : List A → List A
  insertion [] = []
  insertion (x ∷ xs) = put x (insertion xs)

  put-perm : (x : A) (ys : List A) → Perm (put x ys) (x ∷ ys)
  put-perm x [] = Perm.refl (x ∷ [])
  put-perm x (y ∷ ys) = elim (Bool-cases (less y x)) [
    | inl after ↦ rw after (Perm.trans (Perm.cons y (put-perm x ys)) (Perm.swap x y ys))
    | inr before ↦ rw before (Perm.refl (x ∷ y ∷ ys))
  ]

  pub insertion-perm : (xs : List A) → Perm (insertion xs) xs
  insertion-perm [] = Perm.refl []
  insertion-perm (x ∷ xs) = Perm.trans (put-perm x (insertion xs)) (Perm.cons x (insertion-perm xs))

  -- No element of the list comes before `x`.
  abbrev Least : A → List A → Type 0
  Least x ys = (b : A) → Mem b ys → less b x ≡ false

  Least-put : (y x : A) (ys : List A) → less x y ≡ false → Least y ys → Least y (put x ys)
  Least-put y x ys first h b m =
      ∥∥₁_elim (eq-or-mem_of_mem-cons (Perm.subset (put-perm x ys) b m)) (Bool-set _ _)
        (λ s. elim s [ inl e ↦ rw e first | inr later ↦ h b later ])

  Least-before : (x y : A) (ys : List A) → IsLess less → less y x ≡ false → Least y ys → Least x ys
  Least-before x y ys order first h b m = elim (Bool-cases (less b x)) [
    | inr not_less ↦ not_less
    | inl less_x ↦ elim (order.cotransitive b y x less_x) [
      | inl less_y ↦ ground (arith, h b m)
      | inr before ↦ ground arith
    ]
  ]

  put-ordered :
      (x : A) (ys : List A)
      → IsLess less
      → Pairwise (λ a b. less b a ≡ false) ys
      → Pairwise (λ a b. less b a ≡ false) (put x ys)
  put-ordered x [] order h = Pairwise.cons (λ b m. absurd (not-mem-nil m)) Pairwise.nil
  put-ordered x (y ∷ ys) order h =
      let (least, rest) = Pairwise-cons.0 h in
      elim (Bool-cases (less y x)) [
        | inl after ↦ rw after (
            Pairwise.cons (Least-put y x ys (order.asymmetric y x after) least)
              (put-ordered x ys order rest))
        | inr before ↦ rw before (
            Pairwise.cons
              (λ b m. ∥∥₁_elim (eq-or-mem_of_mem-cons m) (Bool-set _ _) (λ s. elim s [
                | inl e ↦ rw e before
                | inr later ↦ Least-before x y ys order before least b later
              ]))
              h)
      ]

  pub insertion-ordered :
      (xs : List A) → IsLess less → Pairwise (λ a b. less b a ≡ false) (insertion xs)
  insertion-ordered [] order = Pairwise.nil
  insertion-ordered (x ∷ xs) order = put-ordered x (insertion xs) order (insertion-ordered xs order)

abbrev pub insertion_sort : (A : Type 0) → SortSlice A
insertion_sort A = record {
  sort = λ less xs. insertion less xs;
  sort_perm = λ less xs. insertion-perm less xs;
  sort_ordered = λ less xs order. insertion-ordered less xs order;
}
