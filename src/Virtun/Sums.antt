-- ===== src/Virtun/Sums.antt =====
-- What the checksum loops compute.
use peerscale.Prelude.{
  ℕ, zero, suc, ◌+◌, ◌-◌, ◌*◌, ◌/◌, ◌%◌, ◌^◌, ◌≤◌, ◌<◌, ◌≡◌, refl, inl, inr, false, some, List, [],
  ◌∷◌, length, ltb, ◌==◌, if◌then◌else◌, arith, Bool-cases, ◌∙◌, ap, sym,
}
use peerscale.Virtun.Checksum.{
  sum_words, fold_carries, ones_complement_sum_fold, words, AllBytes, put_word,
}

pub words-bound : (l : List ℕ) → AllBytes l → 2 * words l ≤ 65535 * (length l + 1)
words-bound [] h = omega arith
words-bound (a ∷ []) h = omega (arith, h)
words-bound (a ∷ b ∷ bs) h = omega (arith, h.0, h.1.0, words-bound bs h.1.1)

sum_words-words : (sum : ℕ) (l : List ℕ) → sum + words l < 2 ^ 32 → sum_words sum l ≡ sum + words l
unfolding sum_words
sum_words-words sum [] h = omega arith
sum_words-words sum (a ∷ []) h = omega (arith, h)
sum_words-words sum (a ∷ b ∷ bs) h =
    let step : (sum + (a * 256 + b)) % 2 ^ 32 ≡ sum + (a * 256 + b) = omega (arith, h) in
    rw step (sum_words-words (sum + (a * 256 + b)) bs (omega (arith, h)) ∙ omega arith)

-- The number from 1 to 65535 with the same remainder by 65535, or 0.
abbrev pub norm : ℕ → ℕ
norm s = if s == 0 then 0 else (s - 1) % 65535 + 1

norm-fold : (s : ℕ) → norm (s / 2 ^ 16 + s % 2 ^ 16) ≡ norm s
norm-fold s = elim (Bool-cases (s == 0)) [
  | inl none_left ↦ ground (arith, none_left)
  | inr some_left ↦
      let pos : 0 < s = ground (arith, some_left) in
      let high : (s / 2 ^ 16 + s % 2 ^ 16 == 0) ≡ false = ground (arith, some_left) in
      rw (some_left, high) (omega (arith, pos))
]

norm-small : (s : ℕ) → s ≤ 0xffff → norm s ≡ s
norm-small s h = ground arith

fold_settled : (n s : ℕ) → s ≤ 0xffff → fold_carries n s ≡ norm s
unfolding fold_carries
fold_settled zero s h = sym (norm-small s h)
fold_settled (suc n) s h =
    let done : ltb 0xffff s ≡ false = ground (arith, h) in rw done (sym (norm-small s h))

fold_once : (n s : ℕ) → s ≤ 131070 → fold_carries (suc n) s ≡ norm s
unfolding fold_carries
fold_once n s h = elim (Bool-cases (ltb 0xffff s)) [
  | inr done ↦ rw done (sym (norm-small s (ground (arith, done))))
  | inl more ↦
      let over : 0xffff < s = ground (arith, more) in
      rw more (fold_settled n (s / 2 ^ 16 + s % 2 ^ 16) (omega (arith, h, over)) ∙ norm-fold s)
]

-- Two rounds end the loop.
fold_twice : (n s : ℕ) → s < 2 ^ 32 → fold_carries (suc (suc n)) s ≡ norm s
unfolding fold_carries
fold_twice n s h = elim (Bool-cases (ltb 0xffff s)) [
  | inr done ↦ rw done (sym (norm-small s (ground (arith, done))))
  | inl more ↦ rw more (fold_once n (s / 2 ^ 16 + s % 2 ^ 16) (omega (arith, h)) ∙ norm-fold s)
]

norm-le : (s : ℕ) → norm s ≤ 0xffff
norm-le s = ground arith

pub sum_fold-norm :
    (l : List ℕ) (initial : ℕ)
    → initial + words l < 2 ^ 32
    → ones_complement_sum_fold l initial ≡ 0xffff - norm (initial + words l)
unfolding ones_complement_sum_fold
sum_fold-norm l initial h =
    let folded = fold_twice 1 (initial + words l) h in
    let small : norm (initial + words l) % 2 ^ 16 ≡ norm (initial + words l) =
      omega (arith, norm-le (initial + words l)) in
    rw (sum_words-words initial l h, folded, small) refl

-- A sum with its complement added to it has the complement 0.
norm_complement : (s : ℕ) → norm (s + (0xffff - norm s)) ≡ 0xffff
norm_complement s = elim (Bool-cases (s == 0)) [
  | inl none_left ↦ ground (arith, none_left)
  | inr some_left ↦
      let pos : 0 < s = ground (arith, some_left) in
      let high : (s + (0xffff - ((s - 1) % 65535 + 1)) == 0) ≡ false = ground (arith, pos) in
      rw (some_left, high) (omega (arith, pos))
]

-- A checksum field that is cleared, and then filled with any value.
pub record Cleared (k : ℕ) (l : List ℕ) : Type 0 where
  pub empty : List ℕ
  pub is : put_word k 0 l ≡ some empty
  pub same_length : length empty ≡ length l
  pub bytes : AllBytes empty
  pub filled :
      (v : ℕ)
      → v < 2 ^ 16
      → (full : List ℕ) × (put_word k v empty ≡ some full)
        × (words full ≡ words empty + v)
        × (length full ≡ length l)
        × (put_word k 0 full ≡ some empty)

pub clear : (k : ℕ) (l : List ℕ) → 2 * k + 2 ≤ length l → AllBytes l → Cleared k l
unfolding put_word
clear zero [] h b = absurd (omega arith)
clear zero (x ∷ []) h b = absurd (omega arith)
clear zero (x ∷ y ∷ l) h b = record {
  empty = 0 ∷ 0 ∷ l;
  is = refl;
  same_length = refl;
  bytes = (omega arith, (omega arith, b.1.1));
  filled = λ v s. ((v / 256) ∷ (v % 256) ∷ l, refl, omega arith, refl, refl);
}
clear (suc k) [] h b = absurd (omega arith)
clear (suc k) (x ∷ []) h b = absurd (omega arith)
clear (suc k) (x ∷ y ∷ l) h b =
    let c = clear k l (omega (arith, h)) b.1.1 in
    record {
      empty = x ∷ y ∷ c.empty;
      is = rw c.is refl;
      same_length = omega (arith, c.same_length);
      bytes = (b.0, (b.1.0, c.bytes));
      filled = λ v s.
          let (full, is, sum, size, back) = c.filled v s in
          (x ∷ y ∷ full, rw is refl, omega (arith, sum), omega (arith, size), rw back refl);
    }

-- A field that is filled with the checksum of the rest makes the checksum of all of it 0.
pub filled_sum :
    (k initial : ℕ) (l : List ℕ) (c : Cleared k l)
    → initial + words c.empty + 0xffff < 2 ^ 32
    → (full : List ℕ) × (put_word k (ones_complement_sum_fold c.empty initial) c.empty ≡ some full)
      × (ones_complement_sum_fold full initial ≡ 0)
      × (length full ≡ length l)
      × (put_word k 0 full ≡ some c.empty)
      × (words full ≤ words c.empty + 0xffff)
filled_sum k initial l c h =
    let total = initial + words c.empty in
    let sum = sum_fold-norm c.empty initial (omega (arith, h)) in
    let (full, is, added, size, back) =
      c.filled (ones_complement_sum_fold c.empty initial) (omega (arith, sum)) in
    let all : initial + words full ≡ total + (0xffff - norm total) = omega (arith, added, sum) in
    (
      full,
      is,
      sum_fold-norm full initial (omega (arith, all, h))
          ∙ ap (λ n. 0xffff - norm n) all
          ∙ ap (λ n. 0xffff - n) (norm_complement total),
      size,
      back,
      omega (arith, added, sum),
    )
