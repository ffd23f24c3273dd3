-- ===== src/Dict/Laws.antt =====
-- The laws of the map operations, and what they do to sizes, keys and properties of all entries.
use peerscale.Prelude.{
  ℕ, ◌+◌, ◌≤◌, ◌≡◌, ◌≢◌, refl, Bool, true, false, not, none, some, List, [], ◌∷◌, ◌==◌, ◌||◌,
  if◌then◌else◌, occurs, length, arith, bit, and_then,
}
use peerscale.Dict.{
  lookup, has_key, insert, erase, adjust, keys, keys_where, count_values, IsMap, AllEntries,
}

module _ {ℓ} {V : Type ℓ} where
  pub lookup-insert :
      (k j : ℕ) (v : V) (m : List (ℕ × V))
      → lookup j (insert k v m) ≡ (if k == j then some v else lookup j m)
  lookup-insert k j v [] = refl
  lookup-insert k j v ((i, w) ∷ m) = ground (arith, lookup-insert k j v m)

  pub lookup-erase :
      (k j : ℕ) (m : List (ℕ × V)) → lookup j (erase k m) ≡ (if k == j then none else lookup j m)
  lookup-erase k j [] = ground arith
  lookup-erase k j ((i, w) ∷ m) = ground (arith, lookup-erase k j m)

  pub lookup-adjust_ne :
      (k j : ℕ) (f : V → V) (m : List (ℕ × V)) → k ≢ j → lookup j (adjust k f m) ≡ lookup j m
  lookup-adjust_ne k j f [] h = refl
  lookup-adjust_ne k j f ((i, w) ∷ m) h = ground (arith, lookup-adjust_ne k j f m h)

  pub lookup-adjust_self :
      (k : ℕ) (f : V → V) (m : List (ℕ × V)) (v : V)
      → lookup k m ≡ some v
      → lookup k (adjust k f m) ≡ some (f v)
  lookup-adjust_self k f [] v h = ground arith
  lookup-adjust_self k f ((i, w) ∷ m) v h = ground (arith, lookup-adjust_self k f m v)

  pub adjust-absent : (k : ℕ) (f : V → V) (m : List (ℕ × V)) → lookup k m ≡ none → adjust k f m ≡ m
  adjust-absent k f [] h = refl
  adjust-absent k f ((i, w) ∷ m) h = ground (arith, adjust-absent k f m)

  pub lookup-has_key : (k : ℕ) (m : List (ℕ × V)) → has_key k m ≡ false → lookup k m ≡ none
  lookup-has_key k [] h = refl
  lookup-has_key k ((i, w) ∷ m) h = ground (arith, lookup-has_key k m)

  pub keys-adjust : (k : ℕ) (f : V → V) (m : List (ℕ × V)) → keys (adjust k f m) ≡ keys m
  keys-adjust k f [] = refl
  keys-adjust k f ((i, w) ∷ m) = ground (arith, keys-adjust k f m)

  pub occurs-erase :
      (k j : ℕ) (m : List (ℕ × V))
      → occurs j (keys (erase k m)) ≡ (if k == j then 0 else occurs j (keys m))
  occurs-erase k j [] = ground arith
  occurs-erase k j ((i, w) ∷ m) = ground (arith, occurs-erase k j m)

  pub occurs-insert :
      (k j : ℕ) (v : V) (m : List (ℕ × V))
      → occurs j (keys (insert k v m))
        ≡ (if has_key k m then occurs j (keys m) else bit (k == j) + occurs j (keys m))
  occurs-insert k j v [] = ground arith
  occurs-insert k j v ((i, w) ∷ m) = ground (arith, occurs-insert k j v m)

  pub occurs-absent : (k : ℕ) (m : List (ℕ × V)) → has_key k m ≡ false → occurs k (keys m) ≡ 0
  occurs-absent k [] h = refl
  occurs-absent k ((i, w) ∷ m) h = ground (arith, occurs-absent k m)

  pub length-erase : (k : ℕ) (m : List (ℕ × V)) → length (erase k m) + occurs k (keys m) ≡ length m
  length-erase k [] = refl
  length-erase k ((i, w) ∷ m) = ground (arith, length-erase k m)

  pub length-adjust : (k : ℕ) (f : V → V) (m : List (ℕ × V)) → length (adjust k f m) ≡ length m
  length-adjust k f [] = refl
  length-adjust k f ((i, w) ∷ m) = ground (arith, length-adjust k f m)

  pub length-insert :
      (k : ℕ) (v : V) (m : List (ℕ × V))
      → length (insert k v m) ≡ (if has_key k m then length m else length m + 1)
  length-insert k v [] = refl
  length-insert k v ((i, w) ∷ m) = ground (arith, length-insert k v m)

  pub occurs-keys_where-le :
      (p : V → Bool) (k : ℕ) (m : List (ℕ × V)) → occurs k (keys_where p m) ≤ occurs k (keys m)
  occurs-keys_where-le p k [] = omega arith
  occurs-keys_where-le p k ((i, w) ∷ m) = ground (arith, occurs-keys_where-le p k m)

  pub length-keys_where :
      (p : V → Bool) (m : List (ℕ × V)) → length (keys_where p m) ≡ count_values p m
  length-keys_where p [] = refl
  length-keys_where p ((i, w) ∷ m) = ground (arith, length-keys_where p m)

  pub count_values-split :
      (p : V → Bool) (m : List (ℕ × V))
      → count_values p m + count_values (λ v. not (p v)) m ≡ length m
  count_values-split p [] = refl
  count_values-split p ((i, w) ∷ m) = ground (arith, count_values-split p m)

  -- Every operation keeps the keys distinct.
  pub erase-IsMap : (k : ℕ) (m : List (ℕ × V)) → IsMap m → IsMap (erase k m)
  erase-IsMap k m h = record { once = λ j. ground (arith, occurs-erase k j m, h.once j) }

  pub adjust-IsMap : (k : ℕ) (f : V → V) (m : List (ℕ × V)) → IsMap m → IsMap (adjust k f m)
  adjust-IsMap k f m h = record { once = λ j. ground (arith, keys-adjust k f m, h.once j) }

  pub insert-IsMap : (k : ℕ) (v : V) (m : List (ℕ × V)) → IsMap m → IsMap (insert k v m)
  insert-IsMap k v m h = record {
    once = λ j. ground (arith, occurs-insert k j v m, occurs-absent k m, h.once j);
  }

  pub All-erase :
      (P : ℕ → V → Type 0) (k : ℕ) (m : List (ℕ × V)) → AllEntries P m → AllEntries P (erase k m)
  All-erase P k [] h = tt
  All-erase P k ((i, w) ∷ m) h = ground (arith, All-erase P k m h.1)

  pub All-insert :
      (P : ℕ → V → Type 0) (k : ℕ) (v : V) (m : List (ℕ × V))
      → P k v
      → AllEntries P m
      → AllEntries P (insert k v m)
  All-insert P k v [] p h = (p, tt)
  All-insert P k v ((i, w) ∷ m) p h = ground (arith, All-insert P k v m p h.1)

  pub All-adjust :
      (P : ℕ → V → Type 0) (k : ℕ) (f : V → V) (m : List (ℕ × V))
      → ((v : V) → P k v → P k (f v))
      → AllEntries P m
      → AllEntries P (adjust k f m)
  All-adjust P k f [] s h = tt
  All-adjust P k f ((i, w) ∷ m) s h = ground (arith, All-adjust P k f m s h.1, s w)

  pub All-lookup :
      (P : ℕ → V → Type 0) (k : ℕ) (m : List (ℕ × V)) (v : V)
      → AllEntries P m
      → lookup k m ≡ some v
      → P k v
  All-lookup P k [] v h e = ground arith
  All-lookup P k ((i, w) ∷ m) v h e = ground (arith, All-lookup P k m v h.1)

  pub has_key-erase :
      (k j : ℕ) (m : List (ℕ × V)) → has_key j (erase k m) ≡ (if k == j then false else has_key j m)
  has_key-erase k j [] = ground arith
  has_key-erase k j ((i, w) ∷ m) = ground (arith, has_key-erase k j m)

  pub has_key_of_lookup :
      (k : ℕ) (m : List (ℕ × V)) (v : V) → lookup k m ≡ some v → has_key k m ≡ true
  has_key_of_lookup k [] v h = ground arith
  has_key_of_lookup k ((i, w) ∷ m) v h = ground (arith, has_key_of_lookup k m v)

  pub occurs-present : (k : ℕ) (m : List (ℕ × V)) → has_key k m ≡ true → 1 ≤ occurs k (keys m)
  occurs-present k [] h = ground arith
  occurs-present k ((i, w) ∷ m) h = ground (arith, occurs-present k m)

  -- A key whose value fails the test is not among the keys of the entries that pass it.
  pub occurs-keys_where_none :
      (p : V → Bool) (k : ℕ) (m : List (ℕ × V)) (v : V)
      → lookup k m ≡ some v
      → p v ≡ false
      → occurs k (keys m) ≤ 1
      → occurs k (keys_where p m) ≡ 0
  occurs-keys_where_none p k [] v h f o = refl
  occurs-keys_where_none p k ((i, w) ∷ m) v h f o = ground (
    arith,
    occurs-keys_where_none p k m v,
    occurs-keys_where-le p k m,
    has_key_of_lookup k m v,
    occurs-present k m,
  )

  pub occurs-keys_where-some :
      (p : V → Bool) (k : ℕ) (m : List (ℕ × V)) (v : V)
      → lookup k m ≡ some v
      → p v ≡ true
      → 1 ≤ occurs k (keys_where p m)
  occurs-keys_where-some p k [] v h f = ground arith
  occurs-keys_where-some p k ((i, w) ∷ m) v h f = ground (arith, occurs-keys_where-some p k m v)

  pub lookup-adjust-some :
      (k j : ℕ) (f : V → V) (m : List (ℕ × V)) (v : V)
      → lookup j m ≡ some v
      → lookup j (adjust k f m) ≡ some (if k == j then f v else v)
  lookup-adjust-some k j f [] v h = ground arith
  lookup-adjust-some k j f ((i, w) ∷ m) v h = ground (arith, lookup-adjust-some k j f m v)

  pub lookup-adjust-none :
      (k j : ℕ) (f : V → V) (m : List (ℕ × V)) → lookup j m ≡ none → lookup j (adjust k f m) ≡ none
  lookup-adjust-none k j f [] h = refl
  lookup-adjust-none k j f ((i, w) ∷ m) h = ground (arith, lookup-adjust-none k j f m)

  pub has_key-insert :
      (k j : ℕ) (v : V) (m : List (ℕ × V)) → has_key j (insert k v m) ≡ (k == j || has_key j m)
  has_key-insert k j v [] = ground arith
  has_key-insert k j v ((i, w) ∷ m) = ground (arith, has_key-insert k j v m)

  pub lookup-adjust :
      (k j : ℕ) (f : V → V) (m : List (ℕ × V))
      → lookup j (adjust k f m)
        ≡ (if k == j then and_then (lookup j m) (λ v. some (f v)) else lookup j m)
  lookup-adjust k j f [] = ground arith
  lookup-adjust k j f ((i, w) ∷ m) = ground (arith, lookup-adjust k j f m)
