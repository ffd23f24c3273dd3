-- ===== src/Dict.antt =====
-- Go maps whose keys are only compared for equality (peer IDs, ports): the list of entries in the
-- order in which a `range` visits them. Go leaves that order open, so what is proved for every list
-- of entries is proved for every order.
pub mod Laws
use peerscale.Prelude.{
  ℕ, ◌+◌, ◌≤◌, Bool, false, true, not, Option, none, some, List, [], ◌∷◌, map, ◌==◌, if◌then◌else◌,
  occurs, ◌||◌,
}

module _ {ℓ} {V : Type ℓ} where
  -- v, ok := m[k]
  abbrev pub lookup : ℕ → List (ℕ × V) → Option V
  lookup k [] = none
  lookup k ((j, v) ∷ m) = if j == k then some v else lookup k m

  -- _, ok := m[k]
  abbrev pub has_key : ℕ → List (ℕ × V) → Bool
  has_key k [] = false
  has_key k ((j, v) ∷ m) = j == k || has_key k m

  -- m[k] = v
  abbrev pub insert : ℕ → V → List (ℕ × V) → List (ℕ × V)
  insert k v [] = (k, v) ∷ []
  insert k v ((j, w) ∷ m) = if j == k then (k, v) ∷ m else (j, w) ∷ insert k v m

  -- delete(m, k)
  abbrev pub erase : ℕ → List (ℕ × V) → List (ℕ × V)
  erase k [] = []
  erase k ((j, w) ∷ m) = if j == k then erase k m else (j, w) ∷ erase k m

  -- A write through the pointer m[k], if the key is there.
  abbrev pub adjust : ℕ → (V → V) → List (ℕ × V) → List (ℕ × V)
  adjust k f [] = []
  adjust k f ((j, w) ∷ m) = (j, if j == k then f w else w) ∷ adjust k f m

  abbrev pub keys : List (ℕ × V) → List ℕ
  keys [] = []
  keys ((k, v) ∷ m) = k ∷ keys m

  -- The loop that collects the keys of the entries that pass a test.
  abbrev pub keys_where : (V → Bool) → List (ℕ × V) → List ℕ
  keys_where p [] = []
  keys_where p ((k, v) ∷ m) = if p v then k ∷ keys_where p m else keys_where p m

  abbrev pub count_values : (V → Bool) → List (ℕ × V) → ℕ
  count_values p [] = 0
  count_values p ((k, v) ∷ m) = (if p v then 1 else 0) + count_values p m

  -- Every key once, as in any Go map.
  pub record IsMap (m : List (ℕ × V)) : Type 0 where
    pub once : (k : ℕ) → occurs k (keys m) ≤ 1

  -- A property of every entry.
  abbrev pub AllEntries : (ℕ → V → Type 0) → List (ℕ × V) → Type 0
  AllEntries P [] = Unit
  AllEntries P ((k, v) ∷ m) = P k v × AllEntries P m
