-- ===== src/RelayPool/Loop.antt =====
-- The eviction loop of prune, counted: what a loop over keys of the map deletes, and what it leaves.
use peerscale.Prelude.{
  ℕ, ◌+◌, ◌-◌, ◌≤◌, ◌≡◌, ◌⊎◌, refl, Bool, true, List, [], ◌∷◌, inr, arith, length, occurs,
}
use peerscale.Dict.{erase, keys, keys_where, IsMap, AllEntries, count_values}
use peerscale.Dict.Laws.{length-erase, occurs-erase, erase-IsMap}
use peerscale.RelayPool.{RelayItem}
use peerscale.RelayPool.Prune.{Evict, evict_one, evict_loop}
use peerscale.RelayPool.Eviction.{evict_loop-closed}

-- The list names no key more often than the map has it.
pub record IsPart {V : Type 0} (pids : List ℕ) (m : List (ℕ × V)) : Type 0 where
  pub part : (k : ℕ) → occurs k pids ≤ occurs k (keys m)

module _ {F : Type 0} where
  pub quota-evict_loop :
      (pids : List ℕ) (e : Evict F) → (evict_loop pids e).quota ≡ e.quota - length pids
  unfolding evict_loop
  quota-evict_loop [] e = omega arith
  quota-evict_loop (pid ∷ pids) e = ground (arith, quota-evict_loop pids (evict_one pid e))

  IsPart-tail :
      (pid : ℕ) (pids : List ℕ) (m : List (ℕ × RelayItem F))
      → IsMap m
      → IsPart (pid ∷ pids) m
      → IsPart pids (erase pid m)
  IsPart-tail pid pids m once h = record {
    part = λ k. ground (arith, occurs-erase pid k m, once.once k, h.part k);
  }

  -- Each round deletes one item and takes one off the quota.
  pub length-evict_loop :
      (pids : List ℕ) (e : Evict F)
      → IsMap e.items
      → IsPart pids e.items
      → length (evict_loop pids e).items + e.quota ≡ length e.items + (evict_loop pids e).quota
  unfolding evict_loop
  length-evict_loop [] e once h = refl
  length-evict_loop (pid ∷ pids) e once h = ground (
    arith,
    length-evict_loop pids (evict_one pid e) (erase-IsMap pid e.items once)
        (IsPart-tail pid pids e.items once h),
    length-erase pid e.items,
    once.once pid,
    h.part pid,
  )

  pub occurs-evict_loop-le :
      (k n : ℕ) (pids : List ℕ) (e : Evict F)
      → occurs k (keys e.items) ≤ n
      → occurs k (keys (evict_loop pids e).items) ≤ n
  occurs-evict_loop-le k n pids e h =
      evict_loop-closed (λ m. occurs k (keys m) ≤ n) (λ j m le. ground (arith, occurs-erase j k m))
        pids e h

  -- A loop that stops before its quota is used up has deleted every key of its list.
  pub evict_loop_exhausts :
      (k : ℕ) (pids : List ℕ) (e : Evict F)
      → ((evict_loop pids e).quota ≡ 0)
        ⊎ (1 ≤ occurs k pids → occurs k (keys (evict_loop pids e).items) ≡ 0)
  unfolding evict_loop
  evict_loop_exhausts k [] e = inr (λ h. omega arith)
  evict_loop_exhausts k (pid ∷ pids) e = ground (
    arith,
    evict_loop_exhausts k pids (evict_one pid e),
    occurs-evict_loop-le k 0 pids (evict_one pid e),
    occurs-erase pid k e.items,
  )

  -- Where no key of an entry with the property is left, no entry with the property is.
  pub count_values-zero :
      (p : RelayItem F → Bool) (L : List ℕ) (m : List (ℕ × RelayItem F))
      → AllEntries (λ k v. p v ≡ true → 1 ≤ occurs k L) m
      → ((k : ℕ) → 1 ≤ occurs k L → occurs k (keys m) ≡ 0)
      → count_values p m ≡ 0
  count_values-zero p L [] a gone = refl
  count_values-zero p L ((k, v) ∷ m) a gone =
      ground (arith, gone k, a.0, count_values-zero p L m a.1 (λ j h. omega (arith, gone j h)))

  pub keys_where-all :
      (p : RelayItem F → Bool) (L : List ℕ) (m : List (ℕ × RelayItem F))
      → ((k : ℕ) → occurs k (keys_where p m) ≤ occurs k L)
      → AllEntries (λ k v. p v ≡ true → 1 ≤ occurs k L) m
  keys_where-all p L [] h = tt
  keys_where-all p L ((k, v) ∷ m) h =
      (ground (arith, h k), keys_where-all p L m (λ j. ground (arith, h j)))
