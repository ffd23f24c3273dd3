-- ===== src/RelayPool/Size.antt =====
-- How many items prune leaves.
use peerscale.Prelude.{
  ℕ, ◌+◌, ◌-◌, ◌≤◌, ◌<◌, ◌≡◌, ◌⊎◌, refl, true, false, List, inl, inr, leb, ltb, ◌==◌, arith,
  Bool-cases, length, occurs, count_if-perm, length-perm,
}
use peerscale.Dict.{keys_where, IsMap, AllEntries, count_values}
use peerscale.Dict.Laws.{
  erase-IsMap, All-erase, occurs-keys_where-le, length-keys_where, count_values-split,
}
use peerscale.Runtime.{Float64, SortSlice}
use peerscale.RelayPool.{RelayPool, RelayItem, WeightConfig}
use peerscale.RelayPool.Prune.{
  Evict, Kv, evict_loop, evict_probation, evict_main, evict_main_and_spill, prune, prune_probation,
  prune_tiers, pool_quotas, quotas, older, in_probation,
}
use peerscale.RelayPool.Eviction.{prune_probation-closed, evict_loop-closed}
use peerscale.RelayPool.Candidates.{main_pids-IsPart, sorted-IsPart}
use peerscale.RelayPool.Loop.{
  quota-evict_loop, length-evict_loop, evict_loop_exhausts, count_values-zero, keys_where-all,
}

abbrev pub probation_count : {F : Type 0} → List (ℕ × RelayItem F) → ℕ
probation_count m = count_values in_probation m

-- The two quotas add up to the excess, the main quota is within its tier, and so is the other if
-- the two tiers can make up the excess.
quotas_total :
    (need probation main : ℕ)
    → need ≤ probation + main
    → ((quotas need probation main).0 + (quotas need probation main).1 ≡ need)
      × ((quotas need probation main).0 ≤ probation)
unfolding quotas
quotas_total need probation main h = (ground arith, ground arith)

tiers_total :
    {F : Type 0} (m : List (ℕ × RelayItem F))
    → length (keys_where in_probation m) + length (keys_where (λ item. item.in_main) m) ≡ length m
unfolding in_probation
tiers_total m = omega (
  arith,
  length-keys_where in_probation m,
  length-keys_where (λ item. item.in_main) m,
  count_values-split (λ item. item.in_main) m,
)

pool_quotas_total :
    {F : Type 0} (p : RelayPool F)
    → ((pool_quotas p).0 + (pool_quotas p).1 ≡ length p.items - p.low_water)
      × ((pool_quotas p).0 ≤ length (keys_where in_probation p.items))
unfolding pool_quotas
pool_quotas_total p = quotas_total _ _ _ (omega (arith, tiers_total p.items))

module _ {F : Type 0} (fl : Float64 F) (ids : SortSlice ℕ) (kvs : SortSlice (Kv F)) where
  -- The first loop uses up its quota, and what it deletes is what it takes off the quota.
  length-prune_probation :
      (p : RelayPool F)
      → IsMap p.items
      → (pool_quotas p).0 ≤ length (keys_where in_probation p.items)
      → length (prune_probation fl ids kvs p).items + (pool_quotas p).0 ≡ length p.items
  unfolding prune_probation
  length-prune_probation p once h =
      let e : Evict F = record {
        items = p.items;
        protected = p.protected;
        quota = (pool_quotas p).0;
      } in
      let pids = keys_where in_probation p.items in
      let sorted = ids.sort (older p.items) pids in
      ground (
        arith,
        length-evict_loop sorted e once
            (sorted-IsPart fl ids kvs (older p.items) in_probation p.items),
        quota-evict_loop sorted e,
        length-perm sorted pids (ids.sort_perm (older p.items) pids),
      )

  -- A loop over the probation tier that runs out of relays has emptied the tier.
  loop_empties :
      (e : Evict F)
      → let e' = evict_loop (ids.sort (older e.items) (keys_where in_probation e.items)) e in
        (e'.quota == 0) ≡ false → probation_count e'.items ≡ 0
  loop_empties e more =
      let pids = keys_where in_probation e.items in
      let sorted = ids.sort (older e.items) pids in
      count_values-zero in_probation sorted (evict_loop sorted e).items
        (evict_loop-closed (λ m. AllEntries (λ k v. in_probation v ≡ true → 1 ≤ occurs k sorted) m)
          (λ k m a. All-erase (λ k v. in_probation v ≡ true → 1 ≤ occurs k sorted) k m a) sorted e
          (keys_where-all in_probation sorted e.items (λ k.
            omega (arith, count_if-perm (λ x. x == k) _ _ (ids.sort_perm (older e.items) pids)))))
        (λ k h. ground (arith, evict_loop_exhausts k sorted e))

  evict_probation_outcome :
      (e : Evict F)
      → IsMap e.items
      → let e' = evict_probation fl ids kvs (keys_where in_probation e.items) e in
        (length e'.items + e.quota ≡ length e.items + e'.quota)
        × ((e'.quota ≡ 0) ⊎ (probation_count e'.items ≡ 0))
  unfolding evict_probation
  evict_probation_outcome e once = elim (Bool-cases (ltb 0 e.quota)) [
    | inr done ↦ rw done (refl, inl (ground arith))
    | inl more ↦ rw more (
      length-evict_loop _ e once (sorted-IsPart fl ids kvs (older e.items) in_probation e.items),
      ground (arith, loop_empties e),
    )
  ]

  -- The main tier's loop and the spill delete what they take off the quota too.
  evict_spill_outcome :
      (now : ℕ) (w : WeightConfig F) (pids : List ℕ) (e : Evict F)
      → IsMap e.items
      → ((k : ℕ) → occurs k pids ≤ 1)
      → let e' = evict_main_and_spill fl ids kvs now w pids e in
        (length e'.items + e.quota ≡ length e.items + e'.quota)
        × ((e'.quota ≡ 0) ⊎ (probation_count e'.items ≡ 0))
  unfolding evict_main_and_spill evict_main
  evict_spill_outcome now w pids e once distinct = elim (Bool-cases (ltb 0 e.quota)) [
    | inr done ↦ rw done (refl, inl (ground arith))
    | inl more ↦
        let e₂ = evict_main fl ids kvs now w pids e in
        let first =
          length-evict_loop _ e once
            (main_pids-IsPart fl ids kvs now w pids e (λ a b. fl.lt a.score b.score) distinct) in
        let second =
          evict_probation_outcome e₂ (evict_loop-closed (λ m. IsMap m) erase-IsMap _ e once) in
        rw more (omega (arith, first, second.0), second.1)
  ]

  prune_tiers_outcome :
      (now : ℕ) (p : RelayPool F)
      → IsMap p.items
      → let e = prune_tiers fl ids kvs now p in
        (length e.items + (length p.items - p.low_water) ≡ length p.items + e.quota)
        × ((e.quota ≡ 0) ⊎ (probation_count e.items ≡ 0))
  unfolding prune_tiers
  prune_tiers_outcome now p once =
      let main = keys_where (λ (item : RelayItem F). item.in_main) p.items in
      let e₁ : Evict F = record (prune_probation fl ids kvs p) { quota = (pool_quotas p).1 } in
      let qs = pool_quotas_total p in
      let first = length-prune_probation p once qs.1 in
      let second =
        evict_spill_outcome now p.config main e₁
          (prune_probation-closed (λ m. IsMap m) erase-IsMap fl ids kvs p once)
          (λ k.
            omega (arith, occurs-keys_where-le (λ item. item.in_main) k p.items, once.once k)) in
      (omega (arith, first, second.0, qs.0), second.1)

  -- Up to the high water mark prune changes nothing. Above it, if the low water mark is not above
  -- the high one and each key is there once, at least the low water mark of items is left: exactly
  -- that many, or else no item of the probation tier.
  pub length-prune :
      (now : ℕ) (p : RelayPool F)
      → IsMap p.items
      → p.low_water ≤ p.high_water
      → let p' = prune fl ids kvs now p in
        ((length p.items ≤ p.high_water) × (p' ≡ p))
        ⊎ ((p.high_water < length p.items)
            × (p.low_water ≤ length p'.items)
            × ((length p'.items ≡ p.low_water) ⊎ (probation_count p'.items ≡ 0)))
  unfolding prune
  length-prune now p once h = elim (Bool-cases (leb (length p.items) p.high_water)) [
    | inl small ↦ rw small (inl (ground arith, refl))
    | inr big ↦
        let e = prune_tiers_outcome now p once in
        rw big (inr (ground arith, ground (arith, e), ground (arith, e)))
  ]
