-- ===== src/RelayPool/Protection.antt =====
-- Which relays prune spares.
use peerscale.Prelude.{
  ℕ, ◌-◌, ◌≡◌, refl, Bool, true, List, [], ◌∷◌, inl, inr, leb, ltb, ◌==◌, arith, Bool-cases, length,
  occurs, count_if, count_if-perm, some, ◌||◌, ◌*◌, ◌∙◌,
}
use peerscale.Dict.{keys_where, lookup, has_key, IsMap}
use peerscale.Dict.Laws.{erase-IsMap, lookup-erase, has_key-erase, occurs-keys_where_none}
use peerscale.Runtime.{Float64, SortSlice, minute}
use peerscale.RelayPool.{RelayPool, RelayItem, WeightConfig}
use peerscale.RelayPool.Prune.{
  Evict, Kv, evict_one, evict_loop, evict_probation, evict_main, evict_main_and_spill, prune,
  prune_probation, prune_tiers, pool_quotas, candidates, in_probation,
}
use peerscale.RelayPool.Candidates.{ranked-le}

-- What prune's protection rounds test first: protected by hand, or a result in the last 5 minutes.
abbrev pub spared : {F : Type 0} → ℕ → ℕ → RelayItem F → List (ℕ × Unit {0}) → Bool
spared now pid item protected = has_key pid protected || ltb (now - item.last_result) (5 * minute)

-- The state of one key in the maps of an eviction.
pub record Keeps {F : Type 0} (pid : ℕ) (item : RelayItem F) (marked : Bool) (e : Evict F)
    : Type 0 where
  pub once : IsMap e.items
  pub there : lookup pid e.items ≡ some item
  pub mark : has_key pid e.protected ≡ marked

module _ {F : Type 0} (pid : ℕ) (item : RelayItem F) (marked : Bool) where
  pub evict_loop-Keeps :
      (pids : List ℕ) (e : Evict F)
      → occurs pid pids ≡ 0
      → Keeps pid item marked e
      → Keeps pid item marked (evict_loop pids e)
  unfolding evict_loop
  evict_loop-Keeps [] e h k = k
  evict_loop-Keeps (j ∷ pids) e h k = elim (Bool-cases (leb e.quota 0)) [
    | inl full ↦ rw full k
    | inr more ↦ rw more (
        evict_loop-Keeps pids (evict_one j e) (omega arith) (record {
          once = erase-IsMap j e.items k.once;
          there = ground (arith, lookup-erase j pid e.items, k);
          mark = ground (arith, has_key-erase j pid e.protected, k);
        }))
  ]

  module _ (fl : Float64 F) (ids : SortSlice ℕ) (kvs : SortSlice (Kv F))
      (main : item.in_main ≡ true) where
    evict_probation-Keeps :
        (e : Evict F)
        → Keeps pid item marked e
        → Keeps pid item marked (evict_probation fl ids kvs (keys_where in_probation e.items) e)
    unfolding evict_probation in_probation
    evict_probation-Keeps e k = elim (Bool-cases (ltb 0 e.quota)) [
      | inr done ↦ rw done k
      | inl more ↦ rw more (
          evict_loop-Keeps _ e
            (count_if-perm (λ x. x == pid) _ _ (ids.sort_perm _ _)
              ∙ occurs-keys_where_none in_probation pid e.items item k.there (ground arith)
                  (k.once.once pid))
            k)
    ]

    -- A spared relay is no candidate.
    candidates_without :
        (now : ℕ) (w : WeightConfig F) (items : List (ℕ × RelayItem F))
        (protected : List (ℕ × Unit {0})) (pids : List ℕ)
        → lookup pid items ≡ some item
        → spared now pid item protected ≡ true
        → count_if (λ c. c.pid == pid) (candidates fl ids kvs now w items protected pids) ≡ 0
    unfolding candidates
    candidates_without now w items protected [] there s = refl
    candidates_without now w items protected (j ∷ pids) there s =
        ground (arith, candidates_without now w items protected pids there s)

    evict_spill-Keeps :
        (now : ℕ) (w : WeightConfig F) (pids : List ℕ) (e : Evict F)
        → Keeps pid item marked e
        → spared now pid item e.protected ≡ true
        → Keeps pid item marked (evict_main_and_spill fl ids kvs now w pids e)
    unfolding evict_main_and_spill evict_main
    evict_spill-Keeps now w pids e k s = elim (Bool-cases (ltb 0 e.quota)) [
      | inr done ↦ rw done k
      | inl more ↦
          let cs = candidates fl ids kvs now w e.items e.protected pids in
          let less = λ (a b : Kv F). fl.lt a.score b.score in
          rw more (
            evict_probation-Keeps _ (
              evict_loop-Keeps _ e
                (omega (
                  arith,
                  ranked-le fl ids kvs pid less e.items cs,
                  candidates_without now w e.items e.protected pids k.there s,
                ))
                k))
    ]

module _ {F : Type 0} (fl : Float64 F) (ids : SortSlice ℕ) (kvs : SortSlice (Kv F)) where
  -- In a pool that has each key once, prune leaves a relay of the main tier as it is if the relay
  -- is protected or had a result within the last 5 minutes.
  pub prune_spares :
      (now pid : ℕ) (item : RelayItem F) (p : RelayPool F)
      → IsMap p.items
      → lookup pid p.items ≡ some item
      → item.in_main ≡ true
      → spared now pid item p.protected ≡ true
      → lookup pid (prune fl ids kvs now p).items ≡ some item
  unfolding prune prune_tiers prune_probation
  prune_spares now pid item p once there main s =
      elim (Bool-cases (leb (length p.items) p.high_water)) [
        | inl small ↦ rw small there
        | inr big ↦
            let m = has_key pid p.protected in
            let k₁ =
              evict_probation-Keeps pid item m fl ids kvs main
                (record { items = p.items; protected = p.protected; quota = (pool_quotas p).0 })
                (record { once = once; there = there; mark = refl }) in
            let e₁ : Evict F = record (prune_probation fl ids kvs p) {
              quota = (pool_quotas p).1;
            } in
            rw big
              (evict_spill-Keeps pid item m fl ids kvs main now p.config
                (keys_where (λ v. v.in_main) p.items) e₁
                (record { once = k₁.once; there = k₁.there; mark = k₁.mark })
                (ground (arith, k₁.mark))).there
      ]
