-- ===== src/RelayPool/Capacity.antt =====
-- A pool that prune cannot shrink.
use peerscale.Prelude.{
  ℕ, ◌-◌, ◌*◌, ◌≡◌, refl, Bool, true, List, [], ◌∷◌, inl, inr, leb, ltb, arith, Bool-cases,
  Option-cases, length, length-perm, ap, suc, ◌∙◌,
}
use peerscale.Dict.{AllEntries, keys_where, lookup}
use peerscale.Dict.Laws.{All-lookup}
use peerscale.Runtime.{Float64, SortSlice, minute}
use peerscale.RelayPool.{RelayPool, RelayItem, WeightConfig}
use peerscale.RelayPool.Prune.{
  Evict, Kv, evict_loop, evict_probation, evict_main, evict_main_and_spill, prune, prune_probation,
  prune_tiers, pool_quotas, pids_of, candidates, protect_top_scores, protect_uptime, in_probation,
}

-- In the main tier, with a result in the last 5 minutes.
abbrev pub IsBusy : {F : Type 0} → ℕ → RelayItem F → Type 0
IsBusy now item = (item.in_main ≡ true) × (ltb (now - item.last_result) (5 * minute) ≡ true)

abbrev pub AllBusy : {F : Type 0} → ℕ → List (ℕ × RelayItem F) → Type 0
AllBusy now m = AllEntries (λ k v. IsBusy now v) m

module _ {F : Type 0} (fl : Float64 F) (ids : SortSlice ℕ) (kvs : SortSlice (Kv F)) where
  evict_loop-nil : (pids : List ℕ) (e : Evict F) → length pids ≡ 0 → evict_loop pids e ≡ e
  unfolding evict_loop
  evict_loop-nil [] e h = refl
  evict_loop-nil (pid ∷ pids) e h = absurd (omega arith)

  no_probation :
      (now : ℕ) (m : List (ℕ × RelayItem F)) → AllBusy now m → keys_where in_probation m ≡ []
  unfolding in_probation
  no_probation now [] h = refl
  no_probation now ((k, v) ∷ m) h = ground (arith, no_probation now m h.1)

  no_candidates :
      (now : ℕ) (w : WeightConfig F) (m : List (ℕ × RelayItem F)) (protected : List (ℕ × Unit {0}))
      (pids : List ℕ)
      → AllBusy now m
      → candidates fl ids kvs now w m protected pids ≡ []
  unfolding candidates
  no_candidates now w m protected [] h = refl
  no_candidates now w m protected (pid ∷ pids) h = elim (Option-cases (lookup pid m)) [
    | inl absent ↦ ground (arith, no_candidates now w m protected pids h)
    | inr (item, there) ↦ ground (
      arith,
      no_candidates now w m protected pids h,
      All-lookup (λ k v. IsBusy now v) pid m item h there,
    )
  ]

  evict_probation-busy :
      (now : ℕ) (e : Evict F)
      → AllBusy now e.items
      → evict_probation fl ids kvs (keys_where in_probation e.items) e ≡ e
  unfolding evict_probation
  evict_probation-busy now e h = elim (Bool-cases (ltb 0 e.quota)) [
    | inr done ↦ rw done
    | inl more ↦ rw more (
        evict_loop-nil _ e
          (length-perm _ _ (ids.sort_perm _ _) ∙ ap length (no_probation now e.items h)))
  ]

  top_scores-nil : protect_top_scores fl ids kvs [] ≡ []
  unfolding protect_top_scores
  top_scores-nil = ground arith

  length-pids_of : (cs : List (Kv F)) → length (pids_of cs) ≡ length cs
  length-pids_of [] = refl
  length-pids_of (c ∷ cs) = ap suc (length-pids_of cs)

  rounds-nil :
      (items : List (ℕ × RelayItem F)) (less : Kv F → Kv F → Bool) (cs : List (Kv F))
      → cs ≡ []
      → length (
          pids_of
            (kvs.sort less (protect_uptime fl ids kvs items (protect_top_scores fl ids kvs cs))))
        ≡ 0
  unfolding protect_uptime
  rounds-nil items less cs h =
      rw (h, top_scores-nil)
        (length-pids_of (kvs.sort less []) ∙ length-perm _ [] (kvs.sort_perm less []))

  evict_main-busy :
      (now : ℕ) (w : WeightConfig F) (pids : List ℕ) (e : Evict F)
      → AllBusy now e.items
      → evict_main fl ids kvs now w pids e ≡ e
  unfolding evict_main
  evict_main-busy now w pids e h = evict_loop-nil _ e (
      rounds-nil e.items (λ a b. fl.lt a.score b.score) _
        (no_candidates now w e.items e.protected pids h))

  evict_spill-busy :
      (now : ℕ) (w : WeightConfig F) (pids : List ℕ) (e : Evict F)
      → AllBusy now e.items
      → evict_main_and_spill fl ids kvs now w pids e ≡ e
  unfolding evict_main_and_spill
  evict_spill-busy now w pids e h = elim (Bool-cases (ltb 0 e.quota)) [
    | inr done ↦ rw done
    | inl more ↦ rw (more, evict_main-busy now w pids e h) (evict_probation-busy now e h)
  ]

  prune_tiers-busy :
      (now : ℕ) (p : RelayPool F)
      → AllBusy now p.items
      → ((prune_tiers fl ids kvs now p).items ≡ p.items)
        × ((prune_tiers fl ids kvs now p).protected ≡ p.protected)
  unfolding prune_tiers prune_probation
  prune_tiers-busy now p h =
      let e : Evict F = record {
        items = p.items;
        protected = p.protected;
        quota = (pool_quotas p).0;
      } in
      ground (
        arith,
        evict_probation-busy now e h,
        evict_spill-busy now p.config (keys_where (λ v. v.in_main) p.items)
            (record e { quota = (pool_quotas p).1 }) h,
      )

  -- If every relay is in the main tier and had a result in the last 5 minutes, prune changes
  -- nothing, however many relays there are.
  pub prune-busy : (now : ℕ) (p : RelayPool F) → AllBusy now p.items → prune fl ids kvs now p ≡ p
  unfolding prune
  prune-busy now p h = elim (Bool-cases (leb (length p.items) p.high_water)) [
    | inl small ↦ rw small
    | inr big ↦ rw big (ground (arith, prune_tiers-busy now p h))
  ]
