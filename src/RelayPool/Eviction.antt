-- ===== src/RelayPool/Eviction.antt =====
-- prune only deletes: what holds of the items and survives a deletion holds after it.
use peerscale.Prelude.{ℕ, List, [], ◌∷◌, inl, inr, leb, ltb, Bool-cases, length}
use peerscale.Dict.{erase}
use peerscale.Runtime.{Float64, SortSlice}
use peerscale.RelayPool.{RelayPool, RelayItem, WeightConfig}
use peerscale.RelayPool.Prune.{
  Evict, Kv, evict_one, evict_loop, evict_probation, evict_main, evict_main_and_spill, prune,
  prune_probation, prune_tiers,
}

module _ {F : Type 0} (P : List (ℕ × RelayItem F) → Type 0)
    (closed : (k : ℕ) (m : List (ℕ × RelayItem F)) → P m → P (erase k m)) where
  pub evict_loop-closed : (pids : List ℕ) (e : Evict F) → P e.items → P (evict_loop pids e).items
  unfolding evict_loop
  evict_loop-closed [] e h = h
  evict_loop-closed (pid ∷ pids) e h = elim (Bool-cases (leb e.quota 0)) [
    | inl full ↦ rw full h
    | inr more ↦ rw more (evict_loop-closed pids (evict_one pid e) (closed pid e.items h))
  ]

  module _ (fl : Float64 F) (ids : SortSlice ℕ) (kvs : SortSlice (Kv F)) where
    evict_probation-closed :
        (pids : List ℕ) (e : Evict F) → P e.items → P (evict_probation fl ids kvs pids e).items
    unfolding evict_probation
    evict_probation-closed pids e h = elim (Bool-cases (ltb 0 e.quota)) [
      | inl more ↦ rw more (evict_loop-closed _ e h)
      | inr done ↦ rw done h
    ]

    pub evict_spill-closed :
        (now : ℕ) (w : WeightConfig F) (pids : List ℕ) (e : Evict F)
        → P e.items
        → P (evict_main_and_spill fl ids kvs now w pids e).items
    unfolding evict_main_and_spill evict_main
    evict_spill-closed now w pids e h = elim (Bool-cases (ltb 0 e.quota)) [
      | inl more ↦ rw more (evict_probation-closed _ _ (evict_loop-closed _ e h))
      | inr done ↦ rw done h
    ]

    pub prune_probation-closed :
        (p : RelayPool F) → P p.items → P (prune_probation fl ids kvs p).items
    unfolding prune_probation
    prune_probation-closed p h = evict_probation-closed _ _ h

    pub prune_tiers-closed :
        (now : ℕ) (p : RelayPool F) → P p.items → P (prune_tiers fl ids kvs now p).items
    unfolding prune_tiers
    prune_tiers-closed now p h = evict_spill-closed now _ _ _ (prune_probation-closed p h)

    pub prune-closed : (now : ℕ) (p : RelayPool F) → P p.items → P (prune fl ids kvs now p).items
    unfolding prune
    prune-closed now p h = elim (Bool-cases (leb (length p.items) p.high_water)) [
      | inl small ↦ rw small h
      | inr big ↦ rw big (prune_tiers-closed now p h)
    ]
