-- ===== src/RelayPool/Fifo.antt =====
-- The probation tier is evicted first in, first out.
use mathlib.Core.List.{Pairwise, Pairwise-cons, Mem, mem-cons_self, mem-cons_of_mem}
use peerscale.Prelude.{
  ℕ, ◌≤◌, ◌≡◌, ◌⊎◌, refl, true, false, List, [], ◌∷◌, inl, inr, leb, ltb, ◌==◌, arith, Bool-cases,
  length, occurs, count_if-perm, some, All,
}
use peerscale.Dict.{erase, keys_where, lookup, has_key, IsMap}
use peerscale.Dict.Laws.{
  erase-IsMap, lookup-erase, has_key-erase, occurs-keys_where_none, occurs-keys_where-some,
  has_key_of_lookup,
}
use peerscale.Runtime.{Float64, SortSlice, IsLess}
use peerscale.RelayPool.{RelayPool, RelayItem, WeightConfig}
use peerscale.RelayPool.Prune.{
  Evict, Kv, evict_one, evict_loop, evict_probation, evict_main, evict_main_and_spill, prune,
  prune_probation, prune_tiers, pool_quotas, older, since_of, candidates, in_probation,
}
use peerscale.RelayPool.Eviction.{prune_probation-closed, evict_spill-closed, evict_loop-closed}
use peerscale.RelayPool.Candidates.{ranked-le, candidates-le}
use peerscale.RelayPool.Protection.{Keeps, evict_loop-Keeps}

-- The list rises under `g`.
abbrev IsRising : (ℕ → ℕ) → List ℕ → Type 0
IsRising g [] = Unit
IsRising g (u ∷ us) = All (λ v. g u ≤ g v) us × IsRising g us

All-of_mem : (P : ℕ → Type 0) (xs : List ℕ) → ((a : ℕ) → Mem a xs → P a) → All P xs
All-of_mem P [] h = tt
All-of_mem P (x ∷ xs) h = (h x mem-cons_self, All-of_mem P xs (λ a m. h a (mem-cons_of_mem x m)))

All-occurs : (P : ℕ → Type 0) (a : ℕ) (xs : List ℕ) → All P xs → 1 ≤ occurs a xs → P a
All-occurs P a [] h o = absurd (omega arith)
All-occurs P a (x ∷ xs) h o = ground (arith, All-occurs P a xs h.1)

IsRising-of_Pairwise :
    (g : ℕ → ℕ) (xs : List ℕ) → Pairwise (λ a b. ltb (g b) (g a) ≡ false) xs → IsRising g xs
IsRising-of_Pairwise g [] h = tt
IsRising-of_Pairwise g (x ∷ xs) h = (
  All-of_mem (λ v. g x ≤ g v) xs (λ a m. ground (arith, (Pairwise-cons.0 h).0 a m)),
  IsRising-of_Pairwise g xs (Pairwise-cons.0 h).1,
)

older-IsLess : {F : Type 0} (m : List (ℕ × RelayItem F)) → IsLess (older m)
older-IsLess m = record {
  asymmetric = λ a b h. ground arith;
  cotransitive = λ a b c h. ground arith;
}

gone_stays :
    {F : Type 0} (k : ℕ) (pids : List ℕ) (e : Evict F)
    → has_key k e.items ≡ false
    → has_key k (evict_loop pids e).items ≡ false
gone_stays k pids e h =
    evict_loop-closed (λ m. has_key k m ≡ false) (λ j m g. ground (arith, has_key-erase j k m)) pids
      e h

module _ {F : Type 0} (g : ℕ → ℕ) (a b : ℕ) where
  -- Of two keys of a rising list, the loop deletes the one that comes first.
  loop_fifo :
      (pids : List ℕ) (e : Evict F)
      → IsRising g pids
      → 1 ≤ occurs b pids
      → has_key a e.items ≡ true
      → has_key a (evict_loop pids e).items ≡ false
      → has_key b (evict_loop pids e).items ≡ true
      → g a ≤ g b
  unfolding evict_loop
  loop_fifo [] e r hb ha ga sb = cc
  loop_fifo (pid ∷ pids) e r hb ha ga sb = ground (
    arith,
    loop_fifo pids (evict_one pid e) r.1,
    has_key-erase pid a e.items,
    has_key-erase pid b e.items,
    All-occurs (λ v. g pid ≤ g v) b pids r.0,
    gone_stays b pids (evict_one pid e),
  )

module _ {F : Type 0} (fl : Float64 F) (ids : SortSlice ℕ) (kvs : SortSlice (Kv F)) where
  -- One eviction from the probation tier.
  evict_probation_fifo :
      (a b : ℕ) (x y : RelayItem F) (e : Evict F)
      → lookup a e.items ≡ some x
      → lookup b e.items ≡ some y
      → y.in_main ≡ false
      → let e' = evict_probation fl ids kvs (keys_where in_probation e.items) e in
        has_key a e'.items ≡ false
        → has_key b e'.items ≡ true
        → x.connected_since ≤ y.connected_since
  unfolding evict_probation in_probation
  evict_probation_fifo a b x y e ha hb yp ga sb =
      let pids = keys_where in_probation e.items in
      let sorted = ids.sort (older e.items) pids in
      let rising =
        IsRising-of_Pairwise (since_of e.items) sorted
          (ids.sort_ordered (older e.items) pids (older-IsLess e.items)) in
      let b_in : 1 ≤ occurs b sorted = omega (
        arith,
        count_if-perm (λ v. v == b) _ _ (ids.sort_perm (older e.items) pids),
        occurs-keys_where-some in_probation b e.items y hb (ground arith),
      ) in
      ground (
        arith,
        loop_fifo (since_of e.items) a b sorted e rising b_in,
        has_key_of_lookup a e.items x ha,
        ha,
        hb,
      )

  -- The main tier's loop leaves a probation item as it is.
  evict_main-Keeps :
      (now : ℕ) (w : WeightConfig F) (a : ℕ) (x : RelayItem F) (pids : List ℕ) (e : Evict F)
      → occurs a pids ≡ 0
      → Keeps a x (has_key a e.protected) e
      → Keeps a x (has_key a e.protected) (evict_main fl ids kvs now w pids e)
  unfolding evict_main
  evict_main-Keeps now w a x pids e none_in k =
      let cs = candidates fl ids kvs now w e.items e.protected pids in
      let less = λ (c d : Kv F). fl.lt c.score d.score in
      evict_loop-Keeps a x _ _ e
        (ground (
          arith,
          ranked-le fl ids kvs a less e.items cs,
          candidates-le fl ids kvs a now w e.items e.protected pids,
        ))
        k

  -- An entry is unchanged as long as it is there.
  SameOrGone : (a : ℕ) (x : RelayItem F) (m : List (ℕ × RelayItem F)) → Type 0
  SameOrGone a x m = (has_key a m ≡ false) ⊎ (lookup a m ≡ some x)

  SameOrGone-erase :
      (a : ℕ) (x : RelayItem F) (k : ℕ) (m : List (ℕ × RelayItem F))
      → SameOrGone a x m
      → SameOrGone a x (erase k m)
  unfolding SameOrGone
  SameOrGone-erase a x k m h = ground (arith, has_key-erase k a m, lookup-erase k a m)

  evict_spill_fifo :
      (now : ℕ) (w : WeightConfig F) (a b : ℕ) (x y : RelayItem F) (pids : List ℕ) (e : Evict F)
      → Keeps a x (has_key a e.protected) e
      → Keeps b y (has_key b e.protected) e
      → occurs a pids ≡ 0
      → occurs b pids ≡ 0
      → y.in_main ≡ false
      → let e' = evict_main_and_spill fl ids kvs now w pids e in
        has_key a e'.items ≡ false
        → has_key b e'.items ≡ true
        → x.connected_since ≤ y.connected_since
  unfolding evict_main_and_spill
  evict_spill_fifo now w a b x y pids e ka kb oa ob yp ga sb = elim (Bool-cases (ltb 0 e.quota)) [
    | inr done ↦ ground (arith, has_key_of_lookup a e.items x ka.there)
    | inl more ↦
        evict_probation_fifo a b x y (evict_main fl ids kvs now w pids e)
          (evict_main-Keeps now w a x pids e oa ka).there
          (evict_main-Keeps now w b y pids e ob kb).there yp (ground arith) (ground arith)
  ]

  -- The first loop leaves an entry as it is, or deletes it.
  after_probation :
      (a : ℕ) (x : RelayItem F) (p : RelayPool F)
      → IsMap p.items
      → lookup a p.items ≡ some x
      → has_key a (prune_probation fl ids kvs p).items ≡ true
      → let e : Evict F = record (prune_probation fl ids kvs p) { quota = (pool_quotas p).1 } in
        Keeps a x (has_key a e.protected) e
  unfolding SameOrGone
  after_probation a x p once h there =
      let s = prune_probation-closed (SameOrGone a x) (SameOrGone-erase a x) fl ids kvs p (inr h) in
      record {
        once = prune_probation-closed (λ m. IsMap m) erase-IsMap fl ids kvs p once;
        there = ground (arith, s);
        mark = refl;
      }

  -- What the whole of prune keeps was there after its first loop.
  there_after_probation :
      (now b : ℕ) (p : RelayPool F)
      → has_key b (prune_tiers fl ids kvs now p).items ≡ true
      → has_key b (prune_probation fl ids kvs p).items ≡ true
  unfolding prune_tiers
  there_after_probation now b p h =
      let e : Evict F = record (prune_probation fl ids kvs p) { quota = (pool_quotas p).1 } in
      ground (
        arith,
        evict_spill-closed (λ m. has_key b m ≡ false) (λ j m g. ground (arith, has_key-erase j b m))
            fl ids kvs now p.config (keys_where (λ v. v.in_main) p.items) e,
      )

  prune_tiers_fifo :
      (now a b : ℕ) (x y : RelayItem F) (p : RelayPool F)
      → IsMap p.items
      → lookup a p.items ≡ some x
      → lookup b p.items ≡ some y
      → x.in_main ≡ false
      → y.in_main ≡ false
      → has_key a (prune_tiers fl ids kvs now p).items ≡ false
      → has_key b (prune_tiers fl ids kvs now p).items ≡ true
      → x.connected_since ≤ y.connected_since
  unfolding prune_tiers prune_probation
  prune_tiers_fifo now a b x y p once ha hb xp yp ga sb =
      let sb₁ = there_after_probation now b p sb in
      elim (Bool-cases (has_key a (prune_probation fl ids kvs p).items)) [
        | inr gone ↦
            evict_probation_fifo a b x y
              (record { items = p.items; protected = p.protected; quota = (pool_quotas p).0 }) ha hb
              yp gone sb₁
        | inl there ↦
            evict_spill_fifo now p.config a b x y (keys_where (λ v. v.in_main) p.items)
              (record (prune_probation fl ids kvs p) { quota = (pool_quotas p).1 })
              (after_probation a x p once ha there) (after_probation b y p once hb sb₁)
              (occurs-keys_where_none (λ v. v.in_main) a p.items x ha xp (once.once a))
              (occurs-keys_where_none (λ v. v.in_main) b p.items y hb yp (once.once b)) yp ga sb
      ]

  -- In a pool that has each key once: of two relays in the probation tier, if prune deletes the
  -- first and keeps the second, the first was not connected later than the second.
  pub prune_fifo :
      (now a b : ℕ) (x y : RelayItem F) (p : RelayPool F)
      → IsMap p.items
      → lookup a p.items ≡ some x
      → lookup b p.items ≡ some y
      → x.in_main ≡ false
      → y.in_main ≡ false
      → has_key a (prune fl ids kvs now p).items ≡ false
      → has_key b (prune fl ids kvs now p).items ≡ true
      → x.connected_since ≤ y.connected_since
  unfolding prune
  prune_fifo now a b x y p once ha hb xp yp ga sb =
      elim (Bool-cases (leb (length p.items) p.high_water)) [
        | inl small ↦ ground (arith, has_key_of_lookup a p.items x ha)
        | inr big ↦ ground (arith, prune_tiers_fifo now a b x y p once ha hb xp yp)
      ]
