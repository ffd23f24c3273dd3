-- ===== src/RelayPool/Prune.antt =====
-- RelayPool.prune of p2put/relaypool.go: eviction from the high to the low water mark.
use peerscale.Prelude.{
  ℕ, ◌+◌, ◌-◌, ◌*◌, ◌/◌, Bool, not, ◌&&◌, ◌||◌, none, some, List, [], ◌∷◌, ltb, leb, if◌then◌else◌,
  length, drop,
}
use peerscale.Dict.{lookup, has_key, erase, keys_where}
use peerscale.Runtime.{Float64, SortSlice, minute}
use peerscale.RelayPool.{RelayPool, RelayItem, WeightConfig, calc_score}

-- What the eviction loops change: the two maps, and the quota of the tier that is being evicted.
pub record Evict (F : Type 0) : Type 0 where
  pub items : List (ℕ × RelayItem F)
  pub protected : List (ℕ × Unit {0})
  pub quota : ℕ

-- The local type kv: a candidate for eviction from the main tier, with its score.
pub record Kv (F : Type 0) : Type 0 where
  pub pid : ℕ
  pub score : F

-- The number of items to evict from each tier, with the shortfall of one made up by the other.
unfoldable pub quotas : ℕ → ℕ → ℕ → ℕ × ℕ
quotas need probation main =
    let from_probation = need / 2 in
    let from_main = need - from_probation in
    let (p₁, m₁) =
      (if ltb probation from_probation
        then (probation, from_main + (from_probation - probation))
        else (from_probation, from_main)) in
    if ltb main m₁ then (p₁ + (m₁ - main), main) else (p₁, m₁)

module _ {F : Type 0} where
  unfoldable pub evict_one : ℕ → Evict F → Evict F
  evict_one pid e = record {
    items = erase pid e.items;
    protected = erase pid e.protected;
    quota = e.quota - 1;
  }

  -- for _, pid := range pids { if quota <= 0 { break }; delete … }
  unfoldable pub evict_loop : List ℕ → Evict F → Evict F
  unfolding evict_one
  evict_loop [] e = e
  evict_loop (pid ∷ pids) e = if leb e.quota 0 then e else evict_loop pids (evict_one pid e)

  abbrev pub pids_of : List (Kv F) → List ℕ
  pids_of [] = []
  pids_of (c ∷ cs) = c.pid ∷ pids_of cs

  -- p.items[pid].connectedSince, for a key that is there.
  abbrev pub since_of : List (ℕ × RelayItem F) → ℕ → ℕ
  since_of items pid = elim (lookup pid items) [ none ↦ 0 | some item ↦ item.connected_since ]

  abbrev pub older : List (ℕ × RelayItem F) → ℕ → ℕ → Bool
  older items a b = ltb (since_of items a) (since_of items b)

  unfoldable pub in_probation : RelayItem F → Bool
  in_probation item = not item.in_main

  unfoldable pub pool_quotas : RelayPool F → ℕ × ℕ
  unfolding quotas in_probation
  pool_quotas p =
      quotas (length p.items - p.low_water) (length (keys_where in_probation p.items))
        (length (keys_where (λ item. item.in_main) p.items))

module _ {F : Type 0} (fl : Float64 F) (ids : SortSlice ℕ) (kvs : SortSlice (Kv F)) where
  open fl use {lt, mul, lit, of_int, ceil}

  -- Main items that are still there, not protected, and without a result in the last 5 minutes.
  unfoldable pub candidates :
      ℕ → WeightConfig F → List (ℕ × RelayItem F) → List (ℕ × Unit {0}) → List ℕ → List (Kv F)
  candidates now w items protected [] = []
  candidates now w items protected (pid ∷ pids) =
      let rest = candidates now w items protected pids in
      elim (lookup pid items) [
        | none ↦ rest
        | some item ↦
            if has_key pid protected || ltb (now - item.last_result) (5 * minute)
            then rest
            else record { pid = pid; score = calc_score fl now w item } ∷ rest
      ]

  -- Round 2: the top fifth by score is kept out.
  unfoldable pub protect_top_scores : List (Kv F) → List (Kv F)
  protect_top_scores cs =
      let top = ceil (mul (of_int (length cs)) (lit 20 100)) in
      if ltb 0 top && ltb top (length cs)
      then drop top (kvs.sort (λ a b. lt b.score a.score) cs)
      else if leb (length cs) top
      then []
      else cs

  -- Round 3: the ten that have been connected longest are kept out.
  unfoldable pub protect_uptime : List (ℕ × RelayItem F) → List (Kv F) → List (Kv F)
  protect_uptime items [] = []
  protect_uptime items (c ∷ cs) =
      let all = c ∷ cs in
      let k = (if ltb (length all) 10 then length all else 10) in
      if ltb 0 k && ltb k (length all)
      then drop k (kvs.sort (λ a b. older items a.pid b.pid) all)
      else if leb (length all) k
      then []
      else all

  -- The probation tier, oldest connection first.
  unfoldable pub evict_probation : List ℕ → Evict F → Evict F
  unfolding evict_loop
  evict_probation pids e = if ltb 0 e.quota then evict_loop (ids.sort (older e.items) pids) e else e

  -- The main tier, lowest score first.
  unfoldable pub evict_main : ℕ → WeightConfig F → List ℕ → Evict F → Evict F
  unfolding evict_loop candidates protect_top_scores protect_uptime
  evict_main now w pids e =
      let cs =
        protect_uptime e.items (protect_top_scores (candidates now w e.items e.protected pids)) in
      evict_loop (pids_of (kvs.sort (λ a b. lt a.score b.score) cs)) e

  -- Main tier, then what is left of its quota from the probation tier.
  unfoldable pub evict_main_and_spill : ℕ → WeightConfig F → List ℕ → Evict F → Evict F
  unfolding evict_main evict_probation in_probation
  evict_main_and_spill now w pids e =
      if ltb 0 e.quota
      then (let e' = evict_main now w pids e in
          evict_probation (keys_where in_probation e'.items) e')
      else e

  -- prune above the high water mark, up to the end of the probation tier's first loop.
  unfoldable pub prune_probation : RelayPool F → Evict F
  unfolding evict_probation
  prune_probation p =
      evict_probation (keys_where in_probation p.items)
        (record { items = p.items; protected = p.protected; quota = (pool_quotas p).0 })

  -- The rest of prune above the high water mark. The main tier's list is from before the loop.
  unfoldable pub prune_tiers : ℕ → RelayPool F → Evict F
  unfolding evict_main_and_spill
  prune_tiers now p =
      evict_main_and_spill now p.config (keys_where (λ item. item.in_main) p.items)
        (record (prune_probation p) { quota = (pool_quotas p).1 })

  unfoldable pub prune : ℕ → RelayPool F → RelayPool F
  unfolding prune_probation prune_tiers pool_quotas quotas in_probation
  prune now p =
      if leb (length p.items) p.high_water
      then p
      else record p { items = (prune_tiers now p).items; protected = (prune_tiers now p).protected }
