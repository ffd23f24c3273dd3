-- ===== src/RelayPool/Candidates.antt =====
-- The items that prune may delete: each once, and all in the pool.
use peerscale.Prelude.{
  ℕ, ◌≤◌, ◌≡◌, refl, Bool, List, [], ◌∷◌, ◌==◌, if◌then◌else◌, arith, length, occurs, count_if,
  count_if-perm, count_if-drop-le,
}
use peerscale.Dict.{keys_where, has_key}
use peerscale.Dict.Laws.{occurs-keys_where-le, lookup-has_key, occurs-present}
use peerscale.Runtime.{Float64, SortSlice}
use peerscale.RelayPool.{RelayItem, WeightConfig}
use peerscale.RelayPool.Prune.{
  Evict, Kv, pids_of, older, candidates, protect_top_scores, protect_uptime,
}
use peerscale.RelayPool.Loop.{IsPart}

module _ {F : Type 0} (fl : Float64 F) (ids : SortSlice ℕ) (kvs : SortSlice (Kv F)) where
  occurs-pids_of :
      (k : ℕ) (cs : List (Kv F)) → occurs k (pids_of cs) ≡ count_if (λ c. c.pid == k) cs
  occurs-pids_of k [] = refl
  occurs-pids_of k (c ∷ cs) = ground (arith, occurs-pids_of k cs)

  occurs-sort :
      (k : ℕ) (less : Kv F → Kv F → Bool) (cs : List (Kv F))
      → count_if (λ c. c.pid == k) (kvs.sort less cs) ≡ count_if (λ c. c.pid == k) cs
  occurs-sort k less cs = count_if-perm (λ c. c.pid == k) _ _ (kvs.sort_perm less cs)

  -- The protection rounds only take candidates away.
  top_scores-le :
      (k : ℕ) (cs : List (Kv F))
      → count_if (λ c. c.pid == k) (protect_top_scores fl ids kvs cs)
        ≤ count_if (λ c. c.pid == k) cs
  unfolding protect_top_scores
  top_scores-le k cs = ground (
    arith,
    occurs-sort k (λ a b. fl.lt b.score a.score) cs,
    count_if-drop-le (λ c. c.pid == k) (fl.ceil (fl.mul (fl.of_int (length cs)) (fl.lit 20 100)))
        (kvs.sort (λ a b. fl.lt b.score a.score) cs),
  )

  uptime-le :
      (k : ℕ) (items : List (ℕ × RelayItem F)) (cs : List (Kv F))
      → count_if (λ c. c.pid == k) (protect_uptime fl ids kvs items cs)
        ≤ count_if (λ c. c.pid == k) cs
  unfolding protect_uptime
  uptime-le k items [] = omega arith
  uptime-le k items (c ∷ cs) = ground (
    arith,
    occurs-sort k (λ a b. older items a.pid b.pid) (c ∷ cs),
    count_if-drop-le (λ c. c.pid == k) 10 (kvs.sort (λ a b. older items a.pid b.pid) (c ∷ cs)),
  )

  pub candidates-le :
      (k now : ℕ) (w : WeightConfig F) (items : List (ℕ × RelayItem F))
      (protected : List (ℕ × Unit {0})) (pids : List ℕ)
      → count_if (λ c. c.pid == k) (candidates fl ids kvs now w items protected pids)
        ≤ (if has_key k items then occurs k pids else 0)
  unfolding candidates
  candidates-le k now w items protected [] = ground arith
  candidates-le k now w items protected (pid ∷ pids) =
      ground (arith, candidates-le k now w items protected pids, lookup-has_key pid items)

  -- The list that the loop over the main tier walks has no key more often than the candidates.
  pub ranked-le :
      (k : ℕ) (less : Kv F → Kv F → Bool) (items : List (ℕ × RelayItem F)) (cs : List (Kv F))
      → occurs k (
          pids_of
            (kvs.sort less (protect_uptime fl ids kvs items (protect_top_scores fl ids kvs cs))))
        ≤ count_if (λ c. c.pid == k) cs
  ranked-le k less items cs =
      let top = protect_top_scores fl ids kvs cs in
      let up = protect_uptime fl ids kvs items top in
      omega (
        arith,
        occurs-pids_of k (kvs.sort less up),
        occurs-sort k less up,
        uptime-le k items top,
        top_scores-le k cs,
      )

  -- The loop over the main tier deletes distinct keys that are there.
  pub main_pids-IsPart :
      (now : ℕ) (w : WeightConfig F) (pids : List ℕ) (e : Evict F) (less : Kv F → Kv F → Bool)
      → ((k : ℕ) → occurs k pids ≤ 1)
      → IsPart
          (pids_of (
            kvs.sort less (
              protect_uptime fl ids kvs e.items (
                protect_top_scores fl ids kvs
                  (candidates fl ids kvs now w e.items e.protected pids)))))
          e.items
  main_pids-IsPart now w pids e less distinct = record {
    part = λ k.
        let cs = candidates fl ids kvs now w e.items e.protected pids in
        ground (
          arith,
          ranked-le k less e.items cs,
          candidates-le k now w e.items e.protected pids,
          distinct k,
          occurs-present k e.items,
        );
  }

  pub sorted-IsPart :
      (less : ℕ → ℕ → Bool) (p : RelayItem F → Bool) (m : List (ℕ × RelayItem F))
      → IsPart (ids.sort less (keys_where p m)) m
  sorted-IsPart less p m = record {
    part = λ k. omega (
      arith,
      count_if-perm (λ x. x == k) _ _ (ids.sort_perm less (keys_where p m)),
      occurs-keys_where-le p k m,
    );
  }
