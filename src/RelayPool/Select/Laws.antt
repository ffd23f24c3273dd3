-- ===== src/RelayPool/Select/Laws.antt =====
-- What the choices of relays and the statistics promise.
use peerscale.Prelude.{
  ℕ, zero, suc, ◌+◌, ◌<◌, ◌≡◌, ◌⊎◌, refl, Bool, true, false, List, [], ◌∷◌, some, none, ltb,
  if◌then◌else◌, length, take, arith, inl, inr, min, length-perm, length-take, Bool-cases, ap,
}
use peerscale.Dict.{count_values}
use peerscale.Runtime.{Float64, SortSlice}
use peerscale.RelayPool.{RelayPool, RelayItem, WeightConfig}
use peerscale.RelayPool.Select.{
  Entry, Stats, get_elem?, addr_of, infos_of, entries, total_score, roulette, pick, select,
  stats_one, stats_loop, stats, ranked, select_n,
}

-- Some entry has the property.
abbrev pub AnyEntry : {V : Type 0} → (ℕ → V → Type 0) → List (ℕ × V) → Type 0
AnyEntry P [] = ⊥
AnyEntry P ((k, v) ∷ m) = P k v ⊎ AnyEntry P m

-- A relay with a closed circuit at the address.
abbrev pub Usable : {F : Type 0} → ℕ → List (ℕ × RelayItem F) → Type 0
Usable addr m = AnyEntry (λ k v. (v.circuit_open ≡ false) × (v.addr ≡ addr)) m

abbrev pub healthy_count : {F : Type 0} → List (ℕ × RelayItem F) → ℕ
healthy_count m = count_values (λ v. if v.circuit_open then false else true) m

abbrev AnyAt : {F : Type 0} → ℕ → List (Entry F) → Type 0
AnyAt addr [] = ⊥
AnyAt addr (e ∷ es) = (e.addr ≡ addr) ⊎ AnyAt addr es

module _ {F : Type 0} where
  choose :
      (b : Bool) (x y : Entry F) (es : List (Entry F))
      → AnyAt x.addr es
      → AnyAt y.addr es
      → AnyAt (if b then x else y).addr es
  choose true x y es hx hy = hx
  choose false x y es hx hy = hy

  kept_or_later :
      (b : Bool) (x : Entry F) (es : List (Entry F)) (addr : ℕ)
      → AnyAt addr (if b then es else x ∷ es)
      → AnyAt addr es ⊎ ((b ≡ false) × (x.addr ≡ addr))
  kept_or_later true x es addr h = inl h
  kept_or_later false x es addr (inl h) = inr (refl, h)
  kept_or_later false x es addr (inr h) = inl h

module _ {F : Type 0} (fl : Float64 F) where
  entries-Usable :
      (key : ℕ → RelayItem F → ℕ) (now : ℕ) (w : WeightConfig F) (m : List (ℕ × RelayItem F))
      (addr : ℕ)
      → AnyAt addr (entries fl key now w m)
      → Usable addr m
  unfolding entries
  entries-Usable key now w [] addr h = h
  entries-Usable key now w ((k, v) ∷ m) addr h = elim (kept_or_later v.circuit_open _ _ addr h) [
    | inl later ↦ inr (entries-Usable key now w m addr later)
    | inr good ↦ inl good
  ]

  length-entries :
      (key : ℕ → RelayItem F → ℕ) (now : ℕ) (w : WeightConfig F) (m : List (ℕ × RelayItem F))
      → length (entries fl key now w m) ≡ healthy_count m
  unfolding entries
  length-entries key now w [] = refl
  length-entries key now w ((k, v) ∷ m) = ground (arith, length-entries key now w m)

  roulette-AnyAt :
      (r : F) (e : Entry F) (es : List (Entry F)) → AnyAt (roulette fl r e es).addr (e ∷ es)
  unfolding roulette
  roulette-AnyAt r e [] = inl refl
  roulette-AnyAt r e (d ∷ es) =
      choose (fl.le (fl.sub r e.score) (fl.lit 0 1)) e (roulette fl (fl.sub r e.score) d es)
        (e ∷ d ∷ es) (inl refl) (inr (roulette-AnyAt (fl.sub r e.score) d es))

  get_elem-AnyAt :
      (i : ℕ) (es : List (Entry F))
      → i < length es
      → (addr : ℕ) × (addr_of (get_elem? es i) ≡ some addr) × AnyAt addr es
  get_elem-AnyAt i [] h = absurd (omega arith)
  get_elem-AnyAt zero (e ∷ es) h = (e.addr, refl, inl refl)
  get_elem-AnyAt (suc i) (e ∷ es) h =
      let (a, q, t) = get_elem-AnyAt i es (omega arith) in (a, q, inr t)

  -- One of the entries, if there is one.
  pick-AnyAt :
      (intn : ℕ → ℕ) (draw₁ draw₂ : F) (es : List (Entry F))
      → ((n : ℕ) → 0 < n → intn n < n)
      → ((es ≡ []) × (pick fl intn draw₁ draw₂ es ≡ none))
        ⊎ ((addr : ℕ) × (pick fl intn draw₁ draw₂ es ≡ some addr) × AnyAt addr es)
  unfolding pick
  pick-AnyAt intn draw₁ draw₂ [] h = inl (refl, refl)
  pick-AnyAt intn draw₁ draw₂ (e ∷ es) h =
      let all = e ∷ es in
      let total = total_score fl (fl.lit 0 1) all in
      let random = get_elem-AnyAt (intn (length all)) all (h (length all) (omega arith)) in
      elim (Bool-cases (fl.lt draw₁ (fl.lit 1 10))) [
        | inl explore ↦ rw explore (inr random)
        | inr weigh ↦ rw weigh (elim (Bool-cases (fl.eq total (fl.lit 0 1))) [
          | inl flat ↦ rw flat (inr random)
          | inr scored ↦ rw scored (inr (_, refl, roulette-AnyAt (fl.mul draw₂ total) e es))
        ])
      ]

  nil_of_length : (es : List (Entry F)) → es ≡ [] → length es ≡ 0
  nil_of_length es h = rw h

  -- Where rand.Intn(n) is below n, and whatever the other draws: Select gives nothing if the
  -- circuit of every relay is open, and otherwise the address of a relay with a closed circuit.
  pub select-Usable :
      (now : ℕ) (intn : ℕ → ℕ) (draw₁ draw₂ : F) (p : RelayPool F)
      → ((n : ℕ) → 0 < n → intn n < n)
      → ((healthy_count p.items ≡ 0) × (select fl now intn draw₁ draw₂ p ≡ none))
        ⊎ ((addr : ℕ) × (select fl now intn draw₁ draw₂ p ≡ some addr) × Usable addr p.items)
  unfolding select
  select-Usable now intn draw₁ draw₂ p h =
      let key = λ (pid : ℕ) (item : RelayItem F). item.peer_id in
      let es = entries fl key now p.config p.items in
      elim (pick-AnyAt intn draw₁ draw₂ es h) [
        | inl (empty, nothing) ↦ inl (
          omega (arith, length-entries key now p.config p.items, nil_of_length es empty),
          nothing,
        )
        | inr (addr, found, at) ↦ inr (addr, found, entries-Usable key now p.config p.items addr at)
      ]

  stats_loop-counts :
      (now : ℕ) (w : WeightConfig F) (m : List (ℕ × RelayItem F)) (s : Stats F)
      → let s' = stats_loop fl now w m s in
        (s'.total ≡ s.total)
        × (s'.main_cnt ≡ s.main_cnt + count_values (λ v. v.in_main) m)
        × (s'.main_cnt + s'.probation_cnt ≡ s.main_cnt + s.probation_cnt + length m)
        × (s'.healthy ≡ s.healthy + healthy_count m)
        × (s'.healthy + s'.circuit_open ≡ s.healthy + s.circuit_open + length m)
  unfolding stats_loop
  stats_loop-counts now w [] s = omega arith
  stats_loop-counts now w ((k, v) ∷ m) s =
      ground (arith, stats_loop-counts now w m (stats_one fl now w v s))

  -- Stats counts every relay in exactly one tier and as exactly one of healthy and open, and the
  -- numbers of main and of healthy relays are those of the pool.
  pub stats_counts :
      (now : ℕ) (p : RelayPool F)
      → let s = stats fl now p in
        (s.total ≡ length p.items)
        × (s.main_cnt ≡ count_values (λ v. v.in_main) p.items)
        × (s.main_cnt + s.probation_cnt ≡ s.total)
        × (s.healthy ≡ healthy_count p.items)
        × (s.healthy + s.circuit_open ≡ s.total)
  unfolding stats
  stats_counts now p = ground (
    arith,
    stats_loop-counts now p.config p.items (record {
      total = length p.items;
      healthy = 0;
      circuit_open = 0;
      avg_score = fl.lit 0 1;
      probation_cnt = 0;
      main_cnt = 0;
    }),
  )

module _ {F : Type 0} (fl : Float64 F) (sorts : SortSlice (Entry F)) where
  length-infos_of : (es : List (Entry F)) → length (infos_of es) ≡ length es
  unfolding infos_of
  length-infos_of [] = refl
  length-infos_of (e ∷ es) = ap suc (length-infos_of es)

  -- SelectN gives as many relays as were asked for, or as many as have a closed circuit if those
  -- are fewer.
  pub length-select_n :
      (now n : ℕ) (p : RelayPool F)
      → length (select_n fl sorts now n p) ≡ min n (healthy_count p.items)
  unfolding select_n ranked
  length-select_n now n p =
      let es = entries fl (λ pid item. pid) now p.config p.items in
      let all = sorts.sort (λ a b. fl.lt b.score a.score) es in
      let k = (if ltb (length all) n then length all else n) in
      ground (
        arith,
        length-infos_of (take k all),
        length-take k all,
        length-perm all es (sorts.sort_perm (λ a b. fl.lt b.score a.score) es),
        length-entries fl (λ pid item. pid) now p.config p.items,
      )
