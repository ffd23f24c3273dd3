-- ===== src/RelayPool/Select.antt =====
-- Select, SelectN and Stats of p2put/relaypool.go. The draws of math/rand are arguments: `draw₁`
-- and `draw₂` are the results of rand.Float64, `intn n` that of rand.Intn(n). An index out of
-- range, which panics in Go, gives `none` here.
pub mod Laws
use peerscale.Prelude.{
  ℕ, zero, suc, ◌+◌, ◌<◌, Bool, List, [], ◌∷◌, Option, some, none, ltb, if◌then◌else◌, length, take,
}
use peerscale.Runtime.{Float64, SortSlice}
use peerscale.RelayPool.{RelayPool, RelayItem, WeightConfig, calc_score}

-- The local struct of both functions.
pub record Entry (F : Type 0) : Type 0 where
  pub pid : ℕ
  pub score : F
  pub addr : ℕ

pub record AddrInfo : Type 0 where
  pub id : ℕ
  pub addrs : List ℕ

pub record Stats (F : Type 0) : Type 0 where
  pub total : ℕ
  pub healthy : ℕ
  pub circuit_open : ℕ
  pub avg_score : F
  pub probation_cnt : ℕ
  pub main_cnt : ℕ

abbrev pub get_elem? : {A : Type 0} → List A → ℕ → Option A
get_elem? [] i = none
get_elem? (x ∷ xs) zero = some x
get_elem? (x ∷ xs) (suc i) = get_elem? xs i

abbrev pub addr_of : {F : Type 0} → Option (Entry F) → Option ℕ
addr_of none = none
addr_of (some e) = some e.addr

unfoldable pub infos_of : {F : Type 0} → List (Entry F) → List AddrInfo
infos_of [] = []
infos_of (e ∷ es) = record { id = e.pid; addrs = e.addr ∷ [] } ∷ infos_of es

module _ {F : Type 0} (fl : Float64 F) where
  open fl use {add, sub, mul, div, lt, le, eq, lit, of_int}

  -- The relays with a closed circuit. SelectN takes the map's key for the peer ID, and Select the
  -- item's field; `key` says which.
  unfoldable pub entries :
      (ℕ → RelayItem F → ℕ) → ℕ → WeightConfig F → List (ℕ × RelayItem F) → List (Entry F)
  entries key now w [] = []
  entries key now w ((pid, item) ∷ m) =
      if item.circuit_open
      then entries key now w m
      else record { pid = key pid item; score = calc_score fl now w item; addr = item.addr }
        ∷ entries key now w m

  unfoldable pub total_score : F → List (Entry F) → F
  total_score acc [] = acc
  total_score acc (e ∷ es) = total_score (add acc e.score) es

  -- The loop that takes scores off `r` until it is used up; the last entry if it never is.
  unfoldable pub roulette : F → Entry F → List (Entry F) → Entry F
  roulette r e [] = e
  roulette r e (d ∷ es) =
      let r' = sub r e.score in let rest = roulette r' d es in if le r' (lit 0 1) then e else rest

  unfoldable pub pick : (ℕ → ℕ) → F → F → List (Entry F) → Option ℕ
  unfolding total_score roulette
  pick intn draw₁ draw₂ [] = none
  pick intn draw₁ draw₂ (e ∷ es) =
      let n = length (e ∷ es) in
      if lt draw₁ (lit 1 10)
      then addr_of (get_elem? (e ∷ es) (intn n))
      else let total = total_score (lit 0 1) (e ∷ es) in
        if eq total (lit 0 1)
        then addr_of (get_elem? (e ∷ es) (intn n))
        else some ((roulette (mul draw₂ total) e es).addr)

  unfoldable pub select : ℕ → (ℕ → ℕ) → F → F → RelayPool F → Option ℕ
  unfolding entries pick
  select now intn draw₁ draw₂ p =
      pick intn draw₁ draw₂ (entries (λ pid item. item.peer_id) now p.config p.items)

  -- The body of the loop of Stats.
  unfoldable pub stats_one : ℕ → WeightConfig F → RelayItem F → Stats F → Stats F
  stats_one now w item s = record s {
    main_cnt = if item.in_main then s.main_cnt + 1 else s.main_cnt;
    probation_cnt = if item.in_main then s.probation_cnt else s.probation_cnt + 1;
    circuit_open = if item.circuit_open then s.circuit_open + 1 else s.circuit_open;
    healthy = if item.circuit_open then s.healthy else s.healthy + 1;
    avg_score = add s.avg_score (calc_score fl now w item);
  }

  unfoldable pub stats_loop : ℕ → WeightConfig F → List (ℕ × RelayItem F) → Stats F → Stats F
  unfolding stats_one
  stats_loop now w [] s = s
  stats_loop now w ((pid, item) ∷ m) s = stats_loop now w m (stats_one now w item s)

  -- `avg_score` holds the running total until it is divided.
  unfoldable pub stats : ℕ → RelayPool F → Stats F
  unfolding stats_loop
  stats now p =
      let zeros : Stats F = record {
        total = length p.items;
        healthy = 0;
        circuit_open = 0;
        avg_score = lit 0 1;
        probation_cnt = 0;
        main_cnt = 0;
      } in
      let s = stats_loop now p.config p.items zeros in
      if ltb 0 s.total then record s { avg_score = div s.avg_score (of_int s.total) } else s

module _ {F : Type 0} (fl : Float64 F) (es : SortSlice (Entry F)) where
  -- The entries by falling score.
  unfoldable pub ranked : ℕ → RelayPool F → List (Entry F)
  unfolding entries
  ranked now p =
      es.sort (λ a b. fl.lt b.score a.score) (entries fl (λ pid item. pid) now p.config p.items)

  unfoldable pub select_n : ℕ → ℕ → RelayPool F → List AddrInfo
  unfolding ranked infos_of
  select_n now n p =
      let all = ranked now p in
      let k = (if ltb (length all) n then length all else n) in infos_of (take k all)
