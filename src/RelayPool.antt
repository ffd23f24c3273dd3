-- ===== src/RelayPool.antt =====
-- The relay pool of p2put/relaypool.go: its data and its scores; the methods that change it are in
-- the children Prune and Ops, those that choose relays in Select. The pool is one
-- record; each method runs under the pool's lock, so it is one step from pool to pool. A peer.ID
-- and a multiaddr.Multiaddr are opaque values, numbers here, that are only compared. Each call
-- reads the clock once, as `now`. Log lines are left out.
pub mod Prune
pub mod Ops
pub mod Run
pub mod Eviction
pub mod Invariant
pub mod Loop
pub mod Candidates
pub mod Size
pub mod Protection
pub mod Breaker
pub mod Fifo
pub mod Circuit
pub mod Capacity
pub mod Select
mod Examples
use peerscale.Prelude.{
  ℕ, ◌+◌, ◌-◌, ◌*◌, Bool, true, false, not, ◌&&◌, ◌||◌, Option, none, some, List, [], ◌∷◌, map,
  ◌==◌, ltb, leb, if◌then◌else◌,
}
use peerscale.Dict.{lookup, has_key, insert, erase, adjust}
use peerscale.Runtime.{Float64, millisecond, second, minute}

abbrev pub pool_high_water : ℕ
pool_high_water = 50

abbrev pub pool_low_water : ℕ
pool_low_water = 40

abbrev pub demote_threshold : ℕ
demote_threshold = 3

pub data ErrType : Type 0 where
  err_ok err_rate_limited err_failed : ErrType

pub record WeightConfig (F : Type 0) : Type 0 where
  pub success : F
  pub latency : F
  pub data_limit : F
  pub duration_limit : F
  pub ttl : F
  pub uptime : F

-- Durations and data sizes in a relay's limits are not negative.
pub record RelayItem (F : Type 0) : Type 0 where
  pub peer_id : ℕ
  pub addr : ℕ
  pub in_main : Bool
  pub success_score : F
  pub avg_rtt : ℕ
  pub limit_duration : ℕ
  pub limit_data : ℕ
  pub rate_limit_hits : ℕ
  pub consecutive_fails : ℕ
  pub circuit_open : Bool
  pub reservation_expires : ℕ
  pub connected_since : ℕ
  pub last_result : ℕ

-- The sets `protected` and `managed` are maps with nothing stored.
pub record RelayPool (F : Type 0) : Type 0 where
  pub items : List (ℕ × RelayItem F)
  pub config : WeightConfig F
  pub protected : List (ℕ × Unit {0})
  pub managed : List (ℕ × Unit {0})
  pub low_water : ℕ
  pub high_water : ℕ

-- What errors.Is and errors.As find in an error's chain: network.ErrReset, and the status of a
-- client.ReservationError. `none` for an error is Go's nil.
pub record GoError : Type 0 where
  pub is_reset : Bool
  pub reservation_status : Option ℕ

abbrev pub status_reservation_refused : ℕ
status_reservation_refused = 200

unfoldable pub classify_error : Option GoError → ErrType
classify_error none = err_ok
classify_error (some e) = if e.is_reset then err_rate_limited else elim e.reservation_status [
  | some s ↦ if s == status_reservation_refused then err_rate_limited else err_failed
  | none ↦ err_failed
]

module _ {F : Type 0} (fl : Float64 F) where
  open fl use {add, sub, mul, div, lt, eq, lit, of_int, to_int}

  unfoldable pub default_weights : WeightConfig F
  default_weights = record {
    success = lit 35 100;
    latency = lit 20 100;
    data_limit = lit 15 100;
    duration_limit = lit 15 100;
    ttl = lit 10 100;
    uptime = lit 5 100;
  }

  unfoldable pub new_relay_pool : WeightConfig F → RelayPool F
  unfolding default_weights
  new_relay_pool cfg = record {
    items = [];
    config =
        if eq cfg.success (lit 0 1)
          && (eq cfg.latency (lit 0 1)
              && (eq cfg.data_limit (lit 0 1)
                  && (eq cfg.duration_limit (lit 0 1)
                      && (eq cfg.ttl (lit 0 1) && eq cfg.uptime (lit 0 1)))))
        then default_weights
        else cfg;
    protected = [];
    managed = [];
    low_water = pool_low_water;
    high_water = pool_high_water;
  }

  unfoldable pub ema : F → F → F → F
  ema old new_val alpha = add (mul alpha new_val) (mul (sub (lit 1 1) alpha) old)

  unfoldable pub ema_rtt : ℕ → ℕ → F → ℕ
  ema_rtt old new_val alpha =
      to_int (add (mul alpha (of_int new_val)) (mul (sub (lit 1 1) alpha) (of_int old)))

  unfoldable pub calc_latency : ℕ → F
  calc_latency rtt =
      if rtt == 0
      then lit 1 2
      else if ltb rtt (50 * millisecond)
      then lit 1 1
      else if ltb (2000 * millisecond) rtt
      then lit 1 10
      else sub (lit 1 1)
          (mul (div (of_int (rtt - 50 * millisecond)) (of_int (1950 * millisecond))) (lit 9 10))

  unfoldable pub calc_data_limit : ℕ → F
  calc_data_limit size =
      if size == 0 then lit 1 2 else fl.min (div (of_int size) (of_int (128 * 1024))) (lit 1 1)

  unfoldable pub calc_duration_limit : ℕ → F
  calc_duration_limit dur =
      if dur == 0 then lit 1 2 else fl.min (div (of_int dur) (of_int (2 * minute))) (lit 1 1)

  unfoldable pub calc_ttl : ℕ → ℕ → F
  calc_ttl now expires =
      if ltb expires now
      then lit 0 1
      else if ltb (10 * minute) (expires - now)
      then lit 1 1
      else div (of_int (expires - now)) (of_int (10 * minute))

  unfoldable pub calc_uptime : ℕ → ℕ → F
  calc_uptime now since =
      if ltb (5 * minute) (now - since)
      then lit 1 1
      else if ltb (now - since) (10 * second)
      then lit 3 10
      else add (lit 3 10)
          (mul (div (of_int (now - since - 10 * second)) (of_int (290 * second))) (lit 7 10))

  unfoldable pub calc_score : ℕ → WeightConfig F → RelayItem F → F
  unfolding calc_latency calc_data_limit calc_duration_limit calc_ttl calc_uptime
  calc_score now w item =
      if item.circuit_open
      then lit 0 1
      else let s₁ = mul w.success item.success_score in
        let s₂ = add s₁ (mul w.latency (calc_latency item.avg_rtt)) in
        let s₃ = add s₂ (mul w.data_limit (calc_data_limit item.limit_data)) in
        let s₄ = add s₃ (mul w.duration_limit (calc_duration_limit item.limit_duration)) in
        let s₅ = add s₄ (mul w.ttl (calc_ttl now item.reservation_expires)) in
        add s₅ (mul w.uptime (calc_uptime now item.connected_since))
