-- ===== src/RelayPool/Run.antt =====
-- Histories of the relay pool: every exported method that changes it and the outcomes of the health
-- check's pings, in any order.
use peerscale.Prelude.{ℕ, Option, List, [], ◌∷◌}
use peerscale.Runtime.{Float64, SortSlice}
use peerscale.RelayPool.{RelayPool, WeightConfig, GoError}
use peerscale.RelayPool.Prune.{Kv, prune}
use peerscale.RelayPool.Ops.{
  add, remove, protect, unprotect, add_managed, remove_managed, record_result, set_relay_limits,
  set_reservation_ttl, set_weights, set_weight, health_ping,
}

-- The first number of `adds`, `records` and `pings` is the time of the call.
pub data Call (F : Type 0) : Type 0 where
  adds : ℕ → Option (ℕ × ℕ) → Call F
  removes : ℕ → Call F
  protects : ℕ → Call F
  unprotects : ℕ → Call F
  adds_managed : List ℕ → Call F
  removes_managed : List ℕ → Call F
  records : ℕ → ℕ → Option GoError → Call F
  limits : ℕ → ℕ → ℕ → Call F
  reserves : ℕ → ℕ → Call F
  weighs : WeightConfig F → Call F
  weighs_one : ℕ → F → Call F
  pings : ℕ → ℕ → ℕ → Option GoError → Call F
  prunes : ℕ → Call F

module _ {F : Type 0} (fl : Float64 F) (ids : SortSlice ℕ) (kvs : SortSlice (Kv F)) where
  unfoldable pub step : Call F → RelayPool F → RelayPool F
  step (adds now parsed) p = add fl ids kvs now parsed p
  step (removes pid) p = remove pid p
  step (protects pid) p = protect pid p
  step (unprotects pid) p = unprotect pid p
  step (adds_managed pids) p = add_managed pids p
  step (removes_managed pids) p = remove_managed pids p
  step (records now pid err) p = record_result fl ids kvs now pid err p
  step (limits pid dur size) p = set_relay_limits pid dur size p
  step (reserves pid expires) p = set_reservation_ttl pid expires p
  step (weighs w) p = set_weights w p
  step (weighs_one factor value) p = set_weight fl factor value p
  step (pings now pid rtt err) p = health_ping fl ids kvs now pid rtt err p
  step (prunes now) p = prune fl ids kvs now p

  unfoldable pub run : List (Call F) → RelayPool F → RelayPool F
  run [] p = p
  run (c ∷ cs) p = run cs (step c p)
