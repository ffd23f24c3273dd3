-- ===== src/RelayPool/Circuit.antt =====
-- When the circuit of a relay closes again.
use peerscale.Prelude.{
  ℕ, ◌≡◌, refl, Bool, true, false, List, [], ◌∷◌, inl, inr, ◌==◌, if◌then◌else◌, arith, Bool-cases,
  Option-cases, Option, some, none,
}
use peerscale.Dict.{lookup, has_key, adjust}
use peerscale.Dict.Laws.{
  lookup-erase, lookup-adjust-some, lookup-adjust-none, has_key_of_lookup, lookup-insert,
}
use peerscale.Runtime.{Float64, SortSlice}
use peerscale.RelayPool.{RelayPool, RelayItem, GoError, classify_error}
use peerscale.RelayPool.Prune.{Kv, prune}
use peerscale.RelayPool.Ops.{
  add, remove, protect, unprotect, add_managed, remove_managed, record_result, set_relay_limits,
  set_reservation_ttl, set_weights, set_weight, health_ping, health_targets, health_pings,
  health_round, record_result, apply_result, apply_pong, new_item,
}
use peerscale.RelayPool.Run.{
  Call, adds, removes, protects, unprotects, adds_managed, removes_managed, records, limits,
  reserves, weighs, weighs_one, pings, prunes, step,
}
use peerscale.RelayPool.Eviction.{prune-closed}

abbrev pub closed_circuit : {F : Type 0} → Option (RelayItem F) → Bool
closed_circuit none = false
closed_circuit (some item) = if item.circuit_open then false else true

-- Gone, or there with an open circuit.
abbrev pub NotClosed : {F : Type 0} → ℕ → List (ℕ × RelayItem F) → Type 0
NotClosed pid m = closed_circuit (lookup pid m) ≡ false

-- The call records a success for the relay.
abbrev pub succeeds : {F : Type 0} → ℕ → Call F → Bool
succeeds pid (records now j none) = j == pid
succeeds pid (records now j (some e)) = false
succeeds pid _ = false

module _ {F : Type 0} (fl : Float64 F) (ids : SortSlice ℕ) (kvs : SortSlice (Kv F)) where
  prune-NotClosed :
      (pid now : ℕ) (p : RelayPool F)
      → NotClosed pid p.items
      → NotClosed pid (prune fl ids kvs now p).items
  prune-NotClosed pid now p h =
      prune-closed (λ m. NotClosed pid m) (λ k m n. ground (arith, lookup-erase k pid m)) fl ids kvs
        now p h

  adjust-NotClosed :
      (pid k : ℕ) (f : RelayItem F → RelayItem F) (m : List (ℕ × RelayItem F)) (item : RelayItem F)
      → lookup pid m ≡ some item
      → item.circuit_open ≡ true
      → (k ≡ pid → (f item).circuit_open ≡ true)
      → NotClosed pid (adjust k f m)
  adjust-NotClosed pid k f m item there isopen keeps =
      ground (arith, lookup-adjust-some k pid f m item there)

  failure_keeps_open :
      (e : GoError) (item : RelayItem F)
      → item.circuit_open ≡ true
      → (apply_result fl (classify_error (some e)) item).circuit_open ≡ true
  unfolding apply_result classify_error
  failure_keeps_open e item h = ground arith

  record-NotClosed :
      (now pid j : ℕ) (err : Option GoError) (p : RelayPool F) (item : RelayItem F)
      → lookup pid p.items ≡ some item
      → item.circuit_open ≡ true
      → ((j ≡ pid) → (apply_result fl (classify_error err) item).circuit_open ≡ true)
      → NotClosed pid (record_result fl ids kvs now j err p).items
  unfolding record_result
  record-NotClosed now pid j err p item there isopen keeps = elim (Bool-cases (has_key j p.items)) [
    | inr absent ↦ rw absent (ground arith)
    | inl found ↦
        rw found
          (prune-NotClosed pid now _ (adjust-NotClosed pid j _ p.items item there isopen keeps))
  ]

  -- Whatever the call, unless it records a success for the relay: an open circuit does not close,
  -- so after the call the relay still has an open circuit or is no longer in the pool.
  pub step-NotClosed :
      (c : Call F) (pid : ℕ) (p : RelayPool F) (item : RelayItem F)
      → lookup pid p.items ≡ some item
      → item.circuit_open ≡ true
      → succeeds pid c ≡ false
      → NotClosed pid (step fl ids kvs c p).items
  unfolding step add remove protect unprotect add_managed remove_managed set_weights set_weight
      set_relay_limits set_reservation_ttl health_ping
  step-NotClosed (adds now none) pid p item there isopen s = ground arith
  step-NotClosed (adds now (some (j, addr))) pid p item there isopen s =
      elim (Bool-cases (has_key j p.items)) [
        | inl old ↦ rw old (ground arith)
        | inr fresh ↦ rw fresh (
            prune-NotClosed pid now _ (
              ground (
                arith,
                lookup-insert j pid (new_item fl now j addr) p.items,
                has_key_of_lookup pid p.items item there,
              )))
      ]
  step-NotClosed (removes j) pid p item there isopen s = ground (arith, lookup-erase j pid p.items)
  step-NotClosed (protects j) pid p item there isopen s = ground arith
  step-NotClosed (unprotects j) pid p item there isopen s = ground arith
  step-NotClosed (adds_managed js) pid p item there isopen s = ground arith
  step-NotClosed (removes_managed js) pid p item there isopen s = ground arith
  step-NotClosed (records now j none) pid p item there isopen s =
      record-NotClosed now pid j none p item there isopen (λ e. ground arith)
  step-NotClosed (records now j (some err)) pid p item there isopen s =
      record-NotClosed now pid j (some err) p item there isopen
        (λ e. failure_keeps_open err item isopen)
  step-NotClosed (limits j dur size) pid p item there isopen s =
      adjust-NotClosed pid j _ p.items item there isopen (λ e. isopen)
  step-NotClosed (reserves j expires) pid p item there isopen s =
      adjust-NotClosed pid j _ p.items item there isopen (λ e. isopen)
  step-NotClosed (weighs w) pid p item there isopen s = ground arith
  step-NotClosed (weighs_one factor value) pid p item there isopen s = ground arith
  step-NotClosed (pings now j rtt none) pid p item there isopen s =
      adjust-NotClosed pid j (apply_pong fl rtt) p.items item there isopen
        (λ e. unfold apply_pong in isopen)
  step-NotClosed (pings now j rtt (some err)) pid p item there isopen s =
      record-NotClosed now pid j (some err) p item there isopen
        (λ e. failure_keeps_open err item isopen)
  step-NotClosed (prunes now) pid p item there isopen s = prune-NotClosed pid now p (ground arith)

  absent-adjust :
      (pid j : ℕ) (f : RelayItem F → RelayItem F) (m : List (ℕ × RelayItem F))
      → lookup pid m ≡ none
      → NotClosed pid (adjust j f m)
  absent-adjust pid j f m absent = ground (arith, lookup-adjust-none j pid f m absent)

  absent-health_ping :
      (now j rtt pid : ℕ) (err : Option GoError) (p : RelayPool F)
      → lookup pid p.items ≡ none
      → NotClosed pid (health_ping fl ids kvs now j rtt err p).items
  unfolding health_ping record_result
  absent-health_ping now j rtt pid none p absent = absent-adjust pid j _ p.items absent
  absent-health_ping now j rtt pid (some e) p absent = elim (Bool-cases (has_key j p.items)) [
    | inr out ↦ rw out (ground arith)
    | inl found ↦ rw found (prune-NotClosed pid now _ (absent-adjust pid j _ p.items absent))
  ]

  health_ping-NotClosed :
      (now j rtt pid : ℕ) (err : Option GoError) (p : RelayPool F)
      → NotClosed pid p.items
      → NotClosed pid (health_ping fl ids kvs now j rtt err p).items
  health_ping-NotClosed now j rtt pid err p h = elim (Option-cases (lookup pid p.items)) [
    | inl absent ↦ absent-health_ping now j rtt pid err p absent
    | inr (item, there) ↦
        unfold step in
        step-NotClosed (pings now j rtt err) pid p item there (ground (arith, there)) refl
  ]

  health_pings-NotClosed :
      (pid : ℕ) (outcome : ℕ → ℕ × ℕ × Option GoError) (targets : List ℕ) (p : RelayPool F)
      → NotClosed pid p.items
      → NotClosed pid (health_pings fl ids kvs outcome targets p).items
  unfolding health_pings
  health_pings-NotClosed pid outcome [] p h = h
  health_pings-NotClosed pid outcome (j ∷ js) p h =
      let (now, rtt, err) = outcome j in
      health_pings-NotClosed pid outcome js (health_ping fl ids kvs now j rtt err p)
        (health_ping-NotClosed now j rtt pid err p h)

  -- A round of the health check, whatever the pings bring, leaves no relay with a closed circuit
  -- that had an open one before, or that was not in the pool.
  pub health_round-NotClosed :
      (pid : ℕ) (connected : ℕ → Bool) (outcome : ℕ → ℕ × ℕ × Option GoError) (p : RelayPool F)
      → NotClosed pid p.items
      → NotClosed pid (health_round fl ids kvs connected outcome p).items
  unfolding health_round
  health_round-NotClosed pid connected outcome p h =
      health_pings-NotClosed pid outcome (health_targets connected p.items) p h
