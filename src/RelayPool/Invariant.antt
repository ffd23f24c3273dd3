-- ===== src/RelayPool/Invariant.antt =====
-- The invariant of the relay pool over every history of calls.
use peerscale.Prelude.{
  ℕ, ◌≤◌, ◌<◌, ◌≡◌, true, false, List, [], ◌∷◌, Option, none, some, arith, Bool-cases, inl, inr,
}
use peerscale.Dict.{erase, IsMap, AllEntries, adjust, insert, has_key}
use peerscale.Dict.Laws.{erase-IsMap, adjust-IsMap, insert-IsMap, All-erase, All-insert, All-adjust}
use peerscale.Runtime.{Float64, SortSlice}
use peerscale.RelayPool.{
  RelayPool, RelayItem, WeightConfig, GoError, ErrType, err_ok, err_rate_limited, err_failed,
  classify_error, new_relay_pool,
}
use peerscale.RelayPool.Prune.{Kv, prune}
use peerscale.RelayPool.Ops.{
  add, remove, protect, unprotect, add_managed, remove_managed, record_result, set_relay_limits,
  set_reservation_ttl, set_weights, set_weight, health_ping, apply_result, apply_pong, new_item,
}
use peerscale.RelayPool.Run.{
  Call, adds, removes, protects, unprotects, adds_managed, removes_managed, records, limits,
  reserves, weighs, weighs_one, pings, prunes, step, run,
}
use peerscale.RelayPool.Eviction.{prune-closed}

-- An item under its own key. A relay of the main tier has failed fewer than 3 times in a row, and
-- 5 failures in a row have opened the circuit of a relay, which is then in probation.
pub record IsSound {F : Type 0} (pid : ℕ) (item : RelayItem F) : Type 0 where
  pub own_key : item.peer_id ≡ pid
  pub main_healthy : item.in_main ≡ true → item.consecutive_fails < 3
  pub open_not_main : item.circuit_open ≡ true → item.in_main ≡ false
  pub fails_open : 5 ≤ item.consecutive_fails → item.circuit_open ≡ true

abbrev pub AllSound : {F : Type 0} → List (ℕ × RelayItem F) → Type 0
AllSound m = AllEntries (λ k v. IsSound k v) m

pub record Inv {F : Type 0} (m : List (ℕ × RelayItem F)) : Type 0 where
  pub map : IsMap m
  pub sound : AllSound m

module _ {F : Type 0} where
  erase-Inv : (k : ℕ) (m : List (ℕ × RelayItem F)) → Inv m → Inv (erase k m)
  erase-Inv k m h = record {
    map = erase-IsMap k m h.map;
    sound = All-erase (λ k v. IsSound k v) k m h.sound;
  }

  adjust-Inv :
      (k : ℕ) (f : RelayItem F → RelayItem F) (m : List (ℕ × RelayItem F))
      → ((item : RelayItem F) → IsSound k item → IsSound k (f item))
      → Inv m
      → Inv (adjust k f m)
  adjust-Inv k f m s h = record {
    map = adjust-IsMap k f m h.map;
    sound = All-adjust (λ k v. IsSound k v) k f m s h.sound;
  }

module _ {F : Type 0} (fl : Float64 F) where
  -- One outcome keeps an item sound, whatever it is and however often the item has failed.
  pub apply_result-IsSound :
      (t : ErrType) (pid : ℕ) (item : RelayItem F)
      → IsSound pid item
      → IsSound pid (apply_result fl t item)
  unfolding apply_result
  apply_result-IsSound err_ok pid item h = ground arith
  apply_result-IsSound err_rate_limited pid item h = ground arith
  apply_result-IsSound err_failed pid item h = ground arith

  apply_pong-IsSound :
      (rtt pid : ℕ) (item : RelayItem F) → IsSound pid item → IsSound pid (apply_pong fl rtt item)
  unfolding apply_pong
  apply_pong-IsSound rtt pid item h = ground arith

  new_item-IsSound : (now pid addr : ℕ) → IsSound pid (new_item fl now pid addr)
  unfolding new_item
  new_item-IsSound now pid addr = ground arith

module _ {F : Type 0} (fl : Float64 F) (ids : SortSlice ℕ) (kvs : SortSlice (Kv F)) where
  prune-Inv : (now : ℕ) (p : RelayPool F) → Inv p.items → Inv (prune fl ids kvs now p).items
  prune-Inv now p h = prune-closed (λ m. Inv m) erase-Inv fl ids kvs now p h

  add-Inv :
      (now : ℕ) (parsed : Option (ℕ × ℕ)) (p : RelayPool F)
      → Inv p.items
      → Inv (add fl ids kvs now parsed p).items
  unfolding add
  add-Inv now none p h = h
  add-Inv now (some (pid, addr)) p h = elim (Bool-cases (has_key pid p.items)) [
    | inl there ↦ rw there h
    | inr fresh ↦ rw fresh (
        prune-Inv now (record p { items = insert pid (new_item fl now pid addr) p.items })
          (record {
            map = insert-IsMap pid (new_item fl now pid addr) p.items h.map;
            sound =
                All-insert (λ k v. IsSound k v) pid _ p.items (new_item-IsSound fl now pid addr)
                  h.sound;
          }))
  ]

  record_result-Inv :
      (now pid : ℕ) (err : Option GoError) (p : RelayPool F)
      → Inv p.items
      → Inv (record_result fl ids kvs now pid err p).items
  unfolding record_result
  record_result-Inv now pid err p h = elim (Bool-cases (has_key pid p.items)) [
    | inl there ↦ rw there (
        prune-Inv now _ (
          adjust-Inv pid _ p.items
            (λ item s. stamp now pid _ (apply_result-IsSound fl (classify_error err) pid item s))
            h))
    | inr absent ↦ rw absent h
  ]
    where
      stamp :
          (now pid : ℕ) (item : RelayItem F)
          → IsSound pid item
          → IsSound pid (record item { last_result = now })
      stamp now pid item s = ground arith

  health_ping-Inv :
      (now pid rtt : ℕ) (err : Option GoError) (p : RelayPool F)
      → Inv p.items
      → Inv (health_ping fl ids kvs now pid rtt err p).items
  unfolding health_ping
  health_ping-Inv now pid rtt none p h = adjust-Inv pid _ p.items (apply_pong-IsSound fl rtt pid) h
  health_ping-Inv now pid rtt (some e) p h = record_result-Inv now pid (some e) p h

  -- Every call keeps the invariant.
  pub step-Inv : (c : Call F) (p : RelayPool F) → Inv p.items → Inv (step fl ids kvs c p).items
  unfolding step remove protect unprotect add_managed remove_managed set_weights set_weight
      set_relay_limits set_reservation_ttl
  step-Inv (adds now parsed) p h = add-Inv now parsed p h
  step-Inv (removes pid) p h = erase-Inv pid p.items h
  step-Inv (protects pid) p h = h
  step-Inv (unprotects pid) p h = h
  step-Inv (adds_managed pids) p h = h
  step-Inv (removes_managed pids) p h = h
  step-Inv (records now pid err) p h = record_result-Inv now pid err p h
  step-Inv (limits pid dur size) p h = adjust-Inv pid _ p.items (λ item s. ground arith) h
  step-Inv (reserves pid expires) p h = adjust-Inv pid _ p.items (λ item s. ground arith) h
  step-Inv (weighs w) p h = h
  step-Inv (weighs_one factor value) p h = h
  step-Inv (pings now pid rtt err) p h = health_ping-Inv now pid rtt err p h
  step-Inv (prunes now) p h = prune-Inv now p h

  run-Inv : (cs : List (Call F)) (p : RelayPool F) → Inv p.items → Inv (run fl ids kvs cs p).items
  unfolding run
  run-Inv [] p h = h
  run-Inv (c ∷ cs) p h = run-Inv cs (step fl ids kvs c p) (step-Inv c p h)

  -- After every history of calls on a new pool, with any weights, each peer ID is there at most
  -- once, each item is stored under its own peer ID, an item in the main tier has fewer than 3
  -- consecutive failures and a closed circuit, and an item with 5 or more consecutive failures has
  -- an open circuit.
  pub run-new-Inv :
      (cfg : WeightConfig F) (cs : List (Call F))
      → Inv (run fl ids kvs cs (new_relay_pool fl cfg)).items
  unfolding new_relay_pool
  run-new-Inv cfg cs =
      run-Inv cs (new_relay_pool fl cfg)
        (record { map = record { once = λ k. omega arith }; sound = tt })
