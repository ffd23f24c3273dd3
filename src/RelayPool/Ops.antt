-- ===== src/RelayPool/Ops.antt =====
-- The methods of RelayPool in p2put/relaypool.go that change the pool, and the health check's
-- handling of one ping.
use peerscale.Prelude.{
  ℕ, ◌+◌, Bool, true, false, not, ◌&&◌, Option, none, some, List, [], ◌∷◌, leb, ◌==◌, if◌then◌else◌,
}
use peerscale.Dict.{lookup, has_key, insert, erase, adjust, keys}
use peerscale.Runtime.{Float64, SortSlice}
use peerscale.RelayPool.{
  RelayPool, RelayItem, WeightConfig, GoError, ErrType, err_ok, err_rate_limited, err_failed,
  classify_error, ema, ema_rtt, demote_threshold,
}
use peerscale.RelayPool.Prune.{Kv, prune}

unfoldable pub insert_all : List ℕ → List (ℕ × Unit {0}) → List (ℕ × Unit {0})
insert_all [] m = m
insert_all (pid ∷ pids) m = insert_all pids (insert pid tt m)

unfoldable pub erase_all : List ℕ → List (ℕ × Unit {0}) → List (ℕ × Unit {0})
erase_all [] m = m
erase_all (pid ∷ pids) m = erase_all pids (erase pid m)

module _ {F : Type 0} where
  unfoldable pub remove : ℕ → RelayPool F → RelayPool F
  remove pid p = record p {
    items = erase pid p.items;
    protected = erase pid p.protected;
    managed = erase pid p.managed;
  }

  unfoldable pub protect : ℕ → RelayPool F → RelayPool F
  protect pid p = record p { protected = insert pid tt p.protected }

  unfoldable pub unprotect : ℕ → RelayPool F → RelayPool F
  unprotect pid p = record p { protected = erase pid p.protected }

  unfoldable pub add_managed : List ℕ → RelayPool F → RelayPool F
  unfolding insert_all
  add_managed pids p = record p { managed = insert_all pids p.managed }

  unfoldable pub remove_managed : List ℕ → RelayPool F → RelayPool F
  unfolding erase_all
  remove_managed pids p = record p { managed = erase_all pids p.managed }

  unfoldable pub list_managed : RelayPool F → List ℕ
  list_managed p = keys p.managed

  unfoldable pub is_circuit_open : ℕ → RelayPool F → Bool
  is_circuit_open pid p = elim (lookup pid p.items) [ none ↦ false | some item ↦ item.circuit_open ]

  unfoldable pub set_relay_limits : ℕ → ℕ → ℕ → RelayPool F → RelayPool F
  set_relay_limits pid dur size p = record p {
    items = adjust pid (λ item. record item { limit_duration = dur; limit_data = size }) p.items;
  }

  unfoldable pub set_reservation_ttl : ℕ → ℕ → RelayPool F → RelayPool F
  set_reservation_ttl pid expires p = record p {
    items = adjust pid (λ item. record item { reservation_expires = expires }) p.items;
  }

  unfoldable pub set_weights : WeightConfig F → RelayPool F → RelayPool F
  set_weights w p = record p { config = w }

module _ {F : Type 0} (fl : Float64 F) where
  open fl use {lt, lit}

  -- The switch of RecordResult, on the item that the pool's map points to.
  unfoldable pub apply_result : ErrType → RelayItem F → RelayItem F
  unfolding ema
  apply_result err_ok item = record item {
    success_score = ema fl item.success_score (lit 1 1) (lit 3 10);
    consecutive_fails = 0;
    circuit_open = false;
    in_main = true;
  }
  apply_result err_rate_limited item = record item {
    success_score = ema fl item.success_score (lit 0 1) (lit 1 2);
    rate_limit_hits = item.rate_limit_hits + 1;
  }
  apply_result err_failed item =
      let fails = item.consecutive_fails + 1 in
      let demote = item.in_main && leb demote_threshold fails in
      record item {
        success_score =
            if demote then lit 70 100 else ema fl item.success_score (lit 0 1) (lit 3 10);
        consecutive_fails = fails;
        in_main = if demote then false else item.in_main;
        circuit_open = if leb 5 fails then true else item.circuit_open;
      }

  -- A reply to the health check's ping: the item's latency and score, and no failures in a row.
  unfoldable pub apply_pong : ℕ → RelayItem F → RelayItem F
  unfolding ema ema_rtt
  apply_pong rtt item = record item {
    avg_rtt = ema_rtt fl item.avg_rtt rtt (lit 3 10);
    success_score = ema fl item.success_score (lit 1 1) (lit 3 10);
    consecutive_fails = 0;
  }

  unfoldable pub clamp_weight : F → F
  clamp_weight value =
      let value = (if lt value (lit 0 1) then lit 0 1 else value) in
      if lt (lit 1 1) value then lit 1 1 else value

  -- The switch on `factor`; any other factor changes nothing.
  unfoldable pub set_factor : ℕ → F → WeightConfig F → WeightConfig F
  set_factor factor value w =
      if factor == 0
      then record w { success = value }
      else if factor == 1
      then record w { latency = value }
      else if factor == 2
      then record w { data_limit = value }
      else if factor == 3
      then record w { duration_limit = value }
      else if factor == 4
      then record w { ttl = value }
      else if factor == 5
      then record w { uptime = value }
      else w

  unfoldable pub set_weight : ℕ → F → RelayPool F → RelayPool F
  unfolding clamp_weight set_factor
  set_weight factor value p = record p { config = set_factor factor (clamp_weight value) p.config }

  unfoldable pub new_item : ℕ → ℕ → ℕ → RelayItem F
  new_item now pid addr = record {
    peer_id = pid;
    addr = addr;
    in_main = false;
    success_score = lit 70 100;
    avg_rtt = 0;
    limit_duration = 0;
    limit_data = 0;
    rate_limit_hits = 0;
    consecutive_fails = 0;
    circuit_open = false;
    reservation_expires = 0;
    connected_since = now;
    last_result = 0;
  }

module _ {F : Type 0} (fl : Float64 F) (ids : SortSlice ℕ) (kvs : SortSlice (Kv F)) where
  -- `parsed` is what the multiaddr library makes of Add's argument: the peer ID of its /p2p
  -- component and the rest of the address, or an error.
  unfoldable pub add : ℕ → Option (ℕ × ℕ) → RelayPool F → RelayPool F
  unfolding new_item
  add now none p = p
  add now (some (pid, addr)) p =
      if has_key pid p.items
      then p
      else prune fl ids kvs now (record p { items = insert pid (new_item fl now pid addr) p.items })

  unfoldable pub record_result : ℕ → ℕ → Option GoError → RelayPool F → RelayPool F
  unfolding apply_result classify_error
  record_result now pid err p =
      if has_key pid p.items
      then prune fl ids kvs now (record p {
        items =
            adjust pid
              (λ item. record (apply_result fl (classify_error err) item) { last_result = now })
              p.items;
      })
      else p

  -- One target of the health check, once its ping has an outcome: a round trip time or an error.
  unfoldable pub health_ping : ℕ → ℕ → ℕ → Option GoError → RelayPool F → RelayPool F
  unfolding apply_pong record_result
  health_ping now pid rtt none p = record p { items = adjust pid (apply_pong fl rtt) p.items }
  health_ping now pid rtt (some e) p = record_result now pid (some e) p

-- The targets of one round: connected relays whose circuit is closed.
unfoldable pub health_targets : {F : Type 0} → (ℕ → Bool) → List (ℕ × RelayItem F) → List ℕ
health_targets connected [] = []
health_targets connected ((pid, item) ∷ m) =
    if item.circuit_open
    then health_targets connected m
    else if not (connected item.peer_id)
    then health_targets connected m
    else item.peer_id ∷ health_targets connected m

-- One round of the health check. `outcome pid` is the time after the ping, the round trip time and
-- the error, if there was one. The targets are from before the round.
module _ {F : Type 0} (fl : Float64 F) (ids : SortSlice ℕ) (kvs : SortSlice (Kv F)) where
  unfoldable pub health_pings : (ℕ → ℕ × ℕ × Option GoError) → List ℕ → RelayPool F → RelayPool F
  unfolding health_ping
  health_pings outcome [] p = p
  health_pings outcome (pid ∷ pids) p =
      let (now, rtt, err) = outcome pid in
      health_pings outcome pids (health_ping fl ids kvs now pid rtt err p)

  unfoldable pub health_round :
      (ℕ → Bool) → (ℕ → ℕ × ℕ × Option GoError) → RelayPool F → RelayPool F
  unfolding health_targets health_pings
  health_round connected outcome p = health_pings outcome (health_targets connected p.items) p
