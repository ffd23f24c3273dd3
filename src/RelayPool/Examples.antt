-- ===== src/RelayPool/Examples.antt =====
-- Small pools with water marks 1 and 2, on which the theorems about the relay pool are applied.
use peerscale.Prelude.{
  ℕ, ◌+◌, ◌*◌, ◌≤◌, ◌<◌, ◌≡◌, ◌⊎◌, refl, Bool, true, false, List, [], ◌∷◌, some, none, arith,
  length,
}
use peerscale.Dict.{lookup, has_key, IsMap}
use peerscale.Runtime.{SortSlice, second, minute}
use peerscale.Runtime.Examples.{hundredths, insertion_sort}
use peerscale.RelayPool.{
  RelayPool, RelayItem, WeightConfig, ErrType, err_ok, err_rate_limited, err_failed, new_relay_pool,
}
use peerscale.RelayPool.Prune.{Kv, prune}
use peerscale.RelayPool.Ops.{new_item}
use peerscale.RelayPool.Run.{adds, records, pings, step, run}
use peerscale.RelayPool.Invariant.{Inv, run-new-Inv}
use peerscale.RelayPool.Size.{probation_count, length-prune}
use peerscale.RelayPool.Protection.{prune_spares}
use peerscale.RelayPool.Fifo.{prune_fifo}
use peerscale.RelayPool.Breaker.{Follows, streak, apply_all, new_item-Follows}
use peerscale.RelayPool.Circuit.{NotClosed, step-NotClosed}

abbrev weights : WeightConfig ℕ
weights = record {
  success = 35;
  latency = 20;
  data_limit = 15;
  duration_limit = 15;
  ttl = 10;
  uptime = 5;
}

-- A relay connected at second `since`, with its last result at minute `last`.
abbrev relay : ℕ → Bool → Bool → ℕ → ℕ → RelayItem ℕ
relay pid main broken since last = record {
  peer_id = pid;
  addr = 100 + pid;
  in_main = main;
  success_score = 70;
  avg_rtt = 0;
  limit_duration = 0;
  limit_data = 0;
  rate_limit_hits = 0;
  consecutive_fails = 0;
  circuit_open = broken;
  reservation_expires = 0;
  connected_since = since * second;
  last_result = last * minute;
}

abbrev pool : List (ℕ × RelayItem ℕ) → RelayPool ℕ
pool items = record {
  items = items;
  config = weights;
  protected = [];
  managed = [];
  low_water = 1;
  high_water = 2;
}

-- Two relays in probation, one of them with an open circuit, and a main one in use at minute 9.
abbrev mixed : RelayPool ℕ
mixed = pool (
    (1, relay 1 false false 30 0)
    ∷ (2, relay 2 false true 20 0)
    ∷ (3, relay 3 true false 10 9)
    ∷ [])

mixed-IsMap : IsMap mixed.items
mixed-IsMap = record { once = λ k. ground arith }

-- Three relays in probation.
abbrev fresh : RelayPool ℕ
fresh = pool (
    (1, relay 1 false false 30 0)
    ∷ (2, relay 2 false false 20 0)
    ∷ (3, relay 3 false false 10 0)
    ∷ [])

fresh-IsMap : IsMap fresh.items
fresh-IsMap = record { once = λ k. ground arith }

abbrev ids : SortSlice ℕ
ids = insertion_sort ℕ

abbrev kvs : SortSlice (Kv ℕ)
kvs = insertion_sort (Kv ℕ)

abbrev now : ℕ
now = 10 * minute

run-new-Inv_example :
    Inv
      (run hundredths ids kvs
        (adds now (some (1, 101))
          ∷ records now 1 none
          ∷ records now 1 (some (record { is_reset = false; reservation_status = none }))
          ∷ [])
        (new_relay_pool hundredths weights)).items
run-new-Inv_example = run-new-Inv hundredths ids kvs weights _

length-prune_example :
    let p' = prune hundredths ids kvs now mixed in
    ((length mixed.items ≤ mixed.high_water) × (p' ≡ mixed))
    ⊎ ((mixed.high_water < length mixed.items)
        × (mixed.low_water ≤ length p'.items)
        × ((length p'.items ≡ mixed.low_water) ⊎ (probation_count p'.items ≡ 0)))
length-prune_example = length-prune hundredths ids kvs now mixed mixed-IsMap (omega arith)

prune_spares_example :
    lookup 3 (prune hundredths ids kvs now mixed).items ≡ some (relay 3 true false 10 9)
prune_spares_example =
    prune_spares hundredths ids kvs now 3 (relay 3 true false 10 9) mixed mixed-IsMap refl refl refl

-- The oldest of three goes first, and the newest is left.
fresh_pruned :
    (has_key 3 (prune hundredths ids kvs now fresh).items ≡ false)
    × (has_key 1 (prune hundredths ids kvs now fresh).items ≡ true)
unfolding prune
fresh_pruned = (refl, refl)

prune_fifo_example : 10 * second ≤ 30 * second
prune_fifo_example =
    prune_fifo hundredths ids kvs now 3 1 (relay 3 false false 10 0) (relay 1 false false 30 0)
      fresh fresh-IsMap refl refl refl refl fresh_pruned.0 fresh_pruned.1

abbrev outcomes : List ErrType
outcomes =
    err_ok ∷ err_failed ∷ err_failed ∷ err_rate_limited ∷ err_failed ∷ err_failed ∷ err_failed ∷ []

new_item-Follows_example :
    Follows
      (streak (record { fails = 0; succeeded = false }) outcomes)
      (apply_all hundredths outcomes (new_item hundredths now 1 101))
new_item-Follows_example = new_item-Follows hundredths now 1 101 outcomes

step-NotClosed_example :
    NotClosed 2 (step hundredths ids kvs (pings now 2 (50 * second) none) mixed).items
step-NotClosed_example =
    step-NotClosed hundredths ids kvs (pings now 2 (50 * second) none) 2 mixed
      (relay 2 false true 20 0) refl refl refl
