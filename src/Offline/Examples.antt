-- ===== src/Offline/Examples.antt =====
-- A host that finds a connection for long enough.
use peerscale.Prelude.{ℕ, ◌+◌, ◌*◌, ◌≤◌, ◌≡◌, ◌≢◌, ◌⊎◌, List, [], ◌∷◌, arith}
use peerscale.Runtime.{second}
use peerscale.Offline.{online, offline, outbound, confirm_dur, new_offline_detector, evaluate}
use peerscale.Offline.Hysteresis.{
  Sample, Advances, Since, active, inactive, run, run-settles, run-change_justified,
}

abbrev at : ℕ → Sample
at t = record { time = t * second; first = outbound ∷ []; second = [] }

abbrev history : List Sample
history = at 4 ∷ at 2 ∷ []

history-Advances : Advances second (at 7 ∷ history)
history-Advances = (omega arith, (omega arith, (omega arith, omega arith)))

goes_online : (run second (at 7 ∷ history)).state ≢ (run second history).state
unfolding run new_offline_detector evaluate
goes_online = ground arith

run-settles_example :
    (Since active (2 * second) (at 7 ∷ history) → (run second (at 7 ∷ history)).state ≡ online)
    × (Since inactive (2 * second) (at 7 ∷ history) → (run second (at 7 ∷ history)).state ≡ offline)
run-settles_example = run-settles second (2 * second) (at 7) history history-Advances (omega arith)

run-change_justified_example :
    (t : ℕ) × t + confirm_dur ≤ 7 * second
    × (((run second (at 7 ∷ history)).state ≡ online × Since active t (at 7 ∷ history))
        ⊎ ((run second (at 7 ∷ history)).state ≡ offline × Since inactive t (at 7 ∷ history)))
run-change_justified_example =
    run-change_justified second (at 7) history history-Advances goes_online
