-- ===== src/Offline.antt =====
-- The offline detector of p2put/offline.go. One tick of its loop is `evaluate`, under the detector's
-- lock, on the time and the directions of the host's connections, which it asks for twice.
pub mod Hysteresis
mod Examples
use peerscale.Prelude.{
  ℕ, ◌+◌, ◌-◌, ◌*◌, Bool, true, false, Option, some, none, List, [], ◌∷◌, ltb, leb, not, ◌&&◌, ◌||◌,
  if◌then◌else◌, ◌==◌,
}
use peerscale.Runtime.{millisecond}

pub data OfflineState : Type 0 where
  offline online : OfflineState

pub data Direction : Type 0 where
  unknown inbound outbound : Direction

abbrev pub evaluate_tick : ℕ
evaluate_tick = 1500 * millisecond

abbrev pub stick_count : ℕ
stick_count = 3

abbrev pub confirm_dur : ℕ
confirm_dur = evaluate_tick * stick_count

pub record OfflineDetector : Type 0 where
  pub state : OfflineState
  pub last_transition : ℕ
  pub good_since : ℕ
  pub bad_since : ℕ

unfoldable pub new_offline_detector : ℕ → OfflineDetector
new_offline_detector now = record {
  state = offline;
  last_transition = now;
  good_since = 0;
  bad_since = 0;
}

abbrev pub is_outbound : Direction → Bool
is_outbound outbound = true
is_outbound _ = false

abbrev pub is_inbound : Direction → Bool
is_inbound inbound = true
is_inbound _ = false

abbrev pub same_state : OfflineState → OfflineState → Bool
same_state offline offline = true
same_state online online = true
same_state _ _ = false

-- A loop that adds one for the first connection that fits, and stops.
abbrev pub any_conn : (Direction → Bool) → List Direction → ℕ
any_conn p [] = 0
any_conn p (c ∷ cs) = if p c then 1 else any_conn p cs

unfoldable pub active_count : List Direction → List Direction → ℕ
active_count first second = any_conn is_outbound first + any_conn is_inbound second

-- The first switch: the start of the current good or bad period.
unfoldable pub mark : ℕ → ℕ → OfflineDetector → OfflineDetector
mark now active d =
    if ltb 0 active
    then record d { good_since = if d.good_since == 0 then now else d.good_since; bad_since = 0 }
    else record d { bad_since = if d.bad_since == 0 then now else d.bad_since; good_since = 0 }

-- The state that the periods confirm.
unfoldable pub target : ℕ → OfflineDetector → OfflineState
target now d =
    if not (d.good_since == 0) && leb confirm_dur (now - d.good_since)
    then online
    else if not (d.bad_since == 0) && leb confirm_dur (now - d.bad_since)
    then offline
    else d.state

-- `first` and `second` are what the two calls of Conns return. The second component is the state that OnChange is called with, if it is called.
unfoldable pub evaluate :
    ℕ → List Direction → List Direction → OfflineDetector → OfflineDetector × Option OfflineState
unfolding active_count mark target
evaluate now first second d =
    let d' = mark now (active_count first second) d in
    let t = target now d' in
    if same_state t d'.state
    then (d', none)
    else (record d' { state = t; last_transition = now }, some t)

unfoldable pub is_online : OfflineDetector → Bool
is_online d = same_state d.state online
