-- ===== src/Offline/Hysteresis.antt =====
-- The detector changes its state only on a period that has lasted, and then it does.
use peerscale.Prelude.{
  ℕ, ◌+◌, ◌≤◌, ◌<◌, ◌≡◌, ◌≢◌, ◌⊎◌, refl, Bool, true, false, List, [], ◌∷◌, ltb, arith,
  if◌then◌else◌, ◌==◌, inl, inr,
}
use peerscale.Offline.{
  offline, online, Direction, OfflineDetector, confirm_dur, new_offline_detector, active_count,
  target, evaluate,
}

-- One tick: when, and the connections that the host has.
pub record Sample : Type 0 where
  pub time : ℕ
  pub first : List Direction
  pub second : List Direction

abbrev pub active : Sample → Bool
active s = ltb 0 (active_count s.first s.second)

-- A history, newest sample first, from a detector that was made at time `start`.
unfoldable pub run : ℕ → List Sample → OfflineDetector
run start [] = new_offline_detector start
run start (s ∷ h) = (evaluate s.time s.first s.second (run start h)).0

-- The clock moves on between ticks, and is not at Go's zero time.
abbrev pub latest : ℕ → List Sample → ℕ
latest start [] = start
latest start (s ∷ h) = s.time

abbrev pub Advances : ℕ → List Sample → Type 0
Advances start [] = 0 < start
Advances start (s ∷ h) = (latest start h < s.time) × Advances start h

record Inv (now : ℕ) (d : OfflineDetector) : Type 0 where
  one_period : (d.good_since ≡ 0) ⊎ (d.bad_since ≡ 0)
  good_past : d.good_since ≤ now
  bad_past : d.bad_since ≤ now
  transition_past : d.last_transition ≤ now
  good_later : d.state ≡ offline → d.good_since ≢ 0 → d.last_transition ≤ d.good_since
  bad_later : d.state ≡ online → d.bad_since ≢ 0 → d.last_transition ≤ d.bad_since

evaluate-Inv :
    (now later : ℕ) (first second : List Direction) (d : OfflineDetector)
    → now < later
    → Inv now d
    → Inv later (evaluate later first second d).0
unfolding evaluate
evaluate-Inv now later first second d h v = ground arith

run-Inv : (start : ℕ) (h : List Sample) → Advances start h → Inv (latest start h) (run start h)
unfolding run new_offline_detector
run-Inv start [] a = ground arith
run-Inv start (s ∷ h) a =
    evaluate-Inv (latest start h) s.time s.first s.second (run start h) a.0 (run-Inv start h a.1)

transition_apart :
    (now later : ℕ) (first second : List Direction) (d : OfflineDetector)
    → now < later
    → Inv now d
    → (evaluate later first second d).0.state ≢ d.state
    → d.last_transition + confirm_dur ≤ later
unfolding evaluate
transition_apart now later first second d h v c = ground arith

-- Over every history of ticks with an advancing clock: a change of state comes at least
-- `confirm_dur` after the change before it, or after the detector was made.
pub run-transitions_apart :
    (start : ℕ) (s : Sample) (h : List Sample)
    → Advances start (s ∷ h)
    → (run start (s ∷ h)).state ≢ (run start h).state
    → (run start h).last_transition + confirm_dur ≤ s.time
unfolding run
run-transitions_apart start s h a c =
    transition_apart (latest start h) s.time s.first s.second (run start h) a.0
      (run-Inv start h a.1) c

-- The newest samples, back to the one at time `t`, all pass the test.
abbrev pub Since : (Sample → Bool) → ℕ → List Sample → Type 0
Since p t [] = ⊥
Since p t (s ∷ h) = (p s ≡ true) × ((s.time ≡ t) ⊎ Since p t h)

abbrev pub inactive : Sample → Bool
inactive s = if active s then false else true

-- What one tick does to the two starts and, through them, to the state.
good_after :
    (now : ℕ) (first second : List Direction) (d : OfflineDetector)
    → (evaluate now first second d).0.good_since ≡ (
        if ltb 0 (active_count first second)
        then if d.good_since == 0 then now else d.good_since
        else 0)
unfolding evaluate
good_after now first second d = ground arith

bad_after :
    (now : ℕ) (first second : List Direction) (d : OfflineDetector)
    → (evaluate now first second d).0.bad_since ≡ (
        if ltb 0 (active_count first second)
        then 0
        else if d.bad_since == 0
        then now
        else d.bad_since)
unfolding evaluate
bad_after now first second d = ground arith

settle :
    (now : ℕ) (first second : List Direction) (d : OfflineDetector)
    → (evaluate now first second d).0.state ≡ target now (evaluate now first second d).0
unfolding evaluate
settle now first second d = ground arith

good_since_past :
    (start t : ℕ) (h : List Sample)
    → Advances start h
    → Since active t h
    → ((run start h).good_since ≢ 0) × ((run start h).good_since ≤ t) × (t ≤ latest start h)
unfolding run
good_since_past start t [] a f = absurd f
good_since_past start t (s ∷ h) a (now, inl e) =
    ground (arith, run-Inv start h a.1, good_after s.time s.first s.second (run start h))
good_since_past start t (s ∷ h) a (now, inr f) =
    ground
      (arith, good_since_past start t h a.1 f, good_after s.time s.first s.second (run start h))

bad_since_past :
    (start t : ℕ) (h : List Sample)
    → Advances start h
    → Since inactive t h
    → ((run start h).bad_since ≢ 0) × ((run start h).bad_since ≤ t) × (t ≤ latest start h)
unfolding run
bad_since_past start t [] a f = absurd f
bad_since_past start t (s ∷ h) a (now, inl e) =
    ground (arith, run-Inv start h a.1, bad_after s.time s.first s.second (run start h))
bad_since_past start t (s ∷ h) a (now, inr f) =
    ground (arith, bad_since_past start t h a.1 f, bad_after s.time s.first s.second (run start h))

good_since-Since :
    (start : ℕ) (h : List Sample)
    → Advances start h
    → (run start h).good_since ≢ 0
    → Since active (run start h).good_since h
unfolding run new_offline_detector
good_since-Since start [] a f = absurd (f refl)
good_since-Since start (s ∷ h) a f =
    ground (arith, good_since-Since start h a.1, good_after s.time s.first s.second (run start h))

settled :
    (start : ℕ) (s : Sample) (h : List Sample)
    → (run start (s ∷ h)).state ≡ target s.time (run start (s ∷ h))
unfolding run
settled start s h = settle s.time s.first s.second (run start h)

-- Over every history with an advancing clock: if every tick since one at least `confirm_dur` ago
-- found an active connection, the state is online; if every one of them found none, it is offline.
pub run-settles :
    (start t : ℕ) (s : Sample) (h : List Sample)
    → Advances start (s ∷ h)
    → t + confirm_dur ≤ s.time
    → (Since active t (s ∷ h) → (run start (s ∷ h)).state ≡ online)
      × (Since inactive t (s ∷ h) → (run start (s ∷ h)).state ≡ offline)
unfolding target
run-settles start t s h a l = (
  λ f. ground (arith, settled start s h, good_since_past start t (s ∷ h) a f),
  λ f.
      ground
        (arith, settled start s h, bad_since_past start t (s ∷ h) a f, run-Inv start (s ∷ h) a),
)

bad_since-Since :
    (start : ℕ) (h : List Sample)
    → Advances start h
    → (run start h).bad_since ≢ 0
    → Since inactive (run start h).bad_since h
unfolding run new_offline_detector
bad_since-Since start [] a f = absurd (f refl)
bad_since-Since start (s ∷ h) a f =
    ground (arith, bad_since-Since start h a.1, bad_after s.time s.first s.second (run start h))

state_before :
    (now : ℕ) (first second : List Direction) (d : OfflineDetector)
    → (evaluate now first second d).0.state ≢ d.state
    → ((evaluate now first second d).0.state ≡ online
        × (evaluate now first second d).0.good_since ≢ 0
        × (evaluate now first second d).0.good_since + confirm_dur ≤ now)
      ⊎ ((evaluate now first second d).0.state ≡ offline
          × (evaluate now first second d).0.bad_since ≢ 0
          × (evaluate now first second d).0.bad_since + confirm_dur ≤ now)
unfolding evaluate
state_before now first second d c = ground arith

-- Over every history with an advancing clock, a change of state is justified: for at least
-- `confirm_dur`, every tick found a connection and the new state is online, or every tick found
-- none and the new state is offline.
pub run-change_justified :
    (start : ℕ) (s : Sample) (h : List Sample)
    → Advances start (s ∷ h)
    → (run start (s ∷ h)).state ≢ (run start h).state
    → (t : ℕ) × t + confirm_dur ≤ s.time
      × (((run start (s ∷ h)).state ≡ online × Since active t (s ∷ h))
          ⊎ ((run start (s ∷ h)).state ≡ offline × Since inactive t (s ∷ h)))
unfolding run
run-change_justified start s h a c = elim (state_before s.time s.first s.second (run start h) c) [
  | inl (e, f, l) ↦ (_, l, inl (e, unfold run in good_since-Since start (s ∷ h) a f))
  | inr (e, f, l) ↦ (_, l, inr (e, unfold run in bad_since-Since start (s ∷ h) a f))
]
