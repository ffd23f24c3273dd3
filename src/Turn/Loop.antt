-- ===== src/Turn/Loop.antt =====
-- The goroutine of a TURN server: runLoop and connectWithBackoff of p2put/turnpool.go.
use peerscale.Prelude.{
  ℕ, ◌*◌, Bool, true, false, not, Option, some, List, [], ◌∷◌, ltb, if◌then◌else◌, and_then,
}
use peerscale.Runtime.{second}
use peerscale.Turn.{
  TurnServer, is_alive, Connect, connect, shutdown, Reallocate, reallocate, accept_fatal,
  stun_ctrl_keep_mapped_port, stop,
}

abbrev pub first_backoff : ℕ
first_backoff = second

abbrev pub max_backoff : ℕ
max_backoff = 60 * second

abbrev pub next_backoff : ℕ → ℕ
next_backoff backoff = if ltb max_backoff (backoff * 2) then max_backoff else backoff * 2

-- Where connectWithBackoff stands after some attempts: it has returned or is still in its loop, and
-- has waited so, the first wait first.
pub record Attempts : Type 0 where
  pub server : TurnServer
  pub returned : Bool
  pub waits : List ℕ

abbrev waited : ℕ → Attempts → Attempts
waited backoff a = record a { waits = backoff ∷ a.waits }

-- After an attempt: a server that is alive or stopped ends the loop.
abbrev pub after_attempt : ℕ → Bool → (TurnServer → Option Attempts) → TurnServer → Option Attempts
after_attempt backoff stopped again ts =
    if is_alive ts.state
    then some (record { server = ts; returned = true; waits = [] })
    else if stopped
    then some (record { server = ts; returned = true; waits = [] })
    else and_then (again ts) (λ a. some (waited backoff a))

-- Each attempt with what connect meets, and whether the stop channel is closed by the time of the
-- wait. A wait that is cut short by the stop channel is left out of `waits`.
unfoldable pub attempts : ℕ → List (Connect × Bool) → TurnServer → Option Attempts
unfolding connect
attempts backoff [] ts = some (record { server = ts; returned = false; waits = [] })
attempts backoff ((outcome, stopped) ∷ later) ts =
    and_then (connect outcome ts)
      (after_attempt backoff stopped (attempts (next_backoff backoff) later))

unfoldable pub connect_with_backoff : List (Connect × Bool) → TurnServer → Option Attempts
unfolding attempts
connect_with_backoff = attempts first_backoff

-- What wakes the loop while the server is alive, and what happens next to one that is not.
pub data Wake : Type 0 where
  stops reconnects : Wake
  ticks : Bool → Wake

-- The `select` of runLoop, and whether its `for` goes on.
unfoldable pub wake_up : Wake → TurnServer → Option (TurnServer × Bool)
unfolding shutdown stun_ctrl_keep_mapped_port
wake_up stops ts = some (shutdown ts, false)
wake_up reconnects ts = some (shutdown ts, true)
wake_up (ticks answers) ts =
    and_then (stun_ctrl_keep_mapped_port answers ts) (λ ts'. some (ts', true))

-- One turn of the `for`. `dials` are the attempts of connectWithBackoff up to its return; with
-- fewer, the server is shown as it is then.
unfoldable pub run_turn : Wake → List (Connect × Bool) → TurnServer → Option (TurnServer × Bool)
unfolding connect_with_backoff wake_up
run_turn wake dials ts =
    if not (is_alive ts.state)
    then (let down = shutdown ts in
        if down.stop_ch
        then some (down, false)
        else and_then (connect_with_backoff dials down) (λ a. some (a.server, true)))
    else wake_up wake ts

-- What the goroutines of a server do, one after the other: a turn of runLoop, acceptProc with a
-- fatal error or with a new allocation, and stop.
pub data Act : Type 0 where
  turns : Wake → List (Connect × Bool) → Act
  accept_dies stopped : Act
  accept_reallocates : Reallocate → Act

unfoldable pub act : Act → TurnServer → Option TurnServer
unfolding run_turn accept_fatal reallocate stop
act (turns wake dials) ts = and_then (run_turn wake dials ts) (λ r. some r.0)
act accept_dies ts = accept_fatal ts
act (accept_reallocates outcome) ts = reallocate outcome ts
act stopped ts = stop ts

unfoldable pub live : List Act → TurnServer → Option TurnServer
unfolding act
live [] ts = some ts
live (a ∷ acts) ts = and_then (act a ts) (live acts)
