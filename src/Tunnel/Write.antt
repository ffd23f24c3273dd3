-- ===== src/Tunnel/Write.antt =====
-- The method write of a hub, of iptunnel/hub.go, whose `goto rerunit` is recursion on fuel; `none`
-- means that the fuel ran out. What the other goroutines do to the hub meanwhile, what the streams
-- answer, the coin and the clock are arguments.
pub mod Ends
pub mod Steps
pub mod Recovery
mod Examples
use mathlib.Core.List.{reverse}
use peerscale.Prelude.{
  ℕ, zero, suc, ◌+◌, Bool, true, false, not, Option, none, some, List, [], ◌∷◌, ◌++◌, ltb, keep,
  if◌then◌else◌,
}
use peerscale.Tunnel.{Direction, TunnelCarrier, TunnelHub, mark_dead, maybe_open, open_peer_stream}

abbrev pub max_retries : ℕ
max_retries = 48

-- time.Sleep(1234*time.Millisecond)
abbrev pub retry_pause : ℕ
retry_pause = 1_234_000_000

-- One try. The last three fields are what the other goroutines do while this one sleeps, while it
-- writes to the carrier of a number, and while it opens a stream. `takes` says whether the first
-- WriteMsg to a carrier succeeds.
pub record Try : Type 0 where
  pub now : ℕ
  pub reversed : Bool
  pub takes : ℕ → Bool
  pub stream : Option (ℕ × Direction)
  pub opened_at : ℕ
  pub sleeping : TunnelHub → TunnelHub
  pub writing : ℕ → TunnelHub → TunnelHub
  pub opening : TunnelHub → TunnelHub

-- `taken_by` is the carrier whose first WriteMsg succeeded, `failed` those whose did not, in order,
-- and `extra` those that the packet is written to once more with the result ignored.
pub record Attempt : Type 0 where
  pub taken_by : Option ℕ
  pub failed : List ℕ
  pub extra : List ℕ
  pub hub : TunnelHub

-- What write leaves: the last try's `taken_by` and `extra`, all the carriers that failed, the hub,
-- and how often it slept. It returns nil if a carrier took the packet, else the only other error,
-- that of too many retries.
pub record Written : Type 0 where
  pub taken_by : Option ℕ
  pub extra : List ℕ
  pub failed : List ℕ
  pub hub : TunnelHub
  pub sleeps : ℕ

-- c.dead.Store(true)
abbrev pub kill : ℕ → TunnelHub → TunnelHub
kill id h = record h { carriers = mark_dead id h.carriers }

-- A small packet is written again if the loop has another carrier: once more to this one, then to
-- the next.
abbrev pub written_again : ℕ → TunnelCarrier → List TunnelCarrier → List ℕ
written_again len c [] = []
written_again len c (next ∷ cs) = if ltb len 100 then c.id ∷ next.id ∷ [] else []

-- The loop over `live`.
unfoldable pub try_carriers : ℕ → Try → List TunnelCarrier → TunnelHub → Attempt
try_carriers len t [] h = record { taken_by = none; failed = []; extra = []; hub = h }
try_carriers len t (c ∷ cs) h =
    let g = t.writing c.id h in
    let rest = try_carriers len t cs (kill c.id g) in
    if t.takes c.id
    then record { taken_by = some c.id; failed = []; extra = written_again len c cs; hub = g }
    else record rest { failed = c.id ∷ rest.failed }

-- h.lastUse = time.Now(), with the lock taken.
abbrev pub touched : Try → TunnelHub → TunnelHub
touched t h = record (t.sleeping h) { last_use = t.now }

abbrev pub live_carriers : Try → TunnelHub → List TunnelCarrier
live_carriers t h =
    let live = keep (λ c. not c.dead) h.carriers in if t.reversed then reverse live else live

-- maybeOpenLocked with `sync` set, which write calls without the lock.
unfoldable pub open_sync : Try → TunnelHub → TunnelHub
unfolding maybe_open open_peer_stream
open_sync t h =
    let (opens, g) = maybe_open h in
    if opens then open_peer_stream t.opened_at t.stream (t.opening g) else g

-- A new stream if no carrier took the packet.
abbrev pub open_if_failed : Try → Attempt → Option ℕ → Attempt
open_if_failed t tried (some id) = tried
open_if_failed t tried none = record tried { hub = open_sync t tried.hub }

-- One turn from the lock on.
unfoldable pub attempt : ℕ → Try → TunnelHub → Attempt
unfolding try_carriers open_sync
attempt len t h =
    let g = touched t h in
    let tried = try_carriers len t (live_carriers t g) g in open_if_failed t tried tried.taken_by

-- return nil, or back to `rerunit`.
abbrev pub return_or_rerun :
    (List ℕ → TunnelHub → Option Written) → List ℕ → ℕ → Attempt → Option ℕ → Option Written
return_or_rerun again failed sleeps a (some id) = some (record {
  taken_by = some id;
  extra = a.extra;
  failed = failed ++ a.failed;
  hub = a.hub;
  sleeps = sleeps;
})
return_or_rerun again failed sleeps a none = again (failed ++ a.failed) a.hub

module _ (len : ℕ) (tries : ℕ → Try) where
  -- From `rerunit`, with the retries, the sleeps and the failed carriers so far.
  unfoldable pub rerun : ℕ → ℕ → ℕ → List ℕ → TunnelHub → Option Written
  unfolding attempt
  rerun zero retries slept failed h = none
  rerun (suc fuel) retries slept failed h =
      let retry = retries + 1 in
      let sleeps = if ltb 1 retry then slept + 1 else slept in
      let a = attempt len (tries retry) h in
      if ltb max_retries retry
      then some (record { taken_by = none; extra = []; failed = failed; hub = h; sleeps = slept })
      else return_or_rerun (rerun fuel retry sleeps) failed sleeps a a.taken_by

  unfoldable pub write : ℕ → TunnelHub → Option Written
  unfolding rerun
  write fuel h = rerun fuel 0 0 [] h
