-- ===== src/Tunnel/Write/Steps.antt =====
-- A write changes a hub only by the steps of Tunnel/Live.
use peerscale.Prelude.{
  ℕ, zero, suc, ◌+◌, ◌≡◌, inl, inr, Bool, true, false, Option, none, some, List, [], ◌∷◌, ltb,
  if◌then◌else◌, Bool-cases, IfSome, subst,
}
use peerscale.Tunnel.{TunnelCarrier, TunnelHub, maybe_open, open_peer_stream}
use peerscale.Tunnel.Live.{
  Reachable, next, writes, write_fails, opens, opened, IsSingle, Reachable-IsSingle,
}
use peerscale.Tunnel.Write.{
  Try, Attempt, Written, max_retries, kill, touched, live_carriers, try_carriers, open_sync,
  open_if_failed, attempt, return_or_rerun, rerun, write,
}

-- The other goroutines keep to the steps too.
pub record IsOrderly (t : Try) : Type 0 where
  pub sleeping : (h : TunnelHub) → Reachable h → Reachable (t.sleeping h)
  pub writing : (id : ℕ) (h : TunnelHub) → Reachable h → Reachable (t.writing id h)
  pub opening : (h : TunnelHub) → Reachable h → Reachable (t.opening h)

open_either :
    (t : Try) (b : Bool) (g : TunnelHub)
    → IsOrderly t
    → Reachable g
    → Reachable (if b then open_peer_stream t.opened_at t.stream (t.opening g) else g)
open_either t true g o r = next (o.opening g r) (opened t.opened_at t.stream)
open_either t false g o r = r

open_sync-Reachable :
    (t : Try) (h : TunnelHub) → IsOrderly t → Reachable h → Reachable (open_sync t h)
unfolding open_sync
open_sync-Reachable t h o r = open_either t (maybe_open h).0 (maybe_open h).1 o (next r opens)

module _ (len : ℕ) where
  try_carriers-Reachable :
      (t : Try) (cs : List TunnelCarrier) (h : TunnelHub)
      → IsOrderly t
      → Reachable h
      → Reachable (try_carriers len t cs h).hub
  unfolding try_carriers
  try_carriers-Reachable t [] h o r = r
  try_carriers-Reachable t (c ∷ cs) h o r =
      let written = o.writing c.id h r in
      elim (Bool-cases (t.takes c.id)) [
        | inl takes ↦ rw takes written
        | inr fails ↦ rw fails (
            try_carriers-Reachable t cs (kill c.id (t.writing c.id h)) o
              (next written (write_fails c.id)))
      ]

  open_if_failed-Reachable :
      (t : Try) (a : Attempt) (by : Option ℕ)
      → IsOrderly t
      → Reachable a.hub
      → Reachable (open_if_failed t a by).hub
  open_if_failed-Reachable t a (some id) o r = r
  open_if_failed-Reachable t a none o r = open_sync-Reachable t a.hub o r

  attempt-Reachable :
      (t : Try) (h : TunnelHub) → IsOrderly t → Reachable h → Reachable (attempt len t h).hub
  unfolding attempt
  attempt-Reachable t h o r = open_if_failed-Reachable t _ _ o (
      try_carriers-Reachable t (live_carriers t (touched t h)) (touched t h) o
        (next (o.sleeping h r) (writes t.now)))

  return_or_rerun-Reachable :
      (again : List ℕ → TunnelHub → Option Written) (failed : List ℕ) (sleeps : ℕ) (a : Attempt)
      (by : Option ℕ)
      → Reachable a.hub
      → ((fs : List ℕ) (h : TunnelHub) → Reachable h → IfSome (λ w. Reachable w.hub) (again fs h))
      → IfSome (λ w. Reachable w.hub) (return_or_rerun again failed sleeps a by)
  return_or_rerun-Reachable again failed sleeps a (some id) r next_turn = r
  return_or_rerun-Reachable again failed sleeps a none r next_turn = next_turn _ _ r

  module _ (tries : ℕ → Try) (orderly : (k : ℕ) → IsOrderly (tries k)) where
    rerun-Reachable :
        (fuel retries slept : ℕ) (failed : List ℕ) (h : TunnelHub)
        → Reachable h
        → IfSome (λ w. Reachable w.hub) (rerun len tries fuel retries slept failed h)
    unfolding rerun
    rerun-Reachable zero retries slept failed h r = tt
    rerun-Reachable (suc fuel) retries slept failed h r =
        let sleeps = (if ltb 1 (retries + 1) then slept + 1 else slept) in
        elim (Bool-cases (ltb max_retries (retries + 1))) [
          | inl over ↦ rw over r
          | inr left ↦ rw left (
              return_or_rerun-Reachable (rerun len tries fuel (retries + 1) sleeps) failed sleeps
                (attempt len (tries (retries + 1)) h) _
                (attempt-Reachable (tries (retries + 1)) h (orderly (retries + 1)) r)
                (λ fs g. rerun-Reachable fuel (retries + 1) sleeps fs g))
        ]

    -- If the other goroutines keep to the steps that goroutines take on a hub, so does a write: when
    -- it starts on a hub that such steps reach, they reach the hub that it leaves, which then has at
    -- most one live carrier of each direction.
    pub write-Reachable :
        (fuel : ℕ) (h : TunnelHub) (w : Written)
        → Reachable h
        → write len tries fuel h ≡ some w
        → Reachable w.hub × IsSingle w.hub
    unfolding write
    write-Reachable fuel h w r e =
        let there : Reachable w.hub =
          subst (IfSome (λ v. Reachable v.hub)) e (rerun-Reachable fuel 0 0 [] h r) in
        (there, Reachable-IsSingle there)
