-- ===== src/Tunnel/Write/Recovery.antt =====
-- A write gets over the loss of all carriers.
use mathlib.Core.List.{reverse, reverse-cons}
use peerscale.Prelude.{
  ℕ, suc, ◌+◌, ◌≤◌, ◌<◌, ltb, ◌≡◌, refl, inl, inr, Bool, true, false, not, ◌&&◌, Option, none, some,
  List, [], ◌∷◌, ◌++◌, arith, Bool-cases, count_if, keep, ◌∙◌, ap, sym, subst, if◌then◌else◌,
}
use peerscale.Tunnel.{Direction, TunnelCarrier, TunnelHub, attach, maybe_open, open_peer_stream}
use peerscale.Tunnel.Write.{
  Try, Attempt, Written, kill, touched, live_carriers, try_carriers, open_sync, open_if_failed,
  attempt, max_retries, return_or_rerun, rerun, write,
}

-- How many of the carriers would take the packet.
abbrev pub takers : Try → List TunnelCarrier → ℕ
takers t cs = count_if (λ c. t.takes c.id) cs

-- A carrier that is live and would take the packet.
abbrev pub ready : Try → TunnelCarrier → Bool
ready t c = not c.dead && t.takes c.id

takers-append :
    (t : Try) (xs ys : List TunnelCarrier) → takers t (xs ++ ys) ≡ takers t xs + takers t ys
takers-append t [] ys = omega arith
takers-append t (x ∷ xs) ys = omega (arith, takers-append t xs ys)

takers-reverse : (t : Try) (cs : List TunnelCarrier) → takers t (reverse cs) ≡ takers t cs
takers-reverse t [] = refl
takers-reverse t (c ∷ cs) =
    ap (takers t) (reverse-cons c cs)
    ∙ omega (arith, takers-append t (reverse cs) (c ∷ []), takers-reverse t cs)

takers-keep :
    (t : Try) (cs : List TunnelCarrier)
    → takers t (keep (λ c. not c.dead) cs) ≡ count_if (ready t) cs
takers-keep t [] = refl
takers-keep t (c ∷ cs) = ground (arith, takers-keep t cs)

takers-live :
    (t : Try) (h : TunnelHub) → takers t (live_carriers t h) ≡ count_if (ready t) h.carriers
takers-live t h = elim (Bool-cases t.reversed) [
  | inl turned ↦ rw turned (takers-reverse t _ ∙ takers-keep t h.carriers)
  | inr straight ↦ rw straight (takers-keep t h.carriers)
]

-- Where some carrier would take the packet, one does.
try_carriers_takes :
    (len : ℕ) (t : Try) (cs : List TunnelCarrier) (h : TunnelHub)
    → 0 < takers t cs
    → (id : ℕ) × ((try_carriers len t cs h).taken_by ≡ some id)
unfolding try_carriers
try_carriers_takes len t [] h p = absurd (omega arith)
try_carriers_takes len t (c ∷ cs) h p = elim (Bool-cases (t.takes c.id)) [
  | inl takes ↦ rw takes (c.id, refl)
  | inr fails ↦
      rw fails
        (try_carriers_takes len t cs (kill c.id (t.writing c.id h)) (ground (arith, p, fails)))
]

open_if_failed-taken :
    (t : Try) (a : Attempt) (by : Option ℕ) → (open_if_failed t a by).taken_by ≡ a.taken_by
open_if_failed-taken t a (some id) = refl
open_if_failed-taken t a none = refl

pub attempt_takes :
    (len : ℕ) (t : Try) (h : TunnelHub)
    → 0 < count_if (ready t) (t.sleeping h).carriers
    → (id : ℕ) × ((attempt len t h).taken_by ≡ some id)
unfolding attempt
attempt_takes len t h p =
    let (id, e) =
      try_carriers_takes len t (live_carriers t (touched t h)) (touched t h)
        (omega (arith, p, takers-live t (touched t h))) in
    (
      id,
      open_if_failed-taken t (try_carriers len t (live_carriers t (touched t h)) (touched t h)) _
          ∙ e,
    )

-- Only this goroutine uses the hub.
pub record IsAlone (t : Try) : Type 0 where
  pub sleeping : (h : TunnelHub) → t.sleeping h ≡ h
  pub writing : (id : ℕ) (h : TunnelHub) → t.writing id h ≡ h
  pub opening : (h : TunnelHub) → t.opening h ≡ h

try_carriers-opening :
    (len : ℕ) (t : Try) (cs : List TunnelCarrier) (h : TunnelHub)
    → IsAlone t
    → (try_carriers len t cs h).hub.opening ≡ h.opening
unfolding try_carriers
try_carriers-opening len t [] h q = refl
try_carriers-opening len t (c ∷ cs) h q =
    let same = ap (λ g. g.opening) (q.writing c.id h) in
    elim (Bool-cases (t.takes c.id)) [
      | inl takes ↦ rw takes same
      | inr fails ↦ rw fails (try_carriers-opening len t cs (kill c.id (t.writing c.id h)) q ∙ same)
    ]

pub count-append :
    (p : TunnelCarrier → Bool) (xs : List TunnelCarrier) (c : TunnelCarrier)
    → p c ≡ true
    → 0 < count_if p (xs ++ (c ∷ []))
count-append p [] c e = ground arith
count-append p (x ∷ xs) c e = omega (arith, count-append p xs c e)

-- A stream that was opened is a live carrier.
open_sync-ready :
    (t t' : Try) (h : TunnelHub) (id : ℕ) (d : Direction)
    → h.opening ≡ false
    → t.stream ≡ some (id, d)
    → t'.takes id ≡ true
    → 0 < count_if (ready t') (open_sync t h).carriers
unfolding open_sync maybe_open open_peer_stream attach
open_sync-ready t t' h id d o s takes =
    rw (o, s) (count-append (ready t') _ (record { id = id; direction = d; dead = false }) takes)

module _ (len : ℕ) (tries : ℕ → Try) where
  Recovers : Option Written → Type 0
  Recovers o = (w : Written) × (id : ℕ) × (o ≡ some w) × (w.taken_by ≡ some id) × (w.sleeps ≤ 1)

  pub rerun_turn :
      (fuel retries slept : ℕ) (failed : List ℕ) (h : TunnelHub)
      → retries + 1 ≤ 48
      → let sleeps = (if ltb 1 (retries + 1) then slept + 1 else slept) in
        let a = attempt len (tries (retries + 1)) h in
        rerun len tries (suc fuel) retries slept failed h
        ≡ return_or_rerun (rerun len tries fuel (retries + 1) sleeps) failed sleeps a a.taken_by
  unfolding rerun
  rerun_turn fuel retries slept failed h l =
      let few : ltb max_retries (retries + 1) ≡ false = ground (arith, l) in rw few refl

  -- The second try, on a hub with a carrier that would take the packet.
  second_try :
      (failed : List ℕ) (h : TunnelHub)
      → IsAlone (tries 2)
      → 0 < count_if (ready (tries 2)) h.carriers
      → Recovers (rerun len tries 48 1 0 failed h)
  unfolding Recovers
  second_try failed h q p =
      let there = subst (λ g. 0 < count_if (ready (tries 2)) g.carriers) (sym (q.sleeping h)) p in
      let (id, e) = attempt_takes len (tries 2) h there in
      (
        _,
        id,
        rerun_turn 47 1 0 failed h (omega arith)
            ∙ ap (return_or_rerun (rerun len tries 47 2 1) failed 1 (attempt len (tries 2) h)) e,
        refl,
        omega arith,
      )

  first_try :
      (a : Attempt) (id : ℕ) (d : Direction)
      → IsAlone (tries 2)
      → a.hub.opening ≡ false
      → (tries 1).stream ≡ some (id, d)
      → (tries 2).takes id ≡ true
      → (by : Option ℕ) → a.taken_by ≡ by
      → let b = open_if_failed (tries 1) a by in
        Recovers (return_or_rerun (rerun len tries 48 1 0) [] 0 b b.taken_by)
  unfolding Recovers
  first_try a id d q o s takes (some taker) e = rw e (_, taker, refl, refl, omega arith)
  first_try a id d q o s takes none e =
      rw e (second_try _ _ q (open_sync-ready (tries 1) (tries 2) a.hub id d o s takes))

  -- If no other goroutine uses the hub during the first two tries and no stream is being opened, a
  -- write whose first try can open a stream that takes the packet in the second try succeeds, on
  -- whatever carriers it starts, after one sleep at most.
  pub write-recovers :
      (h : TunnelHub) (id : ℕ) (d : Direction)
      → IsAlone (tries 1) × IsAlone (tries 2)
      → h.opening ≡ false
      → (tries 1).stream ≡ some (id, d)
      → (tries 2).takes id ≡ true
      → (w : Written) × (taker : ℕ) × (write len tries 49 h ≡ some w)
        × (w.taken_by ≡ some taker)
        × (w.sleeps ≤ 1)
  unfolding write attempt Recovers
  write-recovers h id d (q₁, q₂) o s takes =
      let g = touched (tries 1) h in
      let a = try_carriers len (tries 1) (live_carriers (tries 1) g) g in
      let (w, taker, e, taken, slept) =
        first_try a id d q₂
          (try_carriers-opening len (tries 1) _ g q₁ ∙ ap (λ k. k.opening) (q₁.sleeping h) ∙ o) s
          takes a.taken_by refl in
      (w, taker, rerun_turn 48 0 0 [] h (omega arith) ∙ e, taken, slept)
