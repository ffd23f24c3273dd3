-- ===== src/Tunnel/Write/Ends.antt =====
-- How a write ends.
use peerscale.Prelude.{
  ℕ, zero, suc, ◌+◌, ◌-◌, ◌*◌, ◌≤◌, ◌≡◌, refl, inl, inr, Bool, true, false, Option, none, some,
  List, [], ◌∷◌, ◌++◌, ltb, if◌then◌else◌, arith, All, Bool-cases,
}
use peerscale.Tunnel.{TunnelCarrier, TunnelHub}
use peerscale.Tunnel.Write.{
  Try, Attempt, Written, max_retries, retry_pause, kill, touched, live_carriers, try_carriers,
  open_if_failed, attempt, return_or_rerun, rerun, write,
}

All-append {ℓ κ} :
    {A : Type ℓ} (P : A → Type κ) (xs ys : List A) → All P xs → All P ys → All P (xs ++ ys)
All-append P [] ys h k = k
All-append P (x ∷ xs) ys h k = (h.0, All-append P xs ys h.1 k)

-- In one of the tries the carrier answered so.
abbrev pub Answered : (ℕ → Try) → Bool → ℕ → Type 0
Answered tries b id = (k : ℕ) × (1 ≤ k) × (k ≤ max_retries) × ((tries k).takes id ≡ b)

abbrev pub Took : (ℕ → Try) → Option ℕ → Type 0
Took tries none = Unit
Took tries (some id) = Answered tries true id

Tells : Try → Attempt → Type 0
Tells t a =
    ((id : ℕ) → a.taken_by ≡ some id → t.takes id ≡ true) × All (λ id. t.takes id ≡ false) a.failed

try_carriers-Tells :
    (len : ℕ) (t : Try) (cs : List TunnelCarrier) (h : TunnelHub)
    → Tells t (try_carriers len t cs h)
unfolding try_carriers Tells
try_carriers-Tells len t [] h = (λ id e. absurd (ground arith), tt)
try_carriers-Tells len t (c ∷ cs) h =
    let rest = try_carriers-Tells len t cs (kill c.id (t.writing c.id h)) in
    elim (Bool-cases (t.takes c.id)) [
      | inl takes ↦ rw takes (λ id e. ground (arith, takes), tt)
      | inr fails ↦ rw fails (rest.0, (fails, rest.1))
    ]

open_if_failed-Tells :
    (t : Try) (a : Attempt) (by : Option ℕ) → Tells t a → Tells t (open_if_failed t a by)
unfolding Tells
open_if_failed-Tells t a (some id) h = h
open_if_failed-Tells t a none h = h

attempt-Tells : (len : ℕ) (t : Try) (h : TunnelHub) → Tells t (attempt len t h)
unfolding attempt
attempt-Tells len t h =
    open_if_failed-Tells t _ _
      (try_carriers-Tells len t (live_carriers t (touched t h)) (touched t h))

module _ (len : ℕ) (tries : ℕ → Try) where
  -- The write has returned so: it slept after each try but the last, in time, and tells the truth.
  abbrev pub Ended : Written → Type 0
  Ended w =
      (w.sleeps ≤ 47)
      × (w.taken_by ≡ none → w.sleeps ≡ 47)
      × Took tries w.taken_by
      × All (λ id. Answered tries false id) w.failed

  answered :
      (k : ℕ) (b : Bool) (ids : List ℕ)
      → (1 ≤ k) × (k ≤ 48)
      → All (λ id. (tries k).takes id ≡ b) ids
      → All (λ id. Answered tries b id) ids
  answered k b [] l h = tt
  answered k b (id ∷ ids) l h = ((k, l.0, l.1, h.0), answered k b ids l h.1)

  Returns : Option Written → Type 0
  Returns o = (w : Written) × (o ≡ some w) × Ended w

  return_or_rerun-Ended :
      (again : List ℕ → TunnelHub → Option Written) (failed : List ℕ) (sleeps k : ℕ) (a : Attempt)
      (by : Option ℕ)
      → a.taken_by ≡ by
      → (1 ≤ k) × (k ≤ 48)
      → sleeps ≤ 47
      → Tells (tries k) a
      → All (λ id. Answered tries false id) failed
      → ((fs : List ℕ) (h : TunnelHub)
          → All (λ id. Answered tries false id) fs
          → Returns (again fs h))
      → Returns (return_or_rerun again failed sleeps a by)
  unfolding Tells Returns
  return_or_rerun-Ended again failed sleeps k a (some id) e l s (takes, fails) fs next = (
    _,
    refl,
    (
      s,
      λ n. absurd (ground arith),
      (k, l.0, l.1, takes id e),
      All-append _ failed a.failed fs (answered k false a.failed l fails),
    ),
  )
  return_or_rerun-Ended again failed sleeps k a none e l s (takes, fails) fs next =
      next _ _ (All-append _ failed a.failed fs (answered k false a.failed l fails))

  rerun-Ended :
      (fuel retries slept : ℕ) (failed : List ℕ) (h : TunnelHub)
      → fuel + retries ≡ 49
      → retries ≤ 48
      → slept ≡ retries - 1
      → All (λ id. Answered tries false id) failed
      → Returns (rerun len tries fuel retries slept failed h)
  unfolding rerun Returns
  rerun-Ended zero retries slept failed h e l s fs = absurd (omega arith)
  rerun-Ended (suc fuel) retries slept failed h e l s fs =
      elim (Bool-cases (ltb max_retries (retries + 1))) [
        | inl over ↦ rw over (_, refl, (ground arith, (λ n. ground arith), tt, fs))
        | inr left ↦
            (let sleeps = (if ltb 1 (retries + 1) then slept + 1 else slept) in
              let few : retries + 1 ≤ 48 = ground arith in
              let counted : sleeps ≡ retries = ground arith in
              rw left (
                return_or_rerun-Ended (rerun len tries fuel (retries + 1) sleeps) failed sleeps
                  (retries + 1) (attempt len (tries (retries + 1)) h) _ refl (omega arith, few)
                  (omega (arith, counted)) (attempt-Tells len (tries (retries + 1)) h) fs
                  (λ ids g hs.
                    rerun-Ended fuel (retries + 1) sleeps ids g (omega (arith, e)) few
                      (omega (arith, counted)) hs)))
      ]

  -- A write returns, whatever the streams answer and whatever the other goroutines do: with fuel
  -- for 49 turns it gives a result. It sleeps at most 47 times, which is less than 58 seconds, and
  -- exactly 47 times when it fails. A carrier that it gives as the one which took the packet did
  -- take it in one of the 48 tries, and those that it gives as failed did fail in one.
  pub write-Ended :
      (h : TunnelHub)
      → (w : Written) × (write len tries 49 h ≡ some w)
        × (w.sleeps * retry_pause ≤ 58 * 1_000_000_000)
        × Ended w
  unfolding write Returns
  write-Ended h =
      let (w, e, ended) = rerun-Ended 49 0 0 [] h refl (omega arith) refl tt in
      (w, e, omega (arith, ended.0), ended)
