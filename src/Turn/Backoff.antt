-- ===== src/Turn/Backoff.antt =====
-- How long connectWithBackoff of p2put/turnpool.go waits.
use native.Mathlib.Nat.{pow-succ'}
use peerscale.Prelude.{
  ℕ, zero, suc, ◌+◌, ◌*◌, ◌^◌, ◌≡◌, refl, Bool, Option, List, [], ◌∷◌, length, min, arith, IfSome,
  IfSome-if, IfSome-all, and_then-IfSome, ap, sym, subst, ◌∙◌,
}
use peerscale.Runtime.{second}
use peerscale.Turn.{TurnServer, is_alive, Connect, connect}
use peerscale.Turn.Loop.{
  Attempts, max_backoff, next_backoff, after_attempt, attempts, connect_with_backoff,
}

-- The wait after attempt `n`, the first being 0.
abbrev pub wait_after : ℕ → ℕ
wait_after n = min (2 ^ n * second) max_backoff

abbrev pub waits_from : ℕ → ℕ → List ℕ
waits_from n zero = []
waits_from n (suc left) = wait_after n ∷ waits_from (n + 1) left

doubled : (p : ℕ) → next_backoff (min (p * second) max_backoff) ≡ min (2 * p * second) max_backoff
doubled p = ground arith

power : (n : ℕ) → 2 ^ (n + 1) ≡ 2 * 2 ^ n
power n = let e : n + 1 ≡ suc n = omega arith in ap (λ m. 2 ^ m) e ∙ pow-succ' 2 n

next_wait : (n : ℕ) → next_backoff (wait_after n) ≡ wait_after (n + 1)
next_wait n = doubled (2 ^ n) ∙ ap (λ p. min (p * second) max_backoff) (sym (power n))

-- The waits so far, after `n` earlier ones.
Scheduled : ℕ → Attempts → Type 0
Scheduled n a = a.waits ≡ waits_from n (length a.waits)

after_attempt-Scheduled :
    (n : ℕ) (stopped : Bool) (again : TurnServer → Option Attempts) (ts : TurnServer)
    → IfSome (Scheduled (n + 1)) (again ts)
    → IfSome (Scheduled n) (after_attempt (wait_after n) stopped again ts)
unfolding Scheduled
after_attempt-Scheduled n stopped again ts h =
    IfSome-if (Scheduled n) (is_alive ts.state) _ _ refl (
      IfSome-if (Scheduled n) stopped _ _ refl (
        and_then-IfSome (Scheduled (n + 1)) (Scheduled n) (again ts) _ h
          (λ a e. ap (λ ws. wait_after n ∷ ws) e)))

attempts-Scheduled :
    (n : ℕ) (dials : List (Connect × Bool)) (ts : TurnServer)
    → IfSome (Scheduled n) (attempts (wait_after n) dials ts)
unfolding attempts Scheduled
attempts-Scheduled n [] ts = refl
attempts-Scheduled n ((outcome, stopped) ∷ later) ts =
    and_then-IfSome (λ ts'. Unit {0}) (Scheduled n) (connect outcome ts) _
      (IfSome-all _ (connect outcome ts) (λ ts'. tt))
      λ ts' u.
        after_attempt-Scheduled n stopped (attempts (next_backoff (wait_after n)) later) ts' (
          subst (λ b. IfSome (Scheduled (n + 1)) (attempts b later ts')) (sym (next_wait n))
            (attempts-Scheduled (n + 1) later ts'))

-- Whatever the dials meet, unless it panics: the first wait of connectWithBackoff is one second,
-- each further one twice as long as the one before, and none is longer than a minute. So wait
-- number n, from 0 on, is 2 ^ n seconds or a minute, whichever is less.
pub connect_with_backoff-waits :
    (dials : List (Connect × Bool)) (ts : TurnServer)
    → IfSome (λ a. a.waits ≡ waits_from 0 (length a.waits)) (connect_with_backoff dials ts)
unfolding connect_with_backoff Scheduled
connect_with_backoff-waits dials ts = attempts-Scheduled 0 dials ts
