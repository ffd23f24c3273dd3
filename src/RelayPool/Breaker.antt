-- ===== src/RelayPool/Breaker.antt =====
-- The tier and the circuit of one relay, as a function of the outcomes recorded for it.
use peerscale.Prelude.{ℕ, ◌+◌, ◌≡◌, Bool, true, false, List, [], ◌∷◌, leb, ltb, ◌&&◌, arith}
use peerscale.Runtime.{Float64}
use peerscale.RelayPool.{RelayItem, ErrType, err_ok, err_rate_limited, err_failed}
use peerscale.RelayPool.Ops.{apply_result, new_item}

-- The outcomes in order, the newest last, applied to an item.
unfoldable pub apply_all : {F : Type 0} → Float64 F → List ErrType → RelayItem F → RelayItem F
apply_all fl [] item = item
apply_all fl (t ∷ ts) item = apply_all fl ts (apply_result fl t item)

-- The specification: how many failures there were since the last success, and whether there was
-- a success at all. A rate limit counts as neither.
pub record Streak : Type 0 where
  pub fails : ℕ
  pub succeeded : Bool

abbrev pub extend : Streak → ErrType → Streak
extend s err_ok = record { fails = 0; succeeded = true }
extend s err_rate_limited = s
extend s err_failed = record s { fails = s.fails + 1 }

abbrev pub streak : Streak → List ErrType → Streak
streak s [] = s
streak s (t ∷ ts) = streak (extend s t) ts

-- The fields of an item that follow from its streak.
pub record Follows {F : Type 0} (s : Streak) (item : RelayItem F) : Type 0 where
  pub fails : item.consecutive_fails ≡ s.fails
  pub tier : item.in_main ≡ (s.succeeded && ltb s.fails 3)
  pub circuit : item.circuit_open ≡ leb 5 s.fails

module _ {F : Type 0} (fl : Float64 F) where
  apply_result-Follows :
      (t : ErrType) (s : Streak) (item : RelayItem F)
      → Follows s item
      → Follows (extend s t) (apply_result fl t item)
  unfolding apply_result
  apply_result-Follows err_ok s item h = ground arith
  apply_result-Follows err_rate_limited s item h = ground arith
  apply_result-Follows err_failed s item h = ground arith

  apply_all-Follows :
      (ts : List ErrType) (s : Streak) (item : RelayItem F)
      → Follows s item
      → Follows (streak s ts) (apply_all fl ts item)
  unfolding apply_all
  apply_all-Follows [] s item h = h
  apply_all-Follows (t ∷ ts) s item h =
      apply_all-Follows ts (extend s t) (apply_result fl t item) (apply_result-Follows t s item h)

  -- After any sequence of recorded outcomes, a relay that started new has counted the failures
  -- since its last success, is in the main tier exactly if there was a success and fewer than 3
  -- failures since, and has an open circuit exactly if there were 5 or more.
  pub new_item-Follows :
      (now pid addr : ℕ) (ts : List ErrType)
      → Follows
          (streak (record { fails = 0; succeeded = false }) ts)
          (apply_all fl ts (new_item fl now pid addr))
  unfolding new_item
  new_item-Follows now pid addr ts =
      apply_all-Follows ts (record { fails = 0; succeeded = false }) (new_item fl now pid addr)
        (ground arith)
