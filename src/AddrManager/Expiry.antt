-- ===== src/AddrManager/Expiry.antt =====
-- What GetAll forgets is never missed.
use peerscale.Prelude.{
  ℕ, ◌≤◌, ◌≡◌, inl, inr, refl, Bool, Option, none, some, List, [], ◌∷◌, keep, ltb, if◌then◌else◌,
  arith, occurs, Option-cases, ◌&&◌, ap,
}
use peerscale.Dict.{lookup, keys, IsMap}
use peerscale.Dict.Laws.{has_key_of_lookup, occurs-present}
use peerscale.AddrManager.{
  RelayVouch, AddrManager, is_backed, is_valid_circuit, live_vouches, get_all,
}
use peerscale.AddrManager.Announce.{vouched, occurs-get_all-keep}

vouched-live :
    (now later k : ℕ) (vs : List (ℕ × RelayVouch))
    → now ≤ later
    → vouched later k (live_vouches now vs) ≡ vouched later k vs
unfolding live_vouches
vouched-live now later k [] h = refl
vouched-live now later k ((id, v) ∷ vs) h = ground (arith, vouched-live now later k vs h)

lookup-live-none :
    (now k : ℕ) (vs : List (ℕ × RelayVouch))
    → lookup k vs ≡ none
    → lookup k (live_vouches now vs) ≡ none
unfolding live_vouches
lookup-live-none now k [] h = refl
lookup-live-none now k ((id, v) ∷ vs) h = ground (arith, lookup-live-none now k vs)

absent_tail :
    (k id : ℕ) (v : RelayVouch) (vs : List (ℕ × RelayVouch))
    → occurs k (keys ((id, v) ∷ vs)) ≤ 1
    → id ≡ k
    → lookup k vs ≡ none
absent_tail k id v vs o e = elim (Option-cases (lookup k vs)) [
  | inl absent ↦ absent
  | inr (w, there) ↦ absurd (ground (arith, occurs-present k vs (has_key_of_lookup k vs w there)))
]

lookup-live-some :
    (now k : ℕ) (v : RelayVouch) (vs : List (ℕ × RelayVouch))
    → occurs k (keys vs) ≤ 1
    → lookup k vs ≡ some v
    → lookup k (live_vouches now vs) ≡ (if ltb now v.expiration then some v else none)
unfolding live_vouches
lookup-live-some now k v [] o h = ground arith
lookup-live-some now k v ((id, w) ∷ vs) o h =
    ground (arith, lookup-live-some now k v vs, absent_tail k id w vs o, lookup-live-none now k vs)

backed_twice :
    (now later : ℕ) (vs : List (ℕ × RelayVouch)) (relay : Option ℕ)
    → IsMap vs
    → now ≤ later
    → (is_backed now vs relay && is_backed later (live_vouches now vs) relay)
      ≡ is_backed later vs relay
backed_twice now later vs none once h = refl
backed_twice now later vs (some relay) once h = elim (Option-cases (lookup relay vs)) [
  | inl absent ↦ ground (arith, lookup-live-none now relay vs absent)
  | inr (v, there) ↦ ground (arith, lookup-live-some now relay v vs (once.once relay) there)
]

keep_twice :
    (p q r : ℕ → Bool) (xs : List ℕ)
    → ((a : ℕ) → (p a && q a) ≡ r a)
    → keep q (keep p xs) ≡ keep r xs
keep_twice p q r [] h = refl
keep_twice p q r (x ∷ xs) h = ground (arith, h x, keep_twice p q r xs h)

-- A call of GetAll, which drops expired circuit addresses and vouches, is not seen by a later call:
-- that announces what it would have announced without the first. The manager has a vouch of each
-- relay at most.
pub get_all_unseen :
    (relay_of : ℕ → Option ℕ) (now later k : ℕ) (m : AddrManager)
    → IsMap m.relay_vouches
    → now ≤ later
    → occurs k (get_all relay_of later (get_all relay_of now m).1).0
      ≡ occurs k (get_all relay_of later m).0
unfolding get_all
get_all_unseen relay_of now later k m once h =
    let vs = m.relay_vouches in
    let m' = (get_all relay_of now m).1 in
    let same =
      keep_twice (is_valid_circuit relay_of now vs)
        (is_valid_circuit relay_of later (live_vouches now vs)) (is_valid_circuit relay_of later vs)
        m.relay_circuit_addrs
        (λ a. unfold is_valid_circuit in backed_twice now later vs (relay_of a) once h) in
    omega (
      arith,
      occurs-get_all-keep relay_of later k m',
      occurs-get_all-keep relay_of later k m,
      ap (occurs k) same,
      vouched-live now later k vs h,
    )
