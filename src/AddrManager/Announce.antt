-- ===== src/AddrManager/Announce.antt =====
-- Which addresses are announced.
use peerscale.Prelude.{
  ℕ, ◌+◌, ◌≤◌, ◌≡◌, ◌||◌, Option, some, List, [], ◌∷◌, ◌++◌, keep, ltb, if◌then◌else◌, arith,
  occurs, min,
}
use peerscale.Dict.{has_key, insert, lookup}
use peerscale.Dict.Laws.{has_key-insert}
use peerscale.AddrManager.{
  RelayVouch, AddrManager, unseen, seen_after, merge_addrs, is_valid_circuit, merge_vouches,
  get_all,
}

has_key-seen_after :
    (k : ℕ) (seen : List (ℕ × Unit {0})) (addrs : List ℕ)
    → has_key k (seen_after seen addrs) ≡ (has_key k seen || ltb 0 (occurs k addrs))
unfolding seen_after
has_key-seen_after k seen [] = ground arith
has_key-seen_after k seen (a ∷ addrs) = ground (
  arith,
  has_key-seen_after k seen addrs,
  has_key-seen_after k (insert a tt seen) addrs,
  has_key-insert a k tt seen,
)

-- The loop appends an address once if it is there and was not seen, and else not at all.
occurs-unseen :
    (k : ℕ) (seen : List (ℕ × Unit {0})) (addrs : List ℕ)
    → occurs k (unseen seen addrs) ≡ (if has_key k seen then 0 else min 1 (occurs k addrs))
unfolding unseen
occurs-unseen k seen [] = ground arith
occurs-unseen k seen (a ∷ addrs) = ground (
  arith,
  occurs-unseen k seen addrs,
  occurs-unseen k (insert a tt seen) addrs,
  has_key-insert a k tt seen,
)

occurs-append : (k : ℕ) (xs ys : List ℕ) → occurs k (xs ++ ys) ≡ occurs k xs + occurs k ys
occurs-append k [] ys = omega arith
occurs-append k (x ∷ xs) ys = omega (arith, occurs-append k xs ys)

-- mergeAddrs is the union: an address of either list is there exactly once, and no other.
pub occurs-merge_addrs :
    (k : ℕ) (existing incoming : List ℕ)
    → occurs k (merge_addrs existing incoming) ≡ min 1 (occurs k existing + occurs k incoming)
unfolding merge_addrs
occurs-merge_addrs k existing incoming = ground (
  arith,
  occurs-append k (unseen [] existing) (unseen (seen_after [] existing) incoming),
  occurs-unseen k [] existing,
  occurs-unseen k (seen_after [] existing) incoming,
  has_key-seen_after k [] existing,
)

-- How often an address stands in a vouch that has not expired.
abbrev pub vouched : ℕ → ℕ → List (ℕ × RelayVouch) → ℕ
vouched now k [] = 0
vouched now k ((id, v) ∷ vouches) =
    (if ltb now v.expiration then occurs k v.addrs else 0) + vouched now k vouches

occurs-merge_vouches :
    (now k : ℕ) (out : List ℕ) (vouches : List (ℕ × RelayVouch))
    → occurs k out ≤ 1
    → occurs k (merge_vouches now out vouches) ≡ min 1 (occurs k out + vouched now k vouches)
unfolding merge_vouches
occurs-merge_vouches now k out [] h = omega (arith, h)
occurs-merge_vouches now k out ((id, v) ∷ vouches) h = ground (
  arith,
  occurs-merge_addrs k out v.addrs,
  occurs-merge_vouches now k (merge_addrs out v.addrs) vouches,
  occurs-merge_vouches now k out vouches,
)

-- With the circuit addresses as the loop leaves them.
pub occurs-get_all-keep :
    (relay_of : ℕ → Option ℕ) (now k : ℕ) (m : AddrManager)
    → occurs k (get_all relay_of now m).0
      ≡ min 1 (
          occurs k m.local_addrs
          + occurs k (keep (is_valid_circuit relay_of now m.relay_vouches) m.relay_circuit_addrs)
          + vouched now k m.relay_vouches)
unfolding get_all
occurs-get_all-keep relay_of now k m =
    let circuits = keep (is_valid_circuit relay_of now m.relay_vouches) m.relay_circuit_addrs in
    omega (
      arith,
      occurs-merge_addrs k m.local_addrs circuits,
      occurs-merge_vouches now k (merge_addrs m.local_addrs circuits) m.relay_vouches
          (omega (arith, occurs-merge_addrs k m.local_addrs circuits)),
    )

-- The relay of the address has vouched for it, and that vouch has expired.
abbrev pub IsLapsed : (ℕ → Option ℕ) → ℕ → ℕ → AddrManager → Type 0
IsLapsed relay_of now k m =
    (relay : ℕ) × (v : RelayVouch) × (relay_of k ≡ some relay)
    × (lookup relay m.relay_vouches ≡ some v)
    × (v.expiration ≤ now)
