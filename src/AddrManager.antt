-- ===== src/AddrManager.antt =====
-- The addresses that a node announces, of p2put/addrmgr.go, with mergeAddrs of p2put/libp2p_bs.go.
-- An address is a number, which stands for its text. `relay_of` is extractRelayPeerID: the peer ID
-- of the relay of an address, if it is a relay address. Each call reads the clock once.
pub mod Announce
pub mod Expiry
mod Examples
use peerscale.Prelude.{
  ℕ, Bool, true, false, not, ◌||◌, Option, none, some, List, [], ◌∷◌, ltb, ◌==◌, length, keep, ◌++◌,
  if◌then◌else◌,
}
use peerscale.Dict.{lookup, insert, has_key}

pub record RelayVouch : Type 0 where
  pub addrs : List ℕ
  pub expiration : ℕ

pub record AddrManager : Type 0 where
  pub local_addrs : List ℕ
  pub relay_circuit_addrs : List ℕ
  pub relay_vouches : List (ℕ × RelayVouch)

unfoldable pub new_addr_manager : AddrManager
new_addr_manager = record { local_addrs = []; relay_circuit_addrs = []; relay_vouches = [] }

unfoldable pub set_local : List ℕ → AddrManager → AddrManager
set_local addrs m = record m { local_addrs = addrs }

unfoldable pub set_relay_circuit : List ℕ → AddrManager → AddrManager
set_relay_circuit addrs m =
    if length addrs == 0 then m else record m { relay_circuit_addrs = addrs }

unfoldable pub set_relay_vouch : ℕ → List ℕ → ℕ → AddrManager → AddrManager
set_relay_vouch id addrs expiry m = record m {
  relay_vouches = insert id (record { addrs = addrs; expiration = expiry }) m.relay_vouches;
}

-- One of the two loops of mergeAddrs: what it appends, with the addresses seen before it.
unfoldable pub unseen : List (ℕ × Unit {0}) → List ℕ → List ℕ
unseen seen [] = []
unseen seen (a ∷ addrs) =
    if has_key a seen then unseen seen addrs else a ∷ unseen (insert a tt seen) addrs

-- The map of seen addresses after the loop.
unfoldable pub seen_after : List (ℕ × Unit {0}) → List ℕ → List (ℕ × Unit {0})
seen_after seen [] = seen
seen_after seen (a ∷ addrs) =
    if has_key a seen then seen_after seen addrs else seen_after (insert a tt seen) addrs

unfoldable pub merge_addrs : List ℕ → List ℕ → List ℕ
unfolding unseen seen_after
merge_addrs existing incoming = unseen [] existing ++ unseen (seen_after [] existing) incoming

abbrev pub not_expired : ℕ → Option RelayVouch → Bool
not_expired now none = true
not_expired now (some v) = ltb now v.expiration

abbrev pub is_backed : ℕ → List (ℕ × RelayVouch) → Option ℕ → Bool
is_backed now vouches none = true
is_backed now vouches (some relay) = not_expired now (lookup relay vouches)

-- Whether a circuit address still counts: its relay did not vouch for it, or does so still.
unfoldable pub is_valid_circuit : (ℕ → Option ℕ) → ℕ → List (ℕ × RelayVouch) → ℕ → Bool
is_valid_circuit relay_of now vouches a = is_backed now vouches (relay_of a)

-- The loop over the vouches: it merges the addresses of those that have not expired.
unfoldable pub merge_vouches : ℕ → List ℕ → List (ℕ × RelayVouch) → List ℕ
unfolding merge_addrs
merge_vouches now out [] = out
merge_vouches now out ((id, v) ∷ vouches) =
    merge_vouches now (if ltb now v.expiration then merge_addrs out v.addrs else out) vouches

-- And deletes the others.
unfoldable pub live_vouches : ℕ → List (ℕ × RelayVouch) → List (ℕ × RelayVouch)
live_vouches now [] = []
live_vouches now ((id, v) ∷ vouches) =
    if ltb now v.expiration then (id, v) ∷ live_vouches now vouches else live_vouches now vouches

-- The addresses, and the manager after the call.
unfoldable pub get_all : (ℕ → Option ℕ) → ℕ → AddrManager → List ℕ × AddrManager
unfolding is_valid_circuit merge_vouches live_vouches merge_addrs
get_all relay_of now m =
    let circuits = keep (is_valid_circuit relay_of now m.relay_vouches) m.relay_circuit_addrs in
    (
      merge_vouches now (merge_addrs m.local_addrs circuits) m.relay_vouches,
      record m { relay_circuit_addrs = circuits; relay_vouches = live_vouches now m.relay_vouches },
    )
