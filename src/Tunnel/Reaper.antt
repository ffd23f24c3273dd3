-- ===== src/Tunnel/Reaper.antt =====
-- Which hubs the reaper drops.
use peerscale.Prelude.{
  ℕ, ◌-◌, ◌≤◌, ◌<◌, ◌≡◌, refl, Bool, false, not, ◌||◌, none, some, List, [], ◌∷◌, ltb,
  if◌then◌else◌, arith, occurs, and_then, Option-cases, inl, inr, ◌∙◌, ap,
}
use peerscale.Dict.{lookup, keys, IsMap, insert}
use peerscale.Dict.Laws.{has_key_of_lookup, occurs-present, insert-IsMap, lookup-insert}
use peerscale.Tunnel.{TunnelHub, has_live, hub_idle, reap, hub_for, new_hub}

-- The reaper leaves a hub that has a live carrier, or is opening one, or was used of late.
abbrev pub in_use : ℕ → TunnelHub → Bool
in_use now h = h.opening || (has_live h.carriers || not (ltb hub_idle (now - h.last_use)))

reap-absent :
    (now id : ℕ) (hubs : List (ℕ × TunnelHub))
    → lookup id hubs ≡ none
    → lookup id (reap now hubs) ≡ none
unfolding reap
reap-absent now id [] e = refl
reap-absent now id ((j, h) ∷ hubs) e = ground (arith, reap-absent now id hubs)

absent_tail :
    (id j : ℕ) (g : TunnelHub) (hubs : List (ℕ × TunnelHub))
    → occurs id (keys ((j, g) ∷ hubs)) ≤ 1
    → j ≡ id
    → lookup id hubs ≡ none
absent_tail id j g hubs o e = elim (Option-cases (lookup id hubs)) [
  | inl absent ↦ absent
  | inr (h, there) ↦
      absurd (ground (arith, occurs-present id hubs (has_key_of_lookup id hubs h there)))
]

lookup-reap :
    (now id : ℕ) (h : TunnelHub) (hubs : List (ℕ × TunnelHub))
    → occurs id (keys hubs) ≤ 1
    → lookup id hubs ≡ some h
    → lookup id (reap now hubs) ≡ (if in_use now h then some h else none)
unfolding reap
lookup-reap now id h [] o e = ground arith
lookup-reap now id h ((j, g) ∷ hubs) o e =
    ground (arith, lookup-reap now id h hubs, absent_tail id j g hubs o, reap-absent now id hubs)

-- With one hub of each peer, a tick of the reaper keeps a hub as it is if it is in use, and else
-- drops it; a peer without a hub gets none.
pub reap_keeps :
    (now id : ℕ) (hubs : List (ℕ × TunnelHub))
    → IsMap hubs
    → lookup id (reap now hubs)
      ≡ and_then (lookup id hubs) (λ h. if in_use now h then some h else none)
reap_keeps now id hubs once = elim (Option-cases (lookup id hubs)) [
  | inl absent ↦ rw absent (reap-absent now id hubs absent)
  | inr (h, there) ↦ rw there (lookup-reap now id h hubs (once.once id) there)
]

hub_for-new :
    (id : ℕ) (hubs : List (ℕ × TunnelHub))
    → lookup id hubs ≡ none
    → (hub_for id hubs).1 ≡ insert id new_hub hubs
unfolding hub_for
hub_for-new id hubs absent = ground (arith, absent)

new_hub_idle : (now : ℕ) → hub_idle < now → in_use now new_hub ≡ false
unfolding new_hub has_live
new_hub_idle now late = ground arith

-- With one hub of each peer: a hub that hubFor has just made for a peer without one is gone after
-- the next tick of the reaper, if that comes before the hub's first use, at any time more than two
-- minutes after Go's zero time.
pub reap-hub_for :
    (now id : ℕ) (hubs : List (ℕ × TunnelHub))
    → IsMap hubs
    → lookup id hubs ≡ none
    → hub_idle < now
    → lookup id (reap now (hub_for id hubs).1) ≡ none
reap-hub_for now id hubs once absent late =
    ap (λ hs. lookup id (reap now hs)) (hub_for-new id hubs absent)
    ∙ lookup-reap now id new_hub (insert id new_hub hubs)
        ((insert-IsMap id new_hub hubs once).once id)
        (ground (arith, lookup-insert id id new_hub hubs))
    ∙ ap (λ b. if b then some new_hub else none) (new_hub_idle now late)
