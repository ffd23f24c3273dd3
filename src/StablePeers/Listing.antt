-- ===== src/StablePeers/Listing.antt =====
-- The list that CollectStablePeers gives.
use mathlib.Core.List.{Pairwise}
use mathlib.Core.List.Pairwise
use peerscale.Prelude.{
  ℕ, ◌≤◌, ◌≡◌, refl, false, List, [], ◌∷◌, arith, ◌==◌, ltb, count_if, count_if-perm, occurs, ◌∙◌,
}
use peerscale.Dict.{keys}
use peerscale.Runtime.{Float64, SortSlice, IsLess}
use peerscale.StablePeers.{StableInfo, StablePeerEntry, Addr, scored, collect_stable_peers}

module _ {F : Type 0} (fl : Float64 F) (addrs_of : ℕ → List Addr) where
  count-scored :
      (id : ℕ) (m : List (ℕ × StableInfo))
      → count_if (λ e. e.peer_id == id) (scored fl addrs_of m) ≡ occurs id (keys m)
  unfolding scored
  count-scored id [] = refl
  count-scored id ((j, si) ∷ m) = ground (arith, count-scored id m)

  longer-IsLess : IsLess (λ (a b : StablePeerEntry F). ltb b.total_online a.total_online)
  longer-IsLess = record {
    asymmetric = λ a b h. ground arith;
    cotransitive = λ a b c h. ground arith;
  }

  -- The list is in the order of falling online time, and each peer is there as often as in the map.
  pub collect_complete :
      (sorts : SortSlice (StablePeerEntry F)) (id : ℕ) (m : List (ℕ × StableInfo))
      → Pairwise (λ a b. b.total_online ≤ a.total_online) (collect_stable_peers fl addrs_of sorts m)
        × (count_if (λ e. e.peer_id == id) (collect_stable_peers fl addrs_of sorts m)
            ≡ occurs id (keys m))
  unfolding collect_stable_peers
  collect_complete sorts id m = (
    Pairwise.imp {R = λ a b. ltb a.total_online b.total_online ≡ false} (λ a b h. ground arith)
        (sorts.sort_ordered _ _ longer-IsLess),
    count_if-perm (λ e. e.peer_id == id) _ _ (sorts.sort_perm _ _) ∙ count-scored id m,
  )
