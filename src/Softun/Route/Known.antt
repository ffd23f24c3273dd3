-- ===== src/Softun/Route/Known.antt =====
-- What peerIPs of softun/softun.go holds, whatever the cluster is at each call.
use peerscale.Prelude.{
  ℕ, ◌≤◌, ◌≡◌, refl, sym, inl, inr, ◌⊎◌, Option, none, some, List, [], ◌∷◌, ◌==◌, if◌then◌else◌,
  arith, Bool-cases, occurs, ◌∙◌,
}
use peerscale.Dict.{lookup, insert}
use peerscale.Dict.Laws.{lookup-insert}
use peerscale.Softun.Route.{
  vlan4, vlan6, host_part, enter, enter_peers, or_enter, peer_id_by_virt_addr,
}

module _ (crc64 : Option ℕ → ℕ) where
  abbrev pub host : ℕ → ℕ
  host id = host_part crc64 (some id)

  -- Each entry is an address of its peer, and the two addresses with one host part have one peer.
  pub record IsRight (ips : List (ℕ × ℕ)) : Type 0 where
    pub right : (a id : ℕ) → lookup a ips ≡ some id → (a ≡ vlan4 (host id)) ⊎ (a ≡ vlan6 (host id))
    pub paired : (h : ℕ) → lookup (vlan4 h) ips ≡ lookup (vlan6 h) ips

  lookup-enter :
      (a id : ℕ) (ips : List (ℕ × ℕ))
      → lookup a (enter crc64 id ips) ≡ (
          if vlan6 (host id) == a
          then some id
          else if vlan4 (host id) == a
          then some id
          else lookup a ips)
  lookup-enter a id ips =
      rw
        (
          lookup-insert (vlan6 (host id)) a id (insert (vlan4 (host id)) id ips),
          lookup-insert (vlan4 (host id)) a id ips,
        )
        refl

  -- An entry after one is entered is the new one or an old one.
  entered-cases :
      (a id other : ℕ) (ips : List (ℕ × ℕ))
      → lookup a (enter crc64 id ips) ≡ some other
      → ((other ≡ id) × ((a ≡ vlan4 (host id)) ⊎ (a ≡ vlan6 (host id))))
        ⊎ (lookup a ips ≡ some other)
  entered-cases a id other ips e = elim (Bool-cases (vlan6 (host id) == a)) [
    | inl here ↦ inl (ground (arith, e, here, lookup-enter a id ips), inr (ground (arith, here)))
    | inr away ↦ elim (Bool-cases (vlan4 (host id) == a)) [
      | inl here ↦
          inl (ground (arith, e, here, away, lookup-enter a id ips), inl (ground (arith, here)))
      | inr far ↦ inr (ground (arith, e, far, away, lookup-enter a id ips))
    ]
  ]

  at_new :
      (a id other : ℕ)
      → (other ≡ id) × ((a ≡ vlan4 (host id)) ⊎ (a ≡ vlan6 (host id)))
      → (a ≡ vlan4 (host other)) ⊎ (a ≡ vlan6 (host other))
  at_new a id other (same, at) = rw same at

  enter-IsRight : (id : ℕ) (ips : List (ℕ × ℕ)) → IsRight ips → IsRight (enter crc64 id ips)
  enter-IsRight id ips r = record {
    right = λ a other e. elim (entered-cases a id other ips e) [
      | inl new ↦ at_new a id other new
      | inr old ↦ r.right a other old
    ];
    paired = λ h.
        ground (arith, lookup-enter (vlan4 h) id ips, lookup-enter (vlan6 h) id ips, r.paired h);
  }

  enter_peers-IsRight :
      (ids : List ℕ) (ips : List (ℕ × ℕ)) → IsRight ips → IsRight (enter_peers crc64 ids ips)
  unfolding enter_peers
  enter_peers-IsRight [] ips r = r
  enter_peers-IsRight (id ∷ ids) ips r =
      enter_peers-IsRight ids (enter crc64 id ips) (enter-IsRight id ips r)

  abbrev pub IsKnown : ℕ → List (ℕ × ℕ) → Type 0
  IsKnown a ips = (found : ℕ) × (lookup a ips ≡ some found)

  -- Entering a peer forgets no address.
  enter-IsKnown : (a id : ℕ) (ips : List (ℕ × ℕ)) → IsKnown a ips → IsKnown a (enter crc64 id ips)
  enter-IsKnown a id ips (found, e) = elim (Bool-cases (vlan6 (host id) == a)) [
    | inl here ↦ (id, ground (arith, here, lookup-enter a id ips))
    | inr away ↦ elim (Bool-cases (vlan4 (host id) == a)) [
      | inl here ↦ (id, ground (arith, here, away, lookup-enter a id ips))
      | inr far ↦ (found, ground (arith, e, far, away, lookup-enter a id ips))
    ]
  ]

  enter_peers-IsKnown :
      (a : ℕ) (ids : List ℕ) (ips : List (ℕ × ℕ))
      → IsKnown a ips
      → IsKnown a (enter_peers crc64 ids ips)
  unfolding enter_peers
  enter_peers-IsKnown a [] ips k = k
  enter_peers-IsKnown a (id ∷ ids) ips k =
      enter_peers-IsKnown a ids (enter crc64 id ips) (enter-IsKnown a id ips k)

  enter_peers-finds :
      (id : ℕ) (ids : List ℕ) (ips : List (ℕ × ℕ))
      → 1 ≤ occurs id ids
      → IsKnown (vlan4 (host id)) (enter_peers crc64 ids ips)
  unfolding enter_peers
  enter_peers-finds id [] ips h = absurd (omega arith)
  enter_peers-finds id (x ∷ ids) ips h = elim (Bool-cases (x == id)) [
    | inl here ↦
        let same : x ≡ id = ground (arith, here) in
        enter_peers-IsKnown (vlan4 (host id)) ids (enter crc64 x ips)
          (x, ground (arith, same, lookup-enter (vlan4 (host id)) x ips))
    | inr away ↦ enter_peers-finds id ids _ (ground (arith, h, away))
  ]

  -- What a call answers, with the map that it leaves.
  pub record IsAnswer (cluster : List ℕ) (a : ℕ) (answer : Option ℕ) (ips : List (ℕ × ℕ))
      : Type 0 where
    pub sound : (id : ℕ) → answer ≡ some id → (a ≡ vlan4 (host id)) ⊎ (a ≡ vlan6 (host id))
    pub complete :
        (id : ℕ)
        → 1 ≤ occurs id cluster
        → (a ≡ vlan4 (host id)) ⊎ (a ≡ vlan6 (host id))
        → (found : ℕ) × (answer ≡ some found)
    pub still_right : IsRight ips

  at_either :
      (id a : ℕ) (ips : List (ℕ × ℕ))
      → IsRight ips
      → IsKnown (vlan4 (host id)) ips
      → (a ≡ vlan4 (host id)) ⊎ (a ≡ vlan6 (host id))
      → IsKnown a ips
  at_either id a ips r (found, e) (inl four) = (found, rw four e)
  at_either id a ips r (found, e) (inr six) = (found, rw six (sym (r.paired (host id)) ∙ e))

  or_enter-IsAnswer :
      (cluster : List ℕ) (a : ℕ) (o : Option ℕ) (ips : List (ℕ × ℕ))
      → lookup a ips ≡ o
      → IsRight ips
      → IsAnswer cluster a (or_enter crc64 cluster a o ips).0 (or_enter crc64 cluster a o ips).1
  or_enter-IsAnswer cluster a (some known) ips e r = record {
    sound = λ id found. r.right a id (e ∙ found);
    complete = λ id h v. (known, refl);
    still_right = r;
  }
  or_enter-IsAnswer cluster a none ips e r =
      let entered = enter_peers-IsRight cluster ips r in
      record {
        sound = λ id found. entered.right a id found;
        complete = λ id h v.
            at_either id a (enter_peers crc64 cluster ips) entered
              (enter_peers-finds id cluster ips h) v;
        still_right = entered;
      }

  pub peer_id_by_virt_addr-IsAnswer :
      (cluster : List ℕ) (a : ℕ) (ips : List (ℕ × ℕ))
      → IsRight ips
      → IsAnswer cluster a
          (peer_id_by_virt_addr crc64 cluster a ips).0
          (peer_id_by_virt_addr crc64 cluster a ips).1
  unfolding peer_id_by_virt_addr
  peer_id_by_virt_addr-IsAnswer cluster a ips r =
      or_enter-IsAnswer cluster a (lookup a ips) ips refl r
