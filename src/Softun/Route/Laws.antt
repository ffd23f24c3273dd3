-- ===== src/Softun/Route/Laws.antt =====
-- Which peer gets a packet that softun/softun.go routes.
use peerscale.Prelude.{
  ℕ, ◌≤◌, ◌≡◌, ◌≢◌, refl, sym, inl, inr, ◌⊎◌, true, false, Option, List, [], ◌∷◌, ◌==◌, arith,
  Bool-cases, occurs, ap, ◌∙◌,
}
use peerscale.Softun.{Packet, Pending, clear_syn_pending_for_packet}
use peerscale.Softun.Route.{
  vlan4, to_peer, hairpinned, ignored, dropped, Routing, host_part, is_local_addr, route_to_peer,
  peer_action, by_dst, route_write,
}
use peerscale.Softun.Route.Known.{host, IsRight, peer_id_by_virt_addr-IsAnswer}
use peerscale.Softun.Route.Choice.{
  is_local-vlan4, HasAddress, by_dst-peer, sent_to, by_dst-to_peer, same_host, by_dst-IsRight,
  route_write-good,
}

module _ (crc64 : Option ℕ → ℕ) where
  -- Where a packet of the host goes, and what is left in peerIPs.
  pub record IsRouted (self : Option ℕ) (cluster : List ℕ) (pkt : Packet) (r : Routing)
      : Type 0 where
    pub to_owner :
        (id : ℕ)
        → r.action ≡ to_peer id
        → (pkt.is_valid ≡ true)
          × (pkt.is_group ≡ false)
          × (is_local_addr crc64 self pkt.dst ≡ false)
          × HasAddress crc64 id pkt.dst
    pub reaches :
        (id : ℕ)
        → (pkt.is_valid ≡ true) × (pkt.is_group ≡ false)
        → 1 ≤ occurs id cluster
        → HasAddress crc64 id pkt.dst
        → host crc64 id ≢ host_part crc64 self
        → (found : ℕ) × (r.action ≡ to_peer found) × (host crc64 found ≡ host crc64 id)
    pub hidden :
        (id : ℕ)
        → (pkt.is_valid ≡ true) × (pkt.is_group ≡ false)
        → pkt.dst ≡ vlan4 (host crc64 id)
        → host crc64 id ≡ host_part crc64 self
        → r.action ≡ hairpinned
    pub still_right : IsRight crc64 r.peer_ips

  -- What a packet needs to be passed on, or it changes nothing and goes nowhere.
  route_write-cases :
      (self : Option ℕ) (cluster : List ℕ) (pkt : Packet) (ips : List (ℕ × ℕ)) (m : Pending)
      → ((pkt.is_valid ≡ true) × (pkt.is_group ≡ false))
        ⊎ (((route_write crc64 self cluster pkt ips m).action ≡ ignored)
            × ((route_write crc64 self cluster pkt ips m).peer_ips ≡ ips))
        ⊎ (((route_write crc64 self cluster pkt ips m).action ≡ dropped)
            × ((route_write crc64 self cluster pkt ips m).peer_ips ≡ ips))
  unfolding route_write
  route_write-cases self cluster pkt ips m = elim (Bool-cases pkt.is_valid) [
    | inl v ↦ elim (Bool-cases pkt.is_group) [
      | inl g ↦ inr (inr (rw (v, g) (refl, refl)))
      | inr g ↦ inl (v, g)
    ]
    | inr v ↦ inr (inl (rw v (refl, refl)))
  ]

  route_write-to_peer :
      (self : Option ℕ) (cluster : List ℕ) (pkt : Packet) (id : ℕ) (ips : List (ℕ × ℕ))
      (m : Pending)
      → (route_write crc64 self cluster pkt ips m).action ≡ to_peer id
      → (pkt.is_valid ≡ true) × (pkt.is_group ≡ false)
  route_write-to_peer self cluster pkt id ips m e =
      elim (route_write-cases self cluster pkt ips m) [
        | inl ok ↦ ok
        | inr (inl (a, _)) ↦ absurd (ground (arith, a, e))
        | inr (inr (a, _)) ↦ absurd (ground (arith, a, e))
      ]

  route_write-IsRight :
      (self : Option ℕ) (cluster : List ℕ) (pkt : Packet) (ips : List (ℕ × ℕ)) (m : Pending)
      → IsRight crc64 ips
      → IsRight crc64 (route_write crc64 self cluster pkt ips m).peer_ips
  route_write-IsRight self cluster pkt ips m r = elim (route_write-cases self cluster pkt ips m) [
    | inl ok ↦
        rw (route_write-good crc64 self cluster pkt ips m ok)
          (by_dst-IsRight crc64 self cluster pkt.dst ips (clear_syn_pending_for_packet pkt m) r)
    | inr (inl (_, same)) ↦ rw same r
    | inr (inr (_, same)) ↦ rw same r
  ]

  sent_right :
      (self : Option ℕ) (cluster : List ℕ) (pkt : Packet) (id : ℕ) (ips : List (ℕ × ℕ))
      (m : Pending)
      → IsRight crc64 ips
      → (route_write crc64 self cluster pkt ips m).action ≡ to_peer id
      → (pkt.is_valid ≡ true)
        × (pkt.is_group ≡ false)
        × (is_local_addr crc64 self pkt.dst ≡ false)
        × HasAddress crc64 id pkt.dst
  sent_right self cluster pkt id ips m r e =
      let cleared : Pending = clear_syn_pending_for_packet pkt m in
      let (v, g) = route_write-to_peer self cluster pkt id ips m e in
      let chosen =
        sym (ap (λ t. t.action) (route_write-good crc64 self cluster pkt ips m (v, g))) ∙ e in
      let (away, to) = by_dst-to_peer crc64 self cluster pkt.dst id ips cleared chosen in
      let answer = peer_id_by_virt_addr-IsAnswer crc64 cluster pkt.dst ips r in
      (v, g, away, answer.sound id (sent_to crc64 cluster pkt.dst id ips cleared to))

  -- The peer found for an address that is a peer's is sent the packet.
  routed_to :
      (cluster : List ℕ) (a id : ℕ) (ips : List (ℕ × ℕ)) (m : Pending)
      → IsRight crc64 ips
      → 1 ≤ occurs id cluster
      → HasAddress crc64 id a
      → (found : ℕ) × ((route_to_peer crc64 cluster a ips m).action ≡ to_peer found)
        × (host crc64 found ≡ host crc64 id)
  unfolding route_to_peer
  routed_to cluster a id ips m r h v =
      let answer = peer_id_by_virt_addr-IsAnswer crc64 cluster a ips r in
      let (found, e) = answer.complete id h v in
      (found, ap peer_action e, same_host crc64 a id found v (answer.sound found e))

  reaches_owner :
      (self : Option ℕ) (cluster : List ℕ) (pkt : Packet) (id : ℕ) (ips : List (ℕ × ℕ))
      (m : Pending)
      → IsRight crc64 ips
      → (pkt.is_valid ≡ true) × (pkt.is_group ≡ false)
      → 1 ≤ occurs id cluster
      → HasAddress crc64 id pkt.dst
      → host crc64 id ≢ host_part crc64 self
      → (found : ℕ) × ((route_write crc64 self cluster pkt ips m).action ≡ to_peer found)
        × (host crc64 found ≡ host crc64 id)
  reaches_owner self cluster pkt id ips m r ok h v far =
      let cleared : Pending = clear_syn_pending_for_packet pkt m in
      let (found, e, same) = routed_to cluster pkt.dst id ips cleared r h v in
      let chosen =
        route_write-good crc64 self cluster pkt ips m ok
        ∙ by_dst-peer crc64 self cluster id pkt.dst ips cleared v far in
      (found, ap (λ t. t.action) chosen ∙ e, same)

  hairpins_namesake :
      (self : Option ℕ) (cluster : List ℕ) (a id : ℕ) (ips : List (ℕ × ℕ)) (m : Pending)
      → a ≡ vlan4 (host crc64 id)
      → host crc64 id ≡ host_part crc64 self
      → (by_dst crc64 self cluster a ips m).action ≡ hairpinned
  hairpins_namesake self cluster a id ips m at same =
      let mine : (host crc64 id == host_part crc64 self) ≡ true = ground (arith, same) in
      rw (at, is_local-vlan4 crc64 self (host crc64 id) ∙ mine) refl

  route_write-IsRouted :
      (self : Option ℕ) (cluster : List ℕ) (pkt : Packet) (ips : List (ℕ × ℕ)) (m : Pending)
      → IsRight crc64 ips
      → IsRouted self cluster pkt (route_write crc64 self cluster pkt ips m)
  route_write-IsRouted self cluster pkt ips m r = record {
    to_owner = λ id e. sent_right self cluster pkt id ips m r e;
    reaches = λ id ok h v far. reaches_owner self cluster pkt id ips m r ok h v far;
    hidden = λ id ok at same.
        ap (λ t. t.action) (route_write-good crc64 self cluster pkt ips m ok)
        ∙ hairpins_namesake self cluster pkt.dst id ips (clear_syn_pending_for_packet pkt m) at
            same;
    still_right = route_write-IsRight self cluster pkt ips m r;
  }

  -- The map and the markers after packets of the host, each with the peer ID that is known and the
  -- cluster at that time.
  abbrev pub after_packets :
      List (Option ℕ × List ℕ × Packet) → List (ℕ × ℕ) → Pending → List (ℕ × ℕ) × Pending
  after_packets [] ips m = (ips, m)
  after_packets ((self, cluster, pkt) ∷ calls) ips m =
      let r : Routing = route_write crc64 self cluster pkt ips m in
      after_packets calls r.peer_ips r.pending

  after_packets-IsRight :
      (calls : List (Option ℕ × List ℕ × Packet)) (ips : List (ℕ × ℕ)) (m : Pending)
      → IsRight crc64 ips
      → IsRight crc64 (after_packets calls ips m).0
  after_packets-IsRight [] ips m r = r
  after_packets-IsRight ((self, cluster, pkt) ∷ calls) ips m r =
      after_packets-IsRight calls _ _ (route_write-IsRight self cluster pkt ips m r)

  -- Over any packets, from the empty map on and whatever the cluster is at each: a packet that goes
  -- to a peer is valid, not for a group, not for this host, and for an IPv4 or IPv6 address of that
  -- peer. One to either address of a peer of the cluster goes to a peer with the same host part, if
  -- that is not this host's. If it is, a packet to the IPv4 address of that peer is looped back to
  -- this host.
  pub after_packets-IsRouted :
      (calls : List (Option ℕ × List ℕ × Packet)) (self : Option ℕ) (cluster : List ℕ)
      (pkt : Packet)
      → let (ips, m) = after_packets calls [] [] in
        IsRouted self cluster pkt (route_write crc64 self cluster pkt ips m)
  after_packets-IsRouted calls self cluster pkt =
      let empty : IsRight crc64 [] = record {
        right = λ a id e. ground (arith, e);
        paired = λ h. refl;
      } in
      route_write-IsRouted self cluster pkt (after_packets calls [] []).0
        (after_packets calls [] []).1 (after_packets-IsRight calls [] [] empty)
