-- ===== src/Softun/Route/Choice.antt =====
-- What routeWrite of softun/softun.go chooses by the destination of a packet.
use peerscale.Prelude.{
  ℕ, ◌/◌, ◌^◌, ◌<◌, ◌≡◌, ◌≢◌, refl, inl, inr, ◌⊎◌, true, false, Option, none, some, List, ◌==◌,
  arith, ◌∙◌,
}
use peerscale.Softun.{Packet, Pending, clear_syn_pending_for_packet}
use peerscale.Softun.Route.{
  vlan4, vlan6, is4, vlan_contains4, vlan_contains6, to_peer, host_part, local_ip, local_ipv6_of,
  is_local_addr, route_to_peer, peer_action, by_dst, route_write, peer_id_by_virt_addr,
}
use peerscale.Softun.Route.Known.{host, IsRight, peer_id_by_virt_addr-IsAnswer}

module _ (crc64 : Option ℕ → ℕ) where
  host_part-bound : (id : Option ℕ) → host_part crc64 id < 256
  unfolding host_part
  host_part-bound id = omega arith

  contains4 : (h : ℕ) → h < 256 → vlan_contains4 (vlan4 h) ≡ true
  unfolding vlan_contains4
  contains4 h b = ground (arith, b)

  contains6 : (h : ℕ) → h < 256 → vlan_contains6 (vlan6 h) ≡ true
  unfolding vlan_contains6
  contains6 h b = ground (arith, b)

  pub is_local-vlan4 :
      (self : Option ℕ) (h : ℕ) → is_local_addr crc64 self (vlan4 h) ≡ (h == host_part crc64 self)
  unfolding is_local_addr local_ip local_ipv6_of
  is_local-vlan4 none h = ground arith
  is_local-vlan4 (some s) h = ground arith

  is_local-vlan6 :
      (self : Option ℕ) (h : ℕ)
      → (h == host_part crc64 self) ≡ false
      → is_local_addr crc64 self (vlan6 h) ≡ false
  unfolding is_local_addr local_ip local_ipv6_of
  is_local-vlan6 none h away = ground (arith, away)
  is_local-vlan6 (some s) h away = ground (arith, away)

  abbrev pub HasAddress : ℕ → ℕ → Type 0
  HasAddress id a = (a ≡ vlan4 (host crc64 id)) ⊎ (a ≡ vlan6 (host crc64 id))

  pub by_dst-peer :
      (self : Option ℕ) (cluster : List ℕ) (id a : ℕ) (ips : List (ℕ × ℕ)) (m : Pending)
      → HasAddress id a
      → host crc64 id ≢ host_part crc64 self
      → by_dst crc64 self cluster a ips m ≡ route_to_peer crc64 cluster a ips m
  by_dst-peer self cluster id a ips m (inl four) away =
      let h : ℕ = host crc64 id in
      let far : (h == host_part crc64 self) ≡ false = ground (arith, away) in
      let elsewhere : is_local_addr crc64 self (vlan4 h) ≡ false = is_local-vlan4 self h ∙ far in
      let even : is4 (vlan4 h) ≡ true = ground arith in
      rw (four, elsewhere, even, contains4 h (host_part-bound (some id))) refl
  by_dst-peer self cluster id a ips m (inr six) away =
      let h : ℕ = host crc64 id in
      let far : (h == host_part crc64 self) ≡ false = ground (arith, away) in
      let elsewhere : is_local_addr crc64 self (vlan6 h) ≡ false = is_local-vlan6 self h far in
      let odd : is4 (vlan6 h) ≡ false = ground arith in
      let unmapped : (vlan6 h / 2 / 2 ^ 32 == 0xffff) ≡ false = ground arith in
      rw (six, elsewhere, odd, unmapped, contains6 h (host_part-bound (some id))) refl

  peer_of : (o : Option ℕ) (id : ℕ) → peer_action o ≡ to_peer id → o ≡ some id
  peer_of none id e = ground (arith, e)
  peer_of (some q) id e = ground (arith, e)

  pub sent_to :
      (cluster : List ℕ) (a id : ℕ) (ips : List (ℕ × ℕ)) (m : Pending)
      → (route_to_peer crc64 cluster a ips m).action ≡ to_peer id
      → (peer_id_by_virt_addr crc64 cluster a ips).0 ≡ some id
  unfolding route_to_peer
  sent_to cluster a id ips m e = peer_of (peer_id_by_virt_addr crc64 cluster a ips).0 id e

  pub by_dst-to_peer :
      (self : Option ℕ) (cluster : List ℕ) (a id : ℕ) (ips : List (ℕ × ℕ)) (m : Pending)
      → (by_dst crc64 self cluster a ips m).action ≡ to_peer id
      → (is_local_addr crc64 self a ≡ false)
        × ((route_to_peer crc64 cluster a ips m).action ≡ to_peer id)
  by_dst-to_peer self cluster a id ips m e = ground (arith, e)

  pub same_host :
      (a id other : ℕ) → HasAddress id a → HasAddress other a → host crc64 other ≡ host crc64 id
  same_host a id other (inl p) (inl q) = omega (arith, p, q)
  same_host a id other (inl p) (inr q) = absurd (omega (arith, p, q))
  same_host a id other (inr p) (inl q) = absurd (omega (arith, p, q))
  same_host a id other (inr p) (inr q) = omega (arith, p, q)

  -- A packet is routed or not; peerIPs only changes if it is.
  by_dst-peer_ips :
      (self : Option ℕ) (cluster : List ℕ) (a : ℕ) (ips : List (ℕ × ℕ)) (m : Pending)
      → ((by_dst crc64 self cluster a ips m).peer_ips ≡ ips)
        ⊎ ((by_dst crc64 self cluster a ips m).peer_ips
            ≡ (route_to_peer crc64 cluster a ips m).peer_ips)
  by_dst-peer_ips self cluster a ips m = ground arith

  route_to_peer-IsRight :
      (cluster : List ℕ) (a : ℕ) (ips : List (ℕ × ℕ)) (m : Pending)
      → IsRight crc64 ips
      → IsRight crc64 (route_to_peer crc64 cluster a ips m).peer_ips
  unfolding route_to_peer
  route_to_peer-IsRight cluster a ips m r =
      (peer_id_by_virt_addr-IsAnswer crc64 cluster a ips r).still_right

  pub by_dst-IsRight :
      (self : Option ℕ) (cluster : List ℕ) (a : ℕ) (ips : List (ℕ × ℕ)) (m : Pending)
      → IsRight crc64 ips
      → IsRight crc64 (by_dst crc64 self cluster a ips m).peer_ips
  by_dst-IsRight self cluster a ips m r = elim (by_dst-peer_ips self cluster a ips m) [
    | inl same ↦ rw same r
    | inr routed ↦ rw routed (route_to_peer-IsRight cluster a ips m r)
  ]

  pub route_write-good :
      (self : Option ℕ) (cluster : List ℕ) (pkt : Packet) (ips : List (ℕ × ℕ)) (m : Pending)
      → (pkt.is_valid ≡ true) × (pkt.is_group ≡ false)
      → route_write crc64 self cluster pkt ips m
        ≡ by_dst crc64 self cluster pkt.dst ips (clear_syn_pending_for_packet pkt m)
  unfolding route_write
  route_write-good self cluster pkt ips m (v, g) = rw (v, g) refl
