-- ===== src/Softun/Route.antt =====
-- Where softun/softun.go sends a packet of the host: routeWrite and the map of virtual addresses.
-- A netip.Addr is a number, an even one for IPv4 and an odd one for IPv6; the text that is the key of
-- peerIPs stands for it. A peer ID is `some` of a number, the empty string is `none`. The CRC-64 of a
-- peer ID is an argument.
pub mod Known
pub mod Choice
pub mod Laws
use peerscale.Prelude.{
  ℕ, ◌+◌, ◌*◌, ◌/◌, ◌%◌, ◌^◌, Bool, true, false, not, ◌&&◌, ◌||◌, Option, none, some, List, [], ◌∷◌,
  ◌==◌, if◌then◌else◌,
}
use peerscale.Dict.{lookup, insert}
use peerscale.Softun.{Packet, Pending, clear_syn_pending_for_packet}

abbrev pub v4 : ℕ → ℕ
v4 n = 2 * n

abbrev pub v6 : ℕ → ℕ
v6 n = 2 * n + 1

abbrev pub is4 : ℕ → Bool
is4 a = a % 2 == 0

abbrev is4_in6 : ℕ → Bool
is4_in6 a = not (is4 a) && a / 2 / 2 ^ 32 == 0xffff

-- 10.0.0.h and fd00::h
abbrev pub vlan4 : ℕ → ℕ
vlan4 h = v4 (10 * 2 ^ 24 + h)

abbrev pub vlan6 : ℕ → ℕ
vlan6 h = v6 (0xfd * 2 ^ 120 + h)

unfoldable pub vlan_contains4 : ℕ → Bool
vlan_contains4 a = is4 a && a / 2 / 2 ^ 8 == 10 * 2 ^ 16

unfoldable pub vlan_contains6 : ℕ → Bool
vlan_contains6 a = not (is4 a) && (not (is4_in6 a) && a / 2 / 2 ^ 64 == 0xfd * 2 ^ 56)

-- What routeWrite does with a packet; `to_peer id` is the call of WriteToPeer, whose error it returns.
pub data Action : Type 0 where
  ignored dropped hairpinned : Action
  to_peer : ℕ → Action

pub record Routing : Type 0 where
  pub action : Action
  pub peer_ips : List (ℕ × ℕ)
  pub pending : Pending

abbrev pub peer_action : Option ℕ → Action
peer_action none = dropped
peer_action (some id) = to_peer id

abbrev stays : Action → List (ℕ × ℕ) → Pending → Routing
stays act ips m = record { action = act; peer_ips = ips; pending = m }

module _ (crc64 : Option ℕ → ℕ) where
  -- StringToHostPart
  unfoldable pub host_part : Option ℕ → ℕ
  host_part id = crc64 id % 253 + 2

  unfoldable pub local_ip : Option ℕ → ℕ
  unfolding host_part
  local_ip self = vlan4 (host_part self)

  unfoldable pub local_ipv6_of : Option ℕ → Option ℕ
  unfolding host_part
  local_ipv6_of none = none
  local_ipv6_of (some id) = some (vlan6 (host_part (some id)))

  abbrev is_at : Option ℕ → ℕ → Bool
  is_at none a = false
  is_at (some b) a = a == b

  unfoldable pub is_local_addr : Option ℕ → ℕ → Bool
  unfolding local_ip local_ipv6_of
  is_local_addr self a = a == local_ip self || is_at (local_ipv6_of self) a

  abbrev pub enter : ℕ → List (ℕ × ℕ) → List (ℕ × ℕ)
  enter id ips =
      insert (vlan6 (host_part (some id))) id (insert (vlan4 (host_part (some id))) id ips)

  -- The loop of peerIDByVirtAddr over the peers of the cluster.
  unfoldable pub enter_peers : List ℕ → List (ℕ × ℕ) → List (ℕ × ℕ)
  unfolding host_part
  enter_peers [] ips = ips
  enter_peers (id ∷ ids) ips = enter_peers ids (enter id ips)

  abbrev pub or_enter : List ℕ → ℕ → Option ℕ → List (ℕ × ℕ) → Option ℕ × List (ℕ × ℕ)
  or_enter cluster a (some id) ips = (some id, ips)
  or_enter cluster a none ips = (lookup a (enter_peers cluster ips), enter_peers cluster ips)

  -- `cluster` is what GetClusterPeers gives.
  unfoldable pub peer_id_by_virt_addr : List ℕ → ℕ → List (ℕ × ℕ) → Option ℕ × List (ℕ × ℕ)
  unfolding enter_peers
  peer_id_by_virt_addr cluster a ips = or_enter cluster a (lookup a ips) ips

  unfoldable pub route_to_peer : List ℕ → ℕ → List (ℕ × ℕ) → Pending → Routing
  unfolding peer_id_by_virt_addr
  route_to_peer cluster dst ips m =
      let (found, ips') = peer_id_by_virt_addr cluster dst ips in
      record { action = peer_action found; peer_ips = ips'; pending = m }

  -- The choice by the destination.
  abbrev pub by_dst : Option ℕ → List ℕ → ℕ → List (ℕ × ℕ) → Pending → Routing
  by_dst self cluster dst ips m =
      if is_local_addr self dst
      then stays hairpinned ips m
      else if is4 dst
      then (if not (vlan_contains4 dst)
          then stays dropped ips m
          else route_to_peer cluster dst ips m)
      else if is4_in6 dst || not (vlan_contains6 dst)
      then stays dropped ips m
      else route_to_peer cluster dst ips m

  unfoldable pub route_write : Option ℕ → List ℕ → Packet → List (ℕ × ℕ) → Pending → Routing
  unfolding route_to_peer is_local_addr vlan_contains4 vlan_contains6 clear_syn_pending_for_packet
  route_write self cluster pkt ips m =
      if not pkt.is_valid
      then stays ignored ips m
      else if pkt.is_group
      then stays dropped ips m
      else by_dst self cluster pkt.dst ips (clear_syn_pending_for_packet pkt m)
