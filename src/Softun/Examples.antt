-- ===== src/Softun/Examples.antt =====
-- A SYN to a port on which the stack listens, and one that it drops.
use peerscale.Prelude.{
  ℕ, Option, none, some, ◌≡◌, refl, true, false, not, ◌&&◌, leb, length, take, [], ◌∷◌, List, arith,
}
use peerscale.Softun.{tcp, Packet, SynKey, is_pending, handle_inbound_tcp}
use peerscale.Softun.Udp.{
  Datagram, delivered, handle_inbound_udp, udp_payload, handle_inbound_udp-udp_payload,
}
use peerscale.Softun.Route.{vlan4, vlan6, to_peer, hairpinned, route_write}
use peerscale.Softun.Route.Laws.{IsRouted, after_packets, after_packets-IsRouted}
use peerscale.Softun.Refusal.{any_accepts, handle_inbound_tcp-refused}

-- From port 300 to port 80.
abbrev syn : Packet
syn = record {
  is_valid = true;
  is_group = false;
  src = 7;
  dst = 2;
  protocol = tcp;
  payload = 1 ∷ 44 ∷ 0 ∷ 80 ∷ 0 ∷ 0 ∷ 0 ∷ 0 ∷ 0 ∷ 0 ∷ 0 ∷ 0 ∷ 80 ∷ 2 ∷ 4 ∷ 0 ∷ 0 ∷ 0 ∷ 0 ∷ 0 ∷ [];
  syn = true;
  ack = false;
  parses = true;
}

abbrev syn_ack : Packet
syn_ack = record {
  is_valid = true;
  is_group = false;
  src = 2;
  dst = 7;
  protocol = tcp;
  payload = 0 ∷ 80 ∷ 1 ∷ 44 ∷ 0 ∷ 0 ∷ 0 ∷ 0 ∷ 0 ∷ 0 ∷ 0 ∷ 0 ∷ 80 ∷ 18 ∷ [];
  syn = true;
  ack = true;
  parses = true;
}

abbrev key : SynKey
key = record { remote = 7; remote_port = 300; local_port = 80 }

handle_inbound_tcp-refused_example :
    let r = handle_inbound_tcp 9 (record syn_ack { dst = 8 } ∷ []) syn [] in
    (r.consumed ≡ true)
    × (r.refused ≡ (
        not (any_accepts key (record syn_ack { dst = 8 } ∷ []))
        && (leb 20 (length syn.payload) && syn.parses)))
    × (is_pending key r.pending ≡ false)
handle_inbound_tcp-refused_example =
    handle_inbound_tcp-refused 9 (record syn_ack { dst = 8 } ∷ []) syn 1 44 0 80 _ [] (refl, refl)
      refl (omega arith)

accepted : (handle_inbound_tcp 9 (syn_ack ∷ []) syn []).refused ≡ false
unfolding handle_inbound_tcp
accepted = refl

-- A SYN that ends before byte 20 gets no answer at all.
unanswered :
    (handle_inbound_tcp 9 [] (record syn { payload = take 14 syn.payload }) []).refused ≡ false
unfolding handle_inbound_tcp
unanswered = refl

dropped : (handle_inbound_tcp 9 [] syn []).refused ≡ true
unfolding handle_inbound_tcp
dropped = refl

abbrev waiting : List Datagram
waiting = record { content = 1 ∷ []; remote = 4; remote_port = 9 } ∷ []

handle_inbound_udp-udp_payload_example :
    handle_inbound_udp 7 (udp_payload 5000 53 1 2 (10 ∷ 20 ∷ [])) ((53, waiting) ∷ []) ≡ (
      delivered,
      (
        53,
        record { content = 1 ∷ []; remote = 4; remote_port = 9 }
            ∷ record { content = 10 ∷ 20 ∷ []; remote = 7; remote_port = 5000 }
            ∷ [],
      )
          ∷ [],
    )
handle_inbound_udp-udp_payload_example =
    handle_inbound_udp-udp_payload 7 5000 53 1 2 (10 ∷ 20 ∷ []) waiting ((53, waiting) ∷ [])
      (omega arith, omega arith) (omega arith) refl (omega arith)

abbrev crc64 : Option ℕ → ℕ
crc64 none = 0
crc64 (some n) = n

abbrev to_7 : Packet
to_7 = record syn_ack { dst = vlan4 7 }

-- Peers 5 and 258 have one host part.
abbrev before : List (Option ℕ × List ℕ × Packet)
before = (none, 9 ∷ [], record syn_ack { dst = vlan6 7 }) ∷ []

after_packets-IsRouted_example :
    let (ips, m) = after_packets crc64 before [] [] in
    IsRouted crc64
      (some 30)
      (5 ∷ 258 ∷ [])
      to_7
      (route_write crc64 (some 30) (5 ∷ 258 ∷ []) to_7 ips m)
after_packets-IsRouted_example = after_packets-IsRouted crc64 before (some 30) (5 ∷ 258 ∷ []) to_7

goes_to_258 : (route_write crc64 (some 30) (5 ∷ 258 ∷ []) to_7 [] []).action ≡ to_peer 258
unfolding route_write
goes_to_258 = refl

-- While the host's own ID is not known, 10.0.0.2 is taken for its address.
loops_back :
    (route_write crc64 none (253 ∷ []) (record syn_ack { dst = vlan4 2 }) [] []).action ≡ hairpinned
unfolding route_write
loops_back = refl
