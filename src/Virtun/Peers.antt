-- ===== src/Virtun/Peers.antt =====
-- peeridByConnIP of fbvirtun/virtun_tcp.go: which peer has a virtual address. The CRC-64 of a peer ID
-- is an argument, an IPv4 address is a number.
use peerscale.Prelude.{
  ℕ, ◌+◌, ◌*◌, ◌%◌, ◌^◌, ◌≤◌, ◌≡◌, refl, inl, inr, Option, none, some, List, [], ◌∷◌, ◌==◌,
  if◌then◌else◌, arith, Bool-cases, occurs, ltb, ◌∙◌, subst,
}
use peerscale.Dict.{lookup, insert}
use peerscale.Dict.Laws.{lookup-insert}
use peerscale.Runtime.{SortSlice}

module _ (crc64 : ℕ → ℕ) where
  -- StringToHostPart
  unfoldable pub host_part : ℕ → ℕ
  host_part id = crc64 id % 253 + 2

  -- VlanPfx with the host part behind it.
  unfoldable pub virtual_ip : ℕ → ℕ → ℕ
  unfolding host_part
  virtual_ip vlan id = vlan * 256 + host_part id

  -- The loop that enters the peers of the cluster; a later one takes the place of an earlier one.
  unfoldable pub enter_peers : ℕ → List ℕ → List (ℕ × ℕ) → List (ℕ × ℕ)
  unfolding virtual_ip
  enter_peers vlan [] ips = ips
  enter_peers vlan (id ∷ ids) ips = enter_peers vlan ids (insert (virtual_ip vlan id) id ips)

  abbrev pub or_enter : ℕ → ℕ → List ℕ → Option ℕ → List (ℕ × ℕ) → Option ℕ × List (ℕ × ℕ)
  or_enter vlan ip ids (some id) ips = (some id, ips)
  or_enter vlan ip ids none ips = (lookup ip (enter_peers vlan ids ips), enter_peers vlan ids ips)

  -- The peer with the address, and the map. `cluster` is what GetClusterPeers gives.
  unfoldable pub peer_by_ip : ℕ → List ℕ → ℕ → List (ℕ × ℕ) → Option ℕ × List (ℕ × ℕ)
  unfolding enter_peers
  peer_by_ip vlan cluster ip ips = or_enter vlan ip cluster (lookup ip ips) ips

  abbrev pub loopback : ℕ
  loopback = 127 * 2 ^ 24 + 1

  -- peeridByConnIP sorts the peers first, and knows nobody for 127.0.0.1.
  unfoldable pub peerid_by_conn_ip :
      SortSlice ℕ → ℕ → List ℕ → ℕ → List (ℕ × ℕ) → Option ℕ × List (ℕ × ℕ)
  unfolding peer_by_ip
  peerid_by_conn_ip slice vlan cluster ip ips =
      if ip == loopback then (none, ips) else peer_by_ip vlan (slice.sort ltb cluster) ip ips

  -- Every address in the map is that of its peer.
  pub record IsRight (vlan : ℕ) (ips : List (ℕ × ℕ)) : Type 0 where
    pub right : (ip id : ℕ) → lookup ip ips ≡ some id → virtual_ip vlan id ≡ ip

  insert-IsRight :
      (vlan id : ℕ) (ips : List (ℕ × ℕ))
      → IsRight vlan ips
      → IsRight vlan (insert (virtual_ip vlan id) id ips)
  insert-IsRight vlan id ips r = record {
    right = λ ip other e. elim (Bool-cases (virtual_ip vlan id == ip)) [
      | inl here ↦ ground (arith, e, here, lookup-insert (virtual_ip vlan id) ip id ips)
      | inr away ↦
          r.right ip other (ground (arith, e, away, lookup-insert (virtual_ip vlan id) ip id ips))
    ];
  }

  enter_peers-IsRight :
      (vlan : ℕ) (ids : List ℕ) (ips : List (ℕ × ℕ))
      → IsRight vlan ips
      → IsRight vlan (enter_peers vlan ids ips)
  unfolding enter_peers
  enter_peers-IsRight vlan [] ips r = r
  enter_peers-IsRight vlan (id ∷ ids) ips r =
      enter_peers-IsRight vlan ids (insert (virtual_ip vlan id) id ips)
        (insert-IsRight vlan id ips r)

  -- Entering peers forgets no address.
  stays_known :
      (vlan ip id : ℕ) (ids : List ℕ) (ips : List (ℕ × ℕ))
      → lookup ip ips ≡ some id
      → (found : ℕ) × (lookup ip (enter_peers vlan ids ips) ≡ some found)
  unfolding enter_peers
  stays_known vlan ip id [] ips e = (id, e)
  stays_known vlan ip id (x ∷ ids) ips e = elim (Bool-cases (virtual_ip vlan x == ip)) [
    | inl here ↦
        stays_known vlan ip x ids (insert (virtual_ip vlan x) x ips)
          (ground (arith, here, lookup-insert (virtual_ip vlan x) ip x ips))
    | inr away ↦
        stays_known vlan ip id ids (insert (virtual_ip vlan x) x ips)
          (ground (arith, e, away, lookup-insert (virtual_ip vlan x) ip x ips))
  ]

  becomes_known :
      (vlan id : ℕ) (ids : List ℕ) (ips : List (ℕ × ℕ))
      → 1 ≤ occurs id ids
      → (found : ℕ) × (lookup (virtual_ip vlan id) (enter_peers vlan ids ips) ≡ some found)
  unfolding enter_peers
  becomes_known vlan id [] ips h = absurd (omega arith)
  becomes_known vlan id (x ∷ ids) ips h = elim (Bool-cases (x == id)) [
    | inl here ↦
        let same : x ≡ id = ground (arith, here) in
        stays_known vlan (virtual_ip vlan id) x ids (insert (virtual_ip vlan x) x ips)
          (ground (arith, same, lookup-insert (virtual_ip vlan x) (virtual_ip vlan id) x ips))
    | inr away ↦ becomes_known vlan id ids _ (ground (arith, h, away))
  ]

  -- An answer is right, there is one if a peer of the cluster has the address, and it is the answer
  -- of the next call, if that is for the same address.
  pub record IsAnswer (vlan : ℕ) (cluster : List ℕ) (ip : ℕ) (answer : Option ℕ)
      (ips : List (ℕ × ℕ)) : Type 0 where
    pub sound : (id : ℕ) → answer ≡ some id → virtual_ip vlan id ≡ ip
    pub complete :
        (id : ℕ)
        → 1 ≤ occurs id cluster
        → virtual_ip vlan id ≡ ip
        → (found : ℕ) × (answer ≡ some found)
    pub kept :
        (id : ℕ) (later : List ℕ) → answer ≡ some id → peer_by_ip vlan later ip ips ≡ (some id, ips)
    pub still_right : IsRight vlan ips

  known_kept :
      (vlan ip id : ℕ) (later : List ℕ) (ips : List (ℕ × ℕ))
      → lookup ip ips ≡ some id
      → peer_by_ip vlan later ip ips ≡ (some id, ips)
  unfolding peer_by_ip
  known_kept vlan ip id later ips e = rw e refl

  or_enter-IsAnswer :
      (vlan : ℕ) (cluster : List ℕ) (ip : ℕ) (o : Option ℕ) (ips : List (ℕ × ℕ))
      → lookup ip ips ≡ o
      → IsRight vlan ips
      → IsAnswer vlan cluster ip
          (or_enter vlan ip cluster o ips).0
          (or_enter vlan ip cluster o ips).1
  or_enter-IsAnswer vlan cluster ip (some known) ips e r = record {
    sound = λ id a. r.right ip id (e ∙ a);
    complete = λ id h v. (known, refl);
    kept = λ id later a. known_kept vlan ip id later ips (e ∙ a);
    still_right = r;
  }
  or_enter-IsAnswer vlan cluster ip none ips e r =
      let entered = enter_peers-IsRight vlan cluster ips r in
      record {
        sound = λ id a. entered.right ip id a;
        complete = λ id h v.
            subst (λ n. (found : ℕ) × (lookup n (enter_peers vlan cluster ips) ≡ some found)) v
              (becomes_known vlan id cluster ips h);
        kept = λ id later a. known_kept vlan ip id later (enter_peers vlan cluster ips) a;
        still_right = entered;
      }

  peer_by_ip-IsAnswer :
      (vlan : ℕ) (cluster : List ℕ) (ip : ℕ) (ips : List (ℕ × ℕ))
      → IsRight vlan ips
      → IsAnswer vlan cluster ip
          (peer_by_ip vlan cluster ip ips).0
          (peer_by_ip vlan cluster ip ips).1
  unfolding peer_by_ip
  peer_by_ip-IsAnswer vlan cluster ip ips r =
      or_enter-IsAnswer vlan cluster ip (lookup ip ips) ips refl r

  abbrev pub after_calls : ℕ → List (List ℕ × ℕ) → List (ℕ × ℕ) → List (ℕ × ℕ)
  after_calls vlan [] ips = ips
  after_calls vlan ((cluster, ip) ∷ calls) ips =
      after_calls vlan calls (peer_by_ip vlan cluster ip ips).1

  after_calls-IsRight :
      (vlan : ℕ) (calls : List (List ℕ × ℕ)) (ips : List (ℕ × ℕ))
      → IsRight vlan ips
      → IsRight vlan (after_calls vlan calls ips)
  after_calls-IsRight vlan [] ips r = r
  after_calls-IsRight vlan ((cluster, ip) ∷ calls) ips r =
      after_calls-IsRight vlan calls _ (peer_by_ip-IsAnswer vlan cluster ip ips r).still_right

  -- Over any calls, from the empty map on and whatever the cluster is at each: the peer that is found
  -- for an address has that address, and one is found if a peer of the cluster has it. If the next
  -- call is for the same address, it finds the same peer and leaves the map as it is, whatever the
  -- cluster is by then.
  pub after_calls-IsAnswer :
      (vlan : ℕ) (calls : List (List ℕ × ℕ)) (cluster : List ℕ) (ip : ℕ)
      → IsAnswer vlan cluster ip
          (peer_by_ip vlan cluster ip (after_calls vlan calls [])).0
          (peer_by_ip vlan cluster ip (after_calls vlan calls [])).1
  after_calls-IsAnswer vlan calls cluster ip =
      peer_by_ip-IsAnswer vlan cluster ip (after_calls vlan calls [])
        (after_calls-IsRight vlan calls [] (record { right = λ k id e. ground (arith, e) }))
