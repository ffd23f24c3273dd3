-- ===== src/StablePeers.antt =====
-- The peers that the node stays in touch with, of p2put/stable_peers.go: a map of at most 32 peers
-- that connection events keep. Each function reads the clock once, as `now`; the first use of
-- `is_bootstrap_peer` fills the source's map of bootstrap peers, which does not change after that.
pub mod Online
pub mod Bound
pub mod Listing
mod Examples
use peerscale.Prelude.{
  ℕ, ◌+◌, ◌-◌, ◌*◌, Bool, true, false, not, ◌&&◌, ◌||◌, Option, none, some, List, [], ◌∷◌, map,
  ◌==◌, ltb, leb, if◌then◌else◌, length, keep,
}
use peerscale.Dict.{lookup, has_key, insert, erase, adjust}
use peerscale.Runtime.{Float64, SortSlice, second}

abbrev pub max_stable_peers : ℕ
max_stable_peers = 32

-- The values of libp2p's network.Connectedness.
pub data Connectedness : Type 0 where
  not_connected connected can_connect cannot_connect limited : Connectedness

pub record StableInfo : Type 0 where
  pub first_seen : ℕ
  pub online_since : ℕ
  pub total_online : ℕ
  pub last_seen : ℕ
  pub conn_count : ℕ
  pub disconn_count : ℕ
  pub avg_latency : ℕ

-- The map of bootstrap peers. `parse` is the multiaddr library's, from an entry of the
-- configuration to a peer ID.
unfoldable pub bootstrap_peer_ids : (ℕ → Option ℕ) → List ℕ → List (ℕ × Unit {0})
bootstrap_peer_ids parse [] = []
bootstrap_peer_ids parse (s ∷ ss) =
    let rest = bootstrap_peer_ids parse ss in
    elim (parse s) [ none ↦ rest | some id ↦ insert id tt rest ]

unfoldable pub is_bootstrap_peer : (ℕ → Option ℕ) → List ℕ → ℕ → Bool
unfolding bootstrap_peer_ids
is_bootstrap_peer parse bootstrap id = has_key id (bootstrap_peer_ids parse bootstrap)

-- When a peer was last there, for evictOne.
unfoldable pub eviction_time : StableInfo → ℕ
eviction_time si = if si.last_seen == 0 then si.first_seen else si.last_seen

-- The loop of evictOne. The accumulator is the victim so far and its time; none while `first`.
unfoldable pub oldest_of : Option (ℕ × ℕ) → List (ℕ × StableInfo) → Option (ℕ × ℕ)
unfolding eviction_time
oldest_of best [] = best
oldest_of none ((id, si) ∷ m) = oldest_of (some (id, eviction_time si)) m
oldest_of (some (victim, oldest)) ((id, si) ∷ m) =
    oldest_of
      (if ltb (eviction_time si) oldest then some (id, eviction_time si) else some (victim, oldest))
      m

unfoldable pub evict_one : List (ℕ × StableInfo) → List (ℕ × StableInfo)
unfolding oldest_of
evict_one m = elim (oldest_of none m) [ none ↦ m | some (victim, oldest) ↦ erase victim m ]

-- The two cases of the event on the entry of its peer.
unfoldable pub connect : ℕ → StableInfo → StableInfo
connect now si = record si {
  online_since = if si.online_since == 0 then now else si.online_since;
  conn_count = si.conn_count + 1;
}

unfoldable pub disconnect : ℕ → StableInfo → StableInfo
disconnect now si = record si {
  total_online =
      if si.online_since == 0 then si.total_online else si.total_online + (now - si.online_since);
  online_since = 0;
  last_seen = now;
  disconn_count = si.disconn_count + 1;
}

unfoldable pub new_info : ℕ → StableInfo
new_info now = record {
  first_seen = now;
  online_since = now;
  total_online = 0;
  last_seen = 0;
  conn_count = 1;
  disconn_count = 0;
  avg_latency = 0;
}

-- The switch on the event, for a peer that is no bootstrap peer.
unfoldable pub handle : ℕ → ℕ → Connectedness → List (ℕ × StableInfo) → List (ℕ × StableInfo)
unfolding evict_one connect disconnect new_info
handle now id connected m =
    if has_key id m
    then adjust id (connect now) m
    else insert id (new_info now) (if leb max_stable_peers (length m) then evict_one m else m)
handle now id not_connected m = adjust id (disconnect now) m
handle now id _ m = m

module _ (parse : ℕ → Option ℕ) (bootstrap : List ℕ) where
  unfoldable pub handle_peer_connectedness_changed :
      ℕ → ℕ → Connectedness → List (ℕ × StableInfo) → List (ℕ × StableInfo)
  unfolding is_bootstrap_peer handle
  handle_peer_connectedness_changed now id c m =
      if is_bootstrap_peer parse bootstrap id then m else handle now id c m

module _ {F : Type 0} (fl : Float64 F) where
  open fl use {add, sub, mul, div, lit, of_int, to_int}

  unfoldable pub latency : ℕ → StableInfo → StableInfo
  latency elapsed si = record si {
    avg_latency =
        if leb si.conn_count 1
        then elapsed
        else to_int
            (add (mul (of_int elapsed) (lit 3 10)) (mul (of_int si.avg_latency) (lit 7 10)));
  }

  unfoldable pub update_peer_latency :
      (ℕ → Option ℕ) → List ℕ → ℕ → ℕ → List (ℕ × StableInfo) → List (ℕ × StableInfo)
  unfolding latency is_bootstrap_peer
  update_peer_latency parse bootstrap id elapsed m =
      if is_bootstrap_peer parse bootstrap id then m else adjust id (latency elapsed) m

  unfoldable pub peer_score : StableInfo → F
  peer_score si =
      let s₀ = lit 0 1 in
      let s₁ = (if not (si.online_since == 0) then add s₀ (lit 100 1) else s₀) in
      let total = si.conn_count + si.disconn_count in
      let s₂ =
        (if ltb 0 total
          then add s₁ (mul (div (of_int si.conn_count) (of_int total)) (lit 50 1))
          else s₁) in
      if ltb 0 si.avg_latency && ltb si.avg_latency (10 * second)
      then add s₂
          (mul (sub (lit 1 1) (div (of_int si.avg_latency) (of_int (10 * second)))) (lit 50 1))
      else s₂

-- What CollectStablePeers tests of an address: the fragments that its text contains, and whether it
-- has an IP address that is a loopback or a private one.
pub record Addr : Type 0 where
  pub text : ℕ
  pub has_ip6 : Bool
  pub has_udp : Bool
  pub has_quic : Bool
  pub has_webrtc : Bool
  pub has_dns : Bool
  pub is_local_ip : Bool

unfoldable pub is_listed : Addr → Bool
is_listed a =
    if a.has_ip6 || (a.has_udp || (a.has_quic || (a.has_webrtc || a.has_dns)))
    then false
    else if a.is_local_ip
    then false
    else true

-- An entry of the list, with times and durations that are not printed yet.
pub record StablePeerEntry (F : Type 0) : Type 0 where
  pub peer_id : ℕ
  pub addrs : List Addr
  pub info : StableInfo
  pub online : Bool
  pub score : F
  pub total_online : ℕ

module _ {F : Type 0} (fl : Float64 F) (addrs_of : ℕ → List Addr) where
  unfoldable pub scored : List (ℕ × StableInfo) → List (StablePeerEntry F)
  unfolding is_listed peer_score
  scored [] = []
  scored ((id, si) ∷ m) =
      record {
        peer_id = id;
        addrs = keep is_listed (addrs_of id);
        info = si;
        online = not (si.online_since == 0);
        score = peer_score fl si;
        total_online = si.total_online;
      }
      ∷ scored m

  unfoldable pub collect_stable_peers :
      SortSlice (StablePeerEntry F) → List (ℕ × StableInfo) → List (StablePeerEntry F)
  unfolding scored
  collect_stable_peers sorts m = sorts.sort (λ a b. ltb b.total_online a.total_online) (scored m)
