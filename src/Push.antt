-- ===== src/Push.antt =====
-- The push protocol of p2put/pushid.go, with which two nodes tell each other their addresses and
-- the peers that they have heard of: HandlePushStream and PushToPeer, over the peer database of
-- PeerDb and the permitted addresses of Turn/Permissions. The texts of peer IDs and addresses are
-- numbers that a codec reads and writes; what the streams do, a message in JSON included, is not
-- modelled, so a message arrives or there is none.

pub mod Own
pub mod Spread
mod Examples
use peerscale.Prelude.{
  ℕ, ◌+◌, ◌-◌, ◌*◌, ◌/◌, ◌≡◌, Bool, true, false, ◌||◌, Option, none, some, List, [], ◌∷◌, map, ltb,
  ◌==◌, if◌then◌else◌,
}
use peerscale.Runtime.{millisecond}
use peerscale.PeerDb.{PeerDb, PeerRecord, update, list}
use peerscale.Turn.Permissions.{add_perm_ip}

-- peer.Decode and peer.ID.String, multiaddr.NewMultiaddr and Multiaddr.String.
pub record Codec : Type 0 where
  pub decode_id : ℕ → Option ℕ
  pub id_text : ℕ → ℕ
  pub parse_addr : ℕ → Option ℕ
  pub addr_text : ℕ → ℕ

-- The text of a peer ID gives it back, and so does that of an address.
pub record IsFaithful (codec : Codec) : Type 0 where
  pub ids : (p : ℕ) → codec.decode_id (codec.id_text p) ≡ some p
  pub addrs : (a : ℕ) → codec.parse_addr (codec.addr_text a) ≡ some a

-- `seen_at` is in milliseconds of Unix time, 0 if it is left out.
pub record PeerInfo : Type 0 where
  pub id : ℕ
  pub addrs : List ℕ
  pub mapped_addrs : List (List ℕ)
  pub alloced_addrs : List (List ℕ)
  pub seen_at : ℕ

pub record PushMessage : Type 0 where
  pub peers : List PeerInfo
  pub ts : ℕ

-- The parts of a node that the protocol reads and writes. `own_addrs` is what AddrMgr.GetAll gives,
-- `mapped` and `relay_addrs` are the addresses of the TURN pool.
pub record Node : Type 0 where
  pub id : ℕ
  pub own_addrs : List ℕ
  pub mapped : List (List ℕ)
  pub relay_addrs : List (List ℕ)
  pub db : PeerDb
  pub permips : List (List ℕ)

-- Nanoseconds from Go's zero time to the start of Unix time.
abbrev pub unix_epoch : ℕ
unix_epoch = 62_135_596_800 * 1_000_000_000

-- t.UnixMilli(), for a time that is not before 1970, and time.UnixMilli(ms).
abbrev pub unix_milli : ℕ → ℕ
unix_milli t = (t - unix_epoch) / millisecond

abbrev pub from_unix_milli : ℕ → ℕ
from_unix_milli ms = unix_epoch + ms * millisecond

abbrev pub add_perm_ips : List (List ℕ) → List (List ℕ) → List (List ℕ)
add_perm_ips [] ips = ips
add_perm_ips (m ∷ ms) ips = add_perm_ips ms (add_perm_ip m ips)

abbrev pub add_infos : List PeerInfo → List (List ℕ) → List (List ℕ)
add_infos [] ips = ips
add_infos (p ∷ ps) ips =
    add_infos ps (add_perm_ips p.alloced_addrs (add_perm_ips p.mapped_addrs ips))

module _ (codec : Codec) where
  open codec use {decode_id, id_text, parse_addr, addr_text}

  -- The addresses that can be parsed.
  abbrev pub parse_addrs : List ℕ → List ℕ
  parse_addrs [] = []
  parse_addrs (s ∷ texts) = elim (parse_addr s) [
    | none ↦ parse_addrs texts
    | some a ↦ a ∷ parse_addrs texts
  ]

  -- A peer whose ID cannot be read is passed over, and so is this node itself.
  abbrev pub learn_as : Option ℕ → ℕ → List ℕ → ℕ → PeerDb → PeerDb
  learn_as none own addrs at db = db
  learn_as (some pid) own addrs at db = if pid == own then db else update pid addrs at db

  unfoldable pub learn : ℕ → PeerInfo → ℕ → PeerDb → PeerDb
  unfolding update
  learn own p at db = learn_as (decode_id p.id) own (parse_addrs p.addrs) at db

  -- The loop of HandlePushStream: every peer counts as seen now.
  unfoldable pub learn_now : ℕ → ℕ → List PeerInfo → PeerDb → PeerDb
  unfolding learn
  learn_now own now [] db = db
  learn_now own now (p ∷ ps) db = learn_now own now ps (learn own p now db)

  abbrev pub told_at : ℕ → PeerInfo → ℕ
  told_at now p = if ltb 0 p.seen_at then from_unix_milli p.seen_at else now

  -- The loop of PushToPeer: a peer was seen when the other node says, if it says so.
  unfoldable pub learn_told : ℕ → ℕ → List PeerInfo → PeerDb → PeerDb
  unfolding learn
  learn_told own now [] db = db
  learn_told own now (p ∷ ps) db = learn_told own now ps (learn own p (told_at now p) db)

  unfoldable pub info_of : Node → PeerRecord → PeerInfo
  info_of node r = record {
    id = id_text r.peer_id;
    addrs = map addr_text r.addrs;
    mapped_addrs = node.mapped;
    alloced_addrs = node.relay_addrs;
    seen_at = unix_milli r.seen_at;
  }

  -- All records but those of this node and of the one that asks.
  unfoldable pub infos : Node → ℕ → List PeerRecord → List PeerInfo
  unfolding info_of
  infos node from [] = []
  infos node from (r ∷ records) =
      let rest = infos node from records in
      if r.peer_id == node.id
      then rest
      else if r.peer_id == from
      then rest
      else info_of node r ∷ rest

  -- HandlePushStream on a message of the peer `from`: the answer, and the node.
  unfoldable pub handle_push_stream : ℕ → ℕ → PushMessage → Node → PushMessage × Node
  unfolding learn_now infos list
  handle_push_stream now from req node =
      let node' = record node {
        db = learn_now node.id now req.peers node.db;
        permips = add_infos req.peers node.permips;
      } in
      (record { peers = infos node' from (list now node'.db); ts = unix_milli now }, node')

  -- What PushToPeer sends, and what it does with the answer.
  unfoldable pub push_request : ℕ → Node → PushMessage
  push_request now node = record {
    peers =
        record {
          id = id_text node.id;
          addrs = map addr_text node.own_addrs;
          mapped_addrs = node.mapped;
          alloced_addrs = node.relay_addrs;
          seen_at = 0;
        }
        ∷ [];
    ts = unix_milli now;
  }

  unfoldable pub push_answered : ℕ → PushMessage → Node → Node
  unfolding learn_told
  push_answered now resp node = record node { db = learn_told node.id now resp.peers node.db }

  -- One push from `a` to `b`, in which nothing fails: both nodes afterwards.
  unfoldable pub exchange : ℕ → ℕ → ℕ → Node → Node → Node × Node
  unfolding push_request handle_push_stream push_answered
  exchange asked handled answered a b =
      let (resp, b') = handle_push_stream handled a.id (push_request asked a) b in
      (push_answered answered resp a, b')
