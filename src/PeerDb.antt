-- ===== src/PeerDb.antt =====
-- The peer database of p2put/peerdb.go: one record for each peer, the newest that was reported,
-- which counts for `ttl` after it was seen. Times are arguments; addresses are opaque numbers.
pub mod Laws
mod Examples
use peerscale.Prelude.{ℕ, ◌-◌, Bool, Option, some, none, List, [], ◌∷◌, ltb, not, if◌then◌else◌}
use peerscale.Dict.{lookup, insert}

pub record PeerRecord : Type 0 where
  pub peer_id : ℕ
  pub addrs : List ℕ
  pub seen_at : ℕ

pub record PeerDb : Type 0 where
  pub peers : List (ℕ × PeerRecord)
  pub ttl : ℕ

unfoldable pub new_peer_db : ℕ → PeerDb
new_peer_db ttl = record { peers = []; ttl = ttl }

-- now.Sub(r.SeenAt) > db.ttl
abbrev pub expired : ℕ → ℕ → PeerRecord → Bool
expired now ttl r = ltb ttl (now - r.seen_at)

unfoldable pub update : ℕ → List ℕ → ℕ → PeerDb → PeerDb
update pid addrs seen_at db =
    let fresh : PeerRecord = record { peer_id = pid; addrs = addrs; seen_at = seen_at } in
    elim (lookup pid db.peers) [
      | none ↦ record db { peers = insert pid fresh db.peers }
      | some existing ↦
          if not (ltb existing.seen_at seen_at)
          then db
          else record db { peers = insert pid fresh db.peers }
    ]

unfoldable pub get : ℕ → ℕ → PeerDb → Option PeerRecord
get now pid db = elim (lookup pid db.peers) [
  | none ↦ none
  | some r ↦ if expired now db.ttl r then none else some r
]

unfoldable pub list_live : ℕ → ℕ → List (ℕ × PeerRecord) → List PeerRecord
list_live now ttl [] = []
list_live now ttl ((pid, r) ∷ m) =
    if expired now ttl r then list_live now ttl m else r ∷ list_live now ttl m

unfoldable pub list : ℕ → PeerDb → List PeerRecord
unfolding list_live
list now db = list_live now db.ttl db.peers

unfoldable pub list_live_ids : ℕ → ℕ → List (ℕ × PeerRecord) → List ℕ
list_live_ids now ttl [] = []
list_live_ids now ttl ((pid, r) ∷ m) =
    if expired now ttl r then list_live_ids now ttl m else r.peer_id ∷ list_live_ids now ttl m

unfoldable pub list_ids : ℕ → PeerDb → List ℕ
unfolding list_live_ids
list_ids now db = list_live_ids now db.ttl db.peers

unfoldable pub sweep : ℕ → ℕ → List (ℕ × PeerRecord) → List (ℕ × PeerRecord)
sweep now ttl [] = []
sweep now ttl ((pid, r) ∷ m) =
    if expired now ttl r then sweep now ttl m else (pid, r) ∷ sweep now ttl m

-- One tick of the cleanup loop.
unfoldable pub cleanup : ℕ → PeerDb → PeerDb
unfolding sweep
cleanup now db = record db { peers = sweep now db.ttl db.peers }
