-- ===== src/PeerDb/Examples.antt =====
-- The peer database's theorems on three reports of two peers.
use peerscale.Prelude.{◌≡◌, List, [], ◌∷◌, some, arith}
use peerscale.Dict.{IsMap}
use peerscale.PeerDb.{PeerDb, new_peer_db, get}
use peerscale.PeerDb.Laws.{Report, update_all, get-update_all}

abbrev reports : List Report
reports = (7, 70 ∷ [], 100) ∷ (8, 80 ∷ [], 110) ∷ (7, 71 ∷ [], 120) ∷ (7, 72 ∷ [], 90) ∷ []

get-update_all_example :
    get 130 7 (update_all reports (new_peer_db 15))
    ≡ some (record { peer_id = 7; addrs = 71 ∷ []; seen_at = 120 })
get-update_all_example = get-update_all reports 15 130 7

abbrev db : PeerDb
db = record {
  peers =
      (7, record { peer_id = 7; addrs = 71 ∷ []; seen_at = 120 })
      ∷ (8, record { peer_id = 8; addrs = 80 ∷ []; seen_at = 110 })
      ∷ [];
  ttl = 15;
}

db-IsMap : IsMap db.peers
db-IsMap = record { once = λ k. ground arith }
