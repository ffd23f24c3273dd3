-- ===== src/PeerDb/Laws.antt =====
-- The peer database keeps the newest report of each peer, and cleaning up is never seen.
use peerscale.Prelude.{
  ℕ, ◌≤◌, ◌≡◌, refl, Option, some, none, List, [], ◌∷◌, ltb, if◌then◌else◌, ◌==◌, arith, ap, ◌∙◌,
  occurs,
}
use peerscale.Dict.{lookup, keys, IsMap}
use peerscale.Dict.Laws.{lookup-insert}
use peerscale.PeerDb.{
  PeerRecord, PeerDb, new_peer_db, expired, update, get, list_live, list, sweep, cleanup,
}

-- A report of a peer: its ID, its addresses and when it was seen.
abbrev pub Report : Type 0
Report = ℕ × List ℕ × ℕ

abbrev pub update_all : List Report → PeerDb → PeerDb
update_all [] db = db
update_all ((pid, addrs, at) ∷ rs) db = update_all rs (update pid addrs at db)

-- The specification: the first of the reports of a peer that no other one is newer than.
abbrev pub better : Option PeerRecord → PeerRecord → Option PeerRecord
better none r = some r
better (some old) r = if ltb old.seen_at r.seen_at then some r else some old

abbrev pub newest : ℕ → Option PeerRecord → List Report → Option PeerRecord
newest pid best [] = best
newest pid best ((p, addrs, at) ∷ rs) =
    newest pid
      (if p == pid then better best (record { peer_id = p; addrs = addrs; seen_at = at }) else best)
      rs

-- One update, seen from any peer's key.
pub lookup-update :
    (pid j : ℕ) (addrs : List ℕ) (at : ℕ) (db : PeerDb)
    → lookup j (update pid addrs at db).peers ≡ (
        if pid == j
        then better (lookup j db.peers) (record { peer_id = pid; addrs = addrs; seen_at = at })
        else lookup j db.peers)
unfolding update
lookup-update pid j addrs at db =
    ground
      (arith, lookup-insert pid j (record { peer_id = pid; addrs = addrs; seen_at = at }) db.peers)

lookup-update_all :
    (rs : List Report) (j : ℕ) (db : PeerDb)
    → lookup j (update_all rs db).peers ≡ newest j (lookup j db.peers) rs
lookup-update_all [] j db = refl
lookup-update_all ((pid, addrs, at) ∷ rs) j db =
    lookup-update_all rs j (update pid addrs at db)
    ∙ ap (λ o. newest j o rs) (lookup-update pid j addrs at db)

pub ttl-update :
    (pid : ℕ) (addrs : List ℕ) (at : ℕ) (db : PeerDb) → (update pid addrs at db).ttl ≡ db.ttl
unfolding update
ttl-update pid addrs at db = ground arith

ttl-update_all : (rs : List Report) (db : PeerDb) → (update_all rs db).ttl ≡ db.ttl
ttl-update_all [] db = refl
ttl-update_all ((pid, addrs, at) ∷ rs) db =
    ttl-update_all rs (update pid addrs at db) ∙ ttl-update pid addrs at db

abbrev pub live : ℕ → ℕ → Option PeerRecord → Option PeerRecord
live now ttl none = none
live now ttl (some r) = if expired now ttl r then none else some r

-- After any reports to a new database, Get finds a peer exactly if it was reported and its newest
-- report is not older than the time to live, and then it gives that report. Of reports with one
-- time the first counts.
pub get-update_all :
    (rs : List Report) (ttl now j : ℕ)
    → get now j (update_all rs (new_peer_db ttl)) ≡ live now ttl (newest j none rs)
unfolding get new_peer_db
get-update_all rs ttl now j =
    let db = new_peer_db ttl in ground (arith, lookup-update_all rs j db, ttl-update_all rs db)

lookup-sweep-none :
    (now ttl j : ℕ) (m : List (ℕ × PeerRecord))
    → occurs j (keys m) ≡ 0
    → lookup j (sweep now ttl m) ≡ none
unfolding sweep
lookup-sweep-none now ttl j [] o = refl
lookup-sweep-none now ttl j ((k, r) ∷ m) o = ground (arith, lookup-sweep-none now ttl j m)

lookup-sweep :
    (now later ttl j : ℕ) (m : List (ℕ × PeerRecord))
    → occurs j (keys m) ≤ 1
    → now ≤ later
    → live later ttl (lookup j (sweep now ttl m)) ≡ live later ttl (lookup j m)
unfolding sweep
lookup-sweep now later ttl j [] o h = refl
lookup-sweep now later ttl j ((k, r) ∷ m) o h =
    ground (arith, lookup-sweep now later ttl j m, lookup-sweep-none now ttl j m)

list-sweep :
    (now later ttl : ℕ) (m : List (ℕ × PeerRecord))
    → now ≤ later
    → list_live later ttl (sweep now ttl m) ≡ list_live later ttl m
unfolding sweep list_live
list-sweep now later ttl [] h = refl
list-sweep now later ttl ((k, r) ∷ m) h = ground (arith, list-sweep now later ttl m h)

get_live :
    (now later j : ℕ) (db : PeerDb)
    → IsMap db.peers
    → now ≤ later
    → get later j (cleanup now db) ≡ get later j db
unfolding get cleanup
get_live now later j db once h =
    ground (arith, lookup-sweep now later db.ttl j db.peers (once.once j) h)

-- From its time on, a cleanup is never seen: each later Get and List gives what it would have given
-- without it, in a database that has each peer once.
pub cleanup_unseen :
    (now later j : ℕ) (db : PeerDb)
    → IsMap db.peers
    → now ≤ later
    → (get later j (cleanup now db) ≡ get later j db)
      × (list later (cleanup now db) ≡ list later db)
unfolding get list cleanup
cleanup_unseen now later j db once h =
    (get_live now later j db once h, list-sweep now later db.ttl db.peers h)
