-- ===== src/Push/Spread.antt =====
-- What two nodes know after a push.
use peerscale.Prelude.{
  ℕ, ◌≤◌, ◌<◌, ◌≡◌, ◌≢◌, refl, inl, inr, true, false, Option, none, some, List, [], ◌∷◌, ◌==◌, map,
  ltb, arith, Bool-cases, ap, sym, subst, ◌∙◌,
}
use peerscale.Dict.{lookup}
use peerscale.PeerDb.{PeerDb, PeerRecord, update, expired, list, list_live}
use peerscale.PeerDb.Laws.{better, lookup-update, ttl-update}
use peerscale.Push.{
  Codec, IsFaithful, PeerInfo, Node, unix_milli, from_unix_milli, parse_addrs, learn_as, learn,
  learn_now, learn_told, told_at, info_of, infos, handle_push_stream, push_request, push_answered,
  exchange, add_infos,
}

-- The database has a record of the peer that is at least so new.
pub record Knows (j t : ℕ) (db : PeerDb) : Type 0 where
  pub known : PeerRecord
  pub there : lookup j db.peers ≡ some known
  pub fresh : t ≤ known.seen_at

better-newer :
    (o : Option PeerRecord) (r : PeerRecord)
    → (r' : PeerRecord) × (better o r ≡ some r') × (r.seen_at ≤ r'.seen_at)
better-newer none r = (r, refl, omega arith)
better-newer (some old) r = elim (Bool-cases (ltb old.seen_at r.seen_at)) [
  | inl newer ↦ rw newer (r, refl, omega arith)
  | inr older ↦ rw older (old, refl, ground (arith, older))
]

better-keeps :
    (old r : PeerRecord)
    → (r' : PeerRecord) × (better (some old) r ≡ some r') × (old.seen_at ≤ r'.seen_at)
better-keeps old r = elim (Bool-cases (ltb old.seen_at r.seen_at)) [
  | inl newer ↦ rw newer (r, refl, ground (arith, newer))
  | inr older ↦ rw older (old, refl, omega arith)
]

update-Knows :
    (pid at j t : ℕ) (addrs : List ℕ) (db : PeerDb)
    → Knows j t db
    → Knows j t (update pid addrs at db)
update-Knows pid at j t addrs db k =
    let r : PeerRecord = record { peer_id = pid; addrs = addrs; seen_at = at } in
    let (r', kept, newer) = better-keeps k.known r in
    elim (Bool-cases (pid == j)) [
      | inl same ↦ record {
        known = r';
        there = lookup-update pid j addrs at db ∙ rw same (ap (λ o. better o r) k.there ∙ kept);
        fresh = omega (arith, k.fresh, newer);
      }
      | inr other ↦ record {
        known = k.known;
        there = lookup-update pid j addrs at db ∙ rw other k.there;
        fresh = k.fresh;
      }
    ]

update-Known : (pid at : ℕ) (addrs : List ℕ) (db : PeerDb) → Knows pid at (update pid addrs at db)
update-Known pid at addrs db =
    let r : PeerRecord = record { peer_id = pid; addrs = addrs; seen_at = at } in
    let (r', kept, newer) = better-newer (lookup pid db.peers) r in
    record {
      known = r';
      there =
          lookup-update pid pid addrs at db
          ∙ (let e : (pid == pid) ≡ true = ground arith in rw e kept);
      fresh = newer;
    }

module _ (codec : Codec) where
  learn_as-Knows :
      (o : Option ℕ) (own at j t : ℕ) (addrs : List ℕ) (db : PeerDb)
      → Knows j t db
      → Knows j t (learn_as codec o own addrs at db)
  learn_as-Knows none own at j t addrs db k = k
  learn_as-Knows (some pid) own at j t addrs db k = elim (Bool-cases (pid == own)) [
    | inl same ↦ rw same k
    | inr other ↦ rw other (update-Knows pid at j t addrs db k)
  ]

  learn_told-Knows :
      (own now j t : ℕ) (ps : List PeerInfo) (db : PeerDb)
      → Knows j t db
      → Knows j t (learn_told codec own now ps db)
  unfolding learn_told learn
  learn_told-Knows own now j t [] db k = k
  learn_told-Knows own now j t (p ∷ ps) db k = learn_told-Knows own now j t ps _ (
      learn_as-Knows (codec.decode_id p.id) own (told_at codec now p) j t
        (parse_addrs codec p.addrs) db k)

  module _ (faithful : IsFaithful codec) where
    -- A record that another node tells of is known at the millisecond in which it was seen.
    told-Knows :
        (b : Node) (own now : ℕ) (r : PeerRecord) (db : PeerDb)
        → (r.peer_id == own) ≡ false
        → 0 < unix_milli r.seen_at
        → Knows r.peer_id
            (from_unix_milli (unix_milli r.seen_at))
            (learn codec own (info_of codec b r) (told_at codec now (info_of codec b r)) db)
    unfolding learn info_of
    told-Knows b own now r db other told =
        let at : ltb 0 (unix_milli r.seen_at) ≡ true = ground (arith, told) in
        rw (faithful.ids r.peer_id, other, at)
          (update-Known r.peer_id (from_unix_milli (unix_milli r.seen_at))
            (parse_addrs codec (map codec.addr_text r.addrs)) db)

    module _ (b : Node) (own now handled ttl : ℕ) (r : PeerRecord) (told : 0 < unix_milli r.seen_at)
        (not_own : (r.peer_id == own) ≡ false) (not_b : (r.peer_id == b.id) ≡ false)
        (live : expired handled ttl r ≡ false) where
      abbrev Passed : List (ℕ × PeerRecord) → PeerDb → Type 0
      Passed m db =
          Knows r.peer_id (from_unix_milli (unix_milli r.seen_at))
            (learn_told codec own now (infos codec b own (list_live handled ttl m)) db)

      first_Passed : (k : ℕ) (m : List (ℕ × PeerRecord)) (db : PeerDb) → Passed ((k, r) ∷ m) db
      unfolding learn_told infos list_live
      first_Passed k m db =
          rw (live, not_b, not_own)
            (learn_told-Knows own now r.peer_id _ (infos codec b own (list_live handled ttl m)) _
              (told-Knows b own now r db not_own told))

      later_Passed :
          (k : ℕ) (w : PeerRecord) (m : List (ℕ × PeerRecord))
          → ((db : PeerDb) → Passed m db)
          → (db : PeerDb) → Passed ((k, w) ∷ m) db
      unfolding learn_told infos list_live
      later_Passed k w m rest db = elim (Bool-cases (expired handled ttl w)) [
        | inl gone ↦ rw gone (rest db)
        | inr shown ↦ rw shown (elim (Bool-cases (w.peer_id == b.id)) [
          | inl itself ↦ rw itself (rest db)
          | inr another ↦ rw another (elim (Bool-cases (w.peer_id == own)) [
            | inl asker ↦ rw asker (rest db)
            | inr third ↦ rw third (rest _)
          ])
        ])
      ]

      all_Passed :
          (m : List (ℕ × PeerRecord)) (db : PeerDb) → lookup r.peer_id m ≡ some r → Passed m db
      all_Passed [] db there = absurd (ground arith)
      all_Passed ((k, w) ∷ m) db there = elim (Bool-cases (k == r.peer_id)) [
        | inl here ↦
            let e : r ≡ w = ground (arith, there, here) in
            subst (λ v. Passed ((k, v) ∷ m) db) e (first_Passed k m db)
        | inr later ↦
            let there' : lookup r.peer_id m ≡ some r = ground (arith, there, later) in
            later_Passed k w m (λ db'. all_Passed m db' there') db
      ]

    parse_addrs-text : (xs : List ℕ) → parse_addrs codec (map codec.addr_text xs) ≡ xs
    parse_addrs-text [] = refl
    parse_addrs-text (x ∷ xs) = rw (faithful.addrs x) (ap (λ l. x ∷ l) (parse_addrs-text xs))

    -- The database of the node that is asked.
    asked_db :
        (asked handled : ℕ) (a b : Node)
        → (a.id == b.id) ≡ false
        → learn_now codec b.id handled (push_request codec asked a).peers b.db
          ≡ update a.id a.own_addrs handled b.db
    unfolding learn_now learn push_request
    asked_db asked handled a b differ =
        rw (faithful.ids a.id, differ)
          (ap (λ xs. update a.id xs handled b.db) (parse_addrs-text a.own_addrs))

    different : (i j : ℕ) → i ≢ j → (i == j) ≡ false
    different i j h = ground (arith, h)

    -- After a push from one node to another in which nothing fails, with texts that can be read
    -- back: the node that was asked has the other's addresses, as seen when it handled the push,
    -- unless it had a record of it that is as new; and of each other peer of which it had a record
    -- that had not expired and is from after the start of 1970, the node that asked now has one that
    -- is at least as new, to the millisecond.
    pub exchange-spreads :
        (asked handled answered : ℕ) (a b : Node) (r : PeerRecord)
        → a.id ≢ b.id
        → (r.peer_id ≢ a.id) × (r.peer_id ≢ b.id)
        → lookup r.peer_id b.db.peers ≡ some r
        → expired handled b.db.ttl r ≡ false
        → 0 < unix_milli r.seen_at
        → let (a', b') = exchange codec asked handled answered a b in
          Knows r.peer_id (from_unix_milli (unix_milli r.seen_at)) a'.db
          × (lookup a.id b'.db.peers
              ≡ better
                  (lookup a.id b.db.peers)
                  (record { peer_id = a.id; addrs = a.own_addrs; seen_at = handled }))
    unfolding exchange handle_push_stream push_answered list
    exchange-spreads asked handled answered a b r ids (not_a, not_b) there live told =
        let known = asked_db asked handled a b (different a.id b.id ids) in
        let db = update a.id a.own_addrs handled b.db in
        let still : lookup r.peer_id db.peers ≡ some r =
          lookup-update a.id r.peer_id a.own_addrs handled b.db
          ∙ (let e = different a.id r.peer_id (λ x. not_a (sym x)) in rw e there) in
        let b' : Node = record b {
          db = db;
          permips = add_infos (push_request codec asked a).peers b.permips;
        } in
        let asker : (a.id == a.id) ≡ true = ground arith in
        rw known (
          all_Passed b' a.id answered handled db.ttl r told (different r.peer_id a.id not_a)
              (different r.peer_id b.id not_b)
              (subst (λ ttl. expired handled ttl r ≡ false)
                (sym (ttl-update a.id a.own_addrs handled b.db)) live)
              db.peers a.db still,
          lookup-update a.id a.id a.own_addrs handled b.db ∙ rw asker refl,
        )
