-- ===== src/StablePeers/Bound.antt =====
-- The size of the map of stable peers, and which peer makes room.
use peerscale.Prelude.{
  ℕ, ◌≤◌, ◌<◌, ◌≡◌, ◌⊎◌, refl, Option, some, List, [], ◌∷◌, arith, if◌then◌else◌, length,
  Bool-cases, inl, inr, leb, ltb, occurs,
}
use peerscale.Dict.{lookup, has_key, erase, IsMap, keys, AllEntries}
use peerscale.Dict.Laws.{
  insert-IsMap, erase-IsMap, adjust-IsMap, length-insert, length-adjust, length-erase,
  occurs-present, has_key_of_lookup,
}
use peerscale.StablePeers.{
  Connectedness, not_connected, connected, can_connect, cannot_connect, limited, StableInfo,
  eviction_time, oldest_of, evict_one, connect, disconnect, new_info, handle,
  handle_peer_connectedness_changed, max_stable_peers, is_bootstrap_peer,
}

-- The peer is in the map and was last there at `t`.
abbrev pub LastThere : ℕ → ℕ → List (ℕ × StableInfo) → Type 0
LastThere v t m = (si : StableInfo) × (lookup v m ≡ some si) × (t ≡ eviction_time si)

LastThere-later :
    (v t id : ℕ) (si : StableInfo) (m : List (ℕ × StableInfo))
    → occurs v (keys ((id, si) ∷ m)) ≤ 1
    → LastThere v t m
    → LastThere v t ((id, si) ∷ m)
LastThere-later v t id si m o (sj, there, e) =
    (sj, ground (arith, there, has_key_of_lookup v m sj, occurs-present v m), e)

LastThere-head :
    (v t id : ℕ) (si : StableInfo) (m : List (ℕ × StableInfo))
    → v ≡ id
    → t ≡ eviction_time si
    → LastThere v t ((id, si) ∷ m)
LastThere-head v t id si m e at = (si, ground arith, at)

tail-IsMap : (id : ℕ) (si : StableInfo) (m : List (ℕ × StableInfo)) → IsMap ((id, si) ∷ m) → IsMap m
tail-IsMap id si m h = record { once = λ k. omega (arith, h.once k) }

-- The loop's result: the start or an entry of the map, and not later than any of them.
oldest_from :
    (victim oldest : ℕ) (m : List (ℕ × StableInfo))
    → IsMap m
    → (v : ℕ) × (t : ℕ) × (oldest_of (some (victim, oldest)) m ≡ some (v, t))
      × (((v ≡ victim) × (t ≡ oldest)) ⊎ LastThere v t m)
      × t ≤ oldest
      × AllEntries (λ k si. t ≤ eviction_time si) m
unfolding oldest_of
oldest_from victim oldest [] h = (victim, oldest, refl, inl (refl, refl), omega arith, tt)
oldest_from victim oldest ((id, si) ∷ m) h = elim (Bool-cases (ltb (eviction_time si) oldest)) [
  | inl older ↦
      let (v, t, e, w, l, all) = oldest_from id (eviction_time si) m (tail-IsMap id si m h) in
      (
        v,
        t,
        ground arith,
        inr (elim w [
          | inl (a, b) ↦ LastThere-head v t id si m a b
          | inr there ↦ LastThere-later v t id si m (h.once v) there
        ]),
        ground arith,
        (l, all),
      )
  | inr newer ↦
      let (v, t, e, w, l, all) = oldest_from victim oldest m (tail-IsMap id si m h) in
      (
        v,
        t,
        ground arith,
        elim w [
          | inl same ↦ inl same
          | inr there ↦ inr (LastThere-later v t id si m (h.once v) there)
        ],
        l,
        (ground arith, all),
      )
]

-- In a map that has each peer once and is not empty, evictOne deletes one of the peers, and no peer
-- was last there before it; a peer that never disconnected was last there when it was first seen.
pub evict_one-Oldest :
    (m : List (ℕ × StableInfo))
    → IsMap m
    → 0 < length m
    → (victim : ℕ) × (t : ℕ) × (evict_one m ≡ erase victim m)
      × LastThere victim t m
      × AllEntries (λ k si. t ≤ eviction_time si) m
unfolding evict_one
evict_one-Oldest [] h l = absurd (omega arith)
evict_one-Oldest ((id, si) ∷ m) h l =
    let (v, t, e, w, o, all) = oldest_from id (eviction_time si) m (tail-IsMap id si m h) in
    (
      v,
      t,
      ground arith,
      elim w [
        | inl (a, b) ↦ LastThere-head v t id si m a b
        | inr there ↦ LastThere-later v t id si m (h.once v) there
      ],
      (o, all),
    )

evict_one-IsMap : (m : List (ℕ × StableInfo)) → IsMap m → IsMap (evict_one m)
evict_one-IsMap [] h = unfold evict_one in h
evict_one-IsMap ((id, si) ∷ m) h =
    let (v, t, e, w, all) = evict_one-Oldest ((id, si) ∷ m) h (omega arith) in
    rw e (erase-IsMap v ((id, si) ∷ m) h)

length-evict_one :
    (m : List (ℕ × StableInfo)) → IsMap m → 0 < length m → length (evict_one m) < length m
length-evict_one m h l =
    let (v, t, e, (si, there, at), all) = evict_one-Oldest m h l in
    rw e (omega (arith, length-erase v m, occurs-present v m (has_key_of_lookup v m si there)))

-- The bound, with each peer once.
pub record Bounded (m : List (ℕ × StableInfo)) : Type 0 where
  pub map : IsMap m
  pub size : length m ≤ max_stable_peers

room :
    (m : List (ℕ × StableInfo))
    → Bounded m
    → let m' = if leb max_stable_peers (length m) then evict_one m else m in
      IsMap m' × length m' < max_stable_peers
room m h = elim (Bool-cases (leb max_stable_peers (length m))) [
  | inl full ↦ rw full (evict_one-IsMap m h.map, ground (arith, h.size, length-evict_one m h.map))
  | inr free ↦ rw free (h.map, ground arith)
]

handle-Bounded :
    (now id : ℕ) (c : Connectedness) (m : List (ℕ × StableInfo))
    → Bounded m
    → Bounded (handle now id c m)
unfolding handle
handle-Bounded now id not_connected m h = record {
  map = adjust-IsMap id (disconnect now) m h.map;
  size = omega (arith, length-adjust id (disconnect now) m, h.size);
}
handle-Bounded now id connected m h = elim (Bool-cases (has_key id m)) [
  | inl old ↦ rw old (record {
    map = adjust-IsMap id (connect now) m h.map;
    size = omega (arith, length-adjust id (connect now) m, h.size);
  })
  | inr fresh ↦
      let m' = (if leb max_stable_peers (length m) then evict_one m else m) in
      let r = room m h in
      rw fresh (record {
        map = insert-IsMap id (new_info now) m' r.0;
        size = ground (arith, length-insert id (new_info now) m', r.1);
      })
]
handle-Bounded now id can_connect m h = h
handle-Bounded now id cannot_connect m h = h
handle-Bounded now id limited m h = h

module _ (parse : ℕ → Option ℕ) (bootstrap : List ℕ) where
  unfoldable pub handle_all :
      List (ℕ × ℕ × Connectedness) → List (ℕ × StableInfo) → List (ℕ × StableInfo)
  handle_all [] m = m
  handle_all ((now, id, c) ∷ es) m =
      handle_all es (handle_peer_connectedness_changed parse bootstrap now id c m)

  event-Bounded :
      (now id : ℕ) (c : Connectedness) (m : List (ℕ × StableInfo))
      → Bounded m
      → Bounded (handle_peer_connectedness_changed parse bootstrap now id c m)
  unfolding handle_peer_connectedness_changed
  event-Bounded now id c m h = elim (Bool-cases (is_bootstrap_peer parse bootstrap id)) [
    | inl boot ↦ rw boot h
    | inr other ↦ rw other (handle-Bounded now id c m h)
  ]

  all-Bounded :
      (es : List (ℕ × ℕ × Connectedness)) (m : List (ℕ × StableInfo))
      → Bounded m
      → Bounded (handle_all es m)
  unfolding handle_all
  all-Bounded [] m h = h
  all-Bounded ((now, id, c) ∷ es) m h =
      all-Bounded es (handle_peer_connectedness_changed parse bootstrap now id c m)
        (event-Bounded now id c m h)

  -- After every sequence of connection events, there are at most 32 stable peers, each once.
  pub handle_all-Bounded : (es : List (ℕ × ℕ × Connectedness)) → Bounded (handle_all es [])
  handle_all-Bounded es =
      all-Bounded es [] (record { map = record { once = λ k. omega arith }; size = omega arith })
