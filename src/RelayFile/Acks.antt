-- ===== src/RelayFile/Acks.antt =====
-- What the receiver claims is true: acknowledged chunks are in the bitmap, and a saved file has the
-- checksum that the sender announced.
use peerscale.Prelude.{
  ℕ, ◌+◌, ◌-◌, ◌≤◌, ◌≡◌, inl, inr, Bool, true, false, ◌&&◌, ◌||◌, Option, none, some, List, [], ◌∷◌,
  ◌==◌, ltb, leb, arith, Bool-cases, All, sym, subst, IfSome, and_then-IfSome, IfSome-all,
}
use peerscale.RelayFile.Bitmap.{
  ℤ, pos, negsuc, has_pos, bitmap_has, bitmap_set, bitmap_max_continuous,
}
use peerscale.RelayFile.Chunks.{has_pos-set_word, continuous_from_first}
use peerscale.RelayFile.Frame.{frame_type_data, frame_type_fin, frame_type_error, frame_type_cancel}
use peerscale.RelayFile.Pack.{Zstd}
use peerscale.RelayFile.Receive.{
  Reply, ack, failed, ok, FileSession, Receiver, Flow, goes_on, stopped, Outcome, is_over,
  cleanup_session, finish, conclude, fail, fail_with, acknowledge, store_chunk, on_chunk,
  on_unpacked, on_data, on_fin, receive, receive_loop, next_turn,
}

-- The chunks that a reply acknowledges are all in the bitmap.
abbrev pub Backed : List ℕ → Reply → Type 0
Backed bitmap (ack n) = (j : ℕ) → j ≤ n → has_pos bitmap j ≡ true
Backed bitmap failed = Unit
Backed bitmap ok = Unit

pub record IsHonest (sha : List ℕ → ℕ) (ses : FileSession) : Type 0 where
  pub backed : All (λ r. Backed ses.bitmap r) ses.sent
  pub genuine : (c : List ℕ) → ses.saved ≡ some c → sha c ≡ ses.checksum

abbrev pub receiver_of : Flow → Receiver
receiver_of (goes_on r) = r
receiver_of (stopped r) = r

Backed-grows :
    (b b' : List ℕ) (sent : List Reply)
    → ((j : ℕ) → has_pos b j ≡ true → has_pos b' j ≡ true)
    → All (λ r. Backed b r) sent
    → All (λ r. Backed b' r) sent
Backed-grows b b' [] g h = tt
Backed-grows b b' (ack n ∷ sent) g h = (λ j l. g j (h.0 j l), Backed-grows b b' sent g h.1)
Backed-grows b b' (failed ∷ sent) g h = (tt, Backed-grows b b' sent g h.1)
Backed-grows b b' (ok ∷ sent) g h = (tt, Backed-grows b b' sent g h.1)

module _ (sha : List ℕ → ℕ) where
  cleanup-IsHonest : (ses : FileSession) → IsHonest sha ses → IsHonest sha (cleanup_session ses)
  unfolding cleanup_session
  cleanup-IsHonest ses h = elim (Bool-cases (is_over ses.state)) [
    | inl over ↦ rw over h
    | inr live ↦ rw live (record { backed = h.backed; genuine = h.genuine })
  ]

  fail-IsHonest : (r : Receiver) → IsHonest sha r.ses → IsHonest sha (receiver_of (fail r)).ses
  unfolding fail
  fail-IsHonest r h = cleanup-IsHonest r.ses h

  fail_with-IsHonest :
      (r : Receiver) → IsHonest sha r.ses → IsHonest sha (receiver_of (fail_with r)).ses
  unfolding fail_with
  fail_with-IsHonest r h =
      cleanup-IsHonest (record r.ses { sent = failed ∷ r.ses.sent })
        (record { backed = (tt, h.backed); genuine = h.genuine })

  new_ack-Backed :
      (bitmap : List ℕ) (total last : ℕ)
      → ltb last (bitmap_max_continuous bitmap total) ≡ true
      → Backed bitmap (ack (bitmap_max_continuous bitmap total - 1))
  unfolding bitmap_max_continuous
  new_ack-Backed bitmap total last h j l =
      (continuous_from_first bitmap 0 total).2 j (omega arith) (ground arith)

  acknowledge-IsHonest :
      (o : Outcome) (r : Receiver)
      → IsHonest sha r.ses
      → IsHonest sha (receiver_of (acknowledge o r)).ses
  unfolding acknowledge
  acknowledge-IsHonest o r h =
      let new_seq = bitmap_max_continuous r.ses.bitmap r.ses.total_chunks in
      elim (Bool-cases (
        (leb (r.last_ack + 8) new_seq || leb r.ses.total_chunks new_seq)
        && ltb r.last_ack new_seq)) [
          | inr quiet ↦ rw quiet h
          | inl due ↦ rw due (elim (Bool-cases o.replies) [
            | inr lost ↦ rw lost (fail-IsHonest r h)
            | inl sent ↦ rw sent (record {
              backed = (
                new_ack-Backed r.ses.bitmap r.ses.total_chunks r.last_ack (ground arith),
                h.backed,
              );
              genuine = h.genuine;
            })
          ])
        ]

  bitmap_set-grows :
      (b : List ℕ) (s : ℤ)
      → IfSome (λ b'. (j : ℕ) → has_pos b j ≡ true → has_pos b' j ≡ true) (bitmap_set b s)
  unfolding bitmap_set
  bitmap_set-grows b (pos s) = λ j h. ground (arith, has_pos-set_word b s j)
  bitmap_set-grows b (negsuc n) = elim (Bool-cases (ltb n 63)) [
    | inl small ↦ rw small (λ j h. h)
    | inr panics ↦ rw panics tt
  ]

  store-IsHonest :
      (seq : ℤ) (chunk : List ℕ) (ses : FileSession)
      → IsHonest sha ses
      → IfSome (λ ses'. IsHonest sha ses') (store_chunk seq chunk ses)
  unfolding store_chunk
  store-IsHonest seq chunk ses h =
      and_then-IfSome _ (λ ses'. IsHonest sha ses') (bitmap_set ses.bitmap seq) _
        (bitmap_set-grows ses.bitmap seq)
        (λ b' grows. record {
          backed = Backed-grows ses.bitmap b' ses.sent grows h.backed;
          genuine = h.genuine;
        })

  abbrev pub HonestFlow : Flow → Type 0
  HonestFlow f = IsHonest sha (receiver_of f).ses

  on_chunk-IsHonest :
      (o : Outcome) (seq : ℤ) (chunk : List ℕ) (r : Receiver)
      → IsHonest sha r.ses
      → IfSome HonestFlow (on_chunk o seq chunk r)
  unfolding on_chunk
  on_chunk-IsHonest o seq chunk r h =
      and_then-IfSome (λ has. Unit {0}) HonestFlow (bitmap_has r.ses.bitmap seq) _
        (IfSome-all _ (bitmap_has r.ses.bitmap seq) (λ b. tt))
        λ has u. elim (Bool-cases has) [
          | inl old ↦ rw old (acknowledge-IsHonest o r h)
          | inr fresh ↦ rw fresh (elim (Bool-cases o.writes) [
            | inr full ↦ rw full (fail_with-IsHonest r h)
            | inl fine ↦ rw fine (
                and_then-IfSome (λ ses'. IsHonest sha ses') HonestFlow (store_chunk seq chunk r.ses)
                  _ (store-IsHonest seq chunk r.ses h)
                  (λ ses' h'. acknowledge-IsHonest o (record r { ses = ses' }) h'))
          ])
        ]

  on_unpacked-IsHonest :
      (o : Outcome) (found : Option (ℤ × List ℕ)) (r : Receiver)
      → IsHonest sha r.ses
      → IfSome HonestFlow (on_unpacked o found r)
  unfolding on_unpacked
  on_unpacked-IsHonest o none r h = fail_with-IsHonest r h
  on_unpacked-IsHonest o (some (seq, chunk)) r h = on_chunk-IsHonest o seq chunk r h

  on_data-IsHonest :
      (z : Zstd) (o : Outcome) (payload : List ℕ) (r : Receiver)
      → IsHonest sha r.ses
      → IfSome HonestFlow (on_data z o payload r)
  unfolding on_data
  on_data-IsHonest z o payload r h = on_unpacked-IsHonest o _ r h

  saved_genuine :
      (ses : FileSession) (opens : Bool)
      → (opens && sha ses.content == ses.checksum) ≡ true
      → (c : List ℕ) → some ses.content ≡ some c
      → sha c ≡ ses.checksum
  saved_genuine ses opens h c e = ground arith

  conclude-IsHonest :
      (o : Outcome) (r : Receiver)
      → IsHonest sha r.ses
      → ((c : List ℕ) → some r.ses.content ≡ some c → sha c ≡ r.ses.checksum)
      → HonestFlow (conclude o r)
  unfolding conclude finish
  conclude-IsHonest o r h g = elim (Bool-cases o.replies) [
    | inl told ↦ rw told (record { backed = (tt, h.backed); genuine = g })
    | inr lost ↦
        rw lost (cleanup-IsHonest (finish r.ses) (record { backed = h.backed; genuine = g }))
  ]

  on_fin-IsHonest :
      (o : Outcome) (fin : ℕ) (r : Receiver) → IsHonest sha r.ses → HonestFlow (on_fin sha o fin r)
  unfolding on_fin
  on_fin-IsHonest o fin r h =
      let closed : Receiver = record r { ses = record r.ses { tmp_open = false } } in
      let h' : IsHonest sha closed.ses = record { backed = h.backed; genuine = h.genuine } in
      elim (Bool-cases (fin == r.ses.checksum)) [
        | inr other ↦ rw other (fail_with-IsHonest r h)
        | inl same ↦ rw same (elim (Bool-cases (o.opens && sha r.ses.content == r.ses.checksum)) [
          | inr bad ↦ rw bad (fail_with-IsHonest closed h')
          | inl good ↦ rw good (elim (Bool-cases o.renames) [
            | inr stays ↦ rw stays (fail_with-IsHonest closed h')
            | inl moved ↦ rw moved (conclude-IsHonest o r h (saved_genuine r.ses o.opens good))
          ])
        ])
      ]

  next_turn-IsHonest :
      (again : Receiver → Option Flow)
      → ((r : Receiver) → IsHonest sha r.ses → IfSome HonestFlow (again r))
      → (flow : Flow) → HonestFlow flow
      → IfSome HonestFlow (next_turn again flow)
  next_turn-IsHonest again g (goes_on r) h = g r h
  next_turn-IsHonest again g (stopped r) h = h

module _ (z : Zstd) (sha : List ℕ → ℕ) (checksum_of : List ℕ → ℕ) where
  receive-IsHonest :
      (o : Outcome) (frame : Option (ℕ × List ℕ)) (r : Receiver)
      → IsHonest sha r.ses
      → IfSome (HonestFlow sha) (receive z sha checksum_of o frame r)
  unfolding receive
  receive-IsHonest o none r h = fail-IsHonest sha r h
  receive-IsHonest o (some (typ, payload)) r h = elim (Bool-cases (typ == frame_type_cancel)) [
    | inl cancel ↦ rw cancel (fail-IsHonest sha r h)
    | inr c ↦ rw c (elim (Bool-cases (typ == frame_type_error)) [
      | inl remote ↦ rw remote (fail-IsHonest sha r h)
      | inr e ↦ rw e (elim (Bool-cases (typ == frame_type_data)) [
        | inl chunk ↦ rw chunk (on_data-IsHonest sha z o payload r h)
        | inr d ↦ rw d (elim (Bool-cases (typ == frame_type_fin)) [
          | inl fin ↦ rw fin (on_fin-IsHonest sha o (checksum_of payload) r h)
          | inr f ↦ rw f h
        ])
      ])
    ])
  ]

  loop-IsHonest :
      (fs : List (Outcome × Option (ℕ × List ℕ))) (r : Receiver)
      → IsHonest sha r.ses
      → IfSome (HonestFlow sha) (receive_loop z sha checksum_of fs r)
  unfolding receive_loop
  loop-IsHonest [] r h = h
  loop-IsHonest ((o, frame) ∷ fs) r h =
      and_then-IfSome (HonestFlow sha) (HonestFlow sha) (receive z sha checksum_of o frame r) _
        (receive-IsHonest o frame r h)
        λ flow h'.
          next_turn-IsHonest sha (λ r'. receive_loop z sha checksum_of fs r')
            (λ r'. loop-IsHonest fs r') flow h'

  -- Whatever frames come and whatever fails: after any number of turns of the loop from a session
  -- that has sent nothing and saved nothing, unless the loop panics, each chunk that an
  -- acknowledgment covers is in the bitmap, and a saved file has the announced checksum.
  pub receive_loop-IsHonest :
      (fs : List (Outcome × Option (ℕ × List ℕ))) (r : Receiver)
      → r.ses.sent ≡ []
      → r.ses.saved ≡ none
      → IfSome (HonestFlow sha) (receive_loop z sha checksum_of fs r)
  receive_loop-IsHonest fs r quiet unsaved = loop-IsHonest fs r (record {
    backed = subst (λ sent. All (λ a. Backed r.ses.bitmap a) sent) (sym quiet) tt;
    genuine = λ c e. ground (arith, unsaved, e);
  })
