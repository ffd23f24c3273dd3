-- ===== src/RelayFile/Active.antt =====
-- A session that the map of sessions holds is under way, as long as the replies of the receiver get
-- through.
use peerscale.Prelude.{
  ℕ, ◌+◌, ◌≡◌, inl, inr, true, false, ◌&&◌, ◌||◌, Option, none, some, List, [], ◌∷◌, ltb, leb, ◌==◌,
  arith, All, Bool-cases, IfSome, and_then-IfSome, IfSome-all,
}
use peerscale.RelayFile.Bitmap.{ℤ, bitmap_has, bitmap_set, bitmap_max_continuous}
use peerscale.RelayFile.Frame.{frame_type_data, frame_type_fin, frame_type_error, frame_type_cancel}
use peerscale.RelayFile.Pack.{Zstd}
use peerscale.RelayFile.Receive.{
  transfer, FileSession, Receiver, Flow, goes_on, stopped, Outcome, cleanup_session, conclude, fail,
  fail_with, acknowledge, store_chunk, on_chunk, on_unpacked, on_data, on_fin, receive,
  receive_loop, next_turn,
}
use peerscale.RelayFile.Acks.{receiver_of}

-- A session in the map is under way.
abbrev pub IsActive : FileSession → Type 0
IsActive ses = ses.stored ≡ true → ses.state ≡ transfer

abbrev pub ActiveFlow : Flow → Type 0
ActiveFlow f = IsActive (receiver_of f).ses

cleanup-IsActive : (ses : FileSession) → IsActive ses → IsActive (cleanup_session ses)
unfolding cleanup_session
cleanup-IsActive ses h = ground (arith, h)

fail-IsActive : (r : Receiver) → IsActive r.ses → ActiveFlow (fail r)
unfolding fail
fail-IsActive r h = cleanup-IsActive r.ses h

fail_with-IsActive : (r : Receiver) → IsActive r.ses → ActiveFlow (fail_with r)
unfolding fail_with
fail_with-IsActive r h = cleanup-IsActive (record r.ses { sent = _ ∷ r.ses.sent }) h

acknowledge-IsActive : (o : Outcome) (r : Receiver) → IsActive r.ses → ActiveFlow (acknowledge o r)
unfolding acknowledge
acknowledge-IsActive o r h =
    let new_seq = bitmap_max_continuous r.ses.bitmap r.ses.total_chunks in
    elim (Bool-cases (
      (leb (r.last_ack + 8) new_seq || leb r.ses.total_chunks new_seq) && ltb r.last_ack new_seq)) [
        | inr quiet ↦ rw quiet h
        | inl due ↦ rw due (elim (Bool-cases o.replies) [
          | inr lost ↦ rw lost (fail-IsActive r h)
          | inl sent ↦ rw sent h
        ])
      ]

store-IsActive :
    (seq : ℤ) (chunk : List ℕ) (ses : FileSession)
    → IsActive ses
    → IfSome IsActive (store_chunk seq chunk ses)
unfolding store_chunk
store-IsActive seq chunk ses h =
    and_then-IfSome (λ b. Unit {0}) IsActive (bitmap_set ses.bitmap seq) _
      (IfSome-all _ (bitmap_set ses.bitmap seq) (λ b. tt)) (λ b u. h)

on_chunk-IsActive :
    (o : Outcome) (seq : ℤ) (chunk : List ℕ) (r : Receiver)
    → IsActive r.ses
    → IfSome ActiveFlow (on_chunk o seq chunk r)
unfolding on_chunk
on_chunk-IsActive o seq chunk r h =
    and_then-IfSome (λ has. Unit {0}) ActiveFlow (bitmap_has r.ses.bitmap seq) _
      (IfSome-all _ (bitmap_has r.ses.bitmap seq) (λ b. tt))
      λ has u. elim (Bool-cases has) [
        | inl old ↦ rw old (acknowledge-IsActive o r h)
        | inr fresh ↦ rw fresh (elim (Bool-cases o.writes) [
          | inr full ↦ rw full (fail_with-IsActive r h)
          | inl fine ↦ rw fine (
              and_then-IfSome IsActive ActiveFlow (store_chunk seq chunk r.ses) _
                (store-IsActive seq chunk r.ses h)
                (λ ses' h'. acknowledge-IsActive o (record r { ses = ses' }) h'))
        ])
      ]

on_unpacked-IsActive :
    (o : Outcome) (found : Option (ℤ × List ℕ)) (r : Receiver)
    → IsActive r.ses
    → IfSome ActiveFlow (on_unpacked o found r)
unfolding on_unpacked
on_unpacked-IsActive o none r h = fail_with-IsActive r h
on_unpacked-IsActive o (some (seq, chunk)) r h = on_chunk-IsActive o seq chunk r h

on_fin-IsActive :
    (sha : List ℕ → ℕ) (o : Outcome) (fin : ℕ) (r : Receiver)
    → o.replies ≡ true
    → IsActive r.ses
    → ActiveFlow (on_fin sha o fin r)
unfolding on_fin conclude
on_fin-IsActive sha o fin r told h =
    let closed : Receiver = record r { ses = record r.ses { tmp_open = false } } in
    elim (Bool-cases (fin == r.ses.checksum)) [
      | inr other ↦ rw other (fail_with-IsActive r h)
      | inl same ↦ rw same (elim (Bool-cases (o.opens && sha r.ses.content == r.ses.checksum)) [
        | inr bad ↦ rw bad (fail_with-IsActive closed h)
        | inl good ↦ rw good (elim (Bool-cases o.renames) [
          | inr stays ↦ rw stays (fail_with-IsActive closed h)
          | inl moved ↦ rw (moved, told) (λ still_there. absurd (ground arith))
        ])
      ])
    ]

module _ (z : Zstd) (sha : List ℕ → ℕ) (checksum_of : List ℕ → ℕ) where
  receive-IsActive :
      (o : Outcome) (frame : Option (ℕ × List ℕ)) (r : Receiver)
      → o.replies ≡ true
      → IsActive r.ses
      → IfSome ActiveFlow (receive z sha checksum_of o frame r)
  unfolding receive on_data
  receive-IsActive o none r told h = fail-IsActive r h
  receive-IsActive o (some (typ, payload)) r told h = elim (Bool-cases (typ == frame_type_cancel)) [
    | inl cancel ↦ rw cancel (fail-IsActive r h)
    | inr c ↦ rw c (elim (Bool-cases (typ == frame_type_error)) [
      | inl remote ↦ rw remote (fail-IsActive r h)
      | inr e ↦ rw e (elim (Bool-cases (typ == frame_type_data)) [
        | inl chunk ↦ rw chunk (on_unpacked-IsActive o _ r h)
        | inr d ↦ rw d (elim (Bool-cases (typ == frame_type_fin)) [
          | inl fin ↦ rw fin (on_fin-IsActive sha o (checksum_of payload) r told h)
          | inr f ↦ rw f h
        ])
      ])
    ])
  ]

  next_turn-IsActive :
      (rest : Receiver → Option Flow)
      → ((r : Receiver) → IsActive r.ses → IfSome ActiveFlow (rest r))
      → (flow : Flow) → ActiveFlow flow
      → IfSome ActiveFlow (next_turn rest flow)
  next_turn-IsActive rest g (goes_on r) h = g r h
  next_turn-IsActive rest g (stopped r) h = h

  pub loop-IsActive :
      (fs : List (Outcome × Option (ℕ × List ℕ))) (r : Receiver)
      → All (λ f. f.0.replies ≡ true) fs
      → IsActive r.ses
      → IfSome ActiveFlow (receive_loop z sha checksum_of fs r)
  unfolding receive_loop
  loop-IsActive [] r told h = h
  loop-IsActive ((o, frame) ∷ fs) r told h =
      and_then-IfSome ActiveFlow ActiveFlow (receive z sha checksum_of o frame r) _
        (receive-IsActive o frame r told.0 h)
        λ flow h'.
          next_turn-IsActive (λ r'. receive_loop z sha checksum_of fs r')
            (λ r'. loop-IsActive fs r' told.1) flow h'
