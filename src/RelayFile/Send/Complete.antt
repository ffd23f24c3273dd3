-- ===== src/RelayFile/Send/Complete.antt =====
-- SendFile and the receiver together, where nothing fails: the file arrives.
use peerscale.Prelude.{
  ℕ, zero, suc, ◌+◌, ◌-◌, ◌*◌, ◌^◌, ◌≤◌, ◌<◌, ◌≡◌, inl, inr, refl, true, false, Option, none, some,
  List, [], ◌∷◌, length, ltb, ◌==◌, arith, Bool-cases, ◌∙◌, ap, sym, if◌then◌else◌, subst, and_then,
}
use peerscale.RelayFile.Frame.{frame_type_fin}
use peerscale.RelayFile.Pack.{Zstd, CompressMode}
use peerscale.RelayFile.Unpack.{IsLossless}
use peerscale.RelayFile.Receive.{Reply, ack, ok, goes_on, stopped}
use peerscale.RelayFile.Accept.{Disk}
use peerscale.RelayFile.Send.{
  Peer, chunk_size, total_chunks, LocalFile, handshake, sending, again, returned, send_batch,
  batch_end, after_batch, after_ack, after_init, after_fin, after_done, turn, go_on, run, send_file,
}
use peerscale.RelayFile.Send.Remote.{
  Remote, session, deliver, remote, answered, take_reply, next_reply, as_ack, as_done, set_flow,
}
use peerscale.RelayFile.Send.Ends.{
  take-all, begins, next_reply_newest, next_reply_stopped, finished, receive_fin,
}
use peerscale.RelayFile.Send.Batches.{Serves, send_batch-Acked, chunks_end}

-- What the receiver has put at the final path.
abbrev pub saved_file : Remote → Option (List ℕ)
saved_file s = and_then s.flow (λ flow. (session flow).saved)

module _ (z : Zstd) (sha : List ℕ → ℕ) (checksum_of : List ℕ → ℕ) (fin_payload : ℕ → ℕ → List ℕ)
    (disk : Disk) (mode : CompressMode) (file : LocalFile) (lossless : IsLossless z)
    (short : length file.content < 2 ^ 63) (readable : (at : ℕ) → file.unreadable at ≡ false) where
  abbrev link : Peer Remote
  link = remote z sha checksum_of disk fin_payload

  abbrev chunks : ℕ
  chunks = total_chunks (length file.content)

  abbrev Ready : ℕ → List Reply → Remote → Type 0
  Ready seq replies s =
      Serves z sha checksum_of fin_payload disk mode file lossless short readable seq seq replies
        (length replies) s

  -- The sender reads the newest acknowledgment.
  read_ack :
      (seq end n : ℕ) (replies : List Reply) (s : Remote)
      → Serves z sha checksum_of fin_payload disk mode file lossless short readable end end
          (ack n ∷ replies)
          (length replies)
          s
      → after_ack link z mode file seq (link.get_ack s).0 (link.get_ack s).1
        ≡ again (sending (n + 1) ((n + 1) * chunk_size)) (record s { read = s.read + 1 })
  read_ack seq end n replies s h =
      let newest =
        ap (next_reply (goes_on h.receiver)) h.has_read
        ∙ next_reply_newest h.receiver (ack n) replies h.holds.sent in
      ap (λ f. after_ack link z mode file seq (as_ack (take_reply f s).0) (take_reply f s).1) h.runs
      ∙ ap (λ o. after_ack link z mode file seq (as_ack o) (record s { read = s.read + 1 })) newest

  then_Ready :
      (end : ℕ) (replies : List Reply) (s : Remote)
      → Serves z sha checksum_of fin_payload disk mode file lossless short readable end end
          (ack (end - 1) ∷ replies)
          (length replies)
          s
      → Ready end (ack (end - 1) ∷ replies) (record s { read = s.read + 1 })
  then_Ready end replies s h = record {
    receiver = h.receiver;
    runs = h.runs;
    holds = h.holds;
    has_read = omega (arith, h.has_read);
  }

  batch_size :
      (seq total : ℕ)
      → seq < total
      → (left : ℕ) × (batch_end seq total - seq ≡ suc left) × (batch_end seq total ≤ total)
  batch_size seq total l = (batch_end seq total - seq - 1, ground (arith, l), ground (arith, l))

  sending_turn :
      (seq at : ℕ) (s : Remote)
      → seq < chunks
      → turn link z mode file (sending seq at) s
        ≡ after_batch link z mode file
            (send_batch link z mode file (batch_end seq chunks - seq) seq at s)
  unfolding turn
  sending_turn seq at s l = let inside : ltb seq chunks ≡ true = ground (arith, l) in rw inside refl

  batch_turn :
      (seq : ℕ) (replies : List Reply) (s : Remote)
      → Ready seq replies s
      → seq < chunks
      → (end : ℕ) × (s' : Remote) × (turn link z mode file (sending seq (seq * chunk_size)) s
          ≡ again (sending end (end * chunk_size)) s')
        × (seq < end)
        × (end ≤ chunks)
        × Ready end (ack (end - 1) ∷ replies) s'
  batch_turn seq replies s h l =
      let (left, size, last) = batch_size seq chunks l in
      let end = batch_end seq chunks in
      let (at, s', sent, served) =
        send_batch-Acked z sha checksum_of fin_payload disk mode file lossless short readable left
          seq seq (length replies) replies s h (omega arith) (omega (arith, size)) in
      let next : end - 1 + 1 ≡ end = omega (arith, size) in
      (
        end,
        record s' { read = s'.read + 1 },
        sending_turn seq (seq * chunk_size) s l
            ∙ ap
                (λ n.
                  after_batch link z mode file
                    (send_batch link z mode file n seq (seq * chunk_size) s))
                size
            ∙ ap (after_batch link z mode file) sent
            ∙ read_ack end end (end - 1) replies s' served
            ∙ ap (λ n. again (sending n (n * chunk_size)) (record s' { read = s'.read + 1 })) next,
        omega (arith, size),
        last,
        then_Ready end replies s' served,
      )

  fin_turn :
      (at : ℕ) (s : Remote)
      → turn link z mode file (sending chunks at) s
        ≡ after_fin link z mode file (link.put_fin chunks file.checksum s) s
  unfolding turn
  fin_turn at s = let outside : ltb chunks chunks ≡ false = ground arith in rw outside refl

  fin_received :
      (replies : List Reply) (s : Remote)
      → Ready chunks replies s
      → file.checksum ≡ sha file.content
      → checksum_of (fin_payload chunks file.checksum) ≡ file.checksum
      → (s' : Remote) × (turn link z mode file (sending chunks (chunks * chunk_size)) s
          ≡ returned none s')
        × (saved_file s' ≡ some file.content)
  fin_received replies s h genuine decodes =
      let r = h.receiver in
      let whole : r.ses.content ≡ file.content =
        h.holds.stored
        ∙ take-all (chunks * chunk_size) file.content (chunks_end (length file.content)) in
      let same : (checksum_of (fin_payload chunks file.checksum) == r.ses.checksum) ≡ true =
        ground (arith, decodes, h.holds.checksum) in
      let good : (sha r.ses.content == r.ses.checksum) ≡ true =
        ground (arith, ap sha whole, genuine, h.holds.checksum) in
      let closed = receive_fin z sha checksum_of _ r same good in
      let newest =
        ap (next_reply (stopped (finished r))) h.has_read
        ∙ next_reply_stopped (finished r) ok replies (ap (λ l. ok ∷ l) h.holds.sent) in
      let s' : Remote = record s { flow = some (stopped (finished r)) } in
      (
        record s' { read = s.read + 1 },
        fin_turn (chunks * chunk_size) s
            ∙ ap
                (λ f.
                  after_fin link z mode file
                    (deliver z sha checksum_of (frame_type_fin, fin_payload chunks file.checksum) f
                      s)
                    s)
                h.runs
            ∙ ap (λ o. after_fin link z mode file (set_flow s o) s) closed
            ∙ ap
                (λ o.
                  after_done link z mode file
                    (if as_done o then some (record s' { read = s.read + 1 }) else none) s')
                newest,
        ap (λ c. some c) whole,
      )

  saves_from :
      (fuel seq : ℕ) (replies : List Reply) (s : Remote)
      → Ready seq replies s
      → seq ≤ chunks
      → chunks < fuel + seq
      → file.checksum ≡ sha file.content
      → checksum_of (fin_payload chunks file.checksum) ≡ file.checksum
      → (s' : Remote) × (run link z mode file fuel (sending seq (seq * chunk_size)) s
          ≡ some (none, s'))
        × (saved_file s' ≡ some file.content)
  unfolding run
  saves_from zero seq replies s h l f genuine decodes = absurd (omega arith)
  saves_from (suc fuel) seq replies s h l f genuine decodes = elim (Bool-cases (seq == chunks)) [
    | inl at_end ↦
        let e : chunks ≡ seq = ground arith in
        let (s', ends, saved) =
          fin_received replies s (subst (λ n. Ready n replies s) (sym e) h) genuine decodes in
        (
          s',
          ap
                (λ n.
                  go_on link z mode file (run link z mode file fuel)
                    (turn link z mode file (sending n (n * chunk_size)) s))
                (sym e)
              ∙ ap (go_on link z mode file (run link z mode file fuel)) ends,
          saved,
        )
    | inr before ↦
        let (end, s₁, sent, further, inside, ready) =
          batch_turn seq replies s h (ground (arith, l)) in
        let (s', ends, saved) =
          saves_from fuel end _ s₁ ready inside (omega (arith, f)) genuine decodes in
        (s', ap (go_on link z mode file (run link z mode file fuel)) sent ∙ ends, saved)
  ]

  turn-handshake :
      (s : Remote)
      → (disk.makes_dir ≡ true) × (disk.creates ≡ true) × (disk.writes ≡ true)
      → (s' : Remote) × (turn link z mode file (handshake 0) s ≡ again (sending 0 0) s')
        × Ready 0 [] s'
  unfolding turn
  turn-handshake s working =
      let (r, accepts, holds) = begins mode file disk working in
      (
        record { offset = none; flow = some (goes_on r); read = 0 },
        ap (λ o. after_init link z mode file (answered o) s) accepts,
        record { receiver = r; runs = refl; holds = holds; has_read = refl },
      )

  -- A file of fewer than 2 ^ 63 bytes that can be read arrives: with a lossless compressor, a JSON
  -- text that gives the checksum back, and a receiver whose disk works, SendFile returns without an
  -- error after one turn for the handshake, one for the end and at most one for each chunk, whatever
  -- the mode of compression, and the receiver has saved exactly the file's content.
  pub send_file-saves :
      (s : Remote)
      → (disk.makes_dir ≡ true) × (disk.creates ≡ true) × (disk.writes ≡ true)
      → file.checksum ≡ sha file.content
      → checksum_of (fin_payload chunks file.checksum) ≡ file.checksum
      → (s' : Remote) × (send_file link z mode file (chunks + 2) s ≡ some (none, s'))
        × (saved_file s' ≡ some file.content)
  unfolding send_file run
  send_file-saves s working genuine decodes =
      let s₀ : Remote = record { offset = none; flow = none; read = 0 } in
      let (s₁, accepts, ready) = turn-handshake s₀ working in
      let (s', ends, saved) =
        saves_from (chunks + 1) 0 [] s₁ ready (omega arith) (omega arith) genuine decodes in
      let fuel : chunks + 2 ≡ suc (chunks + 1) = omega arith in
      (
        s',
        ap (λ n. run link z mode file n (handshake 0) s₀) fuel
            ∙ ap (go_on link z mode file (run link z mode file (chunks + 1))) accepts
            ∙ ends,
        saved,
      )
