-- ===== src/RelayFile/Send/Batches.antt =====
-- A batch of SendFile against the receiver, where nothing fails: it is acknowledged once, at its
-- end.
use peerscale.Prelude.{
  ℕ, zero, suc, ◌+◌, ◌-◌, ◌*◌, ◌/◌, ◌%◌, ◌^◌, ◌≤◌, ◌<◌, ◌≡◌, inl, inr, refl, Bool, true, false,
  some, List, ◌∷◌, length, drop, ◌==◌, arith, Bool-cases, ◌∙◌, ap, length-take, length-drop, min,
  if◌then◌else◌, subst,
}
use peerscale.RelayFile.Frame.{frame_type_data}
use peerscale.RelayFile.Pack.{Zstd, CompressMode, pack_data_frame}
use peerscale.RelayFile.Unpack.{IsLossless}
use peerscale.RelayFile.Receive.{Reply, ack, Receiver, goes_on}
use peerscale.RelayFile.Accept.{Disk}
use peerscale.RelayFile.Send.{
  chunk_size, total_chunks, LocalFile, choose_compression, Peer, batched, more, send_batch,
  batch_end,
}
use peerscale.RelayFile.Send.Remote.{Remote, set_flow, deliver, remote}
use peerscale.RelayFile.Send.Step.{due, chunk_of, Holds, receive_next}

chunk_starts : (n seq : ℕ) → seq < total_chunks n → seq * chunk_size < n
chunk_starts n seq l = elim (Bool-cases (n % chunk_size == 0)) [
  | inl whole ↦ let l' : seq < n / chunk_size = ground (arith, l) in omega (arith, l')
  | inr rest ↦
      let l' : seq < n / chunk_size + 1 = ground (arith, l) in
      let some_left : 0 < n % chunk_size = ground arith in omega (arith, l', some_left)
]

pub chunks_end : (n : ℕ) → n ≤ total_chunks n * chunk_size
chunks_end n = elim (Bool-cases (n % chunk_size == 0)) [
  | inl whole ↦ let e : n % chunk_size ≡ 0 = ground arith in rw whole (omega (arith, e))
  | inr rest ↦ rw rest (omega arith)
]

chunk_length :
    (content : List ℕ) (seq : ℕ)
    → length (chunk_of content seq) ≡ min chunk_size (length content - seq * chunk_size)
chunk_length content seq =
    length-take chunk_size (drop (seq * chunk_size) content)
    ∙ ap (min chunk_size) (length-drop (seq * chunk_size) content)

module _ (acked_to seq total : ℕ) where
  in_batch : seq < batch_end acked_to total → seq < total
  in_batch l = ground (arith, l)

  due_at_end : seq ≡ batch_end acked_to total → due acked_to total seq ≡ true
  due_at_end e = ground (arith, e)

  due_before_end : seq < batch_end acked_to total → due acked_to total seq ≡ false
  due_before_end l = ground (arith, l)

module _ (z : Zstd) (sha : List ℕ → ℕ) (checksum_of : List ℕ → ℕ) (fin_payload : ℕ → ℕ → List ℕ)
    (disk : Disk) (mode : CompressMode) (file : LocalFile) (lossless : IsLossless z)
    (short : length file.content < 2 ^ 63) (readable : (at : ℕ) → file.unreadable at ≡ false) where
  abbrev far : Peer Remote
  far = remote z sha checksum_of disk fin_payload

  abbrev total : ℕ
  total = total_chunks (length file.content)

  -- A session on whose receiver these hold, with all replies but the newest `unread` ones read.
  pub record Serves (acked_to seq : ℕ) (replies : List Reply) (read : ℕ) (s : Remote) : Type 0 where
    pub receiver : Receiver
    pub runs : s.flow ≡ some (goes_on receiver)
    pub holds :
        Holds
          (choose_compression mode file.detected)
          file.content
          file.checksum
          acked_to
          seq
          replies
          receiver
    pub has_read : s.read ≡ read

  not_empty : (seq : ℕ) → seq < total → (length (chunk_of file.content seq) == 0) ≡ false
  not_empty seq l =
      let some_bytes : 0 < length (chunk_of file.content seq) =
        omega (arith, chunk_length file.content seq, chunk_starts (length file.content) seq l) in
      ground (arith, some_bytes)

  full :
      (seq : ℕ)
      → seq + 1 < total
      → seq * chunk_size + length (chunk_of file.content seq) ≡ (seq + 1) * chunk_size
  full seq l =
      omega (arith, chunk_length file.content seq, chunk_starts (length file.content) (seq + 1) l)

  abbrev after_frame : Receiver → Remote → Remote
  after_frame r s = record s { flow = some (goes_on r) }

  abbrev Goes : ℕ → ℕ → ℕ → List Reply → Bool → Remote → Type 0
  Goes acked_to seq read replies true s = Serves seq seq (ack (seq - 1) ∷ replies) read s
  Goes acked_to seq read replies false s = Serves acked_to seq replies read s

  Goes-either :
      (acked_to seq read : ℕ) (replies : List Reply) (s : Remote) (r : Receiver) (b : Bool)
      → s.read ≡ read
      → (let c = choose_compression mode file.detected in
          if b
          then Holds c file.content file.checksum seq seq (ack (seq - 1) ∷ replies) r
          else Holds c file.content file.checksum acked_to seq replies r)
      → Goes acked_to seq read replies b (after_frame r s)
  Goes-either acked_to seq read replies s r false e h = record {
    receiver = r;
    runs = refl;
    holds = h;
    has_read = e;
  }
  Goes-either acked_to seq read replies s r true e h = record {
    receiver = r;
    runs = refl;
    holds = h;
    has_read = e;
  }

  abbrev frame_of : ℕ → ℕ × List ℕ
  frame_of seq = (
    frame_type_data,
    pack_data_frame z seq (chunk_of file.content seq) (choose_compression mode file.detected),
  )

  send_one :
      (left seq : ℕ) (s s' : Remote)
      → seq < total
      → deliver z sha checksum_of (frame_of seq) s.flow s ≡ some s'
      → send_batch far z mode file (suc left) seq (seq * chunk_size) s
        ≡ send_batch far z mode file left
            (seq + 1)
            (seq * chunk_size + length (chunk_of file.content seq))
            s'
  unfolding send_batch
  send_one left seq s s' l taken =
      let at = seq * chunk_size + length (chunk_of file.content seq) in
      rw (readable (seq * chunk_size), not_empty seq l)
        (ap (λ o. more far z mode file (send_batch far z mode file left (seq + 1) at) o s) taken)

  send_none : (seq at : ℕ) (s : Remote) → send_batch far z mode file 0 seq at s ≡ batched seq at s
  unfolding send_batch
  send_none seq at s = refl

  delivered :
      (acked_to seq read : ℕ) (replies : List Reply) (s : Remote)
      → Serves acked_to seq replies read s
      → acked_to ≤ seq
      → seq < total
      → (s' : Remote) × (deliver z sha checksum_of (frame_of seq) s.flow s ≡ some s')
        × Goes acked_to (seq + 1) read replies (due acked_to total (seq + 1)) s'
  delivered acked_to seq read replies s h o l =
      let (r, taken, reached) =
        receive_next z sha checksum_of lossless (choose_compression mode file.detected) file.content
          file.checksum short acked_to seq replies h.receiver h.holds o l in
      (
        after_frame r s,
        ap (λ flow. deliver z sha checksum_of (frame_of seq) flow s) h.runs ∙ ap (set_flow s) taken,
        Goes-either acked_to (seq + 1) read replies s r (due acked_to total (seq + 1)) h.has_read
            reached,
      )

  abbrev pub Acked : ℕ → ℕ → ℕ → List Reply → ℕ → ℕ → Remote → Type 0
  Acked left seq read replies at end s =
      (at' : ℕ) × (s' : Remote) × (send_batch far z mode file left seq at s ≡ batched end at' s')
      × Serves end end (ack (end - 1) ∷ replies) read s'

  -- From chunk `seq` to the end of a batch that began with chunk `acked_to`.
  pub send_batch-Acked :
      (left acked_to seq read : ℕ) (replies : List Reply) (s : Remote)
      → Serves acked_to seq replies read s
      → acked_to ≤ seq
      → seq + suc left ≡ batch_end acked_to total
      → Acked (suc left) seq read replies (seq * chunk_size) (batch_end acked_to total) s
  send_batch-Acked zero acked_to seq read replies s h o e =
      let inside = in_batch acked_to seq total (omega (arith, e)) in
      let (s', taken, served) = delivered acked_to seq read replies s h o inside in
      let last : seq + 1 ≡ batch_end acked_to total = omega (arith, e) in
      subst (λ end. Acked 1 seq read replies (seq * chunk_size) end s) last
        (
          _,
          s',
          send_one 0 seq s s' inside taken
              ∙ send_none (seq + 1) (seq * chunk_size + length (chunk_of file.content seq)) s',
          subst (λ b. Goes acked_to (seq + 1) read replies b s')
              (due_at_end acked_to (seq + 1) total last) served,
        )
  send_batch-Acked (suc left) acked_to seq read replies s h o e =
      let inside = in_batch acked_to seq total (omega (arith, e)) in
      let (s', taken, served) = delivered acked_to seq read replies s h o inside in
      let l : seq + 1 < batch_end acked_to total = omega (arith, e) in
      let (at, s'', rest, all) =
        send_batch-Acked left acked_to (seq + 1) read replies s'
          (subst (λ b. Goes acked_to (seq + 1) read replies b s')
            (due_before_end acked_to (seq + 1) total l) served)
          (omega (arith, o)) (omega (arith, e)) in
      (
        at,
        s'',
        send_one (suc left) seq s s' inside taken
            ∙ ap (λ at. send_batch far z mode file (suc left) (seq + 1) at s')
                (full seq (in_batch acked_to (seq + 1) total l))
            ∙ rest,
        all,
      )
