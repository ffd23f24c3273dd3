-- ===== src/RelayFile/Send/Step.antt =====
-- What the receiver makes of one chunk of a file that comes in order, and when it acknowledges.
use peerscale.Prelude.{
  ℕ, zero, suc, ◌+◌, ◌-◌, ◌*◌, ◌/◌, ◌%◌, ◌^◌, ◌≤◌, ◌<◌, ◌≡◌, inl, inr, refl, Bool, true, false,
  ◌||◌, some, List, [], ◌∷◌, ◌++◌, length, take, drop, ltb, leb, arith, Bool-cases, ◌∙◌, ap, sym,
  length-take, if◌then◌else◌,
}
use peerscale.RelayFile.Bitmap.{has_pos, bitmap_max_continuous}
use peerscale.RelayFile.Chunks.{has_pos-set_word, length-set_word, continuous_from_first}
use peerscale.RelayFile.Frame.{frame_type_data}
use peerscale.RelayFile.Pack.{Zstd, Compression, pack_data_frame}
use peerscale.RelayFile.Unpack.{IsLossless, unpack_data_frame-pack_data_frame}
use peerscale.RelayFile.Receive.{Reply, ack, Receiver, goes_on, acknowledge, ack_batch, receive}
use peerscale.RelayFile.Transfer.{IsReady, fine, after, after-IsReady, receive-chunk}
use peerscale.RelayFile.Send.{chunk_size, total_chunks}

continuous_exact :
    (bitmap : List ℕ) (seq total : ℕ)
    → ((j : ℕ) → j < seq → has_pos bitmap j ≡ true)
    → ((j : ℕ) → seq ≤ j → has_pos bitmap j ≡ false)
    → seq ≤ total
    → bitmap_max_continuous bitmap total ≡ seq
unfolding bitmap_max_continuous
continuous_exact bitmap seq total have missing l =
    let (low, high, all, next) = continuous_from_first bitmap 0 total in
    let n = bitmap_max_continuous bitmap total in
    ground (arith, high, all seq (omega arith), next, have n, missing seq (omega arith))

-- The receiver once it has acknowledged the chunks below `n`.
abbrev acked : ℕ → Receiver → Receiver
acked n r = record { ses = record r.ses { sent = ack (n - 1) ∷ r.ses.sent }; last_ack = n }

-- Whether the chunks below `n` are acknowledged at once.
abbrev pub due : ℕ → ℕ → ℕ → Bool
due last total n = leb (last + ack_batch) n || leb total n

acknowledge_exact :
    (r : Receiver) (n : ℕ)
    → bitmap_max_continuous r.ses.bitmap r.ses.total_chunks ≡ n
    → r.last_ack < n
    → acknowledge fine r ≡ goes_on (if due r.last_ack r.ses.total_chunks n then acked n r else r)
unfolding acknowledge
acknowledge_exact r n e l = rw e (elim (Bool-cases (due r.last_ack r.ses.total_chunks n)) [
  | inl yes_due ↦
      rw yes_due (let newer : ltb r.last_ack n ≡ true = ground (arith, l) in rw newer refl)
  | inr not_due ↦ rw not_due refl
])

take-nil : (n : ℕ) → take {A = ℕ} n [] ≡ []
take-nil zero = refl
take-nil (suc n) = refl

take_more : (n k : ℕ) (xs : List ℕ) → take n xs ++ take k (drop n xs) ≡ take (n + k) xs
take_more zero k xs = ap (λ m. take m xs) (omega arith)
take_more (suc n) k [] = take-nil k ∙ sym (take-nil (suc n + k))
take_more (suc n) k (x ∷ xs) =
    let e : suc (n + k) ≡ suc n + k = omega arith in
    ap (λ l. x ∷ l) (take_more n k xs) ∙ ap (λ m. take m (x ∷ xs)) e

abbrev pub chunk_of : List ℕ → ℕ → List ℕ
chunk_of content seq = take chunk_size (drop (seq * chunk_size) content)

-- The receiver has the file's first `seq` chunks and no other, acknowledged those below
-- `acked_to`, and has sent these replies.
pub record Holds (c : Compression) (content : List ℕ) (sum acked_to seq : ℕ) (replies : List Reply)
    (r : Receiver) : Type 0 where
  pub stored : r.ses.content ≡ take (seq * chunk_size) content
  pub ready : IsReady seq r
  pub have : (j : ℕ) → j < seq → has_pos r.ses.bitmap j ≡ true
  pub room : total_chunks (length content) ≤ 64 * length r.ses.bitmap
  pub total : r.ses.total_chunks ≡ total_chunks (length content)
  pub compression : r.ses.compression ≡ c
  pub checksum : r.ses.checksum ≡ sum
  pub last : r.last_ack ≡ acked_to
  pub sent : r.ses.sent ≡ replies

module _ (z : Zstd) (sha : List ℕ → ℕ) (checksum_of : List ℕ → ℕ) (lossless : IsLossless z)
    (c : Compression) (content : List ℕ) (sum : ℕ) (short : length content < 2 ^ 63) where
  after-Holds :
      (last seq : ℕ) (sent : List Reply) (r : Receiver)
      → Holds c content sum last seq sent r
      → seq < total_chunks (length content)
      → Holds c content sum last (seq + 1) sent (after seq (chunk_of content seq) r)
  after-Holds last seq sent r h l =
      let (grown, ready) = after-IsReady seq (chunk_of content seq) r h.ready in
      record {
        stored =
            grown
            ∙ ap (λ xs. xs ++ chunk_of content seq) h.stored
            ∙ take_more (seq * chunk_size) chunk_size content
            ∙ ap (λ n. take n content) (omega arith);
        ready = ready;
        have = λ j k. ground (arith, has_pos-set_word r.ses.bitmap seq j, h.have j, h.room, l);
        room = omega (arith, h.room, length-set_word r.ses.bitmap (seq / 64) (seq % 64));
        total = h.total;
        compression = h.compression;
        checksum = h.checksum;
        last = h.last;
        sent = h.sent;
      }

  abbrev Reached : ℕ → ℕ → List Reply → Receiver → Type 0
  Reached last seq sent r =
      if due last (total_chunks (length content)) seq
      then Holds c content sum seq seq (ack (seq - 1) ∷ sent) r
      else Holds c content sum last seq sent r

  acked-Holds :
      (last seq : ℕ) (sent : List Reply) (r : Receiver)
      → Holds c content sum last seq sent r
      → Holds c content sum seq seq (ack (seq - 1) ∷ sent) (acked seq r)
  acked-Holds last seq sent r h = record {
    stored = h.stored;
    ready = record { at_end = h.ready.at_end; missing = h.ready.missing };
    have = h.have;
    room = h.room;
    total = h.total;
    compression = h.compression;
    checksum = h.checksum;
    last = refl;
    sent = ap (λ l. ack (seq - 1) ∷ l) h.sent;
  }

  either_Reached :
      (last seq : ℕ) (sent : List Reply) (r : Receiver) (b : Bool)
      → due last (total_chunks (length content)) seq ≡ b
      → Holds c content sum last seq sent r
      → Reached last seq sent (if b then acked seq r else r)
  either_Reached last seq sent r false e h = rw e h
  either_Reached last seq sent r true e h = rw e (acked-Holds last seq sent r h)

  -- The next chunk of the file, of fewer than 2 ^ 63 bytes.
  pub receive_next :
      (last seq : ℕ) (sent : List Reply) (r : Receiver)
      → Holds c content sum last seq sent r
      → last ≤ seq
      → seq < total_chunks (length content)
      → (r' : Receiver) × (receive z sha checksum_of fine
            (some (frame_type_data, pack_data_frame z seq (chunk_of content seq) c))
            r
          ≡ some (goes_on r'))
        × Reached last (seq + 1) sent r'
  receive_next last seq sent r h o l =
      let next = after seq (chunk_of content seq) r in
      let held = after-Holds last seq sent r h l in
      let exact =
        ap (bitmap_max_continuous next.ses.bitmap) held.total
        ∙ continuous_exact next.ses.bitmap (seq + 1) (total_chunks (length content)) held.have
            held.ready.missing (omega arith) in
      let judged =
        ap (λ a. due a next.ses.total_chunks (seq + 1)) held.last
        ∙ ap (λ t. due last t (seq + 1)) held.total in
      let size : length (chunk_of content seq) < 2 ^ 32 =
        omega (arith, length-take chunk_size (drop (seq * chunk_size) content)) in
      (
        _,
        receive-chunk z sha checksum_of c seq (chunk_of content seq) r
              (unpack_data_frame-pack_data_frame z seq (chunk_of content seq) c lossless
                (ground arith) size)
              h.compression (h.ready.missing seq (omega arith))
            ∙ ap (λ f. some f)
                (acknowledge_exact next (seq + 1) exact (omega (arith, held.last, o))
                  ∙ ap (λ b. goes_on (if b then acked (seq + 1) next else next)) judged),
        either_Reached last (seq + 1) sent next _ refl held,
      )
