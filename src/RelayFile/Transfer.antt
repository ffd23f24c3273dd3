-- ===== src/RelayFile/Transfer.antt =====
-- A transfer in which nothing fails, and a frame on which the receiver panics.
use peerscale.Prelude.{
  ℕ, ◌+◌, ◌≤◌, ◌<◌, ◌≡◌, ◌^◌, ◌/◌, ◌%◌, inl, inr, refl, true, false, ◌&&◌, ◌||◌, Option, none, some,
  List, [], ◌∷◌, ◌++◌, ltb, leb, arith, length, Bool-cases, ◌∙◌, ap, and_then, All, sym,
  length-append, drop,
}
use peerscale.RelayFile.Frame.{frame_type_data}
use peerscale.RelayFile.Bitmap.{
  pos, negsuc, has_pos, bitmap_has, bitmap_set, bitmap_max_continuous, set_word,
}
use peerscale.RelayFile.Chunks.{has_pos-set_word}
use peerscale.RelayFile.Pack.{Zstd, Compression, pack_data_frame, unpack_data_frame}
use peerscale.RelayFile.Unpack.{IsLossless, unpack_data_frame-pack_data_frame}
use peerscale.RelayFile.Receive.{
  Receiver, goes_on, Outcome, overwrite, acknowledge, store_chunk, on_chunk, on_unpacked, on_data,
  receive, receive_loop, next_turn,
}

abbrev pub fine : Outcome
fine = record { writes = true; replies = true; opens = true; renames = true }

-- The frames that the sender writes for chunks from number `seq` on, which arrive in order.
abbrev pub packets : Zstd → Compression → ℕ → List (List ℕ) → List (Outcome × Option (ℕ × List ℕ))
packets z c seq [] = []
packets z c seq (chunk ∷ chunks) =
    (fine, some (frame_type_data, pack_data_frame z seq chunk c)) ∷ packets z c (seq + 1) chunks

abbrev pub concat : List (List ℕ) → List ℕ
concat [] = []
concat (c ∷ cs) = c ++ concat cs

-- Ready for chunk `seq`: the file is at its end, and no chunk from `seq` on has been received.
pub record IsReady (seq : ℕ) (r : Receiver) : Type 0 where
  pub at_end : r.ses.position ≡ length r.ses.content
  pub missing : (j : ℕ) → seq ≤ j → has_pos r.ses.bitmap j ≡ false

overwrite-nil : (new : List ℕ) → new ++ drop (length new) [] ≡ new
overwrite-nil [] = refl
overwrite-nil (b ∷ []) = refl
overwrite-nil (b ∷ c ∷ new) = ap (λ l. b ∷ l) (overwrite-nil (c ∷ new))

overwrite-end : (old new : List ℕ) → overwrite (length old) new old ≡ old ++ new
overwrite-end [] new = overwrite-nil new
overwrite-end (b ∷ old) new = ap (λ l. b ∷ l) (overwrite-end old new)

append_nil : (xs : List ℕ) → xs ++ [] ≡ xs
append_nil [] = refl
append_nil (x ∷ xs) = ap (λ l. x ∷ l) (append_nil xs)

append_assoc : (xs ys zs : List ℕ) → (xs ++ ys) ++ zs ≡ xs ++ (ys ++ zs)
append_assoc [] ys zs = refl
append_assoc (x ∷ xs) ys zs = ap (λ l. x ∷ l) (append_assoc xs ys zs)

-- The same file, bitmap and compression.
record Same (r r' : Receiver) : Type 0 where
  content : r'.ses.content ≡ r.ses.content
  position : r'.ses.position ≡ r.ses.position
  bitmap : r'.ses.bitmap ≡ r.ses.bitmap
  compression : r'.ses.compression ≡ r.ses.compression

acknowledge-Same : (r : Receiver) → (r' : Receiver) × (acknowledge fine r ≡ goes_on r') × Same r r'
unfolding acknowledge
acknowledge-Same r =
    let new_seq = bitmap_max_continuous r.ses.bitmap r.ses.total_chunks in
    elim (Bool-cases (
      (leb (r.last_ack + 8) new_seq || leb r.ses.total_chunks new_seq) && ltb r.last_ack new_seq)) [
        | inl due ↦
            rw due (
              _,
              refl,
              record { content = refl; position = refl; bitmap = refl; compression = refl },
            )
        | inr quiet ↦
            rw quiet (
              r,
              refl,
              record { content = refl; position = refl; bitmap = refl; compression = refl },
            )
      ]

-- The session after the next chunk is stored.
abbrev pub after : ℕ → List ℕ → Receiver → Receiver
after seq chunk r = record r {
  ses = record r.ses {
    bitmap = set_word r.ses.bitmap (seq / 64) (seq % 64);
    content = overwrite r.ses.position chunk r.ses.content;
    position = r.ses.position + length chunk;
    done_bytes = r.ses.done_bytes + length chunk;
  };
}

on_chunk-after :
    (seq : ℕ) (chunk : List ℕ) (r : Receiver)
    → has_pos r.ses.bitmap seq ≡ false
    → on_chunk fine (pos seq) chunk r ≡ some (acknowledge fine (after seq chunk r))
unfolding on_chunk store_chunk bitmap_has bitmap_set
on_chunk-after seq chunk r h = rw h refl

pub after-IsReady :
    (seq : ℕ) (chunk : List ℕ) (r : Receiver)
    → IsReady seq r
    → ((after seq chunk r).ses.content ≡ r.ses.content ++ chunk)
      × IsReady (seq + 1) (after seq chunk r)
after-IsReady seq chunk r h =
    let e =
      ap (λ p. overwrite p chunk r.ses.content) h.at_end ∙ overwrite-end r.ses.content chunk in
    (
      e,
      record {
        at_end = omega (arith, ap length e, h.at_end, length-append r.ses.content chunk);
        missing = λ j l.
            ground (arith, has_pos-set_word r.ses.bitmap seq j, h.missing j (omega (arith, l)));
      },
    )

IsReady-Same : (seq : ℕ) (r r' : Receiver) → Same r r' → IsReady seq r → IsReady seq r'
IsReady-Same seq r r' s h = record {
  at_end = s.position ∙ h.at_end ∙ ap length (sym s.content);
  missing = λ j l. ap (λ b. has_pos b j) s.bitmap ∙ h.missing j l;
}

module _ (z : Zstd) (sha : List ℕ → ℕ) (checksum_of : List ℕ → ℕ) (c : Compression) where
  pub receive-chunk :
      (seq : ℕ) (chunk : List ℕ) (r : Receiver)
      → unpack_data_frame z (pack_data_frame z seq chunk c) c ≡ some (pos seq, chunk)
      → r.ses.compression ≡ c
      → has_pos r.ses.bitmap seq ≡ false
      → receive z sha checksum_of fine (some (frame_type_data, pack_data_frame z seq chunk c)) r
        ≡ some (acknowledge fine (after seq chunk r))
  unfolding receive on_data on_unpacked
  receive-chunk seq chunk r u k h =
      ap (λ k'. on_unpacked fine (unpack_data_frame z (pack_data_frame z seq chunk c) k') r) k
      ∙ ap (λ found. on_unpacked fine found r) u
      ∙ on_chunk-after seq chunk r h

  -- With a lossless compressor: if the sender's chunks, of fewer than 2 ^ 32 bytes each, arrive in
  -- order and nothing fails, a receiver whose file ends where the next chunk belongs, and that has
  -- none of them, takes them all, goes on, and has them at the end of its file.
  pub receive_loop-packets :
      (seq : ℕ) (chunks : List (List ℕ)) (r : Receiver)
      → IsLossless z
      → r.ses.compression ≡ c
      → seq + length chunks < 2 ^ 63
      → All (λ chunk. length chunk < 2 ^ 32) chunks
      → IsReady seq r
      → (r' : Receiver) × (receive_loop z sha checksum_of (packets z c seq chunks) r
          ≡ some (goes_on r'))
        × (r'.ses.content ≡ r.ses.content ++ concat chunks)
  unfolding receive_loop
  receive_loop-packets seq [] r l k s b h = (r, refl, sym (append_nil r.ses.content))
  receive_loop-packets seq (chunk ∷ chunks) r l k s b h =
      let (content, ready) = after-IsReady seq chunk r h in
      let (r₁, acked, same) = acknowledge-Same (after seq chunk r) in
      let u = unpack_data_frame-pack_data_frame z seq chunk c l (omega (arith, s)) b.0 in
      let taken =
        receive-chunk seq chunk r u k (h.missing seq (omega arith)) ∙ ap (λ f. some f) acked in
      let (r₂, went_on, all) =
        receive_loop-packets (seq + 1) chunks r₁ l (same.compression ∙ k) (omega (arith, s)) b.1
          (IsReady-Same (seq + 1) (after seq chunk r) r₁ same ready) in
      (
        r₂,
        ap
              (λ o. and_then o (
                next_turn (λ r'. receive_loop z sha checksum_of (packets z c (seq + 1) chunks) r')))
              taken
            ∙ went_on,
        all
            ∙ ap (λ xs. xs ++ concat chunks) (same.content ∙ content)
            ∙ append_assoc r.ses.content chunk (concat chunks),
      )

  -- Any data frame that unpacks to a sequence number of -64 or less makes the receiver panic,
  -- whatever it has received before.
  receive-panics :
      (o : Outcome) (n : ℕ) (payload chunk : List ℕ) (r : Receiver)
      → r.ses.compression ≡ c
      → unpack_data_frame z payload c ≡ some (negsuc n, chunk)
      → 63 ≤ n
      → receive z sha checksum_of o (some (frame_type_data, payload)) r ≡ none
  unfolding receive on_data on_unpacked on_chunk bitmap_has
  receive-panics o n payload chunk r k u h = rw (k, u) (ground arith)
