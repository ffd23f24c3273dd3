-- ===== src/RelayFile/Unpack.antt =====
-- A data frame's payload gives back its chunk.
use peerscale.Prelude.{
  ℕ, ◌%◌, ◌^◌, ◌<◌, ◌≡◌, ◌≢◌, refl, some, List, [], ◌∷◌, ◌++◌, length, arith, ap, ◌∙◌, sym,
}
use peerscale.RelayFile.Frame.{put_uint, uint, read_full}
use peerscale.RelayFile.Bitmap.{pos, int64}
use peerscale.RelayFile.Roundtrip.{read_uint, read_full-append}
use peerscale.RelayFile.Pack.{
  Zstd, Compression, zstd, uncompressed, zstd_compress_block, zstd_decompress_block,
  pack_data_frame, unpack_data_frame,
}

-- What the package promises: a block that is not empty is encoded to something that is not empty,
-- which decodes to the block.
pub record IsLossless (z : Zstd) : Type 0 where
  pub decodes :
      (block : List ℕ)
      → block ≢ []
      → (b : ℕ) × (bs : List ℕ) × (z.encode block ≡ some (b ∷ bs))
        × (z.decode (b ∷ bs) ≡ some block)

append_nil : (xs : List ℕ) → xs ++ [] ≡ xs
append_nil [] = refl
append_nil (x ∷ xs) = ap (λ l. x ∷ l) (append_nil xs)

whole : (xs : List ℕ) → read_full (length xs) xs ≡ some (xs, [])
whole xs =
    ap (read_full (length xs)) (sym (append_nil xs)) ∙ read_full-append (length xs) xs [] refl

compressed :
    (z : Zstd) (x b : ℕ) (xs bs : List ℕ)
    → z.encode (x ∷ xs) ≡ some (b ∷ bs)
    → zstd_compress_block z (x ∷ xs) ≡ b ∷ bs
unfolding zstd_compress_block
compressed z x b xs bs out = rw (out, zstd_compress_block) refl

decompressed :
    (z : Zstd) (b : ℕ) (bs block : List ℕ)
    → z.decode (b ∷ bs) ≡ some block
    → zstd_decompress_block z (b ∷ bs) (length block) ≡ some block
unfolding zstd_decompress_block
decompressed z b bs block back = rw (back, whole block) refl

zstd_decompress-compress :
    (z : Zstd) (block : List ℕ)
    → IsLossless z
    → zstd_decompress_block z (zstd_compress_block z block) (length block) ≡ some block
unfolding zstd_compress_block zstd_decompress_block
zstd_decompress-compress z [] l = refl
zstd_decompress-compress z (x ∷ xs) l =
    let (b, bs, out, back) = l.decodes (x ∷ xs) (λ e. ground (arith, ap length e)) in
    ap (λ p. zstd_decompress_block z p (length (x ∷ xs))) (compressed z x b xs bs out)
    ∙ decompressed z b bs (x ∷ xs) back

int64-small : (v : ℕ) → v < 2 ^ 63 → int64 v ≡ pos v
unfolding int64
int64-small v h = ground arith

unpack_zstd :
    (z : Zstd) (payload head body size packed block : List ℕ) (seq : ℕ)
    → read_full 8 payload ≡ some (head, body)
    → int64 (uint head) ≡ pos seq
    → read_full 4 body ≡ some (size, packed)
    → uint size ≡ length block
    → zstd_decompress_block z packed (length block) ≡ some block
    → unpack_data_frame z payload zstd ≡ some (pos seq, block)
unfolding unpack_data_frame
unpack_zstd z payload head body size packed block seq h s h' n b = rw (h, h', n, b, s) refl

unpack_plain :
    (z : Zstd) (payload head block : List ℕ) (seq : ℕ)
    → read_full 8 payload ≡ some (head, block)
    → int64 (uint head) ≡ pos seq
    → unpack_data_frame z payload uncompressed ≡ some (pos seq, block)
unfolding unpack_data_frame
unpack_plain z payload head block seq h s = rw (h, s) refl

-- With a lossless compressor, of a sequence number below 2 ^ 63 and a chunk shorter than 2 ^ 32
-- bytes, unpackDataFrame gives back what packDataFrame took, with and without compression.
pub unpack_data_frame-pack_data_frame :
    (z : Zstd) (seq : ℕ) (block : List ℕ) (c : Compression)
    → IsLossless z
    → seq < 2 ^ 63
    → length block < 2 ^ 32
    → unpack_data_frame z (pack_data_frame z seq block c) c ≡ some (pos seq, block)
unfolding pack_data_frame
unpack_data_frame-pack_data_frame z seq block uncompressed l s h =
    let (head, value) = read_uint 8 (seq % 2 ^ 64) block (omega arith) in
    unpack_plain z _ _ block seq head (ap int64 (value ∙ omega (arith, s)) ∙ int64-small seq s)
unpack_data_frame-pack_data_frame z seq block zstd l s h =
    let packed = zstd_compress_block z block in
    let size = put_uint 4 (length block % 2 ^ 32) in
    let (head, value) = read_uint 8 (seq % 2 ^ 64) (size ++ packed) (omega arith) in
    let (head', value') = read_uint 4 (length block % 2 ^ 32) packed (omega arith) in
    unpack_zstd z _ _ (size ++ packed) size packed block seq head
      (ap int64 (value ∙ omega (arith, s)) ∙ int64-small seq s) head' (value' ∙ omega (arith, h))
      (zstd_decompress-compress z block l)
