-- ===== src/RelayFile/Pack.antt =====
-- The payload of a data frame, of p2put/filecomp.go, and its choice of compression for a file.
use peerscale.Prelude.{ℕ, ◌%◌, ◌^◌, Option, none, some, List, [], ◌∷◌, ◌++◌, length, and_then}
use peerscale.RelayFile.Frame.{put_uint, uint, read_full}
use peerscale.RelayFile.Bitmap.{ℤ, int64}

-- The zstd package: a writer's output for one block, and the bytes that a reader gives until it
-- ends or fails. `none` if the writer or the reader cannot be made.
pub record Zstd : Type 0 where
  pub encode : List ℕ → Option (List ℕ)
  pub decode : List ℕ → Option (List ℕ)

-- The values of a compression field that the code tells apart.
pub data Compression : Type 0 where
  zstd uncompressed : Compression

pub data CompressMode : Type 0 where
  compress_auto compress_on compress_off : CompressMode

module _ (z : Zstd) where
  unfoldable pub zstd_compress_block : List ℕ → List ℕ
  zstd_compress_block [] = []
  zstd_compress_block (b ∷ bs) = elim (z.encode (b ∷ bs)) [ none ↦ [] | some out ↦ out ]

  -- io.ReadFull takes `uncomp_len` bytes of what the reader gives.
  unfoldable pub zstd_decompress_block : List ℕ → ℕ → Option (List ℕ)
  zstd_decompress_block [] uncomp_len = some []
  zstd_decompress_block (b ∷ bs) uncomp_len =
      and_then (z.decode (b ∷ bs))
        λ out. and_then (read_full uncomp_len out) λ (dst, rest). some dst

  unfoldable pub pack_data_frame : ℕ → List ℕ → Compression → List ℕ
  unfolding zstd_compress_block
  pack_data_frame seq block zstd =
      put_uint 8 (seq % 2 ^ 64) ++ (put_uint 4 (length block % 2 ^ 32) ++ zstd_compress_block block)
  pack_data_frame seq block uncompressed = put_uint 8 (seq % 2 ^ 64) ++ block

  unfoldable pub unpack_data_frame : List ℕ → Compression → Option (ℤ × List ℕ)
  unfolding zstd_decompress_block
  unpack_data_frame payload c = and_then (read_full 8 payload) λ (seq, body). elim c [
    | uncompressed ↦ some (int64 (uint seq), body)
    | zstd ↦ and_then (read_full 4 body) λ (uncomp_len, packed).
        and_then (zstd_decompress_block packed (uint uncomp_len))
          λ block. some (int64 (uint seq), block)
  ]
