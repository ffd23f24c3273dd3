-- ===== src/RelayFile/Detect.antt =====
-- The choice of compression for a file, of p2put/filecomp.go. The file's first bytes and whether
-- its extension is in the table of compressed formats are arguments, as is math.Log2.
use peerscale.Prelude.{
  ℕ, zero, suc, ◌+◌, ◌≡◌, ◌⊎◌, inl, inr, refl, Bool, true, false, ◌&&◌, List, [], ◌∷◌, ◌++◌, length,
  ltb, leb, ◌==◌, if◌then◌else◌, arith, Bool-cases, occurs,
}
use peerscale.Runtime.{Float64}
use peerscale.RelayFile.Pack.{
  Zstd, Compression, zstd, uncompressed, CompressMode, compress_auto, compress_on, compress_off,
  zstd_compress_block,
}

abbrev pub magic_headers : List (List ℕ)
magic_headers =
    (31 ∷ 139 ∷ [])
    ∷ (40 ∷ 181 ∷ 47 ∷ 253 ∷ [])
    ∷ (4 ∷ 34 ∷ 77 ∷ 24 ∷ [])
    ∷ (253 ∷ 55 ∷ 122 ∷ 88 ∷ 90 ∷ 0 ∷ [])
    ∷ (66 ∷ 90 ∷ 104 ∷ [])
    ∷ (55 ∷ 122 ∷ 188 ∷ 175 ∷ 39 ∷ 28 ∷ [])
    ∷ (137 ∷ 80 ∷ 78 ∷ 71 ∷ [])
    ∷ (255 ∷ 216 ∷ 255 ∷ [])
    ∷ (82 ∷ 73 ∷ 70 ∷ 70 ∷ [])
    ∷ (71 ∷ 73 ∷ 70 ∷ 56 ∷ [])
    ∷ (80 ∷ 75 ∷ 3 ∷ 4 ∷ [])
    ∷ (82 ∷ 97 ∷ 114 ∷ 33 ∷ 26 ∷ 7 ∷ [])
    ∷ (255 ∷ 251 ∷ [])
    ∷ (0 ∷ 0 ∷ 0 ∷ 24 ∷ 102 ∷ 116 ∷ 121 ∷ 112 ∷ [])
    ∷ (82 ∷ 73 ∷ 70 ∷ 70 ∷ [])
    ∷ []

-- The inner loop, on a sample that is long enough.
abbrev pub matches : List ℕ → List ℕ → Bool
matches [] sample = true
matches (b ∷ magic) [] = false
matches (b ∷ magic) (c ∷ sample) = if c == b then matches magic sample else false

unfoldable pub has_header : List (List ℕ) → List ℕ → Bool
has_header [] sample = false
has_header (magic ∷ headers) sample =
    if leb (length magic) (length sample) && matches magic sample
    then true
    else has_header headers sample

unfoldable pub has_magic_header : List ℕ → Bool
unfolding has_header
has_magic_header sample = has_header magic_headers sample

module _ {F : Type 0} (fl : Float64 F) (log2 : F → F) where
  open fl use {add, sub, mul, div, lt, le, lit, of_int}

  -- The second loop over the 256 counts, from byte `b` on.
  unfoldable pub entropy_from : ℕ → ℕ → List ℕ → F → F
  entropy_from b zero sample h = h
  entropy_from b (suc left) sample h =
      let c = occurs b sample in
      let p = div (of_int c) (of_int (length sample)) in
      entropy_from (b + 1) left sample (if ltb 0 c then sub h (mul p (log2 p)) else h)

  unfoldable pub calc_entropy : List ℕ → F
  unfolding entropy_from
  calc_entropy sample = if length sample == 0 then lit 0 1 else entropy_from 0 256 sample (lit 0 1)

  unfoldable pub compression_ratio : Zstd → List ℕ → F
  compression_ratio z sample =
      let compressed = zstd_compress_block z sample in
      if length compressed == 0
      then lit 1 1
      else div (of_int (length compressed)) (of_int (length sample))

  unfoldable pub detect_auto : Zstd → Bool → List ℕ → Compression
  unfolding calc_entropy compression_ratio
  detect_auto z compressed_ext sample =
      if compressed_ext
      then uncompressed
      else if length sample == 0
      then uncompressed
      else if has_magic_header sample
      then uncompressed
      else (let entropy = calc_entropy sample in
          if le (lit 75 10) entropy
          then uncompressed
          else if le entropy (lit 6 1)
          then zstd
          else if lt (compression_ratio z sample) (lit 85 100)
          then zstd
          else uncompressed)

  unfoldable pub detect_compression : CompressMode → Zstd → Bool → List ℕ → Compression
  unfolding detect_auto
  detect_compression compress_on z compressed_ext sample = zstd
  detect_compression compress_off z compressed_ext sample = uncompressed
  detect_compression compress_auto z compressed_ext sample = detect_auto z compressed_ext sample

-- The header is how the sample starts.
abbrev pub StartsWith : List ℕ → List ℕ → Type 0
StartsWith sample magic = (rest : List ℕ) × (sample ≡ magic ++ rest)

abbrev pub AnyHeader : List (List ℕ) → List ℕ → Type 0
AnyHeader [] sample = ⊥
AnyHeader (magic ∷ headers) sample = StartsWith sample magic ⊎ AnyHeader headers sample

matches-StartsWith : (magic sample : List ℕ) → matches magic sample ≡ true → StartsWith sample magic
matches-StartsWith [] sample h = (sample, refl)
matches-StartsWith (b ∷ magic) [] h = absurd (ground arith)
matches-StartsWith (b ∷ magic) (c ∷ sample) h =
    let (rest, e) = matches-StartsWith magic sample (ground arith) in (rest, ground (arith, e))

matches-append : (magic rest : List ℕ) → matches magic (magic ++ rest) ≡ true
matches-append [] rest = refl
matches-append (b ∷ magic) rest = ground (arith, matches-append magic rest)

long_enough : (magic rest : List ℕ) → leb (length magic) (length (magic ++ rest)) ≡ true
long_enough [] rest = ground arith
long_enough (b ∷ magic) rest = ground (arith, long_enough magic rest)

header_iff :
    (headers : List (List ℕ)) (sample : List ℕ)
    → (has_header headers sample ≡ true → AnyHeader headers sample)
      × (AnyHeader headers sample → has_header headers sample ≡ true)
unfolding has_header
header_iff [] sample = (λ h. ground arith, λ h. absurd h)
header_iff (magic ∷ headers) sample =
    let (to, from) = header_iff headers sample in
    (
      λ h. elim (Bool-cases (leb (length magic) (length sample) && matches magic sample)) [
        | inl yes_here ↦ inl (matches-StartsWith magic sample (ground arith))
        | inr later ↦ inr (to (ground arith))
      ],
      λ h. elim h [
        | inr later ↦ ground (arith, from later)
        | inl (rest, e) ↦ rw e (rw (long_enough magic rest, matches-append magic rest) refl)
      ],
    )

-- A sample has a magic header exactly if it starts with one of the listed byte sequences.
pub has_magic_header-AnyHeader :
    (sample : List ℕ)
    → (has_magic_header sample ≡ true → AnyHeader magic_headers sample)
      × (AnyHeader magic_headers sample → has_magic_header sample ≡ true)
unfolding has_magic_header
has_magic_header-AnyHeader sample = header_iff magic_headers sample
