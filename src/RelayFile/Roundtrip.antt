-- ===== src/RelayFile/Roundtrip.antt =====
-- What is written as frames is read back.
use peerscale.Prelude.{
  ℕ, zero, suc, ◌+◌, ◌*◌, ◌/◌, ◌%◌, ◌^◌, ◌<◌, ◌≡◌, refl, Option, some, List, [], ◌∷◌, ◌++◌, length,
  take, drop, arith, ◌∙◌, ap, sym, length-append, All, and_then,
}
use peerscale.RelayFile.Frame.{put_uint, uint_from, uint, read_full, frame_write, frame_read}

-- 256 ^ n, so that `omega` reads it.
abbrev pub capacity : ℕ → ℕ
capacity zero = 1
capacity (suc n) = 256 * capacity n

uint_from-append :
    (acc b : ℕ) (bs : List ℕ) → uint_from acc (bs ++ (b ∷ [])) ≡ 256 * uint_from acc bs + b
uint_from-append acc b [] = refl
uint_from-append acc b (c ∷ bs) = uint_from-append (256 * acc + c) b bs

pub uint-put_uint : (n v : ℕ) → v < capacity n → uint (put_uint n v) ≡ v
uint-put_uint zero v h = omega arith
uint-put_uint (suc n) v h =
    uint_from-append 0 (v % 256) (put_uint n (v / 256))
    ∙ omega (arith, uint-put_uint n (v / 256) (omega (arith, h)))

pub length-put_uint : (n v : ℕ) → length (put_uint n v) ≡ n
length-put_uint zero v = refl
length-put_uint (suc n) v =
    omega
      (arith, length-append (put_uint n (v / 256)) ((v % 256) ∷ []), length-put_uint n (v / 256))

pub take-append : (xs ys : List ℕ) → take (length xs) (xs ++ ys) ≡ xs
take-append [] ys = refl
take-append (x ∷ xs) ys = ap (λ zs. x ∷ zs) (take-append xs ys)

pub drop-append : (xs ys : List ℕ) → drop (length xs) (xs ++ ys) ≡ ys
drop-append [] ys = refl
drop-append (x ∷ xs) ys = drop-append xs ys

-- Reading as many bytes as were put in front gives them back.
pub read_full-append :
    (n : ℕ) (xs ys : List ℕ) → length xs ≡ n → read_full n (xs ++ ys) ≡ some (xs, ys)
read_full-append n xs ys e =
    rw (sym e) (ground (arith, take-append xs ys, drop-append xs ys, length-append xs ys))

append_assoc : (xs ys zs : List ℕ) → (xs ++ ys) ++ zs ≡ xs ++ (ys ++ zs)
append_assoc [] ys zs = refl
append_assoc (x ∷ xs) ys zs = ap (λ l. x ∷ l) (append_assoc xs ys zs)

pub read_uint :
    (n v : ℕ) (rest : List ℕ)
    → v < capacity n
    → (read_full n (put_uint n v ++ rest) ≡ some (put_uint n v, rest)) × (uint (put_uint n v) ≡ v)
read_uint n v rest h =
    (read_full-append n (put_uint n v) rest (length-put_uint n v), uint-put_uint n v h)

frame_read-parts :
    (typ : ℕ) (len_bytes payload rest src : List ℕ)
    → read_full 4 src ≡ some (len_bytes, typ ∷ payload ++ rest)
    → uint len_bytes ≡ length payload
    → frame_read src ≡ some (typ, payload, rest)
unfolding frame_read
frame_read-parts typ len_bytes payload rest src head len =
    rw
      (
        head,
        len,
        read_full-append 1 (typ ∷ []) (payload ++ rest) refl,
        read_full-append (length payload) payload rest refl,
      )
      (ground arith)

frame_write-append :
    (typ : ℕ) (payload rest : List ℕ)
    → frame_write typ payload ++ rest
      ≡ put_uint 4 (length payload % 2 ^ 32) ++ (typ ∷ payload ++ rest)
unfolding frame_write
frame_write-append typ payload rest =
    append_assoc (put_uint 4 (length payload % 2 ^ 32)) (typ ∷ payload) rest

frame_read-frame_write :
    (typ : ℕ) (payload rest : List ℕ)
    → length payload < 2 ^ 32
    → frame_read (frame_write typ payload ++ rest) ≡ some (typ, payload, rest)
frame_read-frame_write typ payload rest h =
    let n = length payload % 2 ^ 32 in
    let (head, len) = read_uint 4 n (typ ∷ payload ++ rest) (omega arith) in
    frame_read-parts typ (put_uint 4 n) payload rest _
      (ap (read_full 4) (frame_write-append typ payload rest) ∙ head) (omega (arith, len, h))

-- Reads as many frames as the first argument says.
abbrev pub read_frames : ℕ → List ℕ → Option (List (ℕ × List ℕ) × List ℕ)
read_frames zero src = some ([], src)
read_frames (suc n) src = and_then (frame_read src) λ (typ, payload, src₁).
    and_then (read_frames n src₁) λ (fs, src₂). some ((typ, payload) ∷ fs, src₂)

abbrev pub write_frames : List (ℕ × List ℕ) → List ℕ
write_frames [] = []
write_frames ((typ, payload) ∷ fs) = frame_write typ payload ++ write_frames fs

-- Whatever frames are written one after the other, with payloads shorter than 2 ^ 32 bytes, reading
-- gives the same frames, and leaves what comes behind them on the stream.
pub read_frames-write_frames :
    (fs : List (ℕ × List ℕ)) (rest : List ℕ)
    → All (λ f. length f.1 < 2 ^ 32) fs
    → read_frames (length fs) (write_frames fs ++ rest) ≡ some (fs, rest)
read_frames-write_frames [] rest h = refl
read_frames-write_frames ((typ, payload) ∷ fs) rest h =
    rw
      (
        append_assoc (frame_write typ payload) (write_frames fs) rest,
        frame_read-frame_write typ payload (write_frames fs ++ rest) h.0,
        read_frames-write_frames fs rest h.1,
      )
      refl
