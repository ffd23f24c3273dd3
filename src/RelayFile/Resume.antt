-- ===== src/RelayFile/Resume.antt =====
-- How a transfer starts: afresh, or on a part file of an earlier one.
use native.Mathlib.Nat.{div-add-mod', add-mul, mul-le-mul_right}
use peerscale.Prelude.{
  ℕ, zero, suc, ◌+◌, ◌*◌, ◌/◌, ◌%◌, ◌^◌, ◌≤◌, ◌<◌, ◌≡◌, ◌⊎◌, inl, inr, refl, true, false, none,
  some, List, [], ◌++◌, length, ltb, ◌==◌, if◌then◌else◌, min, arith, Bool-cases, ◌∙◌, ap, All,
  lt→ltb,
}
use peerscale.RelayFile.Bitmap.{
  test_bit, word, set_word, zeros, has_pos, continuous_from, bitmap_max_continuous,
}
use peerscale.RelayFile.Chunks.{has_pos-set_word, length-set_word}
use peerscale.RelayFile.Pack.{Zstd}
use peerscale.RelayFile.Unpack.{IsLossless}
use peerscale.RelayFile.Receive.{Receiver, goes_on, receive_loop}
use peerscale.RelayFile.Transfer.{IsReady, packets, concat, receive_loop-packets}
use peerscale.RelayFile.Accept.{
  Init, Disk, accepted, Part, resume, create, begin, set_chunks, written_chunks, empty_bitmap,
  handle_file_stream,
}

test_bit-zero : (k : ℕ) → test_bit 0 k ≡ false
test_bit-zero zero = refl
test_bit-zero (suc k) = test_bit-zero k

word-zeros : (n i : ℕ) → (word (zeros n) i ≡ none) ⊎ (word (zeros n) i ≡ some 0)
word-zeros zero i = inl refl
word-zeros (suc n) zero = inr refl
word-zeros (suc n) (suc i) = word-zeros n i

has_pos-zeros : (n j : ℕ) → has_pos (zeros n) j ≡ false
unfolding has_pos
has_pos-zeros n j = elim (word-zeros n (j / 64)) [
  | inl e ↦ rw (e, has_pos) refl
  | inr e ↦ rw (e, has_pos) (test_bit-zero (j % 64))
]

pub has_pos-empty : (total j : ℕ) → has_pos (empty_bitmap total) j ≡ false
has_pos-empty total j = elim (Bool-cases (ltb 0 total)) [
  | inl some_chunks ↦ rw some_chunks (has_pos-zeros ((total + 63) / 64) j)
  | inr no_chunks ↦ rw no_chunks (has_pos-zeros 0 j)
]

pub continuous-empty : (total n : ℕ) → bitmap_max_continuous (empty_bitmap total) n ≡ 0
unfolding bitmap_max_continuous continuous_from
continuous-empty total zero = refl
continuous-empty total (suc n) = rw (has_pos-empty total 0) refl

fresh_start :
    (init : Init) (disk : Disk)
    → init.offset ≡ 0
    → disk.makes_dir ≡ true
    → disk.creates ≡ true
    → disk.writes ≡ true
    → (r : Receiver) × (handle_file_stream init disk ≡ some (accepted 0 r))
      × (r.ses.content ≡ [])
      × (r.ses.compression ≡ init.compression)
      × IsReady 0 r
unfolding handle_file_stream resume create begin
fresh_start init disk o d c w =
    rw (o, d, c, w, continuous-empty init.total_chunks init.total_chunks)
      (
        _,
        refl,
        refl,
        refl,
        record { at_end = omega arith; missing = λ j l. has_pos-empty init.total_chunks j },
      )

-- The stream, the disk and the compressor working: a transfer that starts afresh, of any chunks
-- that come in order, fewer than 2 ^ 63 and of fewer than 2 ^ 32 bytes each, is accepted from chunk
-- 0 on and leaves exactly the chunks, one after the other, in the part file.
pub fresh_transfer :
    (z : Zstd) (sha : List ℕ → ℕ) (checksum_of : List ℕ → ℕ) (init : Init) (disk : Disk)
    (chunks : List (List ℕ))
    → IsLossless z
    → (init.offset ≡ 0) × (disk.makes_dir ≡ true) × (disk.creates ≡ true) × (disk.writes ≡ true)
    → length chunks < 2 ^ 63
    → All (λ chunk. length chunk < 2 ^ 32) chunks
    → (r : Receiver) × (r' : Receiver) × (handle_file_stream init disk ≡ some (accepted 0 r))
      × (receive_loop z sha checksum_of (packets z init.compression 0 chunks) r ≡ some (goes_on r'))
      × (r'.ses.content ≡ concat chunks)
fresh_transfer z sha checksum_of init disk chunks l (o, d, c, w) s b =
    let (r, accepts, nothing, same, ready) = fresh_start init disk o d c w in
    let (r', takes, all) =
      receive_loop-packets z sha checksum_of init.compression 0 chunks r l same (omega (arith, s)) b
        ready in
    (r, r', accepts, takes, all ∙ ap (λ xs. xs ++ concat chunks) nothing)

-- A part file whose size is no multiple of the chunk size ends before the position of the next
-- chunk.
written_past : (n size : ℕ) → 0 < size → 0 < n % size → n < written_chunks n size * size
unfolding written_chunks
written_past n size h m = ground (arith, div-add-mod' n size, add-mul (n / size) 1 size)

written_more : (n size : ℕ) → 0 < n % size → n / size < written_chunks n size
unfolding written_chunks
written_more n size m = ground (arith, m)

positive : (n : ℕ) → 0 < n → (n == 0) ≡ false
positive n h = ground arith

resumed :
    (init : Init) (disk : Disk) (content : List ℕ)
    → disk.part ≡ some content
    → 0 < init.offset
    → 0 < init.chunk_size
    → resume init disk
      ≡ some (
          some (record {
            content = content;
            bitmap =
                set_chunks 0
                  (min (written_chunks (length content) init.chunk_size) init.total_chunks)
                  (empty_bitmap init.total_chunks);
            start_seq = written_chunks (length content) init.chunk_size;
            done_bytes = length content;
          }))
unfolding resume
resumed init disk content p o k = rw (p, lt→ltb 0 init.offset o, positive init.chunk_size k) refl

handled :
    (init : Init) (disk : Disk) (part : Part)
    → disk.makes_dir ≡ true
    → resume init disk ≡ some (some part)
    → handle_file_stream init disk ≡ some (begin init disk part)
unfolding handle_file_stream
handled init disk part d e = rw (d, e) refl

not_before : (a b : ℕ) → a ≤ (if ltb a b then b else a)
not_before a b = ground arith

begin_past :
    (init : Init) (disk : Disk) (part : Part) (n : ℕ)
    → disk.writes ≡ true
    → n < part.start_seq * init.chunk_size
    → (start : ℕ) × (r : Receiver) × (begin init disk part ≡ accepted start r)
      × (r.ses.content ≡ part.content)
      × (r.ses.bitmap ≡ part.bitmap)
      × (part.start_seq ≤ start)
      × (r.ses.position ≡ start * init.chunk_size)
      × (n < r.ses.position)
unfolding begin
begin_past init disk part n w h =
    let offset = bitmap_max_continuous part.bitmap init.total_chunks in
    rw w (
      _,
      _,
      refl,
      refl,
      refl,
      not_before part.start_seq offset,
      refl,
      omega (arith, h, mul-le-mul_right init.chunk_size (not_before part.start_seq offset)),
    )

-- The loop over the chunks that are there keeps what is set, and sets each of its own.
set_chunks-keeps :
    (from n : ℕ) (bitmap : List ℕ) (j : ℕ)
    → has_pos bitmap j ≡ true
    → has_pos (set_chunks from n bitmap) j ≡ true
set_chunks-keeps from zero bitmap j h = h
set_chunks-keeps from (suc n) bitmap j h =
    set_chunks-keeps (from + 1) n (set_word bitmap (from / 64) (from % 64)) j
      (ground (arith, h, has_pos-set_word bitmap from j))

set_chunks-sets :
    (from n : ℕ) (bitmap : List ℕ) (j : ℕ)
    → (from ≤ j) × (j < from + n)
    → j / 64 < length bitmap
    → has_pos (set_chunks from n bitmap) j ≡ true
set_chunks-sets from zero bitmap j (l, u) h = absurd (omega (arith, l, u))
set_chunks-sets from (suc n) bitmap j (l, u) h = elim (Bool-cases (from == j)) [
  | inl here ↦
      set_chunks-keeps (from + 1) n (set_word bitmap (from / 64) (from % 64)) j
        (ground (arith, here, h, has_pos-set_word bitmap from j))
  | inr later ↦
      let after : from + 1 ≤ j = ground (arith, later, l) in
      set_chunks-sets (from + 1) n (set_word bitmap (from / 64) (from % 64)) j
        (after, omega (arith, u)) (omega (arith, h, length-set_word bitmap (from / 64) (from % 64)))
]

length-zeros : (n : ℕ) → length (zeros n) ≡ n
length-zeros zero = refl
length-zeros (suc n) = ap suc (length-zeros n)

resumed_at :
    (size total k : ℕ)
    → (0 < k) × (0 < size % k)
    → size / k < total
    → has_pos (set_chunks 0 (min (written_chunks size k) total) (empty_bitmap total)) (size / k)
      ≡ true
unfolding written_chunks
resumed_at size total k (pos, m) t =
    let room : size / k / 64 < length (empty_bitmap total) =
      ground (arith, t, length-zeros ((total + 63) / 64)) in
    set_chunks-sets 0 (min (written_chunks size k) total) (empty_bitmap total) (size / k)
      (omega arith, ground (arith, m, t)) room

-- Resuming on a part file that ends within a chunk of the file, so that its size is no multiple of the
-- chunk size: the receiver has the content of the part file and counts the chunk that is there in
-- part as received. It asks the sender to start behind that chunk, and writes on behind the end of
-- the content.
pub resume_leaves_gap :
    (init : Init) (disk : Disk) (content : List ℕ)
    → (disk.makes_dir ≡ true) × (disk.writes ≡ true) × (disk.part ≡ some content)
    → 0 < init.offset
    → (0 < init.chunk_size) × (0 < length content % init.chunk_size)
    → length content / init.chunk_size < init.total_chunks
    → (start : ℕ) × (r : Receiver) × (handle_file_stream init disk ≡ some (accepted start r))
      × (r.ses.content ≡ content)
      × (has_pos r.ses.bitmap (length content / init.chunk_size) ≡ true)
      × (length content / init.chunk_size < start)
      × (r.ses.position ≡ start * init.chunk_size)
      × (length content < r.ses.position)
unfolding handle_file_stream
resume_leaves_gap init disk content (d, w, p) o (k, m) t =
    let part : Part = record {
      content = content;
      bitmap =
          set_chunks 0 (min (written_chunks (length content) init.chunk_size) init.total_chunks)
            (empty_bitmap init.total_chunks);
      start_seq = written_chunks (length content) init.chunk_size;
      done_bytes = length content;
    } in
    let (start, r, e, c, b, behind, at, past) =
      begin_past init disk part (length content) w
        (written_past (length content) init.chunk_size k m) in
    (
      start,
      r,
      handled init disk part d (resumed init disk content p o k) ∙ ap (λ a. some a) e,
      c,
      ap (λ l. has_pos l (length content / init.chunk_size)) b
          ∙ resumed_at (length content) init.total_chunks init.chunk_size (k, m) t,
      omega (arith, behind, written_more (length content) init.chunk_size m),
      at,
      past,
    )
