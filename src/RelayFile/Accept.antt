-- ===== src/RelayFile/Accept.antt =====
-- The start of a transfer on the receiving side: HandleFileStream of p2put/relayfile.go, from the
-- init frame to the loop. The numbers of the init frame are taken as not negative. A division by
-- zero panics, which is `none`.
use peerscale.Prelude.{
  ℕ, zero, suc, ◌+◌, ◌*◌, ◌/◌, ◌%◌, Bool, true, not, Option, none, some, List, [], length, ltb,
  ◌==◌, if◌then◌else◌, and_then, min,
}
use peerscale.RelayFile.Bitmap.{set_word, zeros, bitmap_max_continuous}
use peerscale.RelayFile.Pack.{Compression}
use peerscale.RelayFile.Receive.{Receiver, transfer}

pub record Init : Type 0 where
  pub size : ℕ
  pub chunk_size : ℕ
  pub total_chunks : ℕ
  pub checksum : ℕ
  pub offset : ℕ
  pub compression : Compression

-- What the system answers: whether the directory can be made, the part file that is there and can
-- be opened, whether a new one can be created, and whether the accept frame can be written.
pub record Disk : Type 0 where
  pub makes_dir : Bool
  pub part : Option (List ℕ)
  pub creates : Bool
  pub writes : Bool

-- A reject frame was sent, or the stream failed, or the loop starts at a chunk.
pub data Answer : Type 0 where
  rejected dropped : Answer
  accepted : ℕ → Receiver → Answer

-- The part file that the transfer goes on with, its chunks and the first chunk to come.
pub record Part : Type 0 where
  pub content : List ℕ
  pub bitmap : List ℕ
  pub start_seq : ℕ
  pub done_bytes : ℕ

-- for i := from; left more turns; bitmapSet(bitmap, i)
abbrev pub set_chunks : ℕ → ℕ → List ℕ → List ℕ
set_chunks from zero bitmap = bitmap
set_chunks from (suc left) bitmap =
    set_chunks (from + 1) left (set_word bitmap (from / 64) (from % 64))

unfoldable pub written_chunks : ℕ → ℕ → ℕ
written_chunks done_bytes chunk_size =
    if not (done_bytes % chunk_size == 0)
    then done_bytes / chunk_size + 1
    else done_bytes / chunk_size

abbrev pub empty_bitmap : ℕ → List ℕ
empty_bitmap total_chunks = if ltb 0 total_chunks then zeros ((total_chunks + 63) / 64) else []

-- A part file to resume, if the sender asks for one and it is there.
unfoldable pub resume : Init → Disk → Option (Option Part)
unfolding written_chunks
resume init disk =
    if ltb 0 init.offset
    then elim disk.part [
      | none ↦ some none
      | some content ↦
          if init.chunk_size == 0
          then none
          else (let written = written_chunks (length content) init.chunk_size in
              some (
                some (record {
                  content = content;
                  bitmap =
                      set_chunks 0 (min written init.total_chunks) (empty_bitmap init.total_chunks);
                  start_seq = written;
                  done_bytes = length content;
                })))
    ]
    else some none

-- os.Create, which empties a file that is there.
unfoldable pub create : Init → Disk → Option Part
create init disk =
    if disk.creates
    then some (record {
      content = [];
      bitmap = empty_bitmap init.total_chunks;
      start_seq = 0;
      done_bytes = 0;
    })
    else none

unfoldable pub begin : Init → Disk → Part → Answer
begin init disk part =
    let offset = bitmap_max_continuous part.bitmap init.total_chunks in
    let start = (if ltb part.start_seq offset then offset else part.start_seq) in
    if not disk.writes
    then dropped
    else accepted start (record {
      ses = record {
        size = init.size;
        total_chunks = init.total_chunks;
        checksum = init.checksum;
        compression = init.compression;
        state = transfer;
        bitmap = part.bitmap;
        done_bytes = part.done_bytes;
        content = part.content;
        position = start * init.chunk_size;
        tmp_open = true;
        tmp_there = true;
        saved = none;
        stored = true;
        sent = [];
      };
      last_ack = start;
    })

abbrev pub or_create : Init → Disk → Option Part → Answer
or_create init disk (some part) = begin init disk part
or_create init disk none = elim (create init disk) [
  | none ↦ rejected
  | some part ↦ begin init disk part
]

unfoldable pub handle_file_stream : Init → Disk → Option Answer
unfolding resume create begin
handle_file_stream init disk =
    if not disk.makes_dir
    then some rejected
    else and_then (resume init disk) (λ part. some (or_create init disk part))
