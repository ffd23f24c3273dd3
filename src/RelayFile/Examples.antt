-- ===== src/RelayFile/Examples.antt =====
-- The theorems about file transfer on a few bytes, with a compressor that adds one byte.
use peerscale.Prelude.{
  ℕ, ◌<◌, ◌*◌, ◌≡◌, refl, Bool, true, false, if◌then◌else◌, Option, none, some, List, [], ◌∷◌, ◌++◌,
  arith, length, map, IfSome,
}
use peerscale.RelayFile.Frame.{frame_type_fin}
use peerscale.RelayFile.Roundtrip.{read_frames, write_frames, read_frames-write_frames}
use peerscale.RelayFile.Bitmap.{pos, has_pos}
use peerscale.RelayFile.Pack.{Zstd, zstd, uncompressed, pack_data_frame, unpack_data_frame}
use peerscale.RelayFile.Unpack.{IsLossless, unpack_data_frame-pack_data_frame}
use peerscale.RelayFile.Receive.{Outcome, Receiver, transfer, receive_loop}
use peerscale.RelayFile.Acks.{HonestFlow, receive_loop-IsHonest}
use peerscale.RelayFile.Transfer.{fine, packets}
use peerscale.RelayFile.Poll.{any_ended, ctx_ended, receive_file, seen, receive_file-never}
use peerscale.RelayFile.Accept.{Init, Disk, accepted, handle_file_stream}
use peerscale.RelayFile.Resume.{resume_leaves_gap}

abbrev marking : Zstd
marking = record {
  encode = λ block. some (7 ∷ block);
  decode = λ packed. elim packed [ [] ↦ none | b ∷ bs ↦ some bs ];
}

marking-IsLossless : IsLossless marking
marking-IsLossless = record { decodes = λ block h. (7, block, refl, refl) }

abbrev frames : List (ℕ × List ℕ)
frames = (3, 10 ∷ 20 ∷ []) ∷ (5, []) ∷ []

read_frames-write_frames_example :
    read_frames 2 (write_frames frames ++ (99 ∷ [])) ≡ some (frames, 99 ∷ [])
read_frames-write_frames_example =
    read_frames-write_frames frames (99 ∷ []) (omega arith, (omega arith, tt))

unpack_data_frame-pack_data_frame_example :
    unpack_data_frame marking (pack_data_frame marking 5 (1 ∷ 2 ∷ 3 ∷ []) zstd) zstd
    ≡ some (pos 5, 1 ∷ 2 ∷ 3 ∷ [])
unpack_data_frame-pack_data_frame_example =
    unpack_data_frame-pack_data_frame marking 5 (1 ∷ 2 ∷ 3 ∷ []) zstd marking-IsLossless
      (omega arith) (omega arith)

abbrev receiver : Receiver
receiver = record {
  ses = record {
    size = 4;
    total_chunks = 2;
    checksum = 4;
    compression = uncompressed;
    state = transfer;
    bitmap = 0 ∷ [];
    done_bytes = 0;
    content = [];
    position = 0;
    tmp_open = true;
    tmp_there = true;
    saved = none;
    stored = true;
    sent = [];
  };
  last_ack = 0;
}

abbrev chunks : List (List ℕ)
chunks = (1 ∷ 2 ∷ []) ∷ (3 ∷ 4 ∷ []) ∷ []

abbrev sha : List ℕ → ℕ
sha content = length content

abbrev checksum_of : List ℕ → ℕ
checksum_of payload = length payload

receive_loop-IsHonest_example : IfSome (HonestFlow sha) (
    receive_loop marking sha checksum_of
      (packets marking uncompressed 0 chunks
        ++ ((fine, some (frame_type_fin, 9 ∷ 9 ∷ 9 ∷ 9 ∷ [])) ∷ []))
      receiver)
receive_loop-IsHonest_example = receive_loop-IsHonest marking sha checksum_of _ receiver refl refl

abbrev arrived : List (Outcome × Option (ℕ × List ℕ))
arrived =
    packets marking uncompressed 0 chunks
    ++ ((fine, some (frame_type_fin, 9 ∷ 9 ∷ 9 ∷ 9 ∷ [])) ∷ [])

abbrev sights : List (Bool × List (Outcome × Option (ℕ × List ℕ)))
sights = (false, []) ∷ (false, arrived) ∷ (true, arrived) ∷ []

receive_file-never_example :
    receive_file 5 (map (λ l. (l.0, seen marking sha checksum_of 5 1 receiver l.1)) sights)
    ≡ (if any_ended sights then some ctx_ended else none)
receive_file-never_example =
    receive_file-never marking sha checksum_of 5 1 sights receiver
      (tt, ((refl, (refl, (refl, tt))), ((refl, (refl, (refl, tt))), tt))) refl

abbrev init : ℕ → Init
init offset = record {
  size = 4;
  chunk_size = 2;
  total_chunks = 2;
  checksum = 4;
  offset = offset;
  compression = zstd;
}

abbrev disk : Option (List ℕ) → Disk
disk part = record { makes_dir = true; part = part; creates = true; writes = true }

resume_leaves_gap_example :
    (start : ℕ) × (r : Receiver) × (handle_file_stream (init 1) (disk (some (1 ∷ 2 ∷ 3 ∷ [])))
      ≡ some (accepted start r))
    × (r.ses.content ≡ 1 ∷ 2 ∷ 3 ∷ [])
    × (has_pos r.ses.bitmap 1 ≡ true)
    × (1 < start)
    × (r.ses.position ≡ start * 2)
    × (3 < r.ses.position)
resume_leaves_gap_example =
    resume_leaves_gap (init 1) (disk (some (1 ∷ 2 ∷ 3 ∷ []))) (1 ∷ 2 ∷ 3 ∷ []) (refl, refl, refl)
      (omega arith) (omega arith, omega arith) (omega arith)
