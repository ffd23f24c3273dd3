-- ===== src/RelayFile/Send.antt =====
-- SendFile of p2put/relayfile.go, turn by turn: a turn is one init frame and its answer, or one
-- batch of data frames and its acknowledgment, or the end. The peer is an argument: its state, and
-- what each frame that is written or read does to it. The numbers that it sends are taken as not
-- negative; `none` of `run` means that the fuel ran out. The map of sessions, in which SendFile has
-- an entry until it returns, and the progress callbacks are left out.
pub mod Remote
pub mod Step
pub mod Batches
pub mod Ends
pub mod Complete
mod Examples
use peerscale.Prelude.{
  ℕ, zero, suc, ◌+◌, ◌-◌, ◌*◌, ◌/◌, ◌%◌, Bool, true, false, not, Option, none, some, List, [], ◌∷◌,
  ltb, leb, ◌==◌, if◌then◌else◌, length, take, drop,
}
use peerscale.RelayFile.Pack.{
  Zstd, Compression, zstd, uncompressed, CompressMode, compress_auto, compress_on, compress_off,
  pack_data_frame,
}
use peerscale.RelayFile.Receive.{ack_batch}
use peerscale.RelayFile.Accept.{Init}

abbrev pub chunk_size : ℕ
chunk_size = 65536

abbrev pub total_chunks : ℕ → ℕ
total_chunks size =
    if not (size % chunk_size == 0) then size / chunk_size + 1 else size / chunk_size

-- A write gives `none` if it fails, and so does a read that fails or gives a frame of another type.
-- `cancelled` says whether the context is done.
pub record Peer (S : Type 0) : Type 0 where
  pub new_stream : S → Option S
  pub put_init : Init → S → Option S
  pub put_data : List ℕ → S → Option S
  pub put_fin : ℕ → ℕ → S → Option S
  pub put_cancel : S → S
  pub get_accept : S → Option (ℕ × S)
  pub get_ack : S → Option ℕ × S
  pub get_done : S → Option S
  pub cancelled : S → Bool

-- The local file: its content, whether a Read at a position fails, and its SHA-256 text, and
-- what detectCompression says of it.
pub record LocalFile : Type 0 where
  pub content : List ℕ
  pub unreadable : ℕ → Bool
  pub checksum : ℕ
  pub detected : Compression

pub data SendError : Type 0 where
  cannot_open write_init read_accept is_cancelled read_file write_data : SendError
  reconnect write_fin read_done : SendError

-- Before an init frame with an offset, or before a batch, with the next chunk and the position of
-- the next Read.
pub data Phase : Type 0 where
  handshake : ℕ → Phase
  sending : ℕ → ℕ → Phase

-- The next turn, or the return, with a nil error or not.
pub data Turn (S : Type 0) : Type 0 where
  again : Phase → S → Turn S
  returned : Option SendError → S → Turn S

pub data Batch (S : Type 0) : Type 0 where
  batched : ℕ → ℕ → S → Batch S
  broken : SendError → S → Batch S

abbrev pub choose_compression : CompressMode → Compression → Compression
choose_compression compress_on detected = zstd
choose_compression compress_off detected = uncompressed
choose_compression compress_auto detected = detected

abbrev pub batch_end : ℕ → ℕ → ℕ
batch_end seq total = if ltb total (seq + ack_batch) then total else seq + ack_batch

abbrev pub init_of : CompressMode → LocalFile → ℕ → Init
init_of mode file offset = record {
  size = length file.content;
  chunk_size = chunk_size;
  total_chunks = total_chunks (length file.content);
  checksum = file.checksum;
  offset = offset;
  compression = choose_compression mode file.detected;
}

module _ {S : Type 0} (peer : Peer S) (z : Zstd) (mode : CompressMode) (file : LocalFile) where
  open peer use {put_init, put_data, put_fin, put_cancel, get_accept, get_ack, get_done, cancelled}

  -- The rest of the batch once a data frame was written.
  abbrev pub more : (S → Batch S) → Option S → S → Batch S
  more rest none s = broken write_data s
  more rest (some s') s = rest s'

  -- for ; seq < batchEnd; seq++, with `left` turns to go.
  unfoldable pub send_batch : ℕ → ℕ → ℕ → S → Batch S
  send_batch zero seq at s = batched seq at s
  send_batch (suc left) seq at s =
      let buf = take chunk_size (drop at file.content) in
      let rest = send_batch left (seq + 1) (at + length buf) in
      if file.unreadable at
      then broken read_file (put_cancel s)
      else if length buf == 0
      then batched seq at s
      else more rest
          (put_data (pack_data_frame z seq buf (choose_compression mode file.detected)) s) s

  -- After a lost acknowledgment, on a new stream.
  abbrev pub resume_from : ℕ → Option S → S → Turn S
  resume_from seq none s = returned (some reconnect) s
  resume_from seq (some s') s = again (handshake seq) s'

  abbrev pub after_ack : ℕ → Option ℕ → S → Turn S
  after_ack seq none s = resume_from seq (peer.new_stream s) s
  after_ack seq (some cs) s = again (sending (cs + 1) ((cs + 1) * chunk_size)) s

  abbrev pub after_batch : Batch S → Turn S
  after_batch (broken e s) = returned (some e) s
  after_batch (batched seq at s) = after_ack seq (get_ack s).0 (get_ack s).1

  abbrev pub after_accept : Option (ℕ × S) → S → Turn S
  after_accept none s = returned (some read_accept) s
  after_accept (some (offset, s')) s = again (sending offset (offset * chunk_size)) s'

  abbrev pub after_init : Option S → S → Turn S
  after_init none s = returned (some write_init) s
  after_init (some s') s = after_accept (get_accept s') s'

  abbrev pub after_done : Option S → S → Turn S
  after_done none s = returned (some read_done) s
  after_done (some s') s = returned none s'

  abbrev pub after_fin : Option S → S → Turn S
  after_fin none s = returned (some write_fin) s
  after_fin (some s') s = after_done (get_done s') s'

  unfoldable pub turn : Phase → S → Turn S
  unfolding send_batch
  turn (handshake offset) s = after_init (put_init (init_of mode file offset) s) s
  turn (sending seq at) s =
      let total = total_chunks (length file.content) in
      if ltb seq total
      then if cancelled s
        then returned (some is_cancelled) (put_cancel s)
        else after_batch (send_batch (batch_end seq total - seq) seq at s)
      else after_fin (put_fin total file.checksum s) s

  abbrev pub go_on :
      (Phase → S → Option (Option SendError × S)) → Turn S → Option (Option SendError × S)
  go_on rest (again phase s) = rest phase s
  go_on rest (returned e s) = some (e, s)

  unfoldable pub run : ℕ → Phase → S → Option (Option SendError × S)
  unfolding turn
  run zero phase s = none
  run (suc fuel) phase s = go_on (run fuel) (turn phase s)

  abbrev pub start_from : ℕ → Option S → S → Option (Option SendError × S)
  start_from fuel none s = some (some cannot_open, s)
  start_from fuel (some s') s = run fuel (handshake 0) s'

  -- From NewStream on: the file is open and its checksum known.
  unfoldable pub send_file : ℕ → S → Option (Option SendError × S)
  unfolding run
  send_file fuel s = start_from fuel (peer.new_stream s) s
