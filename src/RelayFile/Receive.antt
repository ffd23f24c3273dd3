-- ===== src/RelayFile/Receive.antt =====
-- The receiving side of a transfer: the loop of receiveLoop in p2put/relayfile.go, one frame at a
-- time, and the end of a session that failed. What the frames go through is an argument: the
-- content of the part file after the writes, whether an operation of the system succeeds, what
-- encoding/json finds in a payload, and the SHA-256 text of a content. A panic is `none`.
use peerscale.Prelude.{
  ℕ, zero, suc, ◌+◌, ◌-◌, Bool, true, false, Option, none, some, List, [], ◌∷◌, ◌++◌, length, drop,
  ltb, leb, ◌==◌, ◌&&◌, ◌||◌, not, if◌then◌else◌, and_then,
}
use peerscale.RelayFile.Frame.{frame_type_data, frame_type_fin, frame_type_error, frame_type_cancel}
use peerscale.RelayFile.Bitmap.{ℤ, bitmap_has, bitmap_set, bitmap_max_continuous}
use peerscale.RelayFile.Pack.{Zstd, Compression, unpack_data_frame}

abbrev pub ack_batch : ℕ
ack_batch = 8

pub data SessionState : Type 0 where
  transfer done error cancelled : SessionState

-- What the receiver sends: an acknowledgment of the chunks up to a number, an error, or the end.
pub data Reply : Type 0 where
  ack : ℕ → Reply
  failed ok : Reply

-- A checksum is a number that is only compared. `content` is that of the part file and `position`
-- that of its next write; `tmp_open` is false once the file handle is nil, `tmp_there` once the
-- part file is gone. `saved` is the content at the final path, if it was put there, `stored`
-- whether the session is in the map of sessions. `sent` has the newest reply first. The session's
-- name, its peer and the names of its files are left out.
pub record FileSession : Type 0 where
  pub size : ℕ
  pub total_chunks : ℕ
  pub checksum : ℕ
  pub compression : Compression
  pub state : SessionState
  pub bitmap : List ℕ
  pub done_bytes : ℕ
  pub content : List ℕ
  pub position : ℕ
  pub tmp_open : Bool
  pub tmp_there : Bool
  pub saved : Option (List ℕ)
  pub stored : Bool
  pub sent : List Reply

-- The loop's own variable with the session.
pub record Receiver : Type 0 where
  pub ses : FileSession
  pub last_ack : ℕ

-- The loop goes on, or has returned.
pub data Flow : Type 0 where
  goes_on stopped : Receiver → Flow

-- What the system answers while one frame is handled.
pub record Outcome : Type 0 where
  pub writes : Bool
  pub replies : Bool
  pub opens : Bool
  pub renames : Bool

-- A write to a file at a position; a gap is filled with zeros.
abbrev pub overwrite : ℕ → List ℕ → List ℕ → List ℕ
overwrite zero new old = new ++ drop (length new) old
overwrite (suc p) new [] = 0 ∷ overwrite p new []
overwrite (suc p) new (b ∷ old) = b ∷ overwrite p new old

abbrev pub is_over : SessionState → Bool
is_over transfer = false
is_over _ = true

unfoldable pub cleanup_session : FileSession → FileSession
cleanup_session ses =
    if is_over ses.state
    then ses
    else record ses { state = error; tmp_open = false; tmp_there = false; stored = false }

-- An error frame to the sender, whether it gets there or not, and the end of the session.
unfoldable pub fail_with : Receiver → Flow
unfolding cleanup_session
fail_with r =
    stopped (record r { ses = cleanup_session (record r.ses { sent = failed ∷ r.ses.sent }) })

unfoldable pub fail : Receiver → Flow
unfolding cleanup_session
fail r = stopped (record r { ses = cleanup_session r.ses })

-- The acknowledgment after a data frame.
unfoldable pub acknowledge : Outcome → Receiver → Flow
unfolding fail
acknowledge o r =
    let new_seq = bitmap_max_continuous r.ses.bitmap r.ses.total_chunks in
    if (leb (r.last_ack + ack_batch) new_seq || leb r.ses.total_chunks new_seq)
      && ltb r.last_ack new_seq
    then if o.replies
      then goes_on (record {
        ses = record r.ses { sent = ack (new_seq - 1) ∷ r.ses.sent };
        last_ack = new_seq;
      })
      else fail r
    else goes_on r

-- A chunk that the bitmap does not have is written at the file's position and entered.
unfoldable pub store_chunk : ℤ → List ℕ → FileSession → Option FileSession
store_chunk seq chunk ses = and_then (bitmap_set ses.bitmap seq) λ bitmap'. some (record ses {
  bitmap = bitmap';
  content = overwrite ses.position chunk ses.content;
  position = ses.position + length chunk;
  done_bytes = ses.done_bytes + length chunk;
})

unfoldable pub on_chunk : Outcome → ℤ → List ℕ → Receiver → Option Flow
unfolding fail_with acknowledge store_chunk
on_chunk o seq chunk r = and_then (bitmap_has r.ses.bitmap seq) λ has.
    if has
    then some (acknowledge o r)
    else if o.writes
    then and_then (store_chunk seq chunk r.ses)
        (λ ses. some (acknowledge o (record r { ses = ses })))
    else some (fail_with r)

-- What unpackDataFrame makes of a data frame.
unfoldable pub on_unpacked : Outcome → Option (ℤ × List ℕ) → Receiver → Option Flow
unfolding on_chunk fail_with
on_unpacked o none r = some (fail_with r)
on_unpacked o (some (seq, chunk)) r = on_chunk o seq chunk r

unfoldable pub on_data : Zstd → Outcome → List ℕ → Receiver → Option Flow
unfolding on_unpacked
on_data z o payload r = on_unpacked o (unpack_data_frame z payload r.ses.compression) r

-- The part file is at its final path.
unfoldable pub finish : FileSession → FileSession
finish ses = record ses {
  tmp_open = false;
  tmp_there = false;
  saved = some ses.content;
  done_bytes = ses.size;
  state = done;
}

-- The last reply. A session whose sender does not get it stays in the map.
unfoldable pub conclude : Outcome → Receiver → Flow
unfolding finish cleanup_session
conclude o r =
    let finished = finish r.ses in
    if o.replies
    then stopped (record r { ses = record finished { stored = false; sent = ok ∷ finished.sent } })
    else stopped (record r { ses = cleanup_session finished })

-- `sha` is the SHA-256 text of a content, of which verifyFileHash compares the part after the
-- prefix; a checksum without the prefix equals none.
unfoldable pub on_fin : (List ℕ → ℕ) → Outcome → ℕ → Receiver → Flow
unfolding fail_with conclude
on_fin sha o fin_checksum r =
    if not (fin_checksum == r.ses.checksum)
    then fail_with r
    else (let closed = record r { ses = record r.ses { tmp_open = false } } in
        if not (o.opens && sha r.ses.content == r.ses.checksum)
        then fail_with closed
        else if not o.renames
        then fail_with closed
        else conclude o r)

-- Back to the top of the loop, unless it has returned.
abbrev pub next_turn : (Receiver → Option Flow) → Flow → Option Flow
next_turn again (goes_on r) = again r
next_turn again (stopped r) = some (stopped r)

module _ (z : Zstd) (sha : List ℕ → ℕ) (checksum_of : List ℕ → ℕ) where
  -- One turn of the loop on what frameRead gives. A frame of another type is passed over.
  unfoldable pub receive : Outcome → Option (ℕ × List ℕ) → Receiver → Option Flow
  unfolding fail on_data on_fin
  receive o none r = some (fail r)
  receive o (some (typ, payload)) r =
      if typ == frame_type_cancel
      then some (fail r)
      else if typ == frame_type_error
      then some (fail r)
      else if typ == frame_type_data
      then on_data z o payload r
      else if typ == frame_type_fin
      then some (on_fin sha o (checksum_of payload) r)
      else some (goes_on r)

  unfoldable pub receive_loop : List (Outcome × Option (ℕ × List ℕ)) → Receiver → Option Flow
  unfolding receive
  receive_loop [] r = some (goes_on r)
  receive_loop ((o, frame) ∷ fs) r =
      and_then (receive o frame r) (λ flow. next_turn (λ r'. receive_loop fs r') flow)

-- CancelFileSession, for a session that is in the map.
unfoldable pub cancel_file_session : FileSession → FileSession
cancel_file_session ses = record ses { state = cancelled }
