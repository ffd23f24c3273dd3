-- ===== src/RelayFile/Send/Remote.antt =====
-- The receiving side of p2put/relayfile.go as the peer of SendFile, where nothing fails: it handles
-- each frame before the sender goes on.
use peerscale.Prelude.{
  ℕ, ◌+◌, ◌-◌, Bool, true, false, Option, none, some, List, [], ◌∷◌, length, drop, if◌then◌else◌,
}
use peerscale.RelayFile.Frame.{frame_type_data, frame_type_fin, frame_type_cancel}
use peerscale.RelayFile.Pack.{Zstd}
use peerscale.RelayFile.Receive.{Reply, ack, ok, Flow, goes_on, stopped, FileSession, receive}
use peerscale.RelayFile.Transfer.{fine}
use peerscale.RelayFile.Accept.{Disk, Answer, accepted, handle_file_stream}
use peerscale.RelayFile.Send.{Peer}

-- The offset of an accept frame that has not been read, the receiver, if there is one, and how many
-- of its replies have been read.
pub record Remote : Type 0 where
  pub offset : Option ℕ
  pub flow : Option Flow
  pub read : ℕ

abbrev pub session : Flow → FileSession
session (goes_on r) = r.ses
session (stopped r) = r.ses

-- The oldest reply that has not been read.
abbrev pub first : List Reply → Option Reply
first [] = none
first (reply ∷ replies) = some reply

abbrev pub next_reply : Flow → ℕ → Option Reply
next_reply flow read = first (drop (length (session flow).sent - (read + 1)) (session flow).sent)

abbrev pub as_ack : Option Reply → Option ℕ
as_ack (some (ack n)) = some n
as_ack _ = none

abbrev pub as_done : Option Reply → Bool
as_done (some ok) = true
as_done _ = false

-- The state after a frame, if the loop runs and does not panic.
abbrev pub set_flow : Remote → Option Flow → Option Remote
set_flow s none = none
set_flow s (some flow) = some (record s { flow = some flow })

abbrev pub answered : Option Answer → Option Remote
answered (some (accepted start r)) =
    some (record { offset = some start; flow = some (goes_on r); read = 0 })
answered _ = some (record { offset = none; flow = none; read = 0 })

abbrev pub take_offset : Option ℕ → Remote → Option (ℕ × Remote)
take_offset none s = none
take_offset (some offset) s = some (offset, record s { offset = none })

abbrev pub take_reply : Option Flow → Remote → Option Reply × Remote
take_reply none s = (none, s)
take_reply (some flow) s = (next_reply flow s.read, record s { read = s.read + 1 })

module _ (z : Zstd) (sha : List ℕ → ℕ) (checksum_of : List ℕ → ℕ) where
  abbrev pub deliver : ℕ × List ℕ → Option Flow → Remote → Option Remote
  deliver frame (some (goes_on r)) s = set_flow s (receive z sha checksum_of fine (some frame) r)
  deliver frame _ s = none

  abbrev pub or_same : Option Remote → Remote → Remote
  or_same none s = s
  or_same (some s') s = s'

  -- `fin_payload` is the JSON text of a fin frame.
  abbrev pub remote : Disk → (ℕ → ℕ → List ℕ) → Peer Remote
  remote disk fin_payload = record {
    new_stream = λ s. some (record { offset = none; flow = none; read = 0 });
    put_init = λ init s. answered (handle_file_stream init disk);
    put_data = λ payload s. deliver (frame_type_data, payload) s.flow s;
    put_fin = λ total checksum s. deliver (frame_type_fin, fin_payload total checksum) s.flow s;
    put_cancel = λ s. or_same (deliver (frame_type_cancel, []) s.flow s) s;
    get_accept = λ s. take_offset s.offset s;
    get_ack = λ s. let (reply, s') = take_reply s.flow s in (as_ack reply, s');
    get_done =
        λ s. let (reply, s') = take_reply s.flow s in if as_done reply then some s' else none;
    cancelled = λ s. false;
  }
