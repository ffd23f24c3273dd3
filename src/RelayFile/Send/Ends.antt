-- ===== src/RelayFile/Send/Ends.antt =====
-- How the receiver begins on the sender's first frame and ends on its last, where nothing fails, and
-- the reply that the sender reads next.
use peerscale.Prelude.{
  ℕ, zero, suc, ◌+◌, ◌-◌, ◌*◌, ◌/◌, ◌≤◌, ◌≡◌, inl, inr, refl, true, false, some, List, [], ◌∷◌,
  length, take, ltb, ◌==◌, arith, Bool-cases, ap,
}
use peerscale.RelayFile.Frame.{frame_type_fin}
use peerscale.RelayFile.Bitmap.{zeros}
use peerscale.RelayFile.Pack.{Zstd, CompressMode}
use peerscale.RelayFile.Receive.{
  done, Reply, ok, Receiver, goes_on, stopped, receive, on_fin, conclude, finish,
}
use peerscale.RelayFile.Transfer.{fine}
use peerscale.RelayFile.Accept.{
  Disk, accepted, handle_file_stream, resume, create, begin, empty_bitmap,
}
use peerscale.RelayFile.Resume.{has_pos-empty, continuous-empty}
use peerscale.RelayFile.Send.{total_chunks, LocalFile, choose_compression, init_of}
use peerscale.RelayFile.Send.Remote.{next_reply}
use peerscale.RelayFile.Send.Step.{Holds}

length-zeros : (n : ℕ) → length (zeros n) ≡ n
length-zeros zero = refl
length-zeros (suc n) = ap suc (length-zeros n)

room-empty : (total : ℕ) → total ≤ 64 * length (empty_bitmap total)
room-empty total = elim (Bool-cases (ltb 0 total)) [
  | inl some_chunks ↦ rw some_chunks (omega (arith, length-zeros ((total + 63) / 64)))
  | inr no_chunks ↦ rw no_chunks (ground (arith, no_chunks))
]

pub take-all : (n : ℕ) (xs : List ℕ) → length xs ≤ n → take n xs ≡ xs
take-all zero [] l = refl
take-all zero (x ∷ xs) l = absurd (omega arith)
take-all (suc n) [] l = refl
take-all (suc n) (x ∷ xs) l = ap (λ ys. x ∷ ys) (take-all n xs (omega arith))

-- The start of the receiver on the sender's first init frame.
pub begins :
    (mode : CompressMode) (file : LocalFile) (disk : Disk)
    → (disk.makes_dir ≡ true) × (disk.creates ≡ true) × (disk.writes ≡ true)
    → (r : Receiver) × (handle_file_stream (init_of mode file 0) disk ≡ some (accepted 0 r))
      × Holds (choose_compression mode file.detected) file.content file.checksum 0 0 [] r
unfolding handle_file_stream resume create begin
begins mode file disk (d, c, w) =
    let total = total_chunks (length file.content) in
    rw (d, c, w, continuous-empty total total)
      (
        _,
        refl,
        record {
          stored = refl;
          ready = record { at_end = omega arith; missing = λ j l. has_pos-empty total j };
          have = λ j l. absurd (omega (arith, l));
          room = room-empty total;
          total = refl;
          compression = refl;
          checksum = refl;
          last = refl;
          sent = refl;
        },
      )

-- The reply that a receiver has sent last, when all the others have been read.
pub next_reply_newest :
    (r : Receiver) (reply : Reply) (replies : List Reply)
    → r.ses.sent ≡ reply ∷ replies
    → next_reply (goes_on r) (length replies) ≡ some reply
next_reply_newest r reply replies e =
    let none_older : suc (length replies) - (length replies + 1) ≡ 0 = omega arith in
    rw (e, none_older) refl

pub next_reply_stopped :
    (r : Receiver) (reply : Reply) (replies : List Reply)
    → r.ses.sent ≡ reply ∷ replies
    → next_reply (stopped r) (length replies) ≡ some reply
next_reply_stopped r reply replies e =
    let none_older : suc (length replies) - (length replies + 1) ≡ 0 = omega arith in
    rw (e, none_older) refl

abbrev pub finished : Receiver → Receiver
finished r = record r {
  ses = record r.ses {
    tmp_open = false;
    tmp_there = false;
    saved = some r.ses.content;
    done_bytes = r.ses.size;
    state = done;
    stored = false;
    sent = ok ∷ r.ses.sent;
  };
}

pub receive_fin :
    (z : Zstd) (sha : List ℕ → ℕ) (checksum_of : List ℕ → ℕ) (payload : List ℕ) (r : Receiver)
    → (checksum_of payload == r.ses.checksum) ≡ true
    → (sha r.ses.content == r.ses.checksum) ≡ true
    → receive z sha checksum_of fine (some (frame_type_fin, payload)) r
      ≡ some (stopped (finished r))
unfolding receive on_fin conclude finish
receive_fin z sha checksum_of payload r same good = rw (same, good) refl
