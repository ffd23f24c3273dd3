-- ===== src/RelayFile/Poll.antt =====
-- ReceiveFile of p2put/relayfile.go, which looks at the map of sessions every 200 ms.
use peerscale.Prelude.{
  ℕ, ◌≡◌, refl, inl, inr, Bool, true, false, ◌||◌, Option, none, some, List, [], ◌∷◌, ◌==◌,
  if◌then◌else◌, arith, All, Bool-cases, IfSome, map, ap, ◌∙◌,
}
use peerscale.RelayFile.Pack.{Zstd}
use peerscale.RelayFile.Receive.{
  SessionState, transfer, done, error, cancelled, FileSession, Receiver, Flow, Outcome,
  receive_loop,
}
use peerscale.RelayFile.Acks.{receiver_of}
use peerscale.RelayFile.Active.{IsActive, ActiveFlow, loop-IsActive}

-- A session in the map: its number, its peer and its state. A sender's state "init" is transfer
-- here.
pub record Entry : Type 0 where
  pub id : ℕ
  pub peer : ℕ
  pub state : SessionState

-- One turn: the loop sleeps, or ReceiveFile returns, with the error of its context, without an error
-- or with that of the transfer.
pub data Look : Type 0 where
  waits ctx_ended : Look
  succeeded failed : ℕ → Look

abbrev pub judge : ℕ → SessionState → Look
judge id transfer = waits
judge id done = succeeded id
judge id error = failed id
judge id cancelled = failed id

-- The first session of the peer, in the order of Range, is the one that counts.
unfoldable pub look : ℕ → List Entry → Look
look peer [] = waits
look peer (e ∷ entries) = if e.peer == peer then judge e.id e.state else look peer entries

abbrev pub unless_waiting : Look → Option Look → Option Look
unless_waiting waits rest = rest
unless_waiting found rest = some found

abbrev pub turn : ℕ → Bool × List Entry → Look
turn peer (true, entries) = ctx_ended
turn peer (false, entries) = look peer entries

-- The loop of ReceiveFile, with what it sees at each turn: whether the context has ended, and the
-- map; `none` while it sleeps.
unfoldable pub receive_file : ℕ → List (Bool × List Entry) → Option Look
unfolding look
receive_file peer [] = none
receive_file peer (sight ∷ later) =
    let rest = receive_file peer later in unless_waiting (turn peer sight) rest

-- The entry of a session, if the map has it.
abbrev pub entry_of : ℕ → ℕ → FileSession → List Entry
entry_of id peer ses =
    if ses.stored then record { id = id; peer = peer; state = ses.state } ∷ [] else []

abbrev pub any_ended : List (Bool × List (Outcome × Option (ℕ × List ℕ))) → Bool
any_ended [] = false
any_ended ((ended, fs) ∷ looks) = ended || any_ended looks

module _ (z : Zstd) (sha : List ℕ → ℕ) (checksum_of : List ℕ → ℕ) where
  look-IsActive :
      (peer id : ℕ) (ses : FileSession) → IsActive ses → look peer (entry_of id peer ses) ≡ waits
  unfolding look
  look-IsActive peer id ses h = elim (Bool-cases ses.stored) [
    | inr gone ↦ rw gone refl
    | inl there ↦ rw (there, h there) (ground arith)
  ]

  -- The map, with this session alone, when some frames have been handled.
  abbrev pub entries : ℕ → ℕ → Option Flow → List Entry
  entries peer id none = []
  entries peer id (some flow) = entry_of id peer (receiver_of flow).ses

  abbrev pub seen : ℕ → ℕ → Receiver → List (Outcome × Option (ℕ × List ℕ)) → List Entry
  seen peer id r fs = entries peer id (receive_loop z sha checksum_of fs r)

  look-entries :
      (peer id : ℕ) (o : Option Flow) → IfSome ActiveFlow o → look peer (entries peer id o) ≡ waits
  unfolding look
  look-entries peer id none h = refl
  look-entries peer id (some flow) h = look-IsActive peer id (receiver_of flow).ses h

  -- Let the map hold one session, under way, and ReceiveFile look at it any number of times, each
  -- time when the loop of the receiver has handled some frames. If every reply of the receiver gets
  -- through, ReceiveFile returns exactly if its context has ended at one of them, and then with the
  -- context's error, whatever the frames are: also when the file was saved or the transfer failed.
  pub receive_file-never :
      (peer id : ℕ) (looks : List (Bool × List (Outcome × Option (ℕ × List ℕ)))) (r : Receiver)
      → All (λ l. All (λ f. f.0.replies ≡ true) l.1) looks
      → r.ses.state ≡ transfer
      → receive_file peer (map (λ l. (l.0, seen peer id r l.1)) looks)
        ≡ (if any_ended looks then some ctx_ended else none)
  unfolding receive_file
  receive_file-never peer id [] r told h = refl
  receive_file-never peer id ((true, fs) ∷ looks) r told h = refl
  receive_file-never peer id ((false, fs) ∷ looks) r told h =
      ap
        (λ found.
          unless_waiting found (receive_file peer (map (λ l. (l.0, seen peer id r l.1)) looks)))
        (look-entries peer id (receive_loop z sha checksum_of fs r)
          (loop-IsActive z sha checksum_of fs r told.0 (λ e. h)))
      ∙ receive_file-never peer id looks r told.1 h
