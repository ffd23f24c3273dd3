-- ===== src/IrohRelay/Sending.antt =====
-- What Write puts on the websocket.
use peerscale.Prelude.{
  ℕ, zero, suc, ◌+◌, ◌≤◌, ◌<◌, ◌≡◌, refl, inl, inr, Bool, true, false, Option, none, some, List, [],
  ◌∷◌, ◌++◌, length, length-take, length-drop, take, drop, ◌==◌, if◌then◌else◌, arith, ap, ◌∙◌,
  Bool-cases, map,
}
use peerscale.IrohRelay.Codec.{flag_data, stream_frame, datagram}
use peerscale.IrohRelay.Conn.{Ws, Conn, is_alive, send_datagram}
use peerscale.IrohRelay.Streams.{
  Pool, Stream, rotate, send_first, send_to, write_loop, write, max_datagram_payload,
}

-- The websocket of the first relay that is alive.
abbrev pub link : List (ℕ × Conn) → Option Ws
link [] = none
link ((url, c) ∷ relays) = if is_alive c.state then c.ws else link relays

-- The websocket when messages were written, the newest of them first.
abbrev pub with_messages : List (List ℕ) → Ws → Ws
with_messages msgs ws = record ws { written = msgs ++ ws.written }

send_datagram-works :
    (remote : ℕ) (frame : List ℕ) (c : Conn) (ws : Ws)
    → c.ws ≡ some ws
    → ws.works ≡ true
    → send_datagram remote frame c
      ≡ (true, record c { ws = some (with_messages (datagram remote frame ∷ []) ws) })
unfolding send_datagram
send_datagram-works remote frame c ws there works = rw (there, works) refl

-- How many relays are alive.
abbrev pub alive_count : List (ℕ × Conn) → ℕ
alive_count [] = 0
alive_count ((url, c) ∷ relays) = (if is_alive c.state then 1 else 0) + alive_count relays

alive_count-append :
    (relays more : List (ℕ × Conn))
    → alive_count (relays ++ more) ≡ alive_count relays + alive_count more
alive_count-append [] more = omega arith
alive_count-append ((url, c) ∷ relays) more = omega (arith, alive_count-append relays more)

link-append :
    (relays more : List (ℕ × Conn))
    → link (relays ++ more) ≡ (if alive_count relays == 0 then link more else link relays)
link-append [] more = refl
link-append ((url, c) ∷ relays) more = ground (arith, link-append relays more)

none_alive : (relays : List (ℕ × Conn)) → alive_count relays ≡ 0 → link relays ≡ none
none_alive [] e = refl
none_alive ((url, c) ∷ relays) e = ground (arith, e, none_alive relays)

-- One relay is alive, and has the websocket.
pub record Only (ws : Ws) (relays : List (ℕ × Conn)) : Type 0 where
  pub linked : link relays ≡ some ws
  pub alone : alive_count relays ≡ 1

rotate_once :
    (ws : Ws) (r : ℕ × Conn) (relays : List (ℕ × Conn))
    → Only ws (r ∷ relays)
    → Only ws (relays ++ (r ∷ []))
rotate_once ws (url, c) relays o = record {
  linked = ground (arith, o.linked, o.alone, link-append relays ((url, c) ∷ []), none_alive relays);
  alone = omega (arith, o.alone, alive_count-append relays ((url, c) ∷ []));
}

rotate-Only :
    (n : ℕ) (ws : Ws) (relays : List (ℕ × Conn)) → Only ws relays → Only ws (rotate n relays)
rotate-Only zero ws relays o = o
rotate-Only (suc n) ws [] o = o
rotate-Only (suc n) ws (r ∷ relays) o =
    rotate-Only n ws (relays ++ (r ∷ [])) (rotate_once ws r relays o)

send_first-Only :
    (remote : ℕ) (frame : List ℕ) (relays : List (ℕ × Conn)) (ws : Ws)
    → Only ws relays
    → ws.works ≡ true
    → ((send_first remote frame relays).0 ≡ true)
      × Only (with_messages (datagram remote frame ∷ []) ws) (send_first remote frame relays).1
unfolding send_first
send_first-Only remote frame [] ws o works = absurd (ground (arith, o.linked))
send_first-Only remote frame ((url, c) ∷ relays) ws o works = elim (Bool-cases (is_alive c.state)) [
  | inl up ↦
      let here : c.ws ≡ some ws = ground (arith, o.linked, up) in
      rw (up, send_datagram-works remote frame c ws here works)
        (refl, record { linked = rw up refl; alone = ground (arith, up, o.alone) })
  | inr down ↦
      let (sent, after) =
        send_first-Only remote frame relays ws
          (record {
            linked = ground (arith, o.linked, down);
            alone = ground (arith, o.alone, down);
          })
          works in
      rw down
        (sent, record { linked = rw down after.linked; alone = ground (arith, down, after.alone) })
]

-- The chunks of Write, with a round for each byte.
abbrev pub chunks : ℕ → List ℕ → List (List ℕ)
chunks zero b = []
chunks (suc n) b =
    let rest = chunks n (drop max_datagram_payload b) in
    if length b == 0 then [] else take max_datagram_payload b ∷ rest

abbrev pub joined : List (List ℕ) → List ℕ
joined [] = []
joined (c ∷ cs) = c ++ joined cs

take-drop : (n : ℕ) (xs : List ℕ) → take n xs ++ drop n xs ≡ xs
take-drop zero xs = refl
take-drop (suc n) [] = refl
take-drop (suc n) (x ∷ xs) = ap (λ l. x ∷ l) (take-drop n xs)

empty : (xs : List ℕ) → length xs ≡ 0 → xs ≡ []
empty [] e = refl
empty (x ∷ xs) e = absurd (omega (arith, e))

pub joined-chunks : (n : ℕ) (b : List ℕ) → length b ≤ n → joined (chunks n b) ≡ b
joined-chunks zero b l = ground (arith, empty b (omega arith))
joined-chunks (suc n) b l = elim (Bool-cases (length b == 0)) [
  | inl done ↦ rw done (ground (arith, done, empty b))
  | inr more ↦ rw more (
      ap (λ l. take max_datagram_payload b ++ l)
        (joined-chunks n (drop max_datagram_payload b)
          (omega (arith, length-drop max_datagram_payload b, l)))
      ∙ take-drop max_datagram_payload b)
]

-- The message for a chunk.
abbrev pub message : ℕ → ℕ → List ℕ → List ℕ
message remote id chunk = datagram remote (stream_frame id flag_data chunk)

-- Messages that are put, one after the other, before those that came earlier.
abbrev pub pushed : List (List ℕ) → List (List ℕ) → List (List ℕ)
pushed [] older = older
pushed (m ∷ ms) older = pushed ms (m ∷ older)

count_is : {m n : ℕ} → m ≡ n → ◌≡◌ {A = ℕ × Bool} (m, true) (n, true)
count_is e = cc

nonempty : (b : List ℕ) → (length b == 0) ≡ false → 0 < length b
nonempty b more = ground (arith, more)

send_to-Only :
    (remote : ℕ) (frame : List ℕ) (p : Pool) (ws : Ws)
    → Only ws p.relays
    → ws.works ≡ true
    → ((send_to remote frame p).0 ≡ true)
      × Only (with_messages (datagram remote frame ∷ []) ws) (send_to remote frame p).1.relays
unfolding send_to
send_to-Only remote frame p ws o works =
    send_first-Only remote frame (rotate (p.rolls 0) p.relays) ws
      (rotate-Only (p.rolls 0) ws p.relays o) works

pub write_loop-Only :
    (n remote id : ℕ) (b : List ℕ) (w : ℕ) (p : Pool) (ws : Ws)
    → length b ≤ n
    → Only ws p.relays
    → ws.works ≡ true
    → ((write_loop n remote id b w p).0 ≡ (w + length b, true))
      × Only
          (record ws { written = pushed (map (message remote id) (chunks n b)) ws.written })
          (write_loop n remote id b w p).1.relays
unfolding write_loop
write_loop-Only zero remote id b w p ws l there works =
    let none_left : length b ≡ 0 = omega (arith, l) in rw none_left (count_is (omega arith), there)
write_loop-Only (suc n) remote id b w p ws l there works = elim (Bool-cases (length b == 0)) [
  | inl done ↦
      let none_left : length b ≡ 0 = ground (arith, done) in
      rw none_left (count_is (omega arith), there)
  | inr more ↦
      let chunk = take max_datagram_payload b in
      let (sent, after) = send_to-Only remote (stream_frame id flag_data chunk) p ws there works in
      let b' = drop max_datagram_payload b in
      let p' = (send_to remote (stream_frame id flag_data chunk) p).1 in
      let ws' = with_messages (message remote id chunk ∷ []) ws in
      let (all, linked) =
        write_loop-Only n remote id b' (w + length chunk) p' ws'
          (omega (arith, length-drop max_datagram_payload b, l, nonempty b more)) after works in
      let total : w + length chunk + length b' ≡ w + length b =
        omega (arith, length-take max_datagram_payload b, length-drop max_datagram_payload b) in
      rw (more, sent) (all ∙ count_is total, linked)
]

-- Write sends all of it, if one relay is alive and its websocket takes every message.
pub write-Only :
    (s : Stream) (b : List ℕ) (p : Pool) (ws : Ws)
    → Only ws p.relays
    → ws.works ≡ true
    → ((write s b p).0 ≡ (length b, true))
      × Only
          (record ws {
            written = pushed (map (message s.remote s.id) (chunks (length b) b)) ws.written;
          })
          (write s b p).1.relays
unfolding write
write-Only s b p ws there works =
    let (all, linked) =
      write_loop-Only (length b) s.remote s.id b 0 p ws (omega arith) there works in
    (all ∙ count_is (omega arith), linked)

pub chunks-first :
    (x : ℕ) (b : List ℕ)
    → chunks (length (x ∷ b)) (x ∷ b)
      ≡ take max_datagram_payload (x ∷ b) ∷ chunks (length b) (drop max_datagram_payload (x ∷ b))
chunks-first x b = let more : (suc (length b) == 0) ≡ false = ground arith in rw more refl
