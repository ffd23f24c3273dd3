-- ===== src/IrohRelay/KeepAlive.antt =====
-- A ping that is not answered.
use peerscale.Prelude.{
  ℕ, ◌-◌, ◌*◌, ◌<◌, ◌≡◌, ◌≢◌, ◌⊎◌, refl, inl, inr, Bool, true, false, not, Option, none, some, List,
  [], ◌∷◌, length, take, ltb, ◌==◌, ◌&&◌, ◌||◌, if◌then◌else◌, arith, ap, Bool-cases, All, IfSome,
  and_then, and_then-IfSome, IfSome-if,
}
use peerscale.IrohRelay.Codec.{le}
use peerscale.IrohRelay.Conn.{
  Ws, Conn, Outcome, confirmed, refused, panics, Dial, after_handshake, handshake, connect,
  connect_with_backoff, shutdown, tick, Wake, stops, reconnects, ticks, wake_up, run_turn,
  read_message, on_frame, on_pong, write_frame, write_on, is_alive, relay_ping_interval,
}

-- A turn of the loop, or a round of the read loop.
pub data Beat : Type 0 where
  turns : Wake → List (ℕ × Dial × Bool) → Beat
  reads : ℕ → Option (List ℕ) → Beat

-- The number in a pong.
abbrev pub pong_of : Option (List ℕ) → Option ℕ
pong_of none = none
pong_of (some []) = none
pong_of (some (typ ∷ body)) =
    if typ == 10 && not (ltb (length body) 8) then some (le (take 8 body)) else none

abbrev pub DoesNotAnswer : ℕ → Beat → Type 0
DoesNotAnswer q (turns wake dials) = Unit
DoesNotAnswer q (reads now msg) = pong_of msg ≢ some q

abbrev pub Waits : ℕ → Conn → Type 0
Waits q c = c.pending_ping ≡ q

module _ (q : ℕ) where
  write_on-Waits :
      (msg : List ℕ) (ws : Option Ws) (c : Conn) → Waits q c → Waits q (write_on msg ws c).1
  write_on-Waits msg none c h = h
  write_on-Waits msg (some ws) c h = h

  after_handshake-Waits :
      (now : ℕ) (r : Outcome × Ws) (c : Conn)
      → Waits q c
      → IfSome (Waits q) (after_handshake now r c)
  after_handshake-Waits now (confirmed, ws) c h = h
  after_handshake-Waits now (refused, ws) c h = h
  after_handshake-Waits now (panics, ws) c h = tt

  connect-Waits :
      (sign : List ℕ → List ℕ) (local_pub now : ℕ) (dial : Dial) (c : Conn)
      → Waits q c
      → IfSome (Waits q) (connect sign local_pub now dial c)
  unfolding connect
  connect-Waits sign local_pub now none c h = h
  connect-Waits sign local_pub now (some (ws, s)) c h =
      after_handshake-Waits now (handshake sign local_pub s ws) (record c { reconnect_now = false })
        h

  on_pong-Waits :
      (now typ : ℕ) (body : List ℕ) (c : Conn)
      → (typ == 10) ≡ true
      → pong_of (some (typ ∷ body)) ≢ some q
      → Waits q c
      → Waits q (on_pong now body c)
  on_pong-Waits now typ body c pong other h = elim (Bool-cases (ltb (length body) 8)) [
    | inl short ↦ rw short h
    | inr long ↦ elim (Bool-cases (le (take 8 body) == c.pending_ping)) [
      | inr another ↦ rw (long, another) h
      | inl same ↦
          let number : le (take 8 body) ≡ q = ground (arith, same, h) in
          absurd (other (rw (pong, long) (ap (λ n. some n) number)))
    ]
  ]

  on_frame-Waits :
      (now typ : ℕ) (body : List ℕ) (c : Conn)
      → pong_of (some (typ ∷ body)) ≢ some q
      → Waits q c
      → Waits q (on_frame now typ body c).1
  unfolding write_frame
  on_frame-Waits now typ body c other h = elim (Bool-cases (typ == 9)) [
    | inl ping ↦ rw ping (write_on-Waits _ c.ws c h)
    | inr a ↦ rw a (elim (Bool-cases (typ == 10)) [
      | inl pong ↦ rw pong (on_pong-Waits now typ body c pong other h)
      | inr b ↦ rw b (ground (arith, h))
    ])
  ]

  read_message-Waits :
      (now : ℕ) (msg : Option (List ℕ)) (c : Conn)
      → pong_of msg ≢ some q
      → Waits q c
      → Waits q (read_message now msg c).1
  unfolding read_message
  read_message-Waits now none c other h = ground (arith, h)
  read_message-Waits now (some []) c other h = h
  read_message-Waits now (some (typ ∷ body)) c other h =
      on_frame-Waits now typ body (record c { last_recv = now }) other h

  shutdown-Waits : (c : Conn) → Waits q c → Waits q (shutdown c)
  unfolding shutdown
  shutdown-Waits c h = h

  connect_with_backoff-Waits :
      (sign : List ℕ → List ℕ) (local_pub : ℕ) (dials : List (ℕ × Dial × Bool)) (c : Conn)
      → Waits q c
      → IfSome (Waits q) (connect_with_backoff sign local_pub dials c)
  unfolding connect_with_backoff
  connect_with_backoff-Waits sign local_pub [] c h = h
  connect_with_backoff-Waits sign local_pub ((now, dial, stopped) ∷ later) c h =
      and_then-IfSome (Waits q) (Waits q) (connect sign local_pub now dial c) _
        (connect-Waits sign local_pub now dial c h)
        λ c' h'.
          IfSome-if (Waits q) (is_alive c'.state || stopped) (some c') _ h'
            (connect_with_backoff-Waits sign local_pub later c' h')

  module _ (positive : 0 < q) where
    tick-Waits : (now : ℕ) (c : Conn) → Waits q c → (tick now c ≡ c) ⊎ (tick now c ≡ shutdown c)
    unfolding tick
    tick-Waits now c h = elim (Bool-cases (ltb (relay_ping_interval * 3) (now - c.last_recv))) [
      | inl late ↦ inr (rw late refl)
      | inr recent ↦
          let out : (c.pending_ping == 0) ≡ false = ground (arith, h, positive) in
          inl (rw (recent, out) refl)
    ]

    still-Waits : (now : ℕ) (c : Conn) → Waits q c → Waits q (tick now c)
    still-Waits now c h = elim (tick-Waits now c h) [
      | inl same ↦ rw same h
      | inr down ↦ rw down (shutdown-Waits c h)
    ]

    wake_up-Waits : (wake : Wake) (c : Conn) → Waits q c → Waits q (wake_up wake c).0
    unfolding wake_up
    wake_up-Waits stops c h = shutdown-Waits c h
    wake_up-Waits reconnects c h = shutdown-Waits (record c { reconnect_now = false }) h
    wake_up-Waits (ticks now) c h = still-Waits now c h

    run_turn-Waits :
        (sign : List ℕ → List ℕ) (local_pub : ℕ) (wake : Wake) (dials : List (ℕ × Dial × Bool))
        (c : Conn)
        → Waits q c
        → IfSome (λ r. Waits q r.0) (run_turn sign local_pub wake dials c)
    unfolding run_turn
    run_turn-Waits sign local_pub wake dials c h = elim (Bool-cases (is_alive c.state)) [
      | inl up ↦ rw up (wake_up-Waits wake c h)
      | inr down ↦ rw down (
          let d = shutdown c in
          let h' = shutdown-Waits c h in
          IfSome-if (λ r. Waits q r.0) d.stop_closed (some (d, false)) _ h'
            (and_then-IfSome (Waits q) (λ r. Waits q r.0)
              (connect_with_backoff sign local_pub dials d) (λ c'. some (c', true))
              (connect_with_backoff-Waits sign local_pub dials d h') (λ c' k. k)))
    ]

-- What a connection goes through, one beat after the other; `none` is a panic in the handshake.
abbrev pub beat : (List ℕ → List ℕ) → ℕ → Beat → Conn → Option Conn
beat sign local_pub (turns wake dials) c =
    and_then (run_turn sign local_pub wake dials c) (λ r. some r.0)
beat sign local_pub (reads now msg) c = some (read_message now msg c).1

abbrev pub live : (List ℕ → List ℕ) → ℕ → List Beat → Conn → Option Conn
live sign local_pub [] c = some c
live sign local_pub (b ∷ bs) c = and_then (beat sign local_pub b c) (live sign local_pub bs)

module _ (sign : List ℕ → List ℕ) (local_pub q : ℕ) where
  beat-Waits :
      (b : Beat) (c : Conn)
      → 0 < q
      → DoesNotAnswer q b
      → Waits q c
      → IfSome (Waits q) (beat sign local_pub b c)
  beat-Waits (turns wake dials) c positive other h =
      and_then-IfSome (λ r. Waits q r.0) (Waits q) (run_turn sign local_pub wake dials c) _
        (run_turn-Waits q positive sign local_pub wake dials c h) (λ r h'. h')
  beat-Waits (reads now msg) c positive other h = read_message-Waits q now msg c other h

  -- While ping number `q` is unanswered the connection does not ping again: whatever it goes through,
  -- new connections to the server included, no tick of the keep-alive writes. It changes nothing or
  -- shuts the connection down, until a pong with that number comes.
  pub live-silent :
      (bs : List Beat) (c : Conn)
      → 0 < q
      → All (DoesNotAnswer q) bs
      → c.pending_ping ≡ q
      → IfSome
          (λ c'. (now : ℕ) → (tick now c' ≡ c') ⊎ (tick now c' ≡ shutdown c'))
          (live sign local_pub bs c)
  live-silent [] c positive others h = λ now. tick-Waits q positive now c h
  live-silent (b ∷ bs) c positive others h =
      and_then-IfSome (Waits q) _ (beat sign local_pub b c) _ (beat-Waits b c positive others.0 h)
        (λ c' h'. live-silent bs c' positive others.1 h')
