-- ===== src/Turn/History.antt =====
-- What a TURN server holds over a history of what its goroutines do.
use peerscale.Prelude.{
  ℕ, ◌+◌, ◌≡◌, refl, inl, inr, Bool, false, not, Option, none, some, List, [], ◌∷◌, arith, occurs,
  bit, All, Bool-cases, IfSome, ◌==◌, and_then-IfSome, IfSome-if, Option-cases, ap,
}
use peerscale.Turn.{
  TurnServer, is_alive, new_turn_server, release_some, Connect, accept_fatal, shutdown, Reallocate,
  cannot_allocate, cannot_bind, reallocates, reallocate, signal, with_alloc,
  stun_ctrl_keep_mapped_port, stop,
}
use peerscale.Turn.Loop.{
  first_backoff, connect_with_backoff, Wake, stops, reconnects, ticks, wake_up, run_turn, Act,
  turns, accept_dies, stopped, accept_reallocates, act, live,
}
use peerscale.Turn.Ledger.{
  is_in, named, IsBalanced, AllClean, occurs-release_some, shutdown-empty, shutdown-IsIdle,
  shutdown-IsBalanced, attempts-IsBalanced,
}

shutdown-down : (ts : TurnServer) → is_alive (shutdown ts).state ≡ false
unfolding shutdown
shutdown-down ts = refl

accept_fatal-IsBalanced : (ts : TurnServer) → IsBalanced ts → IfSome IsBalanced (accept_fatal ts)
unfolding accept_fatal
accept_fatal-IsBalanced ts h = elim (Bool-cases ts.reconnect_now) [
  | inl twice ↦ rw twice tt
  | inr once ↦ rw once (record { balanced = h.balanced; equipped = λ e. absurd (ground arith) })
]

-- Any state but `alive` needs nothing.
parked :
    (ts' : TurnServer)
    → is_alive ts'.state ≡ false
    → ((x : ℕ) → occurs x ts'.held ≡ named x ts')
    → IsBalanced ts'
parked ts' d b = record { balanced = b; equipped = λ a. absurd (ground arith) }

signal-IsBalanced : (ts : TurnServer) → IsBalanced ts → IfSome IsBalanced (signal ts)
signal-IsBalanced ts h = elim (Bool-cases ts.accept_stop_ch) [
  | inl ends ↦ rw ends (record { balanced = h.balanced; equipped = h.equipped })
  | inr runs ↦ rw runs (elim (Bool-cases ts.reconnect_now) [
    | inl twice ↦ rw twice tt
    | inr once ↦ rw once (record { balanced = h.balanced; equipped = h.equipped })
  ])
]

without_alloc :
    (ts : TurnServer)
    → IsBalanced ts
    → (x : ℕ)
    → occurs x (release_some ts.alloc ts.held)
      ≡ is_in x ts.client + (is_in x ts.conn + is_in x ts.peer)
without_alloc ts h =
    occurs-release_some ts.alloc ts.held
      (λ x. is_in x ts.client + (is_in x ts.conn + is_in x ts.peer))
      (λ x. omega (arith, h.balanced x))

with_peer :
    (alloc addr peer : ℕ) (ts : TurnServer)
    → IsBalanced ts
    → (x : ℕ)
    → occurs x (release_some ts.peer (with_alloc alloc addr ts).held)
      ≡ is_in x ts.client + (is_in x ts.conn + bit (alloc == x))
with_peer alloc addr peer ts h =
    occurs-release_some ts.peer (with_alloc alloc addr ts).held
      (λ x. is_in x ts.client + (is_in x ts.conn + bit (alloc == x)))
      (λ x. omega (arith, without_alloc ts h x))

-- reallocate, for a server with a client.
reallocate_client :
    (outcome : Reallocate) (client : ℕ) (ts : TurnServer)
    → ts.client ≡ some client
    → IsBalanced ts
    → IfSome IsBalanced (reallocate outcome ts)
unfolding reallocate
reallocate_client cannot_allocate client ts e h =
    rw e (
      signal-IsBalanced _
        (parked _ refl (λ x. omega (arith, without_alloc ts h x, ap (is_in x) e))))
reallocate_client (cannot_bind alloc addr) client ts e h =
    rw e (parked _ refl (λ x. omega (arith, without_alloc ts h x, ap (is_in x) e)))
reallocate_client (reallocates alloc addr peer) client ts e h = rw e (record {
  balanced = λ x. omega (arith, with_peer alloc addr peer ts h x, ap (is_in x) e);
  equipped = λ up. refl;
})

reallocate-IsBalanced :
    (outcome : Reallocate) (ts : TurnServer)
    → IsBalanced ts
    → IfSome IsBalanced (reallocate outcome ts)
unfolding reallocate
reallocate-IsBalanced outcome ts h = elim (Option-cases ts.client) [
  | inl gone ↦ rw gone (record {
    balanced = λ x. omega (arith, h.balanced x, ap (is_in x) gone);
    equipped = λ up. absurd (ground (arith, h.equipped up, gone));
  })
  | inr (client, there) ↦ reallocate_client outcome client ts there h
]

stun-IsBalanced :
    (answers : Bool) (ts : TurnServer)
    → IsBalanced ts
    → IfSome IsBalanced (stun_ctrl_keep_mapped_port answers ts)
unfolding stun_ctrl_keep_mapped_port
stun-IsBalanced answers ts h = elim (Option-cases ts.client) [
  | inl gone ↦ rw gone tt
  | inr (client, there) ↦
      let b : (x : ℕ) → occurs x ts.held ≡ named x (record ts { client = some client }) =
        λ x. omega (arith, h.balanced x, ap (is_in x) there) in
      rw there (elim (Bool-cases answers) [
        | inl yes_answer ↦
            rw yes_answer (record { balanced = b; equipped = λ up. ground (arith, h.equipped up) })
        | inr no_answer ↦
            rw no_answer (record { balanced = b; equipped = λ up. ground (arith, h.equipped) })
      ])
]

while_alive :
    (wake : Wake) (ts : TurnServer) → IsBalanced ts → IfSome (λ r. IsBalanced r.0) (wake_up wake ts)
unfolding wake_up
while_alive stops ts h = shutdown-IsBalanced ts h
while_alive reconnects ts h = shutdown-IsBalanced ts h
while_alive (ticks answers) ts h =
    and_then-IfSome IsBalanced (λ r. IsBalanced r.0) (stun_ctrl_keep_mapped_port answers ts) _
      (stun-IsBalanced answers ts h) (λ ts' h'. h')

run_turn-IsBalanced :
    (wake : Wake) (dials : List (Connect × Bool)) (ts : TurnServer)
    → AllClean dials
    → IsBalanced ts
    → IfSome (λ r. IsBalanced r.0) (run_turn wake dials ts)
unfolding run_turn connect_with_backoff
run_turn-IsBalanced wake dials ts c h =
    let down = shutdown-IsBalanced ts h in
    IfSome-if (λ r. IsBalanced r.0) (not (is_alive ts.state)) _ _
      (IfSome-if (λ r. IsBalanced r.0) (shutdown ts).stop_ch _ _ down
        (and_then-IfSome (λ a. IsBalanced a.server) (λ r. IsBalanced r.0)
          (connect_with_backoff dials (shutdown ts)) _
          (attempts-IsBalanced first_backoff dials (shutdown ts) c (shutdown-down ts)
            (shutdown-IsIdle ts h))
          (λ a h'. h')))
      (while_alive wake ts h)

stop-IsBalanced : (ts : TurnServer) → IsBalanced ts → IfSome IsBalanced (stop ts)
unfolding stop
stop-IsBalanced ts h = elim (Bool-cases ts.stop_ch) [
  | inl twice ↦ rw twice tt
  | inr once ↦ rw once (record { balanced = h.balanced; equipped = h.equipped })
]

abbrev pub IsClean : Act → Type 0
IsClean (turns wake dials) = AllClean dials
IsClean _ = Unit

act-IsBalanced :
    (a : Act) (ts : TurnServer) → IsClean a → IsBalanced ts → IfSome IsBalanced (act a ts)
unfolding act
act-IsBalanced (turns wake dials) ts c h =
    and_then-IfSome (λ r. IsBalanced r.0) IsBalanced (run_turn wake dials ts) _
      (run_turn-IsBalanced wake dials ts c h) (λ r h'. h')
act-IsBalanced accept_dies ts c h = accept_fatal-IsBalanced ts h
act-IsBalanced (accept_reallocates outcome) ts c h = reallocate-IsBalanced outcome ts h
act-IsBalanced stopped ts c h = stop-IsBalanced ts h

live-IsBalanced :
    (acts : List Act) (ts : TurnServer)
    → All IsClean acts
    → IsBalanced ts
    → IfSome IsBalanced (live acts ts)
unfolding live
live-IsBalanced [] ts c h = h
live-IsBalanced (a ∷ acts) ts c h =
    and_then-IfSome IsBalanced IsBalanced (act a ts) _ (act-IsBalanced a ts c.0 h)
      (λ ts' h'. live-IsBalanced acts ts' c.1 h')

then_empty :
    (o : Option TurnServer)
    → IfSome IsBalanced o
    → IfSome (λ ts. IsBalanced ts × ((shutdown ts).held ≡ [])) o
then_empty none h = tt
then_empty (some ts) h = (h, shutdown-empty ts h)

-- Whatever its goroutines do, one after the other, unless they panic: the connections, clients,
-- allocations and peers that a server has opened and not closed are exactly those that it names, if
-- no dial is left behind by a stop and acceptProc does not die before connect returns. So a shutdown
-- then closes them all. A server that is alive has a client and a relay address.
pub live-closes :
    (acts : List Act)
    → All IsClean acts
    → IfSome (λ ts. IsBalanced ts × ((shutdown ts).held ≡ [])) (live acts new_turn_server)
unfolding new_turn_server
live-closes acts c =
    let h =
      live-IsBalanced acts new_turn_server c
        (record { balanced = λ x. refl; equipped = λ up. absurd (ground arith) }) in
    then_empty (live acts new_turn_server) h
