-- ===== src/Turn/Ledger.antt =====
-- A TURN server closes all that it opened.
use peerscale.Prelude.{
  ℕ, ◌+◌, ◌<◌, ◌≡◌, refl, inl, inr, Bool, true, false, not, ◌&&◌, Option, none, some, List, [], ◌∷◌,
  ◌==◌, arith, occurs, bit, All, Bool-cases, IfSome, and_then-IfSome,
}
use peerscale.Turn.{
  TurnServer, TurnState, disconnected, connecting, is_alive, release, release_some, Connect,
  interrupted, dial_fails, no_client, listen_fails, allocate_fails, binding_fails, connects, opened,
  connect, shutdown,
}
use peerscale.Turn.Loop.{Attempts, attempts, after_attempt, next_backoff}

abbrev pub is_in : ℕ → Option ℕ → ℕ
is_in x none = 0
is_in x (some k) = bit (k == x)

-- How often the fields of a server name something that is open.
abbrev pub named : ℕ → TurnServer → ℕ
named x ts = is_in x ts.client + (is_in x ts.conn + (is_in x ts.alloc + is_in x ts.peer))

abbrev pub is_some : Option ℕ → Bool
is_some none = false
is_some (some k) = true

-- The server knows exactly what it holds open, and has what it needs when it is alive.
pub record IsBalanced (ts : TurnServer) : Type 0 where
  pub balanced : (x : ℕ) → occurs x ts.held ≡ named x ts
  pub equipped : is_alive ts.state ≡ true → (is_some ts.client && is_some ts.relay_addr) ≡ true

-- It holds nothing.
pub record IsIdle (ts : TurnServer) : Type 0 where
  client : ts.client ≡ none
  conn : ts.conn ≡ none
  alloc : ts.alloc ≡ none
  peer : ts.peer ≡ none
  held : ts.held ≡ []

abbrev Settled : TurnServer → Type 0
Settled ts = IsBalanced ts × (is_alive ts.state ≡ false → IsIdle ts)

pub idle-IsBalanced : (ts : TurnServer) → is_alive ts.state ≡ false → IsIdle ts → IsBalanced ts
idle-IsBalanced ts d h = record {
  balanced = λ x. rw (h.held, h.client, h.conn, h.alloc, h.peer) refl;
  equipped = λ a. absurd (ground arith);
}

-- No connection is left behind by a stop during the dial, and acceptProc lives until connect
-- returns.
abbrev pub is_clean : Connect → Bool
is_clean (interrupted none) = true
is_clean (interrupted (some k)) = false
is_clean (connects conn client alloc addr peer dies) = not dies
is_clean _ = true

occurs-release :
    (x k : ℕ) (held : List ℕ)
    → 0 < occurs k held
    → occurs x (release k held) + bit (k == x) ≡ occurs x held
occurs-release x k [] h = absurd (omega arith)
occurs-release x k (j ∷ held) h = ground (arith, occurs-release x k held)

pub occurs-release_some :
    (o : Option ℕ) (held : List ℕ) (rest : ℕ → ℕ)
    → ((x : ℕ) → occurs x held ≡ is_in x o + rest x)
    → (x : ℕ) → occurs x (release_some o held) ≡ rest x
occurs-release_some none held rest h x = omega (arith, h x)
occurs-release_some (some k) held rest h x = ground (arith, occurs-release x k held, h x, h k)

no_occurs : (xs : List ℕ) → ((x : ℕ) → occurs x xs ≡ 0) → xs ≡ []
no_occurs [] h = refl
no_occurs (x ∷ xs) h = absurd (ground (arith, h x))

pub shutdown-empty : (ts : TurnServer) → IsBalanced ts → (shutdown ts).held ≡ []
unfolding shutdown
shutdown-empty ts h = no_occurs _ (
    occurs-release_some ts.conn _ (λ x. 0)
      (occurs-release_some ts.client _ (λ x. is_in x ts.conn + 0)
        (occurs-release_some ts.alloc _ (λ x. is_in x ts.client + (is_in x ts.conn + 0))
          (occurs-release_some ts.peer _
            (λ x. is_in x ts.alloc + (is_in x ts.client + (is_in x ts.conn + 0)))
            (λ x. omega (arith, h.balanced x))))))

idle-Settled : (ts : TurnServer) → is_alive ts.state ≡ false → IsIdle ts → Settled ts
idle-Settled ts d h = (idle-IsBalanced ts d h, λ e. h)

-- A server that holds nothing, with its channels made anew.
abbrev renewed : TurnState → TurnServer → TurnServer
renewed state ts = record ts { state = state; accept_stop_ch = false; reconnect_now = false }

renewed-Settled :
    (state : TurnState) (ts : TurnServer)
    → is_alive state ≡ false
    → IsIdle ts
    → Settled (renewed state ts)
renewed-Settled state ts d h =
    idle-Settled (renewed state ts) d
      (record { client = h.client; conn = h.conn; alloc = h.alloc; peer = h.peer; held = h.held })

opened-Settled :
    (conn client alloc addr peer : ℕ) (ts : TurnServer)
    → IsIdle ts
    → Settled (opened conn client alloc addr peer (renewed connecting ts))
opened-Settled conn client alloc addr peer ts h = (
  record { balanced = λ x. rw h.held (omega arith); equipped = λ e. refl },
  λ e. absurd (ground arith),
)

connect-Settled :
    (outcome : Connect) (ts : TurnServer)
    → is_clean outcome ≡ true
    → IsIdle ts
    → IfSome Settled (connect outcome ts)
unfolding connect
connect-Settled (interrupted none) ts c h = renewed-Settled connecting ts refl h
connect-Settled (interrupted (some k)) ts c h = absurd (ground arith)
connect-Settled dial_fails ts c h = renewed-Settled disconnected ts refl h
connect-Settled no_client ts c h = renewed-Settled disconnected ts refl h
connect-Settled listen_fails ts c h = renewed-Settled disconnected ts refl h
connect-Settled allocate_fails ts c h = renewed-Settled disconnected ts refl h
connect-Settled binding_fails ts c h =
    idle-Settled _ refl
      (record { client = refl; conn = refl; alloc = refl; peer = h.peer; held = h.held })
connect-Settled (connects conn client alloc addr peer true) ts c h = absurd (ground arith)
connect-Settled (connects conn client alloc addr peer false) ts c h =
    opened-Settled conn client alloc addr peer ts h

pub shutdown-IsIdle : (ts : TurnServer) → IsBalanced ts → IsIdle (shutdown ts)
unfolding shutdown
shutdown-IsIdle ts h = record {
  client = refl;
  conn = refl;
  alloc = refl;
  peer = refl;
  held = shutdown-empty ts h;
}

pub shutdown-IsBalanced : (ts : TurnServer) → IsBalanced ts → IsBalanced (shutdown ts)
unfolding shutdown
shutdown-IsBalanced ts h = idle-IsBalanced (shutdown ts) refl (shutdown-IsIdle ts h)

abbrev pub AllClean : List (Connect × Bool) → Type 0
AllClean dials = All (λ d. is_clean d.0 ≡ true) dials

after_attempt-IsBalanced :
    (backoff : ℕ) (stopped : Bool) (rest : TurnServer → Option Attempts) (ts : TurnServer)
    → Settled ts
    → ((ts' : TurnServer)
        → is_alive ts'.state ≡ false
        → IsIdle ts'
        → IfSome (λ a. IsBalanced a.server) (rest ts'))
    → IfSome (λ a. IsBalanced a.server) (after_attempt backoff stopped rest ts)
after_attempt-IsBalanced backoff stopped rest ts s next = elim (Bool-cases (is_alive ts.state)) [
  | inl up ↦ rw up s.0
  | inr down ↦ rw down (elim (Bool-cases stopped) [
    | inl ends ↦ rw ends s.0
    | inr goes_on ↦ rw goes_on (
        and_then-IfSome (λ a. IsBalanced a.server) (λ a. IsBalanced a.server) (rest ts) _
          (next ts down (s.1 down)) (λ a h. h))
  ])
]

pub attempts-IsBalanced :
    (backoff : ℕ) (dials : List (Connect × Bool)) (ts : TurnServer)
    → AllClean dials
    → is_alive ts.state ≡ false
    → IsIdle ts
    → IfSome (λ a. IsBalanced a.server) (attempts backoff dials ts)
unfolding attempts
attempts-IsBalanced backoff [] ts c d h = idle-IsBalanced ts d h
attempts-IsBalanced backoff ((outcome, stopped) ∷ later) ts c d h =
    and_then-IfSome Settled (λ a. IsBalanced a.server) (connect outcome ts) _
      (connect-Settled outcome ts c.0 h)
      λ ts' s.
        after_attempt-IsBalanced backoff stopped (attempts (next_backoff backoff) later) ts' s
          (λ ts'' d' h'. attempts-IsBalanced (next_backoff backoff) later ts'' c.1 d' h')
