-- ===== src/Turn.antt =====
-- A TURN server of the pool, of p2put/turnpool.go: its states, its connection and its allocation,
-- and what its two goroutines do. What the pion library holds open for it (the client, the
-- connection, the allocation, and the peer with its own) are numbers; `held` has all that were
-- opened and not closed. A channel is a flag that says whether it is closed, and closing one twice
-- panics, which is `none`. Permissions, probes and log lines are left out.
pub mod Loop
pub mod Ledger
pub mod History
pub mod Backoff
pub mod Pool
pub mod Permissions
pub mod Peer
mod Examples
use peerscale.Prelude.{
  ℕ, zero, suc, ◌+◌, ◌*◌, Bool, true, false, not, ◌&&◌, ◌||◌, Option, none, some, List, [], ◌∷◌,
  leb, ltb, ◌==◌, if◌then◌else◌, and_then,
}
use peerscale.Runtime.{second}

pub data TurnState : Type 0 where
  disconnected connecting authenticating allocating alive reconnecting : TurnState

pub record TurnServer : Type 0 where
  pub state : TurnState
  pub client : Option ℕ
  pub conn : Option ℕ
  pub alloc : Option ℕ
  pub relay_addr : Option ℕ
  pub peer : Option ℕ
  pub stun_fail_count : ℕ
  pub stop_ch : Bool
  pub accept_stop_ch : Bool
  pub reconnect_now : Bool
  pub held : List ℕ

unfoldable pub new_turn_server : TurnServer
new_turn_server = record {
  state = disconnected;
  client = none;
  conn = none;
  alloc = none;
  relay_addr = none;
  peer = none;
  stun_fail_count = 0;
  stop_ch = false;
  accept_stop_ch = false;
  reconnect_now = false;
  held = [];
}

abbrev pub is_alive : TurnState → Bool
is_alive alive = true
is_alive _ = false

-- x.Close()
abbrev pub release : ℕ → List ℕ → List ℕ
release k [] = []
release k (j ∷ held) = if j == k then held else j ∷ release k held

-- if x != nil { x.Close() }
abbrev pub release_some : Option ℕ → List ℕ → List ℕ
release_some none held = held
release_some (some k) held = release k held

abbrev pub append_some : Option ℕ → List ℕ → List ℕ
append_some none held = held
append_some (some k) held = k ∷ held

-- Where connect ends. With `interrupted` it returns on the stop channel while the dial goes on, and
-- nobody takes the connection that the dial may still open. The other numbers are the connection, the client, the allocation, the relay address
-- and the peer; the flag of `connects` says whether acceptProc, which runs by then, has met a fatal
-- error before connect returns.
pub data Connect : Type 0 where
  interrupted : Option ℕ → Connect
  dial_fails : Connect
  no_client listen_fails allocate_fails binding_fails : Connect
  connects : ℕ → ℕ → ℕ → ℕ → ℕ → Bool → Connect

-- acceptProc on an error of a binding: the server is to be connected anew.
unfoldable pub accept_fatal : TurnServer → Option TurnServer
accept_fatal ts =
    if ts.reconnect_now
    then none
    else some (record ts { state = disconnected; reconnect_now = true })

abbrev pub opened : ℕ → ℕ → ℕ → ℕ → ℕ → TurnServer → TurnServer
opened conn client alloc addr peer ts = record ts {
  state = alive;
  client = some client;
  conn = some conn;
  alloc = some alloc;
  relay_addr = some addr;
  peer = some peer;
  stun_fail_count = 0;
  held = conn ∷ client ∷ alloc ∷ peer ∷ ts.held;
}

-- The channels are made anew and the state is set, then what `Connect` says. Before the binding
-- request fails the client, the connection and the allocation are entered; they are closed and
-- taken out again.
unfoldable pub connect : Connect → TurnServer → Option TurnServer
unfolding accept_fatal
connect outcome ts =
    let fresh = record ts { state = connecting; accept_stop_ch = false; reconnect_now = false } in
    elim outcome [
      | interrupted late ↦ some (record fresh { held = append_some late ts.held })
      | dial_fails ↦ some (record fresh { state = disconnected })
      | no_client ↦ some (record fresh { state = disconnected })
      | listen_fails ↦ some (record fresh { state = disconnected })
      | allocate_fails ↦ some (record fresh { state = disconnected })
      | binding_fails ↦ some (record fresh {
        state = disconnected;
        client = none;
        conn = none;
        alloc = none;
        relay_addr = none;
        stun_fail_count = 0;
      })
      | connects conn client alloc addr peer dies ↦
          if dies
          then accept_fatal (opened conn client alloc addr peer fresh)
          else some (opened conn client alloc addr peer fresh)
    ]

unfoldable pub shutdown : TurnServer → TurnServer
shutdown ts = record ts {
  state = disconnected;
  client = none;
  conn = none;
  alloc = none;
  relay_addr = none;
  peer = none;
  accept_stop_ch = true;
  held =
      release_some ts.conn
        (release_some ts.client (release_some ts.alloc (release_some ts.peer ts.held)));
}

-- What AllocateTCP and then SendBindingRequest answer to reallocate, with the new peer.
pub data Reallocate : Type 0 where
  cannot_allocate : Reallocate
  cannot_bind : ℕ → ℕ → Reallocate
  reallocates : ℕ → ℕ → ℕ → Reallocate

abbrev pub signal : TurnServer → Option TurnServer
signal ts =
    if ts.accept_stop_ch
    then some ts
    else if ts.reconnect_now
    then none
    else some (record ts { reconnect_now = true })

abbrev pub with_alloc : ℕ → ℕ → TurnServer → TurnServer
with_alloc alloc addr ts = record ts {
  state = allocating;
  accept_stop_ch = false;
  alloc = some alloc;
  relay_addr = some addr;
  stun_fail_count = 0;
  held = alloc ∷ release_some ts.alloc ts.held;
}

unfoldable pub reallocate : Reallocate → TurnServer → Option TurnServer
reallocate outcome ts = elim ts.client [
  | none ↦ some ts
  | some client ↦ elim outcome [
    | cannot_allocate ↦ signal (record ts {
      state = disconnected;
      alloc = none;
      relay_addr = none;
      held = release_some ts.alloc ts.held;
    })
    | cannot_bind alloc addr ↦ some (record (with_alloc alloc addr ts) { state = disconnected })
    | reallocates alloc addr peer ↦
        let ts' = with_alloc alloc addr ts in
        some (record ts' {
          state = alive;
          peer = some peer;
          held = peer ∷ release_some ts'.peer ts'.held;
        })
  ]
]

-- A binding request on the control connection. Without a client it panics.
unfoldable pub stun_ctrl_keep_mapped_port : Bool → TurnServer → Option TurnServer
stun_ctrl_keep_mapped_port answers ts = elim ts.client [
  | none ↦ none
  | some client ↦
      if answers
      then some (record ts { stun_fail_count = 0 })
      else (let fails = ts.stun_fail_count + 1 in
          some (record ts {
            stun_fail_count = fails;
            state = if leb 2 fails then disconnected else ts.state;
          }))
]

unfoldable pub stop : TurnServer → Option TurnServer
stop ts = if ts.stop_ch then none else some (record ts { stop_ch = true })
