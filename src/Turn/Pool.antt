-- ===== src/Turn/Pool.antt =====
-- TurnPool of p2put/turnpool.go: the map of servers, by address. The goroutine that start begins is
-- counted; what it does is the server's history in Turn/Loop. A panic is `none`.
pub mod Laws
use peerscale.Prelude.{
  ℕ, zero, suc, ◌+◌, ◌-◌, Bool, true, false, not, Option, none, some, List, [], ◌∷◌, if◌then◌else◌,
  and_then,
}
use peerscale.Dict.{lookup, has_key, insert, erase}
use peerscale.Turn.{TurnState, disconnected, is_alive, TurnServer, new_turn_server, stop}

-- A server with the time when it was made and the number of goroutines that were started for it.
pub record Entry : Type 0 where
  pub server : TurnServer
  pub created_at : ℕ
  pub loops : ℕ

-- `started` is whether Start has set the context, which Stop only cancels.
pub record TurnPool : Type 0 where
  pub servers : List (ℕ × Entry)
  pub started : Bool
  pub is_cancelled : Bool

unfoldable pub new_turn_pool : TurnPool
new_turn_pool = record { servers = []; started = false; is_cancelled = false }

abbrev pub run_loop : Entry → Entry
run_loop e = record e { loops = e.loops + 1 }

unfoldable pub start_all : List (ℕ × Entry) → List (ℕ × Entry)
start_all [] = []
start_all ((addr, e) ∷ servers) = (addr, run_loop e) ∷ start_all servers

unfoldable pub start : TurnPool → TurnPool
unfolding start_all
start p = record { servers = start_all p.servers; started = true; is_cancelled = false }

unfoldable pub stop_all : List (ℕ × Entry) → Option (List (ℕ × Entry))
unfolding stop
stop_all [] = some []
stop_all ((addr, e) ∷ servers) =
    and_then (stop e.server)
      λ ts. and_then (stop_all servers) λ rest. some ((addr, record e { server = ts }) ∷ rest)

unfoldable pub stop_pool : TurnPool → Option TurnPool
unfolding stop_all
stop_pool p =
    and_then (stop_all p.servers)
      (λ servers. some (record p { servers = servers; is_cancelled = p.started }))

-- Whether the server is new, and the pool.
unfoldable pub add_server : ℕ → ℕ → TurnPool → Bool × TurnPool
unfolding new_turn_server
add_server now addr p =
    if has_key addr p.servers
    then (false, p)
    else (let e : Entry = record { server = new_turn_server; created_at = now; loops = 0 } in
        (true, record p { servers = insert addr (if p.started then run_loop e else e) p.servers }))

abbrev pub remove_found : ℕ → Option Entry → TurnPool → Option TurnPool
remove_found addr none p = some p
remove_found addr (some e) p =
    and_then (stop e.server) (λ ts. some (record p { servers = erase addr p.servers }))

unfoldable pub remove_server : ℕ → TurnPool → Option TurnPool
unfolding stop
remove_server addr p = remove_found addr (lookup addr p.servers) p

abbrev pub add_addr : Option ℕ → List ℕ → List ℕ
add_addr none addrs = addrs
add_addr (some addr) addrs = addr ∷ addrs

unfoldable pub relay_addrs : List (ℕ × Entry) → List ℕ
relay_addrs [] = []
relay_addrs ((addr, e) ∷ servers) =
    let rest = relay_addrs servers in
    if not (is_alive e.server.state) then rest else add_addr e.server.relay_addr rest

unfoldable pub list_relay_addrs : TurnPool → List ℕ
unfolding relay_addrs
list_relay_addrs p = relay_addrs p.servers

-- The state and whether the server is known.
unfoldable pub status : ℕ → TurnPool → TurnState × Bool
status addr p = elim (lookup addr p.servers) [
  | none ↦ (disconnected, false)
  | some e ↦ (e.server.state, true)
]

-- TxBytes and RxBytes stay 0, as does portFailCount.
pub record TurnStats : Type 0 where
  pub state : TurnState
  pub uptime : ℕ
  pub relay_addr : Option ℕ
  pub fail_count : ℕ

unfoldable pub stats : ℕ → ℕ → TurnPool → Option TurnStats
stats now addr p = and_then (lookup addr p.servers) λ e. some (record {
  state = e.server.state;
  uptime = now - e.created_at;
  relay_addr = e.server.relay_addr;
  fail_count = e.server.stun_fail_count;
})
