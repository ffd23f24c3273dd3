-- ===== src/Turn/Pool/Laws.antt =====
-- What a pool of TURN servers lists, and what is left of it after Stop.
use peerscale.Prelude.{
  ℕ, ◌+◌, ◌≡◌, refl, inl, inr, Bool, true, false, ◌&&◌, Option, none, some, List, [], ◌∷◌, ◌==◌,
  arith, occurs, bit, length, Bool-cases, IfSome, and_then, and_then-IfSome, ap, subst,
}
use peerscale.Dict.{lookup, AllEntries, count_values}
use peerscale.Turn.{TurnServer, is_alive, stop}
use peerscale.Turn.Ledger.{IsBalanced, is_some}
use peerscale.Turn.Pool.{
  Entry, TurnPool, stop_all, stop_pool, remove_server, add_addr, relay_addrs, list_relay_addrs,
}

abbrev IsStopped : ℕ → Entry → Type 0
IsStopped addr e = e.server.stop_ch ≡ true

stop-closes : (ts : TurnServer) → IfSome (λ ts'. ts'.stop_ch ≡ true) (stop ts)
unfolding stop
stop-closes ts = elim (Bool-cases ts.stop_ch) [ inl twice ↦ rw twice tt | inr once ↦ rw once refl ]

stop_all-IsStopped :
    (servers : List (ℕ × Entry)) → IfSome (λ m. AllEntries IsStopped m) (stop_all servers)
unfolding stop_all
stop_all-IsStopped [] = tt
stop_all-IsStopped ((addr, e) ∷ servers) =
    and_then-IfSome (λ ts. ts.stop_ch ≡ true) (λ m. AllEntries IsStopped m) (stop e.server) _
      (stop-closes e.server)
      λ ts h.
        and_then-IfSome (λ m. AllEntries IsStopped m) (λ m. AllEntries IsStopped m)
          (stop_all servers) _ (stop_all-IsStopped servers) (λ rest k. (h, k))

stop-twice : (ts : TurnServer) → ts.stop_ch ≡ true → stop ts ≡ none
unfolding stop
stop-twice ts h = rw h refl

found-IsStopped :
    (addr : ℕ) (e : Entry) (m : List (ℕ × Entry))
    → AllEntries IsStopped m
    → lookup addr m ≡ some e
    → (e.server.stop_ch ≡ true) × (stop_all m ≡ none)
unfolding stop_all
found-IsStopped addr e [] all there = absurd (ground arith)
found-IsStopped addr e ((j, f) ∷ m) all there = (
  elim (Bool-cases (j == addr)) [
    | inl same ↦ ground (arith, all.0, there, same)
    | inr other ↦ ground (arith, found-IsStopped addr e m all.1)
  ],
  ap
      (λ o.
        and_then o
          (λ ts. and_then (stop_all m) (λ rest. some ((j, record f { server = ts }) ∷ rest))))
      (stop-twice f.server all.0),
)

-- After Stop of a pool with a server, a second Stop panics, and so does RemoveServer of a server
-- that is there.
pub stop_pool-again :
    (p p' : TurnPool) (addr : ℕ) (e : Entry)
    → stop_pool p ≡ some p'
    → lookup addr p'.servers ≡ some e
    → (stop_pool p' ≡ none) × (remove_server addr p' ≡ none)
unfolding stop_pool remove_server
stop_pool-again p p' addr e stopped there =
    let all : IfSome (λ q. AllEntries IsStopped q.servers) (some p') =
      subst (IfSome (λ q. AllEntries IsStopped q.servers)) stopped (
        and_then-IfSome (λ m. AllEntries IsStopped m) (λ q. AllEntries IsStopped q.servers)
          (stop_all p.servers) _ (stop_all-IsStopped p.servers) (λ m h. h)) in
    let (closed, none_left) = found-IsStopped addr e p'.servers all there in
    (rw none_left refl, rw (there, stop-twice e.server closed) refl)

abbrev pub is_at : ℕ → Option ℕ → Bool
is_at addr none = false
is_at addr (some a) = a == addr

abbrev pub serves : ℕ → Entry → Bool
serves addr e = is_alive e.server.state && is_at addr e.server.relay_addr

occurs-add_addr :
    (x : ℕ) (o : Option ℕ) (xs : List ℕ) → occurs x (add_addr o xs) ≡ bit (is_at x o) + occurs x xs
occurs-add_addr x none xs = omega arith
occurs-add_addr x (some a) xs = refl

length-add_addr :
    (o : Option ℕ) (xs : List ℕ) → is_some o ≡ true → length (add_addr o xs) ≡ length xs + 1
length-add_addr none xs h = absurd (ground arith)
length-add_addr (some a) xs h = omega arith

occurs-relay_addrs :
    (x : ℕ) (m : List (ℕ × Entry)) → occurs x (relay_addrs m) ≡ count_values (serves x) m
unfolding relay_addrs
occurs-relay_addrs x [] = refl
occurs-relay_addrs x ((addr, e) ∷ m) =
    ground (arith, occurs-relay_addrs x m, occurs-add_addr x e.server.relay_addr (relay_addrs m))

length-relay_addrs :
    (m : List (ℕ × Entry))
    → AllEntries (λ addr e. IsBalanced e.server) m
    → length (relay_addrs m) ≡ count_values (λ e. is_alive e.server.state) m
unfolding relay_addrs
length-relay_addrs [] h = refl
length-relay_addrs ((addr, e) ∷ m) (b, h) = elim (Bool-cases (is_alive e.server.state)) [
  | inr down ↦ rw down (omega (arith, length-relay_addrs m h))
  | inl up ↦
      let there : is_some e.server.relay_addr ≡ true = ground (arith, b.equipped up) in
      rw up (
        omega (
          arith,
          length-relay_addrs m h,
          length-add_addr e.server.relay_addr (relay_addrs m) there,
        ))
]

-- ListRelayAddrs gives a relay address as often as there are servers that are alive and have it. If
-- each server holds what it names and has what it needs when it is alive, there is one address for
-- each that is alive.
pub list_relay_addrs-alive :
    (p : TurnPool) (x : ℕ)
    → AllEntries (λ addr e. IsBalanced e.server) p.servers
    → (occurs x (list_relay_addrs p) ≡ count_values (serves x) p.servers)
      × (length (list_relay_addrs p) ≡ count_values (λ e. is_alive e.server.state) p.servers)
unfolding list_relay_addrs
list_relay_addrs-alive p x h = (occurs-relay_addrs x p.servers, length-relay_addrs p.servers h)
