-- ===== src/Softun/Ports.antt =====
-- The local port map of softun/softun_loportmap.go: listeners of the virtual device that stand for
-- the services on the loopback interface. The bytes that a connection carries are left out.
use peerscale.Prelude.{
  ℕ, ◌-◌, ◌*◌, ◌≡◌, refl, Bool, true, false, not, List, [], ◌∷◌, ltb, if◌then◌else◌, arith,
}
use peerscale.Runtime.{minute}
use peerscale.Dict.{has_key, insert}

abbrev pub lpm_ttl : ℕ
lpm_ttl = 5 * minute

-- The listeners by port, with the time at which each was last asked for.
pub record PortMap : Type 0 where
  pub enabled : Bool
  pub listeners : List (ℕ × ℕ)

abbrev pub new_port_map : PortMap
new_port_map = record { enabled = false; listeners = [] }

unfoldable pub enable : PortMap → PortMap
enable p = record p { enabled = true }

-- Every listener is closed.
unfoldable pub disable : PortMap → PortMap
disable p = record { enabled = false; listeners = [] }

-- `probed` is whether the service on the loopback interface answers, and `listens` whether the
-- device can listen on the port.
unfoldable pub ensure_port : ℕ → ℕ → Bool → Bool → PortMap → Bool × PortMap
ensure_port now port probed listens p =
    if not p.enabled
    then (false, p)
    else if has_key port p.listeners
    then (true, record p { listeners = insert port now p.listeners })
    else if not probed
    then (false, p)
    else if not listens
    then (false, p)
    else (true, record p { listeners = insert port now p.listeners })

unfoldable pub reap_ports : ℕ → List (ℕ × ℕ) → List (ℕ × ℕ)
reap_ports now [] = []
reap_ports now ((port, touched) ∷ m) =
    let rest = reap_ports now m in
    if ltb lpm_ttl (now - touched) then rest else (port, touched) ∷ rest

unfoldable pub reap : ℕ → PortMap → PortMap
unfolding reap_ports
reap now p = record p { listeners = reap_ports now p.listeners }

pub data PortCall : Type 0 where
  enables disables : PortCall
  ensures : ℕ → ℕ → Bool → Bool → PortCall
  reaps : ℕ → PortCall

unfoldable pub port_call : PortCall → PortMap → PortMap
unfolding enable disable ensure_port reap
port_call enables p = enable p
port_call disables p = disable p
port_call (ensures now port probed listens) p = (ensure_port now port probed listens p).1
port_call (reaps now) p = reap now p

unfoldable pub port_calls : List PortCall → PortMap → PortMap
unfolding port_call
port_calls [] p = p
port_calls (c ∷ cs) p = port_calls cs (port_call c p)

has_key-insert : (k v : ℕ) (m : List (ℕ × ℕ)) → has_key k (insert k v m) ≡ true
has_key-insert k v [] = ground arith
has_key-insert k v ((j, w) ∷ m) = ground (arith, has_key-insert k v m)

-- The port map takes a connection exactly if there is a listener for its port then.
ensure_port-has_key :
    (now port : ℕ) (probed listens : Bool) (p : PortMap)
    → p.enabled ≡ true
    → let r = ensure_port now port probed listens p in r.0 ≡ has_key port r.1.listeners
unfolding ensure_port
ensure_port-has_key now port probed listens p on =
    ground (arith, on, has_key-insert port now p.listeners)

reap_ports-nil : (now : ℕ) (m : List (ℕ × ℕ)) → m ≡ [] → reap_ports now m ≡ []
unfolding reap_ports
reap_ports-nil now [] e = refl
reap_ports-nil now ((port, touched) ∷ m) e = absurd (ground (arith, e))

abbrev pub IsShut : PortMap → Type 0
IsShut p = p.enabled ≡ false → p.listeners ≡ []

port_call-IsShut : (c : PortCall) (p : PortMap) → IsShut p → IsShut (port_call c p)
unfolding port_call enable disable ensure_port reap
port_call-IsShut enables p h off = absurd (ground arith)
port_call-IsShut disables p h off = refl
port_call-IsShut (ensures now port probed listens) p h off = ground (arith, h, off)
port_call-IsShut (reaps now) p h off = reap_ports-nil now p.listeners (h off)

port_calls-keep : (cs : List PortCall) (p : PortMap) → IsShut p → IsShut (port_calls cs p)
unfolding port_calls
port_calls-keep [] p h = h
port_calls-keep (c ∷ cs) p h = port_calls-keep cs (port_call c p) (port_call-IsShut c p h)

-- While the port map is disabled it has no listener, after any calls in any order.
pub port_calls-closed :
    (cs : List PortCall)
    → (port_calls cs new_port_map).enabled ≡ false
    → (port_calls cs new_port_map).listeners ≡ []
port_calls-closed cs off = port_calls-keep cs new_port_map (λ e. refl) off
