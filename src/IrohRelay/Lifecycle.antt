-- ===== src/IrohRelay/Lifecycle.antt =====
-- Start, Stop, AddRelay, RemoveRelay and ListStats of p2put/irohrelay.go. A relay's goroutine is its
-- history in Conn; a panic is `none`.
use peerscale.Prelude.{
  ℕ, Bool, true, false, Option, none, some, List, [], ◌∷◌, if◌then◌else◌, and_then,
}
use peerscale.Dict.{lookup, has_key, insert, erase}
use peerscale.IrohRelay.Conn.{State, Conn, new_relay_conn, stop}
use peerscale.IrohRelay.Streams.{Pool}

-- NewIrohRelayPool, with no key yet.
unfoldable pub new_pool : (ℕ → ℕ) → Pool
new_pool rolls = record {
  started = false;
  local_pub = 0;
  relays = [];
  peers = [];
  store = [];
  free = 0;
  accept_ch = [];
  rolls = rolls;
}

-- The key that is loaded, or none; and whether Start returns no error.
abbrev pub start_with : Option ℕ → Pool → Bool × Pool
start_with none p = (false, record p { started = false; accept_ch = [] })
start_with (some key) p = (true, record p { started = true; accept_ch = []; local_pub = key })

unfoldable pub start : Option ℕ → Pool → Bool × Pool
start key p = if p.started then (true, p) else start_with key p

unfoldable pub stop_relays : List (ℕ × Conn) → Option (List (ℕ × Conn))
unfolding stop
stop_relays [] = some []
stop_relays ((url, c) ∷ relays) =
    and_then (stop c) λ c'. and_then (stop_relays relays) λ rest. some ((url, c') ∷ rest)

unfoldable pub stop_pool : Pool → Option Pool
unfolding stop_relays
stop_pool p =
    if p.started
    then and_then (stop_relays p.relays)
        (λ relays. some (record p { started = false; relays = relays }))
    else some p

unfoldable pub add_relay : ℕ → ℕ → Pool → Bool × Pool
unfolding new_relay_conn
add_relay now url p =
    if has_key url p.relays
    then (false, p)
    else (true, record p { relays = insert url (new_relay_conn now) p.relays })

abbrev pub remove_found : ℕ → Option Conn → Pool → Option Pool
remove_found url none p = some p
remove_found url (some c) p =
    and_then (stop c) (λ c'. some (record p { relays = erase url p.relays }))

unfoldable pub remove_relay : ℕ → Pool → Option Pool
unfolding stop
remove_relay url p = remove_found url (lookup url p.relays) p

-- IrohRelayStats without the fields that stay 0, and without the key.
pub record Stats : Type 0 where
  pub url : ℕ
  pub state : State
  pub tx_bytes : ℕ

unfoldable pub list_stats : List (ℕ × Conn) → List Stats
list_stats [] = []
list_stats ((url, c) ∷ relays) =
    record { url = url; state = c.state; tx_bytes = c.tx_bytes } ∷ list_stats relays
