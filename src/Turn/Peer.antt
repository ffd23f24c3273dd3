-- ===== src/Turn/Peer.antt =====
-- TurnPeer of p2put/turnpeer.go: its connection to the TURN server, its connection to the relay
-- address, and the health of the latter. An error of SetDeadline is not modelled.
use peerscale.Prelude.{
  ℕ, ◌+◌, ◌≡◌, refl, inl, inr, Bool, true, false, not, ◌&&◌, Option, none, some, List, [], ◌∷◌,
  ◌==◌, if◌then◌else◌, arith, Bool-cases, ◌∙◌, All,
}

-- `control` is the connection, client and allocation on the TURN server, which come and go as one.
pub record TurnPeer : Type 0 where
  pub mapped_addr : Option ℕ
  pub control : Bool
  pub relay_conn : Bool
  pub fail_count : ℕ
  pub last_ping : ℕ
  pub last_pong : ℕ
  pub tx_bytes : ℕ
  pub rx_bytes : ℕ

unfoldable pub new_turn_peer : TurnPeer
new_turn_peer = record {
  mapped_addr = none;
  control = false;
  relay_conn = false;
  fail_count = 0;
  last_ping = 0;
  last_pong = 0;
  tx_bytes = 0;
  rx_bytes = 0;
}

-- Where ExchangeMapped ends: at the dial, the client, Listen, the binding request, an address that
-- is not of UDP, the allocation, or with the mapped address.
pub data Exchange : Type 0 where
  cannot_dial cannot_create cannot_listen unbound not_udp unallocated : Exchange
  exchanged : ℕ → Exchange

-- On an error what was opened is closed again, and nothing is entered.
unfoldable pub exchange_mapped : Exchange → TurnPeer → TurnPeer
exchange_mapped (exchanged addr) tp = record tp { mapped_addr = some addr; control = true }
exchange_mapped _ tp = tp

abbrev pub close_turn : TurnPeer → TurnPeer
close_turn tp = record tp { control = false }

abbrev pub close_relay : TurnPeer → TurnPeer
close_relay tp = record tp { relay_conn = false }

-- Whether the binding request is answered, and what a new exchange gives.
unfoldable pub stun_keep : Bool → Exchange → TurnPeer → TurnPeer
unfolding exchange_mapped
stun_keep answers again tp =
    if not tp.control then tp else if answers then tp else exchange_mapped again (close_turn tp)

-- What the relay connection answers to a ping: no write, no read, `n` bytes that are pong or not.
pub data Pong : Type 0 where
  write_fails read_fails : Pong
  reads : ℕ → Bool → Pong

-- The part of relayPing on a connection that is there.
unfoldable pub ping_on : ℕ → ℕ → Pong → TurnPeer → TurnPeer
ping_on pinged ponged write_fails tp = record tp { last_ping = pinged; relay_conn = false }
ping_on pinged ponged read_fails tp = record tp {
  last_ping = pinged;
  tx_bytes = tp.tx_bytes + 4;
  relay_conn = false;
}
ping_on pinged ponged (reads n is_pong) tp =
    let got = record tp {
      last_ping = pinged;
      tx_bytes = tp.tx_bytes + 4;
      rx_bytes = tp.rx_bytes + n;
    } in
    if is_pong
    then record got { fail_count = 0; last_pong = ponged }
    else record got { relay_conn = false }

-- `dials` is whether the relay can be dialed, if there is no connection.
unfoldable pub relay_ping : ℕ → ℕ → Bool → Pong → TurnPeer → TurnPeer
unfolding ping_on
relay_ping pinged ponged dials pong tp =
    if tp.relay_conn
    then ping_on pinged ponged pong tp
    else if dials
    then ping_on pinged ponged pong (record tp { relay_conn = true })
    else record tp { fail_count = tp.fail_count + 1 }

-- The ticks of runLoop, and its end.
pub data PeerTick : Type 0 where
  stun_tick : Bool → Exchange → PeerTick
  ping_tick : ℕ → ℕ → Bool → Pong → PeerTick
  stop_tick : PeerTick

unfoldable pub run_peer : List PeerTick → TurnPeer → TurnPeer
unfolding stun_keep relay_ping
run_peer [] tp = tp
run_peer (stun_tick answers again ∷ ticks) tp = run_peer ticks (stun_keep answers again tp)
run_peer (ping_tick pinged ponged dials pong ∷ ticks) tp =
    run_peer ticks (relay_ping pinged ponged dials pong tp)
run_peer (stop_tick ∷ ticks) tp = close_relay (close_turn tp)

-- Stats().Alive
abbrev pub shown_alive : TurnPeer → Bool
shown_alive tp = tp.fail_count == 0

abbrev pub no_pong : Pong → Bool
no_pong (reads n is_pong) = not is_pong
no_pong _ = true

-- The relay can be dialed, and answers no ping with pong.
abbrev pub is_silent : PeerTick → Bool
is_silent (ping_tick pinged ponged dials pong) = dials && no_pong pong
is_silent _ = true

-- What a ping without an answer leaves as it was.
record Unanswered (tp tp' : TurnPeer) : Type 0 where
  fail_count : tp'.fail_count ≡ tp.fail_count
  last_pong : tp'.last_pong ≡ tp.last_pong

ping_on-Unanswered :
    (pinged ponged : ℕ) (pong : Pong) (tp : TurnPeer)
    → no_pong pong ≡ true
    → Unanswered tp (ping_on pinged ponged pong tp)
unfolding ping_on
ping_on-Unanswered pinged ponged write_fails tp h = record { fail_count = refl; last_pong = refl }
ping_on-Unanswered pinged ponged read_fails tp h = record { fail_count = refl; last_pong = refl }
ping_on-Unanswered pinged ponged (reads n true) tp h = absurd (ground arith)
ping_on-Unanswered pinged ponged (reads n false) tp h = record {
  fail_count = refl;
  last_pong = refl;
}

relay_ping-Unanswered :
    (pinged ponged : ℕ) (dials : Bool) (pong : Pong) (tp : TurnPeer)
    → (dials && no_pong pong) ≡ true
    → Unanswered tp (relay_ping pinged ponged dials pong tp)
unfolding relay_ping
relay_ping-Unanswered pinged ponged false pong tp h = absurd (ground arith)
relay_ping-Unanswered pinged ponged true pong tp h = elim (Bool-cases tp.relay_conn) [
  | inl there ↦ rw there (
      let u = ping_on-Unanswered pinged ponged pong (record tp { relay_conn = true }) h in
      record { fail_count = u.fail_count; last_pong = u.last_pong })
  | inr gone ↦ rw gone (
      let u = ping_on-Unanswered pinged ponged pong (record tp { relay_conn = true }) h in
      record { fail_count = u.fail_count; last_pong = u.last_pong })
]

exchange-Unanswered :
    (again : Exchange) (tp : TurnPeer) → Unanswered tp (exchange_mapped again (close_turn tp))
unfolding exchange_mapped
exchange-Unanswered (exchanged addr) tp = record { fail_count = refl; last_pong = refl }
exchange-Unanswered cannot_dial tp = record { fail_count = refl; last_pong = refl }
exchange-Unanswered cannot_create tp = record { fail_count = refl; last_pong = refl }
exchange-Unanswered cannot_listen tp = record { fail_count = refl; last_pong = refl }
exchange-Unanswered unbound tp = record { fail_count = refl; last_pong = refl }
exchange-Unanswered not_udp tp = record { fail_count = refl; last_pong = refl }
exchange-Unanswered unallocated tp = record { fail_count = refl; last_pong = refl }

stun_keep-Unanswered :
    (answers : Bool) (again : Exchange) (tp : TurnPeer)
    → ((stun_keep answers again tp).fail_count ≡ tp.fail_count)
      × ((stun_keep answers again tp).last_pong ≡ tp.last_pong)
unfolding stun_keep
stun_keep-Unanswered answers again tp =
    let u = exchange-Unanswered again tp in
    (ground (arith, u.fail_count), ground (arith, u.last_pong))

run_peer-Unanswered :
    (ticks : List PeerTick) (tp : TurnPeer)
    → All (λ t. is_silent t ≡ true) ticks
    → ((run_peer ticks tp).fail_count ≡ tp.fail_count)
      × ((run_peer ticks tp).last_pong ≡ tp.last_pong)
unfolding run_peer
run_peer-Unanswered [] tp h = (refl, refl)
run_peer-Unanswered (stun_tick answers again ∷ ticks) tp h =
    let (f, l) = run_peer-Unanswered ticks (stun_keep answers again tp) h.1 in
    let (f', l') = stun_keep-Unanswered answers again tp in (f ∙ f', l ∙ l')
run_peer-Unanswered (ping_tick pinged ponged dials pong ∷ ticks) tp h =
    let (f, l) = run_peer-Unanswered ticks (relay_ping pinged ponged dials pong tp) h.1 in
    let u = relay_ping-Unanswered pinged ponged dials pong tp h.0 in
    (f ∙ u.fail_count, l ∙ u.last_pong)
run_peer-Unanswered (stop_tick ∷ ticks) tp h = (refl, refl)

-- A new peer whose relay can always be dialed but never answers a ping with pong is shown as alive
-- after any ticks, although it has never had a pong.
pub run_peer-shown_alive :
    (ticks : List PeerTick)
    → All (λ t. is_silent t ≡ true) ticks
    → (shown_alive (run_peer ticks new_turn_peer) ≡ true)
      × ((run_peer ticks new_turn_peer).last_pong ≡ 0)
unfolding new_turn_peer
run_peer-shown_alive ticks h =
    let (f, l) = run_peer-Unanswered ticks new_turn_peer h in (ground (arith, f), l)
