-- ===== src/Turn/Examples.antt =====
-- A TURN server that connects at its second dial and is stopped, a pool of one server, and a peer.
use peerscale.Prelude.{◌≡◌, refl, Bool, true, false, List, [], ◌∷◌, IfSome}
use peerscale.Turn.{
  new_turn_server, Connect, dial_fails, connects, cannot_bind, reallocates, shutdown,
}
use peerscale.Turn.Loop.{Act, turns, ticks, accept_reallocates, live}
use peerscale.Turn.Ledger.{IsBalanced}
use peerscale.Turn.History.{live-closes}
use peerscale.Turn.Peer.{}

abbrev dials : List (Connect × Bool)
dials = (dial_fails, false) ∷ (connects 1 2 3 40 5 false, false) ∷ []

abbrev day : List Act
day =
    turns (ticks true) dials
    ∷ turns (ticks false) []
    ∷ accept_reallocates (reallocates 6 41 7)
    ∷ accept_reallocates (cannot_bind 8 42)
    ∷ []

live-closes_example :
    IfSome (λ ts. IsBalanced ts × ((shutdown ts).held ≡ [])) (live day new_turn_server)
live-closes_example = live-closes day ((refl, (refl, tt)), (tt, (tt, (tt, tt))))
