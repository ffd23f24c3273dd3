-- ===== src/StablePeers/Examples.antt =====
-- The theorems about stable peers on a few events.
use peerscale.Prelude.{ℕ, ◌+◌, List, [], ◌∷◌, Option, some}
use peerscale.StablePeers.{Connectedness, connected, not_connected}
use peerscale.StablePeers.Bound.{Bounded, handle_all, handle_all-Bounded}

abbrev parse : ℕ → Option ℕ
parse s = some (s + 900)

abbrev events : List (ℕ × ℕ × Connectedness)
events = (10, 1, connected) ∷ (12, 902, connected) ∷ (20, 1, not_connected) ∷ []

handle_all-Bounded_example : Bounded (handle_all parse (2 ∷ []) events [])
handle_all-Bounded_example = handle_all-Bounded parse (2 ∷ []) events
