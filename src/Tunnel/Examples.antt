-- ===== src/Tunnel/Examples.antt =====
-- A hub with a stream in each direction, and two hubs under the reaper.
use peerscale.Prelude.{ℕ, ◌*◌, false, List, [], ◌∷◌, arith}
use peerscale.Dict.{IsMap}
use peerscale.Runtime.{minute}
use peerscale.Tunnel.{TunnelHub, inbound, outbound, new_hub, attach, detach}
use peerscale.Tunnel.Live.{IsSingle, start, next, attaches, detaches, Reachable-IsSingle}

abbrev twice_attached : TunnelHub
twice_attached = attach 30 3 outbound (attach 20 2 inbound (attach 10 1 outbound new_hub))

Reachable-IsSingle_example : IsSingle (detach 1 twice_attached).1
Reachable-IsSingle_example = Reachable-IsSingle (
    next
      (next (next (next start (attaches 10 1 outbound)) (attaches 20 2 inbound))
        (attaches 30 3 outbound))
      (detaches 1))

abbrev idle_hub : ℕ → TunnelHub
idle_hub last = record { carriers = []; opening = false; last_use = last; reattached = 1 }

abbrev hubs : List (ℕ × TunnelHub)
hubs = (1, idle_hub (9 * minute)) ∷ (2, idle_hub (5 * minute)) ∷ []

hubs-IsMap : IsMap hubs
hubs-IsMap = record { once = λ k. ground arith }
