-- ===== src/Tunnel/Inbound.antt =====
-- Streams that come in and the packets on them: handleStream and WriteToPeer of
-- iptunnel/iptunnel.go, and pump of iptunnel/hub.go. What the goroutine of pump does to the hub is
-- its detach, at the end.
use peerscale.Prelude.{
  ℕ, ◌≡◌, refl, Bool, true, false, Option, none, some, List, [], ◌∷◌, if◌then◌else◌, ap,
}
use peerscale.Dict.{insert}
use peerscale.Tunnel.{Direction, TunnelHub, hub_for, attach, detach}
use peerscale.Tunnel.Write.{Try, Written, write}

-- What ReadMsg gives. A packet comes with whether a Sink is registered then.
pub data Read : Type 0 where
  packet : Bool → List ℕ → Read
  timed_out broke : Read

-- The packets that the Sink gets, and whether the loop has ended.
unfoldable pub pump_reads : List Read → List (List ℕ) × Bool
pump_reads [] = ([], false)
pump_reads (packet registered pkt ∷ reads) =
    let rest = pump_reads reads in if registered then (pkt ∷ rest.0, rest.1) else rest
pump_reads (timed_out ∷ reads) = pump_reads reads
pump_reads (broke ∷ reads) = ([], true)

-- The deferred detach, if the loop has ended; the flag says whether a stream is to be opened.
unfoldable pub pump : ℕ → List Read → TunnelHub → List (List ℕ) × (Bool × TunnelHub)
unfolding pump_reads detach
pump id reads h =
    let (packets, ended) = pump_reads reads in (packets, if ended then detach id h else (false, h))

-- The hubs, and whether the hub that hubFor gave is still the one of the peer there. A stream that is
-- attached to a hub which the reaper has taken out is in no hub of the map.
abbrev pub join : ℕ → ℕ → ℕ → Direction → Bool × List (ℕ × TunnelHub) → List (ℕ × TunnelHub)
join now peer_id id d (true, hubs) =
    let (h, hubs') = hub_for peer_id hubs in insert peer_id (attach now id d h) hubs'
join now peer_id id d (false, hubs) = hubs

-- `meanwhile` is what other goroutines do to the hubs between hubFor and attach.
unfoldable pub handle_stream :
    Bool
    → ℕ
    → ℕ
    → ℕ
    → Direction
    → (List (ℕ × TunnelHub) → Bool × List (ℕ × TunnelHub))
    → List (ℕ × TunnelHub)
    → List (ℕ × TunnelHub)
unfolding hub_for attach
handle_stream rejected now peer_id id d meanwhile hubs =
    if rejected then hubs else join now peer_id id d (meanwhile (hub_for peer_id hubs).1)

-- A write that has not returned leaves no hub to enter.
abbrev enter : ℕ → List (ℕ × TunnelHub) → Option Written → Option (Written × List (ℕ × TunnelHub))
enter peer_id hubs none = none
enter peer_id hubs (some w) = some (w, insert peer_id w.hub hubs)

unfoldable pub write_to_peer :
    ℕ → (ℕ → Try) → ℕ → ℕ → List (ℕ × TunnelHub) → Option (Written × List (ℕ × TunnelHub))
unfolding hub_for write
write_to_peer len tries fuel peer_id hubs =
    let (h, hubs') = hub_for peer_id hubs in enter peer_id hubs' (write len tries fuel h)

-- The packets read before the first failure of the stream, while a Sink was registered.
abbrev received : List Read → List (List ℕ)
received [] = []
received (packet true pkt ∷ reads) = pkt ∷ received reads
received (packet false pkt ∷ reads) = received reads
received (timed_out ∷ reads) = received reads
received (broke ∷ reads) = []

-- Every packet goes to the Sink once and in order; a timeout ends nothing.
pump-received : (id : ℕ) (reads : List Read) (h : TunnelHub) → (pump id reads h).0 ≡ received reads
unfolding pump pump_reads
pump-received id [] h = refl
pump-received id (packet true pkt ∷ reads) h = ap (λ ps. pkt ∷ ps) (pump-received id reads h)
pump-received id (packet false pkt ∷ reads) h = pump-received id reads h
pump-received id (timed_out ∷ reads) h = pump-received id reads h
pump-received id (broke ∷ reads) h = refl
