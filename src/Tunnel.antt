-- ===== src/Tunnel.antt =====
-- The hub of streams to one peer, of iptunnel/hub.go, and the reaper of iptunnel/reaper.go. A
-- carrier is known by a number, which stands for its pointer; what happens on its stream is not
-- modelled. A step is what one goroutine does between taking the hub's lock and giving it back.
pub mod Live
pub mod Reaper
pub mod Write
pub mod Inbound
mod Examples
use peerscale.Prelude.{
  ℕ, ◌+◌, ◌-◌, ◌*◌, Bool, true, false, not, ◌&&◌, ◌||◌, Option, none, some, List, [], ◌∷◌, ◌++◌,
  ltb, ◌==◌, if◌then◌else◌,
}
use peerscale.Dict.{lookup, has_key, insert}
use peerscale.Runtime.{minute}

abbrev pub hub_idle : ℕ
hub_idle = 2 * minute

-- libp2p's network.Direction of a stream.
pub data Direction : Type 0 where
  unknown inbound outbound : Direction

abbrev pub same_direction : Direction → Direction → Bool
same_direction unknown unknown = true
same_direction inbound inbound = true
same_direction outbound outbound = true
same_direction _ _ = false

pub record TunnelCarrier : Type 0 where
  pub id : ℕ
  pub direction : Direction
  pub dead : Bool

pub record TunnelHub : Type 0 where
  pub carriers : List TunnelCarrier
  pub opening : Bool
  pub last_use : ℕ
  pub reattached : ℕ

unfoldable pub new_hub : TunnelHub
new_hub = record { carriers = []; opening = false; last_use = 0; reattached = 0 }

-- hubFor: the hubs with the one of the peer, which is new if there was none.
unfoldable pub hub_for : ℕ → List (ℕ × TunnelHub) → TunnelHub × List (ℕ × TunnelHub)
unfolding new_hub
hub_for peer_id hubs = elim (lookup peer_id hubs) [
  | some h ↦ (h, hubs)
  | none ↦ (new_hub, insert peer_id new_hub hubs)
]

-- The loop of attach that leaves out the live carriers of the new one's direction.
unfoldable pub others : Direction → List TunnelCarrier → List TunnelCarrier
others d [] = []
others d (old ∷ cs) =
    if same_direction old.direction d && not old.dead then others d cs else old ∷ others d cs

unfoldable pub attach : ℕ → ℕ → Direction → TunnelHub → TunnelHub
unfolding others
attach now id d h = record h {
  carriers = others d h.carriers ++ (record { id = id; direction = d; dead = false } ∷ []);
  last_use = now;
  reattached = h.reattached + 1;
}

-- c.dead.Store(true), if the hub still has the carrier.
unfoldable pub mark_dead : ℕ → List TunnelCarrier → List TunnelCarrier
mark_dead id [] = []
mark_dead id (c ∷ cs) = (if c.id == id then record c { dead = true } else c) ∷ mark_dead id cs

unfoldable pub has_carrier : ℕ → List TunnelCarrier → Bool
has_carrier id [] = false
has_carrier id (c ∷ cs) = if c.id == id then true else has_carrier id cs

-- The first carrier with the number goes.
unfoldable pub cut : ℕ → List TunnelCarrier → List TunnelCarrier
cut id [] = []
cut id (c ∷ cs) = if c.id == id then cs else c ∷ cut id cs

-- Whether a new stream is opened, and the hub with `opening` set.
unfoldable pub maybe_open : TunnelHub → Bool × TunnelHub
maybe_open h = if h.opening then (false, h) else (true, record h { opening = true })

unfoldable pub detach : ℕ → TunnelHub → Bool × TunnelHub
unfolding mark_dead has_carrier cut maybe_open
detach id h =
    let marked = mark_dead id h.carriers in
    if has_carrier id marked
    then maybe_open (record h { carriers = cut id marked })
    else (false, record h { carriers = marked })

-- openPeerStreamSync: the stream that was opened, if it was, is attached; `opening` ends then.
unfoldable pub open_peer_stream : ℕ → Option (ℕ × Direction) → TunnelHub → TunnelHub
unfolding attach
open_peer_stream now none h = record h { opening = false }
open_peer_stream now (some (id, d)) h = record (attach now id d h) { opening = false }

unfoldable pub has_live : List TunnelCarrier → Bool
has_live [] = false
has_live (c ∷ cs) = if not c.dead then true else has_live cs

-- One tick of the reaper.
unfoldable pub reap : ℕ → List (ℕ × TunnelHub) → List (ℕ × TunnelHub)
unfolding has_live
reap now [] = []
reap now ((id, h) ∷ hubs) =
    if not (h.opening || has_live h.carriers) && ltb hub_idle (now - h.last_use)
    then reap now hubs
    else (id, h) ∷ reap now hubs
