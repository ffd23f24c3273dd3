-- ===== src/Tunnel/Live.antt =====
-- A hub never has two live carriers of one direction.
use peerscale.Prelude.{
  ℕ, ◌+◌, ◌≤◌, ◌≡◌, refl, Bool, true, false, not, ◌&&◌, Option, none, some, List, [], ◌∷◌, ◌++◌,
  arith, count_if, bit,
}
use peerscale.Tunnel.{
  Direction, unknown, inbound, outbound, same_direction, TunnelCarrier, TunnelHub, new_hub, others,
  attach, mark_dead, cut, maybe_open, detach, open_peer_stream,
}

abbrev pub live_in : Direction → TunnelCarrier → Bool
live_in d c = same_direction c.direction d && not c.dead

abbrev pub live_count : Direction → List TunnelCarrier → ℕ
live_count d cs = count_if (live_in d) cs

-- At most one live carrier of each direction.
pub record IsSingle (h : TunnelHub) : Type 0 where
  pub single : (d : Direction) → live_count d h.carriers ≤ 1

live_count-append :
    (d : Direction) (cs : List TunnelCarrier) (c : TunnelCarrier)
    → live_count d (cs ++ (c ∷ [])) ≡ live_count d cs + bit (live_in d c)
live_count-append d [] c = omega arith
live_count-append d (b ∷ cs) c = omega (arith, live_count-append d cs c)

same_direction_refl : (d : Direction) → same_direction d d ≡ true
same_direction_refl unknown = refl
same_direction_refl inbound = refl
same_direction_refl outbound = refl

others_none : (d : Direction) (cs : List TunnelCarrier) → live_count d (others d cs) ≡ 0
unfolding others
others_none d [] = refl
others_none d (c ∷ cs) = ground (arith, others_none d cs)

others-le :
    (d e : Direction) (cs : List TunnelCarrier) → live_count e (others d cs) ≤ live_count e cs
unfolding others
others-le d e [] = omega arith
others-le d e (c ∷ cs) = ground (arith, others-le d e cs)

different_none : (d e : Direction) → same_direction d e ≡ true → d ≡ e
different_none unknown unknown h = refl
different_none inbound inbound h = refl
different_none outbound outbound h = refl
different_none unknown inbound h = absurd (ground arith)
different_none unknown outbound h = absurd (ground arith)
different_none inbound unknown h = absurd (ground arith)
different_none inbound outbound h = absurd (ground arith)
different_none outbound unknown h = absurd (ground arith)
different_none outbound inbound h = absurd (ground arith)

attach-IsSingle :
    (now id : ℕ) (d : Direction) (h : TunnelHub) → IsSingle h → IsSingle (attach now id d h)
unfolding attach
attach-IsSingle now id d h s = record {
  single = λ e. ground (
    arith,
    live_count-append e (others d h.carriers) (record { id = id; direction = d; dead = false }),
    others_none d h.carriers,
    others-le d e h.carriers,
    different_none d e,
    s.single e,
  );
}

mark_dead-le :
    (id : ℕ) (e : Direction) (cs : List TunnelCarrier)
    → live_count e (mark_dead id cs) ≤ live_count e cs
unfolding mark_dead
mark_dead-le id e [] = omega arith
mark_dead-le id e (c ∷ cs) = ground (arith, mark_dead-le id e cs)

cut-le :
    (id : ℕ) (e : Direction) (cs : List TunnelCarrier) → live_count e (cut id cs) ≤ live_count e cs
unfolding cut
cut-le id e [] = omega arith
cut-le id e (c ∷ cs) = ground (arith, cut-le id e cs)

detach-IsSingle : (id : ℕ) (h : TunnelHub) → IsSingle h → IsSingle (detach id h).1
unfolding detach maybe_open
detach-IsSingle id h s = record {
  single = λ e.
      ground
        (arith, mark_dead-le id e h.carriers, cut-le id e (mark_dead id h.carriers), s.single e);
}

opened-IsSingle :
    (now : ℕ) (stream : Option (ℕ × Direction)) (h : TunnelHub)
    → IsSingle h
    → IsSingle (open_peer_stream now stream h)
unfolding open_peer_stream
opened-IsSingle now none h s = record { single = s.single }
opened-IsSingle now (some (id, d)) h s = record { single = (attach-IsSingle now id d h s).single }

maybe_open-IsSingle : (h : TunnelHub) → IsSingle h → IsSingle (maybe_open h).1
unfolding maybe_open
maybe_open-IsSingle h s = record { single = λ d. ground (arith, s.single d) }

-- The steps of the goroutines of a hub, in any order: a stream that came in, a stream that was
-- lost, a try to write, a carrier on which it failed, the decision to open a stream, and its outcome.
pub data Step : TunnelHub → TunnelHub → Type 0 where
  attaches : (now id : ℕ) (d : Direction) {h : TunnelHub} → Step h (attach now id d h)
  detaches : (id : ℕ) {h : TunnelHub} → Step h (detach id h).1
  writes : (now : ℕ) {h : TunnelHub} → Step h (record h { last_use = now })
  write_fails : (id : ℕ) {h : TunnelHub} → Step h (record h { carriers = mark_dead id h.carriers })
  opens : {h : TunnelHub} → Step h (maybe_open h).1
  opened :
      (now : ℕ) (stream : Option (ℕ × Direction)) {h : TunnelHub}
      → Step h (open_peer_stream now stream h)

pub data Reachable : TunnelHub → Type 0 where
  start : Reachable new_hub
  next : {h h' : TunnelHub} → Reachable h → Step h h' → Reachable h'

Step-IsSingle : {h h' : TunnelHub} → Step h h' → IsSingle h → IsSingle h'
Step-IsSingle (attaches now id d {h}) s = attach-IsSingle now id d h s
Step-IsSingle (detaches id {h}) s = detach-IsSingle id h s
Step-IsSingle (writes now {h}) s = record { single = s.single }
Step-IsSingle (write_fails id {h}) s = record {
  single = λ d. omega (arith, mark_dead-le id d h.carriers, s.single d);
}
Step-IsSingle (opens {h}) s = maybe_open-IsSingle h s
Step-IsSingle (opened now stream {h}) s = opened-IsSingle now stream h s

new_hub-IsSingle : IsSingle new_hub
unfolding new_hub
new_hub-IsSingle = record { single = λ d. omega arith }

-- In every hub that the steps of its goroutines reach, in any order, there is at most one live
-- carrier of each direction.
pub Reachable-IsSingle : {h : TunnelHub} → Reachable h → IsSingle h
Reachable-IsSingle start = new_hub-IsSingle
Reachable-IsSingle (next r s) = Step-IsSingle s (Reachable-IsSingle r)
