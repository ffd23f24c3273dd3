-- ===== src/IrohRelay/Routes.antt =====
-- Where a frame goes: the stream object that the manager of its sender has for its id.
use peerscale.Prelude.{
  ℕ, ◌≤◌, ◌≡◌, refl, inl, inr, Option, none, some, List, ◌==◌, arith, and_then, Option-cases,
  Bool-cases, ◌∙◌, ap,
}
use peerscale.Dict.{lookup, adjust}
use peerscale.Dict.Laws.{lookup-adjust-some, lookup-adjust-none}
use peerscale.IrohRelay.Streams.{Stream, Pool, feed}

-- The handle for an id of a peer.
abbrev pub route : Pool → ℕ → ℕ → Option ℕ
route p remote id = and_then (lookup remote p.peers) (λ m. lookup id m.streams)

-- Which peer and id the object with a handle was made for.
abbrev pub label : Stream → ℕ × ℕ
label s = (s.remote, s.id)

abbrev pub owner : List (ℕ × Stream) → ℕ → Option (ℕ × ℕ)
owner store h = and_then (lookup h store) (λ s. some (label s))

-- Every route leads to an object that was made for it, and `free` is free.
pub record Routed (p : Pool) : Type 0 where
  pub fresh : (h : ℕ) → p.free ≤ h → lookup h p.store ≡ none
  pub routes : (remote id h : ℕ) → route p remote id ≡ some h → owner p.store h ≡ some (remote, id)

-- A step that makes no stream: no new route, and every object stays what it was made for.
pub record NoneNew (p p' : Pool) : Type 0 where
  pub same_free : p'.free ≡ p.free
  pub fewer : (remote id h : ℕ) → route p' remote id ≡ some h → route p remote id ≡ some h
  pub owners : (h : ℕ) → owner p'.store h ≡ owner p.store h

owner-none : (store : List (ℕ × Stream)) (h : ℕ) → owner store h ≡ none → lookup h store ≡ none
owner-none store h e = elim (Option-cases (lookup h store)) [
  | inl n ↦ n
  | inr (s, there) ↦ ground (arith, there)
]

pub NoneNew-Routed : (p p' : Pool) → NoneNew p p' → Routed p → Routed p'
NoneNew-Routed p p' n r = record {
  fresh = λ h l. owner-none p'.store h (
      n.owners h
      ∙ ap (λ o. and_then o (λ s. some (label s))) (r.fresh h (omega (arith, n.same_free))));
  routes = λ remote id h e. n.owners h ∙ r.routes remote id h (n.fewer remote id h e);
}

pub NoneNew-trans : (p q r : Pool) → NoneNew p q → NoneNew q r → NoneNew p r
NoneNew-trans p q r a b = record {
  same_free = b.same_free ∙ a.same_free;
  fewer = λ remote id h e. a.fewer remote id h (b.fewer remote id h e);
  owners = λ h. b.owners h ∙ a.owners h;
}

-- A change of an object that keeps what it was made for.
pub owner-adjust :
    (k : ℕ) (f : Stream → Stream) (store : List (ℕ × Stream)) (h : ℕ)
    → ((s : Stream) → label (f s) ≡ label s)
    → owner (adjust k f store) h ≡ owner store h
owner-adjust k f store h keeps = elim (Option-cases (lookup h store)) [
  | inl n ↦ rw (n, lookup-adjust-none k h f store n) refl
  | inr (s, there) ↦ elim (Bool-cases (k == h)) [
    | inl here ↦ rw (there, lookup-adjust-some k h f store s there, here, keeps s) refl
    | inr away ↦ rw (there, lookup-adjust-some k h f store s there, away) refl
  ]
]

pub feed-label :
    (flags : ℕ) (content : List ℕ) (s : Stream) → label (feed flags content s) ≡ label s
unfolding feed
feed-label flags content s = ground arith
