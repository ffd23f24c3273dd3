-- ===== src/IrohRelay/Isolation.antt =====
-- Every operation keeps the routes right, so that a frame only reaches the stream that it is for.
use peerscale.Prelude.{
  ℕ, zero, suc, ◌<◌, ◌≡◌, refl, inl, inr, true, false, Option, none, some, List, [], ◌∷◌, ◌==◌, ltb,
  if◌then◌else◌, arith, Option-cases, Bool-cases, ◌∙◌, sym, subst, length, take,
}
use peerscale.Dict.{lookup, insert, erase, adjust}
use peerscale.Dict.Laws.{lookup-insert, lookup-erase, lookup-adjust}
use peerscale.IrohRelay.Codec.{flag_data, flag_reset, flag_close, stream_frame, StreamFrame}
use peerscale.IrohRelay.Streams.{
  Stream, Manager, Pool, feed, manager_for, new_manager, new_stream, put_stream, open_stream,
  remove_stream, send_to, max_datagram_payload, send_reset, dispatch_stream_frame, accept_or_reset,
  accept_cap, alloc_id, write_loop, close_open, reset_found, reset_all, gone_from, dispatch_to,
}
use peerscale.IrohRelay.Routes.{
  route, label, owner, Routed, NoneNew, NoneNew-Routed, NoneNew-trans, owner-adjust, feed-label,
}

pub unchanged :
    (p p' : Pool) → p'.free ≡ p.free → p'.peers ≡ p.peers → p'.store ≡ p.store → NoneNew p p'
unchanged p p' f e s = record {
  same_free = f;
  fewer = λ remote id h r. rw (sym e) r;
  owners = λ h. rw s refl;
}

send_to-NoneNew : (remote : ℕ) (frame : List ℕ) (p : Pool) → NoneNew p (send_to remote frame p).1
unfolding send_to
send_to-NoneNew remote frame p = unchanged p _ refl refl refl

send_reset-NoneNew : (remote id : ℕ) (p : Pool) → NoneNew p (send_reset remote id p)
unfolding send_reset
send_reset-NoneNew remote id p = send_to-NoneNew remote _ p

route-remove :
    (r i remote id h : ℕ) (p : Pool)
    → route (remove_stream r i p) remote id ≡ some h
    → route p remote id ≡ some h
unfolding remove_stream
route-remove r i remote id h p e = elim (Option-cases (lookup remote p.peers)) [
  | inl n ↦
      ground (
        arith,
        n,
        e,
        lookup-adjust r remote (λ m. record m { streams = erase i m.streams }) p.peers,
      )
  | inr (m, there) ↦ ground (
    arith,
    there,
    e,
    lookup-adjust r remote (λ m. record m { streams = erase i m.streams }) p.peers,
    lookup-erase i id m.streams,
  )
]

remove_stream-NoneNew : (r i : ℕ) (p : Pool) → NoneNew p (remove_stream r i p)
unfolding remove_stream
remove_stream-NoneNew r i p = record {
  same_free = refl;
  fewer = λ remote id h e. route-remove r i remote id h p e;
  owners = λ h. refl;
}

pub manager_for-route :
    (remote id : ℕ) (p : Pool) → lookup id (manager_for remote p).streams ≡ route p remote id
unfolding new_manager
manager_for-route remote id p = elim (Option-cases (lookup remote p.peers)) [
  | inl n ↦ rw n refl
  | inr (m, there) ↦ rw there refl
]

-- The entry of a manager is written back, with no more streams than it had.
put_manager-NoneNew :
    (remote : ℕ) (m : Manager) (p : Pool) (store : List (ℕ × Stream))
    → ((id h : ℕ) → lookup id m.streams ≡ some h → route p remote id ≡ some h)
    → ((h : ℕ) → owner store h ≡ owner p.store h)
    → NoneNew p (record p { peers = insert remote m p.peers; store = store })
put_manager-NoneNew remote m p store from owners = record {
  same_free = refl;
  fewer = λ r id h e. elim (Bool-cases (remote == r)) [
    | inl here ↦
        let same : remote ≡ r = ground (arith, here) in
        ground (arith, here, e, same, from id h, lookup-insert remote r m p.peers)
    | inr away ↦ ground (arith, away, e, lookup-insert remote r m p.peers)
  ];
  owners = owners;
}

owner-insert :
    (k h : ℕ) (s : Stream) (store : List (ℕ × Stream))
    → owner (insert k s store) h ≡ (if k == h then some (label s) else owner store h)
owner-insert k h s store = ground (arith, lookup-insert k h s store)

-- A handle in use is below `free`.
Routed-below : (p : Pool) (r : Routed p) (remote id h : ℕ) → route p remote id ≡ some h → h < p.free
Routed-below p r remote id h e = elim (Bool-cases (ltb h p.free)) [
  | inl below ↦ ground (arith, below)
  | inr above ↦
      let free = r.fresh h (ground (arith, above)) in ground (arith, r.routes remote id h e, free)
]

pub route-put_stream :
    (remote i q id : ℕ) (m : Manager) (p : Pool)
    → route (put_stream remote i m p) q id ≡ (
        if remote == q
        then (if i == id then some p.free else lookup id m.streams)
        else route p q id)
unfolding put_stream
route-put_stream remote i q id m p = ground (
  arith,
  lookup-insert remote q (record m { streams = insert i p.free m.streams }) p.peers,
  lookup-insert i id p.free m.streams,
)

-- An object that was there keeps what it was made for.
owner-put_stream :
    (remote i q id h : ℕ) (m : Manager) (p : Pool)
    → Routed p
    → route p q id ≡ some h
    → owner (put_stream remote i m p).store h ≡ some (q, id)
unfolding put_stream new_stream
owner-put_stream remote i q id h m p r e =
    let below = Routed-below p r q id h e in
    let other : (p.free == h) ≡ false = ground (arith, below) in
    rw (owner-insert p.free h (new_stream i remote) p.store, other) (r.routes q id h e)

put_stream-Routed :
    (remote i : ℕ) (m : Manager) (p : Pool)
    → ((id h : ℕ) → lookup id m.streams ≡ some h → route p remote id ≡ some h)
    → Routed p
    → Routed (put_stream remote i m p)
unfolding put_stream new_stream
put_stream-Routed remote i m p from r = record {
  fresh = λ h l.
      ground
        (arith, lookup-insert p.free h (new_stream i remote) p.store, r.fresh h (omega (arith, l)));
  routes = λ q id h e. elim (Bool-cases (remote == q)) [
    | inr away ↦
        owner-put_stream remote i q id h m p r
          (ground (arith, e, away, route-put_stream remote i q id m p))
    | inl here ↦ elim (Bool-cases (i == id)) [
      | inl new ↦ ground (
        arith,
        e,
        here,
        new,
        route-put_stream remote i q id m p,
        owner-insert p.free h (new_stream i remote) p.store,
      )
      | inr old ↦
          let same : remote ≡ q = ground (arith, here) in
          let known : lookup id m.streams ≡ some h =
            ground (arith, e, here, old, route-put_stream remote i q id m p) in
          owner-put_stream remote i q id h m p r
            (subst (λ n. route p n id ≡ some h) same (from id h known))
    ]
  ];
}

-- A manager that manager_for gives, with any ids taken, has no stream of its own.
abbrev From : ℕ → Manager → Pool → Type 0
From remote m p = (id h : ℕ) → lookup id m.streams ≡ some h → route p remote id ≡ some h

manager_for-From : (remote : ℕ) (p : Pool) → From remote (manager_for remote p) p
manager_for-From remote p id h e = sym (manager_for-route remote id p) ∙ e

accept_or_reset-Routed :
    (f : StreamFrame) (m : Manager) (p : Pool)
    → From f.src m p
    → Routed p
    → Routed (accept_or_reset f m p)
unfolding accept_or_reset
accept_or_reset-Routed f m p from r = elim (Bool-cases (f.flags == flag_data)) [
  | inr other ↦
      rw other (NoneNew-Routed p _ (put_manager-NoneNew f.src m p p.store from (λ h. refl)) r)
  | inl data_frame ↦
      let made = put_stream-Routed f.src f.id m p from r in
      let q = put_stream f.src f.id m p in
      elim (Bool-cases (ltb (length p.accept_ch) accept_cap)) [
        | inl room ↦ rw (data_frame, room) (NoneNew-Routed q _ (unchanged q _ refl refl refl) made)
        | inr full ↦
            rw (data_frame, full)
              (NoneNew-Routed (remove_stream f.src f.id q) _ (send_reset-NoneNew f.src f.id _)
                (NoneNew-Routed q _ (remove_stream-NoneNew f.src f.id q) made))
      ]
]

dispatch_to-Routed :
    (f : StreamFrame) (m : Manager) (o : Option ℕ) (p : Pool)
    → From f.src m p
    → Routed p
    → Routed (dispatch_to f m o p)
dispatch_to-Routed f m none p from r = accept_or_reset-Routed f m p from r
dispatch_to-Routed f m (some h) p from r =
    NoneNew-Routed p _
      (put_manager-NoneNew f.src m p (adjust h (feed f.flags f.content) p.store) from
        (λ k. owner-adjust h (feed f.flags f.content) p.store k (feed-label f.flags f.content)))
      r

pub dispatch-Routed : (f : StreamFrame) (p : Pool) → Routed p → Routed (dispatch_stream_frame f p)
unfolding dispatch_stream_frame
dispatch-Routed f p r = dispatch_to-Routed f (manager_for f.src p) _ p (manager_for-From f.src p) r

pub open_stream-Routed : (remote : ℕ) (p : Pool) → Routed p → Routed (open_stream remote p).1
unfolding open_stream alloc_id
open_stream-Routed remote p r = put_stream-Routed remote _ _ p (manager_for-From remote p) r

pub write_loop-NoneNew :
    (n remote id : ℕ) (b : List ℕ) (w : ℕ) (p : Pool) → NoneNew p (write_loop n remote id b w p).1
unfolding write_loop
write_loop-NoneNew zero remote id b w p = unchanged p p refl refl refl
write_loop-NoneNew (suc n) remote id b w p =
    let sends = send_to remote (stream_frame id flag_data (take max_datagram_payload b)) p in
    let step = send_to-NoneNew remote (stream_frame id flag_data (take max_datagram_payload b)) p in
    elim (Bool-cases (length b == 0)) [
      | inl done ↦ rw done (unchanged p p refl refl refl)
      | inr more ↦ elim (Bool-cases sends.0) [
        | inr fails ↦ rw (more, fails) step
        | inl sent ↦
            rw (more, sent)
              (NoneNew-trans p sends.1 _ step (write_loop-NoneNew n remote id _ _ sends.1))
      ]
    ]

-- A change of one object, and a change of the pool behind it.
pub change_then :
    (h : ℕ) (g : Stream → Stream) (p p' : Pool)
    → ((s : Stream) → label (g s) ≡ label s)
    → NoneNew (record p { store = adjust h g p.store }) p'
    → NoneNew p p'
change_then h g p p' keeps n =
    NoneNew-trans p (record p { store = adjust h g p.store }) p'
      (record {
        same_free = refl;
        fewer = λ remote id k e. e;
        owners = λ k. owner-adjust h g p.store k keeps;
      })
      n

pub close_open-NoneNew : (h : ℕ) (o : Option Stream) (p : Pool) → NoneNew p (close_open h o p).1
close_open-NoneNew h none p = unchanged p p refl refl refl
close_open-NoneNew h (some s) p = elim (Bool-cases s.closed) [
  | inl closed ↦ rw closed (unchanged p p refl refl refl)
  | inr still_open ↦ rw still_open (
      change_then h (λ t. record t { closed = true }) p _ (λ t. refl)
        (NoneNew-trans _ _ _ (send_to-NoneNew s.remote (stream_frame s.id flag_close []) _)
          (remove_stream-NoneNew s.remote s.id _)))
]

pub reset_found-NoneNew : (h : ℕ) (o : Option Stream) (p : Pool) → NoneNew p (reset_found h o p)
reset_found-NoneNew h none p = unchanged p p refl refl refl
reset_found-NoneNew h (some s) p =
    change_then h (λ t. record t { was_reset = true; rx_buf = [] }) p _ (λ t. refl)
      (NoneNew-trans _ _ _ (send_reset-NoneNew s.remote s.id _)
        (remove_stream-NoneNew s.remote s.id _))

owner-reset_all :
    (streams : List (ℕ × ℕ)) (store : List (ℕ × Stream)) (h : ℕ)
    → owner (reset_all streams store) h ≡ owner store h
unfolding reset_all
owner-reset_all [] store h = refl
owner-reset_all ((id, k) ∷ streams) store h =
    owner-reset_all streams _ h
    ∙ owner-adjust k (feed flag_reset []) store h (feed-label flag_reset [])

pub gone_from-NoneNew :
    (remote : ℕ) (o : Option Manager) (p : Pool) → NoneNew p (gone_from remote o p)
gone_from-NoneNew remote none p = unchanged p p refl refl refl
gone_from-NoneNew remote (some m) p = record {
  same_free = refl;
  fewer = λ r id h e. ground (arith, e, lookup-erase remote r p.peers);
  owners = λ h. owner-reset_all m.streams p.store h;
}
