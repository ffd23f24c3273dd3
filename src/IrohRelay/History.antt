-- ===== src/IrohRelay/History.antt =====
-- What happens to the streams over a history: calls of the application, messages of the relays, and
-- connections that come and go.
use peerscale.Prelude.{
  ℕ, ◌≡◌, refl, inl, inr, true, Option, none, some, List, [], ◌∷◌, ◌==◌, ltb, arith, Bool-cases,
  ◌∙◌, sym, length,
}
use peerscale.Dict.{lookup, adjust}
use peerscale.Dict.Laws.{lookup-insert, lookup-adjust_ne}
use peerscale.IrohRelay.Codec.{flag_data, StreamFrame}
use peerscale.IrohRelay.Conn.{Conn}
use peerscale.IrohRelay.Streams.{
  Stream, Manager, Pool, read, write, close, reset, open_stream, accept_stream, accept_first,
  dispatch_stream_frame, dispatch_to, accept_or_reset, accept_cap, put_stream, new_stream,
  send_reset, send_to, remove_stream, manager_for, peer_gone, feed,
}
use peerscale.IrohRelay.Routes.{route, label, Routed, NoneNew, NoneNew-Routed}
use peerscale.IrohRelay.Isolation.{
  unchanged, dispatch-Routed, open_stream-Routed, write_loop-NoneNew, close_open-NoneNew,
  reset_found-NoneNew, gone_from-NoneNew, change_then, manager_for-route,
}

pub data Op : Type 0 where
  opens closes resets peer_goes : ℕ → Op
  reads : ℕ → ℕ → Op
  writes : ℕ → List ℕ → Op
  accepts : Op
  arrives : StreamFrame → Op
  relays_become : List (ℕ × Conn) → Op

abbrev pub write_found : Option Stream → List ℕ → Pool → Pool
write_found none b p = p
write_found (some s) b p = (write s b p).1

abbrev pub accept_found : Option (ℕ × Pool) → Pool → Pool
accept_found none p = p
accept_found (some (h, p')) p = p'

unfoldable pub act : Op → Pool → Pool
unfolding open_stream close reset peer_gone read write accept_stream dispatch_stream_frame
act (opens remote) p = (open_stream remote p).1
act (closes h) p = (close h p).1
act (resets h) p = reset h p
act (peer_goes remote) p = peer_gone remote p
act (reads h size) p = record p { store = adjust h (λ s. (read size s).1) p.store }
act (writes h b) p = write_found (lookup h p.store) b p
act accepts p = accept_found (accept_stream p) p
act (arrives f) p = dispatch_stream_frame f p
act (relays_become relays) p = record p { relays = relays }

unfoldable pub run : List Op → Pool → Pool
unfolding act
run [] p = p
run (op ∷ ops) p = run ops (act op p)

-- The pool of a node that has opened and met no stream.
abbrev pub no_streams : ℕ → (ℕ → ℕ) → Pool
no_streams local_pub rolls = record {
  started = true;
  local_pub = local_pub;
  relays = [];
  peers = [];
  store = [];
  free = 0;
  accept_ch = [];
  rolls = rolls;
}

write_found-NoneNew : (o : Option Stream) (b : List ℕ) (p : Pool) → NoneNew p (write_found o b p)
unfolding write
write_found-NoneNew none b p = unchanged p p refl refl refl
write_found-NoneNew (some s) b p = write_loop-NoneNew (length b) s.remote s.id b 0 p

read-label : (size : ℕ) (s : Stream) → label (read size s).1 ≡ label s
unfolding read
read-label size s = ground arith

accepts-NoneNew : (hs : List ℕ) (p : Pool) → NoneNew p (accept_found (accept_first hs p) p)
accepts-NoneNew [] p = unchanged p p refl refl refl
accepts-NoneNew (h ∷ later) p = unchanged p _ refl refl refl

act-Routed : (op : Op) (p : Pool) → Routed p → Routed (act op p)
unfolding act
act-Routed (opens remote) p r = open_stream-Routed remote p r
act-Routed (closes h) p r =
    unfold close in NoneNew-Routed p _ (close_open-NoneNew h (lookup h p.store) p) r
act-Routed (resets h) p r =
    unfold reset in NoneNew-Routed p _ (reset_found-NoneNew h (lookup h p.store) p) r
act-Routed (peer_goes remote) p r =
    unfold peer_gone in NoneNew-Routed p _ (gone_from-NoneNew remote (lookup remote p.peers) p) r
act-Routed (reads h size) p r =
    NoneNew-Routed p _
      (change_then h (λ s. (read size s).1) p _ (read-label size) (unchanged _ _ refl refl refl)) r
act-Routed (writes h b) p r = NoneNew-Routed p _ (write_found-NoneNew (lookup h p.store) b p) r
act-Routed accepts p r = NoneNew-Routed p _ (accepts-NoneNew p.accept_ch p) r
act-Routed (arrives f) p r = dispatch-Routed f p r
act-Routed (relays_become relays) p r = NoneNew-Routed p _ (unchanged p _ refl refl refl) r

run-Routed : (ops : List Op) (p : Pool) → Routed p → Routed (run ops p)
unfolding run
run-Routed [] p r = r
run-Routed (op ∷ ops) p r = run-Routed ops (act op p) (act-Routed op p r)

-- Whatever the application calls, the relays bring and the connections do: the stream object that a
-- frame of a peer with an id goes to was made for that peer and that id.
pub run-no_streams-Routed :
    (ops : List Op) (local_pub : ℕ) (rolls : ℕ → ℕ) → Routed (run ops (no_streams local_pub rolls))
run-no_streams-Routed ops local_pub rolls =
    run-Routed ops (no_streams local_pub rolls)
      (record { fresh = λ h l. refl; routes = λ remote id h e. ground (arith, e) })

-- A stream in the store that a frame is not for.
module _ (h : ℕ) (s : Stream) (f : StreamFrame)
    (other : ¬ ((s.remote ≡ f.src) × (s.id ≡ f.id))) where
  Stays : Pool → Type 0
  Stays p = lookup h p.store ≡ some s

  put_stream-Stays :
      (m : Manager) (p : Pool) → Routed p → Stays p → Stays (put_stream f.src f.id m p)
  unfolding Stays put_stream
  put_stream-Stays m p r there = elim (Bool-cases (ltb h p.free)) [
    | inl below ↦
        ground (arith, below, there, lookup-insert p.free h (new_stream f.id f.src) p.store)
    | inr above ↦ ground (arith, there, r.fresh h (ground (arith, above)))
  ]

  accept_or_reset-Stays :
      (m : Manager) (p : Pool) → Routed p → Stays p → Stays (accept_or_reset f m p)
  unfolding Stays accept_or_reset send_reset send_to remove_stream
  accept_or_reset-Stays m p r there = elim (Bool-cases (f.flags == flag_data)) [
    | inr close_or_reset ↦ rw close_or_reset there
    | inl data_frame ↦ elim (Bool-cases (ltb (length p.accept_ch) accept_cap)) [
      | inl room ↦ rw (data_frame, room) (put_stream-Stays m p r there)
      | inr full ↦ rw (data_frame, full) (put_stream-Stays m p r there)
    ]
  ]

  dispatch_to-Stays :
      (m : Manager) (o : Option ℕ) (p : Pool)
      → Routed p
      → o ≡ route p f.src f.id
      → Stays p
      → Stays (dispatch_to f m o p)
  unfolding Stays
  dispatch_to-Stays m none p r e there = accept_or_reset-Stays m p r there
  dispatch_to-Stays m (some k) p r e there = elim (Bool-cases (k == h)) [
    | inr away ↦
        lookup-adjust_ne k h (feed f.flags f.content) p.store (λ q. ground (arith, away, q)) ∙ there
    | inl here ↦
        let same : k ≡ h = ground (arith, here) in
        absurd (other (ground (arith, r.routes f.src f.id k (sym e), there, same)))
  ]

  -- With the routes right, a frame leaves every stream as it is that was made for another peer or has
  -- another id, whatever the frame holds.
  pub dispatch-Stays :
      (p : Pool)
      → Routed p
      → lookup h p.store ≡ some s
      → lookup h (dispatch_stream_frame f p).store ≡ some s
  unfolding Stays dispatch_stream_frame
  dispatch-Stays p r there =
      dispatch_to-Stays (manager_for f.src p) _ p r (manager_for-route f.src f.id p) there
