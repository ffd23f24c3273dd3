-- ===== src/IrohRelay/Delivery.antt =====
-- From Write at one end, over a relay, to the stream at the other.
use peerscale.Prelude.{
  ℕ, suc, ◌^◌, ◌≤◌, ◌<◌, ◌≡◌, refl, true, none, some, List, [], ◌∷◌, ◌++◌, length, length-drop,
  take, drop, ltb, arith, ap, ◌∙◌, map, sym, subst,
}
use mathlib.Core.List.{append_assoc, append-nil}
use peerscale.Dict.{lookup, insert}
use peerscale.Dict.Laws.{lookup-insert, lookup-adjust_self}
use peerscale.RelayFile.Roundtrip.{capacity}
use peerscale.IrohRelay.Codec.{flag_data, stream_frame, datagram, key_bytes, StreamFrame}
use peerscale.IrohRelay.Conn.{Ws, Conn, read_message}
use peerscale.IrohRelay.Parse.{parse_datagram-stream_frame}
use peerscale.IrohRelay.Streams.{
  Pool, Stream, new_stream, feed, receive, dispatch_stream_frame, dispatch_to, accept_or_reset,
  put_stream, manager_for, accept_cap, write, max_datagram_payload,
}
use peerscale.IrohRelay.Routes.{route}
use peerscale.IrohRelay.Isolation.{manager_for-route, route-put_stream}
use peerscale.IrohRelay.Sending.{
  link, chunks, joined, joined-chunks, chunks-first, message, pushed, write-Only, alive_count,
}

abbrev pub data_frame : ℕ → ℕ → List ℕ → StreamFrame
data_frame src id content = record { src = src; id = id; flags = flag_data; content = content }

-- Messages that a relay hands on, which the read loop of relay `url` takes at some times.
abbrev pub receive_all : ℕ → (ℕ → ℕ) → List (List ℕ) → Pool → Pool
receive_all url times [] q = q
receive_all url times (m ∷ ms) q =
    receive_all url (λ n. times (suc n)) ms (receive url (times 0) m q)

-- What a relay is documented to do with a datagram for `dst` that `src` sends: it goes on with the
-- sender's key and a congestion byte.
abbrev pub HandsOn : ℕ → ℕ → (List ℕ → List ℕ) → Type 0
HandsOn src dst forward =
    (payload : List ℕ)
    → (ecn : ℕ) × (forward (datagram dst payload) ≡ 6 ∷ (key_bytes src ++ (ecn ∷ payload)))

module _ (src dst id : ℕ) (forward : List ℕ → List ℕ) (hands_on : HandsOn src dst forward)
    (key : src < capacity 32) (fits : id < 2 ^ 64) where
  -- The message for a chunk is a frame of the stream.
  receive-message :
      (url now : ℕ) (chunk : List ℕ) (q : Pool) (c : Conn)
      → lookup url q.relays ≡ some c
      → receive url now (forward (message dst id chunk)) q
        ≡ dispatch_stream_frame
            (data_frame src id chunk)
            (record q { relays = insert url (record c { last_recv = now }) q.relays })
  unfolding receive read_message
  receive-message url now chunk q c there =
      let (ecn, e) = hands_on (stream_frame id flag_data chunk) in
      rw (there, e, parse_datagram-stream_frame src id flag_data ecn chunk key fits) refl

  -- The receiver has the stream under a handle, with some content.
  record Has (url h : ℕ) (t : Stream) (q : Pool) : Type 0 where
    routed : route q src id ≡ some h
    stored : lookup h q.store ≡ some t
    relay : Conn
    listens : lookup url q.relays ≡ some relay

  feed_data :
      (content : List ℕ) (t : Stream)
      → feed flag_data content t ≡ record t { rx_buf = t.rx_buf ++ content }
  unfolding feed
  feed_data content t = refl

  dispatch-known :
      (h : ℕ) (content : List ℕ) (q : Pool)
      → route q src id ≡ some h
      → dispatch_stream_frame (data_frame src id content) q
        ≡ dispatch_to (data_frame src id content) (manager_for src q) (some h) q
  unfolding dispatch_stream_frame
  dispatch-known h content q e =
      ap (λ o. dispatch_to (data_frame src id content) (manager_for src q) o q)
        (manager_for-route src id q ∙ e)

  dispatch_to-Has :
      (url h : ℕ) (content : List ℕ) (t : Stream) (q : Pool)
      → Has url h t q
      → Has url h
          (record t { rx_buf = t.rx_buf ++ content })
          (dispatch_to (data_frame src id content) (manager_for src q) (some h) q)
  dispatch_to-Has url h content t q has = record {
    routed =
        ground (arith, lookup-insert src src (manager_for src q) q.peers)
        ∙ manager_for-route src id q
        ∙ has.routed;
    stored =
        lookup-adjust_self h (feed flag_data content) q.store t has.stored
        ∙ ap (λ s. some s) (feed_data content t);
    relay = has.relay;
    listens = has.listens;
  }

  receive-Has :
      (url now h : ℕ) (chunk : List ℕ) (t : Stream) (q : Pool)
      → Has url h t q
      → Has url h
          (record t { rx_buf = t.rx_buf ++ chunk })
          (receive url now (forward (message dst id chunk)) q)
  receive-Has url now h chunk t q has =
      let c : Conn = record has.relay { last_recv = now } in
      let q' : Pool = record q { relays = insert url c q.relays } in
      let has' : Has url h t q' = record {
        routed = has.routed;
        stored = has.stored;
        relay = c;
        listens = ground (arith, lookup-insert url url c q.relays);
      } in
      rw
        (
          receive-message url now chunk q has.relay has.listens,
          dispatch-known h chunk q' has.routed,
        )
        (dispatch_to-Has url h chunk t q' has')

  receive_all-Has :
      (url h : ℕ) (times : ℕ → ℕ) (cs : List (List ℕ)) (t : Stream) (q : Pool)
      → Has url h t q
      → Has url h
          (record t { rx_buf = t.rx_buf ++ joined cs })
          (receive_all url times (map forward (map (message dst id) cs)) q)
  receive_all-Has url h times [] t q has =
      subst (λ l. Has url h (record t { rx_buf = l }) q) (sym (append-nil t.rx_buf)) has
  receive_all-Has url h times (c ∷ cs) t q has =
      subst
        (λ l.
          Has url h (record t { rx_buf = l })
            (receive_all url times (map forward (map (message dst id) (c ∷ cs))) q))
        (append_assoc t.rx_buf c (joined cs))
        (receive_all-Has url h (λ n. times (suc n)) cs (record t { rx_buf = t.rx_buf ++ c }) _
          (receive-Has url (times 0) h c t q has))

  -- The first frame of a stream that the receiver does not have, while it has room for one more.
  dispatch-new :
      (content : List ℕ) (q : Pool)
      → route q src id ≡ none
      → length q.accept_ch < accept_cap
      → dispatch_stream_frame (data_frame src id content) q
        ≡ record (put_stream src id (manager_for src q) q) {
          accept_ch = q.accept_ch ++ (q.free ∷ []);
        }
  unfolding dispatch_stream_frame accept_or_reset
  dispatch-new content q e room =
      let free : ltb (length q.accept_ch) accept_cap ≡ true = ground (arith, room) in
      rw (manager_for-route src id q, e, free) refl

  receive-new :
      (url now : ℕ) (chunk : List ℕ) (q : Pool) (c : Conn)
      → lookup url q.relays ≡ some c
      → route q src id ≡ none
      → length q.accept_ch < accept_cap
      → Has url q.free (new_stream id src) (receive url now (forward (message dst id chunk)) q)
  unfolding put_stream
  receive-new url now chunk q c there e room =
      let c' : Conn = record c { last_recv = now } in
      let q' : Pool = record q { relays = insert url c' q.relays } in
      rw (receive-message url now chunk q c there, dispatch-new chunk q' e room)
        (record {
          routed = ground (arith, route-put_stream src id src id (manager_for src q) q);
          stored = ground (arith, lookup-insert q.free q.free (new_stream id src) q.store);
          relay = c';
          listens = ground (arith, lookup-insert url url c' q.relays);
        })

-- What a Write puts on the websocket, and what is then in a stream of the receiver.
module _ (src url : ℕ) (forward : List ℕ → List ℕ) (times : ℕ → ℕ) (key : src < capacity 32)
    (s : Stream) (fits : s.id < 2 ^ 64) (hands_on : HandsOn src s.remote forward) where
  -- Write returns the number of bytes without an error, has put messages on the websocket that the
  -- receiver then turns into the stream `t` under the handle `h`.
  abbrev pub Delivers : List ℕ → Pool → Ws → Pool → ℕ → Stream → Type 0
  Delivers b p ws q h t =
      (msgs : List (List ℕ)) × ((write s b p).0 ≡ (length b, true))
      × (link (write s b p).1.relays ≡ some (record ws { written = pushed msgs ws.written }))
      × (lookup h (receive_all url times (map forward msgs) q).store ≡ some t)

  -- Where exactly one relay is alive at the sender, takes every message and hands them on in their
  -- order, and the receiver has the stream: all bytes of a Write are in the stream behind what was
  -- there, in order and whatever their number.
  pub write-Delivers :
      (b : List ℕ) (p : Pool) (ws : Ws) (q : Pool) (h : ℕ) (t : Stream) (c : Conn)
      → (link p.relays ≡ some ws) × (alive_count p.relays ≡ 1) × (ws.works ≡ true)
      → (lookup url q.relays ≡ some c) × (route q src s.id ≡ some h) × (lookup h q.store ≡ some t)
      → Delivers b p ws q h (record t { rx_buf = t.rx_buf ++ b })
  write-Delivers b p ws q h t c (there, alone, works) (listens, routed, stored) =
      let (all, linked) = write-Only s b p ws (record { linked = there; alone = alone }) works in
      let has =
        receive_all-Has src s.remote s.id forward hands_on key fits url h times
          (chunks (length b) b) t q
          (record { routed = routed; stored = stored; relay = c; listens = listens }) in
      (
        map (message s.remote s.id) (chunks (length b) b),
        all,
        linked.linked,
        has.stored
            ∙ ap (λ l. some (record t { rx_buf = t.rx_buf ++ l }))
                (joined-chunks (length b) b (omega arith)),
      )

  -- Where exactly one relay is alive at the sender, takes every message and hands them on in their
  -- order, and the receiver does not have the stream and has room to accept one: the first Write of
  -- at least one byte loses its first 64000 bytes, since the new stream has only what comes after
  -- them.
  pub write-loses_first :
      (x : ℕ) (b : List ℕ) (p : Pool) (ws : Ws) (q : Pool) (c : Conn)
      → (link p.relays ≡ some ws) × (alive_count p.relays ≡ 1) × (ws.works ≡ true)
      → (lookup url q.relays ≡ some c)
        × (route q src s.id ≡ none)
        × (length q.accept_ch < accept_cap)
      → Delivers
          (x ∷ b)
          p
          ws
          q
          q.free
          (record (new_stream s.id src) { rx_buf = drop max_datagram_payload (x ∷ b) })
  unfolding new_stream
  write-loses_first x b p ws q c (there, alone, works) (listens, unknown, room) =
      let (all, linked) =
        write-Only s (x ∷ b) p ws (record { linked = there; alone = alone }) works in
      let later = drop max_datagram_payload (x ∷ b) in
      let first =
        receive-new src s.remote s.id forward hands_on key fits url (times 0)
          (take max_datagram_payload (x ∷ b)) q c listens unknown room in
      let has =
        receive_all-Has src s.remote s.id forward hands_on key fits url q.free (λ n. times (suc n))
          (chunks (length b) later) (new_stream s.id src) _ first in
      let enough : length later ≤ length b =
        omega (arith, length-drop max_datagram_payload (x ∷ b)) in
      (
        map (message s.remote s.id) (chunks (length (x ∷ b)) (x ∷ b)),
        all,
        linked.linked,
        ap
              (λ cs.
                lookup q.free
                  (receive_all url times (map forward (map (message s.remote s.id) cs)) q).store)
              (chunks-first x b)
            ∙ has.stored
            ∙ ap (λ l. some (record (new_stream s.id src) { rx_buf = l }))
                (joined-chunks (length b) later enough),
      )
