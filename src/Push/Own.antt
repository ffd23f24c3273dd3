-- ===== src/Push/Own.antt =====
-- A node never hears of itself.
use peerscale.Prelude.{ℕ, ◌≡◌, refl, Option, none, some, List, [], ◌∷◌, arith, ap, sym, ◌∙◌}
use peerscale.Dict.{lookup}
use peerscale.PeerDb.{PeerDb}
use peerscale.PeerDb.Laws.{lookup-update}
use peerscale.Push.{
  Codec, PeerInfo, PushMessage, Node, learn_as, learn, learn_now, learn_told, told_at, parse_addrs,
  handle_push_stream, push_answered,
}

-- What a node's handling of a message does to it: it answers one, or it reads an answer.
pub data Message : Type 0 where
  asks : ℕ → ℕ → PushMessage → Message
  answers : ℕ → PushMessage → Message

module _ (codec : Codec) where
  lookup-learn_as :
      (o : Option ℕ) (own at : ℕ) (addrs : List ℕ) (db : PeerDb)
      → lookup own db.peers ≡ none
      → lookup own (learn_as codec o own addrs at db).peers ≡ none
  lookup-learn_as none own at addrs db h = h
  lookup-learn_as (some pid) own at addrs db h =
      ground (arith, lookup-update pid own addrs at db, h)

  unfoldable pub receive_message : Message → Node → Node
  unfolding handle_push_stream push_answered
  receive_message (asks now from req) node = (handle_push_stream codec now from req node).1
  receive_message (answers now resp) node = push_answered codec now resp node

  unfoldable pub receive_all : List Message → Node → Node
  unfolding receive_message
  receive_all [] node = node
  receive_all (m ∷ ms) node = receive_all ms (receive_message m node)

  lookup-learn_now :
      (own now : ℕ) (ps : List PeerInfo) (db : PeerDb)
      → lookup own db.peers ≡ none
      → lookup own (learn_now codec own now ps db).peers ≡ none
  unfolding learn_now learn
  lookup-learn_now own now [] db h = h
  lookup-learn_now own now (p ∷ ps) db h =
      lookup-learn_now own now ps _
        (lookup-learn_as (codec.decode_id p.id) own now (parse_addrs codec p.addrs) db h)

  lookup-learn_told :
      (own now : ℕ) (ps : List PeerInfo) (db : PeerDb)
      → lookup own db.peers ≡ none
      → lookup own (learn_told codec own now ps db).peers ≡ none
  unfolding learn_told learn
  lookup-learn_told own now [] db h = h
  lookup-learn_told own now (p ∷ ps) db h = lookup-learn_told own now ps _ (
      lookup-learn_as (codec.decode_id p.id) own (told_at codec now p) (parse_addrs codec p.addrs)
        db h)

  receive-Keeps :
      (m : Message) (node : Node)
      → lookup node.id node.db.peers ≡ none
      → ((receive_message m node).id ≡ node.id)
        × (lookup node.id (receive_message m node).db.peers ≡ none)
  unfolding receive_message handle_push_stream push_answered
  receive-Keeps (asks now from req) node h =
      (refl, lookup-learn_now node.id now req.peers node.db h)
  receive-Keeps (answers now resp) node h =
      (refl, lookup-learn_told node.id now resp.peers node.db h)

  -- Whatever messages come, in any order and with any content: a node that has no record of itself
  -- in its peer database has none afterwards, and keeps its ID.
  pub receive_all-own :
      (ms : List Message) (node : Node)
      → lookup node.id node.db.peers ≡ none
      → ((receive_all ms node).id ≡ node.id)
        × (lookup node.id (receive_all ms node).db.peers ≡ none)
  unfolding receive_all
  receive_all-own [] node h = (refl, h)
  receive_all-own (m ∷ ms) node h =
      let (same, none_yet) = receive-Keeps m node h in
      let (e, n) =
        receive_all-own ms (receive_message m node)
          (ap (λ i. lookup i (receive_message m node).db.peers) same ∙ none_yet) in
      (
        e ∙ same,
        ap (λ i. lookup i (receive_all ms (receive_message m node)).db.peers) (sym same) ∙ n,
      )
