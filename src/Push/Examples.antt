-- ===== src/Push/Examples.antt =====
-- A push from node 1 to node 2, which has heard of node 3.
use peerscale.Prelude.{ℕ, ◌+◌, ◌*◌, ◌^◌, ◌≡◌, refl, none, some, [], ◌∷◌, arith}
use peerscale.Dict.{lookup}
use peerscale.Runtime.{minute}
use peerscale.PeerDb.{PeerRecord, new_peer_db, update}
use peerscale.PeerDb.Laws.{better}
use peerscale.Push.{
  Codec, IsFaithful, PushMessage, Node, unix_epoch, unix_milli, from_unix_milli, exchange,
}
use peerscale.Push.Own.{asks, answers, receive_all, receive_all-own}
use peerscale.Push.Spread.{Knows, exchange-spreads}

abbrev plain : Codec
plain = record {
  decode_id = λ t. some t;
  id_text = λ p. p;
  parse_addr = λ t. some t;
  addr_text = λ a. a;
}

plain-IsFaithful : IsFaithful plain
plain-IsFaithful = record { ids = λ p. refl; addrs = λ a. refl }

abbrev node : ℕ → Node
node id = record {
  id = id;
  own_addrs = (100 + id) ∷ [];
  mapped = [];
  relay_addrs = [];
  db = new_peer_db (10 * minute);
  permips = [];
}

abbrev noon : ℕ
noon = unix_epoch + 1_700_000_000 * 10 ^ 9

abbrev third : PeerRecord
third = record { peer_id = 3; addrs = 103 ∷ []; seen_at = noon }

abbrev informed : Node
informed = record (node 2) { db = update 3 (103 ∷ []) noon (new_peer_db (10 * minute)) }

exchange-spreads_example :
    let (a', b') = exchange plain (noon + 1) (noon + 2) (noon + 3) (node 1) informed in
    Knows 3 (from_unix_milli (unix_milli noon)) a'.db
    × (lookup 1 b'.db.peers
        ≡ better
            (lookup 1 informed.db.peers)
            (record { peer_id = 1; addrs = 101 ∷ []; seen_at = noon + 2 }))
unfolding new_peer_db update
exchange-spreads_example =
    exchange-spreads plain plain-IsFaithful (noon + 1) (noon + 2) (noon + 3) (node 1) informed third
      (λ e. ground (arith, e)) (λ e. ground (arith, e), λ e. ground (arith, e)) refl refl
      (omega arith)

abbrev echo : PushMessage
echo = record {
  peers =
      record {
        id = 1;
        addrs = 7 ∷ [];
        mapped_addrs = [];
        alloced_addrs = [];
        seen_at = 1_800_000_000_000;
      }
      ∷ [];
  ts = 0;
}

receive_all-own_example :
    let after = receive_all plain (answers noon echo ∷ asks noon 2 echo ∷ []) (node 1) in
    (after.id ≡ 1) × (lookup 1 after.db.peers ≡ none)
unfolding new_peer_db
receive_all-own_example =
    receive_all-own plain (answers noon echo ∷ asks noon 2 echo ∷ []) (node 1) refl
