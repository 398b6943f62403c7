-- ===== src/Node/Store.antt =====
-- server/src/p2p/node.rs: storing a message, and the highest number in the local backup.
use vurn_server.Prelude.{
  ℕ, ◌+◌, not, Option, none, some, [], ◌∷◌, ◌++◌, ltb, ◌==◌, if◌then◌else◌, length, drop,
}
use vurn_server.Prelude.Bytes.{Bytes}
use vurn_server.Prelude.Digits.{be_bytes, from_be}
use vurn_server.Prelude.SortedMap.{insert}
use vurn_server.Dht.{
  Net, DhtEnvelope, mailbox_seq_key, encode_mailbox_message, sign_envelope, starts_with,
}
use vurn_server.Mailbox.{Tree, bytes_order}
use vurn_server.Node.{Node, put_record, call}

-- `[user_hash, &seq.to_be_bytes()].concat()`
abbrev pub sled_key : Bytes → ℕ → Bytes
sled_key user_hash seq = user_hash ++ be_bytes 8 seq

-- The highest number among the records, from 0.
unfoldable pub max_seq : Bytes → Tree → ℕ
max_seq user_hash [] = 0
max_seq user_hash ((key, value) ∷ rest) =
    let later = max_seq user_hash rest in
    let seq = from_be 0 (drop (length user_hash) key) in
    if not (starts_with user_hash key)
    then later
    else if not (length key == length user_hash + 8)
    then later
    else if ltb later seq
    then seq
    else later

unfoldable pub get_sled_max_seq : Tree → Bytes → Option ℕ
get_sled_max_seq tree user_hash =
    let max = max_seq user_hash tree in if ltb 0 max then some max else none

module _ (w : Net) (signing_key : Bytes) where
  -- The envelope that `store_signed_envelope` signs.
  unfoldable pub new_envelope : Bytes → Bytes → ℕ → DhtEnvelope
  new_envelope sender_hash payload seq = record {
    payload = encode_mailbox_message sender_hash payload;
    seq = seq;
    sender_pubkey = w.ed_public signing_key;
    signature = [];
  }

  unfoldable pub store_signed_envelope : Bytes → Bytes → Bytes → ℕ → Node → Option Node
  store_signed_envelope recipient_hash sender_hash payload seq n =
      elim (sign_envelope w (new_envelope sender_hash payload seq) signing_key recipient_hash) [
        | none ↦ none
        | some envelope ↦ elim (w.serialize_envelope envelope) [
          | none ↦ some n
          | some bytes ↦ some (
              call (put_record (mailbox_seq_key recipient_hash seq) bytes) (record n {
                sled = insert bytes_order n.sled (sled_key recipient_hash seq) bytes;
                mailbox_indices = insert bytes_order n.mailbox_indices recipient_hash seq;
              }))
        ]
      ]
