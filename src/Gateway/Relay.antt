-- ===== src/Gateway/Relay.antt =====
-- server/src/ws.rs: a client's frame to another client.
use vurn_server.Prelude.{
  ℕ, ◌+◌, ◌%◌, Bool, true, Option, none, some, List, ◌++◌, ltb, ◌==◌, if◌then◌else◌, length, take,
  drop,
}
use vurn_server.Prelude.Bytes.{Bytes, u16_le, u16_from_le}
use vurn_server.Prelude.SortedMap.{get, insert}
use vurn_server.Mailbox.{bytes_order}
use vurn_server.Node.{mailbox_store, publish}
use vurn_server.Gateway.{Host, Gateway, try_consume}
use vurn_server.Gateway.Send.{send_all, notify, is_delivered, mark_delivered, persist_delivered_set}

-- `(delivered, was_duplicate)` of the source: (true, false), (true, true) and (false, false).
pub data Outcome : Type 0 where
  accepted duplicate refused : Outcome

-- The bounds that the source checks, and the recipient and the payload.
unfoldable pub parse_frame : Bytes → Option (Bytes × Bytes)
parse_frame frame =
    let id_len = u16_from_le frame in
    if ltb (length frame) 2
    then none
    else if id_len == 0
    then none
    else if ltb (length frame) (2 + id_len)
    then none
    else if length (drop (2 + id_len) frame) == 0
    then none
    else some (take id_len (drop 2 frame), drop (2 + id_len) frame)

-- The forward frame.
unfoldable pub build_forward : Bytes → Bytes → Bytes
build_forward sender_id payload = u16_le (length sender_id % 65536) ++ (sender_id ++ payload)

unfoldable pub check_rate_limit_store : ℕ → ℕ → Bytes → Gateway → Bool × Gateway
check_rate_limit_store read stamp client_id g = elim (get bytes_order g.rate_limiters client_id) [
  | none ↦ (true, g)
  | some (store_bucket, lookup_bucket) ↦
      let (allowed, bucket) = try_consume read stamp 1 store_bucket in
      (
        allowed,
        record g {
          rate_limiters = insert bytes_order g.rate_limiters client_id (bucket, lookup_bucket);
        },
      )
]

-- Sending to the clients of a user, under a hash that is not marked, and marking it once one of
-- them has accepted.
unfoldable pub send_new : Bytes → ℕ → List ℕ → Bytes → Gateway → Outcome × Gateway
send_new user hash senders payload g =
    let (ok, sent) = send_all senders payload g in
    if ok then (accepted, mark_delivered user hash sent) else (refused, sent)

module _ (x : Host) where
  -- The block that makes `(delivered, was_duplicate)`.
  unfoldable pub deliver_local : Bytes → Bytes → Gateway → Outcome × Gateway
  deliver_local recipient_id forward g = elim (get bytes_order g.clients recipient_id) [
    | none ↦ (refused, g)
    | some senders ↦
        if is_delivered g recipient_id (x.payload_hash forward)
        then (duplicate, g)
        else send_new recipient_id (x.payload_hash forward) senders forward g
  ]

  -- The commands for a recipient that no client here accepted for.
  unfoldable pub hand_to_node : Bytes → Bytes → Bytes → Gateway → Gateway
  hand_to_node sender_id recipient_id payload g =
      notify (mailbox_store recipient_id sender_id payload)
        (notify (publish (x.hex_encode recipient_id) (build_forward sender_id payload)) g)

  -- What follows on the local delivery.
  unfoldable pub after_local : Bytes → Bytes → Bytes → Outcome × Gateway → Gateway
  after_local sender_id recipient_id payload (accepted, g) = persist_delivered_set x recipient_id g
  after_local sender_id recipient_id payload (duplicate, g) = g
  after_local sender_id recipient_id payload (refused, g) =
      hand_to_node sender_id recipient_id payload g

  unfoldable pub relay : Bytes → Bytes → Bytes → Gateway → Gateway
  relay sender_id recipient_id payload g =
      after_local sender_id recipient_id payload
        (deliver_local recipient_id (build_forward sender_id payload) g)

  unfoldable pub relay_or_p2p : ℕ → ℕ → Bytes → Bytes → Gateway → Gateway
  relay_or_p2p read stamp sender_id frame g = elim (parse_frame frame) [
    | none ↦ g
    | some (recipient_id, payload) ↦
        let (allowed, h) = check_rate_limit_store read stamp sender_id g in
        if allowed then relay sender_id recipient_id payload h else h
  ]
