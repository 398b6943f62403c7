-- ===== src/Gateway/Connection.antt =====
-- server/src/ws.rs: a client's connection, from the registration to the clean-up. The tasks of a
-- connection interleave with those of others, so each locked block is a function of its own.
use vurn_server.Prelude.{
  ℕ, suc, Bool, true, false, Option, none, some, List, [], ◌∷◌, ◌++◌, ltb, ◌==◌, if◌then◌else◌,
  length, drop, ◌&&◌, leb, get_or,
}
use vurn_server.Prelude.Bytes.{Bytes}
use vurn_server.Prelude.SortedMap.{get, insert, remove}
use vurn_server.Mailbox.{bytes_order, load_delivered_hashes, read_sled_backup, remove_sled_records}
use vurn_server.Node.{NodeCommand}
use vurn_server.Gateway.{
  Host, Gateway, new_bucket, rate_limit_store_per_sec, rate_limit_lookup_per_sec,
}
use vurn_server.Gateway.Send.{contains, or_default, notify, is_delivered, persist_delivered_set}
use vurn_server.Gateway.Relay.{Outcome, accepted, duplicate, refused, send_new, relay_or_p2p}
use vurn_server.Gateway.Profile.{Answers, handle_profile_operation}

-- What the stream of the socket yields.
pub data Message : Type 0 where
  binary : Bytes → Message
  text : Bytes → Message
  ping pong close failed : Message

-- The first message: the session id, unless the connection is given up.
unfoldable pub registration : Option Message → Option Bytes
registration (some (binary [])) = none
registration (some (binary (b ∷ bytes))) = some (b ∷ bytes)
registration _ = none

unfoldable pub init_rate_limiters : ℕ → Bytes → Gateway → Gateway
init_rate_limiters now session g = record g {
  rate_limiters = insert bytes_order g.rate_limiters session (
    new_bucket now rate_limit_store_per_sec rate_limit_store_per_sec,
    new_bucket now rate_limit_lookup_per_sec rate_limit_lookup_per_sec,
  );
}

-- `map.clients.entry(session).or_default().push(tx)` with a new channel.
unfoldable pub push_sender : Bytes → Gateway → Gateway
push_sender session g = record g {
  clients =
      insert bytes_order g.clients session
        (or_default (get bytes_order g.clients session) ++ (g.next_channel ∷ []));
  next_channel = suc g.next_channel;
}

-- `senders.retain(|s| !s.is_closed())`
unfoldable pub retain_open : List ℕ → List ℕ → List ℕ
retain_open closed [] = []
retain_open closed (tx ∷ senders) =
    let kept = retain_open closed senders in if contains closed tx then kept else tx ∷ kept

unfoldable pub clean_senders : Bytes → Gateway → Gateway
clean_senders session g = elim (get bytes_order g.clients session) [
  | none ↦ g
  | some senders ↦
      let kept = retain_open g.closed senders in
      record g {
        clients =
            if length kept == 0
            then remove bytes_order g.clients session
            else insert bytes_order g.clients session kept;
      }
]

-- The forward task owns the receiver, which is dropped when the task is over or aborted.
unfoldable pub drop_receiver : ℕ → Gateway → Gateway
drop_receiver tx g = record g { closed = tx ∷ g.closed }

-- The end of the forward task, after a send to the socket failed.
unfoldable pub forward_task_ends : Bytes → ℕ → Gateway → Gateway
forward_task_ends session tx g = drop_receiver tx (clean_senders session g)

-- What a record adds to `to_remove` and `new_count`.
abbrev pub count_record : Outcome → Bytes → List Bytes × ℕ → List Bytes × ℕ
count_record accepted key (to_remove, new_count) = (key ∷ to_remove, suc new_count)
count_record duplicate key (to_remove, new_count) = (key ∷ to_remove, new_count)
count_record refused key (to_remove, new_count) = (to_remove, new_count)

module _ (x : Host) where
  unfoldable pub seed_delivered : Bytes → Gateway → Gateway
  seed_delivered session g = record g {
    delivered_hashes =
        insert bytes_order g.delivered_hashes session
          (if g.mailbox then load_delivered_hashes x.net session g.manager else []);
  }

  -- One round of the drain.
  unfoldable pub drain_record : Bytes → Bytes → Gateway → Outcome × Gateway
  drain_record session payload g =
      if is_delivered g session (x.payload_hash payload)
      then (duplicate, g)
      else elim (get bytes_order g.clients session) [
        | none ↦ (refused, g)
        | some senders ↦ send_new session (x.payload_hash payload) senders payload g
      ]

  -- `for (key, payload) in &pending`: the keys to remove and the number of new messages.
  unfoldable pub drain_records : Bytes → List (Bytes × Bytes) → Gateway → (List Bytes × ℕ) × Gateway
  drain_records session [] g = (([], 0), g)
  drain_records session ((key, payload) ∷ pending) g =
      let (outcome, h) = drain_record session payload g in
      let (counts, k) = drain_records session pending h in (count_record outcome key counts, k)

  -- The local drain. What the source guards by a test for an empty list changes nothing on one.
  unfoldable pub local_drain : Bytes → Gateway → Gateway
  local_drain session g =
      let (pending, manager) = read_sled_backup x.net session g.manager in
      let ((to_remove, new_count), h) =
        drain_records session pending (record g { manager = manager }) in
      let k = if ltb 0 new_count then persist_delivered_set x session h else h in
      if g.mailbox then record k { manager = remove_sled_records x.net to_remove k.manager } else g

  -- The blocks up to the loop that reads the client's messages.
  unfoldable pub connect : ℕ → Bytes → Gateway → Gateway
  connect now session g =
      let subscribed = notify (NodeCommand.subscribe (x.hex_encode session)) g in
      let seeded = seed_delivered session (init_rate_limiters now session subscribed) in
      let drained = local_drain session (push_sender session seeded) in
      notify (NodeCommand.mailbox_retrieve session) drained

  -- A message of the loop: whether the loop goes on.
  unfoldable pub handle_message : ℕ → ℕ → Answers → Bytes → Message → Gateway → Bool × Gateway
  handle_message read stamp a session (binary bytes) g = (
    true,
    if leb 2 (length bytes) && get_or bytes 0 0 == 0
        then handle_profile_operation a session (get_or bytes 1 0) (drop 2 bytes) g
        else relay_or_p2p x read stamp session bytes g,
  )
  handle_message read stamp a session (text bytes) g = (true, g)
  handle_message read stamp a session ping g = (true, g)
  handle_message read stamp a session pong g = (true, g)
  handle_message read stamp a session close g = (false, g)
  handle_message read stamp a session failed g = (false, g)

  -- Step 5, without the end of the forward task.
  unfoldable pub clean_up : Bytes → Gateway → Gateway
  clean_up session g =
      let saved = persist_delivered_set x session g in
      clean_senders session (record saved {
        rate_limiters = remove bytes_order saved.rate_limiters session;
        delivered_hashes = remove bytes_order saved.delivered_hashes session;
      })

  -- The clean-up, and the forward task is aborted.
  unfoldable pub disconnect : Bytes → ℕ → Gateway → Gateway
  disconnect session tx g = drop_receiver tx (clean_up session g)
