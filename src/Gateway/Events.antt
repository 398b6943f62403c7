-- ===== src/Gateway/Events.antt =====
-- server/src/main.rs: the events of the node.
use vurn_server.Prelude.{
  ℕ, Bool, true, false, none, some, List, [], ◌∷◌, ◌++◌, ltb, ◌==◌, if◌then◌else◌, length, suc,
}
use vurn_server.Prelude.Bytes.{Bytes}
use vurn_server.Prelude.SortedMap.{get}
use vurn_server.Mailbox.{
  bytes_order, handle_retrieval_result, read_sled_backup, save_delivered_hashes,
  remove_sled_records,
}
use vurn_server.Node.{
  NodeEvent, message_received, mailbox_retrieved, peer_discovered, listening_on, bootstrap,
}
use vurn_server.Gateway.{Host, Gateway}
use vurn_server.Gateway.Send.{send_all, notify, check_and_mark_delivered, persist_delivered_set}

unfoldable pub set_p2p_connected : Bool → Gateway → Gateway
set_p2p_connected connected g = record g { p2p_connected = connected }

-- `for (_, senders) in map.clients.iter()`
unfoldable pub broadcast : List (Bytes × List ℕ) → Bytes → Gateway → Gateway
broadcast [] payload g = g
broadcast ((user, senders) ∷ clients) payload g =
    broadcast clients payload (send_all senders payload g).1

-- The two counters and the keys of the loops over what was retrieved.
pub record Counts : Type 0 where
  pub delivered_count : ℕ
  pub dupes : ℕ
  pub to_remove : List Bytes

module _ (x : Host) where
  -- A message for one recipient that may be new: whether it is, and whether a client accepted it.
  unfoldable pub mark_and_send : Bytes → List ℕ → Bytes → Gateway → (Bool × Bool) × Gateway
  mark_and_send user_hash senders payload g =
      let (is_new, delivered) = check_and_mark_delivered x g.delivered_hashes user_hash payload in
      let (ok, h) = send_all senders payload (record g { delivered_hashes = delivered }) in
      if is_new
      then ((true, ok), h)
      else ((false, false), record g { delivered_hashes = delivered })

  -- `MessageReceived` with a topic.
  unfoldable pub handle_gossip : Bytes → Bytes → Gateway → Gateway
  handle_gossip recipient_id payload g = elim (get bytes_order g.clients recipient_id) [
    | none ↦ g
    | some senders ↦
        let ((was_new, ok), h) = mark_and_send recipient_id senders payload g in
        if was_new then persist_delivered_set x recipient_id h else h
  ]

  unfoldable pub handle_message_received : Bytes → Bytes → Gateway → Gateway
  handle_message_received topic payload g =
      if length topic == 0 then broadcast g.clients payload g else elim (x.hex_decode topic) [
        | none ↦ g
        | some recipient_id ↦ handle_gossip recipient_id payload g
      ]

  -- `for (key, payload) in &sled_records`
  unfoldable pub deliver_records :
      Bytes → List ℕ → List (Bytes × Bytes) → Counts → Gateway → Counts × Gateway
  deliver_records user_hash senders [] c g = (c, g)
  deliver_records user_hash senders ((key, payload) ∷ records) c g =
      let ((is_new, ok), h) = mark_and_send user_hash senders payload g in
      let d =
        if is_new
        then if ok
          then record c {
            delivered_count = suc c.delivered_count;
            to_remove = c.to_remove ++ (key ∷ []);
          }
          else c
        else record c { dupes = suc c.dupes; to_remove = c.to_remove ++ (key ∷ []) } in
      deliver_records user_hash senders records d h

  -- `for payload in &all_payloads`
  unfoldable pub deliver_payloads :
      Bytes → List ℕ → List Bytes → Counts → Gateway → Counts × Gateway
  deliver_payloads user_hash senders [] c g = (c, g)
  deliver_payloads user_hash senders (payload ∷ payloads) c g =
      let ((is_new, ok), h) = mark_and_send user_hash senders payload g in
      let d =
        if is_new
        then record c { delivered_count = suc c.delivered_count }
        else record c { dupes = suc c.dupes } in
      deliver_payloads user_hash senders payloads d h

  -- The part under the lock, and the removal behind it.
  unfoldable pub deliver_retrieved : Bytes → List (Bytes × Bytes) → List Bytes → Gateway → Gateway
  deliver_retrieved user_hash sled_records all_payloads g =
      elim (get bytes_order g.clients user_hash) [
        | none ↦ g
        | some senders ↦
            let start : Counts = record { delivered_count = 0; dupes = 0; to_remove = [] } in
            let (c, h) = deliver_records user_hash senders sled_records start g in
            let (d, k) = deliver_payloads user_hash senders all_payloads c h in
            let saved =
              if ltb 0 d.delivered_count
              then elim (get bytes_order k.delivered_hashes user_hash) [
                | none ↦ k
                | some hashes ↦ record k {
                  manager = save_delivered_hashes x.net user_hash hashes k.manager;
                }
              ]
              else k in
            record saved { manager = remove_sled_records x.net d.to_remove saved.manager }
      ]

  unfoldable pub handle_mailbox_retrieved : Bytes → List Bytes → Gateway → Gateway
  handle_mailbox_retrieved user_hash messages g =
      let (all_payloads, m) = handle_retrieval_result x.net user_hash messages g.manager in
      let (sled_records, m2) = read_sled_backup x.net user_hash m in
      if length all_payloads == 0
      then deliver_retrieved user_hash sled_records all_payloads (record g { manager = m2 })
      else deliver_retrieved user_hash [] all_payloads (record g { manager = m })

  -- The match of `handle_p2p_events`.
  unfoldable pub handle_p2p_event : NodeEvent → Gateway → Gateway
  handle_p2p_event (message_received from topic payload) g = handle_message_received topic payload g
  handle_p2p_event (mailbox_retrieved user_hash messages) g =
      handle_mailbox_retrieved user_hash messages g
  handle_p2p_event (peer_discovered peer_id) g = notify bootstrap (set_p2p_connected true g)
  handle_p2p_event (listening_on addr) g = notify bootstrap (set_p2p_connected true g)
