-- ===== src/Gateway/Untouched.antt =====
-- server/src/ws.rs and server/src/main.rs: client messages, events of the node and the drain leave
-- the clients and their channels as they are.
use vurn_server.Prelude.{
  ℕ, refl, true, ◌&&◌, Option, none, some, List, [], ◌∷◌, ltb, leb, ◌==◌, length, get_or, drop,
  Option-cases, inl, inr,
}
use vurn_server.Prelude.Bytes.{Bytes}
use vurn_server.Prelude.SortedMap.{get}
use vurn_server.Mailbox.{
  bytes_order, read_sled_backup, handle_retrieval_result, save_delivered_hashes,
}
use vurn_server.Node.{
  NodeEvent, message_received, mailbox_retrieved, peer_discovered, listening_on, bootstrap,
}
use vurn_server.Gateway.{Host, Gateway}
use vurn_server.Gateway.Send.{send_all, check_and_mark_delivered, persist_delivered_set}
use vurn_server.Gateway.Profile.{Answers}
use vurn_server.Gateway.Connection.{
  drain_records, local_drain, Message, binary, text, ping, pong, close, failed, handle_message,
}
use vurn_server.Gateway.Events.{
  Counts, set_p2p_connected, broadcast, mark_and_send, handle_gossip, handle_message_received,
  deliver_records, deliver_payloads, deliver_retrieved, handle_mailbox_retrieved, handle_p2p_event,
}
use vurn_server.Gateway.Sent.{drain_records_frame}
use vurn_server.Gateway.Frames.{
  SameClients, same_refl, same_trans, same_as, same_if, notify-same, send_all-same, persist-same,
  relay_or_p2p-same,
}
use vurn_server.Gateway.ProfileFrames.{without_manager, other_manager, same_either, profile-same}

broadcast-same :
    (clients : List (Bytes × List ℕ)) (payload : Bytes) (g : Gateway)
    → SameClients (broadcast clients payload g) g
unfolding broadcast
broadcast-same [] payload g = same_refl g
broadcast-same ((user, senders) ∷ clients) payload g =
    same_trans (broadcast-same clients payload (send_all senders payload g).1)
      (send_all-same senders payload g)

module _ (x : Host) where
  pub handle_message-same :
      (read stamp : ℕ) (a : Answers) (session : Bytes) (m : Message) (g : Gateway)
      → SameClients (handle_message x read stamp a session m g).1 g
  unfolding handle_message
  handle_message-same read stamp a session (binary bytes) g =
      same_if g _ _ (leb 2 (length bytes) && get_or bytes 0 0 == 0)
        (profile-same a session (get_or bytes 1 0) (drop 2 bytes) g)
        (relay_or_p2p-same x read stamp session bytes g)
  handle_message-same read stamp a session (text bytes) g = same_refl g
  handle_message-same read stamp a session ping g = same_refl g
  handle_message-same read stamp a session pong g = same_refl g
  handle_message-same read stamp a session close g = same_refl g
  handle_message-same read stamp a session failed g = same_refl g

  mark_and_send-same :
      (user : Bytes) (senders : List ℕ) (payload : Bytes) (g : Gateway)
      → SameClients (mark_and_send x user senders payload g).1 g
  unfolding mark_and_send
  mark_and_send-same user senders payload g =
      let (is_new, delivered) = check_and_mark_delivered x g.delivered_hashes user payload in
      let marked : Gateway = record g { delivered_hashes = delivered } in
      let touched : SameClients marked g = record { clients = refl; next = refl; closed = refl } in
      same_either g _ _ is_new (same_trans (send_all-same senders payload marked) touched) touched

  deliver_records-same :
      (user : Bytes) (senders : List ℕ) (records : List (Bytes × Bytes)) (c : Counts) (g : Gateway)
      → SameClients (deliver_records x user senders records c g).1 g
  unfolding deliver_records
  deliver_records-same user senders [] c g = same_refl g
  deliver_records-same user senders ((key, payload) ∷ records) c g =
      same_trans
        (deliver_records-same user senders records _ (mark_and_send x user senders payload g).1)
        (mark_and_send-same user senders payload g)

  deliver_payloads-same :
      (user : Bytes) (senders : List ℕ) (payloads : List Bytes) (c : Counts) (g : Gateway)
      → SameClients (deliver_payloads x user senders payloads c g).1 g
  unfolding deliver_payloads
  deliver_payloads-same user senders [] c g = same_refl g
  deliver_payloads-same user senders (payload ∷ payloads) c g =
      same_trans
        (deliver_payloads-same user senders payloads _ (mark_and_send x user senders payload g).1)
        (mark_and_send-same user senders payload g)

  handle_gossip-same :
      (recipient payload : Bytes) (g : Gateway)
      → SameClients (handle_gossip x recipient payload g) g
  unfolding handle_gossip
  handle_gossip-same recipient payload g =
      elim (Option-cases (get bytes_order g.clients recipient)) [
        | inl e ↦ rw (e, handle_gossip) (same_refl g)
        | inr (senders, e) ↦
            let ((was_new, ok), h) = mark_and_send x recipient senders payload g in
            let marked = mark_and_send-same recipient senders payload g in
            rw (e, handle_gossip)
              (same_if g (persist_delivered_set x recipient h) h was_new
                (same_trans (persist-same x recipient h) marked) marked)
      ]

  message_received-same :
      (topic payload : Bytes) (g : Gateway)
      → SameClients (handle_message_received x topic payload g) g
  unfolding handle_message_received
  message_received-same topic payload g =
      same_if g _ _ (length topic == 0) (broadcast-same g.clients payload g)
        (elim (Option-cases (x.hex_decode topic)) [
          | inl e ↦ rw e (same_refl g)
          | inr (recipient, e) ↦ rw e (handle_gossip-same recipient payload g)
        ])

  retrieved_saved :
      (user : Bytes) (k : Gateway) (hashes : Option (List ℕ))
      → SameClients
          (elim hashes as (λ _. Gateway) [
            | none ↦ k
            | some s ↦ record k { manager = save_delivered_hashes x.net user s k.manager }
          ])
          k
  retrieved_saved user k none = same_refl k
  retrieved_saved user k (some s) = record { clients = refl; next = refl; closed = refl }

  deliver_retrieved-same :
      (user : Bytes) (records : List (Bytes × Bytes)) (payloads : List Bytes) (g : Gateway)
      → SameClients (deliver_retrieved x user records payloads g) g
  unfolding deliver_retrieved
  deliver_retrieved-same user records payloads g =
      elim (Option-cases (get bytes_order g.clients user)) [
        | inl e ↦ rw (e, deliver_retrieved) (same_refl g)
        | inr (senders, e) ↦
            let start : Counts = record { delivered_count = 0; dupes = 0; to_remove = [] } in
            let (c, h) = deliver_records x user senders records start g in
            let (d, k) = deliver_payloads x user senders payloads c h in
            let sent =
              same_trans (deliver_payloads-same user senders payloads c h)
                (deliver_records-same user senders records start g) in
            let saved =
              same_if k _ k (ltb 0 d.delivered_count)
                (retrieved_saved user k (get bytes_order k.delivered_hashes user)) (same_refl k) in
            rw (e, deliver_retrieved) (same_trans (without_manager saved) sent)
      ]

  pub handle_p2p_event-same : (e : NodeEvent) (g : Gateway) → SameClients (handle_p2p_event x e g) g
  unfolding handle_p2p_event handle_mailbox_retrieved set_p2p_connected
  handle_p2p_event-same (message_received from topic payload) g =
      message_received-same topic payload g
  handle_p2p_event-same (mailbox_retrieved user messages) g =
      let (payloads, m) = handle_retrieval_result x.net user messages g.manager in
      let (records, m2) = read_sled_backup x.net user m in
      same_if g _ _ (length payloads == 0)
        (other_manager g m2
          (deliver_retrieved-same user records payloads (record g { manager = m2 })))
        (other_manager g m (deliver_retrieved-same user [] payloads (record g { manager = m })))
  handle_p2p_event-same (peer_discovered peer) g =
      let c = notify-same bootstrap (record g { p2p_connected = true }) in
      record { clients = c.clients; next = c.next; closed = c.closed }
  handle_p2p_event-same (listening_on addr) g =
      let c = notify-same bootstrap (record g { p2p_connected = true }) in
      record { clients = c.clients; next = c.next; closed = c.closed }

  pub local_drain-same : (session : Bytes) (g : Gateway) → SameClients (local_drain x session g) g
  unfolding local_drain
  local_drain-same session g =
      let (pending, manager) = read_sled_backup x.net session g.manager in
      let g1 : Gateway = record g { manager = manager } in
      let ((to_remove, new_count), h) = drain_records x session pending g1 in
      let (s, d, frame) = drain_records_frame x session pending g1 in
      let drained : SameClients h g =
        other_manager g manager
          (same_as frame (record { clients = refl; next = refl; closed = refl })) in
      let saved =
        same_if g (persist_delivered_set x session h) h (ltb 0 new_count)
          (same_trans (persist-same x session h) drained) drained in
      same_if g _ g g.mailbox (without_manager saved) (same_refl g)
