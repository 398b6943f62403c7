-- ===== src/Gateway/NoLoss.antt =====
-- server/src/ws.rs: a frame that is not over the limit reaches a client or the node.
use vurn_server.Prelude.{
  ℕ, ◌<◌, ◌≡◌, ◌⊎◌, refl, ap, ◌∙◌, true, false, some, List, [], ◌∷◌, ◌++◌, length, Bool-cases,
  Option-cases, inl, inr, append_assoc,
}
use vurn_server.Prelude.Bytes.{Bytes}
use vurn_server.Prelude.SortedMap.{get, insert}
use vurn_server.Dht.{encode_mailbox_message}
use vurn_server.Mailbox.{bytes_order}
use vurn_server.Node.{mailbox_store, publish}
use vurn_server.Gateway.{Host, Gateway, CommandSender, TokenBucket, try_consume}
use vurn_server.Gateway.Send.{send_to, notify, is_delivered, mark_delivered}
use vurn_server.Gateway.Relay.{
  build_forward, check_rate_limit_store, hand_to_node, relay, relay_or_p2p,
}
use vurn_server.Gateway.Channels.{notify_open, copies, is_delivered-mark_delivered}
use vurn_server.Gateway.Outcomes.{
  build_forward-eq, parse_frame-encode_mailbox_message, persist_delivered_set_lem, IsReachable,
  IsUnreachable, reachability, relay_duplicate, relay_accepted, relay_refused,
}

-- Checking the limit changes the limiters only.
pub check_rate_limit_store_lem :
    (read stamp : ℕ) (client_id : Bytes) (g : Gateway)
    → (limiters : List (Bytes × (TokenBucket × TokenBucket))) × ((check_rate_limit_store read stamp
          client_id g).1
        ≡ record g { rate_limiters = limiters })
unfolding check_rate_limit_store
check_rate_limit_store_lem read stamp client_id g =
    elim (Option-cases (get bytes_order g.rate_limiters client_id)) [
      | inl e ↦ (g.rate_limiters, rw (e, check_rate_limit_store) refl)
      | inr ((store_bucket, lookup_bucket), e) ↦ (
        insert bytes_order g.rate_limiters client_id
            ((try_consume read stamp 1 store_bucket).1, lookup_bucket),
        rw (e, check_rate_limit_store) refl,
      )
    ]

module _ (x : Host) (sender_id recipient_id payload : Bytes) where
  -- The node's channel after both commands.
  abbrev queued : CommandSender → CommandSender
  queued tx = record tx {
    commands =
        tx.commands
        ++ (publish (x.hex_encode recipient_id) (encode_mailbox_message sender_id payload)
            ∷ mailbox_store recipient_id sender_id payload
            ∷ []);
  }

  pub hand_to_node_lem :
      (g : Gateway) {tx : CommandSender}
      → g.p2p_cmd_tx ≡ some tx
      → tx.is_dropped ≡ false
      → hand_to_node x sender_id recipient_id payload g ≡ record g { p2p_cmd_tx = some (queued tx) }
  unfolding hand_to_node notify send_to
  hand_to_node_lem g {tx} e o =
      let first : CommandSender = record tx {
        commands =
            tx.commands
            ++ (publish (x.hex_encode recipient_id) (encode_mailbox_message sender_id payload)
                ∷ []);
      } in
      let second : Gateway = record g { p2p_cmd_tx = some first } in
      ap (notify (mailbox_store recipient_id sender_id payload)) (
        ap (λ message. notify (publish (x.hex_encode recipient_id) message) g)
          (build_forward-eq sender_id payload)
        ∙ notify_open _ g e o)
      ∙ notify_open (mailbox_store recipient_id sender_id payload) second {tx = first} refl o
      ∙ ap (λ commands. record g { p2p_cmd_tx = some (record tx { commands = commands }) })
          (append_assoc tx.commands _ _)

  abbrev message_hash : ℕ
  message_hash = x.payload_hash (encode_mailbox_message sender_id payload)

  -- What becomes of a message that is relayed from the state `g`.
  abbrev pub IsRelayed : Gateway → Gateway → CommandSender → Type 0
  IsRelayed g k tx =
      ((is_delivered g recipient_id (x.payload_hash (encode_mailbox_message sender_id payload))
          ≡ true)
        × (k ≡ g))
      ⊎ (((senders : List ℕ) × IsReachable x g recipient_id senders
            × (k.sent
                ≡ g.sent ++ copies g.closed senders (encode_mailbox_message sender_id payload))
            × (is_delivered k recipient_id
                  (x.payload_hash (encode_mailbox_message sender_id payload))
                ≡ true))
          ⊎ (IsUnreachable x g recipient_id × (k ≡ record g { p2p_cmd_tx = some (queued tx) })))

  -- For a recipient without an open channel a message that is marked ends here, if there are
  -- channels at all, and any other goes to the node.
  pub relay_unreachable :
      (g : Gateway)
      → IsUnreachable x g recipient_id
      → ((is_delivered g recipient_id (x.payload_hash (build_forward sender_id payload)) ≡ true)
          × (relay x sender_id recipient_id payload g ≡ g))
        ⊎ (relay x sender_id recipient_id payload g
            ≡ hand_to_node x sender_id recipient_id payload g)
  relay_unreachable g (inl n) =
      inr (relay_refused x sender_id recipient_id payload g (inl n) (inr n))
  relay_unreachable g (inr (senders, e, o)) =
      elim (Bool-cases
        (is_delivered g recipient_id (x.payload_hash (build_forward sender_id payload)))) [
          | inl d ↦ inl (d, relay_duplicate x sender_id recipient_id payload g e d)
          | inr d ↦
              inr (relay_refused x sender_id recipient_id payload g (inr (senders, e, o)) (inl d))
        ]

  -- An accepted message: a copy for each open channel, and the mark.
  pub accepted_parts :
      (g : Gateway) (senders : List ℕ)
      → IsReachable x g recipient_id senders
      → is_delivered g recipient_id (x.payload_hash (build_forward sender_id payload)) ≡ false
      → let k = relay x sender_id recipient_id payload g in
        (k.sent ≡ g.sent ++ copies g.closed senders (build_forward sender_id payload))
        × (is_delivered k recipient_id (x.payload_hash (build_forward sender_id payload)) ≡ true)
  unfolding is_delivered mark_delivered
  accepted_parts g senders r d =
      let forward = build_forward sender_id payload in
      let hash = x.payload_hash forward in
      let h : Gateway = record g { sent = g.sent ++ copies g.closed senders forward } in
      let (m, saved) =
        persist_delivered_set_lem x recipient_id (mark_delivered recipient_id hash h) in
      let is = relay_accepted x sender_id recipient_id payload g senders r d ∙ saved in
      (
        ap (λ (k : Gateway). k.sent) is,
        ap (λ k. is_delivered k recipient_id hash) is
            ∙ is_delivered-mark_delivered recipient_id hash h,
      )

  pub relay-IsRelayed :
      (g : Gateway) {tx : CommandSender}
      → g.p2p_cmd_tx ≡ some tx
      → tx.is_dropped ≡ false
      → IsRelayed g (relay x sender_id recipient_id payload g) tx
  unfolding build_forward encode_mailbox_message
  relay-IsRelayed g {tx} e o =
      let hash = x.payload_hash (build_forward sender_id payload) in
      elim (reachability x g recipient_id) [
        | inl (senders, r) ↦ elim (Bool-cases (is_delivered g recipient_id hash)) [
          | inl d ↦ inl (d, relay_duplicate x sender_id recipient_id payload g (r.0) d)
          | inr d ↦
              let (sent, marked) = accepted_parts g senders r d in
              inr (inl (senders, r, sent, marked))
        ]
        | inr u ↦ elim (relay_unreachable g u) [
          | inl (d, same) ↦ inl (d, same)
          | inr is ↦ inr (inr (u, is ∙ hand_to_node_lem g e o))
        ]
      ]

module _ (x : Host) (read stamp : ℕ) (sender_id recipient_id payload : Bytes) (g : Gateway)
    (low : 0 < length recipient_id) (high : length recipient_id < 65536)
    (not_empty : 0 < length payload) where
  relay_or_p2p_limited :
      (check_rate_limit_store read stamp sender_id g).0 ≡ false
      → relay_or_p2p x read stamp sender_id (encode_mailbox_message recipient_id payload) g
        ≡ (check_rate_limit_store read stamp sender_id g).1
  unfolding relay_or_p2p
  relay_or_p2p_limited limited =
      let parsed = parse_frame-encode_mailbox_message recipient_id payload low high not_empty in
      rw (parsed, relay_or_p2p) (rw limited refl)

  pub relay_or_p2p_allowed :
      (check_rate_limit_store read stamp sender_id g).0 ≡ true
      → relay_or_p2p x read stamp sender_id (encode_mailbox_message recipient_id payload) g
        ≡ relay x sender_id recipient_id payload (check_rate_limit_store read stamp sender_id g).1
  unfolding relay_or_p2p
  relay_or_p2p_allowed allowed =
      let parsed = parse_frame-encode_mailbox_message recipient_id payload low high not_empty in
      rw (parsed, relay_or_p2p) (rw allowed refl)

  -- While the node takes commands, a frame for a recipient id of 1 to 65535 bytes with a payload
  -- that is not empty has one of these results. It is over the sender's limit, and only the
  -- limiters change. Or it is within the limit, and either its forward message was marked for the
  -- recipient and nothing else changes; or the recipient has an open channel, each of its open
  -- channels is sent one copy of the message, which is then marked; or the recipient has no open
  -- channel, and what changes is that the node is sent the publication and the command to store
  -- the payload.
  pub relay_or_p2p_delivers :
      {tx : CommandSender}
      → g.p2p_cmd_tx ≡ some tx
      → tx.is_dropped ≡ false
      → let h = (check_rate_limit_store read stamp sender_id g).1 in
        let k =
          relay_or_p2p x read stamp sender_id (encode_mailbox_message recipient_id payload) g in
        (((check_rate_limit_store read stamp sender_id g).0 ≡ false) × (k ≡ h))
        ⊎ (((check_rate_limit_store read stamp sender_id g).0 ≡ true)
            × IsRelayed x sender_id recipient_id payload h k tx)
  relay_or_p2p_delivers {tx} node takes =
      elim (Bool-cases (check_rate_limit_store read stamp sender_id g).0) [
        | inr limited ↦ inl (limited, relay_or_p2p_limited limited)
        | inl allowed ↦
            let h = (check_rate_limit_store read stamp sender_id g).1 in
            let (limiters, same) = check_rate_limit_store_lem read stamp sender_id g in
            let node_h = ap (λ (k : Gateway). k.p2p_cmd_tx) same ∙ node in
            inr (
              allowed,
              rw (relay_or_p2p_allowed allowed)
                  (relay-IsRelayed x sender_id recipient_id payload h node_h takes),
            )
      ]
