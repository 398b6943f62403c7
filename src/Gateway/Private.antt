-- ===== src/Gateway/Private.antt =====
-- server/src/ws.rs: a message reaches the channels of its recipient only.
use vurn_server.Prelude.{
  ℕ, ◌≡◌, ◌≢◌, ◌⊎◌, refl, sym, ap, ◌∙◌, false, some, List, [], ◌∷◌, ◌++◌, append-nil, arith,
  Bool-cases, inl, inr,
}
use vurn_server.Prelude.Bytes.{Bytes}
use vurn_server.Prelude.SortedMap.{get}
use vurn_server.Mailbox.{bytes_order}
use vurn_server.Gateway.{Host, Gateway}
use vurn_server.Gateway.Send.{contains, or_default, is_delivered, notify}
use vurn_server.Gateway.Relay.{
  parse_frame, build_forward, check_rate_limit_store, hand_to_node, relay, relay_or_p2p,
}
use vurn_server.Gateway.Channels.{copies}
use vurn_server.Gateway.Outcomes.{reachability, relay_duplicate}
use vurn_server.Gateway.NoLoss.{check_rate_limit_store_lem, accepted_parts, relay_unreachable}
use vurn_server.Node.{mailbox_store, publish}
use vurn_server.Gateway.Sent.{notify_frame}
use vurn_server.Gateway.Owned.{Listed}
use vurn_server.Gateway.Steps.{Reachable, Reachable-IsOwned}

-- The channels that something was sent through.
unfoldable pub channels_of : List (ℕ × Bytes) → List ℕ
channels_of [] = []
channels_of ((tx, payload) ∷ sent) = tx ∷ channels_of sent

copies-channels :
    (closed senders : List ℕ) (payload : Bytes) (tx : ℕ)
    → contains senders tx ≡ false
    → contains (channels_of (copies closed senders payload)) tx ≡ false
unfolding contains channels_of copies
copies-channels closed [] payload tx n = refl
copies-channels closed (s ∷ senders) payload tx n =
    ground (arith, copies-channels closed senders payload tx)

-- What was sent between two states, if it is nothing or copies for a user's channels.
abbrev SentTo : Gateway → Gateway → List ℕ → Bytes → Type 0
SentTo h g senders payload =
    (h.sent ≡ g.sent) ⊎ (h.sent ≡ g.sent ++ copies g.closed senders payload)

module _ (x : Host) (sender recipient payload : Bytes) (g : Gateway) where
  -- Handing a message to the node sends nothing to a client.
  handed : (hand_to_node x sender recipient payload g).sent ≡ g.sent
  unfolding hand_to_node
  handed =
      let first =
        notify_frame (publish (x.hex_encode recipient) (build_forward sender payload)) g in
      let k = notify (publish (x.hex_encode recipient) (build_forward sender payload)) g in
      let second = notify_frame (mailbox_store recipient sender payload) k in
      ap (λ (k : Gateway). k.sent) second.1 ∙ ap (λ (k : Gateway). k.sent) first.1

  relay_sent :
      SentTo
        (relay x sender recipient payload g)
        g
        (or_default (get bytes_order g.clients recipient))
        (build_forward sender payload)
  relay_sent = elim (reachability x g recipient) [
    | inl (senders, r) ↦
        elim (Bool-cases
          (is_delivered g recipient (x.payload_hash (build_forward sender payload)))) [
            | inl d ↦ inl (
                ap (λ (k : Gateway). k.sent) (relay_duplicate x sender recipient payload g (r.0) d))
            | inr d ↦ inr (rw (r.0) (accepted_parts x sender recipient payload g senders r d).0)
          ]
    | inr u ↦ elim (relay_unreachable x sender recipient payload g u) [
      | inl (_, same) ↦ inl (ap (λ (k : Gateway). k.sent) same)
      | inr is ↦ inl (ap (λ (k : Gateway). k.sent) is ∙ handed)
    ]
  ]

none_sent : (tx : ℕ) → contains (channels_of []) tx ≡ false
unfolding contains channels_of
none_sent tx = refl

frame_sent :
    (x : Host) (read stamp : ℕ) (sender frame : Bytes) (g : Gateway) {recipient payload : Bytes}
    → parse_frame frame ≡ some (recipient, payload)
    → SentTo
        (relay_or_p2p x read stamp sender frame g)
        g
        (or_default (get bytes_order g.clients recipient))
        (build_forward sender payload)
unfolding relay_or_p2p
frame_sent x read stamp sender frame g {recipient} {payload} parsed =
    let (limiters, limited) = check_rate_limit_store_lem read stamp sender g in
    let h : Gateway = record g { rate_limiters = limiters } in
    elim (Bool-cases (check_rate_limit_store read stamp sender g).0) [
      | inl a ↦
          rw (parsed, relay_or_p2p) (rw (a, limited) (relay_sent x sender recipient payload h))
      | inr a ↦ rw (parsed, relay_or_p2p) (rw (a, limited) (inl refl))
    ]

module _ (x : Host) (read stamp : ℕ) (sender frame : Bytes) (g : Gateway) where
  -- In a state that the gateway's steps reach, a frame for one recipient sends nothing through a
  -- channel that is listed for another user.
  pub relay_or_p2p_private :
      {recipient payload : Bytes} (other : Bytes) (tx : ℕ)
      → Reachable x g
      → parse_frame frame ≡ some (recipient, payload)
      → other ≢ recipient
      → Listed g.clients other tx
      → (rest : List (ℕ × Bytes)) × ((relay_or_p2p x read stamp sender frame g).sent
          ≡ g.sent ++ rest)
        × (contains (channels_of rest) tx ≡ false)
  relay_or_p2p_private {recipient} {payload} other tx reached parsed apart listed =
      let owned = Reachable-IsOwned x reached in
      let senders = or_default (get bytes_order g.clients recipient) in
      let unlisted : contains senders tx ≡ false = elim (Bool-cases (contains senders tx)) [
        | inl l ↦ absurd (apart (owned.single other recipient tx listed l))
        | inr n ↦ n
      ] in
      elim (frame_sent x read stamp sender frame g parsed) [
        | inl same ↦ ([], same ∙ sym (append-nil g.sent), none_sent tx)
        | inr sent ↦ (
          copies g.closed senders (build_forward sender payload),
          sent,
          copies-channels g.closed senders (build_forward sender payload) tx unlisted,
        )
      ]
