-- ===== src/Gateway/Outcomes.antt =====
-- server/src/ws.rs: what becomes of a client's frame to another client.
use vurn_server.Prelude.{
  ℕ, suc, ◌+◌, ◌%◌, ◌<◌, ◌≡◌, ◌⊎◌, refl, ap, ◌∙◌, Bool, true, false, Option, none, some, List, ◌++◌,
  append-nil, arith, length, take-append, drop-append, length-append, Bool-cases, Option-cases, inl,
  inr, if◌then◌else◌,
}
use vurn_server.Prelude.Bytes.{Bytes, u16_from_le-u16_le}
use vurn_server.Prelude.SortedMap.{get}
use vurn_server.Dht.{encode_mailbox_message}
use vurn_server.Mailbox.{Manager, bytes_order, save_delivered_hashes}
use vurn_server.Gateway.{Host, Gateway}
use vurn_server.Gateway.Send.{is_delivered, mark_delivered, persist_delivered_set}
use vurn_server.Gateway.Relay.{
  accepted, duplicate, refused, parse_frame, build_forward, send_new, after_local, deliver_local,
  hand_to_node, relay,
}
use vurn_server.Gateway.Channels.{any_open, copies, send_all_lem, copies_closed}

-- The forward frame is the message that the node stores for the recipient.
pub build_forward-eq :
    (sender_id payload : Bytes)
    → build_forward sender_id payload ≡ encode_mailbox_message sender_id payload
unfolding build_forward encode_mailbox_message
build_forward-eq sender_id payload = refl

pub parse_frame-encode_mailbox_message :
    (recipient_id payload : Bytes)
    → 0 < length recipient_id
    → length recipient_id < 65536
    → 0 < length payload
    → parse_frame (encode_mailbox_message recipient_id payload) ≡ some (recipient_id, payload)
unfolding parse_frame encode_mailbox_message
parse_frame-encode_mailbox_message recipient_id payload low high some_payload =
    let small : length recipient_id % 65536 ≡ length recipient_id = omega arith in
    let two : 2 + length recipient_id ≡ suc (suc (length recipient_id)) = omega arith in
    rw
      (
        small,
        u16_from_le-u16_le (length recipient_id) high,
        two,
        drop-append (length recipient_id) recipient_id payload refl,
        take-append (length recipient_id) recipient_id payload refl,
      )
      (ground (arith, length-append recipient_id payload))

-- Sending under a new hash, by whether a channel is open.
pub send_new_open :
    (user : Bytes) (hash : ℕ) (senders : List ℕ) (payload : Bytes) (g : Gateway)
    → any_open g.closed senders ≡ true
    → send_new user hash senders payload g ≡ (
      accepted,
      mark_delivered user hash (record g { sent = g.sent ++ copies g.closed senders payload }),
    )
unfolding send_new
send_new_open user hash senders payload g h =
    rw (send_all_lem senders payload g, send_new) (rw h refl)

pub send_new_closed :
    (user : Bytes) (hash : ℕ) (senders : List ℕ) (payload : Bytes) (g : Gateway)
    → any_open g.closed senders ≡ false
    → send_new user hash senders payload g ≡ (refused, g)
unfolding send_new
send_new_closed user hash senders payload g h =
    rw (send_all_lem senders payload g, send_new)
      (rw h (rw (copies_closed g.closed senders payload h) (rw (append-nil g.sent) refl)))

module _ (x : Host) where
  saved_as :
      (user_hash : Bytes) (g : Gateway) (mailbox : Bool) (hashes : Option (List ℕ))
      → (m : Manager) × (◌≡◌ {A = Gateway}
          (if mailbox
            then elim hashes [
              | none ↦ g
              | some s ↦ record g { manager = save_delivered_hashes x.net user_hash s g.manager }
            ]
            else g)
          (record g { manager = m }))
  saved_as user_hash g false hashes = (g.manager, refl)
  saved_as user_hash g true none = (g.manager, refl)
  saved_as user_hash g true (some s) = (save_delivered_hashes x.net user_hash s g.manager, refl)

  -- Writing the marks through changes the manager only.
  pub persist_delivered_set_lem :
      (user_hash : Bytes) (g : Gateway)
      → (m : Manager) × (persist_delivered_set x user_hash g ≡ record g { manager = m })
  unfolding persist_delivered_set
  persist_delivered_set_lem user_hash g =
      saved_as user_hash g g.mailbox (get bytes_order g.delivered_hashes user_hash)

  -- A user's channels, one of which is open.
  abbrev pub IsReachable : Gateway → Bytes → List ℕ → Type 0
  IsReachable g user senders =
      (get bytes_order g.clients user ≡ some senders) × (any_open g.closed senders ≡ true)

  -- No channel of the user is open.
  abbrev pub IsUnreachable : Gateway → Bytes → Type 0
  IsUnreachable g user =
      (get bytes_order g.clients user ≡ none)
      ⊎ ((senders : List ℕ) × (get bytes_order g.clients user ≡ some senders)
          × (any_open g.closed senders ≡ false))

  pub reachability :
      (g : Gateway) (user : Bytes)
      → ((senders : List ℕ) × IsReachable g user senders) ⊎ IsUnreachable g user
  reachability g user = elim (Option-cases (get bytes_order g.clients user)) [
    | inl e ↦ inr (inl e)
    | inr (senders, e) ↦ elim (Bool-cases (any_open g.closed senders)) [
      | inl o ↦ inl (senders, (e, o))
      | inr o ↦ inr (inr (senders, e, o))
    ]
  ]

module _ (x : Host) (sender_id recipient_id payload : Bytes) (g : Gateway) where
  abbrev forward : Bytes
  forward = build_forward sender_id payload

  local_duplicate :
      {senders : List ℕ}
      → get bytes_order g.clients recipient_id ≡ some senders
      → is_delivered g recipient_id (x.payload_hash (build_forward sender_id payload)) ≡ true
      → deliver_local x recipient_id (build_forward sender_id payload) g ≡ (duplicate, g)
  unfolding deliver_local
  local_duplicate e d = rw (e, deliver_local) (rw d refl)

  local_new :
      {senders : List ℕ}
      → get bytes_order g.clients recipient_id ≡ some senders
      → is_delivered g recipient_id (x.payload_hash (build_forward sender_id payload)) ≡ false
      → deliver_local x recipient_id (build_forward sender_id payload) g
        ≡ send_new recipient_id
            (x.payload_hash (build_forward sender_id payload))
            senders
            (build_forward sender_id payload)
            g
  unfolding deliver_local
  local_new e d = rw (e, deliver_local) (rw d refl)

  local_offline :
      get bytes_order g.clients recipient_id ≡ none
      → deliver_local x recipient_id (build_forward sender_id payload) g ≡ (refused, g)
  unfolding deliver_local
  local_offline e = rw (e, deliver_local) refl

  pub relay_duplicate :
      {senders : List ℕ}
      → get bytes_order g.clients recipient_id ≡ some senders
      → is_delivered g recipient_id (x.payload_hash (build_forward sender_id payload)) ≡ true
      → relay x sender_id recipient_id payload g ≡ g
  unfolding relay after_local
  relay_duplicate e d = ap (after_local x sender_id recipient_id payload) (local_duplicate e d)

  pub relay_accepted :
      (senders : List ℕ)
      → IsReachable x g recipient_id senders
      → is_delivered g recipient_id (x.payload_hash (build_forward sender_id payload)) ≡ false
      → relay x sender_id recipient_id payload g
        ≡ persist_delivered_set x recipient_id (
            mark_delivered recipient_id
              (x.payload_hash (build_forward sender_id payload))
              (record g {
                sent = g.sent ++ copies g.closed senders (build_forward sender_id payload);
              }))
  unfolding relay after_local
  relay_accepted senders (e, o) d =
      ap (after_local x sender_id recipient_id payload)
        (local_new e d ∙ send_new_open recipient_id (x.payload_hash forward) senders forward g o)

  pub relay_refused :
      IsUnreachable x g recipient_id
      → (is_delivered g recipient_id (x.payload_hash (build_forward sender_id payload)) ≡ false)
        ⊎ (get bytes_order g.clients recipient_id ≡ none)
      → relay x sender_id recipient_id payload g ≡ hand_to_node x sender_id recipient_id payload g
  unfolding relay after_local
  relay_refused (inl e) _ = ap (after_local x sender_id recipient_id payload) (local_offline e)
  relay_refused (inr (senders, e, o)) (inr n) =
      ap (after_local x sender_id recipient_id payload) (local_offline n)
  relay_refused (inr (senders, e, o)) (inl d) =
      ap (after_local x sender_id recipient_id payload)
        (local_new e d ∙ send_new_closed recipient_id (x.payload_hash forward) senders forward g o)
