-- ===== src/Gateway/Offline.antt =====
-- server/: a message for a client that is not connected, from the sender's frame through the
-- node's backup to the recipient's next connection.
use mathlib.Core.Path.{subst}
use mathlib.Core.List.{Memᴰ}
use mathlib.Core.List.Memᴰ.{head, tail, append_left, append_right}
use vurn_server.Prelude.{
  Bool, ℕ, ◌+◌, ◌%◌, ◌≤◌, ◌≡◌, refl, sym, ap, ◌∙◌, true, false, some, none, List, [], ◌∷◌, length,
  Bool-cases, Option-cases, inl, inr, ◌==◌, ==_iff,
}
use vurn_server.Prelude.Bytes.{Bytes}
use vurn_server.Prelude.SortedMap.{get}
use vurn_server.Mailbox.{Manager, bytes_order, load_delivered_hashes, read_sled_backup}
use vurn_server.Mailbox.Backup.{read_sled_backup-store_signed_envelope}
use vurn_server.Dht.{Net, NetLaws, DhtEnvelope, encode_mailbox_message}
use vurn_server.Node.{u64_mod, Node, mailbox_store, idle, is_idle}
use vurn_server.Node.Store.{sled_key, store_signed_envelope}
use vurn_server.Node.Handlers.{
  run_command, handle_command, handle_mailbox_store, seed_command, seed_index, check_state_timeout,
  solo_seq,
}
use vurn_server.Gateway.{Host, Gateway, CommandSender}
use vurn_server.Gateway.Send.{contains, is_delivered}
use vurn_server.Gateway.Relay.{relay}
use vurn_server.Gateway.Connection.{connect}
use vurn_server.Gateway.Outcomes.{build_forward-eq, IsUnreachable, relay_refused}
use vurn_server.Gateway.NoLoss.{hand_to_node_lem}
use vurn_server.Gateway.Reconnect.{channels, connect_delivers}
use vurn_server.Gateway.Channels.{copies}
use vurn_server.Gateway.Drain.{payloads_in, all_copies, fresh}
use vurn_server.Gateway.Erasure.{get_cases}

payloads_in-get :
    (records : List (Bytes × Bytes)) (key : Bytes) {payload : Bytes}
    → get bytes_order records key ≡ some payload
    → Memᴰ payload (payloads_in records)
unfolding get payloads_in
payloads_in-get [] key g = cc
payloads_in-get ((j, v) ∷ records) key g = elim (get_cases key j v records g) [
  | inl (_, same) ↦ head same
  | inr later ↦ tail (payloads_in-get records key later)
]

copies-Memᴰ :
    (closed senders : List ℕ) (tx : ℕ) (payload : Bytes)
    → contains closed tx ≡ false
    → Memᴰ tx senders
    → Memᴰ (tx, payload) (copies closed senders payload)
unfolding copies
copies-Memᴰ closed [] tx payload o m = elim m [ ]
copies-Memᴰ closed (s ∷ senders) tx payload o (head same) =
    rw (rw same at o) (head (ap (λ t. (t, payload)) same))
copies-Memᴰ closed (s ∷ senders) tx payload o (tail m) = elim (Bool-cases (contains closed s)) [
  | inl e ↦ rw e (copies-Memᴰ closed senders tx payload o m)
  | inr e ↦ rw e (tail (copies-Memᴰ closed senders tx payload o m))
]

all_copies-Memᴰ :
    (closed senders : List ℕ) (tx : ℕ) (payload : Bytes) (payloads : List Bytes)
    → contains closed tx ≡ false
    → Memᴰ tx senders
    → Memᴰ payload payloads
    → Memᴰ (tx, payload) (all_copies closed senders payloads)
unfolding all_copies
all_copies-Memᴰ closed senders tx payload [] o s m = elim m [ ]
all_copies-Memᴰ closed senders tx payload (p ∷ payloads) o s (head same) =
    rw (← same) (append_left _ (copies-Memᴰ closed senders tx payload o s))
all_copies-Memᴰ closed senders tx payload (p ∷ payloads) o s (tail m) =
    append_right _ (all_copies-Memᴰ closed senders tx payload payloads o s m)

module _ (x : Host) where
  -- Of the payloads with a hash that is not marked, one is fresh.
  fresh-Memᴰ :
      (marked : List ℕ) (payload : Bytes) (payloads : List Bytes)
      → contains marked (x.payload_hash payload) ≡ false
      → Memᴰ payload payloads
      → (q : Bytes) × (x.payload_hash q ≡ x.payload_hash payload) × Memᴰ q (fresh x marked payloads)
  unfolding fresh contains
  fresh-Memᴰ marked payload [] o m = elim m [ ]
  fresh-Memᴰ marked payload (p ∷ payloads) o (head same) =
      rw (rw same at o) (p, ap x.payload_hash (sym same), head refl)
  fresh-Memᴰ marked payload (p ∷ payloads) o (tail m) =
      let (q, is, old) = fresh-Memᴰ marked payload payloads o m in
      elim (Bool-cases (contains marked (x.payload_hash p))) [
        | inl e ↦ rw e (q, is, old)
        | inr e ↦ elim (Bool-cases (x.payload_hash p == x.payload_hash payload)) [
          | inl f ↦ rw e (p, (==_iff _ _).0 f, head refl)
          | inr f ↦
              let (r, eq, new) =
                fresh-Memᴰ (x.payload_hash p ∷ marked) payload payloads (rw f o) m in
              rw e (r, eq, tail new)
        ]
      ]

module _ (w : Net) (signing_key : Bytes) (now : ℕ) where
  -- The number under which an idle node without peers stores.
  abbrev next_seq : Node → Bytes → ℕ
  next_seq n h = elim (get bytes_order n.mailbox_indices h) [
    | some index ↦ (index + 1) % u64_mod
    | none ↦ solo_seq w signing_key now n h
  ]

  store_solo :
      (h sender payload : Bytes) (n : Node) {m : Node}
      → store_signed_envelope w signing_key h sender payload (next_seq n h) n ≡ some m
      → handle_mailbox_store w signing_key now false h sender payload idle n ≡ some (idle, m)
  unfolding handle_mailbox_store is_idle
  store_solo h sender payload n s = elim (Option-cases (get bytes_order n.mailbox_indices h)) [
    | inl e ↦ rw (e, handle_mailbox_store) (rw (rw (e, next_seq) at s, handle_mailbox_store) refl)
    | inr (i, e) ↦
        rw (e, handle_mailbox_store) (rw (rw (e, next_seq) at s, handle_mailbox_store) refl)
  ]

  run_store :
      (has_room : Bool) (h sender payload : Bytes) (n : Node) {m : Node}
      → store_signed_envelope w signing_key h sender payload
          (next_seq (seed_index w signing_key now h idle n) h)
          (seed_index w signing_key now h idle n)
        ≡ some m
      → run_command w signing_key now has_room false (mailbox_store h sender payload) idle n
        ≡ some (idle, m)
  unfolding run_command handle_command seed_command check_state_timeout
  run_store has_room h sender payload n s =
      rw (store_solo h sender payload (seed_index w signing_key now h idle n) s, run_command) refl

-- A record that is read from the backup, with a hash that is not marked, is sent through the new
-- channel, or another payload of its hash is.
connect_reads :
    (x : Host) (now : ℕ) (h : Bytes) (g : Gateway) (key payload : Bytes)
    → g.mailbox ≡ true
    → contains g.closed g.next_channel ≡ false
    → contains (load_delivered_hashes x.net h g.manager) (x.payload_hash payload) ≡ false
    → get bytes_order (read_sled_backup x.net h g.manager).0 key ≡ some payload
    → (q : Bytes) × (x.payload_hash q ≡ x.payload_hash payload)
      × Memᴰ (g.next_channel, q) (connect x now h g).sent
connect_reads x now h g key payload on new unseen found =
    let records = (read_sled_backup x.net h g.manager).0 in
    let marked = load_delivered_hashes x.net h g.manager in
    let (q, same, fresh_q) =
      fresh-Memᴰ x marked payload (payloads_in records) unseen
        (payloads_in-get records key found) in
    let copied =
      all_copies-Memᴰ g.closed (channels x now h g) g.next_channel q
        (fresh x marked (payloads_in records)) new (append_right _ (head refl)) fresh_q in
    (q, same, rw (connect_delivers x now h g on new).0 (append_right g.sent copied))

module _ (x : Host) (laws : NetLaws x.net) (signing_key : Bytes) (now : ℕ)
    (h sender payload : Bytes) (g : Gateway) (has_room : Bool) (n : Node) (manager : Manager) where
  -- A message to a user without an open channel is delivered at the next connection. With a
  -- recipient hash of at least 32 bytes, encodings of envelopes that do not fail, a node that
  -- takes commands, a gateway that has its mailbox, a next channel that is not closed, and a hash
  -- of the message that is marked neither in memory nor in the marks saved for the recipient: the
  -- relay gives the node the store command; an idle node without peers, in whatever state its
  -- indices and its backup are, runs the command and is idle; and when the recipient then
  -- connects over that backup, its new channel is sent the message, or another payload with the
  -- same hash.
  pub offline_delivery :
      {tx : CommandSender}
      → 32 ≤ length h
      → ((e : DhtEnvelope) → (bytes : Bytes) × (x.net.serialize_envelope e ≡ some bytes))
      → g.p2p_cmd_tx ≡ some tx
      → tx.is_dropped ≡ false
      → IsUnreachable x g h
      → is_delivered g h (x.payload_hash (encode_mailbox_message sender payload)) ≡ false
      → g.mailbox ≡ true
      → contains g.closed g.next_channel ≡ false
      → contains
          (load_delivered_hashes x.net h manager)
          (x.payload_hash (encode_mailbox_message sender payload))
        ≡ false
      → let k = relay x sender h payload g in
        (ty : CommandSender) × (k.p2p_cmd_tx ≡ some ty)
        × Memᴰ (mailbox_store h sender payload) ty.commands
        × (m : Node) × (run_command x.net signing_key now has_room false
              (mailbox_store h sender payload)
              idle
              n
            ≡ some (idle, m))
        × (q : Bytes) × (x.payload_hash q ≡ x.payload_hash (encode_mailbox_message sender payload))
        × Memᴰ
            (g.next_channel, q)
            (connect x now h (record k { manager = record manager { mailbox = m.sled } })).sent
  unfolding load_delivered_hashes
  offline_delivery {tx} long total node takes away unmarked on new unseen =
      let message = encode_mailbox_message sender payload in
      let k = relay x sender h payload g in
      let is =
        relay_refused x sender h payload g away
          (inl (rw (build_forward-eq sender payload) unmarked))
        ∙ hand_to_node_lem x sender h payload g node takes in
      let start = seed_index x.net signing_key now h idle n in
      let seq = next_seq x.net signing_key now start h in
      let (m, stored, found) =
        read_sled_backup-store_signed_envelope laws signing_key h sender payload seq start manager
          long total in
      let joined : Gateway = record k { manager = record manager { mailbox = m.sled } } in
      let on_k : joined.mailbox ≡ true = ap (λ (j : Gateway). j.mailbox) is ∙ on in
      let new_k : contains joined.closed joined.next_channel ≡ false =
        ap (λ (j : Gateway). contains j.closed j.next_channel) is ∙ new in
      let (q, same, sent) =
        connect_reads x now h joined (sled_key h seq) message on_k new_k unseen found in
      (
        _,
        ap (λ (j : Gateway). j.p2p_cmd_tx) is,
        append_right tx.commands (tail (head refl)),
        m,
        run_store x.net signing_key now has_room h sender payload n stored,
        q,
        same,
        subst (λ c. Memᴰ (c, q) (connect x now h joined).sent)
            (ap (λ (j : Gateway). j.next_channel) is) sent,
      )
