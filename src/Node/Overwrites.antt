-- ===== src/Node/Overwrites.antt =====
-- server/src/p2p/node.rs: what a failed query during a probe does to the messages that are stored.
use vurn_server.Prelude.{
  ok, ℕ, ◌≤◌, ◌≡◌, ap, Option-cases, inl, inr, refl, Option, none, some, [], ◌∷◌, ◌++◌, Bool,
  length,
}
use vurn_server.Prelude.Bytes.{Bytes}
use vurn_server.Prelude.SortedMap.{get, insert, contains_key, get-insert_self}
use vurn_server.Dht.{
  Net, NetLaws, DhtEnvelope, verify_envelope, mailbox_seq_key, encode_mailbox_message,
}
use vurn_server.Mailbox.{bytes_order}
use vurn_server.Dht.Envelope.{verify_envelope-sign_envelope}
use vurn_server.Node.{
  call, put_record, Node, idle, is_idle, fetching_index, Probing, pending_retrieve, user_hash_of,
  nat_order, mailbox_store, mailbox_retrieved, emit,
}
use vurn_server.Node.Store.{sled_key, new_envelope, store_signed_envelope}
use vurn_server.Node.Collect.{emit_empty_mailbox}
use vurn_server.Node.Probe.{resume_pending_command}
use vurn_server.Node.Handlers.{
  answer_profile_query, get_failed, handle_kad_event, handle_get_failed, handle_mailbox_store,
  handle_command, seed_command, seed_index, check_state_timeout, run_command,
}

-- From the first node to the second one a record has been put into the DHT under number 1 of the
-- user: an envelope with that number and this message, which verifies.
pub record IsPutFirst (w : Net) (user_hash message : Bytes) (n n' : Node) : Type 0 where
  pub envelope : DhtEnvelope
  pub bytes : Bytes
  pub decodes : w.deserialize_envelope bytes ≡ some envelope
  pub payload_is : envelope.payload ≡ message
  pub seq_is : envelope.seq ≡ 1
  pub verifies : verify_envelope w envelope user_hash ≡ ok tt
  pub put : n'.calls ≡ n.calls ++ (put_record (mailbox_seq_key user_hash 1) bytes ∷ [])

events-answer_profile_query :
    (id : ℕ) (value : Option Bytes) (n : Node) → (answer_profile_query id value n).events ≡ n.events
unfolding answer_profile_query
events-answer_profile_query id value n = elim (Option-cases (get nat_order n.profile_queries id)) [
  | inl e ↦ rw (e, answer_profile_query) refl
  | inr (resp, e) ↦ rw (e, answer_profile_query) refl
]

module _ (w : Net) (signing_key : Bytes) (now : ℕ) where
  failed_retrieval :
      (key : Option Bytes) (user_hash : Bytes) (p : Probing) (n : Node)
      → p.pending_command ≡ pending_retrieve user_hash
      → handle_get_failed w signing_key now key (fetching_index p) n
        ≡ some (
          idle,
          emit
              (mailbox_retrieved user_hash [])
              (record n { mailbox_indices = insert bytes_order n.mailbox_indices user_hash 0 }),
        )
  unfolding handle_get_failed resume_pending_command user_hash_of emit_empty_mailbox
  failed_retrieval key user_hash p n is = rw is refl

  handled_at_zero :
      (has_peers : Bool) (h sender payload : Bytes) (n : Node) {m : Node}
      → get bytes_order n.mailbox_indices h ≡ some 0
      → store_signed_envelope w signing_key h sender payload 1 n ≡ some m
      → handle_mailbox_store w signing_key now has_peers h sender payload idle n ≡ some (idle, m)
  unfolding handle_mailbox_store is_idle
  handled_at_zero has_peers h sender payload n zero_is stored =
      rw (zero_is, handle_mailbox_store) (rw (stored, handle_mailbox_store) refl)

  seeded_at_zero :
      (h : Bytes) (n : Node)
      → get bytes_order n.mailbox_indices h ≡ some 0
      → seed_index w signing_key now h idle n ≡ n
  unfolding seed_index is_idle contains_key
  seeded_at_zero h n zero_is = rw zero_is refl

  store_at_zero :
      (has_room has_peers : Bool) (h sender payload : Bytes) (n : Node) {m : Node}
      → get bytes_order n.mailbox_indices h ≡ some 0
      → store_signed_envelope w signing_key h sender payload 1 n ≡ some m
      → run_command w signing_key now has_room has_peers (mailbox_store h sender payload) idle n
        ≡ some (idle, m)
  unfolding run_command handle_command seed_command check_state_timeout
  store_at_zero has_room has_peers h sender payload n zero_is stored =
      rw
        (
          seeded_at_zero h n zero_is,
          handled_at_zero has_peers h sender payload n zero_is stored,
          run_command,
        )
        refl

module _ {w : Net} (laws : NetLaws w) (signing_key : Bytes) (now later : ℕ) where
  store_first :
      (h sender payload : Bytes) (n : Node)
      → 32 ≤ length h
      → ((e : DhtEnvelope) → (bytes : Bytes) × (w.serialize_envelope e ≡ some bytes))
      → (n' : Node) × (store_signed_envelope w signing_key h sender payload 1 n ≡ some n')
        × IsPutFirst w h (encode_mailbox_message sender payload) n n'
  unfolding store_signed_envelope new_envelope
  store_first h sender payload n long total =
      let (e, signed, same_payload, same_seq, valid) =
        verify_envelope-sign_envelope laws (new_envelope w signing_key sender payload 1) signing_key
          h refl long in
      let (bytes, made) = total e in
      (
        call (put_record (mailbox_seq_key h 1) bytes) (record n {
          sled = insert bytes_order n.sled (sled_key h 1) bytes;
          mailbox_indices = insert bytes_order n.mailbox_indices h 1;
        }),
        rw (signed, store_signed_envelope) (rw made refl),
        record {
          envelope = e;
          bytes = bytes;
          decodes = laws.deserialize-serialize e made;
          payload_is = same_payload;
          seq_is = same_seq;
          verifies = valid;
          put = refl;
        },
      )

  -- A get_record fails while the node probes for a retrieval of a user hash of at least 32 bytes,
  -- whatever numbers were found with verified records so far. The retrieval is over with an empty
  -- mailbox, and the next store command for that user, with or without peers and where the
  -- encoding of envelopes does not fail, puts the new message into the DHT under number 1, in an
  -- envelope that verifies.
  pub failed_probe_overwrites :
      (has_room has_peers : Bool) (id : ℕ) (key : Option Bytes) (user_hash sender payload : Bytes)
      (p : Probing) (n : Node)
      → p.pending_command ≡ pending_retrieve user_hash
      → 32 ≤ length user_hash
      → ((e : DhtEnvelope) → (bytes : Bytes) × (w.serialize_envelope e ≡ some bytes))
      → (m m' : Node) × (handle_kad_event w signing_key now (get_failed id key) (fetching_index p) n
          ≡ some (idle, m))
        × (m.events ≡ n.events ++ (mailbox_retrieved user_hash [] ∷ []))
        × (run_command w signing_key later has_room has_peers
              (mailbox_store user_hash sender payload)
              idle
              m
            ≡ some (idle, m'))
        × IsPutFirst w user_hash (encode_mailbox_message sender payload) m m'
  unfolding handle_kad_event
  failed_probe_overwrites has_room has_peers id key user_hash sender payload p n is long total =
      let start = answer_profile_query id none n in
      let m =
        emit (mailbox_retrieved user_hash []) (record start {
          mailbox_indices = insert bytes_order start.mailbox_indices user_hash 0;
        }) in
      let (m', stored, put) = store_first user_hash sender payload m long total in
      (
        m,
        m',
        failed_retrieval w signing_key now key user_hash p start is,
        ap (λ es. es ++ (mailbox_retrieved user_hash [] ∷ []))
            (events-answer_profile_query id none n),
        store_at_zero w signing_key later has_room has_peers user_hash sender payload m
            (get-insert_self bytes_order start.mailbox_indices user_hash 0) stored,
        put,
      )
