-- ===== src/Node/Delivery.antt =====
-- server/src/p2p/node.rs: collecting a mailbox, from the first answer to the last.
use vurn_server.Prelude.{
  ℕ, suc, ◌+◌, ◌≡◌, refl, sym, ap, ◌∙◌, Option, none, some, List, [], ◌∷◌, ◌++◌, append-nil,
  append_assoc, length, true, arith, Option-cases, Bool-cases, inl, inr,
}
use vurn_server.Prelude.Bytes.{Bytes}
use vurn_server.Dht.{Net, DhtEnvelope, mailbox_seq_key}
use vurn_server.Dht.Envelope.{IsAuthentic, verify_envelope_iff}
use vurn_server.Node.{
  Node, MailboxState, idle, collecting_messages, fetching_index, mailbox_retrieved, query,
}
use vurn_server.Node.Collect.{
  range, is_valid, collected, collect_next, collect_message, start_collecting_messages,
}

-- A record that decodes to an envelope with the number, which is authentic for the user.
abbrev pub IsVerified : Net → Bytes → ℕ → Bytes → Type 0
IsVerified w user_hash seq bytes =
    (e : DhtEnvelope) × (w.deserialize_envelope bytes ≡ some e)
    × (e.seq ≡ seq)
    × IsAuthentic w e user_hash

-- What a retrieval reports of the answers to the numbers from `seq` on: the verified records.
pub data Reports (w : Net) (user_hash : Bytes) : ℕ → List (Option Bytes) → List Bytes → Type 0 where
  over : {seq : ℕ} → Reports w user_hash seq [] []
  reported :
      {seq : ℕ} {bytes : Bytes} {values : List (Option Bytes)} {messages : List Bytes}
      → IsVerified w user_hash seq bytes
      → Reports w user_hash (suc seq) values messages
      → Reports w user_hash seq (some bytes ∷ values) (bytes ∷ messages)
  unverified :
      {seq : ℕ} {bytes : Bytes} {values : List (Option Bytes)} {messages : List Bytes}
      → ¬ IsVerified w user_hash seq bytes
      → Reports w user_hash (suc seq) values messages
      → Reports w user_hash seq (some bytes ∷ values) messages
  missing :
      {seq : ℕ} {values : List (Option Bytes)} {messages : List Bytes}
      → Reports w user_hash (suc seq) values messages
      → Reports w user_hash seq (none ∷ values) messages

module _ (w : Net) where
  is_valid-IsVerified :
      (user_hash : Bytes) (seq : ℕ) (bytes : Bytes)
      → is_valid w user_hash seq (some bytes) ≡ true
      → IsVerified w user_hash seq bytes
  unfolding is_valid
  is_valid-IsVerified user_hash seq bytes h = elim (Option-cases (w.deserialize_envelope bytes)) [
    | inl e ↦ absurd (let g = rw (e, is_valid) at h in cc)
    | inr (e, is) ↦ (e, is, ground arith, (verify_envelope_iff w e user_hash).0 (ground arith))
  ]

  IsVerified-is_valid :
      (user_hash : Bytes) (seq : ℕ) (bytes : Bytes)
      → IsVerified w user_hash seq bytes
      → is_valid w user_hash seq (some bytes) ≡ true
  unfolding is_valid
  IsVerified-is_valid user_hash seq bytes (e, is, same, authentic) =
      let accepted = (verify_envelope_iff w e user_hash).1 authentic in
      rw (is, is_valid) (rw accepted (ground arith))

  -- The answers that come in while the state is collecting, one after the other.
  unfoldable pub collect_all : List (Option Bytes) → MailboxState → Node → MailboxState × Node
  collect_all [] state n = (state, n)
  collect_all (value ∷ values) idle n = (idle, n)
  collect_all (value ∷ values) (fetching_index p) n = (fetching_index p, n)
  collect_all (value ∷ values) (collecting_messages s) n =
      let (state, m) = collect_message w value s n in collect_all values state m

  -- Of the answers to the numbers from `seq` on, the records that the code collects.
  unfoldable kept : Bytes → ℕ → List (Option Bytes) → List Bytes
  kept user_hash seq [] = []
  kept user_hash seq (value ∷ values) =
      collected w user_hash seq value [] ++ kept user_hash (suc seq) values

  collected_after :
      (user_hash : Bytes) (seq : ℕ) (value : Option Bytes) (messages : List Bytes)
      → collected w user_hash seq value messages ≡ messages ++ collected w user_hash seq value []
  unfolding collected
  collected_after user_hash seq none messages = sym (append-nil messages)
  collected_after user_hash seq (some bytes) messages =
      elim (Bool-cases (is_valid w user_hash seq (some bytes))) [
        | inl e ↦ rw e refl
        | inr e ↦ rw e (sym (append-nil messages))
      ]

  collect_one :
      (user_hash : Bytes) (seq : ℕ) (value : Option Bytes) (messages rest : List Bytes)
      → collected w user_hash seq value messages ++ rest
        ≡ messages ++ (collected w user_hash seq value [] ++ rest)
  collect_one user_hash seq value messages rest =
      rw (collected_after user_hash seq value messages) (append_assoc messages _ rest)

  -- From the state that waits for the numbers from `seq` on, as many answers as there are numbers
  -- lead to the idle state.
  collect_all_from :
      (user_hash : Bytes) (seq deadline : ℕ) (value : Option Bytes) (values : List (Option Bytes))
      (messages : List Bytes) (n : Node)
      → (m : Node) × (collect_all
            (value ∷ values)
            (collecting_messages (record {
              user_hash = user_hash;
              messages = messages;
              remaining = range seq (suc (length values));
              deadline = deadline;
            }))
            n
          ≡ (idle, m))
        × (m.sled ≡ n.sled)
        × (m.events
            ≡ n.events
              ++ (mailbox_retrieved user_hash (messages ++ kept user_hash seq (value ∷ values))
                  ∷ []))
  unfolding collect_all kept collect_message collect_next range
  collect_all_from user_hash seq deadline value [] messages n = (
    _,
    refl,
    refl,
    ap (λ ms. n.events ++ (mailbox_retrieved user_hash ms ∷ []))
        (rw (append-nil (collected w user_hash seq value []))
          (collected_after user_hash seq value messages)),
  )
  collect_all_from user_hash seq deadline value (next ∷ values) messages n =
      let (m, ends, sled, events) =
        collect_all_from user_hash (suc seq) deadline next values
          (collected w user_hash seq value messages)
          (query w (mailbox_seq_key user_hash (suc seq)) n).1 in
      (
        m,
        ends,
        sled,
        events
            ∙ ap (λ ms. n.events ++ (mailbox_retrieved user_hash ms ∷ []))
                (collect_one user_hash seq value messages _),
      )

  kept-Reports :
      (user_hash : Bytes) (seq : ℕ) (values : List (Option Bytes))
      → Reports w user_hash seq values (kept user_hash seq values)
  unfolding kept collected
  kept-Reports user_hash seq [] = over
  kept-Reports user_hash seq (none ∷ values) = missing (kept-Reports user_hash (suc seq) values)
  kept-Reports user_hash seq (some bytes ∷ values) =
      let rest = kept-Reports user_hash (suc seq) values in
      elim (Bool-cases (is_valid w user_hash seq (some bytes))) [
        | inl e ↦ rw e (reported (is_valid-IsVerified user_hash seq bytes e) rest)
        | inr e ↦
            rw e (unverified (λ v. let is = IsVerified-is_valid user_hash seq bytes v in cc) rest)
      ]

  -- A retrieval with an index of at least 1 is over when that many answers have come: the state
  -- is idle, and one event reports those of the answered records, in the order of the numbers,
  -- that decode to an envelope with their number which is authentic for the user, and no other.
  -- Authentic means a key and a signature of their lengths, a user hash of at least 32 bytes, and
  -- a signature that is valid for the payload, the number and the first 32 bytes of the hash.
  pub collect_all-start_collecting_messages :
      (now : ℕ) (user_hash : Bytes) (value : Option Bytes) (values : List (Option Bytes)) (n : Node)
      → (m : Node) × (messages : List Bytes) × (collect_all
            (value ∷ values)
            (start_collecting_messages w now user_hash (suc (length values)) n).0
            (start_collecting_messages w now user_hash (suc (length values)) n).1
          ≡ (idle, m))
        × (m.sled ≡ n.sled)
        × Reports w user_hash 1 (value ∷ values) messages
        × (m.events ≡ n.events ++ (mailbox_retrieved user_hash messages ∷ []))
  unfolding start_collecting_messages
  collect_all-start_collecting_messages now user_hash value values n =
      let (m, ends, sled, events) =
        collect_all_from user_hash 1 (now + 10) value values []
          (query w (mailbox_seq_key user_hash 1) n).1 in
      (
        m,
        kept user_hash 1 (value ∷ values),
        ends,
        sled,
        kept-Reports user_hash 1 (value ∷ values),
        events,
      )
