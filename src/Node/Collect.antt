-- ===== src/Node/Collect.antt =====
-- server/src/p2p/node.rs: collecting the messages of a mailbox one by one.
use vurn_server.Prelude.{
  ℕ, zero, suc, ◌+◌, Bool, false, ◌&&◌, Option, none, some, List, [], ◌∷◌, ◌++◌, ◌==◌,
  if◌then◌else◌, is_ok,
}
use vurn_server.Prelude.Bytes.{Bytes}
use vurn_server.Dht.{Net, verify_envelope, mailbox_seq_key}
use vurn_server.Node.{
  Node, MailboxState, idle, collecting_messages, Collecting, mailbox_retrieved, emit, query,
}

-- `count` numbers from `start`
unfoldable pub range : ℕ → ℕ → List ℕ
range start zero = []
range start (suc count) = start ∷ range (suc start) count

unfoldable pub emit_empty_mailbox : Bytes → Node → MailboxState × Node
emit_empty_mailbox user_hash n = (idle, emit (mailbox_retrieved user_hash []) n)

module _ (w : Net) where
  -- The test on a record that was found for a number.
  unfoldable pub is_valid : Bytes → ℕ → Option Bytes → Bool
  is_valid user_hash seq none = false
  is_valid user_hash seq (some value) = elim (w.deserialize_envelope value) [
    | none ↦ false
    | some envelope ↦ envelope.seq == seq && is_ok (verify_envelope w envelope user_hash)
  ]

  -- Behind `remaining.remove(0)`: the next query, or the result.
  unfoldable pub collect_next : Collecting → Node → MailboxState × Node
  collect_next s n = elim s.remaining [
    | [] ↦ (idle, emit (mailbox_retrieved s.user_hash s.messages) n)
    | next_seq ∷ seqs ↦
        (collecting_messages s, (query w (mailbox_seq_key s.user_hash next_seq) n).1)
  ]

  -- The messages with the one of this number, if it is verified.
  unfoldable pub collected : Bytes → ℕ → Option Bytes → List Bytes → List Bytes
  collected user_hash seq none messages = messages
  collected user_hash seq (some bytes) messages =
      if is_valid user_hash seq (some bytes) then messages ++ (bytes ∷ []) else messages

  unfoldable pub collect_message : Option Bytes → Collecting → Node → MailboxState × Node
  collect_message value s n = elim s.remaining [
    | [] ↦ (idle, emit (mailbox_retrieved s.user_hash s.messages) n)
    | seq ∷ seqs ↦
        collect_next
          (record s { messages = collected s.user_hash seq value s.messages; remaining = seqs }) n
  ]

  -- The index is not 0: the source would panic on it.
  unfoldable pub start_collecting_messages : ℕ → Bytes → ℕ → Node → MailboxState × Node
  start_collecting_messages now user_hash index n = (
    collecting_messages (record {
      user_hash = user_hash;
      messages = [];
      remaining = range 1 index;
      deadline = now + 10;
    }),
    (query w (mailbox_seq_key user_hash 1) n).1,
  )
