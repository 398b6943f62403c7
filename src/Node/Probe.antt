-- ===== src/Node/Probe.antt =====
-- server/src/p2p/node.rs: probing the DHT for the last number of a mailbox, in windows.
use vurn_server.Prelude.{
  ℕ, zero, suc, ◌+◌, ◌-◌, ◌%◌, Bool, false, not, ◌||◌, Option, none, some, List, [], ◌∷◌, ◌==◌,
  if◌then◌else◌,
}
use vurn_server.Prelude.Bytes.{Bytes}
use vurn_server.Prelude.SortedMap.{insert}
use vurn_server.Dht.{Net, mailbox_seq_key}
use vurn_server.Mailbox.{bytes_order}
use vurn_server.Node.{
  Node, MailboxState, idle, fetching_index, Probing, PendingNodeCommand, pending_store,
  pending_retrieve, nat_order, window_size, u64_mod, query,
}
use vurn_server.Node.Store.{store_signed_envelope}
use vurn_server.Node.Collect.{emit_empty_mailbox, start_collecting_messages}

abbrev pub any_value : ℕ → List (ℕ × ℕ) → Bool
any_value s [] = false
any_value s ((id, v) ∷ queries) = v == s || any_value s queries

abbrev pub contains : ℕ → List ℕ → Bool
contains s [] = false
contains s (x ∷ xs) = x == s || contains s xs

-- How the scan of a window ends: at a number whose query is pending, at one that is missing, or
-- with all of them found.
pub data Scan : Type 0 where
  waiting : Scan
  gap : ℕ → Scan
  complete : Scan

-- The loop of `try_resolve_window`, over `count` numbers from `s`.
unfoldable pub scan : ℕ → ℕ → List (ℕ × ℕ) → List ℕ → Scan
scan zero s pending found = complete
scan (suc count) s pending found =
    let rest = scan count (suc s) pending found in
    if any_value s pending then waiting else if not (contains s found) then gap s else rest

module _ (w : Net) where
  -- The loop of `fire_window`, with the queries so far.
  unfoldable pub fire_from : Bytes → ℕ → ℕ → List (ℕ × ℕ) → Node → List (ℕ × ℕ) × Node
  fire_from user_hash zero s queries n = (queries, n)
  fire_from user_hash (suc count) s queries n =
      let (qid, m) = query w (mailbox_seq_key user_hash s) n in
      fire_from user_hash count (suc s) (insert nat_order queries qid s) m

  unfoldable pub fire_window : Bytes → ℕ → ℕ → Node → List (ℕ × ℕ) × Node
  fire_window user_hash start count n = fire_from user_hash count start [] n

  module _ (signing_key : Bytes) (now : ℕ) where
    unfoldable pub resume_pending_command :
        PendingNodeCommand → ℕ → Node → Option (MailboxState × Node)
    resume_pending_command (pending_store recipient_hash sender_hash payload) index n =
        elim (store_signed_envelope w signing_key recipient_hash sender_hash payload
          ((index + 1) % u64_mod) n) [ none ↦ none | some m ↦ some (idle, m) ]
    resume_pending_command (pending_retrieve user_hash) index n =
        if index == 0
        then some (emit_empty_mailbox user_hash n)
        else some (start_collecting_messages w now user_hash index n)

    unfoldable pub try_resolve_window : Bytes → Probing → Node → Option (MailboxState × Node)
    try_resolve_window user_hash p n =
        elim (scan window_size p.window_start p.pending_queries p.found) [
          | waiting ↦ some (fetching_index p, n)
          | gap s ↦ resume_pending_command p.pending_command (s - 1) (record n {
            mailbox_indices = insert bytes_order n.mailbox_indices user_hash (s - 1);
          })
          | complete ↦
              let next_start = (p.window_start + window_size) % u64_mod in
              let (queries, m) = fire_window user_hash next_start window_size n in
              some (
                fetching_index
                    (record p { window_start = next_start; pending_queries = queries; found = [] }),
                m,
              )
        ]
