-- ===== src/Node/Handlers.antt =====
-- server/src/p2p/node.rs: the handlers of network events, of commands and of the timeout. `now` is
-- the time at which a handler runs, in seconds.
use vurn_server.Prelude.{
  ℕ, ◌+◌, ◌%◌, Bool, not, ◌||◌, ◌&&◌, Option, none, some, List, [], ◌∷◌, ◌++◌, ltb, leb, ◌==◌,
  if◌then◌else◌, is_some,
}
use vurn_server.Prelude.Bytes.{Bytes}
use vurn_server.Prelude.SortedMap.{get, contains_key, insert, remove}
use vurn_server.Dht.{
  Net, parse_profile_key, parse_update_key, parse_mailbox_key, parse_user_hash_from_key,
  profile_key, update_key,
}
use vurn_server.Mailbox.{bytes_order}
use vurn_server.Node.{
  Node, NodeEvent, MailboxState, idle, fetching_index, collecting_messages, Probing,
  PendingNodeCommand, pending_store, pending_retrieve, user_hash_of, is_idle, NodeCommand,
  mailbox_store, mailbox_retrieve, profile_store, profile_lookup, profile_token_store,
  profile_token_lookup, mailbox_retrieved, peer_discovered, Call, put_record, nat_order,
  window_size, u64_mod, call, emit, reply, query,
}
use vurn_server.Node.Store.{get_sled_max_seq, store_signed_envelope}
use vurn_server.Node.Collect.{
  is_valid, emit_empty_mailbox, collect_message, start_collecting_messages,
}
use vurn_server.Node.Probe.{fire_window, resume_pending_command, try_resolve_window}

-- The events of Kademlia that the handler tells apart; a failed `get_record` has the key if the
-- error is `NotFound`.
pub data KadEvent : Type 0 where
  -- query id, key and value
  found_record : ℕ → Bytes → Bytes → KadEvent
  no_additional_record : ℕ → KadEvent
  get_failed : ℕ → Option Bytes → KadEvent
  routing_updated : Bytes → KadEvent
  other_event : KadEvent

abbrev pub or_empty : Option Bytes → Bytes
or_empty none = []
or_empty (some b) = b

abbrev pub optional : Option Bytes → List Bytes
optional none = []
optional (some b) = b ∷ []

-- `ev_tx.try_send`, which drops the event if the channel is full.
abbrev pub try_emit : Bool → NodeEvent → Node → Node
try_emit has_room e n = if has_room then emit e n else n

-- Behind `now`, whether the channel of events has room.
unfoldable pub check_state_timeout : ℕ → Bool → MailboxState → Node → MailboxState × Node
check_state_timeout now has_room idle n = (idle, n)
check_state_timeout now has_room (fetching_index p) n =
    if leb p.deadline now then (idle, n) else (fetching_index p, n)
check_state_timeout now has_room (collecting_messages s) n =
    if leb s.deadline now
    then (idle, try_emit has_room (mailbox_retrieved s.user_hash s.messages) n)
    else (collecting_messages s, n)

-- Sends on the channel of a profile query, which is over with it.
unfoldable pub answer_profile_query : ℕ → Option Bytes → Node → Node
answer_profile_query id value n = elim (get nat_order n.profile_queries id) [
  | none ↦ n
  | some resp ↦
      reply resp value (record n { profile_queries = remove nat_order n.profile_queries id })
]

module _ (w : Net) (signing_key : Bytes) (now : ℕ) where
  -- The arm of `handle_found_record` for a response with a number.
  unfoldable pub found_while_probing :
      ℕ → ℕ → Option Bytes → Probing → Node → Option (MailboxState × Node)
  found_while_probing seq id value p n =
      let user_hash = user_hash_of p.pending_command in
      let queries = remove nat_order p.pending_queries id in
      if is_valid w user_hash seq value
      then try_resolve_window w signing_key now user_hash
          (record p {
            pending_queries = queries;
            found = p.found ++ (seq ∷ []);
            max_found = if ltb p.max_found seq then seq else p.max_found;
          })
          n
      else try_resolve_window w signing_key now user_hash (record p { pending_queries = queries }) n

  unfoldable pub handle_found_record :
      Bytes → Option Bytes → ℕ → MailboxState → Node → Option (MailboxState × Node)
  handle_found_record key value id idle n =
      some (
        idle,
        emit (mailbox_retrieved (or_empty (parse_user_hash_from_key key)) (optional value)) n,
      )
  handle_found_record key value id (collecting_messages s) n = some (collect_message w value s n)
  handle_found_record key value id (fetching_index p) n = elim (parse_mailbox_key key) [
    | none ↦ some (fetching_index p, n)
    | some (user_hash, seq) ↦ found_while_probing seq id value p n
  ]

  unfoldable pub handle_not_found : ℕ → MailboxState → Node → Option (MailboxState × Node)
  handle_not_found id idle n = some (idle, n)
  handle_not_found id (collecting_messages s) n = some (collect_message w none s n)
  handle_not_found id (fetching_index p) n = elim (get nat_order p.pending_queries id) [
    | none ↦ some (fetching_index p, n)
    | some seq ↦
        try_resolve_window w signing_key now (user_hash_of p.pending_command)
          (record p { pending_queries = remove nat_order p.pending_queries id }) n
  ]

  -- The arm of `handle_kad_event` for a failed `get_record`, behind the profile queries. It drops
  -- the state that `resume_pending_command` returns.
  unfoldable pub handle_get_failed :
      Option Bytes → MailboxState → Node → Option (MailboxState × Node)
  handle_get_failed key (collecting_messages s) n =
      some (idle, emit (mailbox_retrieved s.user_hash s.messages) n)
  handle_get_failed key (fetching_index p) n =
      let hash = user_hash_of p.pending_command in
      elim (resume_pending_command w signing_key now p.pending_command 0
        (record n { mailbox_indices = insert bytes_order n.mailbox_indices hash 0 })) [
          | none ↦ none
          | some (state, m) ↦ some (idle, m)
        ]
  handle_get_failed none idle n = some (idle, emit (mailbox_retrieved [] []) n)
  handle_get_failed (some key) idle n =
      some (idle, emit (mailbox_retrieved (or_empty (parse_user_hash_from_key key)) []) n)

  unfoldable pub handle_kad_event : KadEvent → MailboxState → Node → Option (MailboxState × Node)
  handle_kad_event (found_record id key value) state n =
      if is_some (parse_profile_key key) || is_some (parse_update_key key)
      then some (state, answer_profile_query id (some value) n)
      else handle_found_record key (some value) id state n
  handle_kad_event (no_additional_record id) state n =
      if is_some (get nat_order n.profile_queries id)
      then some (state, answer_profile_query id none n)
      else handle_not_found id state n
  handle_kad_event (get_failed id key) state n =
      handle_get_failed key state (answer_profile_query id none n)
  handle_kad_event (routing_updated peer) state n = some (state, emit (peer_discovered peer) n)
  handle_kad_event other_event state n = some (state, n)

  -- The start of a lazy probe.
  unfoldable pub start_probing : PendingNodeCommand → Node → Option (MailboxState × Node)
  start_probing pending n =
      let (queries, m) = fire_window w (user_hash_of pending) 1 window_size n in
      some (
        fetching_index (record {
          pending_command = pending;
          window_start = 1;
          max_found = 0;
          pending_queries = queries;
          found = [];
          deadline = now + 10;
        }),
        m,
      )

  abbrev pub keep_state : MailboxState → Option Node → Option (MailboxState × Node)
  keep_state state none = none
  keep_state state (some n) = some (state, n)

  -- The number that a node without peers gives the next message.
  unfoldable pub solo_seq : Node → Bytes → ℕ
  solo_seq n recipient_hash = elim (get_sled_max_seq n.sled recipient_hash) [
    | some s ↦ (s + 1) % u64_mod
    | none ↦ 1
  ]

  unfoldable pub handle_mailbox_store :
      Bool → Bytes → Bytes → Bytes → MailboxState → Node → Option (MailboxState × Node)
  handle_mailbox_store has_peers recipient_hash sender_hash payload state n =
      if not (is_idle state)
      then some (state, n)
      else elim (get bytes_order n.mailbox_indices recipient_hash) [
        | some current_index ↦ keep_state state (
            store_signed_envelope w signing_key recipient_hash sender_hash payload
              ((current_index + 1) % u64_mod) n)
        | none ↦
            if not has_peers
            then keep_state state (
                store_signed_envelope w signing_key recipient_hash sender_hash payload
                  (solo_seq n recipient_hash) n)
            else start_probing (pending_store recipient_hash sender_hash payload) n
      ]

  unfoldable pub handle_mailbox_retrieve :
      Bool → Bytes → MailboxState → Node → Option (MailboxState × Node)
  handle_mailbox_retrieve has_peers user_hash state n =
      if not (is_idle state)
      then some (state, n)
      else if not has_peers
      then some (emit_empty_mailbox user_hash n)
      else elim (get bytes_order n.mailbox_indices user_hash) [
        | some index ↦
            if index == 0
            then some (emit_empty_mailbox user_hash n)
            else some (start_collecting_messages w now user_hash index n)
        | none ↦ start_probing (pending_retrieve user_hash) n
      ]

  -- A lookup of a profile or of a token.
  unfoldable pub start_lookup : Bytes → ℕ → Node → Node
  start_lookup key resp n =
      let (qid, m) = query w key n in
      record m { profile_queries = insert nat_order m.profile_queries qid resp }

  unfoldable pub handle_command :
      Bool → NodeCommand → MailboxState → Node → Option (MailboxState × Node)
  handle_command has_peers (NodeCommand.dial addr) state n = some (state, call (Call.dial addr) n)
  handle_command has_peers (mailbox_store recipient_hash sender_hash payload) state n =
      handle_mailbox_store has_peers recipient_hash sender_hash payload state n
  handle_command has_peers (profile_store index blob) state n =
      some (state, call (put_record (profile_key index) blob) n)
  handle_command has_peers (profile_lookup index resp) state n =
      some (state, start_lookup (profile_key index) resp n)
  handle_command has_peers (profile_token_store index token) state n =
      some (state, call (put_record (update_key index) token) n)
  handle_command has_peers (profile_token_lookup index resp) state n =
      some (state, start_lookup (update_key index) resp n)
  handle_command has_peers (mailbox_retrieve user_hash) state n =
      handle_mailbox_retrieve has_peers user_hash state n
  handle_command has_peers (NodeCommand.subscribe topic) state n =
      some (state, call (Call.subscribe topic) n)
  handle_command has_peers (NodeCommand.publish topic bytes) state n =
      some (state, call (Call.publish topic bytes) n)
  handle_command has_peers NodeCommand.bootstrap state n = some (state, call Call.bootstrap n)

  -- What the event loop does before a command: the index of a mailbox comes from the local backup,
  -- if that has records of it.
  unfoldable pub seed_index : Bytes → MailboxState → Node → Node
  seed_index hash state n =
      if is_idle state && not (contains_key bytes_order n.mailbox_indices hash)
      then elim (get_sled_max_seq n.sled hash) [
        | some max_seq ↦ record n {
          mailbox_indices = insert bytes_order n.mailbox_indices hash max_seq;
        }
        | none ↦ n
      ]
      else n

  unfoldable pub seed_command : NodeCommand → MailboxState → Node → Node
  seed_command (mailbox_store recipient_hash sender_hash payload) state n =
      seed_index recipient_hash state n
  seed_command (mailbox_retrieve user_hash) state n = seed_index user_hash state n
  seed_command _ state n = n

  -- The event loop's arm for a command, with a channel of events that has room behind it or not.
  unfoldable pub run_command :
      Bool → Bool → NodeCommand → MailboxState → Node → Option (MailboxState × Node)
  run_command has_room has_peers cmd state n =
      elim (handle_command has_peers cmd state (seed_command cmd state n)) [
        | none ↦ none
        | some (state, m) ↦ some (check_state_timeout now has_room state m)
      ]
