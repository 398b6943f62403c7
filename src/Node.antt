-- ===== src/Node.antt =====
-- server/src/p2p/node.rs: the state of the P2P node's mailbox state machine, what it asks of the
-- network and what it tells the gateway. The handlers are in Store, Probe, Collect and Handlers;
-- `none` is a panic of the node's task. A `HashMap` is a map in the order of its keys.
pub mod Store
pub mod Probe
pub mod Collect
pub mod Handlers
pub mod Backlog
pub mod Indices
pub mod Panic
pub mod Windows
pub mod Delivery
pub mod Redial
pub mod Dials
pub mod Overwrites
use Prim.Native.Nat.{compare, Ordering}
use vurn_server.Prelude.{
  ℕ, suc, ◌+◌, ◌^◌, ◌≡◌, refl, Bool, true, false, Option, some, none, List, [], ◌∷◌, ◌++◌, arith,
  Bool-cases,
}
use vurn_server.Prelude.Bytes.{Bytes}
use vurn_server.Prelude.SortedMap.{Order}
use vurn_server.Dht.{Net}
use vurn_server.Mailbox.{Tree}

abbrev pub window_size : ℕ
window_size = 10

abbrev pub u64_mod : ℕ
u64_mod = 2 ^ 64

pub nat_cmp-eq : (a b : ℕ) → compare a b ≡ Ordering.eq → a ≡ b
nat_cmp-eq a b h = ground arith

pub nat_cmp_refl : (a : ℕ) → compare a a ≡ Ordering.eq
nat_cmp_refl a = ground arith

abbrev pub nat_order : Order ℕ
nat_order = record { cmp = compare; cmp-eq = nat_cmp-eq; cmp-refl = nat_cmp_refl }

pub data NodeEvent : Type 0 where
  message_received : Bytes → Bytes → Bytes → NodeEvent
  mailbox_retrieved : Bytes → List Bytes → NodeEvent
  peer_discovered : Bytes → NodeEvent
  listening_on : Bytes → NodeEvent

-- A `oneshot` channel is a number.
pub data NodeCommand : Type 0 where
  mailbox_store : Bytes → Bytes → Bytes → NodeCommand
  mailbox_retrieve : Bytes → NodeCommand
  dial : Bytes → NodeCommand
  subscribe : Bytes → NodeCommand
  publish : Bytes → Bytes → NodeCommand
  bootstrap : NodeCommand
  profile_store : Bytes → Bytes → NodeCommand
  profile_lookup : Bytes → ℕ → NodeCommand
  profile_token_store : Bytes → Bytes → NodeCommand
  profile_token_lookup : Bytes → ℕ → NodeCommand

pub data PendingNodeCommand : Type 0 where
  -- recipient hash, sender hash and payload
  pending_store : Bytes → Bytes → Bytes → PendingNodeCommand
  pending_retrieve : Bytes → PendingNodeCommand

unfoldable pub user_hash_of : PendingNodeCommand → Bytes
user_hash_of (pending_store recipient_hash sender_hash payload) = recipient_hash
user_hash_of (pending_retrieve user_hash) = user_hash

-- The fields of `FetchingIndex` and of `CollectingMessages`
pub record Probing : Type 0 where
  pub pending_command : PendingNodeCommand
  pub window_start : ℕ
  pub max_found : ℕ
  pub pending_queries : List (ℕ × ℕ)
  pub found : List ℕ
  pub deadline : ℕ

pub record Collecting : Type 0 where
  pub user_hash : Bytes
  pub messages : List Bytes
  pub remaining : List ℕ
  pub deadline : ℕ

pub data MailboxState : Type 0 where
  idle : MailboxState
  fetching_index : Probing → MailboxState
  collecting_messages : Collecting → MailboxState

unfoldable pub is_idle : MailboxState → Bool
is_idle idle = true
is_idle _ = false

-- A call of the network's behaviours.
pub data Call : Type 0 where
  put_record : Bytes → Bytes → Call
  get_record : Bytes → Call
  dial : Bytes → Call
  subscribe : Bytes → Call
  publish : Bytes → Bytes → Call
  bootstrap : Call

-- What the handlers share: the indices, the mailbox tree of the database, the pending profile
-- queries, and, in their order, the calls of the network, the events and the replies on `oneshot`
-- channels. `queries` counts the calls of `get_record`.
pub record Node : Type 0 where
  pub mailbox_indices : List (Bytes × ℕ)
  pub sled : Tree
  pub profile_queries : List (ℕ × ℕ)
  pub queries : ℕ
  pub calls : List Call
  pub events : List NodeEvent
  pub replies : List (ℕ × Option Bytes)

abbrev pub call : Call → Node → Node
call x n = record n { calls = n.calls ++ (x ∷ []) }

abbrev pub emit : NodeEvent → Node → Node
emit e n = record n { events = n.events ++ (e ∷ []) }

abbrev pub reply : ℕ → Option Bytes → Node → Node
reply resp value n = record n { replies = n.replies ++ ((resp, value) ∷ []) }

-- `get_record`, with the id that the network gave to the query.
abbrev pub query : Net → Bytes → Node → ℕ × Node
query w key n = (w.query_id n.queries, call (get_record key) (record n { queries = suc n.queries }))
