-- ===== src/Tests/Server.antt =====
-- The theorems on server/src/ at concrete inputs.
use vurn_server.Prelude.{
  ℕ, ◌+◌, ◌^◌, ◌<◌, ◌≤◌, ◌≡◌, ◌↔◌, ◌⊎◌, refl, true, false, not, ◌||◌, is_some, Option, none, some,
  [], ◌∷◌, arith, length, replicate, ok,
}
use vurn_server.Prelude.Bytes.{Bytes, bytes_eq, bytes_compare}
use vurn_server.Prelude.SortedMap.{get}
use vurn_server.Dht.{
  DhtEnvelope, sign_envelope, verify_envelope, build_verify_buffer, encode_mailbox_message,
}
use vurn_server.Dht.Envelope.{verify_envelope-sign_envelope}
use vurn_server.Mailbox.{Manager, bytes_order, read_sled_backup}
use vurn_server.Mailbox.Backup.{read_sled_backup-store_signed_envelope}
use vurn_server.Node.{Node, MailboxState, idle, is_idle}
use vurn_server.Node.Store.{sled_key, max_seq, new_envelope, store_signed_envelope}
use vurn_server.Node.Handlers.{handle_mailbox_store}
use vurn_server.Node.Backlog.{handle_mailbox_store-keeps}
use vurn_server.Node.Indices.{store_signed_envelope-covers}
use vurn_server.Node.Panic.{handle_mailbox_store-none}
use vurn_server.Tests.Toy.{fit, toy_net, toy_net-NetLaws, encode_envelope}

abbrev pub hello : Bytes
hello = 104 ∷ 105 ∷ []

abbrev pub key : Bytes
key = 6 ∷ []

abbrev pub user : Bytes
user = replicate 32 7

abbrev envelope : DhtEnvelope
envelope = new_envelope toy_net key hello hello 3

envelope_own : envelope.sender_pubkey ≡ fit 32 key
unfolding new_envelope
envelope_own = refl

verify_envelope-sign_envelope_example :
    (e : DhtEnvelope) × (sign_envelope toy_net envelope key user ≡ some e)
    × (e.payload ≡ envelope.payload)
    × (e.seq ≡ envelope.seq)
    × (verify_envelope toy_net e user ≡ ok tt)
verify_envelope-sign_envelope_example =
    verify_envelope-sign_envelope toy_net-NetLaws envelope key user envelope_own (omega arith)

-- A node whose local backup has message 4 of the user.
abbrev pub node : Node
node = record {
  mailbox_indices = [];
  sled = (sled_key user 4, hello) ∷ [];
  profile_queries = [];
  queries = 0;
  calls = [];
  events = [];
  replies = [];
}

no_index :
    (i : ℕ)
    → get bytes_order node.mailbox_indices user ≡ some i
    → (max_seq user node.sled ≤ i) × (i + 1 < 2 ^ 64)
unfolding get
no_index i e = cc

max_seq_is : max_seq user node.sled ≡ 4
unfolding max_seq bytes_eq
max_seq_is = refl

abbrev or_node : Option (MailboxState × Node) → MailboxState × Node
or_node none = (idle, node)
or_node (some r) = r

abbrev stored : MailboxState × Node
stored = or_node (handle_mailbox_store toy_net key 0 false user hello hello idle node)

stored_is : handle_mailbox_store toy_net key 0 false user hello hello idle node ≡ some stored
unfolding handle_mailbox_store is_idle get store_signed_envelope sign_envelope new_envelope
    build_verify_buffer
stored_is = refl

has_message : get bytes_order node.sled (sled_key user 4) ≡ some hello
unfolding get bytes_compare
has_message = refl

handle_mailbox_store-keeps_example : get bytes_order stored.1.sled (sled_key user 4) ≡ some hello
handle_mailbox_store-keeps_example =
    handle_mailbox_store-keeps toy_net key 0 false user hello hello node (sled_key user 4) no_index
      (omega (arith, max_seq_is)) stored_is has_message

alone : is_some (get bytes_order node.mailbox_indices hello) || not false ≡ true
unfolding get
alone = refl

handle_mailbox_store-none_example :
    (handle_mailbox_store toy_net key 0 false hello user user idle node ≡ none)
    ↔ (length hello < 32)
handle_mailbox_store-none_example =
    handle_mailbox_store-none toy_net key 0 false hello user user node alone

abbrev pub manager : Manager
manager = record { mailbox = []; delivered = []; pending_retrievals = [] }

pub encodes : (e : DhtEnvelope) → (bytes : Bytes) × (toy_net.serialize_envelope e ≡ some bytes)
encodes e = (encode_envelope e, refl)

read_sled_backup-store_signed_envelope_example :
    (n : Node) × (store_signed_envelope toy_net key user hello hello 5 node ≡ some n)
    × (get bytes_order
          (read_sled_backup toy_net user (record manager { mailbox = n.sled })).0
          (sled_key user 5)
        ≡ some (encode_mailbox_message hello hello))
read_sled_backup-store_signed_envelope_example =
    read_sled_backup-store_signed_envelope toy_net-NetLaws key user hello hello 5 node manager
      (omega arith) encodes

kept : max_seq user node.sled ≤ 5
kept = omega (arith, max_seq_is)

abbrev or_stored : Option Node → Node
or_stored none = node
or_stored (some m) = m

abbrev after_store : Node
after_store = or_stored (store_signed_envelope toy_net key user hello hello 5 node)

store_is : store_signed_envelope toy_net key user hello hello 5 node ≡ some after_store
unfolding store_signed_envelope sign_envelope new_envelope build_verify_buffer
store_is = refl

store_signed_envelope-covers_example :
    (after_store ≡ node)
    ⊎ ((get bytes_order after_store.mailbox_indices user ≡ some 5)
        × (max_seq user after_store.sled ≤ 5))
store_signed_envelope-covers_example =
    store_signed_envelope-covers toy_net key user hello hello 5 node (omega arith) kept store_is
