-- ===== src/Tests/Gateway.antt =====
-- The theorems on the gateway's messages at concrete inputs.
use mathlib.Core.List.{Memᴰ}
use vurn_server.Prelude.{
  ℕ, ◌≡◌, ◌≢◌, ◌⊎◌, refl, ap, true, false, some, none, List, [], ◌∷◌, ◌++◌, arith, length,
  replicate, inl,
}
use vurn_server.Prelude.Bytes.{Bytes, bytes_compare, bytes_eq}
use vurn_server.Prelude.SortedMap.{get, insert}
use vurn_server.Dht.{DhtEnvelope, encode_mailbox_message}
use vurn_server.Mailbox.{Manager, bytes_order, load_delivered_hashes, read_sled_backup, remove_all}
use vurn_server.Node.{Node, mailbox_store, idle, message_received}
use vurn_server.Node.Handlers.{run_command}
use vurn_server.Gateway.{Host, HostLaws, Gateway, CommandSender, default}
use vurn_server.Gateway.Send.{contains, is_delivered}
use vurn_server.Gateway.Relay.{check_rate_limit_store, relay, relay_or_p2p, parse_frame}
use vurn_server.Gateway.Connection.{connect, disconnect, drain_records, push_sender}
use vurn_server.Gateway.Events.{handle_p2p_event}
use vurn_server.Gateway.NoLoss.{IsRelayed, relay_or_p2p_delivers}
use vurn_server.Gateway.Drain.{
  keys_of, payloads_in, all_copies, fresh, marks, marked_keys, drain_records_unreachable,
}
use vurn_server.Gateway.Reconnect.{channels, connect_delivers}
use vurn_server.Gateway.Offline.{offline_delivery}
use vurn_server.Gateway.Once.{sent_hashes, connect_skips_marked}
use vurn_server.Gateway.Stale.{gossip_lost}
use vurn_server.Gateway.Erasure.{connect_erases}
use vurn_server.Gateway.Owned.{Listed}
use vurn_server.Gateway.Steps.{initial, Reachable, started, stepped, joined}
use vurn_server.Gateway.Private.{channels_of, relay_or_p2p_private}
use vurn_server.Tests.Toy.{toy_net, toy_net-NetLaws, encode_envelope}

-- The hash of a payload is its length, and the hex of bytes is a mark and the bytes.
abbrev pub toy_host : Host
toy_host = record {
  net = toy_net;
  payload_hash = length;
  hex_encode = λ b. 120 ∷ b;
  hex_decode = λ b. elim b [ [] ↦ none | c ∷ rest ↦ some rest ];
}

abbrev pub alice : Bytes
alice = 1 ∷ 2 ∷ []

abbrev bob : Bytes
bob = replicate 32 7

abbrev hello : Bytes
hello = 104 ∷ 105 ∷ []

abbrev empty_manager : Manager
empty_manager = record { mailbox = []; delivered = []; pending_retrievals = [] }

abbrev open_tx : CommandSender
open_tx = record { is_dropped = false; commands = [] }

-- The gateway before anybody has connected.
abbrev pub start : Gateway
start = record {
  clients = [];
  p2p_cmd_tx = some open_tx;
  p2p_connected = false;
  rate_limiters = [];
  delivered_hashes = [];
  mailbox = true;
  manager = empty_manager;
  next_channel = 0;
  closed = [];
  sent = [];
}

abbrev empty_node : Node
empty_node = record {
  mailbox_indices = [];
  sled = [];
  profile_queries = [];
  queries = 0;
  calls = [];
  events = [];
  replies = [];
}

nobody : get {V = List ℕ} bytes_order start.clients bob ≡ none
unfolding get
nobody = refl

unmarked : is_delivered start bob (length (encode_mailbox_message alice hello)) ≡ false
unfolding is_delivered get contains
unmarked = refl

unseen :
    contains
      (load_delivered_hashes toy_net bob empty_manager)
      (length (encode_mailbox_message alice hello))
    ≡ false
unfolding load_delivered_hashes get contains
unseen = refl

new_channel : contains start.closed start.next_channel ≡ false
unfolding contains
new_channel = refl

offline_delivery_example :
    let k = relay toy_host alice bob hello start in
    (ty : CommandSender) × (k.p2p_cmd_tx ≡ some ty)
    × Memᴰ (mailbox_store bob alice hello) ty.commands
    × (m : Node) × (run_command toy_net
          (6 ∷ [])
          0
          true
          false
          (mailbox_store bob alice hello)
          idle
          empty_node
        ≡ some (idle, m))
    × (q : Bytes) × (length q ≡ length (encode_mailbox_message alice hello))
    × Memᴰ
        (0, q)
        (connect toy_host 0 bob
          (record k { manager = record empty_manager { mailbox = m.sled } })).sent
offline_delivery_example =
    offline_delivery toy_host toy_net-NetLaws (6 ∷ []) 0 bob alice hello start true empty_node
      empty_manager (omega arith) (λ e. (encode_envelope e, refl)) refl refl (inl nobody) unmarked
      refl new_channel unseen

relay_or_p2p_delivers_example :
    let h = (check_rate_limit_store 5 5 alice start).1 in
    let k = relay_or_p2p toy_host 5 5 alice (encode_mailbox_message bob hello) start in
    (((check_rate_limit_store 5 5 alice start).0 ≡ false) × (k ≡ h))
    ⊎ (((check_rate_limit_store 5 5 alice start).0 ≡ true)
        × IsRelayed toy_host alice bob hello h k open_tx)
relay_or_p2p_delivers_example =
    relay_or_p2p_delivers toy_host 5 5 alice bob hello start (omega arith) (omega arith)
      (omega arith) refl refl

-- A backup with a record of the user that is no envelope.
abbrev key : Bytes
key = bob ++ (9 ∷ [])

abbrev with_record : Gateway
with_record = record start { manager = record empty_manager { mailbox = (key, 1 ∷ []) ∷ [] } }

connect_delivers_example :
    let (records, manager) = read_sled_backup toy_net bob with_record.manager in
    let k = connect toy_host 3 bob with_record in
    (k.sent
      ≡ with_record.sent
        ++ all_copies with_record.closed (channels toy_host 3 bob with_record) (
            fresh toy_host
              (load_delivered_hashes toy_net bob with_record.manager)
              (payloads_in records)))
    × (k.manager.mailbox ≡ remove_all toy_net (keys_of records) manager.mailbox)
connect_delivers_example = connect_delivers toy_host 3 bob with_record refl new_channel

-- A mark of length 5 in the saved marks, which is the hash of any payload of that length.
abbrev seen_before : Gateway
seen_before = record start {
  manager = record {
    mailbox = (key, replicate 5 1) ∷ [];
    delivered = (bob, 5 ∷ []) ∷ [];
    pending_retrievals = [];
  };
}

five_loaded : contains (load_delivered_hashes toy_net bob seen_before.manager) 5 ≡ true
unfolding load_delivered_hashes get contains bytes_compare
five_loaded = refl

connect_skips_marked_example :
    (rest : List (ℕ × Bytes)) × ((connect toy_host 0 bob seen_before).sent
      ≡ seen_before.sent ++ rest)
    × (contains (sent_hashes toy_host rest) 5 ≡ false)
connect_skips_marked_example =
    connect_skips_marked toy_host 0 bob seen_before 5 refl new_channel five_loaded

-- The user is connected through channel 0.
abbrev connected : Gateway
connected = record start { clients = (bob, 0 ∷ []) ∷ []; next_channel = 1 }

bob_sender : get bytes_order connected.clients bob ≡ some (0 ∷ [])
unfolding get bytes_compare
bob_sender = refl

still_open : contains connected.closed 0 ≡ false
unfolding contains
still_open = refl

next_open : contains connected.closed 1 ≡ false
unfolding contains
next_open = refl

toy_host-HostLaws : HostLaws toy_host
toy_host-HostLaws = record { hex_decode-hex_encode = λ b. refl; hex_nonempty = λ b n e. cc }

bob_named : bob ≢ []
bob_named e = cc

gossip_lost_example :
    let k =
      handle_p2p_event toy_host
        (message_received alice (120 ∷ bob) hello)
        (disconnect toy_host bob 0 connected) in
    (k.sent ≡ connected.sent)
    × (rest : List (ℕ × Bytes)) × ((connect toy_host 9 bob k).sent ≡ k.sent ++ rest)
    × (contains (sent_hashes toy_host rest) 2 ≡ false)
gossip_lost_example =
    gossip_lost toy_host toy_host-HostLaws 9 alice bob 0 hello connected bob_named bob_sender
      still_open refl next_open refl refl refl

-- An envelope for the user is in the backup, and a client registers with one byte of its hash.
abbrev envelope : DhtEnvelope
envelope = record {
  payload = hello;
  seq = 1;
  sender_pubkey = replicate 32 0;
  signature = replicate 64 0;
}

abbrev with_envelope : Gateway
with_envelope = record start {
  manager = record empty_manager { mailbox = (key, encode_envelope envelope) ∷ [] };
}

has_envelope : get bytes_order with_envelope.manager.mailbox key ≡ some (encode_envelope envelope)
unfolding get bytes_compare
has_envelope = refl

prefixed : bytes_eq (7 ∷ []) (7 ∷ []) ≡ true
unfolding bytes_eq
prefixed = refl

connect_erases_example :
    get bytes_order (connect toy_host 0 (7 ∷ []) with_envelope).manager.mailbox key ≡ none
connect_erases_example =
    connect_erases toy_host 0 (7 ∷ []) with_envelope key refl new_channel (omega arith) prefixed
      has_envelope refl

drain_records_unreachable_example :
    drain_records toy_host bob ((key, hello) ∷ []) start
    ≡ ((marked_keys toy_host (marks toy_host bob start) ((key, hello) ∷ []), 0), start)
drain_records_unreachable_example =
    drain_records_unreachable toy_host bob ((key, hello) ∷ []) start (inl nobody)

-- The user alice connects first.
abbrev joined_alice : Gateway
joined_alice = push_sender alice start

pub start_reachable : Reachable toy_host start
unfolding initial default
start_reachable = started empty_manager refl

alice_reachable : Reachable toy_host joined_alice
alice_reachable = stepped start_reachable (joined alice refl)

alice-Listed : Listed joined_alice.clients alice 0
unfolding push_sender get insert contains bytes_compare
alice-Listed = refl

alice-ne-bob : alice ≢ bob
alice-ne-bob e = let same = ap length e in absurd (omega (arith, same))

frame_parsed : parse_frame (32 ∷ 0 ∷ (bob ++ hello)) ≡ some (bob, hello)
unfolding parse_frame
frame_parsed = refl

relay_or_p2p_private_example :
    (rest : List (ℕ × Bytes)) × ((relay_or_p2p toy_host 0 0 alice
        (32 ∷ 0 ∷ (bob ++ hello))
        joined_alice).sent
      ≡ joined_alice.sent ++ rest)
    × (contains (channels_of rest) 0 ≡ false)
relay_or_p2p_private_example =
    relay_or_p2p_private toy_host 0 0 alice (32 ∷ 0 ∷ (bob ++ hello)) joined_alice alice 0
      alice_reachable frame_parsed alice-ne-bob alice-Listed
