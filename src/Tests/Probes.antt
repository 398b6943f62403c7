-- ===== src/Tests/Probes.antt =====
-- The theorems on probing and on retrievals of the node at concrete inputs.
use vurn_server.Prelude.{
  ℕ, ◌≡◌, ◌↔◌, refl, true, Option, none, some, List, [], ◌∷◌, ◌++◌, arith, replicate,
}
use vurn_server.Prelude.Bytes.{Bytes}
use vurn_server.Dht.{DhtEnvelope, encode_mailbox_message, verify_envelope, build_verify_buffer}
use vurn_server.Node.{
  Node, idle, fetching_index, Probing, pending_retrieve, mailbox_store, mailbox_retrieved,
}
use vurn_server.Node.Probe.{waiting, gap, complete, scan}
use vurn_server.Node.Collect.{
  start_collecting_messages, collect_message, collect_next, range, is_valid, collected,
}
use vurn_server.Node.Handlers.{get_failed, handle_kad_event, run_command}
use vurn_server.Node.Windows.{WaitsAt, GapAt, AllFound, scan_iff}
use vurn_server.Node.Overwrites.{IsPutFirst, failed_probe_overwrites}
use vurn_server.Node.Delivery.{collect_all, Reports, collect_all-start_collecting_messages}
use vurn_server.Tests.Toy.{toy_net, toy_net-NetLaws, encode_envelope}
use vurn_server.Tests.Server.{hello, key, user, node, encodes}

-- The first two numbers of a window were found, and the fourth one is pending.
abbrev two : List ℕ
two = 1 ∷ 2 ∷ []

abbrev fourth : List (ℕ × ℕ)
fourth = (5, 4) ∷ []

scan_iff_example :
    ((scan 10 1 fourth two ≡ waiting) ↔ ((i : ℕ) × WaitsAt 10 1 fourth two i))
    × ((i : ℕ) → (scan 10 1 fourth two ≡ gap i) ↔ GapAt 10 1 fourth two i)
    × ((scan 10 1 fourth two ≡ complete) ↔ AllFound 10 1 fourth two)
scan_iff_example = scan_iff 10 1 fourth two

stops : scan 10 1 fourth two ≡ gap 3
unfolding scan
stops = refl

-- An empty mailbox stops at its first number.
stops_at_start : scan 10 1 [] [] ≡ gap 1
unfolding scan
stops_at_start = refl

-- A probe for a retrieval that has found two messages.
abbrev probing : Probing
probing = record {
  pending_command = pending_retrieve user;
  window_start = 1;
  max_found = 2;
  pending_queries = (5, 3) ∷ [];
  found = two;
  deadline = 10;
}

failed_probe_overwrites_example :
    (m m' : Node) × (handle_kad_event toy_net key 0
        (get_failed 5 none)
        (fetching_index probing)
        node
      ≡ some (idle, m))
    × (m.events ≡ node.events ++ (mailbox_retrieved user [] ∷ []))
    × (run_command toy_net key 1 true true (mailbox_store user hello hello) idle m
        ≡ some (idle, m'))
    × IsPutFirst toy_net user (encode_mailbox_message hello hello) m m'
failed_probe_overwrites_example =
    failed_probe_overwrites toy_net-NetLaws key 0 1 true true 5 none user hello hello probing node
      refl (omega arith) encodes

-- A record of the number 2, which is authentic, and one of another number.
abbrev envelope_of : ℕ → DhtEnvelope
envelope_of seq = record {
  payload = hello;
  seq = seq;
  sender_pubkey = replicate 32 1;
  signature = replicate 64 2;
}

abbrev answers : List (Option Bytes)
answers = some (encode_envelope (envelope_of 2)) ∷ some (encode_envelope (envelope_of 4)) ∷ []

collect_all-start_collecting_messages_example :
    (m : Node) × (messages : List Bytes) × (collect_all toy_net
        (none ∷ answers)
        (start_collecting_messages toy_net 0 user 3 node).0
        (start_collecting_messages toy_net 0 user 3 node).1
      ≡ (idle, m))
    × (m.sled ≡ node.sled)
    × Reports toy_net user 1 (none ∷ answers) messages
    × (m.events ≡ node.events ++ (mailbox_retrieved user messages ∷ []))
collect_all-start_collecting_messages_example =
    collect_all-start_collecting_messages toy_net 0 user none answers node

only_the_second :
    (collect_all toy_net
      (none ∷ answers)
      (start_collecting_messages toy_net 0 user 3 node).0
      (start_collecting_messages toy_net 0 user 3 node).1).1.events
    ≡ node.events ++ (mailbox_retrieved user (encode_envelope (envelope_of 2) ∷ []) ∷ [])
unfolding collect_all start_collecting_messages collect_message range collect_next collected
    is_valid verify_envelope build_verify_buffer
only_the_second = refl
