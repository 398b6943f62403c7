-- ===== src/Tests/Profiles.antt =====
-- The theorems on profiles, limits, marks and steps of the gateway at concrete inputs.
use vurn_server.Prelude.{
  ℕ, ◌+◌, ◌-◌, ◌*◌, ◌≤◌, ◌≡◌, refl, some, List, [], ◌∷◌, ◌++◌, arith, length, replicate, inr,
}
use vurn_server.Prelude.Bytes.{Bytes, bytes_eq, bytes_compare, bytes_compare-eq}
use vurn_server.Prelude.SortedMap.{get, insert, get-insert_self, get-insert_ne}
use vurn_server.Dht.{profile_key, update_key}
use vurn_server.Mailbox.{Tree, bytes_order}
use vurn_server.Gateway.{nano, new_bucket, profile_success}
use vurn_server.Gateway.Send.{or_default, check_and_mark_delivered}
use vurn_server.Gateway.Profile.{Answers, answered, timed_out, register}
use vurn_server.Gateway.Registry.{Records, view, serve, serve-register_unanswered}
use vurn_server.Gateway.Takeover.{
  Request, NonePresents, spec_all, serve_all, serve_all_refines, takeover_refused,
}
use vurn_server.Gateway.Limits.{consume_all, new_bucket_bound}
use vurn_server.Gateway.Marks.{IsBounded, check_and_mark_delivered-IsBounded}
use vurn_server.Gateway.Owned.{IsOwned}
use vurn_server.Gateway.Steps.{Reachable-IsOwned, stepped, joined}
use vurn_server.Gateway.Connection.{push_sender}
use vurn_server.Tests.Gateway.{toy_host, start, alice, start_reachable}

-- Records in a map.
abbrev pub tree_records : Records Tree
tree_records = record {
  find = get bytes_order;
  put = insert bytes_order;
  find-put_self = get-insert_self bytes_order;
  find-put_ne = λ d key other value n.
      get-insert_ne bytes_order d key other value (λ e. n (bytes_compare-eq other key e));
}

abbrev index : Bytes
index = replicate 32 1

abbrev hello : Bytes
hello = 104 ∷ 105 ∷ []

-- Bob has registered with the token 9.
abbrev registered : Tree
registered = (update_key index, 9 ∷ []) ∷ (profile_key index, hello) ∷ []

-- A registration of the same name, and an update with a wrong token.
abbrev requests : List Request
requests =
    record { opcode = 1; payload = index ++ hello; random = 8 ∷ [] }
    ∷ record { opcode = 4; payload = index ++ (replicate 32 2 ++ hello); random = [] }
    ∷ []

serve_all_refines_example :
    let (responses, f) = spec_all requests (view tree_records registered) in
    let (answers, d) = serve_all tree_records start requests registered in
    (answers ≡ responses) × (view tree_records d ≡ f)
serve_all_refines_example = serve_all_refines tree_records start requests registered

registered-view : view tree_records registered index ≡ (some hello, some (9 ∷ []))
unfolding view get profile_key update_key bytes_compare
registered-view = refl

none_presents : NonePresents index (9 ∷ []) requests
unfolding bytes_eq
none_presents = (refl, (refl, tt))

takeover_refused_example :
    view tree_records (serve_all tree_records start requests registered).1 index
    ≡ (some hello, some (9 ∷ []))
takeover_refused_example =
    takeover_refused tree_records start requests registered index registered-view none_presents

-- The look-up of the token is not answered in time.
abbrev late : Answers
late = record {
  profile = answered (some hello);
  token = timed_out;
  random = 8 ∷ [];
  profile_channel = 0;
  token_channel = 1;
}

serve-register_unanswered_example :
    let (answer, d) = serve tree_records (register late index (1 ∷ [])) registered in
    (answer ≡ some (profile_success ++ (8 ∷ [])))
    × (view tree_records d index ≡ (some (1 ∷ []), some (8 ∷ [])))
serve-register_unanswered_example =
    serve-register_unanswered tree_records registered index [] late (1 ∷ []) (inr refl)

-- Two requests, half a second apart.
abbrev times : List (ℕ × ℕ)
times = (0, 1) ∷ (500000000, 500000001) ∷ []

new_bucket_bound_example :
    let (count, b) = consume_all times (new_bucket 0 10 10) in
    count * nano ≤ 10 * nano + (b.last_refill - 0) * 10
new_bucket_bound_example = new_bucket_bound 0 10 10 times (omega arith)

no_marks : IsBounded []
unfolding get
no_marks user = omega arith

check_and_mark_delivered-IsBounded_example :
    length (or_default (get bytes_order (check_and_mark_delivered toy_host [] alice hello).1 alice))
    ≤ 4096
check_and_mark_delivered-IsBounded_example =
    check_and_mark_delivered-IsBounded toy_host [] alice hello no_marks alice

Reachable-IsOwned_example : IsOwned (push_sender alice start)
Reachable-IsOwned_example = Reachable-IsOwned toy_host (stepped start_reachable (joined alice refl))
