-- ===== src/Gateway/Profile.antt =====
-- server/src/ws.rs: the operations on profiles. What the node answers is an argument.
use vurn_server.Prelude.{
  ℕ, ◌%◌, not, Option, none, some, [], ◌∷◌, ◌++◌, ltb, ◌==◌, if◌then◌else◌, length, take, drop,
  is_some,
}
use vurn_server.Prelude.Bytes.{Bytes, bytes_eq, u16_le}
use vurn_server.Prelude.SortedMap.{get}
use vurn_server.Mailbox.{bytes_order}
use vurn_server.Node.{profile_store, profile_lookup, profile_token_store, profile_token_lookup}
use vurn_server.Gateway.{Gateway, CommandSender, profile_success, profile_occupied}
use vurn_server.Gateway.Send.{send_all, send_to}

-- What `timeout(10 s, rx)` returns: the node's answer, or that it dropped the channel, or that it
-- did not answer in time.
pub data Answer : Type 0 where
  answered : Option Bytes → Answer
  channel_dropped timed_out : Answer

abbrev pub or_none : Answer → Option Bytes
or_none (answered blob) = blob
or_none channel_dropped = none
or_none timed_out = none

-- The answers to a handler's lookups, the random token and the numbers of its `oneshot` channels.
pub record Answers : Type 0 where
  pub profile : Answer
  pub token : Answer
  pub random : Bytes
  pub profile_channel : ℕ
  pub token_channel : ℕ

-- A handler on the command sender: what it answers, and the sender.
abbrev pub Handled : Type 0
Handled = Option Bytes × CommandSender

unfoldable pub lookup_update_token : Answers → Bytes → CommandSender → Handled
lookup_update_token a index tx =
    let (ok, tx1) = send_to (profile_token_lookup index a.token_channel) tx in
    if ok then (or_none a.token, tx1) else (none, tx1)

-- Step 2 of `handle_register_profile`.
unfoldable pub store_profile : Answers → Bytes → Bytes → CommandSender → Handled
store_profile a index blob tx =
    let (ok, tx1) = send_to (profile_store index blob) tx in
    if not ok
    then (none, tx1)
    else let (ok2, tx2) = send_to (profile_token_store index a.random) tx1 in
      if not ok2 then (none, tx2) else (some (profile_success ++ a.random), tx2)

unfoldable pub register : Answers → Bytes → Bytes → CommandSender → Handled
register a index blob tx =
    let (ok, tx1) = send_to (profile_lookup index a.profile_channel) tx in
    if not ok
    then (none, tx1)
    else if is_some (or_none a.profile)
    then (let (token, tx2) = lookup_update_token a index tx1 in
        if is_some token then (some profile_occupied, tx2) else store_profile a index blob tx2)
    else store_profile a index blob tx1

abbrev pub lookup_response : Option Bytes → Bytes
lookup_response none = 0xFF ∷ 1 ∷ 0 ∷ []
lookup_response (some blob) = 0xFE ∷ 1 ∷ (u16_le (length blob % 65536) ++ blob)

unfoldable pub lookup_profile : Answers → Bytes → CommandSender → Handled
lookup_profile a index tx =
    let (ok, tx1) = send_to (profile_lookup index a.profile_channel) tx in
    if not ok then (none, tx1) else (some (lookup_response (or_none a.profile)), tx1)

-- The answer to an update that presents a token, by the token that is stored.
unfoldable pub checked_update : Option Bytes → Bytes → Bytes → Bytes → CommandSender → Handled
checked_update none index presented new_blob tx = (some (0xFF ∷ 3 ∷ 2 ∷ []), tx)
checked_update (some token) index presented new_blob tx =
    let (ok, tx1) = send_to (profile_store index new_blob) tx in
    if not (bytes_eq token presented)
    then (some (0xFF ∷ 3 ∷ 1 ∷ []), tx)
    else if not ok
    then (none, tx1)
    else (some (0xFE ∷ 3 ∷ 0 ∷ []), tx1)

unfoldable pub update_profile : Answers → Bytes → Bytes → Bytes → CommandSender → Handled
update_profile a index presented new_blob tx =
    let (stored, tx1) = lookup_update_token a index tx in
    checked_update stored index presented new_blob tx1

-- `let cmd_tx = cmd_tx?`, and a handler on it.
unfoldable pub with_cmd_tx : (CommandSender → Handled) → Gateway → Option Bytes × Gateway
with_cmd_tx handler g = elim g.p2p_cmd_tx [
  | none ↦ (none, g)
  | some tx ↦ let (response, tx1) = handler tx in (response, record g { p2p_cmd_tx = some tx1 })
]

unfoldable pub handle_register_profile : Answers → Bytes → Gateway → Option Bytes × Gateway
handle_register_profile a payload g =
    if ltb (length payload) 32
    then (none, g)
    else with_cmd_tx (register a (take 32 payload) (drop 32 payload)) g

unfoldable pub handle_lookup_profile : Answers → Bytes → Gateway → Option Bytes × Gateway
handle_lookup_profile a payload g =
    if ltb (length payload) 32
    then (none, g)
    else with_cmd_tx (lookup_profile a (take 32 payload)) g

unfoldable pub handle_unregister_profile : Bytes → Gateway → Option Bytes × Gateway
handle_unregister_profile payload g = (some (0xFF ∷ 2 ∷ 0 ∷ []), g)

unfoldable pub handle_update_profile : Answers → Bytes → Gateway → Option Bytes × Gateway
handle_update_profile a payload g =
    if ltb (length payload) 64
    then (none, g)
    else if length (drop 64 payload) == 0
    then (none, g)
    else with_cmd_tx
        (update_profile a (take 32 payload) (take 32 (drop 32 payload)) (drop 64 payload)) g

-- The `match opcode`; an unknown one is not answered either.
unfoldable pub dispatch_profile : Answers → ℕ → Bytes → Gateway → Option Bytes × Gateway
dispatch_profile a opcode payload g =
    if opcode == 1
    then handle_register_profile a payload g
    else if opcode == 2
    then handle_lookup_profile a payload g
    else if opcode == 3
    then handle_unregister_profile payload g
    else if opcode == 4
    then handle_update_profile a payload g
    else (none, g)

-- `if let Some(data) = response`
unfoldable pub respond : Bytes → Option Bytes → Gateway → Gateway
respond client_id none g = g
respond client_id (some response) g = elim (get bytes_order g.clients client_id) [
  | none ↦ g
  | some senders ↦ (send_all senders response g).1
]

unfoldable pub handle_profile_operation : Answers → Bytes → ℕ → Bytes → Gateway → Gateway
handle_profile_operation a client_id opcode payload g =
    let (response, h) = dispatch_profile a opcode payload g in respond client_id response h
