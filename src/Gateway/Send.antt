-- ===== src/Gateway/Send.antt =====
-- server/src/ws.rs: sending to the channels of a client and to the node, and the hashes of the
-- payloads that were delivered. A set is the list of its elements.
use vurn_server.Prelude.{
  ℕ, ◌/◌, Bool, true, false, ◌||◌, Option, none, some, List, [], ◌∷◌, ◌++◌, leb, ◌==◌,
  if◌then◌else◌, length, drop,
}
use vurn_server.Prelude.Bytes.{Bytes}
use vurn_server.Prelude.SortedMap.{get, insert}
use vurn_server.Mailbox.{bytes_order, sort_unstable, save_delivered_hashes}
use vurn_server.Node.{NodeCommand}
use vurn_server.Gateway.{Host, CommandSender, Gateway, max_delivered_hashes}

unfoldable pub contains : List ℕ → ℕ → Bool
contains [] x = false
contains (y ∷ ys) x = y == x || contains ys x

-- `HashSet::insert`
unfoldable pub insert_hash : List ℕ → ℕ → List ℕ
insert_hash hashes hash = if contains hashes hash then hashes else hash ∷ hashes

-- `tx.send(payload)`: whether it was accepted.
unfoldable pub send : ℕ → Bytes → Gateway → Bool × Gateway
send tx payload g =
    if contains g.closed tx
    then (false, g)
    else (true, record g { sent = g.sent ++ ((tx, payload) ∷ []) })

-- `for tx in senders`: whether one of them accepted.
unfoldable pub send_all : List ℕ → Bytes → Gateway → Bool × Gateway
send_all [] payload g = (false, g)
send_all (tx ∷ senders) payload g =
    let (ok, g1) = send tx payload g in
    let (others, g2) = send_all senders payload g1 in (ok || others, g2)

-- `cmd_tx.send(cmd)`
unfoldable pub send_to : NodeCommand → CommandSender → Bool × CommandSender
send_to cmd tx =
    if tx.is_dropped
    then (false, tx)
    else (true, record tx { commands = tx.commands ++ (cmd ∷ []) })

-- `if let Some(ref cmd_tx) = map.p2p_cmd_tx { let _ = cmd_tx.send(cmd).await; }`
unfoldable pub notify : NodeCommand → Gateway → Gateway
notify cmd g = elim g.p2p_cmd_tx [
  | none ↦ g
  | some tx ↦ record g { p2p_cmd_tx = some (send_to cmd tx).1 }
]

abbrev pub or_default : Option (List ℕ) → List ℕ
or_default none = []
or_default (some hashes) = hashes

-- `map.delivered_hashes.get(user).map(|s| s.contains(&hash)).unwrap_or(false)`
unfoldable pub is_delivered : Gateway → Bytes → ℕ → Bool
is_delivered g user hash = contains (or_default (get bytes_order g.delivered_hashes user)) hash

-- `map.delivered_hashes.entry(user).or_default().insert(hash)`
unfoldable pub mark_delivered : Bytes → ℕ → Gateway → Gateway
mark_delivered user hash g = record g {
  delivered_hashes =
      insert bytes_order g.delivered_hashes user
        (insert_hash (or_default (get bytes_order g.delivered_hashes user)) hash);
}

-- The part of `check_and_mark_delivered` that keeps the bound.
unfoldable pub evict : List ℕ → List ℕ
evict hashes =
    if leb max_delivered_hashes (length hashes)
    then drop (max_delivered_hashes / 2) (sort_unstable hashes)
    else hashes

module _ (x : Host) where
  unfoldable pub check_and_mark_delivered :
      List (Bytes × List ℕ) → Bytes → Bytes → Bool × List (Bytes × List ℕ)
  check_and_mark_delivered delivered user_hash payload =
      let hash = x.payload_hash payload in
      let hashes = or_default (get bytes_order delivered user_hash) in
      if contains hashes hash
      then (false, delivered)
      else (true, insert bytes_order delivered user_hash (insert_hash (evict hashes) hash))

  unfoldable pub persist_delivered_set : Bytes → Gateway → Gateway
  persist_delivered_set user_hash g =
      if g.mailbox
      then elim (get bytes_order g.delivered_hashes user_hash) [
        | none ↦ g
        | some hashes ↦ record g {
          manager = save_delivered_hashes x.net user_hash hashes g.manager;
        }
      ]
      else g
