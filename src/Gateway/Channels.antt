-- ===== src/Gateway/Channels.antt =====
-- server/src/ws.rs: what sending to all channels of a client does, and the marks of deliveries.
use vurn_server.Prelude.{
  ℕ, suc, ◌≤◌, ◌≡◌, refl, ap, Bool, true, false, some, List, [], ◌∷◌, ◌++◌, append-nil,
  append_assoc, arith, length, if◌then◌else◌, Bool-cases, inl, inr,
}
use vurn_server.Prelude.Bytes.{Bytes}
use vurn_server.Prelude.SortedMap.{get, get-insert_self, get-insert_cases}
use vurn_server.Mailbox.{bytes_order}
use vurn_server.Node.{NodeCommand}
use vurn_server.Gateway.{Gateway, CommandSender}
use vurn_server.Gateway.Send.{
  contains, insert_hash, send, send_all, or_default, is_delivered, mark_delivered, send_to, notify,
}

-- Whether one of the channels is open, and a copy of the payload for each that is.
unfoldable pub any_open : List ℕ → List ℕ → Bool
any_open closed [] = false
any_open closed (tx ∷ senders) = if contains closed tx then any_open closed senders else true

unfoldable pub copies : List ℕ → List ℕ → Bytes → List (ℕ × Bytes)
copies closed [] payload = []
copies closed (tx ∷ senders) payload =
    let rest = copies closed senders payload in
    if contains closed tx then rest else (tx, payload) ∷ rest

-- Sending to all channels appends one copy for each that is open, and succeeds if one is.
pub send_all_lem :
    (senders : List ℕ) (payload : Bytes) (g : Gateway)
    → send_all senders payload g
      ≡ (any_open g.closed senders, record g { sent = g.sent ++ copies g.closed senders payload })
unfolding send_all send any_open copies
send_all_lem [] payload g = rw (append-nil g.sent) refl
send_all_lem (tx ∷ senders) payload g = elim (Bool-cases (contains g.closed tx)) [
  | inl e ↦ rw (e, send_all, any_open, copies) (rw (send_all_lem senders payload g) refl)
  | inr e ↦
      rw (e, send, any_open, copies)
        (rw (send_all_lem senders payload (record g { sent = g.sent ++ ((tx, payload) ∷ []) })) (
          ap (λ sent. (true, record g { sent = sent }))
            (append_assoc g.sent ((tx, payload) ∷ []) (copies g.closed senders payload))))
]

pub copies_closed :
    (closed senders : List ℕ) (payload : Bytes)
    → any_open closed senders ≡ false
    → copies closed senders payload ≡ []
unfolding any_open copies
copies_closed closed [] payload h = refl
copies_closed closed (tx ∷ senders) payload h = ground (arith, copies_closed closed senders payload)

pub contains-insert_hash : (s : List ℕ) (h : ℕ) → contains (insert_hash s h) h ≡ true
unfolding contains insert_hash
contains-insert_hash s h = ground arith

pub insert_hash_old : (s : List ℕ) (h : ℕ) → contains s h ≡ true → insert_hash s h ≡ s
unfolding insert_hash
insert_hash_old s h e = ground arith

pub insert_hash_new : (s : List ℕ) (h : ℕ) → contains s h ≡ false → insert_hash s h ≡ h ∷ s
unfolding insert_hash
insert_hash_new s h e = ground arith

pub insert_hash-keeps :
    (s : List ℕ) (h k : ℕ) → contains s k ≡ true → contains (insert_hash s h) k ≡ true
unfolding contains insert_hash
insert_hash-keeps s h k e = ground arith

pub length-insert_hash-le : (s : List ℕ) (h : ℕ) → length (insert_hash s h) ≤ suc (length s)
unfolding insert_hash
length-insert_hash-le s h = ground arith

pub is_delivered-mark_delivered :
    (user : Bytes) (hash : ℕ) (g : Gateway)
    → is_delivered (mark_delivered user hash g) user hash ≡ true
unfolding is_delivered mark_delivered
is_delivered-mark_delivered user hash g =
    rw
      (get-insert_self bytes_order g.delivered_hashes user
        (insert_hash (or_default (get bytes_order g.delivered_hashes user)) hash))
      (contains-insert_hash _ hash)

-- A mark stays when another is made.
pub mark_delivered-keeps :
    (user : Bytes) (hash : ℕ) (g : Gateway) (other : Bytes) (old : ℕ)
    → is_delivered g other old ≡ true
    → is_delivered (mark_delivered user hash g) other old ≡ true
unfolding is_delivered mark_delivered
mark_delivered-keeps user hash g other old e =
    let hashes = or_default (get bytes_order g.delivered_hashes user) in
    elim (get-insert_cases bytes_order g.delivered_hashes user other (insert_hash hashes hash)) [
      | inl (same, is) ↦ rw is (insert_hash-keeps hashes hash old (rw same at e))
      | inr is ↦ rw is e
    ]

-- A command that the node can receive is appended.
pub send_to_open :
    (cmd : NodeCommand) (tx : CommandSender)
    → tx.is_dropped ≡ false
    → send_to cmd tx ≡ (true, record tx { commands = tx.commands ++ (cmd ∷ []) })
unfolding send_to
send_to_open cmd tx o = ground arith

pub notify_open :
    (cmd : NodeCommand) (g : Gateway) {tx : CommandSender}
    → g.p2p_cmd_tx ≡ some tx
    → tx.is_dropped ≡ false
    → notify cmd g
      ≡ record g { p2p_cmd_tx = some (record tx { commands = tx.commands ++ (cmd ∷ []) }) }
unfolding notify
notify_open cmd g {tx} e o = rw (e, notify) (rw (send_to_open cmd tx o) refl)
