-- ===== src/Gateway/Sent.antt =====
-- server/src/ws.rs: blocks that send and mark, and change nothing else but the saved marks.
use vurn_server.Prelude.{
  ℕ, ◌≡◌, refl, ap, ◌∙◌, Bool, true, false, Option, some, none, List, [], ◌∷◌, Bool-cases,
  Option-cases, inl, inr, if◌then◌else◌,
}
use vurn_server.Prelude.Bytes.{Bytes}
use vurn_server.Prelude.SortedMap.{get}
use vurn_server.Mailbox.{Manager, Tree, bytes_order, save_delivered_hashes, trim_hashes}
use vurn_server.Node.{NodeCommand}
use vurn_server.Gateway.{Host, Gateway, CommandSender}
use vurn_server.Gateway.Send.{is_delivered, send_to, notify, mark_delivered, persist_delivered_set}
use vurn_server.Gateway.Relay.{Outcome, send_new}
use vurn_server.Gateway.Connection.{drain_record, drain_records}
use vurn_server.Gateway.Channels.{any_open}
use vurn_server.Gateway.Outcomes.{send_new_open, send_new_closed}

-- One state is another but for what was sent and marked.
abbrev pub SentAndMarked : Gateway → Gateway → Type 0
SentAndMarked h g =
    (sent : List (ℕ × Bytes)) × (delivered : List (Bytes × List ℕ)) × (h
      ≡ record g { sent = sent; delivered_hashes = delivered })

pub send_new_frame :
    (user : Bytes) (hash : ℕ) (senders : List ℕ) (payload : Bytes) (g : Gateway)
    → SentAndMarked (send_new user hash senders payload g).1 g
unfolding send_new mark_delivered
send_new_frame user hash senders payload g = elim (Bool-cases (any_open g.closed senders)) [
  | inl o ↦
      (_, _, ap (λ (r : Outcome × Gateway). r.1) (send_new_open user hash senders payload g o))
  | inr o ↦ (
    g.sent,
    g.delivered_hashes,
    ap (λ (r : Outcome × Gateway). r.1) (send_new_closed user hash senders payload g o),
  )
]

-- Saving the marks leaves the records.
save-mailbox :
    (x : Host) (user : Bytes) (hashes : List ℕ) (m : Manager)
    → (save_delivered_hashes x.net user hashes m).mailbox ≡ m.mailbox
unfolding save_delivered_hashes
save-mailbox x user hashes m = elim (Option-cases (x.net.serialize_hashes (trim_hashes hashes))) [
  | inl e ↦ rw (e, save_delivered_hashes) refl
  | inr (bytes, e) ↦ rw (e, save_delivered_hashes) refl
]

module _ (x : Host) where
  saved_mailbox :
      (user : Bytes) (g : Gateway) (mailbox : Bool) (hashes : Option (List ℕ))
      → ◌≡◌ {A = Tree}
          (if mailbox
            then elim hashes [
              | none ↦ g
              | some s ↦ record g { manager = save_delivered_hashes x.net user s g.manager }
            ]
            else g).manager.mailbox
          g.manager.mailbox
  saved_mailbox user g false hashes = refl
  saved_mailbox user g true none = refl
  saved_mailbox user g true (some s) = save-mailbox x user s g.manager

  pub persist-mailbox :
      (user : Bytes) (g : Gateway)
      → (persist_delivered_set x user g).manager.mailbox ≡ g.manager.mailbox
  unfolding persist_delivered_set
  persist-mailbox user g = saved_mailbox user g g.mailbox (get bytes_order g.delivered_hashes user)

  drain_record_frame :
      (session payload : Bytes) (g : Gateway) → SentAndMarked (drain_record x session payload g).1 g
  unfolding drain_record
  drain_record_frame session payload g =
      elim (Bool-cases (is_delivered g session (x.payload_hash payload))) [
        | inl d ↦ (g.sent, g.delivered_hashes, rw (d, drain_record) refl)
        | inr d ↦ elim (Option-cases (get bytes_order g.clients session)) [
          | inl e ↦ (g.sent, g.delivered_hashes, rw (d, drain_record) (rw (e, drain_record) refl))
          | inr (senders, e) ↦
              let (s, m, is) = send_new_frame session (x.payload_hash payload) senders payload g in
              (s, m, rw (d, drain_record) (rw (e, drain_record) is))
        ]
      ]

  pub drain_records_frame :
      (session : Bytes) (pending : List (Bytes × Bytes)) (g : Gateway)
      → SentAndMarked (drain_records x session pending g).1 g
  unfolding drain_records
  drain_records_frame session [] g = (g.sent, g.delivered_hashes, refl)
  drain_records_frame session ((key, payload) ∷ pending) g =
      let h = (drain_record x session payload g).1 in
      let (s, d, first) = drain_record_frame session payload g in
      let (t, e, others) = drain_records_frame session pending h in
      (t, e, others ∙ ap (λ (k : Gateway). record k { sent = t; delivered_hashes = e }) first)

notified :
    (cmd : NodeCommand) (g : Gateway) (sender : Option CommandSender)
    → (tx : Option CommandSender) × (◌≡◌ {A = Gateway}
        (elim sender [ none ↦ g | some t ↦ record g { p2p_cmd_tx = some (send_to cmd t).1 } ])
        (record g { p2p_cmd_tx = tx }))
notified cmd g none = (g.p2p_cmd_tx, refl)
notified cmd g (some t) = (some (send_to cmd t).1, refl)

-- A command to the node changes its channel only.
pub notify_frame :
    (cmd : NodeCommand) (g : Gateway)
    → (tx : Option CommandSender) × (notify cmd g ≡ record g { p2p_cmd_tx = tx })
unfolding notify
notify_frame cmd g = notified cmd g g.p2p_cmd_tx
