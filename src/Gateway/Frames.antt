-- ===== src/Gateway/Frames.antt =====
-- server/src/ws.rs: what leaves the clients and their channels as they are.
use vurn_server.Prelude.{
  ℕ, ◌≡◌, refl, ap, ◌∙◌, Bool, true, false, List, Bool-cases, Option-cases, inl, inr, if◌then◌else◌,
}
use vurn_server.Prelude.Bytes.{Bytes}
use vurn_server.Prelude.SortedMap.{get}
use vurn_server.Mailbox.{bytes_order}
use vurn_server.Node.{NodeCommand}
use vurn_server.Gateway.{Host, Gateway}
use vurn_server.Gateway.Send.{send_all, notify, is_delivered, persist_delivered_set}
use vurn_server.Gateway.Relay.{
  Outcome, accepted, duplicate, refused, parse_frame, build_forward, check_rate_limit_store,
  deliver_local, hand_to_node, after_local, relay, relay_or_p2p,
}
use vurn_server.Gateway.Channels.{send_all_lem}
use vurn_server.Gateway.Outcomes.{persist_delivered_set_lem}
use vurn_server.Gateway.NoLoss.{check_rate_limit_store_lem}
use vurn_server.Gateway.Sent.{send_new_frame, notify_frame}

-- The clients with their channels, the next channel and the closed ones.
pub record SameClients (h g : Gateway) : Type 0 where
  pub clients : h.clients ≡ g.clients
  pub next : h.next_channel ≡ g.next_channel
  pub closed : h.closed ≡ g.closed

pub same_refl : (g : Gateway) → SameClients g g
same_refl g = record { clients = refl; next = refl; closed = refl }

pub same_trans : {a b c : Gateway} → SameClients a b → SameClients b c → SameClients a c
same_trans p q = record {
  clients = p.clients ∙ q.clients;
  next = p.next ∙ q.next;
  closed = p.closed ∙ q.closed;
}

-- From an equation with a state that has the clients of another.
pub same_as : {h k g : Gateway} → h ≡ k → SameClients k g → SameClients h g
same_as e p = record {
  clients = ap (λ (k : Gateway). k.clients) e ∙ p.clients;
  next = ap (λ (k : Gateway). k.next_channel) e ∙ p.next;
  closed = ap (λ (k : Gateway). k.closed) e ∙ p.closed;
}

pub same_if :
    (g h k : Gateway) (b : Bool)
    → SameClients h g
    → SameClients k g
    → SameClients (if b then h else k) g
same_if g h k true p q = p
same_if g h k false p q = q

pub notify-same : (cmd : NodeCommand) (g : Gateway) → SameClients (notify cmd g) g
notify-same cmd g =
    let (tx, is) = notify_frame cmd g in
    same_as is (record { clients = refl; next = refl; closed = refl })

pub send_all-same :
    (senders : List ℕ) (payload : Bytes) (g : Gateway)
    → SameClients (send_all senders payload g).1 g
send_all-same senders payload g =
    same_as (ap (λ (s : Bool × Gateway). s.1) (send_all_lem senders payload g))
      (record { clients = refl; next = refl; closed = refl })

module _ (x : Host) where
  pub persist-same : (user : Bytes) (g : Gateway) → SameClients (persist_delivered_set x user g) g
  persist-same user g =
      let (m, is) = persist_delivered_set_lem x user g in
      same_as is (record { clients = refl; next = refl; closed = refl })

  deliver_local-same :
      (recipient forward : Bytes) (g : Gateway)
      → SameClients (deliver_local x recipient forward g).1 g
  unfolding deliver_local
  deliver_local-same recipient forward g =
      elim (Option-cases (get bytes_order g.clients recipient)) [
        | inl e ↦ rw (e, deliver_local) (record { clients = refl; next = refl; closed = refl })
        | inr (senders, e) ↦ elim (Bool-cases (is_delivered g recipient (x.payload_hash forward))) [
          | inl d ↦
              rw (e, deliver_local) (rw d (record { clients = refl; next = refl; closed = refl }))
          | inr d ↦
              let (s, m, is) =
                send_new_frame recipient (x.payload_hash forward) senders forward g in
              rw (e, deliver_local)
                (rw d (same_as is (record { clients = refl; next = refl; closed = refl })))
        ]
      ]

  after_local-same :
      (sender recipient payload : Bytes) (outcome : Outcome) (g : Gateway)
      → SameClients (after_local x sender recipient payload (outcome, g)) g
  unfolding after_local hand_to_node
  after_local-same sender recipient payload accepted g = persist-same recipient g
  after_local-same sender recipient payload duplicate g = (record {
    clients = refl;
    next = refl;
    closed = refl;
  })
  after_local-same sender recipient payload refused g =
      same_trans (notify-same _ (notify _ g)) (notify-same _ g)

  relay-same :
      (sender recipient payload : Bytes) (g : Gateway)
      → SameClients (relay x sender recipient payload g) g
  unfolding relay
  relay-same sender recipient payload g =
      let (outcome, h) = deliver_local x recipient (build_forward sender payload) g in
      same_trans (after_local-same sender recipient payload outcome h)
        (deliver_local-same recipient (build_forward sender payload) g)

  pub relay_or_p2p-same :
      (read stamp : ℕ) (sender frame : Bytes) (g : Gateway)
      → SameClients (relay_or_p2p x read stamp sender frame g) g
  unfolding relay_or_p2p
  relay_or_p2p-same read stamp sender frame g = elim (Option-cases (parse_frame frame)) [
    | inl e ↦ rw (e, relay_or_p2p) (record { clients = refl; next = refl; closed = refl })
    | inr ((recipient, payload), e) ↦
        let (limiters, is) = check_rate_limit_store_lem read stamp sender g in
        let h = (check_rate_limit_store read stamp sender g).1 in
        let limited = same_as is (record { clients = refl; next = refl; closed = refl }) in
        rw (e, relay_or_p2p)
          (same_if g (relay x sender recipient payload h) h
            (check_rate_limit_store read stamp sender g).0
            (same_trans (relay-same sender recipient payload h) limited) limited)
  ]
