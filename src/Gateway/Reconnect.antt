-- ===== src/Gateway/Reconnect.antt =====
-- server/src/ws.rs: what a client that connects gets from the local backup.
use vurn_server.Prelude.{
  ℕ, ◌≡◌, refl, ap, ◌∙◌, Bool, true, false, some, List, [], ◌∷◌, ◌++◌, ltb, if◌then◌else◌, if_true,
  arith,
}
use vurn_server.Prelude.Bytes.{Bytes}
use vurn_server.Prelude.SortedMap.{get, get-insert_self}
use vurn_server.Mailbox.{
  Manager, bytes_order, remove_all, read_sled_backup, remove_sled_records, load_delivered_hashes,
}
use vurn_server.Node.{NodeCommand}
use vurn_server.Gateway.{Host, Gateway}
use vurn_server.Gateway.Send.{contains, or_default, notify, persist_delivered_set}
use vurn_server.Gateway.Connection.{
  drain_records, local_drain, push_sender, init_rate_limiters, seed_delivered, connect,
}
use vurn_server.Gateway.Channels.{any_open}
use vurn_server.Gateway.Outcomes.{IsReachable, persist_delivered_set_lem}
use vurn_server.Gateway.Drain.{
  keys_of, payloads_in, all_copies, fresh, marks, drain_records_reachable,
}
use vurn_server.Gateway.Sent.{persist-mailbox, drain_records_frame, notify_frame}

pub any_open_new :
    (closed senders : List ℕ) (tx : ℕ)
    → contains closed tx ≡ false
    → any_open closed (senders ++ (tx ∷ [])) ≡ true
unfolding any_open
any_open_new closed [] tx h = rw h refl
any_open_new closed (s ∷ senders) tx h = ground (arith, any_open_new closed senders tx)

module _ (x : Host) where
  -- Whether the marks are saved or not, what was sent and the records stay.
  save_if :
      (session : Bytes) (h : Gateway) (some_new : Bool)
      → let k = if some_new then persist_delivered_set x session h else h in
        (k.sent ≡ h.sent) × (k.manager.mailbox ≡ h.manager.mailbox)
  save_if session h false = (refl, refl)
  save_if session h true =
      let (m, is) = persist_delivered_set_lem x session h in
      (ap (λ (k : Gateway). k.sent) is, persist-mailbox x session h)

  -- The drain sends what its loop sends, and removes the keys that the loop returns.
  local_drain_lem :
      (session : Bytes) (g : Gateway)
      → g.mailbox ≡ true
      → let (pending, manager) = read_sled_backup x.net session g.manager in
        let ((to_remove, _), h) =
          drain_records x session pending (record g { manager = manager }) in
        ((local_drain x session g).sent ≡ h.sent)
        × ((local_drain x session g).manager.mailbox ≡ remove_all x.net to_remove manager.mailbox)
  unfolding local_drain remove_sled_records
  local_drain_lem session g on =
      let (pending, manager) = read_sled_backup x.net session g.manager in
      let g1 : Gateway = record g { manager = manager } in
      let ((to_remove, new_count), h) = drain_records x session pending g1 in
      let (s, d, frame) = drain_records_frame x session pending g1 in
      let k = if ltb 0 new_count then persist_delivered_set x session h else h in
      let drained : Gateway = record k {
        manager = remove_sled_records x.net to_remove k.manager;
      } in
      let kept = save_if session h (ltb 0 new_count) in
      let is = if_true drained g on in
      (
        ap (λ (k : Gateway). k.sent) is ∙ kept.0,
        ap (λ (k : Gateway). k.manager.mailbox) is
            ∙ ap (remove_all x.net to_remove)
                (kept.1 ∙ ap (λ (k : Gateway). k.manager.mailbox) frame),
      )

module _ (x : Host) (now : ℕ) (session : Bytes) where
  -- The state at the start of the drain.
  abbrev entered : Gateway → Gateway
  entered g = push_sender session (
      seed_delivered x session
        (init_rate_limiters now session (notify (NodeCommand.subscribe (x.hex_encode session)) g)))

  -- The channels of the user with the new one.
  abbrev pub channels : Gateway → List ℕ
  channels g = or_default (get bytes_order g.clients session) ++ (g.next_channel ∷ [])

  entered_parts :
      (g : Gateway)
      → g.mailbox ≡ true
      → let h = entered g in
        (h.manager ≡ g.manager)
        × (h.mailbox ≡ true)
        × (h.sent ≡ g.sent)
        × (h.closed ≡ g.closed)
        × (get bytes_order h.clients session ≡ some (channels g))
        × (marks x session h ≡ load_delivered_hashes x.net session g.manager)
  unfolding push_sender seed_delivered init_rate_limiters
  entered_parts g on =
      let (tx, is) = notify_frame (NodeCommand.subscribe (x.hex_encode session)) g in
      rw is (
        refl,
        on,
        refl,
        refl,
        get-insert_self bytes_order g.clients session (channels g),
        ap or_default (get-insert_self bytes_order g.delivered_hashes session _)
            ∙ if_true (load_delivered_hashes x.net session g.manager) [] on,
      )

  -- A client that connects to a gateway with a mailbox, over a next channel that is not closed,
  -- is sent what a list function computes from the backup: the payloads of its records in their
  -- order, without those whose hash is in the saved marks or came before, one copy of each to
  -- every open channel of the user and the new one. Nothing else is sent, and the records that
  -- were read are removed, after those that the reading itself removes.
  pub connect_delivers :
      (g : Gateway)
      → g.mailbox ≡ true
      → contains g.closed g.next_channel ≡ false
      → let (records, manager) = read_sled_backup x.net session g.manager in
        let marked = load_delivered_hashes x.net session g.manager in
        let k = connect x now session g in
        (k.sent ≡ g.sent ++ all_copies g.closed (channels g) (fresh x marked (payloads_in records)))
        × (k.manager.mailbox ≡ remove_all x.net (keys_of records) manager.mailbox)
  unfolding connect
  connect_delivers g on new =
      let h = entered g in
      let (manager, mailbox, sent, closed, clients, marked) = entered_parts g on in
      let (tx, last) =
        notify_frame (NodeCommand.mailbox_retrieve session) (local_drain x session h) in
      let (drained, removed) = local_drain_lem x session h mailbox in
      let (pending, m) = read_sled_backup x.net session h.manager in
      let reachable : IsReachable x (record h { manager = m }) session (channels g) = (
        clients,
        rw closed (
            any_open_new g.closed (or_default (get bytes_order g.clients session)) g.next_channel
              new),
      ) in
      let (keys, count, copied, after) =
        drain_records_reachable x session (channels g) pending (record h { manager = m })
          reachable in
      let shown = λ (s : List (ℕ × Bytes)) (c seen : List ℕ) (old : Manager).
        s
        ++ all_copies c (channels g)
            (fresh x seen (payloads_in (read_sled_backup x.net session old).0)) in
      let same =
        ap (λ s. shown s h.closed (marks x session h) h.manager) sent
        ∙ ap (λ c. shown g.sent c (marks x session h) h.manager) closed
        ∙ ap (λ seen. shown g.sent g.closed seen h.manager) marked
        ∙ ap (shown g.sent g.closed (load_delivered_hashes x.net session g.manager)) manager in
      (
        ap (λ (k : Gateway). k.sent) last ∙ drained ∙ copied ∙ same,
        ap (λ (k : Gateway). k.manager.mailbox) last
            ∙ removed
            ∙ ap (λ ks. remove_all x.net ks m.mailbox) keys
            ∙ ap
                (λ old.
                  remove_all x.net (keys_of (read_sled_backup x.net session old).0)
                    (read_sled_backup x.net session old).1.mailbox)
                manager,
      )
