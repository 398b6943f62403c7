-- ===== src/Gateway/Drain.antt =====
-- server/src/ws.rs: what the drain of the local backup sends, marks and removes.
use vurn_server.Prelude.{
  ℕ, suc, ◌≡◌, refl, sym, ap, ◌∙◌, true, false, List, [], ◌∷◌, ◌++◌, append-nil, append_assoc,
  length, Bool-cases, inl, inr, if◌then◌else◌,
}
use vurn_server.Prelude.Bytes.{Bytes}
use vurn_server.Prelude.SortedMap.{get, get-insert_self}
use vurn_server.Mailbox.{bytes_order}
use vurn_server.Gateway.{Host, Gateway}
use vurn_server.Gateway.Send.{contains, insert_hash, or_default, is_delivered, mark_delivered}
use vurn_server.Gateway.Relay.{accepted, duplicate, refused}
use vurn_server.Gateway.Connection.{drain_record, drain_records}
use vurn_server.Gateway.Channels.{copies, insert_hash_old, insert_hash_new}
use vurn_server.Gateway.Outcomes.{send_new_open, send_new_closed, IsReachable, IsUnreachable}

unfoldable pub keys_of : List (Bytes × Bytes) → List Bytes
keys_of [] = []
keys_of ((key, payload) ∷ records) = key ∷ keys_of records

unfoldable pub payloads_in : List (Bytes × Bytes) → List Bytes
payloads_in [] = []
payloads_in ((key, payload) ∷ records) = payload ∷ payloads_in records

-- The copies of several payloads, one payload after the other.
unfoldable pub all_copies : List ℕ → List ℕ → List Bytes → List (ℕ × Bytes)
unfolding copies
all_copies closed senders [] = []
all_copies closed senders (payload ∷ payloads) =
    copies closed senders payload ++ all_copies closed senders payloads

module _ (x : Host) where
  -- The payloads whose hash is not marked, the first of each hash.
  unfoldable pub fresh : List ℕ → List Bytes → List Bytes
  fresh marked [] = []
  fresh marked (payload ∷ payloads) =
      let hash = x.payload_hash payload in
      let later = fresh (hash ∷ marked) payloads in
      if contains marked hash then fresh marked payloads else payload ∷ later

  -- The marks once these payloads were handled.
  unfoldable pub marks_after : List ℕ → List Bytes → List ℕ
  marks_after marked [] = marked
  marks_after marked (payload ∷ payloads) =
      let hash = x.payload_hash payload in marks_after (insert_hash marked hash) payloads

  -- The keys of the records that are marked.
  unfoldable pub marked_keys : List ℕ → List (Bytes × Bytes) → List Bytes
  marked_keys marked [] = []
  marked_keys marked ((key, payload) ∷ records) =
      let rest = marked_keys marked records in
      if contains marked (x.payload_hash payload) then key ∷ rest else rest

  module _ (session : Bytes) where
    abbrev pub marks : Gateway → List ℕ
    marks g = or_default (get bytes_order g.delivered_hashes session)

    drain_record_old :
        (payload : Bytes) (g : Gateway)
        → contains (marks g) (x.payload_hash payload) ≡ true
        → drain_record x session payload g ≡ (duplicate, g)
    unfolding drain_record is_delivered
    drain_record_old payload g d = rw (d, drain_record) refl

    drain_record_new :
        (senders : List ℕ) (payload : Bytes) (g : Gateway)
        → IsReachable x g session senders
        → contains (marks g) (x.payload_hash payload) ≡ false
        → drain_record x session payload g ≡ (
          accepted,
          mark_delivered session
              (x.payload_hash payload)
              (record g { sent = g.sent ++ copies g.closed senders payload }),
        )
    unfolding drain_record is_delivered
    drain_record_new senders payload g (e, o) d =
        rw (d, drain_record)
          (rw (e, drain_record)
            (send_new_open session (x.payload_hash payload) senders payload g o))

    drain_record_kept :
        (payload : Bytes) (g : Gateway)
        → IsUnreachable x g session
        → contains (marks g) (x.payload_hash payload) ≡ false
        → drain_record x session payload g ≡ (refused, g)
    unfolding drain_record is_delivered
    drain_record_kept payload g (inl e) d = rw (d, drain_record) (rw (e, drain_record) refl)
    drain_record_kept payload g (inr (senders, e, o)) d =
        rw (d, drain_record)
          (rw (e, drain_record)
            (send_new_closed session (x.payload_hash payload) senders payload g o))

    marks-mark_delivered :
        (hash : ℕ) (g : Gateway)
        → marks (mark_delivered session hash g) ≡ insert_hash (marks g) hash
    unfolding mark_delivered
    marks-mark_delivered hash g =
        ap or_default (get-insert_self bytes_order g.delivered_hashes session _)

    -- To a user with an open channel the drain sends the fresh payloads, marks them, and removes
    -- every record.
    pub drain_records_reachable :
        (senders : List ℕ) (pending : List (Bytes × Bytes)) (g : Gateway)
        → IsReachable x g session senders
        → let ((to_remove, new_count), h) = drain_records x session pending g in
          (to_remove ≡ keys_of pending)
          × (new_count ≡ length (fresh (marks g) (payloads_in pending)))
          × (h.sent ≡ g.sent ++ all_copies g.closed senders (fresh (marks g) (payloads_in pending)))
          × (marks h ≡ marks_after (marks g) (payloads_in pending))
    unfolding drain_records fresh all_copies keys_of payloads_in marks_after mark_delivered
    drain_records_reachable senders [] g r = (refl, refl, sym (append-nil g.sent), refl)
    drain_records_reachable senders ((key, payload) ∷ pending) g r =
        let hash = x.payload_hash payload in
        let later = λ (s : List ℕ). marks_after s (payloads_in pending) in
        elim (Bool-cases (contains (marks g) hash)) [
          | inl d ↦
              let (keys, count, sent, after) = drain_records_reachable senders pending g r in
              rw (drain_record_old payload g d, d)
                (
                  ap (◌∷◌ key) keys,
                  count,
                  sent,
                  after ∙ ap later (sym (insert_hash_old (marks g) hash d)),
                )
          | inr d ↦
              let h : Gateway = record g { sent = g.sent ++ copies g.closed senders payload } in
              let (keys, count, sent, after) =
                drain_records_reachable senders pending (mark_delivered session hash h) r in
              let seen = marks-mark_delivered hash h ∙ insert_hash_new (marks g) hash d in
              rw (drain_record_new senders payload g r d, d)
                (
                  ap (◌∷◌ key) keys,
                  ap suc (count ∙ ap (λ s. length (fresh s (payloads_in pending))) seen),
                  sent
                      ∙ append_assoc g.sent (copies g.closed senders payload) _
                      ∙ ap
                          (λ s.
                            g.sent
                            ++ (copies g.closed senders payload
                                ++ all_copies g.closed senders (fresh s (payloads_in pending))))
                          seen,
                  after ∙ ap later (marks-mark_delivered hash h),
                )
        ]

    -- For a user without an open channel the drain sends nothing, marks nothing and gives back
    -- only the keys of records whose hash is marked, so every other record stays in the backup.
    pub drain_records_unreachable :
        (pending : List (Bytes × Bytes)) (g : Gateway)
        → IsUnreachable x g session
        → drain_records x session pending g ≡ ((marked_keys (marks g) pending, 0), g)
    unfolding drain_records marked_keys
    drain_records_unreachable [] g u = refl
    drain_records_unreachable ((key, payload) ∷ pending) g u =
        elim (Bool-cases (contains (marks g) (x.payload_hash payload))) [
          | inl d ↦
              rw (drain_record_old payload g d, d) (rw (drain_records_unreachable pending g u) refl)
          | inr d ↦
              rw (drain_record_kept payload g u d, d)
                (rw (drain_records_unreachable pending g u) refl)
        ]
