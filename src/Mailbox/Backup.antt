-- ===== src/Mailbox/Backup.antt =====
-- server/src/mailbox.rs: a message that the node stored is read from the local backup.
use vurn_server.Prelude.{
  ℕ, ◌≤◌, ◌≡◌, refl, ap, ◌∙◌, true, some, [], ◌∷◌, arith, length, take-append, ok,
}
use vurn_server.Prelude.Bytes.{Bytes, bytes_eq_refl, bytes_compare-eq, bytes_compare_refl}
use vurn_server.Prelude.Digits.{be_bytes}
use vurn_server.Prelude.SortedMap.{get, insert, get-insert_self}
use vurn_server.Dht.{
  Net, NetLaws, DhtEnvelope, verify_envelope, mailbox_seq_key, starts_with, encode_mailbox_message,
}
use vurn_server.Dht.Envelope.{verify_envelope-sign_envelope}
use vurn_server.Mailbox.{Tree, Manager, bytes_order, payload_of, scan_backup, read_sled_backup}
use vurn_server.Node.{Node, call, put_record}
use vurn_server.Node.Store.{sled_key, new_envelope, store_signed_envelope}

module _ (w : Net) where
  -- What the scan collects holds every record of the user that has a payload.
  scan_backup-get :
      (user_hash : Bytes) (t : Tree) (key : Bytes) {value payload : Bytes}
      → starts_with user_hash key ≡ true
      → payload_of w user_hash value ≡ some payload
      → get bytes_order t key ≡ some value
      → get bytes_order (scan_backup w user_hash t).0 key ≡ some payload
  unfolding get scan_backup
  scan_backup-get user_hash [] key h p g = cc
  scan_backup-get user_hash ((j, v) ∷ t) key h p g =
      ground
        (arith, bytes_compare-eq key j, bytes_compare_refl j, scan_backup-get user_hash t key h p)

module _ {w : Net} (laws : NetLaws w) where
  payload_of_signed :
      (e : DhtEnvelope) (user_hash bytes : Bytes)
      → w.serialize_envelope e ≡ some bytes
      → verify_envelope w e user_hash ≡ ok tt
      → payload_of w user_hash bytes ≡ some e.payload
  unfolding payload_of
  payload_of_signed e user_hash bytes s v =
      rw (laws.deserialize-serialize e s, payload_of) (rw v refl)

  -- A message that was stored for a recipient hash of at least 32 bytes is in what is read from
  -- the recipient's local backup, under its key and with its sender, where the encoding of
  -- envelopes does not fail.
  pub read_sled_backup-store_signed_envelope :
      (signing_key h sender payload : Bytes) (seq : ℕ) (n : Node) (m : Manager)
      → 32 ≤ length h
      → ((e : DhtEnvelope) → (bytes : Bytes) × (w.serialize_envelope e ≡ some bytes))
      → (n' : Node) × (store_signed_envelope w signing_key h sender payload seq n ≡ some n')
        × (get bytes_order
              (read_sled_backup w h (record m { mailbox = n'.sled })).0
              (sled_key h seq)
            ≡ some (encode_mailbox_message sender payload))
  unfolding store_signed_envelope read_sled_backup new_envelope
  read_sled_backup-store_signed_envelope signing_key h sender payload seq n m long total =
      let (e, signed, same_payload, _, valid) =
        verify_envelope-sign_envelope laws (new_envelope w signing_key sender payload seq)
          signing_key h refl long in
      let (bytes, made) = total e in
      (
        call (put_record (mailbox_seq_key h seq) bytes) (record n {
          sled = insert bytes_order n.sled (sled_key h seq) bytes;
          mailbox_indices = insert bytes_order n.mailbox_indices h seq;
        }),
        rw (signed, store_signed_envelope) (rw made refl),
        scan_backup-get w h (insert bytes_order n.sled (sled_key h seq) bytes) (sled_key h seq)
            (rw (take-append (length h) h (be_bytes 8 seq) refl) (bytes_eq_refl h))
            (payload_of_signed e h bytes made valid ∙ ap some same_payload)
            (get-insert_self bytes_order n.sled (sled_key h seq) bytes),
      )
