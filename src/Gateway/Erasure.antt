-- ===== src/Gateway/Erasure.antt =====
-- server/src/ws.rs and server/src/mailbox.rs: a client that registers with the first bytes of
-- another user's hash.
use mathlib.Core.List.{Memᴰ}
use mathlib.Core.List.Memᴰ.{head, tail}
use vurn_server.Prelude.{
  ℕ, ◌<◌, ◌≡◌, ◌⊎◌, refl, ap, ◌∙◌, true, false, some, none, List, [], ◌∷◌, arith, length,
  Bool-cases, Option-cases, inl, inr, is_ok,
}
use vurn_server.Prelude.Bytes.{Bytes, bytes_compare-eq}
use vurn_server.Prelude.SortedMap.{get, remove, get-remove_self, get-remove_cases}
use vurn_server.Dht.{Net, DhtEnvelope, starts_with, verify_envelope, build_verify_buffer}
use vurn_server.Mailbox.{Tree, bytes_order, payload_of, scan_backup, remove_all, read_sled_backup}
use vurn_server.Gateway.{Host, Gateway}
use vurn_server.Gateway.Send.{contains}
use vurn_server.Gateway.Connection.{connect}
use vurn_server.Gateway.Drain.{keys_of}
use vurn_server.Gateway.Reconnect.{connect_delivers}

-- A record of a tree is its first or one of the others.
pub get_cases :
    (key j v : Bytes) (t : Tree) {value : Bytes}
    → get bytes_order ((j, v) ∷ t) key ≡ some value
    → ((key ≡ j) × (value ≡ v)) ⊎ (get bytes_order t key ≡ some value)
unfolding get
get_cases key j v t g = ground (arith, bytes_compare-eq key j)

module _ (w : Net) where
  -- No envelope verifies for a hash of fewer than 32 bytes.
  verify_envelope_short :
      (e : DhtEnvelope) (h : Bytes) → length h < 32 → is_ok (verify_envelope w e h) ≡ false
  unfolding verify_envelope build_verify_buffer
  verify_envelope_short e h short = ground arith

  payload_of_short :
      (h value : Bytes) {e : DhtEnvelope}
      → length h < 32
      → w.deserialize_envelope value ≡ some e
      → payload_of w h value ≡ none
  unfolding payload_of
  payload_of_short h value {e} short d =
      rw (d, payload_of) (rw (verify_envelope_short e h short) refl)

  no_record : (key : Bytes) {value : Bytes} → get bytes_order [] key ≡ some value → ⊥
  unfolding get
  no_record key g = cc

  scan_backup-later :
      (h j v : Bytes) (t : Tree) (key : Bytes)
      → Memᴰ key (scan_backup w h t).1
      → Memᴰ key (scan_backup w h ((j, v) ∷ t)).1
  unfolding scan_backup
  scan_backup-later h j v t key m = elim (Bool-cases (starts_with h j)) [
    | inr e ↦ rw e m
    | inl e ↦ elim (Option-cases (payload_of w h v)) [
      | inl f ↦ rw (e, f) (tail m)
      | inr (payload, f) ↦ rw (e, f) m
    ]
  ]

  scan_backup-invalid :
      (h : Bytes) (t : Tree) (key : Bytes) {value : Bytes}
      → starts_with h key ≡ true
      → payload_of w h value ≡ none
      → get bytes_order t key ≡ some value
      → Memᴰ key (scan_backup w h t).1
  unfolding scan_backup
  scan_backup-invalid h [] key s p g = absurd (no_record key g)
  scan_backup-invalid h ((j, v) ∷ t) key s p g = elim (get_cases key j v t g) [
    | inl (same, is) ↦ rw (rw same at s, scan_backup) (rw (rw is at p, scan_backup) (head same))
    | inr later ↦ scan_backup-later h j v t key (scan_backup-invalid h t key s p later)
  ]

  remove_all-none :
      (keys : List Bytes) (t : Tree) (key : Bytes)
      → get bytes_order t key ≡ none
      → get bytes_order (remove_all w keys t) key ≡ none
  unfolding remove_all
  remove_all-none [] t key g = g
  remove_all-none (k ∷ keys) t key g =
      remove_all-none keys (remove bytes_order t k) key
        (elim (get-remove_cases bytes_order t k key) [ inl (_, is) ↦ is | inr is ↦ is ∙ g ])

  remove_all_mem :
      (keys : List Bytes) (t : Tree) (key : Bytes)
      → Memᴰ key keys
      → get bytes_order (remove_all w keys t) key ≡ none
  unfolding remove_all
  remove_all_mem [] t key m = elim m [ ]
  remove_all_mem (k ∷ keys) t key (head same) =
      remove_all-none keys (remove bytes_order t k) key (rw same (get-remove_self bytes_order t k))
  remove_all_mem (k ∷ keys) t key (tail m) = remove_all_mem keys (remove bytes_order t k) key m

module _ (x : Host) (now : ℕ) (session : Bytes) (g : Gateway) (key : Bytes) {value : Bytes}
    {e : DhtEnvelope} where
  -- A client that registers with a session id of fewer than 32 bytes, over a next channel that is
  -- not closed and with a mailbox, removes from the backup every record whose key begins with
  -- that id and whose value decodes as an envelope, whoever the message is for.
  pub connect_erases :
      g.mailbox ≡ true
      → contains g.closed g.next_channel ≡ false
      → length session < 32
      → starts_with session key ≡ true
      → get bytes_order g.manager.mailbox key ≡ some value
      → x.net.deserialize_envelope value ≡ some e
      → get bytes_order (connect x now session g).manager.mailbox key ≡ none
  unfolding read_sled_backup
  connect_erases on new short prefixed stored envelope =
      let invalid =
        scan_backup-invalid x.net session g.manager.mailbox key prefixed
          (payload_of_short x.net session value short envelope) stored in
      ap (λ t. get bytes_order t key) (connect_delivers x now session g on new).1
      ∙ remove_all-none x.net (keys_of (scan_backup x.net session g.manager.mailbox).0) _ key (
          remove_all_mem x.net (scan_backup x.net session g.manager.mailbox).1 g.manager.mailbox key
            invalid)
