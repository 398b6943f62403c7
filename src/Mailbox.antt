-- ===== src/Mailbox.antt =====
-- server/src/mailbox.rs: the local backup of mailbox records and the persisted hashes of delivered
-- payloads. A tree of the database is a map from bytes to bytes, whose operations do not fail here.
pub mod Backup
pub mod Hashes
use Prim.Native.Nat.{Ordering}
use vurn_server.Prelude.{
  ℕ, ◌+◌, ◌-◌, Bool, not, Option, none, some, List, [], ◌∷◌, ◌++◌, ltb, leb, if◌then◌else◌, length,
  take, drop, Result, ok, err, is_ok,
}
use vurn_server.Prelude.Bytes.{Bytes, bytes_eq, bytes_compare, bytes_compare-eq, bytes_compare_refl}
use vurn_server.Prelude.SortedMap.{Order, get, insert, remove}
use vurn_server.Dht.{Net, DhtEnvelope, verify_envelope, starts_with}

abbrev pub bytes_order : Order Bytes
bytes_order = record {
  cmp = bytes_compare;
  cmp-eq = bytes_compare-eq;
  cmp-refl = bytes_compare_refl;
}

abbrev pub Tree : Type 0
Tree = List (Bytes × Bytes)

abbrev pub max_persisted_hashes : ℕ
max_persisted_hashes = 8192

-- The manager's trees and the keys of retrievals in flight.
pub record Manager : Type 0 where
  pub mailbox : Tree
  pub delivered : Tree
  pub pending_retrievals : List Bytes

-- `sort_unstable` of numbers
unfoldable pub insert_sorted : ℕ → List ℕ → List ℕ
insert_sorted x [] = x ∷ []
insert_sorted x (y ∷ ys) = if leb x y then x ∷ y ∷ ys else y ∷ insert_sorted x ys

unfoldable pub sort_unstable : List ℕ → List ℕ
sort_unstable [] = []
sort_unstable (x ∷ xs) = insert_sorted x (sort_unstable xs)

-- The part of `save_delivered_hashes` that keeps the bound.
unfoldable pub trim_hashes : List ℕ → List ℕ
trim_hashes all =
    if ltb max_persisted_hashes (length all)
    then drop (length all - max_persisted_hashes) (sort_unstable all)
    else all

-- `pending.retain(|k| k != user_hash)`
unfoldable pub retain_others : Bytes → List Bytes → List Bytes
retain_others user_hash [] = []
retain_others user_hash (k ∷ ks) =
    if bytes_eq k user_hash then retain_others user_hash ks else k ∷ retain_others user_hash ks

module _ (w : Net) where
  unfoldable pub load_delivered_hashes : Bytes → Manager → List ℕ
  load_delivered_hashes user_hash m = elim (get bytes_order m.delivered user_hash) [
    | none ↦ []
    | some raw ↦ elim (w.deserialize_hashes raw) [ none ↦ [] | some hashes ↦ hashes ]
  ]

  -- The set is the list of its elements in the order in which it is iterated.
  unfoldable pub save_delivered_hashes : Bytes → List ℕ → Manager → Manager
  save_delivered_hashes user_hash hashes m = elim (w.serialize_hashes (trim_hashes hashes)) [
    | none ↦ m
    | some bytes ↦ record m { delivered = insert bytes_order m.delivered user_hash bytes }
  ]

  unfoldable pub clear_delivered_hashes : Bytes → Manager → Manager
  clear_delivered_hashes user_hash m = record m {
    delivered = remove bytes_order m.delivered user_hash;
  }

  -- The payload that is delivered for the bytes of a record: what a valid envelope carries, and the
  -- bytes themselves where they are no envelope.
  unfoldable pub payload_of : Bytes → Bytes → Option Bytes
  payload_of user_hash bytes = elim (w.deserialize_envelope bytes) [
    | none ↦ some bytes
    | some envelope ↦
        if is_ok (verify_envelope w envelope user_hash) then some envelope.payload else none
  ]

  unfoldable pub payloads_of : Bytes → List Bytes → List Bytes
  payloads_of user_hash [] = []
  payloads_of user_hash (msg ∷ msgs) = elim (payload_of user_hash msg) [
    | some payload ↦ payload ∷ payloads_of user_hash msgs
    | none ↦ payloads_of user_hash msgs
  ]

  unfoldable pub handle_retrieval_result : Bytes → List Bytes → Manager → List Bytes × Manager
  handle_retrieval_result user_hash messages m = (
    payloads_of user_hash messages,
    record m { pending_retrievals = retain_others user_hash m.pending_retrievals },
  )

  -- The loop of `read_sled_backup`, over the records that the scan meets: what it collects, and the
  -- keys it removes.
  unfoldable pub scan_backup : Bytes → Tree → List (Bytes × Bytes) × List Bytes
  scan_backup user_hash [] = ([], [])
  scan_backup user_hash ((key, value) ∷ rest) =
      let (records, invalid) = scan_backup user_hash rest in
      if not (starts_with user_hash key)
      then (records, invalid)
      else elim (payload_of user_hash value) [
        | some payload ↦ ((key, payload) ∷ records, invalid)
        | none ↦ (records, key ∷ invalid)
      ]

  unfoldable pub remove_all : List Bytes → Tree → Tree
  remove_all [] t = t
  remove_all (key ∷ keys) t = remove_all keys (remove bytes_order t key)

  unfoldable pub read_sled_backup : Bytes → Manager → List (Bytes × Bytes) × Manager
  read_sled_backup user_hash m =
      let (records, invalid) = scan_backup user_hash m.mailbox in
      (records, record m { mailbox = remove_all invalid m.mailbox })

  unfoldable pub remove_sled_records : List Bytes → Manager → Manager
  remove_sled_records keys m = record m { mailbox = remove_all keys m.mailbox }
