-- ===== src/Mailbox/Hashes.antt =====
-- server/src/mailbox.rs: the persisted hashes of delivered payloads.
use vurn_server.Prelude.{
  ℕ, ◌+◌, ◌-◌, ◌≤◌, ◌≡◌, refl, some, List, [], ◌∷◌, arith, length, length-drop,
}
use vurn_server.Prelude.Bytes.{Bytes}
use vurn_server.Prelude.SortedMap.{get-insert_self}
use vurn_server.Dht.{Net}
use vurn_server.Mailbox.{
  Manager, bytes_order, max_persisted_hashes, insert_sorted, sort_unstable, trim_hashes,
  load_delivered_hashes, save_delivered_hashes,
}

length-insert_sorted : (x : ℕ) (ys : List ℕ) → length (insert_sorted x ys) ≡ length ys + 1
unfolding insert_sorted
length-insert_sorted x [] = refl
length-insert_sorted x (y ∷ ys) = ground (arith, length-insert_sorted x ys)

pub length-sort_unstable : (xs : List ℕ) → length (sort_unstable xs) ≡ length xs
unfolding sort_unstable
length-sort_unstable [] = refl
length-sort_unstable (x ∷ xs) =
    omega (arith, length-insert_sorted x (sort_unstable xs), length-sort_unstable xs)

length-trim_hashes : (all : List ℕ) → length (trim_hashes all) ≤ max_persisted_hashes
unfolding trim_hashes
length-trim_hashes all = ground (
  arith,
  length-drop (length all - max_persisted_hashes) (sort_unstable all),
  length-sort_unstable all,
)

module _ (w : Net) (user_hash : Bytes) (hashes : List ℕ) (m : Manager) {bytes : Bytes}
    (made : w.serialize_hashes (trim_hashes hashes) ≡ some bytes)
    (back : w.deserialize_hashes bytes ≡ some (trim_hashes hashes)) where
  load_saved :
      load_delivered_hashes w user_hash (save_delivered_hashes w user_hash hashes m)
      ≡ trim_hashes hashes
  unfolding load_delivered_hashes save_delivered_hashes
  load_saved =
      rw (made, save_delivered_hashes)
        (rw (get-insert_self bytes_order m.delivered user_hash bytes, load_delivered_hashes)
          (rw back refl))

  -- Where the encoding of a recipient's trimmed hashes succeeds and is decoded, what was saved is
  -- loaded: the trimmed hashes, which are at most as many as the bound.
  pub load_delivered_hashes-save_delivered_hashes :
      (load_delivered_hashes w user_hash (save_delivered_hashes w user_hash hashes m)
        ≡ trim_hashes hashes)
      × (length (load_delivered_hashes w user_hash (save_delivered_hashes w user_hash hashes m))
          ≤ max_persisted_hashes)
  load_delivered_hashes-save_delivered_hashes =
      let loaded = load_saved in (loaded, rw loaded (length-trim_hashes hashes))

-- Up to the bound, all hashes that were saved are kept.
pub trim_hashes_short :
    (hashes : List ℕ) → length hashes ≤ max_persisted_hashes → trim_hashes hashes ≡ hashes
unfolding trim_hashes
trim_hashes_short hashes h = ground arith
