-- ===== src/Gateway/Marks.antt =====
-- server/src/ws.rs: checking and marking a payload.
use vurn_server.Prelude.{
  ℕ, suc, ◌/◌, ◌≤◌, ◌<◌, leb, ◌≡◌, refl, ap, ◌∙◌, true, false, not, List, arith, length, drop,
  length-drop, Bool-cases, inl, inr,
}
use vurn_server.Prelude.Bytes.{Bytes}
use vurn_server.Prelude.SortedMap.{get, get-insert_self, get-insert_cases}
use vurn_server.Mailbox.{bytes_order, sort_unstable}
use vurn_server.Mailbox.Hashes.{length-sort_unstable}
use vurn_server.Gateway.{Host, max_delivered_hashes}
use vurn_server.Gateway.Send.{contains, insert_hash, or_default, evict, check_and_mark_delivered}
use vurn_server.Gateway.Channels.{contains-insert_hash, length-insert_hash-le}

-- Every user's set is within the bound.
abbrev pub IsBounded : List (Bytes × List ℕ) → Type 0
IsBounded delivered =
    (user : Bytes) → length (or_default (get bytes_order delivered user)) ≤ max_delivered_hashes

length-drop_sorted :
    (k m : ℕ) (hashes : List ℕ)
    → 0 < k
    → 0 < m
    → length hashes ≤ m
    → suc (length (drop k (sort_unstable hashes))) ≤ m
length-drop_sorted k m hashes a b h =
    omega (arith, length-drop k (sort_unstable hashes), length-sort_unstable hashes)

leb→gt : (a b : ℕ) → leb a b ≡ false → b < a
leb→gt a b h = ground arith

length-evict :
    (hashes : List ℕ)
    → length hashes ≤ max_delivered_hashes
    → suc (length (evict hashes)) ≤ max_delivered_hashes
unfolding evict
length-evict hashes h = elim (Bool-cases (leb max_delivered_hashes (length hashes))) [
  | inl e ↦ rw e (
      length-drop_sorted (max_delivered_hashes / 2) max_delivered_hashes hashes (omega arith)
        (omega arith) h)
  | inr e ↦ rw e (let below = leb→gt _ _ e in omega (arith, below))
]

module _ (x : Host) (delivered : List (Bytes × List ℕ)) (user payload : Bytes) where
  pub check_and_mark_delivered_lem :
      let hash = x.payload_hash payload in
      let (is_new, after) = check_and_mark_delivered x delivered user payload in
      (is_new ≡ not (contains (or_default (get bytes_order delivered user)) hash))
      × (contains (or_default (get bytes_order after user)) hash ≡ true)
      × (check_and_mark_delivered x after user payload ≡ (false, after))
  unfolding check_and_mark_delivered
  check_and_mark_delivered_lem =
      let hash = x.payload_hash payload in
      let hashes = or_default (get bytes_order delivered user) in
      elim (Bool-cases (contains hashes hash)) [
        | inl e ↦ rw e (refl, e, rw e refl)
        | inr e ↦
            let here =
              ap (λ o. contains (or_default o) hash)
                (get-insert_self bytes_order delivered user (insert_hash (evict hashes) hash))
              ∙ contains-insert_hash (evict hashes) hash in
            rw e (refl, here, rw here refl)
      ]

  -- Checking and marking a payload keeps every user's set of marks at or below 4096, if each is
  -- at the start.
  pub check_and_mark_delivered-IsBounded :
      IsBounded delivered → IsBounded (check_and_mark_delivered x delivered user payload).1
  unfolding check_and_mark_delivered
  check_and_mark_delivered-IsBounded b other =
      let hash = x.payload_hash payload in
      let hashes = or_default (get bytes_order delivered user) in
      elim (Bool-cases (contains hashes hash)) [
        | inl e ↦ rw e (b other)
        | inr e ↦
            let new = insert_hash (evict hashes) hash in
            let room = length-evict hashes (b user) in
            let fits = length-insert_hash-le (evict hashes) hash in
            rw e (elim (get-insert_cases bytes_order delivered user other new) [
              | inl (_, is) ↦ rw is (omega (arith, room, fits))
              | inr is ↦ rw is (b other)
            ])
      ]
