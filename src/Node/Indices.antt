-- ===== src/Node/Indices.antt =====
-- server/src/p2p/node.rs: the index of a recipient covers its records in the local backup.
use vurn_server.Prelude.{
  ℕ, ◌≤◌, ◌<◌, ◌≡◌, ◌⊎◌, sym, ap, ◌∙◌, Option-cases, inl, inr, some, [], ◌∷◌, arith,
}
use vurn_server.Prelude.Bytes.{Bytes}
use vurn_server.Prelude.SortedMap.{get, insert, get-insert_self}
use vurn_server.Dht.{Net, sign_envelope, mailbox_seq_key}
use vurn_server.Node.{Node, u64_mod, call, put_record}
use vurn_server.Mailbox.{Tree, bytes_order}
use vurn_server.Node.Store.{sled_key, max_seq, new_envelope, store_signed_envelope}
use vurn_server.Node.Backlog.{IsKey, sled_key-IsKey}

max_seq-first :
    (h : Bytes) (s : ℕ) (key v : Bytes) (t : Tree)
    → IsKey h s key
    → max_seq h t ≤ s
    → max_seq h ((key, v) ∷ t) ≤ s
unfolding max_seq
max_seq-first h s key v t i le = rw i.prefixed (ground (arith, i.long, i.number))

max_seq-rest :
    (h : Bytes) (s : ℕ) (j w : Bytes) (t t' : Tree)
    → max_seq h ((j, w) ∷ t) ≤ s
    → max_seq h t' ≤ s
    → max_seq h ((j, w) ∷ t') ≤ s
unfolding max_seq
max_seq-rest h s j w t t' le le' = ground arith

max_seq-tail :
    (h : Bytes) (s : ℕ) (j w : Bytes) (t : Tree) → max_seq h ((j, w) ∷ t) ≤ s → max_seq h t ≤ s
unfolding max_seq
max_seq-tail h s j w t le = ground arith

-- A record under the number `s`, put into a backup with no higher number of the user, leaves it so.
pub max_seq-insert :
    (h : Bytes) (s : ℕ) (key v : Bytes) (t : Tree)
    → IsKey h s key
    → max_seq h t ≤ s
    → max_seq h (insert bytes_order t key v) ≤ s
unfolding insert
max_seq-insert h s key v [] i le = max_seq-first h s key v [] i le
max_seq-insert h s key v ((j, w) ∷ t) i le = ground (
  arith,
  max_seq-first h s key v ((j, w) ∷ t) i le,
  max_seq-first h s key v t i (max_seq-tail h s j w t le),
  max_seq-rest h s j w t (insert bytes_order t key v) le
      (max_seq-insert h s key v t i (max_seq-tail h s j w t le)),
)

-- The node behind a store.
abbrev covering : Bytes → ℕ → Bytes → Node → Node
covering h s bytes n = call (put_record (mailbox_seq_key h s) bytes) (record n {
  sled = insert bytes_order n.sled (sled_key h s) bytes;
  mailbox_indices = insert bytes_order n.mailbox_indices h s;
})

-- A message that is stored under a u64 that no record of the recipient exceeds either leaves the
-- node as it was, or makes that number the recipient's index, which no record then exceeds.
pub store_signed_envelope-covers :
    (w : Net) (signing_key h sender payload : Bytes) (s : ℕ) (n : Node) {m : Node}
    → s < u64_mod
    → max_seq h n.sled ≤ s
    → store_signed_envelope w signing_key h sender payload s n ≡ some m
    → (m ≡ n) ⊎ ((get bytes_order m.mailbox_indices h ≡ some s) × (max_seq h m.sled ≤ s))
unfolding store_signed_envelope
store_signed_envelope-covers w signing_key h sender payload s n {m = m} l le e =
    elim (Option-cases
      (sign_envelope w (new_envelope w signing_key sender payload s) signing_key h)) [
        | inl f ↦ ground arith
        | inr (envelope, f) ↦ elim (Option-cases (w.serialize_envelope envelope)) [
          | inl g ↦ inl (ground arith)
          | inr (bytes, g) ↦
              let is : covering h s bytes n ≡ m = ground arith in
              inr (
                ap (λ (k : Node). get bytes_order k.mailbox_indices h) (sym is)
                    ∙ get-insert_self bytes_order n.mailbox_indices h s,
                rw (← is)
                    (max_seq-insert h s (sled_key h s) bytes n.sled (sled_key-IsKey h s l) le),
              )
        ]
      ]
