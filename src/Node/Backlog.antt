-- ===== src/Node/Backlog.antt =====
-- server/src/p2p/node.rs: storing a message keeps the messages that are in the local backup.
use vurn_server.Prelude.{
  ℕ, zero, suc, ◌+◌, ◌%◌, ◌≤◌, ◌<◌, ◌≡◌, ◌⊎◌, refl, sym, ap, ◌∙◌, Bool, true, some, List, [], ◌∷◌,
  arith, length, drop, length-append, take-append, drop-append, Option-cases, Bool-cases, inl, inr,
}
use vurn_server.Prelude.Bytes.{Bytes, bytes_eq_refl, bytes_compare-eq}
use vurn_server.Prelude.Digits.{be_bytes, from_be, length-be_bytes, from_be-be_bytes}
use vurn_server.Prelude.SortedMap.{get, insert, get-insert_ne}
use vurn_server.Dht.{Net, sign_envelope, starts_with}
use vurn_server.Mailbox.{Tree, bytes_order}
use vurn_server.Node.{Node, MailboxState, idle, is_idle, user_hash_of, u64_mod}
use vurn_server.Node.Store.{
  sled_key, max_seq, get_sled_max_seq, new_envelope, store_signed_envelope,
}
use vurn_server.Node.Probe.{fire_from, fire_window}
use vurn_server.Node.Handlers.{start_probing, solo_seq, handle_mailbox_store}

-- A key of the backup, taken apart.
pub record IsKey (h : Bytes) (s : ℕ) (key : Bytes) : Type 0 where
  pub prefixed : starts_with h key ≡ true
  pub long : length key ≡ length h + 8
  pub number : from_be 0 (drop (length h) key) ≡ s

pub sled_key-IsKey : (h : Bytes) (s : ℕ) → s < u64_mod → IsKey h s (sled_key h s)
sled_key-IsKey h s l = record {
  prefixed = rw (take-append (length h) h (be_bytes 8 s) refl) (bytes_eq_refl h);
  long = omega (arith, length-append h (be_bytes 8 s), length-be_bytes 8 s);
  number = rw (drop-append (length h) h (be_bytes 8 s) refl) (from_be-be_bytes 8 s l);
}

max_seq-later : (h j w : Bytes) (t : Tree) → max_seq h t ≤ max_seq h ((j, w) ∷ t)
unfolding max_seq
max_seq-later h j w t = ground arith

max_seq-here :
    (h : Bytes) (s : ℕ) (j w : Bytes) (t : Tree) → IsKey h s j → s ≤ max_seq h ((j, w) ∷ t)
unfolding max_seq
max_seq-here h s j w t i = rw (i.prefixed) (ground (arith, i.long, i.number))

get-cons :
    (key j w : Bytes) (t : Tree) {v : Bytes}
    → get bytes_order ((j, w) ∷ t) key ≡ some v
    → (key ≡ j) ⊎ (get bytes_order t key ≡ some v)
unfolding get
get-cons key j w t g = ground (arith, bytes_compare-eq key j)

-- A record in the backup has a number of at most `max_seq`.
max_seq-bound :
    (h : Bytes) (s : ℕ) (key : Bytes) (t : Tree) {v : Bytes}
    → IsKey h s key
    → get bytes_order t key ≡ some v
    → s ≤ max_seq h t
unfolding get
max_seq-bound h s key [] i g = cc
max_seq-bound h s key ((j, w) ∷ t) i g = elim (get-cons key j w t g) [
  | inl same ↦ max_seq-here h s j w t (rw same at i)
  | inr later ↦
      let below = max_seq-bound h s key t i later in
      let grows = max_seq-later h j w t in omega (arith, below, grows)
]

-- A new record leaves the others, and stands under its key.
insert_new :
    (h : Bytes) (s : ℕ) (t : Tree) (bytes key : Bytes) {v : Bytes}
    → s < u64_mod
    → max_seq h t < s
    → get bytes_order t key ≡ some v
    → get bytes_order (insert bytes_order t (sled_key h s) bytes) key ≡ some v
insert_new h s t bytes key l above g =
    get-insert_ne bytes_order t (sled_key h s) key bytes (λ e.
      let same = bytes_compare-eq key (sled_key h s) e in
      let below = max_seq-bound h s key t (rw (← same) at (sled_key-IsKey h s l)) g in
      absurd (omega (arith, below)))
    ∙ g

fire_from-sled :
    (w : Net) (h : Bytes) (count s : ℕ) (queries : List (ℕ × ℕ)) (n : Node)
    → (fire_from w h count s queries n).1.sled ≡ n.sled
unfolding fire_from
fire_from-sled w h zero s queries n = refl
fire_from-sled w h (suc count) s queries n = fire_from-sled w h count (suc s) _ _

module _ (w : Net) (signing_key : Bytes) where
  -- What a store that returns has done to the backup.
  stored :
      (h sender payload : Bytes) (s : ℕ) (n : Node) {m : Node}
      → store_signed_envelope w signing_key h sender payload s n ≡ some m
      → (m.sled ≡ n.sled)
        ⊎ ((bytes : Bytes) × (m.sled ≡ insert bytes_order n.sled (sled_key h s) bytes))
  unfolding store_signed_envelope
  stored h sender payload s n e =
      elim (Option-cases
        (sign_envelope w (new_envelope w signing_key sender payload s) signing_key h)) [
          | inl f ↦ ground arith
          | inr (envelope, f) ↦ elim (Option-cases (w.serialize_envelope envelope)) [
            | inl g ↦ inl (ground arith)
            | inr (bytes, g) ↦ inr (bytes, ground arith)
          ]
        ]

  -- A message that is stored under a number above all of its recipient in the local backup leaves
  -- every record that is there.
  pub store_keeps :
      (h sender payload : Bytes) (s : ℕ) (n : Node) (key : Bytes) {m : Node} {v : Bytes}
      → s < u64_mod
      → max_seq h n.sled < s
      → store_signed_envelope w signing_key h sender payload s n ≡ some m
      → get bytes_order n.sled key ≡ some v
      → get bytes_order m.sled key ≡ some v
  store_keeps h sender payload s n key l above e g = elim (stored h sender payload s n e) [
    | inl same ↦ rw same g
    | inr (bytes, is) ↦ rw is (insert_new h s n.sled bytes key l above g)
  ]

  solo_seq-above :
      (now : ℕ) (n : Node) (h : Bytes)
      → max_seq h n.sled + 1 < u64_mod
      → (solo_seq w signing_key now n h < u64_mod)
        × (max_seq h n.sled < solo_seq w signing_key now n h)
  unfolding solo_seq get_sled_max_seq
  solo_seq-above now n h room = ground arith

  -- The ways in which a store command of an idle node ends.
  store_cases :
      (now : ℕ) (has_peers : Bool) (h sender payload : Bytes) (n : Node) {state : MailboxState}
      {m : Node}
      → handle_mailbox_store w signing_key now has_peers h sender payload idle n ≡ some (state, m)
      → ((i : ℕ) × (get bytes_order n.mailbox_indices h ≡ some i)
          × (store_signed_envelope w signing_key h sender payload ((i + 1) % u64_mod) n ≡ some m))
        ⊎ ((store_signed_envelope w signing_key h sender payload (solo_seq w signing_key now n h) n
              ≡ some m)
            ⊎ (m.sled ≡ n.sled))
  unfolding handle_mailbox_store is_idle start_probing fire_window user_hash_of
  store_cases now has_peers h sender payload n {m = m} e =
      elim (Option-cases (get bytes_order n.mailbox_indices h)) [
        | inr (i, f) ↦
            elim (Option-cases
              (store_signed_envelope w signing_key h sender payload ((i + 1) % u64_mod) n)) [
                | inl g ↦ ground arith
                | inr (k, g) ↦ inl (i, f, ground arith)
              ]
        | inl f ↦ elim (Bool-cases has_peers) [
          | inl b ↦
              let fired : (fire_from w h 10 1 [] n).1 ≡ m = ground arith in
              inr (inr (ap (λ (k : Node). k.sled) (sym fired) ∙ fire_from-sled w h 10 1 [] n))
          | inr b ↦
              elim (Option-cases (
                store_signed_envelope w signing_key h sender payload
                  (solo_seq w signing_key now n h) n)) [
                    | inl g ↦ ground arith
                    | inr (k, g) ↦ inr (inl (ground arith))
                  ]
        ]
      ]

  -- An idle node whose index for the recipient, if it has one, is at least the highest number of
  -- the recipient's records in the local backup, with room for another number, handles a store
  -- command: every record of the backup stays as it is, with or without peers.
  pub handle_mailbox_store-keeps :
      (now : ℕ) (has_peers : Bool) (h sender payload : Bytes) (n : Node) (key : Bytes)
      {state : MailboxState} {m : Node} {v : Bytes}
      → ((i : ℕ)
          → get bytes_order n.mailbox_indices h ≡ some i
          → (max_seq h n.sled ≤ i) × (i + 1 < u64_mod))
      → max_seq h n.sled + 1 < u64_mod
      → handle_mailbox_store w signing_key now has_peers h sender payload idle n ≡ some (state, m)
      → get bytes_order n.sled key ≡ some v
      → get bytes_order m.sled key ≡ some v
  handle_mailbox_store-keeps now has_peers h sender payload n key covered room e g =
      elim (store_cases now has_peers h sender payload n e) [
        | inl (i, f, s) ↦
            let (above, fits) = covered i f in
            store_keeps h sender payload ((i + 1) % u64_mod) n key (omega arith)
              (omega (arith, above, fits)) s g
        | inr (inl s) ↦
            let (fits, above) = solo_seq-above now n h room in
            store_keeps h sender payload (solo_seq w signing_key now n h) n key fits above s g
        | inr (inr same) ↦ rw same g
      ]
