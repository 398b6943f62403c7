-- ===== src/Node/Panic.antt =====
-- server/src/p2p/node.rs: which recipient hashes make the node's task panic.
use vurn_server.Prelude.{
  ℕ, ◌+◌, ◌%◌, ◌<◌, ◌≡◌, ◌↔◌, refl, Bool, true, false, not, ◌||◌, is_some, Option, none, some,
  arith, length, Option-cases, inl, inr,
}
use vurn_server.Prelude.Bytes.{Bytes}
use vurn_server.Prelude.SortedMap.{get}
use vurn_server.Dht.{Net, sign_envelope, build_verify_buffer}
use vurn_server.Mailbox.{bytes_order}
use vurn_server.Node.{Node, idle, is_idle, u64_mod}
use vurn_server.Node.Store.{store_signed_envelope}
use vurn_server.Node.Handlers.{keep_state, solo_seq, handle_mailbox_store}

module _ (w : Net) (signing_key : Bytes) where
  store-none :
      (h sender payload : Bytes) (s : ℕ) (n : Node)
      → (store_signed_envelope w signing_key h sender payload s n ≡ none) ↔ (length h < 32)
  unfolding store_signed_envelope sign_envelope build_verify_buffer
  store-none h sender payload s n = ground arith

  keep_state-none :
      {P : Type 0} (now : ℕ) (o : Option Node)
      → (o ≡ none) ↔ P
      → (keep_state w signing_key now idle o ≡ none) ↔ P
  keep_state-none now none h = (λ _. h.0 refl, λ _. refl)
  keep_state-none now (some m) h = (λ e. cc, λ p. absurd (let e = h.1 p in cc))

  -- On an idle node that has an index for the recipient or has no peers, a store command makes
  -- the task panic exactly if the recipient hash has fewer than 32 bytes.
  pub handle_mailbox_store-none :
      (now : ℕ) (has_peers : Bool) (h sender payload : Bytes) (n : Node)
      → is_some (get bytes_order n.mailbox_indices h) || not has_peers ≡ true
      → (handle_mailbox_store w signing_key now has_peers h sender payload idle n ≡ none)
        ↔ (length h < 32)
  unfolding handle_mailbox_store is_idle
  handle_mailbox_store-none now has_peers h sender payload n ready =
      elim (Option-cases (get bytes_order n.mailbox_indices h)) [
        | inr (i, f) ↦
            rw (f, handle_mailbox_store)
              (keep_state-none now
                (store_signed_envelope w signing_key h sender payload ((i + 1) % u64_mod) n)
                (store-none h sender payload ((i + 1) % u64_mod) n))
        | inl f ↦
            let alone : has_peers ≡ false = ground arith in
            rw (f, handle_mailbox_store)
              (rw alone (
                keep_state-none now
                  (store_signed_envelope w signing_key h sender payload
                    (solo_seq w signing_key now n h) n)
                  (store-none h sender payload (solo_seq w signing_key now n h) n)))
      ]
