-- ===== src/Gateway/Registry.antt =====
-- server/src/ws.rs: the profiles as a registry that the requests of clients refine, over a network
-- that answers in time.
use vurn_server.Prelude.{
  ◌≡◌, ◌≢◌, ◌⊎◌, refl, ap, ◌∙◌, false, Option, none, some, List, [], ◌∷◌, ◌++◌, arith,
  if◌then◌else◌, drop, get_or, Bool-cases, Option-cases, inl, inr,
}
use vurn_server.Prelude.Bytes.{Bytes, bytes_eq}
use vurn_server.Dht.{profile_key, update_key}
use vurn_server.Node.{NodeCommand, profile_store, profile_token_store}
use vurn_server.Gateway.{CommandSender, profile_success, profile_occupied}
use vurn_server.Gateway.Send.{send_to}
use vurn_server.Gateway.Profile.{
  Answers, answered, or_none, Handled, lookup_update_token, store_profile, register, lookup_profile,
  checked_update, update_profile, lookup_response,
}

-- A profile's blob and its update token.
abbrev pub Entry : Type 0
Entry = Option Bytes × Option Bytes

-- What a registration answers and leaves.
abbrev pub register_entry : Bytes → Bytes → Entry → Bytes × Entry
register_entry blob random (some old, some token) = (profile_occupied, (some old, some token))
register_entry blob random (some old, none) = (profile_success ++ random, (some blob, some random))
register_entry blob random (none, token) = (profile_success ++ random, (some blob, some random))

abbrev pub update_entry : Bytes → Bytes → Entry → Bytes × Entry
update_entry presented blob (old, none) = (0xFF ∷ 3 ∷ 2 ∷ [], (old, none))
update_entry presented blob (old, some token) =
    if bytes_eq token presented
    then (0xFE ∷ 3 ∷ 0 ∷ [], (some blob, some token))
    else (0xFF ∷ 3 ∷ 1 ∷ [], (old, some token))

-- The records of the network: what a look-up finds, and what a `put_record` of the node changes.
pub record Records (D : Type 0) : Type 0 where
  pub find : D → Bytes → Option Bytes
  pub put : D → Bytes → Bytes → D
  pub find-put_self : (d : D) (key value : Bytes) → find (put d key value) key ≡ some value
  pub find-put_ne :
      (d : D) (key other value : Bytes) → other ≢ key → find (put d key value) other ≡ find d other

update_key-ne-profile_key : (i j : Bytes) → update_key i ≢ profile_key j
unfolding update_key profile_key
update_key-ne-profile_key i j e =
    let third = ap (λ b. get_or b 2 0) e in absurd (omega (arith, third))

profile_key-ne-update_key : (i j : Bytes) → profile_key i ≢ update_key j
unfolding update_key profile_key
profile_key-ne-update_key i j e =
    let third = ap (λ b. get_or b 2 0) e in absurd (omega (arith, third))

profile_key_ne : (i j : Bytes) → i ≢ j → profile_key i ≢ profile_key j
unfolding profile_key
profile_key_ne i j n e = n (ap (drop 4) e)

update_key_ne : (i j : Bytes) → i ≢ j → update_key i ≢ update_key j
unfolding update_key
update_key_ne i j n e = n (ap (drop 4) e)

module _ {D : Type 0} (r : Records D) where
  unfoldable pub view : D → Bytes → Entry
  view d index = (r.find d (profile_key index), r.find d (update_key index))

  -- What the node does for a command on profiles.
  unfoldable pub run_commands : List NodeCommand → D → D
  run_commands [] d = d
  run_commands (profile_store index blob ∷ cmds) d =
      run_commands cmds (r.put d (profile_key index) blob)
  run_commands (profile_token_store index token ∷ cmds) d =
      run_commands cmds (r.put d (update_key index) token)
  run_commands (cmd ∷ cmds) d = run_commands cmds d

  -- The answers of a node that looks up in `d`.
  abbrev pub answers : D → Bytes → Bytes → Answers
  answers d index random = record {
    profile = answered (r.find d (profile_key index));
    token = answered (r.find d (update_key index));
    random = random;
    profile_channel = 0;
    token_channel = 1;
  }

  -- A handler of the gateway, and the node on the commands that it sends.
  unfoldable pub serve : (CommandSender → Handled) → D → Option Bytes × D
  serve handler d =
      let (response, tx) = handler (record { is_dropped = false; commands = [] }) in
      (response, run_commands tx.commands d)

  -- Storing a blob, and then a token.
  put_blob :
      (d : D) (index blob : Bytes)
      → let d' = r.put d (profile_key index) blob in
        (view d' index ≡ (some blob, r.find d (update_key index)))
        × ((j : Bytes) → j ≢ index → view d' j ≡ view d j)
  unfolding view
  put_blob d index blob = (
    λ i. (
      r.find-put_self d (profile_key index) blob i,
      r.find-put_ne d (profile_key index) (update_key index) blob
          (update_key-ne-profile_key index index) i,
    ),
    λ j n i. (
      r.find-put_ne d (profile_key index) (profile_key j) blob (profile_key_ne j index n) i,
      r.find-put_ne d (profile_key index) (update_key j) blob (update_key-ne-profile_key j index) i,
    ),
  )

  put_token :
      (d : D) (index token : Bytes)
      → let d' = r.put d (update_key index) token in
        (view d' index ≡ (r.find d (profile_key index), some token))
        × ((j : Bytes) → j ≢ index → view d' j ≡ view d j)
  unfolding view
  put_token d index token = (
    λ i. (
      r.find-put_ne d (update_key index) (profile_key index) token
          (profile_key-ne-update_key index index) i,
      r.find-put_self d (update_key index) token i,
    ),
    λ j n i. (
      r.find-put_ne d (update_key index) (profile_key j) token (profile_key-ne-update_key j index)
          i,
      r.find-put_ne d (update_key index) (update_key j) token (update_key_ne j index n) i,
    ),
  )

  put_both :
      (d : D) (index blob token : Bytes)
      → let d' = r.put (r.put d (profile_key index) blob) (update_key index) token in
        (view d' index ≡ (some blob, some token)) × ((j : Bytes) → j ≢ index → view d' j ≡ view d j)
  unfolding view
  put_both d index blob token =
      let d1 = r.put d (profile_key index) blob in
      let (first, others) = put_blob d index blob in
      let (second, rest) = put_token d1 index token in
      (second ∙ ap (λ (e : Entry). (e.0, some token)) first, λ j n. rest j n ∙ others j n)

  module _ (d : D) (index random : Bytes) where
    pub serve-register :
        (blob : Bytes)
        → let (response, e) = register_entry blob random (view d index) in
          let (answer, d') = serve (register (answers d index random) index blob) d in
          (answer ≡ some response)
          × (view d' index ≡ e)
          × ((j : Bytes) → j ≢ index → view d' j ≡ view d j)
    unfolding serve register lookup_update_token store_profile send_to run_commands view
    serve-register blob =
        let stored = put_both d index blob random in
        elim (Option-cases (r.find d (profile_key index))) [
          | inl e ↦ rw e (refl, stored.0, stored.1)
          | inr (old, e) ↦ elim (Option-cases (r.find d (update_key index))) [
            | inl f ↦ rw (e, f) (refl, stored.0, stored.1)
            | inr (token, f) ↦ rw (e, f) (refl, λ i. (e i, f i), λ j n. refl)
          ]
        ]

    pub serve-update :
        (presented blob : Bytes)
        → let (response, e) = update_entry presented blob (view d index) in
          let (answer, d') =
            serve (update_profile (answers d index random) index presented blob) d in
          (answer ≡ some response)
          × (view d' index ≡ e)
          × ((j : Bytes) → j ≢ index → view d' j ≡ view d j)
    unfolding serve update_profile checked_update lookup_update_token send_to run_commands view
    serve-update presented blob =
        let (first, others) = put_blob d index blob in
        elim (Option-cases (r.find d (update_key index))) [
          | inl f ↦
              rw (f, checked_update) (refl, λ i. (r.find d (profile_key index), f i), λ j n. refl)
          | inr (token, f) ↦ elim (Bool-cases (bytes_eq token presented)) [
            | inl e ↦ rw (f, checked_update) (rw e (refl, first ∙ (λ i. (some blob, f i)), others))
            | inr e ↦
                rw (f, checked_update)
                  (rw e (refl, λ i. (r.find d (profile_key index), f i), λ j n. refl))
          ]
        ]

    pub serve-lookup :
        let (answer, d') = serve (lookup_profile (answers d index random) index) d in
        (answer ≡ some (lookup_response (view d index).0)) × (d' ≡ d)
    unfolding serve lookup_profile send_to run_commands view
    serve-lookup = (refl, refl)

    -- Where the look-up of the profile or that of its token brings no value, a time-out included,
    -- a registration succeeds and the network then has the new blob and the new token at the
    -- index, whatever it had.
    pub serve-register_unanswered :
        (a : Answers) (blob : Bytes)
        → (or_none a.profile ≡ none) ⊎ (or_none a.token ≡ none)
        → let (answer, d') = serve (register a index blob) d in
          (answer ≡ some (profile_success ++ a.random))
          × (view d' index ≡ (some blob, some a.random))
    unfolding serve register lookup_update_token store_profile send_to run_commands
    serve-register_unanswered a blob (inl e) = rw e (refl, (put_both d index blob a.random).0)
    serve-register_unanswered a blob (inr f) = elim (Option-cases (or_none a.profile)) [
      | inl e ↦ rw e (refl, (put_both d index blob a.random).0)
      | inr (old, e) ↦ rw (e, f) (refl, (put_both d index blob a.random).0)
    ]
