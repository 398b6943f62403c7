-- ===== src/Gateway/Requests.antt =====
-- server/src/ws.rs: every request on profiles, as it comes from a client, and runs of them.
use mathlib.Core.Path.{fun_ext}
use vurn_server.Prelude.{
  ℕ, ◌≡◌, ◌≢◌, refl, ap, false, Option, none, some, List, [], ◌∷◌, ltb, ◌==◌, if◌then◌else◌, length,
  take, drop, Bool-cases, inl, inr,
}
use vurn_server.Prelude.Bytes.{Bytes, bytes_eq, bytes_eq_iff}
use vurn_server.Node.{NodeCommand}
use vurn_server.Gateway.{Gateway, CommandSender}
use vurn_server.Gateway.Profile.{
  lookup_response, with_cmd_tx, handle_register_profile, handle_lookup_profile,
  handle_unregister_profile, handle_update_profile, dispatch_profile,
}
use vurn_server.Gateway.Registry.{
  Entry, Records, register_entry, update_entry, view, run_commands, answers, serve, serve-register,
  serve-update, serve-lookup,
}

-- A registry, changed at one index.
abbrev pub change : (Bytes → Entry) → Bytes → Entry → Bytes → Entry
change f index e j = if bytes_eq j index then e else f j

-- What a registry answers and becomes.
unfoldable pub request_spec : ℕ → Bytes → Bytes → (Bytes → Entry) → Option Bytes × (Bytes → Entry)
request_spec opcode payload random f =
    let index = take 32 payload in
    let registered = register_entry (drop 32 payload) random (f index) in
    let updated = update_entry (take 32 (drop 32 payload)) (drop 64 payload) (f index) in
    if opcode == 1
    then if ltb (length payload) 32
      then (none, f)
      else (some registered.0, change f index registered.1)
    else if opcode == 2
    then if ltb (length payload) 32 then (none, f) else (some (lookup_response (f index).0), f)
    else if opcode == 3
    then (some (0xFF ∷ 2 ∷ 0 ∷ []), f)
    else if opcode == 4
    then if ltb (length payload) 64
      then (none, f)
      else if length (drop 64 payload) == 0
      then (none, f)
      else (some updated.0, change f index updated.1)
    else (none, f)

abbrev commands_of : Option CommandSender → List NodeCommand
commands_of none = []
commands_of (some tx) = tx.commands

apart : (i j : Bytes) → bytes_eq i j ≡ false → i ≢ j
apart i j n same = let e = (bytes_eq_iff i j).1 same in cc

module _ {D : Type 0} (r : Records D) (g : Gateway) where
  -- The gateway on a request, with a node that looks up in `d`, and the node on the commands.
  unfoldable pub serve_request : ℕ → Bytes → Bytes → D → Option Bytes × D
  serve_request opcode payload random d =
      let fresh : Gateway = record g {
        p2p_cmd_tx = some (record { is_dropped = false; commands = [] });
      } in
      let (response, h) =
        dispatch_profile (answers r d (take 32 payload) random) opcode payload fresh in
      (response, run_commands r (commands_of h.p2p_cmd_tx) d)

  changed :
      (f f' : Bytes → Entry) (index : Bytes) (e : Entry)
      → f' index ≡ e
      → ((j : Bytes) → j ≢ index → f' j ≡ f j)
      → f' ≡ change f index e
  changed f f' index e here others = fun_ext λ j. elim (Bool-cases (bytes_eq j index)) [
    | inl same ↦ rw same (rw ((bytes_eq_iff j index).0 same) here)
    | inr n ↦ rw n (others j (λ same. apart j index n same))
  ]

  pub serve_request_refines :
      (opcode : ℕ) (payload random : Bytes) (d : D)
      → let (response, f) = request_spec opcode payload random (view r d) in
        let (answer, d') = serve_request opcode payload random d in
        (answer ≡ response) × (view r d' ≡ f)
  unfolding request_spec serve_request dispatch_profile handle_register_profile
      handle_lookup_profile handle_unregister_profile handle_update_profile with_cmd_tx run_commands
      serve
  serve_request_refines opcode payload random d =
      let index = take 32 payload in
      elim (Bool-cases (opcode == 1)) [
        | inl a ↦ rw a (elim (Bool-cases (ltb (length payload) 32)) [
          | inl s ↦ rw s (refl, refl)
          | inr s ↦
              let (answer, here, others) = serve-register r d index random (drop 32 payload) in
              rw s (answer, changed (view r d) _ index _ here others)
        ])
        | inr a ↦ rw a (elim (Bool-cases (opcode == 2)) [
          | inl b ↦ rw b (elim (Bool-cases (ltb (length payload) 32)) [
            | inl s ↦ rw s (refl, refl)
            | inr s ↦
                let (answer, same) = serve-lookup r d index random in
                rw s (answer, ap (view r) same)
          ])
          | inr b ↦ rw b (elim (Bool-cases (opcode == 3)) [
            | inl c ↦ rw c (refl, refl)
            | inr c ↦ rw c (elim (Bool-cases (opcode == 4)) [
              | inr e ↦ rw e (refl, refl)
              | inl e ↦ rw e (elim (Bool-cases (ltb (length payload) 64)) [
                | inl s ↦ rw s (refl, refl)
                | inr s ↦ rw s (elim (Bool-cases (length (drop 64 payload) == 0)) [
                  | inl z ↦ rw z (refl, refl)
                  | inr z ↦
                      let (answer, here, others) =
                        serve-update r d index random (take 32 (drop 32 payload))
                          (drop 64 payload) in
                      rw z (answer, changed (view r d) _ index _ here others)
                ])
              ])
            ])
          ])
        ])
      ]
