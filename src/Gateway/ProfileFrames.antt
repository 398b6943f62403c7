-- ===== src/Gateway/ProfileFrames.antt =====
-- server/src/ws.rs: profile requests leave the clients and their channels as they are.
use vurn_server.Prelude.{
  ℕ, refl, Bool, true, false, Option, none, some, ltb, ◌==◌, length, drop, take, Option-cases, inl,
  inr, if◌then◌else◌,
}
use vurn_server.Prelude.Bytes.{Bytes}
use vurn_server.Prelude.SortedMap.{get}
use vurn_server.Mailbox.{Manager, bytes_order}
use vurn_server.Gateway.{Gateway, CommandSender}
use vurn_server.Gateway.Profile.{
  Answers, Handled, with_cmd_tx, register, lookup_profile, update_profile, handle_register_profile,
  handle_lookup_profile, handle_unregister_profile, handle_update_profile, dispatch_profile,
  respond, handle_profile_operation,
}
use vurn_server.Gateway.Frames.{SameClients, same_refl, same_trans, send_all-same}

-- The manager is another matter.
pub without_manager :
    {h g : Gateway} {m : Manager} → SameClients h g → SameClients (record h { manager = m }) g
without_manager p = record { clients = p.clients; next = p.next; closed = p.closed }

pub other_manager :
    {h : Gateway} (g : Gateway) (m : Manager)
    → SameClients h (record g { manager = m })
    → SameClients h g
other_manager g m p = record { clients = p.clients; next = p.next; closed = p.closed }

-- The same for a test that chooses between results with a state.
pub same_either :
    {A : Type 0} (g : Gateway) (h k : A × Gateway) (b : Bool)
    → SameClients h.1 g
    → SameClients k.1 g
    → SameClients (if b then h else k).1 g
same_either g h k true p q = p
same_either g h k false p q = q

with_sender :
    (handler : CommandSender → Handled) (g : Gateway) (sender : Option CommandSender)
    → SameClients
        (elim sender as (λ _. Option Bytes × Gateway) [
          | none ↦ (none, g)
          | some tx ↦ ((handler tx).0, record g { p2p_cmd_tx = some (handler tx).1 })
        ]).1
        g
with_sender handler g none = same_refl g
with_sender handler g (some tx) = record { clients = refl; next = refl; closed = refl }

with_cmd_tx-same :
    (handler : CommandSender → Handled) (g : Gateway) → SameClients (with_cmd_tx handler g).1 g
unfolding with_cmd_tx
with_cmd_tx-same handler g = with_sender handler g g.p2p_cmd_tx

dispatch_profile-same :
    (a : Answers) (opcode : ℕ) (payload : Bytes) (g : Gateway)
    → SameClients (dispatch_profile a opcode payload g).1 g
unfolding dispatch_profile handle_register_profile handle_lookup_profile handle_unregister_profile
    handle_update_profile
dispatch_profile-same a opcode payload g =
    let same = same_refl g in
    let short = λ (n : ℕ) (handler : CommandSender → Handled).
      same_either g (none, g) (with_cmd_tx handler g) (ltb (length payload) n) same
        (with_cmd_tx-same handler g) in
    let update = update_profile a (take 32 payload) (take 32 (drop 32 payload)) (drop 64 payload) in
    same_either g _ _ (opcode == 1) (short 32 (register a (take 32 payload) (drop 32 payload))) (
      same_either g _ _ (opcode == 2) (short 32 (lookup_profile a (take 32 payload))) (
        same_either g _ _ (opcode == 3) same (
          same_either g _ _ (opcode == 4)
            (same_either g (none, g) _ (ltb (length payload) 64) same
              (same_either g (none, g) _ (length (drop 64 payload) == 0) same
                (with_cmd_tx-same update g)))
            same)))

respond-same :
    (client : Bytes) (response : Option Bytes) (g : Gateway)
    → SameClients (respond client response g) g
unfolding respond
respond-same client none g = same_refl g
respond-same client (some response) g = elim (Option-cases (get bytes_order g.clients client)) [
  | inl e ↦ rw (e, respond) (same_refl g)
  | inr (senders, e) ↦ rw (e, respond) (send_all-same senders response g)
]

pub profile-same :
    (a : Answers) (client : Bytes) (opcode : ℕ) (payload : Bytes) (g : Gateway)
    → SameClients (handle_profile_operation a client opcode payload g) g
unfolding handle_profile_operation
profile-same a client opcode payload g =
    let (response, h) = dispatch_profile a opcode payload g in
    same_trans (respond-same client response h) (dispatch_profile-same a opcode payload g)
