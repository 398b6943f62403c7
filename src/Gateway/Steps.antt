-- ===== src/Gateway/Steps.antt =====
-- server/src/ws.rs and server/src/main.rs: the gateway as the tasks that share it step it. Each
-- block under the lock is a step, so the steps of connections and of the event loop come in any
-- order.
use vurn_server.Prelude.{ℕ, ◌<◌, ◌≡◌, refl, true, false, some, [], Option-cases, inl, inr}
use vurn_server.Prelude.Bytes.{Bytes}
use vurn_server.Prelude.SortedMap.{get}
use vurn_server.Mailbox.{Manager, bytes_order}
use vurn_server.Node.{NodeCommand, NodeEvent}
use vurn_server.Gateway.{Host, Gateway, default}
use vurn_server.Gateway.Send.{contains, notify}
use vurn_server.Gateway.Profile.{Answers}
use vurn_server.Gateway.Connection.{
  Message, init_rate_limiters, seed_delivered, push_sender, local_drain, handle_message,
  clean_senders, drop_receiver, forward_task_ends, clean_up,
}
use vurn_server.Gateway.Events.{handle_p2p_event}
use vurn_server.Gateway.Frames.{SameClients, same_as, notify-same, persist-same}
use vurn_server.Gateway.Untouched.{handle_message-same, handle_p2p_event-same, local_drain-same}
use vurn_server.Gateway.Owned.{
  IsOwned, same-IsOwned, clean_senders-IsOwned, drop_receiver-IsOwned, push_sender-IsOwned,
}

-- The state that `main` builds, with the node's command channel.
unfoldable pub initial : Manager → Gateway
unfolding default
initial manager = record (default manager) {
  p2p_cmd_tx = some (record { is_dropped = false; commands = [] });
  mailbox = true;
}

-- A step from `g` to `h`. A forward task owns a channel that was created.
pub data Step (x : Host) (g h : Gateway) : Type 0 where
  subscribed :
      (session : Bytes) → h ≡ notify (NodeCommand.subscribe (x.hex_encode session)) g → Step x g h
  limited : (now : ℕ) (session : Bytes) → h ≡ init_rate_limiters now session g → Step x g h
  seeded : (session : Bytes) → h ≡ seed_delivered x session g → Step x g h
  joined : (session : Bytes) → h ≡ push_sender session g → Step x g h
  drained : (session : Bytes) → h ≡ local_drain x session g → Step x g h
  asked : (session : Bytes) → h ≡ notify (NodeCommand.mailbox_retrieve session) g → Step x g h
  received :
      (read stamp : ℕ) (a : Answers) (session : Bytes) (m : Message)
      → h ≡ (handle_message x read stamp a session m g).1
      → Step x g h
  noticed : (e : NodeEvent) → h ≡ handle_p2p_event x e g → Step x g h
  forward_ended :
      (session : Bytes) (tx : ℕ)
      → tx < g.next_channel
      → h ≡ forward_task_ends session tx g
      → Step x g h
  cleaned : (session : Bytes) → h ≡ clean_up x session g → Step x g h
  aborted : (tx : ℕ) → tx < g.next_channel → h ≡ drop_receiver tx g → Step x g h

pub data Reachable (x : Host) : Gateway → Type 0 where
  started : {g : Gateway} (manager : Manager) → g ≡ initial manager → Reachable x g
  stepped : {g h : Gateway} → Reachable x g → Step x g h → Reachable x h

initial-IsOwned : (manager : Manager) → IsOwned (initial manager)
unfolding initial default get contains
initial-IsOwned manager = record {
  created = λ user tx l. cc;
  closed_created = λ tx c. cc;
  single = λ user other tx l m. cc;
}

clean_senders-next :
    (session : Bytes) (g : Gateway) → (clean_senders session g).next_channel ≡ g.next_channel
unfolding clean_senders
clean_senders-next session g = elim (Option-cases (get bytes_order g.clients session)) [
  | inl e ↦ rw (e, clean_senders) refl
  | inr (senders, e) ↦ rw (e, clean_senders) refl
]

module _ (x : Host) where
  clean_up-IsOwned : (session : Bytes) (g : Gateway) → IsOwned g → IsOwned (clean_up x session g)
  unfolding clean_up
  clean_up-IsOwned session g o =
      let s = persist-same x session g in
      clean_senders-IsOwned session _
        (same-IsOwned (record { clients = s.clients; next = s.next; closed = s.closed }) o)

  init-same :
      (now : ℕ) (session : Bytes) (g : Gateway) → SameClients (init_rate_limiters now session g) g
  unfolding init_rate_limiters
  init-same now session g = record { clients = refl; next = refl; closed = refl }

  seed-same : (session : Bytes) (g : Gateway) → SameClients (seed_delivered x session g) g
  unfolding seed_delivered
  seed-same session g = record { clients = refl; next = refl; closed = refl }

  untouched : {g h k : Gateway} → h ≡ k → SameClients k g → IsOwned g → IsOwned h
  untouched is s o = same-IsOwned (same_as is s) o

  step-IsOwned : (g h : Gateway) → Step x g h → IsOwned g → IsOwned h
  unfolding forward_task_ends
  step-IsOwned g h (subscribed session is) o = untouched is (notify-same _ g) o
  step-IsOwned g h (limited now session is) o = untouched is (init-same now session g) o
  step-IsOwned g h (seeded session is) o = untouched is (seed-same session g) o
  step-IsOwned g h (joined session is) o = rw is (push_sender-IsOwned session g o)
  step-IsOwned g h (drained session is) o = untouched is (local_drain-same x session g) o
  step-IsOwned g h (asked session is) o = untouched is (notify-same _ g) o
  step-IsOwned g h (received read stamp a session m is) o =
      untouched is (handle_message-same x read stamp a session m g) o
  step-IsOwned g h (noticed e is) o = untouched is (handle_p2p_event-same x e g) o
  step-IsOwned g h (forward_ended session tx below is) o = rw is (
      drop_receiver-IsOwned tx (clean_senders session g) (rw (clean_senders-next session g) below)
        (clean_senders-IsOwned session g o))
  step-IsOwned g h (cleaned session is) o = rw is (clean_up-IsOwned session g o)
  step-IsOwned g h (aborted tx below is) o = rw is (drop_receiver-IsOwned tx g below o)

  -- In every state that the blocks of connections, client messages, node events, ends of forward
  -- tasks and clean-ups reach, in any order, from the state that main builds, every channel that
  -- is listed for a user or closed was created before, and no channel is listed for two users.
  pub Reachable-IsOwned : {g : Gateway} → Reachable x g → IsOwned g
  Reachable-IsOwned (started manager is) = rw is (initial-IsOwned manager)
  Reachable-IsOwned (stepped {g} {h} r s) = step-IsOwned g h s (Reachable-IsOwned r)
