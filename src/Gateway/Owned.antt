-- ===== src/Gateway/Owned.antt =====
-- server/src/ws.rs: a channel belongs to one user.
use vurn_server.Prelude.{
  ℕ, ◌<◌, ◌≡◌, ◌⊎◌, refl, sym, ◌∙◌, Bool, true, false, ◌==◌, ==_iff, some, List, [], ◌∷◌, ◌++◌,
  arith, length, Bool-cases, Option-cases, inl, inr, if◌then◌else◌,
}
use vurn_server.Prelude.Bytes.{Bytes}
use vurn_server.Prelude.SortedMap.{get, insert, remove, get-insert_cases, get-remove_cases}
use vurn_server.Mailbox.{bytes_order}
use vurn_server.Gateway.{Gateway}
use vurn_server.Gateway.Send.{contains, or_default}
use vurn_server.Gateway.Connection.{push_sender, retain_open, clean_senders, drop_receiver}
use vurn_server.Gateway.Frames.{SameClients}
use vurn_server.Gateway.Once.{contains-append}

-- The channel is one of the user's.
abbrev pub Listed : List (Bytes × List ℕ) → Bytes → ℕ → Type 0
Listed clients user tx = contains (or_default (get bytes_order clients user)) tx ≡ true

-- A listed or closed channel was created before, and no channel is listed for two users.
pub record IsOwned (g : Gateway) : Type 0 where
  pub created : (user : Bytes) (tx : ℕ) → Listed g.clients user tx → tx < g.next_channel
  pub closed_created : (tx : ℕ) → contains g.closed tx ≡ true → tx < g.next_channel
  pub single :
      (user other : Bytes) (tx : ℕ)
      → Listed g.clients user tx
      → Listed g.clients other tx
      → user ≡ other

-- Fewer channels are listed, and others are closed.
pub fewer-IsOwned :
    (g h : Gateway)
    → ((user : Bytes) (tx : ℕ) → Listed h.clients user tx → Listed g.clients user tx)
    → h.next_channel ≡ g.next_channel
    → ((tx : ℕ) → contains h.closed tx ≡ true → tx < h.next_channel)
    → IsOwned g
    → IsOwned h
fewer-IsOwned g h fewer next closed o = record {
  created = λ user tx l. rw next (o.created user tx (fewer user tx l));
  closed_created = closed;
  single = λ user other tx l m. o.single user other tx (fewer user tx l) (fewer other tx m);
}

pub same-IsOwned : {g h : Gateway} → SameClients h g → IsOwned g → IsOwned h
same-IsOwned {g} {h} s o =
    fewer-IsOwned g h (λ user tx l. rw (s.clients) at l) s.next
      (λ tx c. rw (s.next) (o.closed_created tx (rw (s.closed) at c))) o

none_listed : (tx : ℕ) → contains [] tx ≡ true → ⊥
unfolding contains
none_listed tx c = cc

retain_open-listed :
    (closed senders : List ℕ) (tx : ℕ)
    → contains (retain_open closed senders) tx ≡ true
    → contains senders tx ≡ true
unfolding contains retain_open
retain_open-listed closed [] tx c = c
retain_open-listed closed (s ∷ senders) tx c = ground (arith, retain_open-listed closed senders tx)

-- What is listed after the clean-up was listed before.
cleaned :
    (session : Bytes) (senders : List ℕ) (g : Gateway)
    → get bytes_order g.clients session ≡ some senders
    → (all_closed : Bool) (user : Bytes) (tx : ℕ)
    → Listed
        (if all_closed
          then remove bytes_order g.clients session
          else insert bytes_order g.clients session (retain_open g.closed senders))
        user
        tx
    → Listed g.clients user tx
cleaned session senders g e true user tx l =
    elim (get-remove_cases bytes_order g.clients session user) [
      | inl (_, is) ↦ absurd (none_listed tx (rw is at l))
      | inr is ↦ rw is at l
    ]
cleaned session senders g e false user tx l =
    elim (get-insert_cases bytes_order g.clients session user (retain_open g.closed senders)) [
      | inl (same, is) ↦ rw (same, e) (retain_open-listed g.closed senders tx (rw is at l))
      | inr is ↦ rw is at l
    ]

pub clean_senders-IsOwned :
    (session : Bytes) (g : Gateway) → IsOwned g → IsOwned (clean_senders session g)
unfolding clean_senders
clean_senders-IsOwned session g o = elim (Option-cases (get bytes_order g.clients session)) [
  | inl e ↦ rw (e, clean_senders) o
  | inr (senders, e) ↦
      let kept = retain_open g.closed senders in
      rw (e, clean_senders)
        (fewer-IsOwned g _ (λ user tx l. cleaned session senders g e (length kept == 0) user tx l)
          refl o.closed_created o)
]

pub drop_receiver-IsOwned :
    (tx : ℕ) (g : Gateway) → tx < g.next_channel → IsOwned g → IsOwned (drop_receiver tx g)
unfolding drop_receiver contains
drop_receiver-IsOwned tx g below o =
    fewer-IsOwned g (drop_receiver tx g) (λ user t l. l) refl
      (λ t c. elim (Bool-cases (tx == t)) [
        | inl e ↦ let same = (==_iff tx t).0 e in omega (arith, same, below)
        | inr e ↦ o.closed_created t (rw e at c)
      ])
      o

listed_last :
    (xs : List ℕ) (next tx : ℕ)
    → contains (xs ++ (next ∷ [])) tx ≡ true
    → (contains xs tx ≡ true) ⊎ (tx ≡ next)
unfolding contains
listed_last xs next tx c = ground (arith, contains-append xs (next ∷ []) tx)

push_sender-Listed :
    (session : Bytes) (g : Gateway) (user : Bytes) (tx : ℕ)
    → Listed (push_sender session g).clients user tx
    → Listed g.clients user tx ⊎ ((user ≡ session) × (tx ≡ g.next_channel))
unfolding push_sender
push_sender-Listed session g user tx l =
    let old = or_default (get bytes_order g.clients session) in
    elim (get-insert_cases bytes_order g.clients session user (old ++ (g.next_channel ∷ []))) [
      | inr is ↦ inl (rw is at l)
      | inl (same, is) ↦ elim (listed_last old g.next_channel tx (rw is at l)) [
        | inl m ↦ inl (rw same m)
        | inr new ↦ inr (same, new)
      ]
    ]

pub push_sender-IsOwned :
    (session : Bytes) (g : Gateway) → IsOwned g → IsOwned (push_sender session g)
unfolding push_sender
push_sender-IsOwned session g o = record {
  created = λ user tx l. elim (push_sender-Listed session g user tx l) [
    | inl m ↦ let old = o.created user tx m in omega (arith, old)
    | inr (_, new) ↦ omega (arith, new)
  ];
  closed_created = λ tx c. let old = o.closed_created tx c in omega (arith, old);
  single = λ user other tx l m. elim (push_sender-Listed session g user tx l) [
    | inl a ↦ elim (push_sender-Listed session g other tx m) [
      | inl b ↦ o.single user other tx a b
      | inr (_, new) ↦ let old = o.created user tx a in absurd (omega (arith, old, new))
    ]
    | inr (same, new) ↦ elim (push_sender-Listed session g other tx m) [
      | inl b ↦ let old = o.created other tx b in absurd (omega (arith, old, new))
      | inr (same', _) ↦ same ∙ sym same'
    ]
  ];
}
