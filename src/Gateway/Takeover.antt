-- ===== src/Gateway/Takeover.antt =====
-- server/src/ws.rs: runs of requests on profiles, and who can change a profile.
use vurn_server.Prelude.{
  ℕ, ◌≡◌, refl, sym, ap, ◌∙◌, Bool, true, false, ◌&&◌, Option, some, List, [], ◌∷◌, ltb, ◌==◌,
  length, take, drop, Bool-cases, inl, inr,
}
use vurn_server.Prelude.Bytes.{Bytes, bytes_eq, bytes_eq_iff}
use vurn_server.Gateway.{Gateway}
use vurn_server.Gateway.Registry.{Entry, Records, view, register_entry, update_entry}
use vurn_server.Gateway.Requests.{change, request_spec, serve_request, serve_request_refines}

-- What a client sends, and the token that the gateway draws.
pub record Request : Type 0 where
  pub opcode : ℕ
  pub payload : Bytes
  pub random : Bytes

-- A registry on requests: its answers and what it becomes.
unfoldable pub spec_all : List Request → (Bytes → Entry) → List (Option Bytes) × (Bytes → Entry)
spec_all [] f = ([], f)
spec_all (q ∷ requests) f =
    let (response, f1) = request_spec q.opcode q.payload q.random f in
    let (responses, f2) = spec_all requests f1 in (response ∷ responses, f2)

-- Whether a request updates the profile at an index with this token.
abbrev pub presents : Bytes → Bytes → Request → Bool
presents index token q =
    q.opcode == 4
    && (bytes_eq (take 32 q.payload) index && bytes_eq token (take 32 (drop 32 q.payload)))

-- None of the requests does.
abbrev pub NonePresents : Bytes → Bytes → List Request → Type 0
NonePresents index token [] = Unit
NonePresents index token (q ∷ requests) =
    (presents index token q ≡ false) × NonePresents index token requests

module _ {D : Type 0} (r : Records D) (g : Gateway) where
  unfoldable pub serve_all : List Request → D → List (Option Bytes) × D
  serve_all [] d = ([], d)
  serve_all (q ∷ requests) d =
      let (answer, d1) = serve_request r g q.opcode q.payload q.random d in
      let (answers, d2) = serve_all requests d1 in (answer ∷ answers, d2)

  -- Over a network that answers look-ups in time with the record that was put last, any list of
  -- profile requests, with any operation codes and payloads, refines a registry from indices to a
  -- blob and an update token: the answers of the gateway are those of the registry, and after the
  -- commands that the gateway sent, the records of the network show the registry that the
  -- specification arrives at, at every index.
  pub serve_all_refines :
      (requests : List Request) (d : D)
      → let (responses, f) = spec_all requests (view r d) in
        let (answers, d') = serve_all requests d in (answers ≡ responses) × (view r d' ≡ f)
  unfolding serve_all spec_all
  serve_all_refines [] d = (refl, refl)
  serve_all_refines (q ∷ requests) d =
      let d1 = (serve_request r g q.opcode q.payload q.random d).1 in
      let (first, shown) = serve_request_refines r g q.opcode q.payload q.random d in
      let (others, last) = serve_all_refines requests d1 in
      let moved = others ∙ ap (λ f. (spec_all requests f).0) shown in
      (λ i. first i ∷ moved i, last ∙ ap (λ f. (spec_all requests f).1) shown)

and_false : (a b : Bool) → a ≡ true → (a && b) ≡ false → b ≡ false
and_false true b a_is n = n
and_false false b a_is n = cc

bytes_eq_sym : (a b : Bytes) → bytes_eq a b ≡ true → bytes_eq b a ≡ true
bytes_eq_sym a b e = (bytes_eq_iff b a).1 (sym ((bytes_eq_iff a b).0 e))

change_keeps :
    (f : Bytes → Entry) (i index : Bytes) (e : Entry)
    → ((bytes_eq index i ≡ true) → e ≡ f index)
    → change f i e index ≡ f index
change_keeps f i index e same = elim (Bool-cases (bytes_eq index i)) [
  | inl here ↦ rw here (same here)
  | inr n ↦ rw n refl
]

register_keeps :
    (blob random : Bytes) (e : Entry) {old token : Bytes}
    → e ≡ (some old, some token)
    → (register_entry blob random e).1 ≡ e
register_keeps blob random e is = rw is refl

update_keeps :
    (presented blob : Bytes) (e : Entry) {old token : Bytes}
    → e ≡ (some old, some token)
    → bytes_eq token presented ≡ false
    → (update_entry presented blob e).1 ≡ e
update_keeps presented blob e is n = rw is (rw n refl)

module _ (payload random : Bytes) (f : Bytes → Entry) (index : Bytes) {blob token : Bytes}
    (is : f index ≡ (some blob, some token)) where
  -- The entry at the index of the request is that at `index`, if the two are the same.
  at_index : bytes_eq index (take 32 payload) ≡ true → f (take 32 payload) ≡ f index
  at_index here = ap f (sym ((bytes_eq_iff index (take 32 payload)).0 here))

  registered_keeps :
      change f
        (take 32 payload)
        (register_entry (drop 32 payload) random (f (take 32 payload))).1
        index
      ≡ f index
  registered_keeps = change_keeps f (take 32 payload) index _ (λ here.
      register_keeps (drop 32 payload) random (f (take 32 payload)) (at_index here ∙ is)
      ∙ at_index here)

  updated_keeps :
      (bytes_eq (take 32 payload) index && bytes_eq token (take 32 (drop 32 payload))) ≡ false
      → change f
          (take 32 payload)
          (update_entry (take 32 (drop 32 payload)) (drop 64 payload) (f (take 32 payload))).1
          index
        ≡ f index
  updated_keeps n = change_keeps f (take 32 payload) index _ (λ here.
      update_keeps (take 32 (drop 32 payload)) (drop 64 payload) (f (take 32 payload))
        (at_index here ∙ is) (and_false _ _ (bytes_eq_sym index (take 32 payload) here) n)
      ∙ at_index here)

  request_spec_keeps :
      (opcode : ℕ)
      → (opcode == 4
          && (bytes_eq (take 32 payload) index && bytes_eq token (take 32 (drop 32 payload))))
        ≡ false
      → (request_spec opcode payload random f).1 index ≡ f index
  unfolding request_spec
  request_spec_keeps opcode n = elim (Bool-cases (opcode == 1)) [
    | inl a ↦ rw a (elim (Bool-cases (ltb (length payload) 32)) [
      | inl s ↦ rw s refl
      | inr s ↦ rw s registered_keeps
    ])
    | inr a ↦ rw a (elim (Bool-cases (opcode == 2)) [
      | inl b ↦
          rw b
            (elim (Bool-cases (ltb (length payload) 32)) [ inl s ↦ rw s refl | inr s ↦ rw s refl ])
      | inr b ↦ rw b (elim (Bool-cases (opcode == 3)) [
        | inl c ↦ rw c refl
        | inr c ↦ rw c (elim (Bool-cases (opcode == 4)) [
          | inr d ↦ rw d refl
          | inl d ↦ rw d (elim (Bool-cases (ltb (length payload) 64)) [
            | inl s ↦ rw s refl
            | inr s ↦ rw s (elim (Bool-cases (length (drop 64 payload) == 0)) [
              | inl z ↦ rw z refl
              | inr z ↦ rw z (updated_keeps (and_false _ _ d n))
            ])
          ])
        ])
      ])
    ])
  ]

spec_all_keeps :
    (requests : List Request) (f : Bytes → Entry) (index : Bytes) {blob token : Bytes}
    → f index ≡ (some blob, some token)
    → NonePresents index token requests
    → (spec_all requests f).1 index ≡ f index
unfolding spec_all
spec_all_keeps [] f index e n = refl
spec_all_keeps (q ∷ requests) f index e (n, rest) =
    let kept = request_spec_keeps q.payload q.random f index e q.opcode n in
    spec_all_keeps requests (request_spec q.opcode q.payload q.random f).1 index (kept ∙ e) rest
    ∙ kept

module _ {D : Type 0} (r : Records D) (g : Gateway) where
  -- Over a network that answers look-ups in time with the record that was put last, a profile
  -- with a blob and an update token is the same after any list of requests of which none is an
  -- update of its index with that token: it is neither registered again nor overwritten.
  pub takeover_refused :
      (requests : List Request) (d : D) (index : Bytes) {blob token : Bytes}
      → view r d index ≡ (some blob, some token)
      → NonePresents index token requests
      → view r (serve_all r g requests d).1 index ≡ (some blob, some token)
  takeover_refused requests d index e n =
      ap (λ (f : Bytes → Entry). f index) (serve_all_refines r g requests d).1
      ∙ spec_all_keeps requests (view r d) index e n
      ∙ e
