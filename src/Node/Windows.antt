-- ===== src/Node/Windows.antt =====
-- server/src/p2p/node.rs: how a window of a probe is resolved.
use mathlib.Core.List.{Memᴰ}
use mathlib.Core.List.Memᴰ.{head, tail}
use vurn_server.Prelude.{
  [], ◌∷◌, sym, ◌==◌, ==_iff, ℕ, zero, suc, ◌+◌, ◌≤◌, ◌<◌, ◌≡◌, ◌↔◌, refl, ap, true, false, List,
  arith, ltb, ltb→lt, ltb→le, ◌⊎◌, Bool-cases, inl, inr,
}
use vurn_server.Node.Probe.{any_value, contains, Scan, waiting, gap, complete, scan}

le_cases : (s j : ℕ) → s ≤ j → (s ≡ j) ⊎ (suc s ≤ j)
le_cases s j h = elim (Bool-cases (ltb s j)) [
  | inl e ↦ let l = ltb→lt s j e in inr (omega (arith, l))
  | inr e ↦ let l = ltb→le s j e in inl (omega (arith, l))
]

-- A query for the number is pending.
abbrev pub IsPending : List (ℕ × ℕ) → ℕ → Type 0
IsPending pending s = (id : ℕ) × Memᴰ (id, s) pending

-- A number that was answered, and with a verified record.
pub record IsFound (pending : List (ℕ × ℕ)) (found : List ℕ) (s : ℕ) : Type 0 where
  pub answered : ¬ IsPending pending s
  pub verified : Memᴰ s found

any_value-IsPending :
    (s : ℕ) (pending : List (ℕ × ℕ)) → any_value s pending ≡ true → IsPending pending s
any_value-IsPending s [] h = cc
any_value-IsPending s ((id, v) ∷ pending) h = elim (Bool-cases (v == s)) [
  | inl e ↦ (id, head (ap (λ t. (id, t)) (sym ((==_iff v s).0 e))))
  | inr e ↦ let (other, m) = any_value-IsPending s pending (rw e at h) in (other, tail m)
]

IsPending-any_value :
    (s : ℕ) (pending : List (ℕ × ℕ)) → IsPending pending s → any_value s pending ≡ true
IsPending-any_value s [] (id, m) = elim m [ ]
IsPending-any_value s ((id, v) ∷ pending) (other, head same) =
    rw (ap (λ (q : ℕ × ℕ). q.1) (sym same), (==_iff s s).1 refl) refl
IsPending-any_value s ((id, v) ∷ pending) (other, tail m) =
    let rest = IsPending-any_value s pending (other, m) in ground arith

contains-Memᴰ : (s : ℕ) (found : List ℕ) → contains s found ≡ true → Memᴰ s found
contains-Memᴰ s [] h = cc
contains-Memᴰ s (x ∷ found) h = elim (Bool-cases (x == s)) [
  | inl e ↦ head (sym ((==_iff x s).0 e))
  | inr e ↦ tail (contains-Memᴰ s found (rw e at h))
]

Memᴰ-contains : (s : ℕ) (found : List ℕ) → Memᴰ s found → contains s found ≡ true
Memᴰ-contains s [] m = elim m [ ]
Memᴰ-contains s (x ∷ found) (head same) = rw (sym same, (==_iff s s).1 refl) refl
Memᴰ-contains s (x ∷ found) (tail m) = let rest = Memᴰ-contains s found m in ground arith

-- From a test that fails.
not_any_value :
    {s : ℕ} {pending : List (ℕ × ℕ)} → any_value s pending ≡ false → ¬ IsPending pending s
not_any_value {s} {pending} e p = let is = IsPending-any_value s pending p in cc

not_contains : {s : ℕ} {found : List ℕ} → contains s found ≡ false → ¬ Memᴰ s found
not_contains {s} {found} e m = let is = Memᴰ-contains s found m in cc

at_or_after :
    {pending : List (ℕ × ℕ)} {found : List ℕ} (s j : ℕ)
    → IsFound pending found s
    → s ≤ j
    → (suc s ≤ j → IsFound pending found j)
    → IsFound pending found j
at_or_after s j here h after = elim (le_cases s j h) [ inl e ↦ rw (← e) here | inr l ↦ after l ]

-- The first number of the window, from `s`, that is not found: every number below it is.
pub record IsFirst (count s : ℕ) (pending : List (ℕ × ℕ)) (found : List ℕ) (i : ℕ) : Type 0 where
  pub from_start : s ≤ i
  pub in_window : i < s + count
  pub below : (j : ℕ) → s ≤ j → j < i → IsFound pending found j

-- That number has a query that is pending.
abbrev pub WaitsAt : ℕ → ℕ → List (ℕ × ℕ) → List ℕ → ℕ → Type 0
WaitsAt count s pending found i = IsFirst count s pending found i × IsPending pending i

-- That number was answered without a verified record.
abbrev pub GapAt : ℕ → ℕ → List (ℕ × ℕ) → List ℕ → ℕ → Type 0
GapAt count s pending found i =
    IsFirst count s pending found i × (¬ IsPending pending i) × (¬ Memᴰ i found)

abbrev pub AllFound : ℕ → ℕ → List (ℕ × ℕ) → List ℕ → Type 0
AllFound count s pending found = (j : ℕ) → s ≤ j → j < s + count → IsFound pending found j

-- What the end of a scan of `count` numbers from `s` means.
Means : ℕ → ℕ → List (ℕ × ℕ) → List ℕ → Scan → Type 0
Means count s pending found waiting = (i : ℕ) × WaitsAt count s pending found i
Means count s pending found (gap i) = GapAt count s pending found i
Means count s pending found complete = AllFound count s pending found

IsFirst-after :
    (count s : ℕ) (pending : List (ℕ × ℕ)) (found : List ℕ) {i : ℕ}
    → IsFound pending found s
    → IsFirst count (suc s) pending found i
    → IsFirst (suc count) s pending found i
IsFirst-after count s pending found here f = record {
  from_start = omega (arith, f.from_start);
  in_window = omega (arith, f.in_window);
  below = λ j a b. at_or_after s j here a (λ l. f.below j l b);
}

IsFirst-here :
    (count s : ℕ) (pending : List (ℕ × ℕ)) (found : List ℕ) → IsFirst (suc count) s pending found s
IsFirst-here count s pending found = record {
  from_start = omega arith;
  in_window = omega arith;
  below = λ j a b. absurd (omega arith);
}

extend :
    (count s : ℕ) (pending : List (ℕ × ℕ)) (found : List ℕ)
    → IsFound pending found s
    → (r : Scan) → Means count (suc s) pending found r
    → Means (suc count) s pending found r
unfolding Means
extend count s pending found here waiting (i, (f, p)) =
    (i, (IsFirst-after count s pending found here f, p))
extend count s pending found here (gap i) (f, p, q) =
    (IsFirst-after count s pending found here f, p, q)
extend count s pending found here complete all =
    λ j a b. at_or_after s j here a (λ l. all j l (omega arith))

scan-Means :
    (count s : ℕ) (pending : List (ℕ × ℕ)) (found : List ℕ)
    → Means count s pending found (scan count s pending found)
unfolding scan Means
scan-Means zero s pending found = λ j h k. absurd (omega arith)
scan-Means (suc count) s pending found = elim (Bool-cases (any_value s pending)) [
  | inl e ↦ rw e (s, (IsFirst-here count s pending found, any_value-IsPending s pending e))
  | inr e ↦ elim (Bool-cases (contains s found)) [
    | inr f ↦ rw (e, f) (IsFirst-here count s pending found, not_any_value e, not_contains f)
    | inl f ↦
        rw (e, f)
          (extend count s pending found
            (record { answered = not_any_value e; verified = contains-Memᴰ s found f })
            (scan count (suc s) pending found) (scan-Means count (suc s) pending found))
  ]
]

waiting_not-IsFound :
    {pending : List (ℕ × ℕ)} {found : List ℕ} {i : ℕ}
    → IsPending pending i
    → ¬ IsFound pending found i
waiting_not-IsFound p f = f.answered p

missing_not-IsFound :
    {pending : List (ℕ × ℕ)} {found : List ℕ} {i : ℕ} → (¬ Memᴰ i found) → ¬ IsFound pending found i
missing_not-IsFound q f = q f.verified

module _ (count s : ℕ) (pending : List (ℕ × ℕ)) (found : List ℕ) where
  -- There is one first number that is not found.
  first_unique :
      {i k : ℕ}
      → IsFirst count s pending found i
      → ¬ IsFound pending found i
      → IsFirst count s pending found k
      → ¬ IsFound pending found k
      → i ≡ k
  first_unique {i} {k} f p g q = elim (Bool-cases (ltb i k)) [
    | inl e ↦ absurd (p (g.below i f.from_start (ltb→lt i k e)))
    | inr e ↦ elim (Bool-cases (ltb k i)) [
      | inl d ↦ absurd (q (f.below k g.from_start (ltb→lt k i d)))
      | inr d ↦ let a = ltb→le i k e in let b = ltb→le k i d in omega (arith, a, b)
    ]
  ]

  -- The meaning determines the end of the scan.
  Means-unique :
      (r r' : Scan) → Means count s pending found r → Means count s pending found r' → r ≡ r'
  unfolding Means
  Means-unique waiting waiting m m' = refl
  Means-unique complete complete m m' = refl
  Means-unique (gap i) (gap k) (f, p, q) (g, p', q') =
      ap gap (first_unique f (missing_not-IsFound q) g (missing_not-IsFound q'))
  Means-unique waiting (gap k) (i, (f, p)) (g, p', q') =
      let same = first_unique f (waiting_not-IsFound p) g (missing_not-IsFound q') in
      absurd (p' (rw (← same) p))
  Means-unique (gap k) waiting (g, p', q') (i, (f, p)) =
      let same = first_unique f (waiting_not-IsFound p) g (missing_not-IsFound q') in
      absurd (p' (rw (← same) p))
  Means-unique waiting complete (i, (f, p)) all =
      absurd (waiting_not-IsFound p (all i f.from_start f.in_window))
  Means-unique complete waiting all (i, (f, p)) =
      absurd (waiting_not-IsFound p (all i f.from_start f.in_window))
  Means-unique (gap i) complete (f, p, q) all =
      absurd (missing_not-IsFound q (all i f.from_start f.in_window))
  Means-unique complete (gap i) all (f, p, q) =
      absurd (missing_not-IsFound q (all i f.from_start f.in_window))

-- The scan of a window, at whatever number it starts and however long it is, depends on the first
-- number of the window that is not answered with a verified record. It waits exactly if there is
-- one and its query is pending; it stops at a gap exactly if that is the number, and it was
-- answered; and it takes the window for complete exactly if there is none.
pub scan_iff :
    (count s : ℕ) (pending : List (ℕ × ℕ)) (found : List ℕ)
    → ((scan count s pending found ≡ waiting) ↔ ((i : ℕ) × WaitsAt count s pending found i))
      × ((i : ℕ) → (scan count s pending found ≡ gap i) ↔ GapAt count s pending found i)
      × ((scan count s pending found ≡ complete) ↔ AllFound count s pending found)
unfolding Means
scan_iff count s pending found =
    let means = scan-Means count s pending found in
    let only = Means-unique count s pending found (scan count s pending found) in
    (
      (λ e. rw e at means, λ m. only waiting means m),
      λ i. (λ e. rw e at means, λ m. only (gap i) means m),
      (λ e. rw e at means, λ m. only complete means m),
    )
