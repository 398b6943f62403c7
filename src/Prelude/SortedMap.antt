-- ===== src/Prelude/SortedMap.antt =====
-- `BTreeMap`: an association list in the order of its keys. `order` is the keys' `Ord::cmp`.
use Prim.Native.Nat.{◌+◌, ◌≤◌, Ordering}
use mathlib.Core.Path.{◌≡◌, refl, ap}
use mathlib.Core.Logic.{◌⊎◌, inl, inr}
use mathlib.Core.Bool.{Bool}
use mathlib.Core.Option.{Option, none, some}
use mathlib.Core.List.{List, [], ◌∷◌, ◌++◌}
use native.Mathlib.Omega.{arith}
use vurn_server.Prelude.Tests.{is_some}
use vurn_server.Prelude.Lists.{length}

Ordering-cases : (o : Ordering) → (o ≡ Ordering.eq) ⊎ (o ≡ Ordering.eq → ⊥)
Ordering-cases Ordering.eq = inl refl
Ordering-cases Ordering.lt = inr (λ e. cc)
Ordering-cases Ordering.gt = inr (λ e. cc)

pub record Order {ℓ} (K : Type ℓ) : Type ℓ where
  pub cmp : K → K → Ordering
  pub cmp-eq : (a b : K) → cmp a b ≡ Ordering.eq → a ≡ b
  pub cmp-refl : (a : K) → cmp a a ≡ Ordering.eq

module _ {ℓ κ} {K : Type ℓ} {V : Type κ} (order : Order K) where
  unfoldable pub get : List (K × V) → K → Option V
  get [] k = none
  get ((j, v) ∷ m) k = elim (order.cmp k j) [ Ordering.eq ↦ some v | _ ↦ get m k ]

  unfoldable pub contains_key : List (K × V) → K → Bool
  unfolding get
  contains_key m k = is_some (get m k)

  unfoldable pub insert : List (K × V) → K → V → List (K × V)
  insert [] k v = (k, v) ∷ []
  insert ((j, w) ∷ m) k v = elim (order.cmp k j) [
    | Ordering.lt ↦ (k, v) ∷ (j, w) ∷ m
    | Ordering.eq ↦ (k, v) ∷ m
    | Ordering.gt ↦ (j, w) ∷ insert m k v
  ]

  unfoldable pub remove : List (K × V) → K → List (K × V)
  remove [] k = []
  remove ((j, w) ∷ m) k = elim (order.cmp k j) [
    | Ordering.eq ↦ remove m k
    | _ ↦ (j, w) ∷ remove m k
  ]

  pub get-insert_self : (m : List (K × V)) (k : K) (v : V) → get (insert m k v) k ≡ some v
  unfolding get insert
  get-insert_self [] k v = rw (order.cmp-refl k)
  get-insert_self ((j, w) ∷ m) k v = ground (arith, order.cmp-refl k, get-insert_self m k v)

  pub get-insert_ne :
      (m : List (K × V)) (k i : K) (v : V)
      → (order.cmp i k ≡ Ordering.eq → ⊥)
      → get (insert m k v) i ≡ get m i
  unfolding get insert
  get-insert_ne [] k i v h = ground (arith, h)
  get-insert_ne ((j, w) ∷ m) k i v h = ground (arith, h, order.cmp-eq k j, get-insert_ne m k i v h)

  -- A look-up after an insertion, for a split.
  pub get-insert_cases :
      (m : List (K × V)) (k i : K) (v : V)
      → ((i ≡ k) × (get (insert m k v) i ≡ some v)) ⊎ (get (insert m k v) i ≡ get m i)
  get-insert_cases m k i v = elim (Ordering-cases (order.cmp i k)) [
    | inl e ↦ let same = order.cmp-eq i k e in inl (same, rw same (get-insert_self m k v))
    | inr n ↦ inr (get-insert_ne m k i v n)
  ]

  pub get-remove_self : (m : List (K × V)) (k : K) → get (remove m k) k ≡ none
  unfolding get remove
  get-remove_self [] k = refl
  get-remove_self ((j, w) ∷ m) k = ground (arith, get-remove_self m k)

  pub get-remove_ne :
      (m : List (K × V)) (k i : K)
      → (order.cmp i k ≡ Ordering.eq → ⊥)
      → get (remove m k) i ≡ get m i
  unfolding get remove
  get-remove_ne [] k i h = refl
  get-remove_ne ((j, w) ∷ m) k i h = ground (arith, h, order.cmp-eq k j, get-remove_ne m k i h)

  pub get-remove_cases :
      (m : List (K × V)) (k i : K)
      → ((i ≡ k) × (get (remove m k) i ≡ none)) ⊎ (get (remove m k) i ≡ get m i)
  get-remove_cases m k i = elim (Ordering-cases (order.cmp i k)) [
    | inl e ↦ let same = order.cmp-eq i k e in inl (same, rw same (get-remove_self m k))
    | inr n ↦ inr (get-remove_ne m k i n)
  ]

  pub length-insert-le : (m : List (K × V)) (k : K) (v : V) → length (insert m k v) ≤ length m + 1
  unfolding insert
  length-insert-le [] k v = omega arith
  length-insert-le ((j, w) ∷ m) k v = ground (arith, length-insert-le m k v)

  pub length-remove-le : (m : List (K × V)) (k : K) → length (remove m k) ≤ length m
  unfolding remove
  length-remove-le [] k = omega arith
  length-remove-le ((j, w) ∷ m) k = ground (arith, length-remove-le m k)

  -- Every key of the list is below `k`.
  abbrev pub Below : List (K × V) → K → Type 0
  Below [] k = Unit
  Below ((j, w) ∷ m) k = (order.cmp k j ≡ Ordering.gt) × Below m k

  -- The keys ascend strictly, read from the front with those before them in `done`.
  abbrev pub IsAscending : List (K × V) → List (K × V) → Type 0
  IsAscending done [] = Unit
  IsAscending done ((k, v) ∷ m) = Below done k × IsAscending (done ++ (k, v) ∷ []) m

  pub insert-Below :
      (m : List (K × V)) (k : K) (v : V) → Below m k → insert m k v ≡ m ++ (k, v) ∷ []
  unfolding insert
  insert-Below [] k v h = refl
  insert-Below ((j, w) ∷ m) k v h = rw (h.0, insert) (ap (◌∷◌ (j, w)) (insert-Below m k v h.1))
