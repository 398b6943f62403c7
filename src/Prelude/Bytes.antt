-- ===== src/Prelude/Bytes.antt =====
-- Byte strings: comparison, and the fixed-width integers of the wire formats.
use Prim.Native.Nat.{ℕ, ◌+◌, ◌*◌, ◌/◌, ◌%◌, ◌<◌, compare, Ordering}
use mathlib.Core.Path.{◌≡◌, refl}
use mathlib.Core.Logic.{◌↔◌}
use mathlib.Core.Bool.{Bool, true, false, ◌&&◌}
use mathlib.Core.List.{List, [], ◌∷◌}
use native.Mathlib.Omega.{arith}
use vurn_server.Prelude.Tests.{◌==◌}
use vurn_server.Prelude.Lists.{get_or}

abbrev pub Bytes : Type 0
Bytes = List ℕ

unfoldable pub bytes_eq : Bytes → Bytes → Bool
bytes_eq [] [] = true
bytes_eq (x ∷ xs) (y ∷ ys) = x == y && bytes_eq xs ys
bytes_eq _ _ = false

pub bytes_eq_iff : (a b : Bytes) → (bytes_eq a b ≡ true) ↔ (a ≡ b)
unfolding bytes_eq
bytes_eq_iff (x ∷ a) (y ∷ b) = ground (arith, bytes_eq_iff a b)
bytes_eq_iff _ _ = ground arith

pub bytes_eq_refl : (a : Bytes) → bytes_eq a a ≡ true
bytes_eq_refl a = (bytes_eq_iff a a).1 refl

-- The lexicographic order of slices and arrays.
unfoldable pub bytes_compare : Bytes → Bytes → Ordering
bytes_compare [] [] = Ordering.eq
bytes_compare [] (y ∷ ys) = Ordering.lt
bytes_compare (x ∷ xs) [] = Ordering.gt
bytes_compare (x ∷ xs) (y ∷ ys) = elim (compare x y) [
  | Ordering.lt ↦ Ordering.lt
  | Ordering.gt ↦ Ordering.gt
  | Ordering.eq ↦ bytes_compare xs ys
]

pub bytes_compare-eq : (a b : Bytes) → bytes_compare a b ≡ Ordering.eq → a ≡ b
unfolding bytes_compare
bytes_compare-eq [] [] h = refl
bytes_compare-eq [] (y ∷ ys) h = cc
bytes_compare-eq (x ∷ xs) [] h = cc
bytes_compare-eq (x ∷ xs) (y ∷ ys) h = ground (arith, bytes_compare-eq xs ys)

pub bytes_compare_refl : (a : Bytes) → bytes_compare a a ≡ Ordering.eq
unfolding bytes_compare
bytes_compare_refl [] = refl
bytes_compare_refl (x ∷ xs) = ground (arith, bytes_compare_refl xs)

abbrev pub flip : Ordering → Ordering
flip Ordering.lt = Ordering.gt
flip Ordering.eq = Ordering.eq
flip Ordering.gt = Ordering.lt

pub bytes_compare-flip : (a b : Bytes) → bytes_compare b a ≡ flip (bytes_compare a b)
unfolding bytes_compare
bytes_compare-flip [] [] = refl
bytes_compare-flip [] (y ∷ ys) = refl
bytes_compare-flip (x ∷ xs) [] = refl
bytes_compare-flip (x ∷ xs) (y ∷ ys) = ground (arith, bytes_compare-flip xs ys)

-- `u16::to_le_bytes` and `u16::from_le_bytes`; the same for `u32`.
abbrev pub u16_le : ℕ → Bytes
u16_le n = n % 256 ∷ n / 256 % 256 ∷ []

abbrev pub u16_from_le : Bytes → ℕ
u16_from_le b = get_or b 0 0 + 256 * get_or b 1 0

abbrev pub u32_le : ℕ → Bytes
u32_le n = n % 256 ∷ n / 256 % 256 ∷ n / 65536 % 256 ∷ n / 16777216 % 256 ∷ []

abbrev pub u32_from_le : Bytes → ℕ
u32_from_le b = get_or b 0 0 + 256 * get_or b 1 0 + 65536 * get_or b 2 0 + 16777216 * get_or b 3 0

pub u16_from_le-u16_le : (n : ℕ) → n < 65536 → u16_from_le (u16_le n) ≡ n
u16_from_le-u16_le n h = omega arith

pub u32_from_le-u32_le : (n : ℕ) → n < 4294967296 → u32_from_le (u32_le n) ≡ n
u32_from_le-u32_le n h = omega arith
