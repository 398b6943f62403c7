-- ===== src/Prelude/Digits.antt =====
-- Numbers as digits, the highest first: decimal text and big-endian bytes; and little-endian bytes.
use Prim.Native.Nat.{ℕ, zero, suc, ◌+◌, ◌-◌, ◌*◌, ◌/◌, ◌%◌, ◌^◌, ◌<◌}
use mathlib.Core.Path.{◌≡◌, refl, ap, ◌∙◌}
use mathlib.Core.Bool.{◌&&◌}
use mathlib.Core.Option.{Option, none, some}
use mathlib.Core.List.{[], ◌∷◌, ◌++◌}
use native.Mathlib.Omega.{arith}
use vurn_server.Prelude.Tests.{ltb, leb, if◌then◌else◌}
use vurn_server.Prelude.Lists.{length, length-append}
use vurn_server.Prelude.Bytes.{Bytes}

abbrev pub le_bytes : ℕ → ℕ → Bytes
le_bytes zero n = []
le_bytes (suc k) n = n % 256 ∷ le_bytes k (n / 256)

abbrev pub be_bytes : ℕ → ℕ → Bytes
be_bytes zero n = []
be_bytes (suc k) n = be_bytes k (n / 256) ++ (n % 256 ∷ [])

abbrev pub from_be : ℕ → Bytes → ℕ
from_be acc [] = acc
from_be acc (b ∷ bs) = from_be (acc * 256 + b) bs

-- `{n:0k}` for a number of at most `k` digits
abbrev pub digits : ℕ → ℕ → Bytes
digits zero n = []
digits (suc k) n = digits k (n / 10) ++ ((48 + n % 10) ∷ [])

-- The digits of a decimal `u64`, which fails on another character and on overflow.
unfoldable pub parse_digits : ℕ → Bytes → Option ℕ
parse_digits acc [] = some acc
parse_digits acc (d ∷ ds) =
    let rest = parse_digits (acc * 10 + (d - 48)) ds in
    if leb 48 d && leb d 57 && ltb (acc * 10 + (d - 48)) (2 ^ 64) then rest else none

pub from_be-append :
    (acc : ℕ) (xs ys : Bytes) → from_be acc (xs ++ ys) ≡ from_be (from_be acc xs) ys
from_be-append acc [] ys = refl
from_be-append acc (x ∷ xs) ys = from_be-append (acc * 256 + x) xs ys

pub length-be_bytes : (k n : ℕ) → length (be_bytes k n) ≡ k
length-be_bytes zero n = refl
length-be_bytes (suc k) n =
    omega (arith, length-append (be_bytes k (n / 256)) (n % 256 ∷ []), length-be_bytes k (n / 256))

pub from_be-be_bytes : (k n : ℕ) → n < 256 ^ k → from_be 0 (be_bytes k n) ≡ n
from_be-be_bytes zero n h = omega arith
from_be-be_bytes (suc k) n h =
    from_be-append 0 (be_bytes k (n / 256)) (n % 256 ∷ [])
    ∙ rw (from_be-be_bytes k (n / 256) (omega arith)) (omega arith)

parse_digits-snoc :
    (acc m d : ℕ) (xs : Bytes)
    → parse_digits acc xs ≡ some m
    → d < 10
    → m * 10 + d < 2 ^ 64
    → parse_digits acc (xs ++ ((48 + d) ∷ [])) ≡ some (m * 10 + d)
unfolding parse_digits
parse_digits-snoc acc m d [] h k l = ground arith
parse_digits-snoc acc m d (x ∷ xs) h k l =
    ground (arith, parse_digits-snoc (acc * 10 + (x - 48)) m d xs)

pub parse_digits-digits : (k n : ℕ) → n < 10 ^ k → n < 2 ^ 64 → parse_digits 0 (digits k n) ≡ some n
unfolding parse_digits
parse_digits-digits zero n h l = ap some (omega arith)
parse_digits-digits (suc k) n h l =
    parse_digits-snoc 0 (n / 10) (n % 10) (digits k (n / 10))
      (parse_digits-digits k (n / 10) (omega arith) (omega arith)) (omega arith) (omega arith)
    ∙ ap some (omega arith)
