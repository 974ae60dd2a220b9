-- ===== src/Prelude/Int.antt =====
-- Signed 64-bit integers as ℤ: the values of `int`, `int64` and `time.Duration`.
use Prim.Native.Nat.{ℕ, suc, ◌+◌, ◌-◌, ◌%◌, ◌^◌, ◌≤◌, min}
use mathlib.Core.Path.{◌≡◌}
use mathlib.Core.Bool.{Bool, true, false}
use native.Mathlib.Decide.{ℕ_discrete}
use native.Mathlib.Omega.{arith}
use ghostgc.Prelude.Tests.{Eq}
use ghostgc.Prelude.Tests

-- `negsuc n` is -(n + 1).
pub data ℤ : Type 0 where
  pos : ℕ → ℤ
  negsuc : ℕ → ℤ

ℤ-discrete : Discrete ℤ
ℤ-discrete = hlevel ℕ_discrete

instance unfoldable pub int_eq : Eq ℤ
unfolding ℤ-discrete
int_eq = record { dec = ℤ-discrete }

abbrev pub pos_part : ℤ → ℕ
pos_part (pos n) = n
pos_part (negsuc n) = 0

abbrev pub neg_part : ℤ → ℕ
neg_part (pos n) = 0
neg_part (negsuc n) = suc n

-- a - b, as an integer.
abbrev pub sub_ℕ : ℕ → ℕ → ℤ
sub_ℕ a b = Tests.if◌then◌else◌ (Tests.leb b a) (pos (a - b)) (negsuc (b - a - 1))

abbrev pub ltb : ℤ → ℤ → Bool
ltb a b = Tests.ltb (pos_part a + neg_part b) (pos_part b + neg_part a)

abbrev pub leb : ℤ → ℤ → Bool
leb a b = Tests.leb (pos_part a + neg_part b) (pos_part b + neg_part a)

infix 50 ◌≤ℤ◌
abbrev pub ◌≤ℤ◌ : ℤ → ℤ → Type 0
a ≤ℤ b = pos_part a + neg_part b ≤ pos_part b + neg_part a

-- The largest int64.
abbrev pub max_int64 : ℕ
max_int64 = 9223372036854775807

-- A result outside the int64 range is replaced by the nearest end of it.
unfoldable pub saturate : ℤ → ℤ
saturate (pos n) = pos (min n max_int64)
saturate (negsuc n) = negsuc (min n max_int64)

-- Two's complement wrap-around at 64 bits.
unfoldable pub wrap : ℤ → ℤ
wrap (pos n) =
    let r = n % 2 ^ 64 in
    Tests.if◌then◌else◌ (Tests.leb r max_int64) (pos r) (negsuc (2 ^ 64 - r - 1))
wrap (negsuc n) =
    let r = n % 2 ^ 64 in
    Tests.if◌then◌else◌ (Tests.leb r max_int64) (negsuc r) (pos (2 ^ 64 - r - 1))

-- 2 * d on int64.
unfoldable pub double : ℤ → ℤ
unfolding wrap
double (pos n) = wrap (pos (n + n))
double (negsuc n) = wrap (negsuc (n + n + 1))

pub ltb-false_iff_le : (a b : ℤ) → ltb a b ≡ false → b ≤ℤ a
ltb-false_iff_le a b h = ground arith

pub leb→le : (a b : ℤ) → leb a b ≡ true → a ≤ℤ b
leb→le a b h = ground arith

-- a - b on int64.
unfoldable pub sub64 : ℤ → ℤ → ℤ
unfolding wrap
sub64 a b = wrap (sub_ℕ (pos_part a + neg_part b) (pos_part b + neg_part a))

-- The difference of two non-negative int64 values in order does not wrap.
pub sub64-pos : (a b : ℕ) → b ≤ a → a ≤ max_int64 → sub64 (pos a) (pos b) ≡ pos (a - b)
unfolding sub64
sub64-pos a b h k = ground arith
