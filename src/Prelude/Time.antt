-- ===== src/Prelude/Time.antt =====
-- `time.Time` and `time.Duration`. An instant is the number of nanoseconds since Go's zero time,
-- so `IsZero` is a test against 0; a duration is an int64 number of nanoseconds.
use Prim.Native.Nat.{◌<◌, ℕ, suc, ◌+◌, ◌-◌, ◌*◌, ◌≤◌}
use mathlib.Core.Path.{◌≡◌}
use mathlib.Core.Bool.{Bool, true, false}
use native.Mathlib.Omega.{arith}
use ghostgc.Prelude.Tests.{◌==◌, nat_eq, ltb}
use ghostgc.Prelude.Int.{ℤ, pos, negsuc, sub_ℕ, saturate, ◌≤ℤ◌}
use ghostgc.Prelude.Int

abbrev pub Instant : Type 0
Instant = ℕ

abbrev pub Duration : Type 0
Duration = ℤ

-- The zero `time.Time`.
abbrev pub never : Instant
never = 0

abbrev pub is_zero : Instant → Bool
is_zero t = t == 0

abbrev pub after : Instant → Instant → Bool
after t u = ltb u t

abbrev pub before : Instant → Instant → Bool
before t u = ltb t u

-- `t.Sub(u)` saturates at the ends of the int64 range.
unfoldable pub sub : Instant → Instant → Duration
unfolding saturate
sub t u = saturate (sub_ℕ t u)

-- `t.Add(d)`; an instant before the zero time is not represented.
unfoldable pub add : Instant → Duration → Instant
add t (pos n) = t + n
add t (negsuc n) = t - suc n

-- The Unix epoch, in nanoseconds since the zero time.
abbrev pub epoch : ℕ
epoch = 62135596800000000000

-- `time.Unix(0, ns)`.
unfoldable pub unix : ℤ → Instant
unix (pos n) = epoch + n
unix (negsuc n) = epoch - suc n

-- `t.UnixNano()`, whose value Go defines at the instants that an int64 can hold.
unfoldable pub unix_nano : Instant → ℤ
unix_nano t = sub_ℕ t epoch

abbrev pub seconds : ℕ → Duration
seconds n = pos (n * 1000000000)

abbrev pub minutes : ℕ → Duration
minutes n = pos (n * 60000000000)

-- A stored nanosecond count is read back exactly.
pub unix_nano-unix : (z : ℤ) → negsuc Int.max_int64 ≤ℤ z → unix_nano (unix z) ≡ z
unfolding unix unix_nano
unix_nano-unix z h = ground arith

-- A duration of at least k ns between two instants is a gap of at least k ns.
pub sub_ge : (t u k : ℕ) → Int.ltb (sub t u) (pos k) ≡ false → u + k ≤ t
unfolding sub
sub_ge t u k h = ground arith

pub sub_le : (t u k : ℕ) → k ≤ Int.max_int64 - 1 → Int.leb (sub t u) (pos k) ≡ true → t ≤ u + k
unfolding sub
sub_le t u k b h = ground arith

pub le-sub : (t u k : ℕ) → k ≤ Int.max_int64 → u + k ≤ t → Int.ltb (sub t u) (pos k) ≡ false
unfolding sub
le-sub t u k b h = ground arith

pub sub_pos : (t u : ℕ) → Int.ltb (pos 0) (sub t u) ≡ true → u < t
unfolding sub
sub_pos t u h = ground arith
