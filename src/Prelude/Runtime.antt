-- ===== src/Prelude/Runtime.antt =====
-- What the source takes from the Go runtime and library and this model does not define: IEEE
-- floating point, Unicode case mapping, and the text that `fmt` and `time` print.
use Prim.Native.Nat.{ℕ}
use Prim.Native.String.{String}
use mathlib.Core.Bool.{Bool}
use mathlib.Core.Option.{Option}
use ghostgc.Prelude.Int.{ℤ}
use ghostgc.Prelude.Time.{Instant, Duration}

pub record Runtime : Type 1 where
  -- float64 with its order, its conversion from int64, and `n / 10^k` as a literal.
  pub Float : Type 0
  pub lt : Float → Float → Bool
  pub le : Float → Float → Bool
  pub of_int : ℤ → Float
  pub mul : Float → Float → Float
  pub div : Float → Float → Float
  pub literal : ℕ → ℕ → Float
  -- strings.ToLower and strings.TrimSpace, which know the Unicode tables.
  pub to_lower : String → String
  pub trim_space : String → String
  -- %d, %q, %.2f, a Duration under %s, and Format(time.RFC3339).
  pub decimal : ℤ → String
  -- strconv.Atoi and strconv.ParseInt(s, 10, 64) on a platform with 64-bit int.
  pub parse_int : String → Option ℤ
  pub quoted : String → String
  pub fixed2 : Float → String
  pub duration_text : Duration → String
  pub rfc3339 : Instant → String
