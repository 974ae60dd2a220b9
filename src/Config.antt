-- ===== src/Config.antt =====
-- internal/config: the modes, and the validation of the process policies.
pub mod Policies
pub mod Accepted
use ghostgc.Prelude.{Bool, true, false, String, Eq, string_eq}

-- A mode is a string; one that is none of the four known is `invalid`.
pub data Mode : Type 0 where
  disabled audit recommend enforce : Mode
  invalid : String → Mode

Mode-discrete : Discrete Mode
Mode-discrete = hlevel (string_eq.dec)

instance unfoldable pub mode_eq : Eq Mode
unfolding Mode-discrete
mode_eq = record { dec = Mode-discrete }

unfoldable pub is_valid_mode : Mode → Bool
is_valid_mode disabled = true
is_valid_mode audit = true
is_valid_mode recommend = true
is_valid_mode enforce = true
is_valid_mode (invalid m) = false
