-- ===== src/Cache/Config.antt =====
-- internal/config/cache.go: the checks of the cache configuration.
pub mod Accepted
use ghostgc.Prelude.{
  ℕ, zero, suc, Bool, true, false, not, ◌&&◌, ◌||◌, String, Option, none, some, List, [], ◌∷◌, ◌==◌,
  ◌!=◌, string_eq, if◌then◌else◌, contains, leb, ltb, is_empty,
}
use ghostgc.Prelude.Int.{pos}
use ghostgc.Prelude.Int
use ghostgc.Prelude.Time.{minutes}
use ghostgc.Prelude.Runtime.{Runtime}
use ghostgc.Config.{Mode, disabled, audit, recommend, mode_eq}
use ghostgc.Config.Policies.{Agents, matches_id}
use ghostgc.Cache.{CachePolicy, CacheConfig}

pub data CacheError : Type 0 where
  unknown_global_mode short_duration bound_not_positive bound_too_large no_roots : CacheError
  not_a_provider_root duplicate_root bad_policy_id no_description unknown_mode : CacheError
  enabled_but_disabled other_selector agent_not_enabled several_enabled : CacheError

-- What the checks ask of path/filepath about a root.
pub record RootPaths : Type 0 where
  pub is_abs : String → Bool
  pub clean : String → String
  pub base : String → String

infixr 5 ◌then_check◌
unfoldable pub ◌then_check◌ : Option CacheError → Option CacheError → Option CacheError
some e then_check rest = some e
none then_check rest = rest

unfoldable pub refuse_if : Bool → CacheError → Option CacheError
refuse_if b e = if b then some e else none

-- The modes of the cache lane.
unfoldable pub is_cache_mode : Mode → Bool
is_cache_mode m = m == disabled || m == audit || m == recommend

unfoldable pub check_bounds : CacheConfig → Option CacheError
unfolding ◌then_check◌ refuse_if
check_bounds c =
    refuse_if (not (is_cache_mode c.global_mode)) unknown_global_mode
    then_check refuse_if
        (Int.ltb c.scan_interval (minutes 1)
          || Int.ltb c.min_stable (minutes 1)
          || Int.ltb c.quarantine_grace (minutes 1))
        short_duration
    then_check refuse_if
        (Int.ltb c.max_entries_per_scan (pos 1)
          || Int.ltb c.max_entries_per_action (pos 1)
          || Int.ltb c.max_bytes_per_action (pos 1))
        bound_not_positive
    then_check refuse_if
        (Int.ltb (pos 100000) c.max_entries_per_scan
          || Int.ltb (pos 1000) c.max_entries_per_action
          || Int.ltb (pos 1099511627776) c.max_bytes_per_action)
        bound_too_large
    then_check refuse_if (c.enabled && is_empty c.roots) no_roots

unfoldable pub check_roots : RootPaths → List String → List String → Option CacheError
unfolding ◌then_check◌ refuse_if
check_roots paths seen [] = none
check_roots paths seen (root ∷ roots) =
    refuse_if
      (not (paths.is_abs root) || paths.clean root != root || paths.base root != "shell_snapshots")
      not_a_provider_root
    then_check refuse_if (contains seen root) duplicate_root
    then_check check_roots paths (root ∷ seen) roots

unfoldable pub check_policy : Runtime → Agents → List String → CachePolicy → Option CacheError
unfolding ◌then_check◌ refuse_if
check_policy R configured ids p =
    refuse_if (not (matches_id p.id) || contains ids p.id) bad_policy_id
    then_check refuse_if (R.trim_space p.description == "") no_description
    then_check refuse_if (not (is_cache_mode p.mode)) unknown_mode
    then_check refuse_if (p.enabled && p.mode == disabled) enabled_but_disabled
    then_check refuse_if
        (p.provider != "codex-shell-snapshot-v1"
          || p.agent != "codex"
          || p.artifact_kind != "shell-snapshot"
          || p.session_state != "completed")
        other_selector
    then_check refuse_if (elim (configured p.agent) [ none ↦ true | some enabled ↦ not enabled ])
        agent_not_enabled

-- The loop over the policies, with the ids and the number of enabled policies so far.
unfoldable pub check_policies :
    Runtime → Agents → List String → ℕ → List CachePolicy → Option CacheError
unfolding ◌then_check◌ refuse_if
check_policies R configured ids enabled [] = refuse_if (ltb 1 enabled) several_enabled
check_policies R configured ids enabled (p ∷ ps) =
    check_policy R configured ids p
    then_check check_policies R configured (p.id ∷ ids) (if p.enabled then suc enabled else enabled)
        ps

-- Cache.Validate.
unfoldable pub validate : Runtime → RootPaths → Agents → CacheConfig → Option CacheError
unfolding ◌then_check◌
validate R paths configured c =
    check_bounds c
    then_check check_roots paths [] c.roots
    then_check check_policies R configured [] 0 c.policies
