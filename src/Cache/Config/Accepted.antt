-- ===== src/Cache/Config/Accepted.antt =====
-- What the checks of the cache configuration leave.
use ghostgc.Prelude.{
  ℕ, suc, ◌+◌, ◌≤◌, ◌≡◌, ◌⊎◌, Bool, true, false, String, Option, none, some, List, [], ◌∷◌, map,
  string_eq, if◌then◌else◌, is_empty, All, NoRepeat, contains, arith,
}
use ghostgc.Prelude.Int.{pos, ◌≤ℤ◌}
use ghostgc.Prelude.Time.{minutes}
use ghostgc.Prelude.Runtime.{Runtime}
use ghostgc.Config.{disabled, audit, recommend, mode_eq}
use ghostgc.Config.Policies.{Agents, matches_id}
use ghostgc.Cache.{CachePolicy, CacheConfig}
use ghostgc.Cache.Config.{
  CacheError, RootPaths, ◌then_check◌, refuse_if, is_cache_mode, check_bounds, check_roots,
  check_policy, check_policies, validate,
}

-- The windows are a minute or more, and the bounds are positive and below the hard maxima.
pub record IsBounded (c : CacheConfig) : Type 0 where
  pub mode : (c.global_mode ≡ disabled) ⊎ ((c.global_mode ≡ audit) ⊎ (c.global_mode ≡ recommend))
  pub scan_interval : minutes 1 ≤ℤ c.scan_interval
  pub min_stable : minutes 1 ≤ℤ c.min_stable
  pub quarantine_grace : minutes 1 ≤ℤ c.quarantine_grace
  pub entries_per_scan : (pos 1 ≤ℤ c.max_entries_per_scan) × (c.max_entries_per_scan ≤ℤ pos 100000)
  pub entries_per_action :
      (pos 1 ≤ℤ c.max_entries_per_action) × (c.max_entries_per_action ≤ℤ pos 1000)
  pub bytes_per_action :
      (pos 1 ≤ℤ c.max_bytes_per_action) × (c.max_bytes_per_action ≤ℤ pos 1099511627776)
  pub rooted : c.enabled ≡ true → is_empty c.roots ≡ false

-- An absolute, clean path that ends in the provider's directory.
pub record IsProviderRoot (paths : RootPaths) (root : String) : Type 0 where
  pub absolute : paths.is_abs root ≡ true
  pub clean : paths.clean root ≡ root
  pub provider : paths.base root ≡ "shell_snapshots"

-- The one selector that there is, of an enabled agent.
pub record IsSelector (configured : Agents) (p : CachePolicy) : Type 0 where
  pub named : matches_id p.id ≡ true
  pub mode : (p.mode ≡ audit) ⊎ ((p.mode ≡ recommend) ⊎ ((p.mode ≡ disabled) × (p.enabled ≡ false)))
  pub provider : p.provider ≡ "codex-shell-snapshot-v1"
  pub agent : p.agent ≡ "codex"
  pub kind : p.artifact_kind ≡ "shell-snapshot"
  pub session : p.session_state ≡ "completed"
  pub configured_agent : configured p.agent ≡ some true

then_check-none : (a b : Option CacheError) → (a then_check b) ≡ none → (a ≡ none) × (b ≡ none)
unfolding ◌then_check◌
then_check-none a b h = ground arith

refuse_if-none : (b : Bool) (e : CacheError) → refuse_if b e ≡ none → b ≡ false
unfolding refuse_if
refuse_if-none b e h = ground arith

check_bounds-IsBounded : (c : CacheConfig) → check_bounds c ≡ none → IsBounded c
unfolding check_bounds refuse_if ◌then_check◌ is_cache_mode
check_bounds-IsBounded c h = record {
  mode = ground arith;
  scan_interval = ground arith;
  min_stable = ground arith;
  quarantine_grace = ground arith;
  entries_per_scan = ground arith;
  entries_per_action = ground arith;
  bytes_per_action = ground arith;
  rooted = ground arith;
}

check_roots-IsProviderRoot :
    (paths : RootPaths) (seen roots : List String)
    → check_roots paths seen roots ≡ none
    → All (IsProviderRoot paths) roots × NoRepeat seen roots
unfolding check_roots refuse_if ◌then_check◌
check_roots-IsProviderRoot paths seen [] h = (tt, tt)
check_roots-IsProviderRoot paths seen (root ∷ roots) h =
    let rest = check_roots-IsProviderRoot paths (root ∷ seen) roots (ground arith) in
    (
      (record { absolute = ground arith; clean = ground arith; provider = ground arith }, rest.0),
      (ground arith, rest.1),
    )

check_policy-IsSelector :
    (R : Runtime) (configured : Agents) (ids : List String) (p : CachePolicy)
    → check_policy R configured ids p ≡ none
    → IsSelector configured p × (contains ids p.id ≡ false)
unfolding check_policy refuse_if ◌then_check◌ is_cache_mode
check_policy-IsSelector R configured ids p h = (
  record {
    named = ground arith;
    mode = ground arith;
    provider = ground arith;
    agent = ground arith;
    kind = ground arith;
    session = ground arith;
    configured_agent = ground arith;
  },
  ground arith,
)

-- How many policies are enabled.
abbrev pub enabled_count : List CachePolicy → ℕ
enabled_count [] = 0
enabled_count (p ∷ ps) = if p.enabled then suc (enabled_count ps) else enabled_count ps

check_policies-IsSelector :
    (R : Runtime) (configured : Agents) (ids : List String) (n : ℕ) (ps : List CachePolicy)
    → check_policies R configured ids n ps ≡ none
    → All (IsSelector configured) ps
      × NoRepeat ids (map (λ p. p.id) ps)
      × (n + enabled_count ps ≤ 1)
unfolding check_policies
check_policies-IsSelector R configured ids n [] h =
    (tt, tt, let small = refuse_if-none _ _ h in ground arith)
check_policies-IsSelector R configured ids n (p ∷ ps) h =
    let (own, others) = then_check-none _ _ h in
    let (selector, fresh) = check_policy-IsSelector R configured ids p own in
    let (all, distinct, few) = check_policies-IsSelector R configured (p.id ∷ ids) _ ps others in
    ((selector, all), (fresh, distinct), ground arith)

-- A cache configuration that is accepted has windows of at least a minute, positive bounds below the
-- hard maxima, distinct canonical provider roots, and policies of distinct ids that all are the one
-- exact selector of an enabled agent; at most one of them is enabled.
pub validate-IsBounded :
    (R : Runtime) (paths : RootPaths) (configured : Agents) (c : CacheConfig)
    → validate R paths configured c ≡ none
    → IsBounded c
      × (All (IsProviderRoot paths) c.roots × NoRepeat [] c.roots)
      × All (IsSelector configured) c.policies
      × NoRepeat [] (map (λ p. p.id) c.policies)
      × (enabled_count c.policies ≤ 1)
unfolding validate
validate-IsBounded R paths configured c h =
    let (bounds, rest) = then_check-none _ _ h in
    let (roots, policies) = then_check-none _ _ rest in
    let (all, distinct, few) = check_policies-IsSelector R configured [] 0 c.policies policies in
    (
      check_bounds-IsBounded c bounds,
      check_roots-IsProviderRoot paths [] c.roots roots,
      all,
      distinct,
      omega arith,
    )
