-- ===== src/Cache/Evaluation.antt =====
-- internal/cachepolicy/evaluate.go: what one observation of an artifact makes of its record.
pub mod Stability
pub mod Runs
use ghostgc.Prelude.{
  ℕ, ◌<>◌, ◌-◌, ◌%◌, Bool, true, false, not, ◌&&◌, ◌||◌, String, Option, none, some, List, [], ◌∷◌,
  ◌++◌, ◌==◌, string_eq, if◌then◌else◌, suc,
}
use ghostgc.Prelude.Int.{ℤ, pos, negsuc}
use ghostgc.Prelude.Int
use ghostgc.Prelude.Time.{Instant, Duration, sub, unix, unix_nano}
use ghostgc.Prelude.Runtime.{Runtime}
use ghostgc.Config.{recommend, mode_eq}
use ghostgc.Cache.{
  Lifecycle, observed, protected, settling, stale_candidate, recommended, restored, lifecycle_eq,
  Artifact, Decision, CachePolicy, CacheConfig, Digests,
}

unfoldable pub stable_history_eligible : Lifecycle → Bool
stable_history_eligible l =
    l == observed || l == settling || l == stale_candidate || l == recommended || l == restored

-- The first enabled policy.
unfoldable pub enabled_policy : List CachePolicy → Option CachePolicy
enabled_policy [] = none
enabled_policy (p ∷ ps) = if p.enabled then some p else enabled_policy ps

-- Duration.Truncate(time.Second).
unfoldable pub whole_seconds : Duration → Duration
whole_seconds (pos n) = pos (n - n % 1000000000)
whole_seconds (negsuc n) = Int.sub_ℕ 0 (suc n - suc n % 1000000000)

unfoldable pub size_in_bounds : CacheConfig → Artifact → Bool
size_in_bounds c a =
    Int.leb (pos 0) a.identity.size && Int.leb a.identity.size c.max_bytes_per_action

-- A reason joins the evidence.
unfoldable pub with_reason : String → Artifact → Artifact
with_reason reason a = record a { reason = reason; evidence = a.evidence ++ (reason ∷ []) }

-- The artifact as if it had not been seen before, protected if it is too large.
unfoldable pub first_seen : Digests → CacheConfig → Instant → Artifact → Artifact
unfolding with_reason
first_seen D c now seen =
    let a = record seen {
      configuration = D.of_config c;
      first_observed_ns = unix_nano now;
      last_observed_ns = unix_nano now;
      stable_since_ns = unix_nano now;
    } in
    if size_in_bounds c a
    then a
    else with_reason "artifact size exceeds the configured cache action byte bound"
        (record a { lifecycle = protected })

-- Whether the stable window of the record before goes on.
unfoldable pub continues : Artifact → Artifact → Bool
continues prior a =
    stable_history_eligible prior.lifecycle
    && prior.identity_digest == a.identity_digest
    && prior.manifest_digest == a.manifest_digest

unfoldable pub with_history : Option Artifact → Artifact → Artifact
with_history none a = a
with_history (some prior) a = record a {
  first_observed_ns = prior.first_observed_ns;
  stable_since_ns = if continues prior a then prior.stable_since_ns else a.stable_since_ns;
}

abbrev decision_of : Artifact → String → String → Decision
decision_of a result reason = record {
  id = pos 0;
  evaluation_id = pos 0;
  artifact_id = a.id;
  policy_id = "";
  result = result;
  reason = reason;
  evidence = a.evidence;
}

module _ (R : Runtime) (D : Digests) where
  unfoldable pub settle : CacheConfig → Duration → Artifact → Artifact
  unfolding with_reason
  settle c stable_for a =
      with_reason
        ("unchanged committed observations span "
          <> R.duration_text (whole_seconds stable_for)
          <> "; "
          <> R.duration_text c.min_stable
          <> " required")
        (record a { lifecycle = settling })

  -- A stable artifact under the enabled policy.
  unfoldable pub under_policy : CacheConfig → Artifact → Option CachePolicy → Artifact × Decision
  under_policy c a none =
      (a, decision_of a "no_policy" "no enabled exact cache policy grants recommendation authority")
  under_policy c a (some p) =
      let b = record a { policy_id = p.id } in
      if c.global_mode == recommend && p.mode == recommend
      then (
        record b {
          lifecycle = recommended;
          reason = "cache-global recommend authority and one exact policy permit a manual preview";
        },
        record (decision_of a "recommended"
            "cache-global recommend authority and one exact policy permit a manual preview") {
              policy_id = p.id;
            },
      )
      else (
        b,
        record (decision_of a "audit"
            "candidate is audit-only; cache-global and policy recommend authority are both required") {
              policy_id = p.id;
            },
      )

  unfoldable pub stable_candidate : Artifact → Artifact
  unfolding with_reason
  stable_candidate a =
      with_reason
        "two committed observations prove unchanged identity and manifest across the stable window"
        (record a { lifecycle = stale_candidate })

  unfoldable pub is_first : Option Artifact → Bool
  is_first none = true
  is_first (some prior) = false

  -- Evaluate.
  unfoldable pub evaluate : CacheConfig → Instant → Artifact → Option Artifact → Artifact × Decision
  evaluate c now seen previous =
      let a = with_history previous (first_seen D c now seen) in
      let stable_for = sub now (unix a.stable_since_ns) in
      if a.lifecycle == protected
      then (a, decision_of a "protected" a.reason)
      else if is_first previous || Int.ltb stable_for c.min_stable
      then (
        settle c stable_for a,
        decision_of (settle c stable_for a) "settling" (settle c stable_for a).reason,
      )
      else under_policy c (stable_candidate a) (enabled_policy c.policies)
