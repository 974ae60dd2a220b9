-- ===== src/Tests/Caches.antt =====
-- The cache lane on one artifact: two observations, a cleanup with its approval, and a purge.
use native.Mathlib.Decide.{ℕ_discrete}
use ghostgc.Prelude.{
  ◌+◌, ◌-◌, ◌≡◌, ◌≤◌, ◌⊎◌, refl, true, false, String, none, some, List, [], ◌∷◌, ◌<>◌, All,
  NoRepeat, map, arith, string_eq, nat_eq,
}
use ghostgc.Prelude.Int.{ℤ, pos, int_eq, ◌≤ℤ◌}
use ghostgc.Prelude.Int
use ghostgc.Prelude.Time.{Instant, minutes, sub, unix_nano, unix}
use ghostgc.Config.{recommend, mode_eq}
use ghostgc.Daemon.{Result, ok, err}
use ghostgc.Daemon.Approvals.{lookup}
use ghostgc.Cache.{
  observed, recommended, quarantined, Lifecycle, Identity, Artifact, Action, Quarantine,
  CachePolicy, CacheConfig, Digests,
}
use ghostgc.Cache.Config.{RootPaths, validate}
use ghostgc.Cache.Config.Accepted.{
  IsBounded, IsProviderRoot, IsSelector, enabled_count, validate-IsBounded,
}
use ghostgc.Cache.Evaluation.{evaluate}
use ghostgc.Cache.Evaluation.Stability.{IsRecommended}
use ghostgc.Cache.Evaluation.Runs.{scanned, left_by, Unchanged, recommended_history}
use ghostgc.Cache.Store.{CacheStore, record_quarantined, find_where}
use ghostgc.Cache.Lane.Actions.Consistent.{IsQuarantined, apply_cache_approval-IsQuarantined}
use ghostgc.Cache.Lane.{
  CacheApproval, PurgePlan, PurgeExecution, Lane, CacheWorld, Inspection, Response, Event,
}
use ghostgc.Cache.Lane.Revalidation.{fresh_cleanup_artifact, is_consistent}
use ghostgc.Cache.Lane.Revalidation.Passed.{IsFresh, fresh_cleanup_artifact-IsFresh}
use ghostgc.Cache.Lane.Actions.{apply_cache_approval, quarantine_item}
use ghostgc.Cache.Lane.Actions.Journal.{Quiet, OneCall}
use ghostgc.Cache.Lane.Actions.Moves.{Allows, Call, consumed_lane, apply_cache_approval-OneCall}
use ghostgc.Cache.Lane.Purge.{cache_purge_complete}
use ghostgc.Cache.Lane.Purge.Plans.{FewPlans}
use ghostgc.Cache.Lane.Requests.{
  Request, cleanup_apply, purge_apply, purge_complete, cleanup_preview, serve_all, handed_out,
}
use ghostgc.Cache.Lane.Requests.Stopped.{IsStopped, serve_all-IsStopped}
use ghostgc.Cache.Lane.Requests.Sequences.{serve_all-FewPlans}
use ghostgc.Cache.Lane.Purge.Outcomes.{IsHeld, Outcome, cache_purge_complete-Outcome}
use ghostgc.Tests.Samples.{go, now, agents}

abbrev digests : Digests
digests = record {
  of_config = λ c. "config";
  of_identity = λ i. "identity";
  of_manifest = λ path i. "manifest of " <> path;
}

abbrev entry : Identity
entry = record {
  uid = 501;
  device = 1;
  inode = 7;
  mode = 420;
  nlink = 1;
  size = pos 4096;
  mtime_ns = pos 1;
  ctime_ns = pos 1;
  atime_ns = pos 1;
  birth_ns = pos 1;
  entry_type = "file";
}

abbrev root : Identity
root = record entry { inode = 2; entry_type = "directory" }

abbrev policy : CachePolicy
policy = record {
  id = "shells";
  description = "completed shell snapshots";
  enabled = true;
  mode = recommend;
  provider = "codex-shell-snapshot-v1";
  agent = "codex";
  artifact_kind = "shell-snapshot";
  session_state = "completed";
}

abbrev config : CacheConfig
config = record {
  enabled = true;
  global_mode = recommend;
  roots = "/home/shell_snapshots" ∷ [];
  scan_interval = minutes 30;
  min_stable = minutes 5;
  quarantine_grace = minutes 60;
  max_entries_per_scan = pos 100;
  max_entries_per_action = pos 10;
  max_bytes_per_action = pos 1048576;
  policies = policy ∷ [];
}

abbrev paths : RootPaths
paths = record { is_abs = λ p. true; clean = λ p. p; base = λ p. "shell_snapshots" }

accepted_cache : validate go paths agents config ≡ none
unfolding validate ghostgc.Cache.Config.check_bounds ghostgc.Cache.Config.is_cache_mode mode_eq
    ghostgc.Cache.Config.check_roots string_eq ghostgc.Cache.Config.check_policies
    ghostgc.Cache.Config.check_policy ghostgc.Config.Policies.matches_id
accepted_cache = refl

-- What the provider reports of the artifact.
abbrev seen : Artifact
seen = record {
  id = "ca_1";
  provider = "codex-shell-snapshot-v1";
  agent = "codex";
  session_id = "s1";
  kind = "shell-snapshot";
  root_path = "/home/shell_snapshots";
  relative_path = "a.sh";
  identity = entry;
  root_identity = root;
  identity_digest = "identity";
  manifest_digest = "manifest of a.sh";
  first_observed_ns = pos 0;
  last_observed_ns = pos 0;
  stable_since_ns = pos 0;
  lifecycle = observed;
  reason = "";
  evidence = [];
  configuration = "";
  evaluation_id = pos 0;
  policy_id = "";
  quarantine_path = "";
  quarantined_at_ns = pos 0;
  quarantine_digest = "";
}

abbrev earlier : Instant
earlier = now - 600000000000

-- The artifact after the observation of ten minutes ago and after the one now.
abbrev first : Artifact
first = (evaluate go digests config earlier seen none).0

abbrev current : Artifact
current = (evaluate go digests config now seen (some first)).0

is_recommended :
    (evaluate go digests config now seen
      (left_by go digests (scanned config earlier seen ∷ []))).0.lifecycle
    ≡ recommended
unfolding evaluate ghostgc.Cache.lifecycle_eq ghostgc.Cache.Evaluation.with_history left_by
    ghostgc.Cache.Evaluation.first_seen ghostgc.Cache.Evaluation.size_in_bounds
    ghostgc.Cache.Evaluation.is_first sub unix ghostgc.Cache.Evaluation.continues
    ghostgc.Cache.Evaluation.stable_history_eligible ghostgc.Cache.Evaluation.settle string_eq
    unix_nano ghostgc.Cache.Evaluation.under_policy ghostgc.Cache.Evaluation.enabled_policy mode_eq
is_recommended = refl

recommended_history_example :
    (since : Instant) × (config.min_stable ≤ℤ sub now since)
    × Unchanged go digests seen.identity_digest seen.manifest_digest since
        (scanned config now seen ∷ scanned config earlier seen ∷ [])
    × IsRecommended go digests config now seen
        (evaluate go digests config now seen
          (left_by go digests (scanned config earlier seen ∷ []))).0
recommended_history_example =
    recommended_history go digests config now seen (scanned config earlier seen ∷ []) is_recommended

validate-IsBounded_example :
    IsBounded config
    × (All (IsProviderRoot paths) config.roots × NoRepeat [] config.roots)
    × All (IsSelector agents) config.policies
    × NoRepeat [] (map (λ p. p.id) config.policies)
    × (enabled_count config.policies ≤ 1)
validate-IsBounded_example = validate-IsBounded go paths agents config accepted_cache

abbrev cleanup : CacheApproval
cleanup = record {
  kind = "cleanup";
  binding_digest = "bound";
  artifact = current;
  quarantine = none;
  destination = ".ghostgc-quarantine/ca_1";
  configuration = "config";
  expires = now + 60000000000;
  used = false;
}

abbrev lane : Lane
lane = record {
  store = record {
    latest_evaluation = pos 0;
    artifacts = current ∷ [];
    quarantines = [];
    actions = [];
  };
  approvals = ("#token", cleanup) ∷ [];
  purge_plans = [];
  cache_healthy = true;
  filesystem_healthy = true;
  journal = [];
}

abbrev cache_world : CacheWorld
cache_world = record {
  read_error = λ _. none;
  commit_error = λ _. none;
  observe = ok (record { complete = true; artifacts = seen ∷ [] });
  quarantine = λ _ _ _ _ i. ok i;
  restore = λ _ _ _ _ i. ok i;
  quarantine_entry = λ _ _ _. ok none;
  new_token = λ _. ok "fresh";
  secret_digest = λ t. "#" <> t;
  binding = λ _ _ _ _ _. ok "bound";
  json_list = λ _. "[]";
  base = λ _. "ca_1";
  join = λ d p. d <> "/" <> p;
  now_start = now;
  now_evaluated = now;
  now_verified = now;
  now_completed = now;
  now_failed = now;
  now_answered = now;
}

apply_cache_approval-OneCall_example :
    let after =
      (apply_cache_approval go digests config cache_world "cleanup" "token" lane).0.journal in
    Quiet lane.journal after
    ⊎ ((a : CacheApproval) × (call : Event) × Allows go digests config cache_world "cleanup" "token"
          lane a
        × Call go digests config cache_world
            (consumed_lane go digests config cache_world "token" lane)
            (record a { used = true })
            call
        × OneCall a call lane.journal after)
apply_cache_approval-OneCall_example =
    apply_cache_approval-OneCall go digests config cache_world "cleanup" "token" lane

abbrev requests : List (CacheWorld × Request)
requests =
    (cache_world, cleanup_preview "ca_1" "shells")
    ∷ (cache_world, cleanup_apply "token")
    ∷ (cache_world, purge_apply "token" "ca_1")
    ∷ (cache_world, purge_complete "act_1" "secret" "")
    ∷ []

abbrev first_of : Artifact → Result (Artifact × List String) → Artifact × List String
first_of a (ok p) = p
first_of a (err text) = (a, [])

abbrev fresh : Artifact × List String
fresh = first_of seen (fresh_cleanup_artifact go digests config cache_world lane cleanup)

is_fresh : fresh_cleanup_artifact go digests config cache_world lane cleanup ≡ ok fresh
unfolding fresh_cleanup_artifact string_eq ghostgc.Cache.Lane.cache_policy_enabled mode_eq evaluate
    ghostgc.Cache.lifecycle_eq ghostgc.Cache.Evaluation.with_history
    ghostgc.Cache.Evaluation.first_seen ghostgc.Cache.Evaluation.size_in_bounds
    ghostgc.Cache.Evaluation.is_first sub unix ghostgc.Cache.Evaluation.continues
    ghostgc.Cache.Evaluation.stable_history_eligible ghostgc.Cache.Evaluation.settle unix_nano
    ghostgc.Cache.Evaluation.under_policy ghostgc.Cache.Evaluation.enabled_policy
    ghostgc.Cache.Evaluation.stable_candidate ghostgc.Cache.Evaluation.whole_seconds
    ghostgc.Cache.Evaluation.with_reason ghostgc.Cache.Lane.Revalidation.current_cache_artifact
    ghostgc.Cache.Lane.Revalidation.fresh_evaluation
    ghostgc.Cache.Lane.Revalidation.fresh_inspection ghostgc.Cache.Lane.Revalidation.same_binding
    ghostgc.Cache.Lane.Revalidation.unchanged ghostgc.Cache.Lane.read_or
    ghostgc.Cache.Lane.refuse_unless ghostgc.Cache.Lane.◌and_then◌
    ghostgc.Cache.Store.current_artifacts find_where ghostgc.Cache.identity_eq
    ghostgc.Cache.same_object int_eq Int.saturate nat_eq ℕ_discrete
is_fresh = refl

fresh_cleanup_artifact-IsFresh_example : IsFresh go digests config cache_world lane cleanup fresh.0
fresh_cleanup_artifact-IsFresh_example =
    fresh_cleanup_artifact-IsFresh go digests config cache_world lane cleanup fresh.0 fresh.1
      is_fresh

-- The quarantine of the artifact, and the store with its action.
abbrev item : Quarantine
item = record {
  artifact_id = "ca_1";
  root_path = "/home/shell_snapshots";
  original_path = "a.sh";
  quarantine_path = ".ghostgc-quarantine/ca_1";
  identity = entry;
  manifest_digest = "manifest of .ghostgc-quarantine/ca_1";
  quarantined_ns = pos 2;
  grace_until_ns = pos 3;
  status = "quarantined";
  updated_ns = pos 2;
  configuration = "config";
  original_manifest = "manifest of a.sh";
}

abbrev attempt : Action
attempt = record {
  id = pos 0;
  action_id = "act_1";
  artifact_id = "ca_1";
  kind = "cleanup";
  policy_id = "shells";
  requested_ns = pos 1;
  updated_ns = pos 1;
  result = "attempting";
  reason = "";
  evidence = [];
}

abbrev begun : CacheStore
begun = record lane.store { artifacts = seen ∷ []; actions = attempt ∷ [] }

abbrev plan : PurgePlan
plan = record {
  action_id = "act_1";
  artifact_id = "ca_1";
  root_path = "/home/shell_snapshots";
  quarantine_path = ".ghostgc-quarantine/ca_1";
  root_identity = root;
  identity = entry;
  configuration = "config";
  expires_ns = unix_nano (now + 60000000000);
  completion = "secret";
}

abbrev purging_lane : Lane
purging_lane = record lane {
  store = record begun { quarantines = item ∷ [] };
  purge_plans =
      ("#secret", record { plan = plan; approval = cleanup; evidence = []; used = false }) ∷ [];
}

abbrev answer_of : Response → Result Response → Response
answer_of r (ok q) = q
answer_of r (err text) = r

abbrev no_response : Response
no_response = record {
  action_id = "";
  artifact_id = "";
  action = "";
  result = "";
  reason = "";
  at_ns = pos 0;
  evidence = [];
}

abbrev completed : Response
completed =
    answer_of no_response
      (cache_purge_complete go digests config cache_world "act_1" "secret" "" purging_lane).1

is_completed :
    ((cache_purge_complete go digests config cache_world "act_1" "secret" "" purging_lane).1
      ≡ ok completed)
    × (completed.result ≡ "purged")
unfolding cache_purge_complete ghostgc.Cache.Lane.Purge.complete_consumed
    ghostgc.Cache.Lane.Purge.consume_execution string_eq ghostgc.Cache.Lane.Purge.take_execution
    lookup ghostgc.Cache.Lane.Purge.verify_purge ghostgc.Cache.Lane.Purge.verify_entry unix_nano
    ghostgc.Cache.Lane.Actions.answer ghostgc.Cache.Lane.commit_if ghostgc.Cache.Store.record_purged
    ghostgc.Cache.Store.finish_action_tx nat_eq ghostgc.Cache.Store.count_where
    ghostgc.Cache.Lane.Purge.with_plans ghostgc.Cache.Lane.Actions.action_response
is_completed = (refl, refl)

cache_purge_complete-Outcome_example :
    (x : PurgeExecution) × IsHeld go digests config cache_world "act_1" "secret" purging_lane x
    × Outcome go digests config cache_world
        (cache_world.quarantine_entry x.plan.root_path x.plan.quarantine_path x.plan.root_identity)
        x.plan.identity
        (Int.leb x.plan.expires_ns (unix_nano cache_world.now_verified))
        (cache_purge_complete go digests config cache_world "act_1" "secret" "" purging_lane).0
        completed.result
cache_purge_complete-Outcome_example =
    cache_purge_complete-Outcome go digests config cache_world "act_1" "secret" "" purging_lane
      completed is_completed.0

serve_all-FewPlans_example : FewPlans (serve_all go digests config requests purging_lane)
serve_all-FewPlans_example =
    serve_all-FewPlans go digests config requests purging_lane (omega arith)

abbrev stopped : Lane
stopped = record purging_lane { filesystem_healthy = false }

serve_all-IsStopped_example :
    IsStopped stopped
      (serve_all go digests config requests stopped)
      (handed_out go digests config requests stopped)
serve_all-IsStopped_example = serve_all-IsStopped go digests config requests stopped refl

abbrev cleaned : Response
cleaned =
    answer_of no_response
      (apply_cache_approval go digests config cache_world "cleanup" "token" lane).1

is_cleaned :
    ((apply_cache_approval go digests config cache_world "cleanup" "token" lane).1 ≡ ok cleaned)
    × (cleaned.result ≡ "quarantined")
unfolding apply_cache_approval string_eq ghostgc.Cache.Lane.Actions.apply_consumed
    ghostgc.Daemon.Approvals.consume_approval lookup ghostgc.Cache.Lane.Actions.apply_kind
    ghostgc.Cache.Lane.Actions.apply_quarantine ghostgc.Cache.Lane.Actions.quarantine_checked
    fresh_cleanup_artifact ghostgc.Cache.Lane.cache_policy_enabled mode_eq evaluate
    ghostgc.Cache.lifecycle_eq ghostgc.Cache.Evaluation.with_history
    ghostgc.Cache.Evaluation.first_seen ghostgc.Cache.Evaluation.size_in_bounds
    ghostgc.Cache.Evaluation.is_first sub unix ghostgc.Cache.Evaluation.continues
    ghostgc.Cache.Evaluation.enabled_policy ghostgc.Cache.Evaluation.settle
    ghostgc.Cache.Evaluation.stable_candidate ghostgc.Cache.Evaluation.stable_history_eligible
    ghostgc.Cache.Evaluation.under_policy ghostgc.Cache.Evaluation.whole_seconds
    ghostgc.Cache.Evaluation.with_reason ghostgc.Cache.Lane.Actions.action_response
    ghostgc.Cache.Lane.Actions.after_quarantine ghostgc.Cache.Lane.Actions.after_restore
    ghostgc.Cache.Lane.Actions.answer ghostgc.Cache.Lane.Actions.apply_restore
    ghostgc.Cache.Lane.Actions.committed_or ghostgc.Cache.Lane.Actions.failed_call
    ghostgc.Cache.Lane.Actions.new_action quarantine_item
    ghostgc.Cache.Lane.Actions.quarantine_reason ghostgc.Cache.Lane.Actions.reject_action
    ghostgc.Cache.Lane.Actions.reject_evidence ghostgc.Cache.Lane.Actions.restore_checked
    ghostgc.Cache.Lane.Actions.restore_reason ghostgc.Cache.Lane.Actions.try_quarantine
    ghostgc.Cache.Lane.Actions.try_restore ghostgc.Cache.Lane.Revalidation.check_quarantine
    ghostgc.Cache.Lane.Revalidation.current_cache_artifact
    ghostgc.Cache.Lane.Revalidation.current_quarantine_approval
    ghostgc.Cache.Lane.Revalidation.fresh_evaluation
    ghostgc.Cache.Lane.Revalidation.fresh_inspection is_consistent
    ghostgc.Cache.Lane.Revalidation.same_binding ghostgc.Cache.Lane.Revalidation.unchanged
    ghostgc.Cache.Lane.begin ghostgc.Cache.Lane.commit_if ghostgc.Cache.Lane.fail_action
    ghostgc.Cache.Lane.read_or ghostgc.Cache.Lane.refuse_unless ghostgc.Cache.Lane.◌and_then◌
    ghostgc.Cache.Store.artifact_of_action ghostgc.Cache.Store.begin_action
    ghostgc.Cache.Store.count_where ghostgc.Cache.Store.current_artifacts find_where
    ghostgc.Cache.Store.finish_action ghostgc.Cache.Store.finish_action_tx
    ghostgc.Cache.Store.mark_partial ghostgc.Cache.Store.mark_quarantined
    ghostgc.Cache.Store.mark_restored record_quarantined ghostgc.Cache.Store.record_restored
    ghostgc.Cache.Store.update_where ghostgc.Cache.Store.upsert_quarantine ghostgc.Cache.identity_eq
    ghostgc.Cache.same_object ghostgc.Daemon.Approvals.insert ghostgc.Daemon.Approvals.remove int_eq
    Int.saturate nat_eq ghostgc.Prelude.Time.add unix_nano ℕ_discrete
is_cleaned = (refl, refl)

lane_distinct : NoRepeat [] (map (λ a. a.id) lane.store.artifacts)
lane_distinct = (refl, tt)

apply_cache_approval-IsQuarantined_example :
    IsQuarantined go digests config cache_world cleaned
      (apply_cache_approval go digests config cache_world "cleanup" "token" lane).0.store
apply_cache_approval-IsQuarantined_example =
    apply_cache_approval-IsQuarantined go digests config cache_world "token" lane cleaned
      lane_distinct is_cleaned.0 is_cleaned.1
