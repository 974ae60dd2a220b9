-- ===== src/Cache/Lane/Purge.antt =====
-- internal/daemon/cache_purge_action.go: a purge is prepared by the daemon, executed by the foreground
-- command, and completed by the daemon after it has looked at the filesystem.
pub mod Plans
pub mod Outcomes
use ghostgc.Prelude.{
  ℕ, ◌<>◌, Bool, true, false, not, ◌&&◌, ◌||◌, String, Option, none, some, List, [], ◌∷◌, ◌++◌,
  ◌==◌, ◌!=◌, string_eq, nat_eq, if◌then◌else◌, length, leb,
}
use ghostgc.Prelude.Int.{ℤ}
use ghostgc.Prelude.Int
use ghostgc.Prelude.Time.{Instant, minutes, add, unix_nano}
use ghostgc.Prelude.Runtime.{Runtime}
use ghostgc.Daemon.{Result, ok, err}
use ghostgc.Daemon.Approvals.{
  Approvals, Consumed, missing, denied, granted, consume_approval, lookup, insert, remove,
}
use ghostgc.Cache.{Identity, identity_eq, Action, Quarantine, CacheConfig, Digests}
use ghostgc.Cache.Store.{record_purged}
use ghostgc.Cache.Lane.{
  CacheApproval, cache_ticket, PurgePlan, PurgeExecution, Lane, CacheWorld, Response, Done, ended,
  cache_policy_enabled, begin, commit_if, fail_action,
}
use ghostgc.Cache.Lane.Revalidation.{current_quarantine_approval}
use ghostgc.Cache.Lane.Actions.{action_response, new_action, answer, reject_action, committed_or}

-- The map from completion digests to executions; each digest stands once.
abbrev pub Plans : Type 0
Plans = Approvals PurgeExecution

-- Plans whose time is over are dropped.
unfoldable pub prune_plans : ℤ → Plans → Plans
prune_plans now_ns [] = []
prune_plans now_ns ((digest, x) ∷ rest) =
    let others = prune_plans now_ns rest in
    if Int.ltb x.plan.expires_ns now_ns then others else (digest, x) ∷ others

-- What a purge apply answers: the action, and the plan if there is one.
abbrev pub Prepared : Type 0
Prepared = Response × Option PurgePlan

unfoldable pub without_plan : Done Response → Done Prepared
without_plan (lane, err text) = (lane, err text)
without_plan (lane, ok r) = (lane, ok (r, none))

unfoldable pub with_plans : Lane → Plans → Lane
with_plans lane plans = record lane { purge_plans = plans }

module _ (R : Runtime) (D : Digests) (c : CacheConfig) (w : CacheWorld) where
  unfoldable pub purge_plan : String → CacheApproval → Quarantine → String → Instant → PurgePlan
  purge_plan action_id a item completion now = record {
    action_id = action_id;
    artifact_id = item.artifact_id;
    root_path = item.root_path;
    quarantine_path = item.quarantine_path;
    root_identity = a.artifact.root_identity;
    identity = item.identity;
    configuration = D.of_config c;
    expires_ns = unix_nano (add now (minutes 2));
    completion = completion;
  }

  -- The plan is held, unless one is outstanding.
  unfoldable pub hold_plan :
      String → CacheApproval → PurgePlan → List String → Instant → Lane → Done Prepared
  hold_plan action_id a plan evidence now lane =
      let plans = prune_plans (unix_nano now) lane.purge_plans in
      let pruned = with_plans lane plans in
      let cause : String = "too many outstanding foreground purge plans" in
      if leb 1 (length plans)
      then (
        committed_or pruned
            (fail_action w action_id "failed" cause evidence (unix_nano w.now_failed) pruned),
        err cause,
      )
      else (
        with_plans pruned (
            insert (w.secret_digest plan.completion)
              (record { plan = plan; approval = a; evidence = evidence; used = false }) plans),
        ok (
          action_response action_id a "purging"
              "daemon committed intent; only the short-lived foreground executor can unlink"
              evidence now,
          some plan,
        ),
      )

  unfoldable pub hold_begun :
      String
      → CacheApproval
      → PurgePlan
      → List String
      → Instant
      → Lane
      → Result Lane
      → Done Prepared
  hold_begun action_id a plan evidence now lane (err text) = (lane, err text)
  hold_begun action_id a plan evidence now lane (ok begun) =
      hold_plan action_id a plan evidence now begun

  -- What follows the random completion secret.
  unfoldable pub prepare_with :
      String
      → CacheApproval
      → Quarantine
      → List String
      → Instant
      → Lane
      → Result String
      → Done Prepared
  prepare_with action_id a item evidence now lane (err text) = (lane, err text)
  prepare_with action_id a item evidence now lane (ok completion) =
      hold_begun action_id a (purge_plan action_id a item completion now) evidence now lane (
        begin w
          (new_action action_id a "purging"
            "foreground-only exact quarantine purge was prepared after grace and revalidation"
            evidence now)
          lane)

  -- prepareCachePurgeLocked, after the revalidation.
  unfoldable pub prepare_checked :
      String → CacheApproval → Instant → Result (Quarantine × List String) → Lane → Done Prepared
  prepare_checked action_id a now (err text) lane =
      without_plan (reject_action w action_id a text now lane)
  prepare_checked action_id a now (ok (item, evidence)) lane =
      if not (cache_policy_enabled c lane a.artifact.policy_id)
        || Int.ltb (unix_nano now) item.grace_until_ns
      then without_plan (
          reject_action w action_id a "purge policy changed or quarantine grace has not elapsed" now
            lane)
      else prepare_with action_id a item evidence now lane (w.new_token 32)

  unfoldable pub prepare_purge : String → CacheApproval → Instant → Lane → Done Prepared
  prepare_purge action_id a now lane =
      prepare_checked action_id a now (current_quarantine_approval R D c w lane a) lane

  -- The refusal of a consumed approval for a purge; "" is none.
  unfoldable pub purge_refusal : CacheApproval → String → String → String
  purge_refusal a confirmation refusal =
      if confirmation != a.artifact.id
      then "foreground confirmation does not exactly match the approved artifact"
      else if a.kind != "purge"
      then "approval action does not match the purge endpoint"
      else refusal

  unfoldable pub purge_known :
      String → CacheApproval → String → Result String → Lane → Done Prepared
  purge_known confirmation a refusal (err text) lane = (lane, err text)
  purge_known confirmation a refusal (ok token) lane =
      if purge_refusal a confirmation refusal == ""
      then prepare_purge ("act_" <> token) a w.now_start lane
      else without_plan (
          reject_action w ("act_" <> token) a (purge_refusal a confirmation refusal) w.now_start
            lane)

  unfoldable pub purge_consumed :
      String → Consumed CacheApproval → Result String → Lane → Done Prepared
  purge_consumed confirmation (missing text) id lane = (lane, err text)
  purge_consumed confirmation (denied a refusal) id lane =
      purge_known confirmation a refusal id lane
  purge_consumed confirmation (granted a) id lane = purge_known confirmation a "" id lane

  -- CachePurgeApply.
  unfoldable pub cache_purge_apply : String → String → Lane → Done Prepared
  cache_purge_apply token confirmation lane =
      if token == "" || confirmation == ""
      then (lane, err "cache purge apply requires approval and exact artifact confirmation")
      else let (approvals, consumed) =
          consume_approval (w.secret_digest token) w.now_start lane.approvals in
        purge_consumed confirmation consumed (w.new_token 12)
          (record lane { approvals = approvals })

  -- consumeCachePurgeExecution, on the execution that the digest finds.
  unfoldable pub take_execution :
      String → String → Option PurgeExecution → Plans → Plans × Result PurgeExecution
  take_execution action_id digest none plans =
      (plans, err "foreground purge completion is unknown or was lost when the daemon restarted")
  take_execution action_id digest (some x) plans =
      if x.plan.action_id != action_id
      then (
        plans,
        err "foreground purge completion is unknown or was lost when the daemon restarted",
      )
      else if x.used
      then (plans, err "foreground purge completion was already consumed")
      else (remove digest plans, ok (record x { used = true }))

  unfoldable pub consume_execution : String → String → Plans → Plans × Result PurgeExecution
  consume_execution action_id completion plans =
      if action_id == "" || completion == ""
      then (plans, err "cache purge completion requires action_id and completion capability")
      else let digest = w.secret_digest completion in
        take_execution action_id digest (lookup digest plans) plans

  -- ambiguousCachePurge: the lane makes no further mutation, and the action is partial.
  unfoldable pub ambiguous_purge : PurgeExecution → String → Lane → Done Response
  ambiguous_purge x cause lane =
      let tripped = record lane { filesystem_healthy = false } in
      answer tripped
        (fail_action w x.plan.action_id "partial" cause x.evidence (unix_nano w.now_failed) tripped)
        (action_response x.plan.action_id x.approval "partial" cause (x.evidence ++ (cause ∷ []))
          w.now_answered)

  -- Why an entry that is still there was not purged.
  unfoldable pub left_cause : Bool → String → String
  left_cause expired execution_error =
      if expired
      then "foreground purge plan expired without a verified mutation"
      else if execution_error != ""
      then "foreground executor failed without mutation: " <> execution_error
      else "foreground executor left the exact quarantine artifact present"

  -- verifyCachePurgeCompletion, on what the filesystem shows.
  unfoldable pub verify_entry :
      PurgeExecution → String → Bool → Result (Option Identity) → Lane → Done Response
  verify_entry x execution_error expired (err text) lane =
      ambiguous_purge x ("post-purge verification failed: " <> text) lane
  verify_entry x execution_error expired (ok (some current)) lane =
      if current != x.plan.identity
      then ambiguous_purge x "cache filesystem: identity changed" lane
      else let cause = left_cause expired execution_error in
        answer lane
          (fail_action w x.plan.action_id "failed" cause x.evidence (unix_nano w.now_failed) lane)
          (action_response x.plan.action_id x.approval "failed" cause (x.evidence ++ (cause ∷ []))
            w.now_completed)
  verify_entry x execution_error expired (ok none) lane =
      if expired
      then ambiguous_purge x
          "quarantine artifact became absent after the foreground purge plan expired" lane
      else answer lane
          (commit_if (w.commit_error "purged")
            (record_purged x.plan.action_id x.plan.artifact_id (unix_nano w.now_completed)
              lane.store)
            (ended x.plan.action_id "purged") lane)
          (action_response x.plan.action_id x.approval "purged"
            "foreground executor removed one exact quarantine artifact; daemon verified absence"
            (if execution_error == ""
              then x.evidence
              else x.evidence
                ++ (("executor reported an error but exact post-action absence was verified: "
                      <> execution_error)
                    ∷ []))
            w.now_completed)

  unfoldable pub verify_purge : PurgeExecution → String → Lane → Done Response
  verify_purge x execution_error lane =
      verify_entry x execution_error (Int.leb x.plan.expires_ns (unix_nano w.now_verified))
        (w.quarantine_entry x.plan.root_path x.plan.quarantine_path x.plan.root_identity) lane

  unfoldable pub complete_consumed : String → Result PurgeExecution → Lane → Done Response
  complete_consumed execution_error (err text) lane = (lane, err text)
  complete_consumed execution_error (ok x) lane = verify_purge x execution_error lane

  -- CachePurgeComplete.
  unfoldable pub cache_purge_complete : String → String → String → Lane → Done Response
  cache_purge_complete action_id completion execution_error lane =
      let (plans, taken) = consume_execution action_id completion lane.purge_plans in
      complete_consumed execution_error taken (with_plans lane plans)
