-- ===== src/Daemon/Actions.antt =====
-- internal/daemon/action.go and automatic.go: one cleanup action, from the authority to the record of
-- its outcome. Every effect is a committed transaction, an audit entry or the call of kill(2).
pub mod Safety
pub mod Liveness
use ghostgc.Prelude.{
  ◌<>◌, Bool, true, false, not, ◌||◌, String, Option, none, some, List, [], ◌∷◌, ◌++◌, ◌==◌,
  string_eq, if◌then◌else◌,
}
use ghostgc.Prelude.Int.{ℤ}
use ghostgc.Prelude.Time.{Instant, unix_nano, never}
use ghostgc.Prelude.Runtime.{Runtime}
use ghostgc.Process.{Key, ExecutableIdentity, executable, by_key}
use ghostgc.Process.Keys.{parse_key}
use ghostgc.Config.Policies.{Policy}
use ghostgc.Policy.{Evidence, evidence}
use ghostgc.Daemon.{
  Daemon, World, Result, ok, err, DecisionRecord, CleanupApproval, Authority, manual, automatic,
  ActionResult, attempting, rejected, signalled, failed, ActionRecord, AuditRecord, Effect,
  insert_action, update_action, append_audit,
}
use ghostgc.Daemon.Approvals.{
  cleanup_ticket, Approvals, Consumed, missing, denied, granted, consume_approval,
}
use ghostgc.Daemon.Gates.{automatic_cleanup_enabled, is_enforceable, policy_definition}
use ghostgc.Daemon.Revalidation.{Checked, pass, refuse, revalidate_cleanup, authority_string}
use ghostgc.Daemon.Signals.{sigterm, signal_process}

-- api.CleanupApplyResponse.
pub record Response : Type 0 where
  pub action_id : String
  pub authority : Authority
  pub policy_id : String
  pub proc_uid : String
  pub result : ActionResult
  pub signal : String
  pub at_ns : ℤ
  pub reason : String
  pub evidence : String

unfoldable pub action_response :
    String → CleanupApproval → ActionResult → String → String → Instant → Response
action_response id a result reason evidence at = record {
  action_id = id;
  authority = a.authority;
  policy_id = a.policy.id;
  proc_uid = a.decision.proc_uid;
  result = result;
  signal = "SIGTERM";
  at_ns = unix_nano at;
  reason = reason;
  evidence = evidence;
}

-- What a request returns, with the effects up to then.
abbrev pub Done : Type 0
Done = List Effect × Result Response

module _ (R : Runtime) where
  -- A transaction and what follows if it commits.
  after_commit : Option String → Effect → List Effect → (List Effect → Done) → Done
  after_commit (some text) e effects next = (effects, err text)
  after_commit none e effects next = next (effects ++ (e ∷ []))

  unfoldable pub commit : World R → Effect → List Effect → (List Effect → Done) → Done
  unfolding after_commit
  commit w e effects next = after_commit (w.commit_error e) e effects next

  unfoldable pub rejection : World R → String → CleanupApproval → String → String → Instant → Effect
  rejection w id a reason json at =
      insert_action
        (record {
          action_id = id;
          policy_id = a.policy.id;
          proc_uid = a.decision.proc_uid;
          session_id = a.decision.session_id;
          authority = a.authority;
          requested_ns = unix_nano at;
          updated_ns = unix_nano at;
          result = rejected;
          signal = "SIGTERM";
          reason = reason;
          evidence_json = json;
        })
        (record {
          ts_ns = unix_nano at;
          kind = "action.rejected";
          subject = a.decision.proc_uid;
          summary =
              authority_string a.authority
              <> " action "
              <> id
              <> " rejected before signalling: "
              <> reason;
          evidence_json = json;
        })

  unfoldable pub reject_action :
      World R → String → CleanupApproval → String → List Evidence → Instant → List Effect → Done
  reject_action w id a reason found at effects =
      let json = w.evidence_json found in
      commit w (rejection w id a reason json at) effects
        λ after. (after, ok (action_response id a rejected reason json at))

  -- The row that is committed before the signal.
  unfoldable pub attempt_record :
      World R → String → CleanupApproval → Instant → String → ActionRecord
  attempt_record w id a now json = record {
    action_id = id;
    policy_id = a.policy.id;
    proc_uid = a.decision.proc_uid;
    session_id = a.decision.session_id;
    authority = a.authority;
    requested_ns = unix_nano now;
    updated_ns = unix_nano w.now_attempt;
    result = attempting;
    signal = "SIGTERM";
    reason =
        authority_string a.authority
        <> " authority passed full pre-action revalidation; exact-key SIGTERM is about to be attempted";
    evidence_json = json;
  }

  unfoldable pub attempt_audit : World R → String → CleanupApproval → String → AuditRecord
  attempt_audit w id a json = record {
    ts_ns = unix_nano w.now_attempt;
    kind = "action.attempting";
    subject = a.decision.proc_uid;
    summary =
        authority_string a.authority
        <> " action "
        <> id
        <> " committed before exact-key SIGTERM for policy "
        <> a.policy.id;
    evidence_json = json;
  }

  unfoldable pub outcome_result : Option String → ActionResult
  outcome_result none = signalled
  outcome_result (some text) = failed

  unfoldable pub outcome_reason : Option String → String
  outcome_reason none = "exact-key SIGTERM was accepted by the operating system"
  outcome_reason (some text) = "exact-key SIGTERM failed: " <> text

  unfoldable pub outcome_kind : Option String → String
  outcome_kind none = "action.signalled"
  outcome_kind (some text) = "action.failed"

  -- After the signal: the row is brought up to its outcome.
  unfoldable pub complete_action :
      World R → String → CleanupApproval → List Evidence → List Effect × Option String → Done
  complete_action w id a found (effects, failure) =
      let reason = outcome_reason failure in
      let json = w.evidence_json (found ++ (evidence "signal-result-v1" reason ∷ [])) in
      let at = unix_nano w.now_completed in
      commit w
        (update_action id (outcome_result failure) reason json at (record {
          ts_ns = at;
          kind = outcome_kind failure;
          subject = a.decision.proc_uid;
          summary = authority_string a.authority <> " action " <> id <> ": " <> reason;
          evidence_json = json;
        }))
        effects
        λ after.
          (after, ok (action_response id a (outcome_result failure) reason json w.now_completed))

  -- After revalidation.
  unfoldable pub act :
      World R
      → Daemon
      → String
      → CleanupApproval
      → Instant
      → Checked (Key × List Evidence)
      → List Effect
      → Done
  act w d id a now (refuse found reason) effects =
      reject_action w id a reason (found ++ (evidence "pre-action-refusal-v1" reason ∷ []))
        w.now_refused effects
  act w d id a now (pass (k, found)) effects =
      let json = w.evidence_json found in
      commit w (insert_action (attempt_record w id a now json) (attempt_audit w id a json)) effects
        λ after.
          complete_action w id a found (signal_process R w d.self_uid k a.executable sigterm after)

  unfoldable pub execute_cleanup :
      World R → Daemon → String → CleanupApproval → Instant → List Effect → Done
  execute_cleanup w d id a now effects = act w d id a now (revalidate_cleanup R w d a) effects

  -- newActionID, and what follows if it gives an id.
  after_action_id : Result String → List Effect → (String → Done) → Done
  after_action_id (err text) effects next = (effects, err text)
  after_action_id (ok token) effects next = next ("act_" <> token)

  unfoldable pub with_action_id : World R → List Effect → (String → Done) → Done
  unfolding after_action_id
  with_action_id w effects next = after_action_id (w.new_token 12) effects next

  -- What a consumed approval leads to.
  unfoldable pub apply_consumed : World R → Daemon → Consumed CleanupApproval → List Effect → Done
  apply_consumed w d (missing text) effects = (effects, err text)
  apply_consumed w d (denied a refusal) effects = with_action_id w effects λ id.
      reject_action w id a refusal (evidence "approval-consumption-v1" refusal ∷ []) w.now_start
        effects
  apply_consumed w d (granted a) effects =
      with_action_id w effects λ id. execute_cleanup w d id a w.now_start effects

  -- CleanupApply, over the approvals and the effects.
  unfoldable pub cleanup_apply :
      World R
      → Daemon
      → String
      → Approvals CleanupApproval
      → List Effect
      → Approvals CleanupApproval × Done
  cleanup_apply w d token approvals effects =
      let (approvals', consumed) = consume_approval (w.secret_digest token) w.now_start approvals in
      if token == ""
      then (approvals, (effects, err "cleanup apply requires an approval"))
      else (approvals', apply_consumed w d consumed effects)
