-- ===== src/Daemon/Actions/Liveness.antt =====
-- A valid approval for a process that is still there leads to the signal.
use ghostgc.Prelude.{
  ◌<>◌, ◌≡◌, ◌≢◌, refl, true, false, String, none, some, List, [], ◌∷◌, ◌++◌, ◌==◌, string_eq, ◌<◌,
  arith,
}
use ghostgc.Prelude.Int.{ℤ}
use ghostgc.Prelude.Time.{Instant}
use ghostgc.Prelude.Runtime.{Runtime}
use ghostgc.Process.{Key}
use ghostgc.Policy.{Evidence}
use ghostgc.Daemon.{
  Daemon, World, ok, CleanupApproval, Effect, insert_action, update_action, kill, ActionRecord,
  AuditRecord, attempting, signalled,
}
use ghostgc.Daemon.Approvals.{cleanup_ticket, Approvals, granted, lookup}
use ghostgc.Daemon.Approvals.SingleUse.{granted_iff}
use ghostgc.Daemon.Revalidation.{pass, revalidate_cleanup}
use ghostgc.Daemon.Signals.{signal_process-sends, IsExactTarget}
use ghostgc.Daemon.Actions.Safety.{regroup}
use ghostgc.Daemon.Actions.{
  Response, Done, commit, after_commit, attempt_record, attempt_audit, complete_action, act,
  after_action_id, action_response, outcome_result, with_action_id, execute_cleanup, apply_consumed,
  cleanup_apply,
}

module _ (R : Runtime) (w : World R) (d : Daemon) where
  -- Nothing outside the daemon fails: every transaction commits, and the request is not cancelled.
  pub record IsHealthy : Type 0 where
    pub commits : (e : Effect) → w.commit_error e ≡ none
    pub not_cancelled : w.context_error ≡ none

  -- The attempt, the signal and its outcome were added, and the answer says so.
  pub record Delivers (id : String) (k : Key) (before : List Effect) (done : Done) : Type 0 where
    pub attempt : ActionRecord
    pub audit : AuditRecord
    pub reason : String
    pub json : String
    pub at : ℤ
    pub outcome_audit : AuditRecord
    pub response : Response
    pub added :
        done.0
        ≡ before
          ++ (insert_action attempt audit
              ∷ kill k.pid
              ∷ update_action id signalled reason json at outcome_audit
              ∷ [])
    pub attempt_id : attempt.action_id ≡ id
    pub attempted : attempt.result ≡ attempting
    pub answered : done.1 ≡ ok response
    pub answer_id : response.action_id ≡ id
    pub answer_result : response.result ≡ signalled

  commit-commits :
      (e : Effect) (effects : List Effect) (next : List Effect → Done)
      → IsHealthy
      → commit R w e effects next ≡ next (effects ++ (e ∷ []))
  unfolding commit after_commit
  commit-commits e effects next h = rw (h.commits e) refl

  complete_action-Delivers :
      (id : String) (a : CleanupApproval) (now : Instant) (k : Key) (found : List Evidence)
      (json : String) (effects : List Effect)
      → IsHealthy
      → let begun =
          effects
          ++ (insert_action (attempt_record R w id a now json) (attempt_audit R w id a json)
              ∷ []) in
        Delivers id k effects (complete_action R w id a found (begun ++ (kill k.pid ∷ []), none))
  unfolding complete_action attempt_record action_response outcome_result
  complete_action-Delivers id a now k found json effects h = rw (commit-commits _ _ _ h) (record {
    attempt = attempt_record R w id a now json;
    audit = attempt_audit R w id a json;
    reason = _;
    json = _;
    at = _;
    outcome_audit = _;
    response = _;
    added =
        regroup effects
          (insert_action (attempt_record R w id a now json) (attempt_audit R w id a json))
          (kill k.pid) (_ ∷ []);
    attempt_id = refl;
    attempted = refl;
    answered = refl;
    answer_id = refl;
    answer_result = refl;
  })

  act-Delivers :
      (id : String) (a : CleanupApproval) (now : Instant) (k : Key) (found : List Evidence)
      (effects : List Effect)
      → IsHealthy
      → IsExactTarget R w d.self_uid k a.executable
      → w.kill_error k.pid ≡ none
      → Delivers id k effects (act R w d id a now (pass (k, found)) effects)
  unfolding act
  act-Delivers id a now k found effects h x e =
      let json = w.evidence_json found in
      let begun =
        effects
        ++ (insert_action (attempt_record R w id a now json) (attempt_audit R w id a json) ∷ []) in
      rw (commit-commits _ effects _ h) (
        rw (signal_process-sends R w d.self_uid k a.executable begun h.not_cancelled x e)
          (complete_action-Delivers id a now k found json effects h))

  apply_consumed-Delivers :
      (token : String) (a : CleanupApproval) (k : Key) (found : List Evidence)
      (effects : List Effect)
      → IsHealthy
      → w.new_token 12 ≡ ok token
      → revalidate_cleanup R w d a ≡ pass (k, found)
      → IsExactTarget R w d.self_uid k a.executable
      → w.kill_error k.pid ≡ none
      → Delivers ("act_" <> token) k effects (apply_consumed R w d (granted a) effects)
  unfolding apply_consumed with_action_id after_action_id execute_cleanup
  apply_consumed-Delivers token a k found effects h t v x e =
      rw (t, after_action_id)
        (rw v (act-Delivers ("act_" <> token) a w.now_start k found effects h x e))

  -- In a world where nothing fails, a token for an unused and unexpired approval that passes
  -- revalidation, of a process that is still the exact target, leads to the signal: the attempt is
  -- committed, then the one SIGTERM is sent to the process, then its outcome is recorded as
  -- signalled, and the answer reports that.
  pub cleanup_apply-Delivers :
      (token fresh : String) (approvals : Approvals CleanupApproval) (a : CleanupApproval) (k : Key)
      (found : List Evidence) (effects : List Effect)
      → IsHealthy
      → token ≢ ""
      → lookup (w.secret_digest token) approvals ≡ some a
      → a.used ≡ false
      → w.now_start < a.expires
      → w.new_token 12 ≡ ok fresh
      → revalidate_cleanup R w d (record a { used = true }) ≡ pass (k, found)
      → IsExactTarget R w d.self_uid k a.executable
      → w.kill_error k.pid ≡ none
      → Delivers ("act_" <> fresh) k effects (cleanup_apply R w d token approvals effects).1
  unfolding cleanup_apply
  cleanup_apply-Delivers token fresh approvals a k found effects h named listed unused in_time t v x
        e =
      let given : (token == "") ≡ false = ground arith in
      let spent = record a { used = true } in
      let consumed =
        (granted_iff (w.secret_digest token) w.now_start approvals spent).1
          (a, listed, unused, in_time, refl) in
      rw given (rw consumed (apply_consumed-Delivers fresh spent k found effects h t v x e))
