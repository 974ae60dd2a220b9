-- ===== src/Daemon/Automatic.antt =====
-- internal/daemon/automatic.go: after an evaluation, at most one automatic action.
pub mod AtMostOne
use ghostgc.Prelude.{
  ◌<>◌, Bool, true, false, String, Option, none, some, List, [], ◌∷◌, ◌++◌, ◌&&◌, if◌then◌else◌,
}
use ghostgc.Prelude.Int.{pos}
use ghostgc.Prelude.Time.{never, unix_nano}
use ghostgc.Prelude.Runtime.{Runtime}
use ghostgc.Process.{ExecutableIdentity}
use ghostgc.Process.Keys.{parse_key}
use ghostgc.Config.Policies.{Policy}
use ghostgc.Daemon.{
  Daemon, World, Result, ok, err, DecisionRecord, CleanupApproval, automatic, AuditRecord, Effect,
  append_audit,
}
use ghostgc.Daemon.Gates.{automatic_cleanup_enabled, is_enforceable, policy_definition}
use ghostgc.Daemon.Preview.{exact_executable, observed}
use ghostgc.Daemon.Actions.{Done, execute_cleanup}

unfoldable pub first_enforceable : Daemon → List DecisionRecord → Option DecisionRecord
first_enforceable d [] = none
first_enforceable d (rec ∷ recs) =
    let rest = first_enforceable d recs in if is_enforceable d rec then some rec else rest

-- An automatic approval: it is made for one action and never stored, so it has no expiry.
unfoldable pub automatic_approval :
    String → DecisionRecord → Policy → ExecutableIdentity → CleanupApproval
automatic_approval binding decision definition image = record {
  binding_digest = binding;
  decision = decision;
  policy = definition;
  executable = image;
  authority = automatic;
  expires = never;
  used = false;
}

module _ (R : Runtime) where
  unfoldable pub skipped_audit : World R → String → Effect
  skipped_audit w reason = append_audit (record {
    ts_ns = unix_nano w.now_completed;
    kind = "action.automatic.skipped";
    subject = "daemon";
    summary = "automatic cleanup failed closed: " <> reason;
    evidence_json = "";
  })

  -- The reason is logged, and audited if the audit entry commits.
  unfoldable pub automatic_failure : World R → String → List Effect → List Effect
  automatic_failure w reason effects = elim (w.commit_error (skipped_audit w reason)) [
    | none ↦ effects ++ (skipped_audit w reason ∷ [])
    | some text ↦ effects
  ]

  -- The parts of an automatic authority, or why there is none.
  unfoldable pub automatic_authority :
      World R → Daemon → DecisionRecord → Result (String × CleanupApproval)
  automatic_authority w d decision = elim (policy_definition d.policies decision.policy_id) [
    | none ↦ err "selected decision has invalid policy or process identity"
    | some definition ↦ elim (parse_key R decision.proc_uid) [
      | none ↦ err "selected decision has invalid policy or process identity"
      | some key ↦ elim (exact_executable (observed R d decision.proc_uid)) [
        | err text ↦ err ("selected decision lacks exact executable identity: " <> text)
        | ok image ↦ elim (w.approval_binding decision definition image) [
          | err text ↦ err ("binding automatic authority: " <> text)
          | ok binding ↦ elim (w.new_token 12) [
            | err text ↦ err ("creating action identity: " <> text)
            | ok token ↦ ok ("act_" <> token, automatic_approval binding decision definition image)
          ]
        ]
      ]
    ]
  ]

  -- What the outcome of the action leaves: a failure of it is recorded.
  unfoldable pub after_execution : World R → String → Done → List Effect
  after_execution w id (effects, ok response) = effects
  after_execution w id (effects, err text) =
      automatic_failure w ("action " <> id <> ": " <> text) effects

  unfoldable pub after_authority :
      World R → Daemon → Result (String × CleanupApproval) → List Effect → List Effect
  after_authority w d (err text) effects = automatic_failure w text effects
  after_authority w d (ok (id, a)) effects =
      after_execution w id (execute_cleanup R w d id a w.now_start effects)

  -- executeAutomaticDecision, for the selected decision if there is one.
  unfoldable pub execute_selected :
      World R → Daemon → Option DecisionRecord → List Effect → List Effect
  execute_selected w d none effects = effects
  execute_selected w d (some decision) effects =
      after_authority w d (automatic_authority w d decision) effects

  unfoldable pub after_decisions :
      World R → Daemon → Result (List DecisionRecord) → List Effect → List Effect
  after_decisions w d (err text) effects =
      automatic_failure w ("reading current decisions: " <> text) effects
  after_decisions w d (ok records) effects =
      execute_selected w d (first_enforceable d records) effects

  -- runAutomaticCleanupLocked; `due` says that the evaluation was due.
  unfoldable pub run_automatic_cleanup : World R → Daemon → Bool → List Effect → List Effect
  run_automatic_cleanup w d due effects =
      if due && automatic_cleanup_enabled d
      then after_decisions w d w.current_decisions effects
      else effects
