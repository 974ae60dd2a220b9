-- ===== src/Daemon/Preview.antt =====
-- internal/daemon/approval.go: a preview issues one approval for an exact recommendation.
pub mod Bound
use ghostgc.Prelude.{
  ◌<>◌, ◌&&◌, ◌||◌, String, Option, none, some, List, [], ◌∷◌, ◌++◌, ◌==◌, string_eq, if◌then◌else◌,
  length, leb, Bool, false,
}
use ghostgc.Prelude.Int.{ℤ, pos, int_eq}
use ghostgc.Prelude.Time.{Instant, add, unix_nano}
use ghostgc.Prelude.Runtime.{Runtime}
use ghostgc.Process.{ExecutableIdentity, Process, executable, by_key}
use ghostgc.Process.Keys.{parse_key}
use ghostgc.Config.{invalid}
use ghostgc.Config.Policies.{Policy}
use ghostgc.Daemon.{
  Daemon, World, Result, ok, err, DecisionRecord, CleanupApproval, manual, AuditRecord, Effect,
  append_audit,
}
use ghostgc.Daemon.Approvals.{
  cleanup_ticket, Approvals, approval_lifetime, max_approvals, insert, remove, prune_approvals,
}
use ghostgc.Daemon.Gates.{
  policy_definition, manual_cleanup_enabled, is_recommendation, current_policy_decisions,
}

-- What a preview hands out.
pub record Preview : Type 0 where
  pub approval : String
  pub expires_ns : ℤ
  pub decision : DecisionRecord

-- The approvals and the effects after a preview, and its answer.
abbrev pub Issued : Type 0
Issued = Approvals CleanupApproval × List Effect × Result Preview

unfoldable pub find_recommendation :
    Daemon → String → String → List DecisionRecord → Option DecisionRecord
find_recommendation d policy_id proc_uid [] = none
find_recommendation d policy_id proc_uid (rec ∷ recs) =
    let rest = find_recommendation d policy_id proc_uid recs in
    if rec.policy_id == policy_id && (rec.proc_uid == proc_uid && is_recommendation d rec)
    then (if rec.id == pos 0 then none else some rec)
    else rest

-- exactExecutable, of the observation that `ByKey` returned.
unfoldable pub exact_executable : Option Process → Result ExecutableIdentity
exact_executable none = err "exact executable identity is unavailable"
exact_executable (some p) = elim (executable p) [
  | none ↦ err "exact executable identity is unavailable"
  | some image ↦ ok image
]

-- The observation in the committed snapshot of a stored identity.
unfoldable pub observed : Runtime → Daemon → String → Option Process
observed R d proc_uid = elim (parse_key R proc_uid) [
  | none ↦ none
  | some key ↦ elim d.snapshot [ none ↦ none | some s ↦ by_key s key ]
]

-- The zero value that `policyDefinition` returns beside false.
abbrev zero_policy : Policy
zero_policy = record {
  id = "";
  description = "";
  enabled = false;
  mode = invalid "";
  automatic = false;
  states = [];
  agents = [];
  executables = [];
  require_detached = false;
  require_session_ended = false;
  min_stable = pos 0;
  cooldown = pos 0;
}

unfoldable pub definition_or_zero : List Policy → String → Policy
definition_or_zero policies id = elim (policy_definition policies id) [
  | none ↦ zero_policy
  | some p ↦ p
]

unfoldable pub manual_approval :
    String → DecisionRecord → Policy → ExecutableIdentity → Instant → CleanupApproval
manual_approval binding decision definition image expires = record {
  binding_digest = binding;
  decision = decision;
  policy = definition;
  executable = image;
  authority = manual;
  expires = expires;
  used = false;
}

module _ (R : Runtime) where
  unfoldable pub preview_audit : World R → String → DecisionRecord → Instant → Instant → AuditRecord
  preview_audit w binding decision now expires = record {
    ts_ns = unix_nano now;
    kind = "action.previewed";
    subject = decision.proc_uid;
    summary =
        "manual SIGTERM preview issued for policy "
        <> decision.policy_id
        <> "; approval expires at "
        <> R.rfc3339 expires;
    evidence_json = w.preview_json binding decision expires;
  }

  -- The audit entry, without which the approval is withdrawn.
  after_audit :
      Option String
      → String
      → String
      → AuditRecord
      → DecisionRecord
      → Instant
      → Approvals CleanupApproval
      → List Effect
      → Issued
  after_audit (some text) token digest audit decision expires all effects =
      (remove digest all, effects, err text)
  after_audit none token digest audit decision expires all effects = (
    all,
    effects ++ (append_audit audit ∷ []),
    ok (record { approval = token; expires_ns = unix_nano expires; decision = decision }),
  )

  -- From a token, a binding and an executable to an approval that is held and audited.
  unfoldable pub hold_approval :
      World R
      → String
      → String
      → DecisionRecord
      → Policy
      → ExecutableIdentity
      → Approvals CleanupApproval
      → List Effect
      → Issued
  unfolding after_audit preview_audit
  hold_approval w token binding decision definition image approvals effects =
      let now = w.now_start in
      let expires = add now approval_lifetime in
      let digest = w.secret_digest token in
      let held = prune_approvals now approvals in
      let audit = preview_audit w binding decision now expires in
      if leb max_approvals (length held)
      then (
        held,
        effects,
        err "too many outstanding approvals; wait for an earlier preview to expire",
      )
      else after_audit (w.commit_error (append_audit audit)) token digest audit decision expires
          (insert digest (manual_approval binding decision definition image expires) held) effects

  -- What a preview still needs once its recommendation is found.
  unfoldable pub bind_approval :
      World R → Daemon → DecisionRecord → Result (String × String × Policy × ExecutableIdentity)
  unfolding exact_executable observed definition_or_zero
  bind_approval w d decision =
      let definition = definition_or_zero d.policies decision.policy_id in
      elim (exact_executable (observed R d decision.proc_uid)) [
        | err text ↦ err text
        | ok image ↦ elim (w.new_token 32) [
          | err text ↦ err text
          | ok token ↦ elim (w.approval_binding decision definition image) [
            | err text ↦ err text
            | ok binding ↦ ok (token, binding, definition, image)
          ]
        ]
      ]

  -- What follows from the parts of an approval.
  unfoldable pub after_binding :
      World R
      → DecisionRecord
      → Result (String × String × Policy × ExecutableIdentity)
      → Approvals CleanupApproval
      → List Effect
      → Issued
  after_binding w decision (err text) approvals effects = (approvals, effects, err text)
  after_binding w decision (ok (token, binding, definition, image)) approvals effects =
      hold_approval w token binding decision definition image approvals effects

  -- What follows from the recommendation.
  unfoldable pub issue :
      World R → Daemon → Option DecisionRecord → Approvals CleanupApproval → List Effect → Issued
  issue w d none approvals effects =
      (approvals, effects, err "no current recommendation matches that exact policy and process")
  issue w d (some decision) approvals effects =
      after_binding w decision (bind_approval w d decision) approvals effects

  -- What follows from the store's decisions.
  unfoldable pub recommend_from :
      World R
      → Daemon
      → String
      → String
      → Result (List DecisionRecord)
      → Approvals CleanupApproval
      → List Effect
      → Issued
  recommend_from w d policy_id proc_uid (err text) approvals effects =
      (approvals, effects, err text)
  recommend_from w d policy_id proc_uid (ok records) approvals effects =
      issue w d (find_recommendation d policy_id proc_uid (current_policy_decisions R d records))
        approvals effects

  -- CleanupPreview, over the approvals and the effects.
  unfoldable pub cleanup_preview :
      World R → Daemon → String → String → Approvals CleanupApproval → List Effect → Issued
  cleanup_preview w d policy_id proc_uid approvals effects =
      if policy_id == "" || proc_uid == ""
      then (approvals, effects, err "cleanup preview requires policy_id and exact proc_uid")
      else elim (parse_key R proc_uid) [
        | none ↦ (approvals, effects, err ("process: malformed key " <> R.quoted proc_uid))
        | some key ↦
            if manual_cleanup_enabled d
            then recommend_from w d policy_id proc_uid w.current_decisions approvals effects
            else (
              approvals,
              effects,
              err
                  "manual cleanup is disabled: globalMode and the selected policy must both be recommend",
            )
      ]
