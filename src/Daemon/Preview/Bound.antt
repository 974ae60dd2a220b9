-- ===== src/Daemon/Preview/Bound.antt =====
-- The approvals that a preview holds, and that the one it issues is there to be used.
use ghostgc.Prelude.{
  ◌≡◌, refl, subst, ◌&&◌, ◌||◌, inl, inr, true, false, String, Option, none, some, List, [], ◌∷◌,
  ◌++◌, ◌==◌, string_eq, length, leb, arith, ◌≤◌, Bool-cases, Option-cases,
}
use ghostgc.Prelude.Int.{pos, int_eq}
use ghostgc.Prelude.Time.{Instant, add, before}
use ghostgc.Prelude.Runtime.{Runtime}
use ghostgc.Process.Keys.{parse_key}
use ghostgc.Process.{ExecutableIdentity}
use ghostgc.Config.Policies.{Policy}
use ghostgc.Daemon.{
  Daemon, World, Result, ok, err, DecisionRecord, CleanupApproval, manual, Effect, append_audit,
  AuditRecord,
}
use ghostgc.Daemon.Approvals.{
  cleanup_ticket, Approvals, approval_lifetime, insert, remove, lookup, prune_approvals,
}
use ghostgc.Daemon.Gates.{is_recommendation, current_policy_decisions, manual_cleanup_enabled}
use ghostgc.Daemon.Preview.{
  Preview, Issued, find_recommendation, manual_approval, hold_approval, after_audit, after_binding,
  bind_approval, issue, recommend_from, cleanup_preview, preview_audit,
}

length-remove :
    (digest : String) (all : Approvals CleanupApproval) → length (remove digest all) ≤ length all
unfolding remove
length-remove digest [] = omega arith
length-remove digest ((k, a) ∷ rest) = ground (arith, length-remove digest rest)

length-prune :
    (now : Instant) (all : Approvals CleanupApproval)
    → length (prune_approvals now all) ≤ length all
unfolding prune_approvals
length-prune now [] = omega arith
length-prune now ((k, a) ∷ rest) = ground (arith, length-prune now rest)

lookup_inserted :
    (digest d : String) (a : CleanupApproval) (all : Approvals CleanupApproval)
    → d ≡ digest
    → lookup digest (insert d a all) ≡ some a
unfolding lookup insert
lookup_inserted digest d a all e = ground arith

find_recommendation-is :
    (d : Daemon) (policy_id proc_uid : String) (recs : List DecisionRecord) (rec : DecisionRecord)
    → find_recommendation d policy_id proc_uid recs ≡ some rec
    → (rec.policy_id ≡ policy_id) × (rec.proc_uid ≡ proc_uid) × (is_recommendation d rec ≡ true)
unfolding find_recommendation
find_recommendation-is d policy_id proc_uid [] rec h = cc
find_recommendation-is d policy_id proc_uid (r ∷ recs) rec h =
    elim (Bool-cases
      (r.policy_id == policy_id && (r.proc_uid == proc_uid && is_recommendation d r))) [
        | inl e ↦ elim (Bool-cases (r.id == pos 0)) [
          | inl zeroed ↦ absurd (ground arith)
          | inr kept ↦
              let same : r ≡ rec = ground arith in
              subst
                (λ x.
                  (x.policy_id ≡ policy_id)
                  × (x.proc_uid ≡ proc_uid)
                  × (is_recommendation d x ≡ true))
                same (ground arith)
        ]
        | inr e ↦ find_recommendation-is d policy_id proc_uid recs rec (ground arith)
      ]

module _ (R : Runtime) (w : World R) (d : Daemon) where
  -- The approval that a preview answered with is in the map, unused and manual, for a recommendation
  -- of the policy and the process that were asked for, with two minutes to live.
  pub record IsHeld (policy_id proc_uid : String) (all : Approvals CleanupApproval) (p : Preview)
      : Type 0 where
    pub approval : CleanupApproval
    pub stored : lookup (w.secret_digest p.approval) all ≡ some approval
    pub unused : approval.used ≡ false
    pub by_hand : approval.authority ≡ manual
    pub lifetime : approval.expires ≡ add w.now_start approval_lifetime
    pub decided : approval.decision ≡ p.decision
    pub same_policy : p.decision.policy_id ≡ policy_id
    pub same_process : p.decision.proc_uid ≡ proc_uid
    pub recommended : is_recommendation d p.decision ≡ true

  -- A failed preview has no effect; one that succeeds holds the approval and has audited it.
  abbrev pub IsIssued : String → String → List Effect → Issued → Type 0
  IsIssued policy_id proc_uid before (all, effects, err text) = effects ≡ before
  IsIssued policy_id proc_uid before (all, effects, ok p) =
      IsHeld policy_id proc_uid all p
      × ((audit : AuditRecord) × (effects ≡ before ++ (append_audit audit ∷ [])))

  abbrev pub Bounded : Issued → Type 0
  Bounded (all, effects, answer) = length all ≤ 128

  after_audit-holds :
      (policy_id proc_uid token digest : String) (failure : Option String) (audit : AuditRecord)
      (a : CleanupApproval) (held : Approvals CleanupApproval) (effects : List Effect)
      → digest ≡ w.secret_digest token
      → a.used ≡ false
      → a.authority ≡ manual
      → a.expires ≡ add w.now_start approval_lifetime
      → a.decision.policy_id ≡ policy_id
      → a.decision.proc_uid ≡ proc_uid
      → is_recommendation d a.decision ≡ true
      → IsIssued policy_id proc_uid effects (
          after_audit R failure token digest audit a.decision a.expires
            (insert digest a held)
            effects)
  unfolding after_audit
  after_audit-holds policy_id proc_uid token digest (some text) audit a held effects e u m x p q r =
      refl
  after_audit-holds policy_id proc_uid token digest none audit a held effects e u m x p q r = (
    record {
      approval = a;
      stored = lookup_inserted (w.secret_digest token) digest a held e;
      unused = u;
      by_hand = m;
      lifetime = x;
      decided = refl;
      same_policy = p;
      same_process = q;
      recommended = r;
    },
    (audit, refl),
  )

  hold_approval-holds :
      (policy_id proc_uid token binding : String) (decision : DecisionRecord) (definition : Policy)
      (image : ExecutableIdentity) (approvals : Approvals CleanupApproval) (effects : List Effect)
      → decision.policy_id ≡ policy_id
      → decision.proc_uid ≡ proc_uid
      → is_recommendation d decision ≡ true
      → IsIssued policy_id proc_uid effects
          (hold_approval R w token binding decision definition image approvals effects)
  unfolding hold_approval manual_approval
  hold_approval-holds policy_id proc_uid token binding decision definition image approvals effects p
        q r =
      let held = prune_approvals w.now_start approvals in
      let expires = add w.now_start approval_lifetime in
      let audit = preview_audit R w binding decision w.now_start expires in
      elim (Bool-cases (leb 128 (length held))) [
        | inl full ↦ rw full refl
        | inr room ↦ rw room (
            after_audit-holds policy_id proc_uid token (w.secret_digest token)
              (w.commit_error (append_audit audit)) audit
              (manual_approval binding decision definition image expires) held effects refl refl
              refl refl p q r)
      ]

  after_audit-Bounded :
      (failure : Option String) (token digest : String) (audit : AuditRecord)
      (decision : DecisionRecord) (expires : Instant) (all : Approvals CleanupApproval)
      (effects : List Effect)
      → length all ≤ 128
      → Bounded (after_audit R failure token digest audit decision expires all effects)
  unfolding after_audit
  after_audit-Bounded (some text) token digest audit decision expires all effects h =
      omega (arith, length-remove digest all)
  after_audit-Bounded none token digest audit decision expires all effects h = h

  hold_approval-Bounded :
      (token binding : String) (decision : DecisionRecord) (definition : Policy)
      (image : ExecutableIdentity) (approvals : Approvals CleanupApproval) (effects : List Effect)
      → length approvals ≤ 128
      → Bounded (hold_approval R w token binding decision definition image approvals effects)
  unfolding hold_approval insert
  hold_approval-Bounded token binding decision definition image approvals effects h =
      let held = prune_approvals w.now_start approvals in
      let digest = w.secret_digest token in
      let expires = add w.now_start approval_lifetime in
      let audit = preview_audit R w binding decision w.now_start expires in
      elim (Bool-cases (leb 128 (length held))) [
        | inl full ↦ rw full (omega (arith, length-prune w.now_start approvals))
        | inr room ↦ rw room (
            after_audit-Bounded (w.commit_error (append_audit audit)) token digest audit decision
              expires
              (insert digest (manual_approval binding decision definition image expires) held)
              effects (ground (arith, length-remove digest held)))
      ]

  -- What holds of every failure and of every approval held for a recommendation holds of a preview.
  after_binding-holds :
      (P : Issued → Type 0) (decision : DecisionRecord)
      (bound : Result (String × String × Policy × ExecutableIdentity))
      (approvals : Approvals CleanupApproval) (effects : List Effect)
      → ((text : String) → P (approvals, effects, err text))
      → ((token binding : String) (definition : Policy) (image : ExecutableIdentity)
          → P (hold_approval R w token binding decision definition image approvals effects))
      → P (after_binding R w decision bound approvals effects)
  unfolding after_binding
  after_binding-holds P decision (err text) approvals effects f h = f text
  after_binding-holds P decision (ok (token, binding, definition, image)) approvals effects f h =
      h token binding definition image

  abbrev Holds :
      (Issued → Type 0) → DecisionRecord → Approvals CleanupApproval → List Effect → Type 0
  Holds P decision approvals effects =
      (token binding : String) (definition : Policy) (image : ExecutableIdentity)
      → P (hold_approval R w token binding decision definition image approvals effects)

  issue-holds :
      (P : Issued → Type 0) (found : Option DecisionRecord) (approvals : Approvals CleanupApproval)
      (effects : List Effect)
      → ((text : String) → P (approvals, effects, err text))
      → ((rec : DecisionRecord) → found ≡ some rec → Holds P rec approvals effects)
      → P (issue R w d found approvals effects)
  unfolding issue
  issue-holds P none approvals effects f h =
      f "no current recommendation matches that exact policy and process"
  issue-holds P (some rec) approvals effects f h =
      after_binding-holds P rec (bind_approval R w d rec) approvals effects f (h rec refl)

  recommend_from-holds :
      (P : Issued → Type 0) (policy_id proc_uid : String) (records : Result (List DecisionRecord))
      (approvals : Approvals CleanupApproval) (effects : List Effect)
      → ((text : String) → P (approvals, effects, err text))
      → ((rec : DecisionRecord)
          → rec.policy_id ≡ policy_id
          → rec.proc_uid ≡ proc_uid
          → is_recommendation d rec ≡ true
          → Holds P rec approvals effects)
      → P (recommend_from R w d policy_id proc_uid records approvals effects)
  unfolding recommend_from
  recommend_from-holds P policy_id proc_uid (err text) approvals effects f h = f text
  recommend_from-holds P policy_id proc_uid (ok records) approvals effects f h =
      issue-holds P _ approvals effects f λ rec found.
        let (p, q, r) =
          find_recommendation-is d policy_id proc_uid (current_policy_decisions R d records) rec
            found in
        h rec p q r

  cleanup_preview-holds :
      (P : Issued → Type 0) (policy_id proc_uid : String) (approvals : Approvals CleanupApproval)
      (effects : List Effect)
      → ((text : String) → P (approvals, effects, err text))
      → ((rec : DecisionRecord)
          → rec.policy_id ≡ policy_id
          → rec.proc_uid ≡ proc_uid
          → is_recommendation d rec ≡ true
          → Holds P rec approvals effects)
      → P (cleanup_preview R w d policy_id proc_uid approvals effects)
  unfolding cleanup_preview
  cleanup_preview-holds P policy_id proc_uid approvals effects f h =
      elim (Bool-cases (policy_id == "" || proc_uid == "")) [
        | inl empty ↦ rw empty (f _)
        | inr named ↦ rw named (elim (Option-cases (parse_key R proc_uid)) [
          | inl malformed ↦ rw malformed (f _)
          | inr (key, parsed) ↦ rw parsed (elim (Bool-cases (manual_cleanup_enabled d)) [
            | inl on ↦ rw on (
                recommend_from-holds P policy_id proc_uid w.current_decisions approvals effects f h)
            | inr off ↦ rw off (f _)
          ])
        ])
      ]

  -- A preview sends no signal. If it fails, nothing has happened outside the daemon; if it succeeds,
  -- exactly one audit entry was made, and the map holds under the digest of the token an unused manual
  -- approval, for a recommendation of the policy and the process asked for, that expires in two
  -- minutes.
  pub cleanup_preview-IsIssued :
      (policy_id proc_uid : String) (approvals : Approvals CleanupApproval) (effects : List Effect)
      → IsIssued policy_id proc_uid effects
          (cleanup_preview R w d policy_id proc_uid approvals effects)
  cleanup_preview-IsIssued policy_id proc_uid approvals effects =
      cleanup_preview-holds (IsIssued policy_id proc_uid effects) policy_id proc_uid approvals
        effects (λ text. refl)
        λ rec p q r token binding definition image.
          hold_approval-holds policy_id proc_uid token binding rec definition image approvals
            effects p q r

  -- A preview leaves at most 128 approvals if there were at most 128 before it.
  pub cleanup_preview-Bounded :
      (policy_id proc_uid : String) (approvals : Approvals CleanupApproval) (effects : List Effect)
      → length approvals ≤ 128
      → length (cleanup_preview R w d policy_id proc_uid approvals effects).0 ≤ 128
  cleanup_preview-Bounded policy_id proc_uid approvals effects h =
      cleanup_preview-holds Bounded policy_id proc_uid approvals effects (λ text. h)
        λ rec p q r token binding definition image.
          hold_approval-Bounded token binding rec definition image approvals effects h
