-- ===== src/Daemon/Actions/Safety.antt =====
-- A cleanup action sends at most one signal, and that only after every check and after the attempt
-- was committed.
use mathlib.Core.List.{append-nil, append_assoc}
use ghostgc.Prelude.{
  ◌<>◌, ◌≡◌, ◌∙◌, ap, subst, sym, refl, ◌⊎◌, inl, inr, true, false, String, Option, none, some,
  List, [], ◌∷◌, ◌++◌, All, ◌==◌, string_eq, Bool-cases, ◌<◌,
}
use ghostgc.Prelude.Time.{Instant}
use ghostgc.Prelude.Runtime.{Runtime}
use ghostgc.Process.{Key}
use ghostgc.Policy.{Evidence}
use ghostgc.Daemon.{
  Daemon, World, Result, ok, err, CleanupApproval, Effect, insert_action, update_action,
  append_audit, kill, ActionRecord, AuditRecord, attempting,
}
use ghostgc.Daemon.Approvals.{
  cleanup_ticket, Approvals, Consumed, missing, denied, granted, consume_approval, lookup,
}
use ghostgc.Daemon.Approvals.SingleUse.{granted_iff}
use ghostgc.Daemon.Revalidation.{Checked, pass, refuse, revalidate_cleanup}
use ghostgc.Daemon.Signals.{sigterm, signal_process, signal_process-exact, IsExactTarget}
use ghostgc.Daemon.Actions.{
  Done, commit, after_commit, rejection, reject_action, attempt_record, attempt_audit,
  complete_action, act, after_action_id, with_action_id, execute_cleanup, apply_consumed,
  cleanup_apply,
}

-- The effect is not a signal.
abbrev pub IsQuiet : Effect → Type 0
IsQuiet (kill pid) = ⊥
IsQuiet (insert_action r a) = Unit
IsQuiet (update_action id r t j n a) = Unit
IsQuiet (append_audit a) = Unit

-- The effects that were added hold no signal.
abbrev pub AddsNone : List Effect → List Effect → Type 0
AddsNone before after = (rest : List Effect) × (after ≡ before ++ rest) × All IsQuiet rest

pub regroup :
    (before : List Effect) (e f : Effect) (rest : List Effect)
    → ((before ++ (e ∷ [])) ++ (f ∷ [])) ++ rest ≡ before ++ (e ∷ f ∷ rest)
regroup before e f rest = simp append_assoc

module _ (R : Runtime) where
  -- The effects that were added are the committed attempt, the one signal, and records.
  abbrev pub AddsOne :
      World R → Daemon → String → CleanupApproval → List Effect → List Effect → Type 0
  AddsOne w d id a before after =
      (k : Key) × (found : List Evidence) × (r : ActionRecord) × (audit : AuditRecord)
      × (rest : List Effect) × (after ≡ before ++ (insert_action r audit ∷ kill k.pid ∷ rest))
      × All IsQuiet rest
      × (r.action_id ≡ id)
      × (r.result ≡ attempting)
      × (revalidate_cleanup R w d a ≡ pass (k, found))
      × IsExactTarget R w d.self_uid k a.executable

  after_commit-holds :
      (P : List Effect → Type 0) (c : Option String) (e : Effect) (effects : List Effect)
      (next : List Effect → Done)
      → P effects
      → P (next (effects ++ (e ∷ []))).0
      → P (after_commit R c e effects next).0
  unfolding after_commit
  after_commit-holds P (some text) e effects next h k = h
  after_commit-holds P none e effects next h k = k

  -- What holds whether or not the transaction commits holds after it.
  commit-holds :
      (P : List Effect → Type 0) (w : World R) (e : Effect) (effects : List Effect)
      (next : List Effect → Done)
      → P effects
      → P (next (effects ++ (e ∷ []))).0
      → P (commit R w e effects next).0
  unfolding commit
  commit-holds P w e effects next h k = after_commit-holds P (w.commit_error e) e effects next h k

  reject_action-AddsNone :
      (w : World R) (id : String) (a : CleanupApproval) (reason : String) (found : List Evidence)
      (at : Instant) (effects : List Effect)
      → AddsNone effects (reject_action R w id a reason found at effects).0
  unfolding reject_action
  reject_action-AddsNone w id a reason found at effects =
      let e = rejection R w id a reason (w.evidence_json found) at in
      commit-holds (AddsNone effects) w e effects _ ([], sym (append-nil effects), tt)
        (e ∷ [], refl, (unfold rejection in tt, tt))

  complete_action-AddsNone :
      (w : World R) (id : String) (a : CleanupApproval) (found : List Evidence)
      (effects : List Effect) (failure : Option String)
      → AddsNone effects (complete_action R w id a found (effects, failure)).0
  unfolding complete_action
  complete_action-AddsNone w id a found effects failure =
      commit-holds (AddsNone effects) w _ effects _ ([], sym (append-nil effects), tt)
        (_ ∷ [], refl, (tt, tt))

  -- Once the attempt is committed, at most the one signal and records follow.
  attempted :
      (w : World R) (d : Daemon) (id : String) (a : CleanupApproval) (now : Instant) (k : Key)
      (found : List Evidence) (effects : List Effect)
      → revalidate_cleanup R w d a ≡ pass (k, found)
      → let json = w.evidence_json found in
        let r = attempt_record R w id a now json in
        let audit = attempt_audit R w id a json in
        let before = effects ++ (insert_action r audit ∷ []) in
        let after =
          (complete_action R w id a found
            (signal_process R w d.self_uid k a.executable sigterm before)).0 in
        AddsNone effects after ⊎ AddsOne w d id a effects after
  attempted w d id a now k found effects e =
      let json = w.evidence_json found in
      let r = attempt_record R w id a now json in
      let audit = attempt_audit R w id a json in
      let before = effects ++ (insert_action r audit ∷ []) in
      let sent = signal_process R w d.self_uid k a.executable sigterm before in
      let (rest, eq, quiet) = complete_action-AddsNone w id a found sent.0 sent.1 in
      elim (signal_process-exact R w d.self_uid k a.executable sigterm before) [
        | inl none_sent ↦ inl (
          insert_action r audit ∷ rest,
          eq
              ∙ ap (λ s. s ++ rest) none_sent
              ∙ append_assoc effects (insert_action r audit ∷ []) rest,
          (tt, quiet),
        )
        | inr (one_sent, _, exact) ↦ inr (
          k,
          found,
          r,
          audit,
          rest,
          eq
              ∙ ap (λ s. s ++ rest) one_sent
              ∙ regroup effects (insert_action r audit) (kill k.pid) rest,
          quiet,
          unfold attempt_record in refl,
          unfold attempt_record in refl,
          e,
          exact,
        )
      ]

  act-signals :
      (w : World R) (d : Daemon) (id : String) (a : CleanupApproval) (now : Instant)
      (c : Checked (Key × List Evidence)) (effects : List Effect)
      → revalidate_cleanup R w d a ≡ c
      → AddsNone effects (act R w d id a now c effects).0
        ⊎ AddsOne w d id a effects (act R w d id a now c effects).0
  unfolding act
  act-signals w d id a now (refuse found reason) effects e =
      inl (reject_action-AddsNone w id a reason _ w.now_refused effects)
  act-signals w d id a now (pass (k, found)) effects e =
      commit-holds (λ after. AddsNone effects after ⊎ AddsOne w d id a effects after) w _ effects _
        (inl ([], sym (append-nil effects), tt)) (attempted w d id a now k found effects e)

  -- A cleanup action, whatever the platform, the store and the clock answer, adds either no signal at
  -- all, or exactly one: the committed record of the attempt, then the one SIGTERM, then only records;
  -- and the signal goes to the key that a full revalidation passed, which a fresh inspection showed to
  -- be the exact process that was approved.
  pub execute_cleanup-signals :
      (w : World R) (d : Daemon) (id : String) (a : CleanupApproval) (now : Instant)
      (effects : List Effect)
      → AddsNone effects (execute_cleanup R w d id a now effects).0
        ⊎ AddsOne w d id a effects (execute_cleanup R w d id a now effects).0
  unfolding execute_cleanup
  execute_cleanup-signals w d id a now effects =
      act-signals w d id a now (revalidate_cleanup R w d a) effects refl

  after_action_id-holds :
      (P : Done → Type 0) (r : Result String) (effects : List Effect) (next : String → Done)
      → ((text : String) → P (effects, err text))
      → ((id : String) → P (next id))
      → P (after_action_id R r effects next)
  unfolding after_action_id
  after_action_id-holds P (err text) effects next h k = h text
  after_action_id-holds P (ok token) effects next h k = k ("act_" <> token)

  -- What holds without an action id and with any holds.
  with_action_id-holds :
      (P : Done → Type 0) (w : World R) (effects : List Effect) (next : String → Done)
      → ((text : String) → P (effects, err text))
      → ((id : String) → P (next id))
      → P (with_action_id R w effects next)
  unfolding with_action_id
  with_action_id-holds P w effects next h k =
      after_action_id-holds P (w.new_token 12) effects next h k

  abbrev pub OneFor :
      World R → Daemon → Consumed CleanupApproval → List Effect → List Effect → Type 0
  OneFor w d c before after =
      (a : CleanupApproval) × (id : String) × (c ≡ granted a) × AddsOne w d id a before after

  apply_consumed-signals :
      (w : World R) (d : Daemon) (c : Consumed CleanupApproval) (effects : List Effect)
      → let after = (apply_consumed R w d c effects).0 in
        AddsNone effects after ⊎ OneFor w d c effects after
  unfolding apply_consumed
  apply_consumed-signals w d (missing text) effects = inl ([], sym (append-nil effects), tt)
  apply_consumed-signals w d (denied a refusal) effects =
      with_action_id-holds
        (λ done. AddsNone effects done.0 ⊎ OneFor w d (denied a refusal) effects done.0) w effects _
        (λ text. inl ([], sym (append-nil effects), tt))
        (λ id. inl (reject_action-AddsNone w id a refusal _ w.now_start effects))
  apply_consumed-signals w d (granted a) effects =
      with_action_id-holds (λ done. AddsNone effects done.0 ⊎ OneFor w d (granted a) effects done.0)
        w effects _ (λ text. inl ([], sym (append-nil effects), tt))
        (λ id. elim (execute_cleanup-signals w d id a w.now_start effects) [
          | inl none_sent ↦ inl none_sent
          | inr one_sent ↦ inr (a, id, refl, one_sent)
        ])

  -- A manual apply, whatever the platform, the store and the clock answer, adds either no signal, or
  -- exactly one: after the committed record of the attempt and before only records, to the key that a
  -- full revalidation passed and that a fresh inspection showed to be the exact approved process, for
  -- an approval that the token's digest names, that was not used before, and that has not expired.
  pub cleanup_apply-signals :
      (w : World R) (d : Daemon) (token : String) (approvals : Approvals CleanupApproval)
      (effects : List Effect)
      → let after = (cleanup_apply R w d token approvals effects).1.0 in
        AddsNone effects after
        ⊎ ((a : CleanupApproval) × (id : String) × (lookup (w.secret_digest token) approvals
              ≡ some a)
            × (a.used ≡ false)
            × (w.now_start < a.expires)
            × AddsOne w d id (record a { used = true }) effects after)
  unfolding cleanup_apply
  cleanup_apply-signals w d token approvals effects = elim (Bool-cases (token == "")) [
    | inl empty ↦ rw empty (inl ([], sym (append-nil effects), tt))
    | inr given ↦ rw given (
        let digest = w.secret_digest token in
        let consumed = (consume_approval digest w.now_start approvals).1 in
        elim (apply_consumed-signals w d consumed effects) [
          | inl none_sent ↦ inl none_sent
          | inr (a, id, e, one_sent) ↦
              let (b, found, unused, in_time, spent) =
                (granted_iff digest w.now_start approvals a).0 e in
              inr (
                b,
                id,
                found,
                unused,
                in_time,
                subst (λ c. AddsOne w d id c effects (apply_consumed R w d consumed effects).0)
                    spent one_sent,
              )
        ])
  ]
