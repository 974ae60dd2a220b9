-- ===== src/Cache/Lane/Requests/Frames.antt =====
-- A quarantine or a restore touches neither the purge plans nor the filesystem circuit.
use ghostgc.Prelude.{
  ◌<>◌, ◌≡◌, ◌∙◌, subst, refl, Bool, true, false, String, Option, none, some, List, ◌==◌, ◌!=◌,
  string_eq, if◌then◌else◌, Bool-cases, inl, inr,
}
use ghostgc.Prelude.Time.{Instant}
use ghostgc.Prelude.Runtime.{Runtime}
use ghostgc.Daemon.{Result, ok, err, ok_injective}
use ghostgc.Daemon.Approvals.{Consumed, missing, denied, granted}
use ghostgc.Cache.{Identity, Artifact, Action, Quarantine, CacheConfig, Digests}
use ghostgc.Cache.Store.{CacheStore}
use ghostgc.Cache.Lane.{
  CacheApproval, Lane, CacheWorld, Response, Done, Event, begin, commit_if, fail_action,
}
use ghostgc.Cache.Lane.Actions.{
  answer, reject_action, failed_call, committed_or, after_quarantine, try_quarantine,
  quarantine_checked, apply_quarantine, after_restore, try_restore, restore_checked, apply_restore,
  apply_kind, apply_consumed, apply_cache_approval,
}

-- The plans and the circuit are as before.
abbrev pub Frame : Lane → Lane → Type 0
Frame lane after =
    (after.purge_plans ≡ lane.purge_plans) × (after.filesystem_healthy ≡ lane.filesystem_healthy)

Frame-trans : (a b d : Lane) → Frame a b → Frame b d → Frame a d
Frame-trans a b d (p, q) (r, s) = (r ∙ p, s ∙ q)

commit_if-Frame :
    (o : Option String) (next : Result CacheStore) (e : Event) (lane after : Lane)
    → commit_if o next e lane ≡ ok after
    → Frame lane after
unfolding commit_if
commit_if-Frame (some text) next e lane after h = cc
commit_if-Frame none (err text) e lane after h = cc
commit_if-Frame none (ok s) e lane after h =
    subst (Frame lane) (ok_injective _ after h) (refl, refl)

answer-Frame :
    (o : Option String) (next : Result CacheStore) (e : Event) (lane : Lane) (r : Response)
    → Frame lane (answer lane (commit_if o next e lane) r).0
unfolding commit_if answer
answer-Frame (some text) next e lane r = (refl, refl)
answer-Frame none (err text) e lane r = (refl, refl)
answer-Frame none (ok s) e lane r = (refl, refl)

pub reject_action-Frame :
    (w : CacheWorld) (id : String) (a : CacheApproval) (reason : String) (now : Instant)
    (lane : Lane)
    → Frame lane (reject_action w id a reason now lane).0
unfolding reject_action begin
reject_action-Frame w id a reason now lane = answer-Frame (w.commit_error "begin") _ _ lane _

failed_call-Frame :
    (w : CacheWorld) (id : String) (a : CacheApproval) (cause : String) (evidence : List String)
    (lane : Lane)
    → Frame lane (failed_call w id a cause evidence lane).0
unfolding failed_call fail_action
failed_call-Frame w id a cause evidence lane = either (w.commit_error "finish") _ _
  where
    either :
        (o : Option String) (next : Result CacheStore) (e : Event)
        → Frame lane (committed_or lane (commit_if o next e lane))
    either (some text) next e = unfold committed_or commit_if in (refl, refl)
    either none (err text) e = unfold committed_or commit_if in (refl, refl)
    either none (ok s) e = unfold committed_or commit_if in (refl, refl)

Frame-if :
    {A : Type 0} (lane : Lane) (b : Bool) (x y : Done A)
    → Frame lane x.0
    → Frame lane y.0
    → Frame lane (if b then x else y).0
Frame-if lane true x y p q = p
Frame-if lane false x y p q = q

module _ (R : Runtime) (D : Digests) (c : CacheConfig) (w : CacheWorld) where
  after_quarantine-Frame :
      (id : String) (a : CacheApproval) (artifact : Artifact) (destination : String)
      (evidence : List String) (r : Result Identity) (lane : Lane)
      → Frame lane (after_quarantine R D c w id a artifact destination evidence r lane).0
  unfolding after_quarantine
  after_quarantine-Frame id a artifact destination evidence (err cause) lane =
      failed_call-Frame w id a cause evidence lane
  after_quarantine-Frame id a artifact destination evidence (ok moved) lane =
      answer-Frame (w.commit_error "quarantined") _ _ lane _

  after_restore-Frame :
      (id : String) (a : CacheApproval) (item : Quarantine) (evidence : List String)
      (r : Result Identity) (lane : Lane)
      → Frame lane (after_restore R D c w id a item evidence r lane).0
  unfolding after_restore
  after_restore-Frame id a item evidence (err cause) lane =
      failed_call-Frame w id a cause evidence lane
  after_restore-Frame id a item evidence (ok restored) lane =
      answer-Frame (w.commit_error "restored") _ _ lane _

  try_quarantine-Frame :
      (id : String) (a : CacheApproval) (artifact : Artifact) (evidence : List String) (lane : Lane)
      (action : Action) (z : Result Lane)
      → begin w action lane ≡ z
      → Frame lane (try_quarantine R D c w id a artifact evidence lane z).0
  unfolding try_quarantine begin
  try_quarantine-Frame id a artifact evidence lane action (err text) h = (refl, refl)
  try_quarantine-Frame id a artifact evidence lane action (ok after) h =
      let (p, q) = commit_if-Frame _ _ _ lane after h in
      let (r, s) = after_quarantine-Frame id a artifact (w.base a.destination) evidence _ _ in
      (r ∙ p, s ∙ q)

  try_restore-Frame :
      (id : String) (a : CacheApproval) (item : Quarantine) (evidence : List String) (lane : Lane)
      (action : Action) (z : Result Lane)
      → begin w action lane ≡ z
      → Frame lane (try_restore R D c w id a item evidence lane z).0
  unfolding try_restore begin
  try_restore-Frame id a item evidence lane action (err text) h = (refl, refl)
  try_restore-Frame id a item evidence lane action (ok after) h =
      let (p, q) = commit_if-Frame _ _ _ lane after h in
      let (r, s) = after_restore-Frame id a item evidence _ _ in (r ∙ p, s ∙ q)

  quarantine_checked-Frame :
      (id : String) (a : CacheApproval) (now : Instant) (r : Result (Artifact × List String))
      (lane : Lane)
      → Frame lane (quarantine_checked R D c w id a now r lane).0
  unfolding quarantine_checked
  quarantine_checked-Frame id a now (err text) lane = reject_action-Frame w id a text now lane
  quarantine_checked-Frame id a now (ok (artifact, evidence)) lane =
      try_quarantine-Frame id a artifact evidence lane _ _ refl

  restore_checked-Frame :
      (id : String) (a : CacheApproval) (now : Instant) (r : Result (Quarantine × List String))
      (lane : Lane)
      → Frame lane (restore_checked R D c w id a now r lane).0
  unfolding restore_checked
  restore_checked-Frame id a now (err text) lane = reject_action-Frame w id a text now lane
  restore_checked-Frame id a now (ok (item, evidence)) lane =
      try_restore-Frame id a item evidence lane _ _ refl

  apply_kind-Frame :
      (kind id : String) (a : CacheApproval) (now : Instant) (lane : Lane)
      → Frame lane (apply_kind R D c w kind id a now lane).0
  unfolding apply_kind apply_quarantine apply_restore
  apply_kind-Frame kind id a now lane = elim (Bool-cases (a.kind != kind)) [
    | inl other ↦ rw other (reject_action-Frame w id a _ now lane)
    | inr same ↦ elim (Bool-cases (kind == "cleanup")) [
      | inl cleanup ↦ rw (same, cleanup) (quarantine_checked-Frame id a now _ lane)
      | inr not_cleanup ↦ elim (Bool-cases (kind == "restore")) [
        | inl restore ↦ rw (same, not_cleanup, restore) (restore_checked-Frame id a now _ lane)
        | inr neither ↦ rw (same, not_cleanup, neither) (reject_action-Frame w id a _ now lane)
      ]
    ]
  ]

  apply_consumed-Frame :
      (kind : String) (consumed : Consumed CacheApproval) (id : Result String) (lane : Lane)
      → Frame lane (apply_consumed R D c w kind consumed id lane).0
  unfolding apply_consumed
  apply_consumed-Frame kind (missing text) id lane = (refl, refl)
  apply_consumed-Frame kind (denied a refusal) (err text) lane = (refl, refl)
  apply_consumed-Frame kind (denied a refusal) (ok token) lane =
      reject_action-Frame w _ a _ w.now_start lane
  apply_consumed-Frame kind (granted a) (err text) lane = (refl, refl)
  apply_consumed-Frame kind (granted a) (ok token) lane =
      apply_kind-Frame kind ("act_" <> token) a w.now_start lane

  pub apply_cache_approval-Frame :
      (kind token : String) (lane : Lane)
      → Frame lane (apply_cache_approval R D c w kind token lane).0
  unfolding apply_cache_approval
  apply_cache_approval-Frame kind token lane =
      Frame-if lane (token == "") _ _ (refl, refl)
        (apply_consumed-Frame kind _ (w.new_token 12) (record lane { approvals = _ }))
