-- ===== src/Cache/Lane/Purge/Plans.antt =====
-- At most one purge plan is outstanding, and the daemon itself never renames or deletes for a purge.
use ghostgc.Prelude.{
  ◌<>◌, ◌≡◌, ◌≤◌, ◌∙◌, ap, sym, refl, inl, inr, Bool, true, false, String, Option, none, some, List,
  [], ◌∷◌, ◌++◌, ◌==◌, ◌||◌, string_eq, Bool-cases, arith, if◌then◌else◌, length, leb,
}
use ghostgc.Prelude.Int.{ℤ}
use ghostgc.Prelude.Time.{Instant, unix_nano}
use ghostgc.Prelude.Runtime.{Runtime}
use ghostgc.Daemon.{Result, ok, err}
use ghostgc.Daemon.Approvals.{Consumed, missing, denied, granted, lookup, insert, remove}
use ghostgc.Cache.{Identity, identity_eq, Action, Quarantine, CacheConfig, Digests}
use ghostgc.Cache.Store.{CacheStore}
use ghostgc.Cache.Lane.{
  CacheApproval, cache_ticket, PurgePlan, PurgeExecution, Lane, CacheWorld, Response, Done, Event,
  begin, commit_if, fail_action,
}
use ghostgc.Cache.Lane.Revalidation.{current_quarantine_approval}
use ghostgc.Cache.Lane.Actions.{answer, reject_action, committed_or}
use ghostgc.Cache.Lane.Purge.{
  Plans, prune_plans, without_plan, with_plans, hold_plan, hold_begun, prepare_with,
  prepare_checked, prepare_purge, purge_known, purge_consumed, cache_purge_apply, take_execution,
  consume_execution, ambiguous_purge, verify_entry, verify_purge, complete_consumed,
  cache_purge_complete,
}

length-remove : (digest : String) (plans : Plans) → length (remove digest plans) ≤ length plans
unfolding remove
length-remove digest [] = omega arith
length-remove digest ((d, x) ∷ plans) = let shorter = length-remove digest plans in ground arith

length-prune_plans : (now : ℤ) (plans : Plans) → length (prune_plans now plans) ≤ length plans
unfolding prune_plans
length-prune_plans now [] = omega arith
length-prune_plans now ((d, x) ∷ plans) = let shorter = length-prune_plans now plans in ground arith

-- The plans after a transaction are those before.
commit_if-plans :
    (o : Option String) (next : Result CacheStore) (e : Event) (lane after : Lane)
    → commit_if o next e lane ≡ ok after
    → after.purge_plans ≡ lane.purge_plans
unfolding commit_if
commit_if-plans (some text) next e lane after h = cc
commit_if-plans none (err text) e lane after h = cc
commit_if-plans none (ok s) e lane after h =
    let same : record lane { store = s; journal = lane.journal ++ (e ∷ []) } ≡ after =
      ground arith in
    ap (λ z. z.purge_plans) (sym same)

answer-plans :
    (o : Option String) (next : Result CacheStore) (e : Event) (lane : Lane) (r : Response)
    → (answer lane (commit_if o next e lane) r).0.purge_plans ≡ lane.purge_plans
unfolding commit_if answer
answer-plans (some text) next e lane r = refl
answer-plans none (err text) e lane r = refl
answer-plans none (ok s) e lane r = refl

committed_or-plans :
    (o : Option String) (next : Result CacheStore) (e : Event) (lane : Lane)
    → (committed_or lane (commit_if o next e lane)).purge_plans ≡ lane.purge_plans
unfolding commit_if committed_or
committed_or-plans (some text) next e lane = refl
committed_or-plans none (err text) e lane = refl
committed_or-plans none (ok s) e lane = refl

pub without_plan-lane : (done : Done Response) → (without_plan done).0 ≡ done.0
unfolding without_plan
without_plan-lane (lane, err text) = refl
without_plan-lane (lane, ok r) = refl

reject_action-plans :
    (w : CacheWorld) (id : String) (a : CacheApproval) (reason : String) (now : Instant)
    (lane : Lane)
    → (without_plan (reject_action w id a reason now lane)).0.purge_plans ≡ lane.purge_plans
unfolding reject_action begin
reject_action-plans w id a reason now lane =
    ap (λ z. z.purge_plans) (without_plan-lane (reject_action w id a reason now lane))
    ∙ answer-plans (w.commit_error "begin") _ _ lane _

-- At most one plan is held.
abbrev pub FewPlans : Lane → Type 0
FewPlans lane = length lane.purge_plans ≤ 1

rejected-FewPlans :
    (w : CacheWorld) (id : String) (a : CacheApproval) (reason : String) (now : Instant)
    (lane : Lane)
    → FewPlans lane
    → FewPlans (without_plan (reject_action w id a reason now lane)).0
rejected-FewPlans w id a reason now lane few = rw (reject_action-plans w id a reason now lane) few

FewPlans-if :
    {A : Type 0} (b : Bool) (x y : Done A)
    → FewPlans x.0
    → FewPlans y.0
    → FewPlans (if b then x else y).0
FewPlans-if true x y p q = p
FewPlans-if false x y p q = q

module _ (R : Runtime) (D : Digests) (c : CacheConfig) (w : CacheWorld) where
  hold_plan-FewPlans :
      (id : String) (a : CacheApproval) (plan : PurgePlan) (evidence : List String) (now : Instant)
      (lane : Lane)
      → FewPlans lane
      → FewPlans (hold_plan R D c w id a plan evidence now lane).0
  unfolding hold_plan with_plans fail_action insert
  hold_plan-FewPlans id a plan evidence now lane few =
      let plans = prune_plans (unix_nano now) lane.purge_plans in
      let shorter = length-prune_plans (unix_nano now) lane.purge_plans in
      elim (Bool-cases (leb 1 (length plans))) [
        | inl full ↦ rw full (
            rw
              (committed_or-plans (w.commit_error "finish") _ _
                (record lane { purge_plans = plans }))
              (omega arith))
        | inr empty ↦
            let gone = length-remove (w.secret_digest plan.completion) plans in
            rw empty (ground arith)
      ]

  prepare_with-FewPlans :
      (id : String) (a : CacheApproval) (item : Quarantine) (evidence : List String) (now : Instant)
      (lane : Lane) (r : Result String)
      → FewPlans lane
      → FewPlans (prepare_with R D c w id a item evidence now lane r).0
  unfolding prepare_with begin
  prepare_with-FewPlans id a item evidence now lane (err text) few = few
  prepare_with-FewPlans id a item evidence now lane (ok completion) few =
      begun _ _ (begin w _ lane) refl
    where
      begun :
          (plan : PurgePlan) (action : Action) (r : Result Lane)
          → begin w action lane ≡ r
          → FewPlans (hold_begun R D c w id a plan evidence now lane r).0
      begun plan action (err text) e = unfold hold_begun in few
      begun plan action (ok after) e =
          let same = commit_if-plans _ _ _ lane after e in
          unfold hold_begun in hold_plan-FewPlans id a plan evidence now after (rw same few)

  prepare_purge-FewPlans :
      (id : String) (a : CacheApproval) (now : Instant) (lane : Lane)
      → FewPlans lane
      → FewPlans (prepare_purge R D c w id a now lane).0
  unfolding prepare_purge
  prepare_purge-FewPlans id a now lane few = checked (current_quarantine_approval R D c w lane a)
    where
      checked :
          (r : Result (Quarantine × List String))
          → FewPlans (prepare_checked R D c w id a now r lane).0
      checked (err text) = unfold prepare_checked in rejected-FewPlans w id a text now lane few
      checked (ok (item, evidence)) =
          unfold prepare_checked in
          FewPlans-if _ _ _ (rejected-FewPlans w id a _ now lane few)
            (prepare_with-FewPlans id a item evidence now lane (w.new_token 32) few)

  purge_known-FewPlans :
      (confirmation : String) (a : CacheApproval) (refusal : String) (id : Result String)
      (lane : Lane)
      → FewPlans lane
      → FewPlans (purge_known R D c w confirmation a refusal id lane).0
  unfolding purge_known
  purge_known-FewPlans confirmation a refusal (err text) lane few = few
  purge_known-FewPlans confirmation a refusal (ok token) lane few =
      FewPlans-if _ _ _ (prepare_purge-FewPlans ("act_" <> token) a w.now_start lane few)
        (rejected-FewPlans w ("act_" <> token) a _ w.now_start lane few)

  purge_consumed-FewPlans :
      (confirmation : String) (consumed : Consumed CacheApproval) (id : Result String) (lane : Lane)
      → FewPlans lane
      → FewPlans (purge_consumed R D c w confirmation consumed id lane).0
  unfolding purge_consumed
  purge_consumed-FewPlans confirmation (missing text) id lane few = few
  purge_consumed-FewPlans confirmation (denied a refusal) id lane few =
      purge_known-FewPlans confirmation a refusal id lane few
  purge_consumed-FewPlans confirmation (granted a) id lane few =
      purge_known-FewPlans confirmation a "" id lane few

  -- A purge apply leaves at most one plan.
  pub cache_purge_apply-FewPlans :
      (token confirmation : String) (lane : Lane)
      → FewPlans lane
      → FewPlans (cache_purge_apply R D c w token confirmation lane).0
  unfolding cache_purge_apply
  cache_purge_apply-FewPlans token confirmation lane few =
      FewPlans-if (token == "" || confirmation == "") _ _ few
        (purge_consumed-FewPlans confirmation _ (w.new_token 12) _ few)

  take_execution-few :
      (action_id digest : String) (o : Option PurgeExecution) (plans : Plans)
      → length (take_execution R D c w action_id digest o plans).0 ≤ length plans
  unfolding take_execution
  take_execution-few action_id digest none plans = omega arith
  take_execution-few action_id digest (some x) plans =
      let shorter = length-remove digest plans in ground arith

  pub complete_consumed-plans :
      (execution_error : String) (r : Result PurgeExecution) (lane : Lane)
      → (complete_consumed R D c w execution_error r lane).0.purge_plans ≡ lane.purge_plans
  unfolding complete_consumed verify_purge ambiguous_purge fail_action
  complete_consumed-plans execution_error (err text) lane = refl
  complete_consumed-plans execution_error (ok x) lane =
      seen _ (w.quarantine_entry x.plan.root_path x.plan.quarantine_path x.plan.root_identity)
    where
      ambiguous :
          (cause : String) → (ambiguous_purge R D c w x cause lane).0.purge_plans ≡ lane.purge_plans
      ambiguous cause =
          answer-plans (w.commit_error "finish") _ _ (record lane { filesystem_healthy = false }) _

      either :
          (b : Bool) (y z : Done Response)
          → y.0.purge_plans ≡ lane.purge_plans
          → z.0.purge_plans ≡ lane.purge_plans
          → (if b then y else z).0.purge_plans ≡ lane.purge_plans
      either true y z p q = p
      either false y z p q = q

      seen :
          (expired : Bool) (r : Result (Option Identity))
          → (verify_entry R D c w x execution_error expired r lane).0.purge_plans ≡ lane.purge_plans
      seen expired (err text) = unfold verify_entry in ambiguous _
      seen expired (ok (some current)) =
          unfold verify_entry in
          either _ _ _ (ambiguous _) (answer-plans (w.commit_error "finish") _ _ lane _)
      seen expired (ok none) =
          unfold verify_entry in
          either _ _ _ (ambiguous _) (answer-plans (w.commit_error "purged") _ _ lane _)

  pub cache_purge_complete-FewPlans :
      (action_id completion execution_error : String) (lane : Lane)
      → FewPlans lane
      → FewPlans (cache_purge_complete R D c w action_id completion execution_error lane).0
  unfolding cache_purge_complete with_plans consume_execution
  cache_purge_complete-FewPlans action_id completion execution_error lane few =
      let taken = consume_execution R D c w action_id completion lane.purge_plans in
      let shorter =
        take_execution-few action_id (w.secret_digest completion)
          (lookup (w.secret_digest completion) lane.purge_plans) lane.purge_plans in
      let same =
        complete_consumed-plans execution_error taken.1 (record lane { purge_plans = taken.0 }) in
      let fewer : length taken.0 ≤ 1 = ground arith in rw same fewer
