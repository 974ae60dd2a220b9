-- ===== src/Cache/Lane/Requests/Kept.antt =====
-- A stopped lane holds no new purge plan and answers with none.
use mathlib.Core.List.{Memᴰ}
use ghostgc.Prelude.{
  ◌<>◌, ◌≡◌, ◌∙◌, ap, refl, inl, inr, Bool, true, false, String, Option, none, some, [], ◌∷◌, All,
  All_at, ◌==◌, ◌!=◌, ◌||◌, string_eq, if◌then◌else◌, Bool-cases, arith,
}
use ghostgc.Prelude.Time.{Instant}
use ghostgc.Prelude.Runtime.{Runtime}
use ghostgc.Daemon.{Result, Result-cases, ok, err}
use ghostgc.Daemon.Approvals.{Consumed, missing, denied, granted, lookup, remove}
use ghostgc.Cache.{CacheConfig, Digests}
use ghostgc.Cache.Lane.{
  CacheApproval, cache_ticket, PurgeExecution, Lane, CacheWorld, Response, Done,
}
use ghostgc.Cache.Lane.Revalidation.{current_quarantine_approval}
use ghostgc.Cache.Lane.Revalidation.Passed.{current_quarantine_approval-MayAct}
use ghostgc.Cache.Lane.Actions.{reject_action}
use ghostgc.Cache.Lane.Purge.{
  Plans, Prepared, without_plan, with_plans, prepare_checked, prepare_purge, purge_known,
  purge_consumed, cache_purge_apply, take_execution, consume_execution, cache_purge_complete,
}
use ghostgc.Cache.Lane.Purge.Plans.{without_plan-lane, complete_consumed-plans}
use ghostgc.Cache.Lane.Requests.{plan_in}
use ghostgc.Cache.Lane.Requests.Frames.{reject_action-Frame}

-- Every plan that is held after was held before.
abbrev pub Kept : Plans → Plans → Type 0
Kept before after = All (λ p. Memᴰ p before) after

Kept-weaken :
    (x : String × PurgeExecution) (before after : Plans)
    → Kept before after
    → Kept (x ∷ before) after
Kept-weaken x before [] k = tt
Kept-weaken x before (p ∷ after) k = (Memᴰ.tail k.0, Kept-weaken x before after k.1)

pub Kept-refl : (plans : Plans) → Kept plans plans
Kept-refl [] = tt
Kept-refl (p ∷ plans) = (Memᴰ.head refl, Kept-weaken p plans plans (Kept-refl plans))

pub Kept-trans : (a b d : Plans) → Kept a b → Kept b d → Kept a d
Kept-trans a b [] k l = tt
Kept-trans a b (p ∷ d) k l = (All_at (λ q. Memᴰ q a) b p k l.0, Kept-trans a b d k l.1)

remove-Kept : (digest : String) (plans : Plans) → Kept plans (remove digest plans)
unfolding remove
remove-Kept digest [] = tt
remove-Kept digest ((d, x) ∷ plans) =
    let rest = Kept-weaken (d, x) plans (remove digest plans) (remove-Kept digest plans) in
    elim (Bool-cases (d == digest)) [
      | inl here ↦ rw here rest
      | inr not_here ↦ rw not_here (Memᴰ.head refl, rest)
    ]

-- The plans are as before, and the answer has none.
abbrev Refused : Lane → Done Prepared → Type 0
Refused lane done = (done.0.purge_plans ≡ lane.purge_plans) × (plan_in done.1 ≡ [])

plan_in-without_plan : (done : Done Response) → plan_in (without_plan done).1 ≡ []
unfolding plan_in without_plan
plan_in-without_plan (lane, err text) = refl
plan_in-without_plan (lane, ok r) = refl

reject_action-Refused :
    (w : CacheWorld) (id : String) (a : CacheApproval) (reason : String) (now : Instant)
    (lane : Lane)
    → Refused lane (without_plan (reject_action w id a reason now lane))
reject_action-Refused w id a reason now lane = (
  ap (λ z. z.purge_plans) (without_plan-lane (reject_action w id a reason now lane))
      ∙ (reject_action-Frame w id a reason now lane).0,
  plan_in-without_plan (reject_action w id a reason now lane),
)

Refused-if :
    (lane : Lane) (b : Bool) (x y : Done Prepared)
    → Refused lane x
    → Refused lane y
    → Refused lane (if b then x else y)
Refused-if lane true x y p q = p
Refused-if lane false x y p q = q

module _ (R : Runtime) (D : Digests) (c : CacheConfig) (w : CacheWorld) where
  prepare_purge-Refused :
      (id : String) (a : CacheApproval) (now : Instant) (lane : Lane)
      → lane.filesystem_healthy ≡ false
      → Refused lane (prepare_purge R D c w id a now lane)
  unfolding prepare_purge prepare_checked
  prepare_purge-Refused id a now lane off =
      elim (Result-cases (current_quarantine_approval R D c w lane a)) [
        | inr (text, e) ↦ rw e (reject_action-Refused w id a text now lane)
        | inl ((item, evidence), e) ↦
            let may = current_quarantine_approval-MayAct R D c w lane a item evidence e in
            let on = may.filesystem_healthy in absurd (ground arith)
      ]

  purge_known-Refused :
      (confirmation : String) (a : CacheApproval) (refusal : String) (id : Result String)
      (lane : Lane)
      → lane.filesystem_healthy ≡ false
      → Refused lane (purge_known R D c w confirmation a refusal id lane)
  unfolding purge_known plan_in
  purge_known-Refused confirmation a refusal (err text) lane off = (refl, refl)
  purge_known-Refused confirmation a refusal (ok token) lane off =
      Refused-if lane _ _ _ (prepare_purge-Refused ("act_" <> token) a w.now_start lane off)
        (reject_action-Refused w ("act_" <> token) a _ w.now_start lane)

  purge_consumed-Refused :
      (confirmation : String) (consumed : Consumed CacheApproval) (id : Result String) (lane : Lane)
      → lane.filesystem_healthy ≡ false
      → Refused lane (purge_consumed R D c w confirmation consumed id lane)
  unfolding purge_consumed plan_in
  purge_consumed-Refused confirmation (missing text) id lane off = (refl, refl)
  purge_consumed-Refused confirmation (denied a refusal) id lane off =
      purge_known-Refused confirmation a refusal id lane off
  purge_consumed-Refused confirmation (granted a) id lane off =
      purge_known-Refused confirmation a "" id lane off

  pub cache_purge_apply-Refused :
      (token confirmation : String) (lane : Lane)
      → lane.filesystem_healthy ≡ false
      → Refused lane (cache_purge_apply R D c w token confirmation lane)
  unfolding cache_purge_apply plan_in
  cache_purge_apply-Refused token confirmation lane off =
      Refused-if lane (token == "" || confirmation == "") _ _ (refl, refl)
        (purge_consumed-Refused confirmation _ (w.new_token 12) (record lane { approvals = _ }) off)

  take_execution-Kept :
      (action_id digest : String) (o : Option PurgeExecution) (plans : Plans)
      → Kept plans (take_execution R D c w action_id digest o plans).0
  unfolding take_execution
  take_execution-Kept action_id digest none plans = Kept-refl plans
  take_execution-Kept action_id digest (some x) plans =
      elim (Bool-cases (x.plan.action_id != action_id)) [
        | inl other ↦ rw other (Kept-refl plans)
        | inr same ↦ rw same (elim (Bool-cases x.used) [
          | inl spent ↦ rw spent (Kept-refl plans)
          | inr unused ↦ rw unused (remove-Kept digest plans)
        ])
      ]

  pub cache_purge_complete-Kept :
      (action_id completion execution_error : String) (lane : Lane)
      → Kept lane.purge_plans
          (cache_purge_complete R D c w action_id completion execution_error lane).0.purge_plans
  unfolding cache_purge_complete with_plans consume_execution
  cache_purge_complete-Kept action_id completion execution_error lane =
      let taken = consume_execution R D c w action_id completion lane.purge_plans in
      rw
        (complete_consumed-plans R D c w execution_error taken.1
          (record lane { purge_plans = taken.0 }))
        (elim (Bool-cases (action_id == "" || completion == "")) [
          | inl blank ↦ rw blank (Kept-refl lane.purge_plans)
          | inr given ↦ rw given (
              take_execution-Kept action_id (w.secret_digest completion)
                (lookup (w.secret_digest completion) lane.purge_plans) lane.purge_plans)
        ])
