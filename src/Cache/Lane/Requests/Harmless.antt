-- ===== src/Cache/Lane/Requests/Harmless.antt =====
-- The steps of a purge in the daemon rename nothing and leave a stopped lane stopped.
use mathlib.Core.List.{append-nil, append_assoc}
use ghostgc.Prelude.{
  ◌<>◌, ◌≡◌, ◌∙◌, ap, subst, sym, refl, Bool, true, false, String, Option, none, some, List, [],
  ◌∷◌, ◌++◌, All-append, ◌==◌, ◌||◌, string_eq, if◌then◌else◌,
}
use ghostgc.Prelude.Time.{Instant}
use ghostgc.Prelude.Runtime.{Runtime}
use ghostgc.Daemon.{Result, ok, err, ok_injective}
use ghostgc.Daemon.Approvals.{Consumed, missing, denied, granted}
use ghostgc.Cache.{Identity, Action, Quarantine, CacheConfig, Digests}
use ghostgc.Cache.Store.{CacheStore}
use ghostgc.Cache.Lane.{
  CacheApproval, PurgePlan, PurgeExecution, Lane, CacheWorld, Response, Done, Event, begin,
  commit_if, fail_action,
}
use ghostgc.Cache.Lane.Actions.{answer, reject_action, committed_or}
use ghostgc.Cache.Lane.Actions.Journal.{is_call, Quiet}
use ghostgc.Cache.Lane.Purge.{
  without_plan, with_plans, hold_plan, hold_begun, prepare_with, prepare_checked, prepare_purge,
  purge_known, purge_consumed, cache_purge_apply, ambiguous_purge, verify_entry, verify_purge,
  complete_consumed, cache_purge_complete,
}

-- A stopped lane is still stopped.
abbrev pub StaysStopped : Lane → Lane → Type 0
StaysStopped lane after = lane.filesystem_healthy ≡ false → after.filesystem_healthy ≡ false

-- Nothing was renamed, and a stopped lane is still stopped.
abbrev pub Harmless : Lane → Lane → Type 0
Harmless lane after = Quiet lane.journal after.journal × StaysStopped lane after

pub Harmless-refl : (lane : Lane) → Harmless lane lane
Harmless-refl lane = (([], sym (append-nil lane.journal), tt), λ h. h)

pub Quiet-trans : (i j k : List Event) → Quiet i j → Quiet j k → Quiet i k
Quiet-trans i j k (es, e, q) (fs, f, r) = (
  es ++ fs,
  f ∙ ap (λ z. z ++ fs) e ∙ append_assoc i es fs,
  All-append (λ x. is_call x ≡ false) es fs q r,
)

Harmless-trans : (a b d : Lane) → Harmless a b → Harmless b d → Harmless a d
Harmless-trans a b d (q, s) (r, t) = (Quiet-trans a.journal b.journal d.journal q r, λ h. t (s h))

-- A transaction, whose event is no renaming call.
commit_if-Harmless :
    (o : Option String) (next : Result CacheStore) (e : Event) (lane after : Lane)
    → is_call e ≡ false
    → commit_if o next e lane ≡ ok after
    → Harmless lane after
unfolding commit_if
commit_if-Harmless (some text) next e lane after q h = cc
commit_if-Harmless none (err text) e lane after q h = cc
commit_if-Harmless none (ok s) e lane after q h =
    subst (Harmless lane) (ok_injective _ after h) ((e ∷ [], refl, (q, tt)), λ k. k)

answer-Harmless :
    (o : Option String) (next : Result CacheStore) (e : Event) (lane : Lane) (r : Response)
    → is_call e ≡ false
    → Harmless lane (answer lane (commit_if o next e lane) r).0
answer-Harmless o next e lane r q = either (commit_if o next e lane) refl
  where
    either : (z : Result Lane) → commit_if o next e lane ≡ z → Harmless lane (answer lane z r).0
    either (err text) h = unfold answer in Harmless-refl lane
    either (ok after) h = unfold answer in commit_if-Harmless o next e lane after q h

committed_or-Harmless :
    (o : Option String) (next : Result CacheStore) (e : Event) (lane : Lane)
    → is_call e ≡ false
    → Harmless lane (committed_or lane (commit_if o next e lane))
committed_or-Harmless o next e lane q = either (commit_if o next e lane) refl
  where
    either : (z : Result Lane) → commit_if o next e lane ≡ z → Harmless lane (committed_or lane z)
    either (err text) h = unfold committed_or in Harmless-refl lane
    either (ok after) h = unfold committed_or in commit_if-Harmless o next e lane after q h

reject_action-Harmless :
    (w : CacheWorld) (id : String) (a : CacheApproval) (reason : String) (now : Instant)
    (lane : Lane)
    → Harmless lane (reject_action w id a reason now lane).0
unfolding reject_action begin
reject_action-Harmless w id a reason now lane =
    answer-Harmless (w.commit_error "begin") _ _ lane _ refl

without_plan-Harmless :
    (lane : Lane) (done : Done Response)
    → Harmless lane done.0
    → Harmless lane (without_plan done).0
unfolding without_plan
without_plan-Harmless lane (after, err text) h = h
without_plan-Harmless lane (after, ok r) h = h

Harmless-if :
    {A : Type 0} (lane : Lane) (b : Bool) (x y : Done A)
    → Harmless lane x.0
    → Harmless lane y.0
    → Harmless lane (if b then x else y).0
Harmless-if lane true x y p q = p
Harmless-if lane false x y p q = q

module _ (R : Runtime) (D : Digests) (c : CacheConfig) (w : CacheWorld) where
  hold_plan-Harmless :
      (id : String) (a : CacheApproval) (plan : PurgePlan) (evidence : List String) (now : Instant)
      (lane : Lane)
      → Harmless lane (hold_plan R D c w id a plan evidence now lane).0
  unfolding hold_plan with_plans fail_action
  hold_plan-Harmless id a plan evidence now lane =
      Harmless-if lane _ _ _
        (committed_or-Harmless (w.commit_error "finish") _ _ (record lane { purge_plans = _ }) refl)
        (Harmless-refl lane)

  hold_begun-Harmless :
      (id : String) (a : CacheApproval) (plan : PurgePlan) (evidence : List String) (now : Instant)
      (lane : Lane) (action : Action) (z : Result Lane)
      → begin w action lane ≡ z
      → Harmless lane (hold_begun R D c w id a plan evidence now lane z).0
  unfolding hold_begun begin
  hold_begun-Harmless id a plan evidence now lane action (err text) h = Harmless-refl lane
  hold_begun-Harmless id a plan evidence now lane action (ok after) h =
      Harmless-trans lane after (hold_plan R D c w id a plan evidence now after).0
        (commit_if-Harmless _ _ _ lane after refl h)
        (hold_plan-Harmless id a plan evidence now after)

  prepare_with-Harmless :
      (id : String) (a : CacheApproval) (item : Quarantine) (evidence : List String) (now : Instant)
      (lane : Lane) (r : Result String)
      → Harmless lane (prepare_with R D c w id a item evidence now lane r).0
  unfolding prepare_with
  prepare_with-Harmless id a item evidence now lane (err text) = Harmless-refl lane
  prepare_with-Harmless id a item evidence now lane (ok completion) =
      hold_begun-Harmless id a _ evidence now lane _ _ refl

  prepare_checked-Harmless :
      (id : String) (a : CacheApproval) (now : Instant) (r : Result (Quarantine × List String))
      (lane : Lane)
      → Harmless lane (prepare_checked R D c w id a now r lane).0
  unfolding prepare_checked
  prepare_checked-Harmless id a now (err text) lane =
      without_plan-Harmless lane _ (reject_action-Harmless w id a text now lane)
  prepare_checked-Harmless id a now (ok (item, evidence)) lane =
      Harmless-if lane _ _ _
        (without_plan-Harmless lane _ (reject_action-Harmless w id a _ now lane))
        (prepare_with-Harmless id a item evidence now lane (w.new_token 32))

  purge_known-Harmless :
      (confirmation : String) (a : CacheApproval) (refusal : String) (id : Result String)
      (lane : Lane)
      → Harmless lane (purge_known R D c w confirmation a refusal id lane).0
  unfolding purge_known prepare_purge
  purge_known-Harmless confirmation a refusal (err text) lane = Harmless-refl lane
  purge_known-Harmless confirmation a refusal (ok token) lane =
      Harmless-if lane _ _ _ (prepare_checked-Harmless ("act_" <> token) a w.now_start _ lane) (
        without_plan-Harmless lane _
          (reject_action-Harmless w ("act_" <> token) a _ w.now_start lane))

  purge_consumed-Harmless :
      (confirmation : String) (consumed : Consumed CacheApproval) (id : Result String) (lane : Lane)
      → Harmless lane (purge_consumed R D c w confirmation consumed id lane).0
  unfolding purge_consumed
  purge_consumed-Harmless confirmation (missing text) id lane = Harmless-refl lane
  purge_consumed-Harmless confirmation (denied a refusal) id lane =
      purge_known-Harmless confirmation a refusal id lane
  purge_consumed-Harmless confirmation (granted a) id lane =
      purge_known-Harmless confirmation a "" id lane

  pub cache_purge_apply-Harmless :
      (token confirmation : String) (lane : Lane)
      → Harmless lane (cache_purge_apply R D c w token confirmation lane).0
  unfolding cache_purge_apply
  cache_purge_apply-Harmless token confirmation lane =
      Harmless-if lane (token == "" || confirmation == "") _ _ (Harmless-refl lane)
        (purge_consumed-Harmless confirmation _ (w.new_token 12) (record lane { approvals = _ }))

  ambiguous_purge-Harmless :
      (x : PurgeExecution) (cause : String) (lane : Lane)
      → Harmless lane (ambiguous_purge R D c w x cause lane).0
  unfolding ambiguous_purge fail_action
  ambiguous_purge-Harmless x cause lane =
      let (quiet, stopped) =
        answer-Harmless (w.commit_error "finish") _ _ (record lane { filesystem_healthy = false }) _
          refl in
      (quiet, λ h. stopped refl)

  verify_entry-Harmless :
      (x : PurgeExecution) (execution_error : String) (expired : Bool)
      (entry : Result (Option Identity)) (lane : Lane)
      → Harmless lane (verify_entry R D c w x execution_error expired entry lane).0
  unfolding verify_entry fail_action
  verify_entry-Harmless x execution_error expired (err text) lane =
      ambiguous_purge-Harmless x _ lane
  verify_entry-Harmless x execution_error expired (ok (some current)) lane =
      Harmless-if lane _ _ _ (ambiguous_purge-Harmless x _ lane)
        (answer-Harmless (w.commit_error "finish") _ _ lane _ refl)
  verify_entry-Harmless x execution_error expired (ok none) lane =
      Harmless-if lane _ _ _ (ambiguous_purge-Harmless x _ lane)
        (answer-Harmless (w.commit_error "purged") _ _ lane _ refl)

  complete_consumed-Harmless :
      (execution_error : String) (r : Result PurgeExecution) (lane : Lane)
      → Harmless lane (complete_consumed R D c w execution_error r lane).0
  unfolding complete_consumed verify_purge
  complete_consumed-Harmless execution_error (err text) lane = Harmless-refl lane
  complete_consumed-Harmless execution_error (ok x) lane =
      verify_entry-Harmless x execution_error _ _ lane

  pub cache_purge_complete-Harmless :
      (action_id completion execution_error : String) (lane : Lane)
      → Harmless lane (cache_purge_complete R D c w action_id completion execution_error lane).0
  unfolding cache_purge_complete with_plans
  cache_purge_complete-Harmless action_id completion execution_error lane =
      complete_consumed-Harmless execution_error _ (record lane { purge_plans = _ })
