-- ===== src/Cache/Lane/Purge/Outcomes.antt =====
-- What the completion of a purge may report, and how an ambiguous one stops the lane.
use ghostgc.Prelude.{
  ◌≡◌, ◌≢◌, ap, subst, sym, refl, inl, inr, Bool, true, false, String, Option, none, some, [], ◌∷◌,
  ◌++◌, ◌==◌, ◌!=◌, ◌||◌, string_eq, Bool-cases, arith,
}
use ghostgc.Prelude.Int.{ℤ}
use ghostgc.Prelude.Int
use ghostgc.Prelude.Time.{unix_nano}
use ghostgc.Prelude.Runtime.{Runtime}
use ghostgc.Daemon.{Result, ok, err}
use ghostgc.Daemon.Approvals.{lookup}
use ghostgc.Cache.{Identity, identity_eq, CacheConfig, Digests}
use ghostgc.Cache.Store.{CacheStore}
use ghostgc.Cache.Lane.{PurgeExecution, Lane, CacheWorld, Response, Event, commit_if, fail_action}
use ghostgc.Cache.Lane.Actions.{answer, action_response}
use ghostgc.Cache.Lane.Purge.{
  Plans, with_plans, take_execution, consume_execution, ambiguous_purge, verify_entry, verify_purge,
  complete_consumed, cache_purge_complete,
}

answer-ok :
    (lane : Lane) (r : Result Lane) (q q' : Response)
    → (answer lane r q).1 ≡ ok q'
    → (q' ≡ q) × (r ≡ ok (answer lane r q).0)
unfolding answer
answer-ok lane (err text) q q' h = cc
answer-ok lane (ok after) q q' h = (ground arith, refl)

commit_if-healthy :
    (o : Option String) (next : Result CacheStore) (e : Event) (lane after : Lane)
    → commit_if o next e lane ≡ ok after
    → after.filesystem_healthy ≡ lane.filesystem_healthy
unfolding commit_if
commit_if-healthy (some text) next e lane after h = cc
commit_if-healthy none (err text) e lane after h = cc
commit_if-healthy none (ok s) e lane after h =
    let same : record lane { store = s; journal = lane.journal ++ (e ∷ []) } ≡ after =
      ground arith in
    ap (λ z. z.filesystem_healthy) (sym same)

module _ (R : Runtime) (D : Digests) (c : CacheConfig) (w : CacheWorld) where
  -- The facts that a verified purge rests on.
  pub record IsVerified (x : PurgeExecution) : Type 0 where
    pub absent :
        w.quarantine_entry x.plan.root_path x.plan.quarantine_path x.plan.root_identity ≡ ok none
    pub in_time : Int.leb x.plan.expires_ns (unix_nano w.now_verified) ≡ false

  -- The execution that the completion takes: it was held under the digest, for the action, unused.
  pub record IsHeld (action_id completion : String) (lane : Lane) (x : PurgeExecution)
      : Type 0 where
    pub listed : lookup (w.secret_digest completion) lane.purge_plans ≡ some x
    pub for_action : x.plan.action_id ≡ action_id
    pub unused : x.used ≡ false

  take_execution-IsHeld :
      (action_id completion : String) (lane : Lane) (o : Option PurgeExecution) (y : PurgeExecution)
      → lookup (w.secret_digest completion) lane.purge_plans ≡ o
      → (take_execution R D c w action_id (w.secret_digest completion) o lane.purge_plans).1 ≡ ok y
      → (x : PurgeExecution) × (y ≡ record x { used = true }) × IsHeld action_id completion lane x
  unfolding take_execution
  take_execution-IsHeld action_id completion lane none y l h = cc
  take_execution-IsHeld action_id completion lane (some x) y l h =
      elim (Bool-cases (x.plan.action_id != action_id)) [
        | inl other ↦ absurd (ground arith)
        | inr same ↦ elim (Bool-cases x.used) [
          | inl used ↦ absurd (ground arith)
          | inr unused ↦
              let h' = rw (same, unused) at h in
              (x, ground arith, record { listed = l; for_action = ground arith; unused = unused })
        ]
      ]

  ambiguous_purge-trips :
      (x : PurgeExecution) (cause : String) (lane : Lane) (r : Response)
      → (ambiguous_purge R D c w x cause lane).1 ≡ ok r
      → (r.result ≡ "partial")
        × ((ambiguous_purge R D c w x cause lane).0.filesystem_healthy ≡ false)
  unfolding ambiguous_purge fail_action action_response
  ambiguous_purge-trips x cause lane r h =
      let (same, done) = answer-ok _ _ _ r h in
      (
        ap (λ z. z.result) same,
        commit_if-healthy _ _ _ (record lane { filesystem_healthy = false }) _ done,
      )

  -- The three results of a completion.
  pub data Outcome (entry : Result (Option Identity)) (identity : Identity) (expired : Bool)
      (after : Lane) : String → Type 0 where
    purged : entry ≡ ok none → expired ≡ false → Outcome entry identity expired after "purged"
    failed : entry ≡ ok (some identity) → Outcome entry identity expired after "failed"
    partial : after.filesystem_healthy ≡ false → Outcome entry identity expired after "partial"

  verify_entry-Outcome :
      (x : PurgeExecution) (execution_error : String) (expired : Bool)
      (entry : Result (Option Identity)) (lane : Lane) (r : Response)
      → (verify_entry R D c w x execution_error expired entry lane).1 ≡ ok r
      → Outcome entry x.plan.identity expired
          (verify_entry R D c w x execution_error expired entry lane).0
          r.result
  unfolding verify_entry action_response fail_action
  verify_entry-Outcome x execution_error expired (err text) lane r h =
      let (result, off) = ambiguous_purge-trips x _ lane r h in
      subst (Outcome _ _ _ _) (sym result) (partial off)
  verify_entry-Outcome x execution_error expired (ok (some current)) lane r h =
      elim (Bool-cases (current != x.plan.identity)) [
        | inl changed ↦
            let (result, off) = ambiguous_purge-trips x _ lane r (rw changed at h) in
            subst (Outcome _ _ _ _) (sym result) (partial (rw changed off))
        | inr exact ↦
            let h' = rw exact at h in
            let (same, done) = answer-ok _ _ _ r h' in
            let e : current ≡ x.plan.identity = ground arith in
            subst (Outcome _ _ _ _) (sym (ap (λ z. z.result) same))
              (failed (ap (λ z. ok (some z)) e))
      ]
  verify_entry-Outcome x execution_error expired (ok none) lane r h = elim (Bool-cases expired) [
    | inl late ↦
        let (result, off) = ambiguous_purge-trips x _ lane r (rw late at h) in
        subst (Outcome _ _ _ _) (sym result) (partial (rw late off))
    | inr in_time ↦
        let (same, done) = answer-ok _ _ _ r (rw in_time at h) in
        subst (Outcome _ _ _ _) (sym (ap (λ z. z.result) same)) (purged refl in_time)
  ]

  complete_consumed-err :
      (execution_error text : String) (lane : Lane) (r : Response)
      → (complete_consumed R D c w execution_error (err text) lane).1 ≢ ok r
  unfolding complete_consumed
  complete_consumed-err execution_error text lane r h = cc

  complete_consumed-Outcome :
      (action_id completion execution_error : String) (lane : Lane) (r : Response) (plans : Plans)
      (t : Result PurgeExecution)
      → (take_execution R D c w action_id
          (w.secret_digest completion)
          (lookup (w.secret_digest completion) lane.purge_plans)
          lane.purge_plans).1
        ≡ t
      → (complete_consumed R D c w execution_error t (with_plans lane plans)).1 ≡ ok r
      → (x : PurgeExecution) × IsHeld action_id completion lane x
        × Outcome
            (w.quarantine_entry x.plan.root_path x.plan.quarantine_path x.plan.root_identity)
            x.plan.identity
            (Int.leb x.plan.expires_ns (unix_nano w.now_verified))
            (complete_consumed R D c w execution_error t (with_plans lane plans)).0
            r.result
  unfolding complete_consumed verify_purge
  complete_consumed-Outcome action_id completion execution_error lane r plans (err text) e h = cc
  complete_consumed-Outcome action_id completion execution_error lane r plans (ok y) e h =
      let (x, spent, held) = take_execution-IsHeld action_id completion lane _ y refl e in
      let plan : y.plan ≡ x.plan = ap (λ z. z.plan) spent in
      (
        x,
        held,
        subst
            (λ z.
              Outcome (w.quarantine_entry z.root_path z.quarantine_path z.root_identity) z.identity
                (Int.leb z.expires_ns (unix_nano w.now_verified))
                (verify_purge R D c w y execution_error (with_plans lane plans)).0 r.result)
            plan (verify_entry-Outcome y execution_error _ _ (with_plans lane plans) r h),
      )

  -- A completion that is answered took an unused plan that was held under its capability and for its
  -- action. It reports purged only if the entry was seen absent before the plan expired, failed only if
  -- the entry was seen unchanged, and whatever else it reports is partial and stops the lane.
  pub cache_purge_complete-Outcome :
      (action_id completion execution_error : String) (lane : Lane) (r : Response)
      → (cache_purge_complete R D c w action_id completion execution_error lane).1 ≡ ok r
      → (x : PurgeExecution) × IsHeld action_id completion lane x
        × Outcome
            (w.quarantine_entry x.plan.root_path x.plan.quarantine_path x.plan.root_identity)
            x.plan.identity
            (Int.leb x.plan.expires_ns (unix_nano w.now_verified))
            (cache_purge_complete R D c w action_id completion execution_error lane).0
            r.result
  unfolding cache_purge_complete consume_execution
  cache_purge_complete-Outcome action_id completion execution_error lane r h =
      elim (Bool-cases (action_id == "" || completion == "")) [
        | inl missing ↦ absurd (complete_consumed-err execution_error _ _ r (rw missing at h))
        | inr given ↦ rw given (
            complete_consumed-Outcome action_id completion execution_error lane r _ _ refl
              (rw given at h))
      ]
