-- ===== src/Cache/Lane/Revalidation/Passed.antt =====
-- What a passed revalidation of a cache approval has established.
use ghostgc.Prelude.{
  ◌≡◌, ◌∙◌, ap, subst, sym, refl, Bool, true, false, String, Option, none, some, List, ◌==◌, ◌&&◌,
  string_eq, arith,
}
use ghostgc.Prelude.Runtime.{Runtime}
use ghostgc.Config.{recommend, mode_eq}
use ghostgc.Daemon.{Result, ok, err, ok_injective}
use ghostgc.Cache.{
  Lifecycle, recommended, lifecycle_eq, identity_eq, same_object, Artifact, Quarantine, CacheConfig,
  Digests,
}
use ghostgc.Cache.Evaluation.{evaluate}
use ghostgc.Cache.Evaluation.Stability.{IsRecommended, evaluate-IsRecommended}
use ghostgc.Cache.Store.{find_where, current_artifacts}
use ghostgc.Cache.Lane.{
  CacheApproval, Lane, CacheWorld, Inspection, cache_policy_enabled, ◌and_then◌, refuse_unless,
  read_or,
}
use ghostgc.Cache.Lane.Revalidation.{
  current_cache_artifact, same_binding, unchanged, fresh_evaluation, fresh_inspection,
  fresh_cleanup_artifact, current_quarantine_approval,
}

refuse_unless-ok {ℓ} :
    {A : Type ℓ} (b : Bool) (text : String) (r : Result A) (x : A)
    → refuse_unless b text r ≡ ok x
    → (b ≡ true) × (r ≡ ok x)
unfolding refuse_unless
refuse_unless-ok true text r x h = (refl, h)
refuse_unless-ok false text r x h = cc

and_then-ok {ℓ κ} :
    {A : Type ℓ} {B : Type κ} (r : Result A) (f : A → Result B) (y : B)
    → (r and_then f) ≡ ok y
    → (x : A) × (r ≡ ok x) × (f x ≡ ok y)
unfolding ◌and_then◌
and_then-ok (ok x) f y h = (x, refl, h)
and_then-ok (err text) f y h = cc

read_or-ok {ℓ} :
    {A : Type ℓ} (e : Option String) (o : Option A) (x : A) → read_or e o ≡ ok x → o ≡ some x
unfolding read_or
read_or-ok (some text) o x h = cc
read_or-ok none none x h = cc
read_or-ok none (some y) x h = ground arith

still_recommended :
    (l : Lifecycle) (p q : String)
    → (l == recommended && p == q) ≡ true
    → (l ≡ recommended) × (p ≡ q)
still_recommended l p q h = ground arith

same_binding-ok :
    (r : Result String) (a : CacheApproval) → same_binding r a ≡ true → r ≡ ok a.binding_digest
unfolding same_binding
same_binding-ok (err text) a h = cc
same_binding-ok (ok b) a h = ap ok (ground arith)

enabled-healthy :
    (c : CacheConfig) (lane : Lane) (id : String)
    → cache_policy_enabled c lane id ≡ true
    → (lane.cache_healthy ≡ true)
      × (lane.filesystem_healthy ≡ true)
      × (c.enabled ≡ true)
      × (c.global_mode ≡ recommend)
unfolding cache_policy_enabled
enabled-healthy c lane id h = ground arith

-- The fresh artifact is the approved one: one filesystem object, unchanged, at its place in its root.
pub record IsSame (fresh current : Artifact) : Type 0 where
  pub identity : fresh.identity ≡ current.identity
  pub manifest : fresh.manifest_digest ≡ current.manifest_digest
  pub session : fresh.session_id ≡ current.session_id
  pub root : fresh.root_path ≡ current.root_path
  pub path : fresh.relative_path ≡ current.relative_path
  pub root_object : same_object fresh.root_identity current.root_identity ≡ true

unchanged-IsSame :
    (fresh current : Artifact) → unchanged fresh current ≡ true → IsSame fresh current
unfolding unchanged
unchanged-IsSame fresh current h = record {
  identity = ground arith;
  manifest = ground arith;
  session = ground arith;
  root = ground arith;
  path = ground arith;
  root_object = ground arith;
}

-- The lane may act: it is healthy and in recommend mode, and its configuration is the approved one.
pub record MayAct (D : Digests) (c : CacheConfig) (lane : Lane) (a : CacheApproval) : Type 0 where
  pub configuration : a.configuration ≡ D.of_config c
  pub cache_healthy : lane.cache_healthy ≡ true
  pub filesystem_healthy : lane.filesystem_healthy ≡ true
  pub mode : c.global_mode ≡ recommend

MayAct-intro :
    (D : Digests) (c : CacheConfig) (lane : Lane) (a : CacheApproval)
    → (a.configuration == D.of_config c && cache_policy_enabled c lane a.artifact.policy_id) ≡ true
    → MayAct D c lane a
MayAct-intro D c lane a h =
    let enabled : cache_policy_enabled c lane a.artifact.policy_id ≡ true = ground arith in
    let (one, two, three, four) = enabled-healthy c lane a.artifact.policy_id enabled in
    record {
      configuration = ground arith;
      cache_healthy = one;
      filesystem_healthy = two;
      mode = four;
    }

module _ (R : Runtime) (D : Digests) (c : CacheConfig) (w : CacheWorld) where
  -- The approved artifact is current and bound, the provider's complete inspection has it, and the fresh
  -- evaluation, which is the artifact, still recommends it under the same policy and unchanged.
  pub record IsFresh (lane : Lane) (a : CacheApproval) (fresh : Artifact) : Type 0 where
    pub may_act : MayAct D c lane a
    pub current : Artifact
    pub listed :
        find_where
          (λ x. x.id)
          a.artifact.id
          (current_artifacts lane.store.latest_evaluation lane.store.artifacts)
        ≡ some current
    pub bound : w.binding "cleanup" current none a.destination (D.of_config c) ≡ ok a.binding_digest
    pub inspection : Inspection
    pub inspected : w.observe ≡ ok inspection
    pub complete : inspection.complete ≡ true
    pub seen : Artifact
    pub seen_listed : find_where (λ x. x.id) current.id inspection.artifacts ≡ some seen
    pub evaluated : fresh ≡ (evaluate R D c w.now_evaluated seen (some current)).0
    pub recommendation : IsRecommended R D c w.now_evaluated seen fresh
    pub same_policy : fresh.policy_id ≡ current.policy_id
    pub same : IsSame fresh current

  fresh_evaluation-ok :
      (current : Artifact) (o : Option Artifact) (fresh : Artifact) (evidence : List String)
      → fresh_evaluation R D c w current o ≡ ok (fresh, evidence)
      → (seen : Artifact) × (o ≡ some seen)
        × (fresh ≡ (evaluate R D c w.now_evaluated seen (some current)).0)
        × IsRecommended R D c w.now_evaluated seen fresh
        × (fresh.policy_id ≡ current.policy_id)
        × IsSame fresh current
  unfolding fresh_evaluation
  fresh_evaluation-ok current none fresh evidence h = cc
  fresh_evaluation-ok current (some seen) fresh evidence h =
      let z = (evaluate R D c w.now_evaluated seen (some current)).0 in
      let (still, rest) = refuse_unless-ok _ _ _ _ h in
      let (kept, made) = refuse_unless-ok _ _ _ _ rest in
      let e : z ≡ fresh = ap (λ z. z.0) (ok_injective _ _ made) in
      let (life, policy) = still_recommended z.lifecycle z.policy_id current.policy_id still in
      let (prior, found, is) =
        evaluate-IsRecommended R D c w.now_evaluated seen (some current) life in
      (
        seen,
        refl,
        sym e,
        subst (IsRecommended R D c w.now_evaluated seen) e is,
        ap (λ x. x.policy_id) (sym e) ∙ policy,
        subst (λ x. IsSame x current) e (unchanged-IsSame z current kept),
      )

  -- A passed revalidation for quarantine has established that the artifact it gives is fresh.
  pub fresh_cleanup_artifact-IsFresh :
      (lane : Lane) (a : CacheApproval) (fresh : Artifact) (evidence : List String)
      → fresh_cleanup_artifact R D c w lane a ≡ ok (fresh, evidence)
      → IsFresh lane a fresh
  unfolding fresh_cleanup_artifact current_cache_artifact fresh_inspection
  fresh_cleanup_artifact-IsFresh lane a fresh evidence h =
      let (may, rest) = refuse_unless-ok _ _ _ _ h in
      let (current, read, after) = and_then-ok _ _ _ rest in
      let (bound, inspect) = refuse_unless-ok _ _ _ _ after in
      let (inspection, inspected, whole) = and_then-ok _ _ _ inspect in
      let (complete, evaluated) = refuse_unless-ok _ _ _ _ whole in
      let (seen, listed, made, is, policy, same) =
        fresh_evaluation-ok current _ fresh evidence evaluated in
      record {
        may_act = MayAct-intro D c lane a may;
        current = current;
        listed = read_or-ok _ _ current read;
        bound = same_binding-ok _ a bound;
        inspection = inspection;
        inspected = inspected;
        complete = complete;
        seen = seen;
        seen_listed = listed;
        evaluated = made;
        recommendation = is;
        same_policy = policy;
        same = same;
      }

  -- A passed check of a quarantined artifact has established that the lane may act.
  pub current_quarantine_approval-MayAct :
      (lane : Lane) (a : CacheApproval) (item : Quarantine) (evidence : List String)
      → current_quarantine_approval R D c w lane a ≡ ok (item, evidence)
      → MayAct D c lane a
  unfolding current_quarantine_approval
  current_quarantine_approval-MayAct lane a item evidence h =
      MayAct-intro D c lane a (refuse_unless-ok _ _ _ _ h).0
