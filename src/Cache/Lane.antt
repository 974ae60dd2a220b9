-- ===== src/Cache/Lane.antt =====
-- The state of the cache lane in the daemon, and what its requests ask of the world around it:
-- internal/daemon/cache_approval.go, cache_action.go and cache_purge_action.go.
pub mod Revalidation
pub mod Actions
pub mod Purge
pub mod Requests
pub mod Previews
use ghostgc.Prelude.{
  ℕ, Bool, true, false, not, ◌&&◌, ◌||◌, String, Option, none, some, List, [], ◌∷◌, ◌++◌, ◌==◌,
  string_eq, bool_eq, if◌then◌else◌, refl,
}
use ghostgc.Prelude.Int.{ℤ}
use ghostgc.Prelude.Time.{Instant}
use ghostgc.Config.{recommend, mode_eq}
use ghostgc.Daemon.{AuditRecord, Result, ok, err}
use ghostgc.Daemon.Approvals.{Ticket, Approvals}
use ghostgc.Cache.{Identity, Artifact, Action, Quarantine, CachePolicy, CacheConfig}
use ghostgc.Cache.Store.{CacheStore, begin_action, finish_action}

pub record CacheApproval : Type 0 where
  pub kind : String
  pub binding_digest : String
  pub artifact : Artifact
  pub quarantine : Option Quarantine
  pub destination : String
  pub configuration : String
  pub expires : Instant
  pub used : Bool

instance abbrev pub cache_ticket : Ticket CacheApproval
cache_ticket = record {
  noun = "cache approval";
  expires = λ a. a.expires;
  used = λ a. a.used;
  spend = λ a. record a { used = true };
  used-spend = λ a. refl;
}

-- api.CachePurgePlan.
pub record PurgePlan : Type 0 where
  pub action_id : String
  pub artifact_id : String
  pub root_path : String
  pub quarantine_path : String
  pub root_identity : Identity
  pub identity : Identity
  pub configuration : String
  pub expires_ns : ℤ
  pub completion : String

pub record PurgeExecution : Type 0 where
  pub plan : PurgePlan
  pub approval : CacheApproval
  pub evidence : List String
  pub used : Bool

-- What the lane has done: an action that was begun, a call that renames an entry into or out of
-- quarantine, a transaction that ended an action,
-- and an audit entry.
pub data Event : Type 0 where
  began : Action → Event
  quarantine_call : String → String → String → Identity → Identity → Event
  restore_call : String → String → String → Identity → Identity → Event
  ended : String → String → Event
  audited : AuditRecord → Event

pub record Lane : Type 0 where
  pub store : CacheStore
  pub approvals : Approvals CacheApproval
  pub purge_plans : List (String × PurgeExecution)
  pub cache_healthy : Bool
  pub filesystem_healthy : Bool
  pub journal : List Event

-- The result of the provider's inspection.
pub record Inspection : Type 0 where
  pub complete : Bool
  pub artifacts : List Artifact

-- What the store, the provider, the filesystem, the clock and the random source answer during one
-- request.
pub record CacheWorld : Type 0 where
  -- The error of a read, and of a transaction, by what it is about.
  pub read_error : String → Option String
  pub commit_error : String → Option String
  pub observe : Result Inspection
  pub quarantine : String → String → String → Identity → Identity → Result Identity
  pub restore : String → String → String → Identity → Identity → Result Identity
  pub quarantine_entry : String → String → Identity → Result (Option Identity)
  pub new_token : ℕ → Result String
  pub secret_digest : String → String
  pub binding : String → Artifact → Option Quarantine → String → String → Result String
  pub json_list : List String → String
  -- filepath.Base and filepath.Join.
  pub base : String → String
  pub join : String → String → String
  pub now_start : Instant
  pub now_evaluated : Instant
  pub now_verified : Instant
  pub now_completed : Instant
  pub now_failed : Instant
  pub now_answered : Instant

-- api.CacheApplyResponse.
pub record Response : Type 0 where
  pub action_id : String
  pub artifact_id : String
  pub action : String
  pub result : String
  pub reason : String
  pub at_ns : ℤ
  pub evidence : List String

abbrev pub Done : Type 0 → Type 0
Done A = Lane × Result A

has_recommending : String → List CachePolicy → Bool
has_recommending id [] = false
has_recommending id (p ∷ ps) =
    (p.id == id && p.enabled && p.mode == recommend) || has_recommending id ps

unfoldable pub cache_policy_enabled : CacheConfig → Lane → String → Bool
unfolding has_recommending
cache_policy_enabled c lane id =
    lane.cache_healthy
    && lane.filesystem_healthy
    && (c.enabled && c.global_mode == recommend)
    && has_recommending id c.policies

-- A transaction that commits, or its error.
unfoldable pub commit_if : Option String → Result CacheStore → Event → Lane → Result Lane
commit_if (some text) next event lane = err text
commit_if none (err text) event lane = err text
commit_if none (ok s) event lane =
    ok (record lane { store = s; journal = lane.journal ++ (event ∷ []) })

unfoldable pub begin : CacheWorld → Action → Lane → Result Lane
unfolding commit_if
begin w a lane = commit_if (w.commit_error "begin") (begin_action a lane.store) (began a) lane

-- The next step on a value, or the first error.
infixr 5 ◌and_then◌
unfoldable pub ◌and_then◌ {ℓ κ} : {A : Type ℓ} {B : Type κ} → Result A → (A → Result B) → Result B
ok a and_then f = f a
err text and_then f = err text

unfoldable pub refuse_unless {ℓ} : {A : Type ℓ} → Bool → String → Result A → Result A
refuse_unless b text r = if b then r else err text

-- A read of the store that may fail.
unfoldable pub read_or {ℓ} : {A : Type ℓ} → Option String → Option A → Result A
read_or (some text) found = err text
read_or none none = err "storage: not found"
read_or none (some a) = ok a

-- FinishCacheAction with the cause; its own error is ignored by the callers of this one.
unfoldable pub fail_action :
    CacheWorld → String → String → String → List String → ℤ → Lane → Result Lane
unfolding commit_if
fail_action w action_id result cause evidence at lane =
    commit_if (w.commit_error "finish")
      (finish_action action_id result cause (evidence ++ (cause ∷ [])) at lane.store)
      (ended action_id result) lane
