-- ===== src/Daemon.antt =====
-- internal/daemon: the records of the cleanup path, its state, and the world that it acts on.
pub mod Approvals
pub mod Gates
pub mod Revalidation
pub mod Signals
pub mod Actions
pub mod Preview
pub mod Automatic
pub mod PolicyScan
use ghostgc.Prelude.{ℕ, Bool, String, Option, List, Eq, ◌≡◌, ap, refl, ◌⊎◌, inl, inr}
use ghostgc.Prelude.Int.{ℤ}
use ghostgc.Prelude.Time.{Instant, Duration}
use ghostgc.Prelude.Runtime.{Runtime}
use ghostgc.Process.{Key, Process, ExecutableIdentity, Snapshot}
use ghostgc.Process.Activity.{ActivitySample}
use ghostgc.Process.Tree.{Tree}
use ghostgc.Classification.{Previous}
use ghostgc.Config.{Mode}
use ghostgc.Config.Policies.{Policy}
use ghostgc.Policy.{Outcome, Evidence}
use ghostgc.Protection.{ProtectionRule}

-- A value, or the text of an error.
pub data Result {ℓ} (A : Type ℓ) : Type ℓ where
  ok : A → Result A
  err : String → Result A

pub Result-cases {ℓ} :
    {A : Type ℓ} (r : Result A) → ((a : A) × (r ≡ ok a)) ⊎ ((e : String) × (r ≡ err e))
Result-cases (ok a) = inl (a, refl)
Result-cases (err e) = inr (e, refl)

value_or {ℓ} : {A : Type ℓ} → A → Result A → A
value_or x (ok y) = y
value_or x (err text) = x

pub ok_injective {ℓ} : {A : Type ℓ} (x y : A) → ok x ≡ ok y → x ≡ y
unfolding value_or
ok_injective x y h = ap (value_or x) h

-- storage.PolicyDecisionRecord. `result` holds one of the three outcomes.
pub record DecisionRecord : Type 0 where
  pub id : ℤ
  pub evaluation_id : ℤ
  pub policy_id : String
  pub proc_uid : String
  pub session_id : String
  pub ts_ns : ℤ
  pub classification_ts_ns : ℤ
  pub classification_state : String
  pub result : Outcome
  pub reason : String
  pub cooldown_until_ns : ℤ
  pub evidence_json : String

pub data Authority : Type 0 where
  manual automatic : Authority

Authority-discrete : Discrete Authority
Authority-discrete = hlevel

instance unfoldable pub authority_eq : Eq Authority
unfolding Authority-discrete
authority_eq = record { dec = Authority-discrete }

pub record CleanupApproval : Type 0 where
  pub binding_digest : String
  pub decision : DecisionRecord
  pub policy : Policy
  pub executable : ExecutableIdentity
  pub authority : Authority
  pub expires : Instant
  pub used : Bool

pub data ActionResult : Type 0 where
  attempting rejected signalled failed : ActionResult

pub record ActionRecord : Type 0 where
  pub action_id : String
  pub policy_id : String
  pub proc_uid : String
  pub session_id : String
  pub authority : Authority
  pub requested_ns : ℤ
  pub updated_ns : ℤ
  pub result : ActionResult
  pub signal : String
  pub reason : String
  pub evidence_json : String

pub record AuditRecord : Type 0 where
  pub ts_ns : ℤ
  pub kind : String
  pub subject : String
  pub summary : String
  pub evidence_json : String

-- What the cleanup path does outside its memory, in order: a committed transaction that inserts an
-- action, one that updates an action, a lone audit entry, and a call of kill(2) with SIGTERM.
pub data Effect : Type 0 where
  insert_action : ActionRecord → AuditRecord → Effect
  update_action : String → ActionResult → String → String → ℤ → AuditRecord → Effect
  append_audit : AuditRecord → Effect
  kill : ℤ → Effect

-- sessions.Attribution, as far as the cleanup path reads it.
pub record Attribution (R : Runtime) : Type 0 where
  pub agent_id : String
  pub session_id : String
  pub confidence : R.Float
  pub original_ppid : ℤ
  pub original_parent_observed : Bool
  pub repository_path : String

-- sessions.Result, as far as the cleanup path reads it: the attribution of a stored identity, the
-- key of the session root at a PID, and the sessions that this reconciliation ended.
pub record Reconciliation (R : Runtime) : Type 0 where
  pub attributions : String → Option (Attribution R)
  pub roots : ℤ → Option Key
  pub ended : List String

-- The configuration and the memory that the path reads, without the approvals.
pub record Daemon : Type 0 where
  pub global_mode : Mode
  pub policies : List Policy
  pub activity_sample_cadence : Duration
  pub self_pid : ℤ
  pub self_uid : ℕ
  pub adapter_rules : List ProtectionRule
  pub snapshot : Option Snapshot
  -- A key that is missing reads as the zero value.
  pub activity_baseline : String → ActivitySample
  pub classification_previous : String → Previous

-- What the daemon asks of the platform, the store, the clock and the crypto library during one
-- request. Each answer is arbitrary.
pub record World (R : Runtime) : Type 0 where
  -- The context's error, if it is done.
  pub context_error : Option String
  pub current_decisions : Result (List DecisionRecord)
  pub snapshot_processes : Result Snapshot
  pub reconcile : Snapshot → Tree → Result (Reconciliation R)
  -- The stored end of a session, if it ended.
  pub session_ended_ns : String → Result (Option ℤ)
  pub sample_activity : Key → String → Result ActivitySample
  pub inspect_process : ℤ → Result Process
  pub kill_error : ℤ → Option String
  -- The error of a transaction that does not commit.
  pub commit_error : Effect → Option String
  -- A fresh token from the random source, and the digest of any token.
  pub new_token : ℕ → Result String
  pub secret_digest : String → String
  -- The digest over the JSON of what an approval binds.
  pub approval_binding : DecisionRecord → Policy → ExecutableIdentity → Result String
  pub evidence_json : List Evidence → String
  pub preview_json : String → DecisionRecord → Instant → String
  -- `time.Now()` at the start of a request, before a refusal, before and after the side effect.
  pub now_start : Instant
  pub now_refused : Instant
  pub now_attempt : Instant
  pub now_completed : Instant
