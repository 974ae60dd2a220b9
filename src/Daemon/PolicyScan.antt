-- ===== src/Daemon/PolicyScan.antt =====
-- internal/daemon/policy.go: the policy decisions of one scan; and what storage/query_policy.go and
-- write_policy.go keep of them.
pub mod Collect
pub mod Histories
pub mod Pairs
pub mod Sound
pub mod Spacing
pub mod Targets
use ghostgc.Prelude.{
  ℕ, suc, ◌<>◌, Bool, true, false, not, ◌&&◌, ◌||◌, String, Option, none, some, List, [], ◌∷◌, ◌++◌,
  map, ◌==◌, string_eq, if◌then◌else◌,
}
use ghostgc.Prelude.Int
use ghostgc.Prelude.Int.{ℤ, pos, int_eq}
use ghostgc.Prelude.Time.{Instant, Duration, is_zero, after, sub, unix, unix_nano}
use ghostgc.Prelude.Runtime.{Runtime}
use ghostgc.Process.{Process, Key, key_eq, Snapshot, by_key, name}
use ghostgc.Process.Keys.{parse_key}
use ghostgc.Process.Tree.{Tree}
use ghostgc.Protection
use ghostgc.Config.{Mode, audit, recommend, enforce, mode_eq}
use ghostgc.Config.Policies.{Policy}
use ghostgc.Policy.{Outcome, candidate, refused, cooldown, outcome_eq, Evidence, Decision, Target}
use ghostgc.Policy as Decisions
use ghostgc.Daemon.{
  Daemon, Result, ok, err, DecisionRecord, AuditRecord, Attribution, Reconciliation,
}
use ghostgc.Daemon.Revalidation.{protection_for}

-- storage.ClassificationRecord, as far as the policies read it.
pub record ClassificationRecord : Type 0 where
  pub proc_uid : String
  pub session_id : String
  pub ts_ns : ℤ
  pub state : String
  pub detached : Bool
  pub session_ended : Bool
  pub stable_since_ns : ℤ
  pub evidence_json : String

-- A decision with its audit entry.
abbrev pub Entry : Type 0
Entry = DecisionRecord × AuditRecord

pub record Batch : Type 0 where
  pub due : Bool
  pub at : Instant
  pub cadence_at : Instant
  pub entries : List Entry
  pub candidates : ℕ

abbrev not_due : Batch
not_due = record { due = false; at = 0; cadence_at = 0; entries = []; candidates = 0 }

-- The candidate that was stored last for the pair, newest first; 0 if there is none.
unfoldable pub last_candidate_cooldown : List DecisionRecord → String → String → ℤ
last_candidate_cooldown [] policy_id proc_uid = pos 0
last_candidate_cooldown (r ∷ rows) policy_id proc_uid =
    if r.result == candidate && r.policy_id == policy_id && r.proc_uid == proc_uid
    then r.cooldown_until_ns
    else last_candidate_cooldown rows policy_id proc_uid

-- What the evaluation asks of the store: the rows, newest first, and for each pair whether the query
-- fails; and how evidence is read from JSON and written to it.
pub record Store : Type 0 where
  pub rows : List DecisionRecord
  pub query_error : String → String → Option String
  pub read_evidence : String → List Evidence
  pub write_evidence : List Evidence → String

unfoldable pub query_cooldown : Store → String → String → Result ℤ
query_cooldown s policy_id proc_uid = elim (s.query_error policy_id proc_uid) [
  | some text ↦ err text
  | none ↦ ok (last_candidate_cooldown s.rows policy_id proc_uid)
]

unfoldable pub result_string : Outcome → String
result_string candidate = "candidate"
result_string refused = "refused"
result_string cooldown = "cooldown"

-- Both lists, or the first error.
unfoldable pub both {ℓ} : {B : Type ℓ} → Result (List B) → Result (List B) → Result (List B)
both (err text) rest = err text
both (ok xs) (err text) = err text
both (ok xs) (ok ys) = ok (xs ++ ys)

-- A loop that appends what each round gives, and stops at the first error.
unfoldable pub collect {ℓ κ} :
    {A : Type ℓ} {B : Type κ} → (A → Result (List B)) → List A → Result (List B)
collect f [] = ok []
collect f (x ∷ xs) = both (f x) (collect f xs)

unfoldable pub latest : Instant → List ClassificationRecord → Instant
latest at [] = at
latest at (class ∷ classes) =
    latest (if after (unix class.ts_ns) at then unix class.ts_ns else at) classes

unfoldable pub is_active_mode : Mode → Bool
is_active_mode m = m == audit || m == recommend || m == enforce

module _ (R : Runtime) where
  -- The facts of a classified process that the policies judge.
  unfoldable pub target_of :
      Daemon → Tree → ClassificationRecord → Key → Process → Attribution R → Option Key → Target
  target_of d tree class key p attr root = record {
    proc_uid = class.proc_uid;
    session_id = class.session_id;
    classification_ts = unix class.ts_ns;
    state = class.state;
    stable_since = unix class.stable_since_ns;
    agent_id = attr.agent_id;
    executable = name p;
    detached = class.detached;
    session_ended = class.session_ended;
    protection =
        protection_for R d p tree attr.confidence (elim root [ none ↦ false | some r ↦ r == key ])
          (not class.session_ended);
  }

  -- The row and the audit entry of a decision.
  unfoldable pub entry_of : Store → ClassificationRecord → Decision → Entry
  entry_of s class decision =
      let json = s.write_evidence (s.read_evidence class.evidence_json ++ decision.evidence) in
      let at = unix_nano (unix class.ts_ns) in
      (
        record {
          id = pos 0;
          evaluation_id = pos 0;
          policy_id = decision.policy_id;
          proc_uid = decision.proc_uid;
          session_id = decision.session_id;
          ts_ns = at;
          classification_ts_ns = class.ts_ns;
          classification_state = decision.state;
          result = decision.result;
          reason = decision.reason;
          cooldown_until_ns =
              if is_zero decision.cooldown_until then pos 0 else unix_nano decision.cooldown_until;
          evidence_json = json;
        },
        record {
          ts_ns = at;
          kind = "policy." <> result_string decision.result;
          subject = class.proc_uid;
          summary = "policy " <> decision.policy_id <> ": " <> decision.reason;
          evidence_json = json;
        },
      )

  -- The decision of one policy, after the query of its cooldown.
  unfoldable pub decide_after :
      Store → ClassificationRecord → Target → Policy → Result ℤ → Result (List Entry)
  decide_after s class target definition (err text) = err text
  decide_after s class target definition (ok until) =
      ok (elim (Decisions.evaluate R definition target (unix class.ts_ns) (unix until)) [
        | none ↦ []
        | some decision ↦ entry_of s class decision ∷ []
      ])

  unfoldable pub evaluate_definition :
      Store → ClassificationRecord → Target → Policy → Result (List Entry)
  evaluate_definition s class target definition =
      decide_after s class target definition (query_cooldown s definition.id class.proc_uid)

  -- The target of a class: its exact process is in the snapshot and attributed.
  unfoldable pub find_target :
      Daemon → Snapshot → Tree → Reconciliation R → ClassificationRecord → Option Target
  find_target d snap tree res class = elim (parse_key R class.proc_uid) [
    | none ↦ none
    | some key ↦ elim (by_key snap key) [
      | none ↦ none
      | some p ↦ elim (res.attributions class.proc_uid) [
        | none ↦ none
        | some attr ↦ some (target_of d tree class key p attr (res.roots p.pid))
      ]
    ]
  ]

  unfoldable pub evaluate_target :
      Store → List Policy → ClassificationRecord → Option Target → Result (List Entry)
  evaluate_target s policies class none = ok []
  evaluate_target s policies class (some target) =
      collect (evaluate_definition s class target) policies

  unfoldable pub evaluate_class :
      Daemon
      → Store
      → Snapshot
      → Tree
      → Reconciliation R
      → ClassificationRecord
      → Result (List Entry)
  evaluate_class d s snap tree res class =
      evaluate_target s d.policies class (find_target d snap tree res class)

  unfoldable pub count_candidates : List Entry → ℕ
  count_candidates [] = 0
  count_candidates ((r, entry) ∷ entries) =
      if r.result == candidate then suc (count_candidates entries) else count_candidates entries

  -- The batch of the entries, or no batch.
  unfoldable pub batch_of :
      Snapshot → List ClassificationRecord → Result (List Entry) → Result Batch
  batch_of snap classes (err text) = err text
  batch_of snap classes (ok entries) = ok (record {
    due = true;
    at = latest snap.taken classes;
    cadence_at = snap.taken;
    entries = entries;
    candidates = count_candidates entries;
  })

  -- evaluatePolicies, with the time of the last evaluation and the cadence.
  unfoldable pub evaluate_policies :
      Daemon
      → Store
      → Instant
      → Duration
      → Snapshot
      → Tree
      → Reconciliation R
      → Bool
      → List ClassificationRecord
      → Result Batch
  evaluate_policies d s last cadence snap tree res classes_due classes =
      if not classes_due || (not (is_zero last) && Int.ltb (sub snap.taken last) cadence)
      then ok not_due
      else batch_of snap classes (
          if is_active_mode d.global_mode
          then collect (evaluate_class d s snap tree res) classes
          else ok [])

-- The row of a decision in the store, with the ids that it is given.
abbrev pub stored : ℤ → ℤ → DecisionRecord → DecisionRecord
stored evaluation_id id r = record r { evaluation_id = evaluation_id; id = id }

-- InsertPolicyDecision for each record of a batch, in order, with the next free id; rows are newest
-- first.
unfoldable pub insert_decisions :
    ℤ → ℕ → List DecisionRecord → List DecisionRecord → List DecisionRecord
insert_decisions evaluation_id next rows [] = rows
insert_decisions evaluation_id next rows (r ∷ rs) =
    insert_decisions evaluation_id (suc next) (stored evaluation_id (pos next) r ∷ rows) rs

-- What compactOnce keeps of the rows: those since the cutoff, those of the latest evaluation, and the
-- candidates whose cooldown is not over.
unfoldable pub retain_decisions : ℤ → ℤ → ℤ → List DecisionRecord → List DecisionRecord
retain_decisions cutoff latest_evaluation now [] = []
retain_decisions cutoff latest_evaluation now (r ∷ rows) =
    let rest = retain_decisions cutoff latest_evaluation now rows in
    if Int.ltb r.ts_ns cutoff
      && not (r.evaluation_id == latest_evaluation)
      && (not (r.result == candidate) || Int.leb r.cooldown_until_ns now)
    then rest
    else r ∷ rest
