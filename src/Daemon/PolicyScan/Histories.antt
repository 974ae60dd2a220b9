-- ===== src/Daemon/PolicyScan/Histories.antt =====
-- The policy decisions that a sequence of scans and retention passes stores.
use mathlib.Core.List.{Memᴰ}
use ghostgc.Prelude.{ℕ, ◌≤◌, ◌≡◌, Bool, String, List, [], All, NoRepeat, map, string_eq}
use ghostgc.Prelude.Int.{ℤ, pos, int_eq}
use ghostgc.Prelude.Time.{Instant, Duration}
use ghostgc.Prelude.Runtime.{Runtime}
use ghostgc.Process.{Snapshot}
use ghostgc.Process.Tree.{Tree}
use ghostgc.Config.Policies.{Policy}
use ghostgc.Daemon.{DecisionRecord, Daemon, Reconciliation, ok}
use ghostgc.Policy.{outcome_eq}
use ghostgc.Daemon.PolicyScan.{
  ClassificationRecord, Batch, Store, evaluate_policies, insert_decisions, retain_decisions,
}
use ghostgc.Daemon.PolicyScan.Spacing.{Spaced, Covered}
use ghostgc.Daemon.PolicyScan.Pairs.{records}

-- The rows that the store has, all that it ever had, and a time that the next step is not before.
pub record History : Type 0 where
  pub rows : List DecisionRecord
  pub log : List DecisionRecord
  pub clock : ℕ

abbrev pub fresh_history : History
fresh_history = record { rows = []; log = []; clock = 0 }

module _ (R : Runtime) (ps : List Policy) where
  -- A scan under the policies stores its batch; a retention pass deletes.
  pub data Step (h : History) : History → Type 0 where
    scan :
        (d : Daemon) (s : Store) (snap : Snapshot) (tree : Tree) (res : Reconciliation R)
        (last : Instant) (cadence : Duration) (due : Bool) (classes : List ClassificationRecord)
        (b : Batch) (evaluation : ℤ) (next : ℕ)
        → d.policies ≡ ps
        → s.rows ≡ h.rows
        → NoRepeat [] (map (λ c. c.proc_uid) classes)
        → All (λ c. (t : ℕ) × (c.ts_ns ≡ pos t) × (h.clock ≤ t)) classes
        → evaluate_policies R d s last cadence snap tree res due classes ≡ ok b
        → Step h (record {
          rows = insert_decisions evaluation next h.rows (records b.entries);
          log = insert_decisions evaluation next h.log (records b.entries);
          clock = h.clock;
        })
    compact :
        (cutoff latest : ℤ) (now : ℕ)
        → h.clock ≤ now
        → Step h (record h { rows = retain_decisions cutoff latest (pos now) h.rows; clock = now })

  pub data Reached : History → Type 0 where
    start : Reached fresh_history
    then_step : {h h' : History} → Reached h → Step h h' → Reached h'

module _ (R : Runtime) (ps : List Policy) (policy : Policy) (proc_uid : String) (k : ℕ)
    (distinct : NoRepeat [] (map (λ p. p.id) ps)) (listed : Memᴰ policy ps)
    (length : policy.cooldown ≡ pos k) where
  -- Whatever is decided later comes after the cooldowns of all that was ever stored.
  Inv : History → Type 0
  Inv h = Covered policy.id proc_uid k h.clock h.rows h.log × Spaced policy.id proc_uid k h.log
