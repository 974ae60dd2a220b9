-- ===== src/Tests/Scans.antt =====
-- A scan that makes a candidate of the sample process, and a retention pass after it.
use native.Mathlib.Decide.{ℕ_discrete}
use mathlib.Core.List.{Memᴰ}
use ghostgc.Prelude.{
  ◌-◌, ◌+◌, ◌≡◌, ◌≢◌, ◌⊎◌, inl, inr, refl, Bool, true, false, String, Option, none, some, List, [],
  ◌∷◌, ◌++◌, All, length, nat_eq, string_eq, bool_eq,
}
use ghostgc.Prelude.Int.{ℤ, pos, int_eq}
use ghostgc.Process.Keys.{uid}
use ghostgc.Process.Tree.{Tree, build_tree}
use ghostgc.Policy.{Target, Decision, evaluate}
use ghostgc.Prelude.Time.{unix}
use ghostgc.Daemon.{DecisionRecord, Result, ok, err}
use ghostgc.Daemon.PolicyScan.{
  ClassificationRecord, Batch, Store, evaluate_policies, insert_decisions, retain_decisions,
  query_cooldown, find_target, is_active_mode, entry_of,
}
use ghostgc.Daemon.PolicyScan.Sound.{
  IsDecided, evaluate_policies-IsDecided, evaluate_policies_complete,
}
use ghostgc.Daemon.PolicyScan.Pairs.{records}
use ghostgc.Daemon.PolicyScan.Histories.{History}
use ghostgc.Tests.Samples.{go, worker_key, now, snapshot, daemon, stale_helper, reconciliation}

abbrev class : ClassificationRecord
class = record {
  proc_uid = uid go worker_key;
  session_id = "s1";
  ts_ns = pos 3600000000000;
  state = "orphaned";
  detached = true;
  session_ended = true;
  stable_since_ns = pos 3000000000000;
  evidence_json = "[]";
}

abbrev classes : List ClassificationRecord
classes = class ∷ []

abbrev store : Store
store = record {
  rows = [];
  query_error = λ _ _. none;
  read_evidence = λ _. [];
  write_evidence = λ _. "[]";
}

abbrev tree : Tree
tree = build_tree (some snapshot)

abbrev found : Result Batch
found = evaluate_policies go daemon store 0 (pos 0) snapshot tree reconciliation true classes

abbrev batch_or_none : Result Batch → Batch
batch_or_none (ok b) = b
batch_or_none (err text) = record {
  due = false;
  at = 0;
  cadence_at = 0;
  entries = [];
  candidates = 0;
}

abbrev batch : Batch
batch = batch_or_none found

made : (found ≡ ok batch) × (batch.candidates ≡ 1) × (batch.due ≡ true)
unfolding evaluate_policies nat_eq ghostgc.Daemon.PolicyScan.batch_of
    ghostgc.Daemon.PolicyScan.is_active_mode ghostgc.Config.mode_eq
    ghostgc.Daemon.PolicyScan.collect ghostgc.Daemon.PolicyScan.both
    ghostgc.Daemon.PolicyScan.evaluate_class ghostgc.Daemon.PolicyScan.evaluate_target
    ghostgc.Daemon.PolicyScan.find_target ghostgc.Process.Keys.parse_key uid
    ghostgc.Tests.Samples.parse_signed ghostgc.Tests.Samples.in_int64
    ghostgc.Tests.Samples.read_signed ghostgc.Process.by_key ghostgc.Process.by_pid
    ghostgc.Process.new_snapshot int_eq ghostgc.Process.key_eq
    ghostgc.Daemon.PolicyScan.count_candidates ghostgc.Daemon.PolicyScan.decide_after
    ghostgc.Daemon.PolicyScan.entry_of ghostgc.Daemon.PolicyScan.evaluate_definition
    ghostgc.Daemon.PolicyScan.last_candidate_cooldown ghostgc.Daemon.PolicyScan.latest
    query_cooldown ghostgc.Daemon.PolicyScan.result_string ghostgc.Daemon.PolicyScan.target_of
    ghostgc.Daemon.Revalidation.count_children ghostgc.Daemon.Revalidation.protection_for
    ghostgc.Policy.base_decision ghostgc.Policy.decide evaluate ghostgc.Policy.mode_evidence
    ghostgc.Policy.out_of_scope ghostgc.Policy.outcome_eq ghostgc.Prelude.Int.saturate string_eq
    ghostgc.Prelude.Time.add ghostgc.Prelude.Time.sub unix ghostgc.Prelude.Time.unix_nano
    ghostgc.Process.Keys.cut_colon ghostgc.Process.Tree.children ghostgc.Process.Tree.descendants
    ghostgc.Process.after_last_slash ghostgc.Process.name ghostgc.Protection.Paths.contains_run
    ghostgc.Protection.Paths.path_base ghostgc.Protection.Paths.split_slashes
    ghostgc.Protection.Paths.trim_slashes ghostgc.Protection.adapter_matches
    ghostgc.Protection.class_matches ghostgc.Protection.evaluate ghostgc.Protection.exec_classes
    ghostgc.Protection.match_adapter_rule ghostgc.Protection.rule_if ghostgc.Protection.rules
    ℕ_discrete bool_eq build_tree ghostgc.Process.Tree.add_process
    ghostgc.Process.Tree.add_processes ghostgc.Process.Tree.classify_link
    ghostgc.Process.Tree.link_eq ghostgc.Daemon.Revalidation.protections_of
    ghostgc.Process.executable ghostgc.Process.executable_eq ghostgc.Process.status_eq
made = (refl, refl, refl)

target_found : (t : Target) × (find_target go daemon snapshot tree reconciliation class ≡ some t)
unfolding evaluate_policies nat_eq ghostgc.Daemon.PolicyScan.batch_of
    ghostgc.Daemon.PolicyScan.is_active_mode ghostgc.Config.mode_eq
    ghostgc.Daemon.PolicyScan.collect ghostgc.Daemon.PolicyScan.both
    ghostgc.Daemon.PolicyScan.evaluate_class ghostgc.Daemon.PolicyScan.evaluate_target
    ghostgc.Daemon.PolicyScan.find_target ghostgc.Process.Keys.parse_key uid
    ghostgc.Tests.Samples.parse_signed ghostgc.Tests.Samples.in_int64
    ghostgc.Tests.Samples.read_signed ghostgc.Process.by_key ghostgc.Process.by_pid
    ghostgc.Process.new_snapshot int_eq ghostgc.Process.key_eq
    ghostgc.Daemon.PolicyScan.count_candidates ghostgc.Daemon.PolicyScan.decide_after
    ghostgc.Daemon.PolicyScan.entry_of ghostgc.Daemon.PolicyScan.evaluate_definition
    ghostgc.Daemon.PolicyScan.last_candidate_cooldown ghostgc.Daemon.PolicyScan.latest
    query_cooldown ghostgc.Daemon.PolicyScan.result_string ghostgc.Daemon.PolicyScan.target_of
    ghostgc.Daemon.Revalidation.count_children ghostgc.Daemon.Revalidation.protection_for
    ghostgc.Policy.base_decision ghostgc.Policy.decide evaluate ghostgc.Policy.mode_evidence
    ghostgc.Policy.out_of_scope ghostgc.Policy.outcome_eq ghostgc.Prelude.Int.saturate string_eq
    ghostgc.Prelude.Time.add ghostgc.Prelude.Time.sub unix ghostgc.Prelude.Time.unix_nano
    ghostgc.Process.Keys.cut_colon ghostgc.Process.Tree.children ghostgc.Process.Tree.descendants
    ghostgc.Process.after_last_slash ghostgc.Process.name ghostgc.Protection.Paths.contains_run
    ghostgc.Protection.Paths.path_base ghostgc.Protection.Paths.split_slashes
    ghostgc.Protection.Paths.trim_slashes ghostgc.Protection.adapter_matches
    ghostgc.Protection.class_matches ghostgc.Protection.evaluate ghostgc.Protection.exec_classes
    ghostgc.Protection.match_adapter_rule ghostgc.Protection.rule_if ghostgc.Protection.rules
    ℕ_discrete bool_eq build_tree ghostgc.Process.Tree.add_process
    ghostgc.Process.Tree.add_processes ghostgc.Process.Tree.classify_link
    ghostgc.Process.Tree.link_eq ghostgc.Daemon.Revalidation.protections_of
    ghostgc.Process.executable ghostgc.Process.executable_eq ghostgc.Process.status_eq
target_found = (_, refl)

acting : is_active_mode daemon.global_mode ≡ true
unfolding is_active_mode ghostgc.Config.mode_eq
acting = refl

evaluate_policies-IsDecided_example :
    All (IsDecided go daemon store snapshot tree reconciliation classes) batch.entries
evaluate_policies-IsDecided_example =
    evaluate_policies-IsDecided go daemon store snapshot tree reconciliation 0 (pos 0) true classes
      batch made.0

abbrev scanned : History
scanned = record {
  rows = insert_decisions (pos 1) 1 [] (records batch.entries);
  log = insert_decisions (pos 1) 1 [] (records batch.entries);
  clock = 0;
}

abbrev compacted : History
compacted = record scanned {
  rows = retain_decisions (pos now) (pos 2) (pos now) scanned.rows;
  clock = now;
}

evaluate_policies_complete_example :
    (until : ℤ) × (query_cooldown store stale_helper.id class.proc_uid ≡ ok until)
    × ((decision : Decision)
        → evaluate go stale_helper target_found.0 (unix class.ts_ns) (unix until) ≡ some decision
        → Memᴰ (entry_of go store class decision) batch.entries)
evaluate_policies_complete_example =
    evaluate_policies_complete go daemon store snapshot tree reconciliation 0 (pos 0) classes batch
      class stale_helper target_found.0 made.0 made.2 acting (Memᴰ.head refl) (Memᴰ.head refl)
      target_found.1
