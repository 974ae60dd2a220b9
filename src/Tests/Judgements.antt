-- ===== src/Tests/Judgements.antt =====
-- Classification, protection, configuration and policy on the sample worker.
use mathlib.Core.List.{Memᴰ}
use native.Mathlib.Decide.{ℕ_discrete}
use ghostgc.Prelude.{
  ◌+◌, ◌-◌, ◌≡◌, ◌≢◌, ◌≤◌, ◌↔◌, ◌⊎◌, refl, true, false, ◌&&◌, none, some, List, [], ◌∷◌, All,
  NoRepeat, map, nat_eq, string_eq, bool_eq,
}
use ghostgc.Prelude.Int.{pos, int_eq, double}
use ghostgc.Prelude.Time.{Instant, never, seconds, sub, add}
use ghostgc.Process.{sleeping, stopped, zombie, status_eq, key_eq}
use ghostgc.Classification as Classifier
use ghostgc.Classification.{
  Activity, classify, orphaned, hung, crashed, unknown, active, idle, unset, Previous, state_eq,
  same_window, basis_state, basis, incomplete_reason,
}
use ghostgc.Classification.Conclusions.{
  IsUsable, IsComplete, IsStrong, orphaned_iff, hung_iff, unknown_iff,
}
use ghostgc.Classification.History.{chained, QuietSince, previous_of, remember, orphaned_history}
use ghostgc.Protection as Guard
use ghostgc.Protection.Clear.{IsClear, unprotected_iff}
use ghostgc.Config.{enforce, mode_eq, is_valid_mode}
use ghostgc.Config.Policies.{
  validate_policies, check_policies, check_policy, ◌then_check◌, refuse_if, matches_id,
  check_states, check_agents, check_executables, check_enforce, is_one_orphaned, duplicate_value,
  needs_stable_window,
}
use ghostgc.Protection.{executable_protection, exec_classes}
use ghostgc.Protection.Paths.{path_base}
use ghostgc.Config.Accepted.{IsAccepted, Targetable, enforcing, validate_policies-IsAccepted}
use ghostgc.Policy.{
  Target, Decision, candidate, refused, evaluate, base_decision, decide, out_of_scope,
}
use ghostgc.Policy.Authority.{InScope, evaluate-result, candidate_authority}
use ghostgc.Tests.Samples.{
  go, worker, worker_key, now, policies, stale_helper, agents, quiet_window,
}

abbrev quiet_activity : Instant → Activity go
quiet_activity taken = record {
  taken = taken;
  baseline_ok = true;
  cpu_percent = 0;
  cpu_known = true;
  disk_read_bytes = pos 0;
  disk_written_bytes = pos 0;
  io_known = true;
  writable_repository_files = pos 0;
  files_known = true;
  connected_sockets = pos 0;
  network_changed = false;
  sockets_known = true;
}

-- A quiet, detached worker of an ended session, sampled at an instant.
abbrev quiet_input : Instant → Previous → Classifier.Input go
quiet_input taken previous = record {
  key = worker_key;
  status = sleeping;
  detached = true;
  session_ended = true;
  activity = quiet_activity taken;
  previous = previous;
  evidence_cadence = seconds 300;
  detachment_detail = "";
}

abbrev input : Classifier.Input go
input = quiet_input now quiet_window

orphaned_iff_example : ((classify go input).state ≡ orphaned) ↔ (
    IsUsable go input
    × (input.session_ended ≡ true)
    × (input.detached ≡ true)
    × (basis_state go input.activity ≡ idle)
    × IsStrong go input)
orphaned_iff_example = orphaned_iff go input

hung_iff_example : ((classify go input).state ≡ hung) ↔ (
    (input.status ≡ stopped)
    × IsComplete go input.activity
    × (basis_state go input.activity ≢ active)
    × IsStrong go input
    × (input.session_ended && input.detached ≡ false))
hung_iff_example = hung_iff go input

unknown_iff_example :
    (((classify go input).state ≡ unknown)
      ↔ ((input.status ≢ zombie) × ¬ IsComplete go input.activity))
    × (((classify go input).state ≡ crashed) ↔ (input.status ≡ zombie))
unknown_iff_example = unknown_iff go input

-- Three samples, five minutes apart.
abbrev latest : Classifier.Input go
latest = quiet_input now quiet_window

abbrev earlier : List (Classifier.Input go)
earlier =
    quiet_input (now - 300000000000) quiet_window
    ∷ quiet_input (now - 600000000000) quiet_window
    ∷ []

earlier_orphan : (classify go (chained go latest earlier)).state ≡ orphaned
unfolding classify previous_of same_window status_eq string_eq incomplete_reason nat_eq state_eq
    basis sub key_eq remember bool_eq double
earlier_orphan = refl

orphaned_history_example :
    let since = (classify go (chained go latest earlier)).stable_since in
    QuietSince go since latest earlier × (since + 300000000000 ≤ latest.activity.taken)
orphaned_history_example = orphaned_history go latest earlier earlier_orphan

abbrev guarded : Guard.Input go
guarded = record {
  process = worker;
  self_pid = pos 9;
  self_uid = 501;
  is_agent_root = false;
  session_active = false;
  attribution_confidence = 97;
  descendant_count = pos 0;
  adapter_rules = [];
}

unprotected_iff_example : ((Guard.evaluate go guarded).protected ≡ false) ↔ IsClear go guarded
unprotected_iff_example = unprotected_iff go guarded

pub accepted : validate_policies go agents policies ≡ none
unfolding validate_policies check_policies check_policy ◌then_check◌ refuse_if matches_id
    is_valid_mode check_states check_agents check_executables check_enforce is_one_orphaned
    duplicate_value needs_stable_window mode_eq string_eq bool_eq nat_eq int_eq ℕ_discrete
    executable_protection path_base exec_classes
accepted = refl

validate_policies-IsAccepted_example :
    All (IsAccepted go agents) policies
    × NoRepeat [] (map (λ p. p.id) policies)
    × (enforcing policies ≤ 1)
validate_policies-IsAccepted_example = validate_policies-IsAccepted go agents policies accepted

abbrev target : Target
target = record {
  proc_uid = "42:7";
  session_id = "s1";
  classification_ts = now;
  state = "orphaned";
  stable_since = now - 600000000000;
  agent_id = "codex";
  executable = "helper";
  detached = true;
  session_ended = true;
  protection = record { protected = false; rules = [] };
}

abbrev decision : Decision
decision = decide go stale_helper target now never (base_decision go stale_helper target now)

decided : evaluate go stale_helper target now never ≡ some decision
unfolding evaluate out_of_scope mode_eq string_eq nat_eq sub
decided = refl

is_candidate : decision.result ≡ candidate
unfolding decide
is_candidate = refl

evaluate-result_example :
    ((evaluate go stale_helper target now never ≡ none) ↔ ¬ InScope stale_helper target now)
    × ((d : Decision)
        → evaluate go stale_helper target now never ≡ some d
        → InScope stale_helper target now
          × ((d.result ≡ candidate) ↔ ((target.protection.protected ≡ false) × (never ≤ now)))
          × ((d.result ≡ refused) ↔ (target.protection.protected ≡ true)))
evaluate-result_example = evaluate-result go stale_helper target now never

candidate_authority_example :
    (target.protection.protected ≡ false)
    × (((target.state ≡ "orphaned") × (target.detached ≡ true) × (target.session_ended ≡ true))
        ⊎ ((target.state ≡ "hung") ⊎ (target.state ≡ "crashed")))
    × Targetable go target.executable
    × (stale_helper.mode ≡ enforce → target.state ≡ "orphaned")
candidate_authority_example =
    candidate_authority go agents policies stale_helper target now never decision accepted
      (Memᴰ.head refl) decided is_candidate

-- Just over an hour later.
abbrev later : Instant
later = now + 3700000000000

abbrev repeated : Decision
repeated =
    decide go stale_helper target later decision.cooldown_until
      (base_decision go stale_helper target later)

repeated_decided : evaluate go stale_helper target later decision.cooldown_until ≡ some repeated
unfolding evaluate out_of_scope mode_eq string_eq nat_eq sub
repeated_decided = refl

repeated_candidate : repeated.result ≡ candidate
unfolding decide add
repeated_candidate = refl
