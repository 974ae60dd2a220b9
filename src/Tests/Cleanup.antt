-- ===== src/Tests/Cleanup.antt =====
-- One cleanup from preview to signal, on the sample world.
use native.Mathlib.Decide.{ℕ_discrete}
use ghostgc.Prelude.{
  ℕ, ◌-◌, ◌+◌, ◌≡◌, ◌≢◌, ◌≤◌, ◌<◌, ◌↔◌, ◌⊎◌, inl, inr, refl, Bool, true, false, String, Option,
  none, some, List, [], ◌∷◌, ◌++◌, All, arith, length, nat_eq, string_eq, bool_eq,
}
use ghostgc.Prelude.Int.{ℤ, pos, int_eq}
use ghostgc.Prelude.Time.{Instant}
use ghostgc.Process.{Key, key, executable, by_key}
use ghostgc.Policy.{Evidence}
use ghostgc.Daemon.{Daemon, World, CleanupApproval, DecisionRecord, Effect, kill, ok}
use ghostgc.Daemon.Approvals.{cleanup_ticket, granted, lookup, consume_approval}
use ghostgc.Daemon.Approvals.SingleUse.{Op, prune, issue, withdraw, run, Keeps, granted_once}
use ghostgc.Daemon.Gates.{automatic_cleanup_enabled, is_enforceable}
use ghostgc.Daemon.Revalidation.{Checked, pass, refuse, Fresh, observe, revalidate_cleanup}
use ghostgc.Daemon.Revalidation.Passed.{IsEstablished, IsJustified, revalidate_cleanup-pass}
use ghostgc.Daemon.Signals.{sigterm, signal_process, IsExactTarget, signal_process-exact}
use ghostgc.Daemon.Actions.{cleanup_apply}
use ghostgc.Daemon.Actions.Safety.{AddsNone, AddsOne, cleanup_apply-signals}
use ghostgc.Daemon.Actions.Liveness.{Delivers, cleanup_apply-Delivers}
use ghostgc.Daemon.Preview.{cleanup_preview}
use ghostgc.Daemon.Preview.Bound.{IsIssued, cleanup_preview-IsIssued, cleanup_preview-Bounded}
use ghostgc.Daemon.Automatic.{run_automatic_cleanup}
use ghostgc.Daemon.Automatic.AtMostOne.{OneSelected, run_automatic_cleanup-signals}
use ghostgc.Tests.Samples.{
  go, world, daemon, enforcing_daemon, approvals, approval, worker, worker_key, image, now,
  decision,
}

abbrev spent : CleanupApproval
spent = record approval { used = true }

token_granted : (consume_approval "#token" now approvals).1 ≡ granted spent
unfolding consume_approval lookup string_eq nat_eq
token_granted = refl

abbrev between : List (Op CleanupApproval)
between = prune now ∷ issue "other" approval ∷ withdraw "third" ∷ []

between-Keeps : All (Keeps "#token") between
between-Keeps = (tt, ((λ e. cc), (tt, tt)))

granted_once_example :
    (consume_approval "#token"
      (now + 1)
      (run between (consume_approval "#token" now approvals).0)).1
    ≢ granted spent
granted_once_example =
    granted_once "#token" now (now + 1) approvals spent spent between token_granted between-Keeps

signal_process-exact_example :
    ((signal_process go world 501 worker_key image sigterm []).0 ≡ [])
    ⊎ (((signal_process go world 501 worker_key image sigterm []).0 ≡ [] ++ (kill (pos 42) ∷ []))
        × (sigterm ≡ sigterm)
        × IsExactTarget go world 501 worker_key image)
signal_process-exact_example = signal_process-exact go world 501 worker_key image sigterm []

abbrev evidence_of : Checked (Key × List Evidence) → List Evidence
evidence_of (pass (k, found)) = found
evidence_of (refuse found reason) = found

abbrev evidence : List Evidence
evidence = evidence_of (revalidate_cleanup go world daemon approval)

revalidated : revalidate_cleanup go world daemon approval ≡ pass (worker_key, evidence)
unfolding revalidate_cleanup observe ghostgc.Daemon.Gates.policy_definition string_eq
    ghostgc.Config.mode_eq ghostgc.Daemon.Gates.cleanup_authority_enabled
    ghostgc.Daemon.Gates.any_recommending int_eq ℕ_discrete
    ghostgc.Daemon.Gates.cleanup_decision_current ghostgc.Daemon.authority_eq
    ghostgc.Policy.outcome_eq ghostgc.Process.Keys.parse_key ghostgc.Process.Keys.uid nat_eq
    ghostgc.Tests.Samples.parse_signed ghostgc.Tests.Samples.in_int64
    ghostgc.Tests.Samples.read_signed by_key ghostgc.Process.by_pid ghostgc.Classification.basis
    ghostgc.Classification.basis_state ghostgc.Classification.classify
    ghostgc.Classification.incomplete_reason ghostgc.Classification.same_window
    ghostgc.Classification.state_eq ghostgc.Classification.state_string
    ghostgc.Daemon.Gates.manual_cleanup_enabled ghostgc.Daemon.Gates.is_recommendation
    ghostgc.Daemon.Revalidation.attributed ghostgc.Daemon.Revalidation.authority_string
    ghostgc.Daemon.Revalidation.classifier_input ghostgc.Daemon.Revalidation.count_children
    ghostgc.Daemon.Revalidation.find_decision ghostgc.Daemon.Revalidation.judge
    ghostgc.Daemon.Revalidation.protection_for ghostgc.Daemon.Revalidation.protections_of
    ghostgc.Daemon.Revalidation.session_ended ghostgc.Daemon.Revalidation.target_of
    ghostgc.Policy.base_decision ghostgc.Policy.decide ghostgc.Policy.evaluate
    ghostgc.Policy.mode_evidence ghostgc.Policy.out_of_scope ghostgc.Prelude.Int.double
    ghostgc.Prelude.Int.saturate ghostgc.Prelude.Int.sub64 ghostgc.Prelude.Int.wrap bool_eq
    ghostgc.Prelude.Time.add ghostgc.Prelude.Time.sub ghostgc.Prelude.Time.unix_nano
    ghostgc.Process.Activity.derive_activity ghostgc.Process.Keys.cut_colon
    ghostgc.Process.Tree.add_process ghostgc.Process.Tree.add_processes
    ghostgc.Process.Tree.build_tree ghostgc.Process.Tree.children ghostgc.Process.Tree.classify_link
    ghostgc.Process.Tree.descendants ghostgc.Process.Tree.link_eq ghostgc.Process.after_last_slash
    executable ghostgc.Process.executable_eq ghostgc.Process.key_eq ghostgc.Process.name
    ghostgc.Process.status_eq ghostgc.Process.new_snapshot ghostgc.Protection.Paths.contains_run
    ghostgc.Protection.Paths.path_base ghostgc.Protection.Paths.split_slashes
    ghostgc.Protection.Paths.trim_slashes ghostgc.Protection.adapter_matches
    ghostgc.Protection.class_matches ghostgc.Protection.evaluate ghostgc.Protection.exec_classes
    ghostgc.Protection.match_adapter_rule ghostgc.Protection.rule_if ghostgc.Protection.rules
revalidated = refl

revalidate_cleanup-pass_example :
    (f : Fresh go) × (observe go world daemon approval ≡ pass f)
    × IsEstablished go world daemon approval f
    × IsJustified go world daemon approval f worker_key
revalidate_cleanup-pass_example =
    revalidate_cleanup-pass go world daemon approval worker_key evidence revalidated

cleanup_apply-signals_example :
    let after = (cleanup_apply go world daemon "token" approvals []).1.0 in
    AddsNone [] after
    ⊎ ((a : CleanupApproval) × (id : String) × (lookup (world.secret_digest "token") approvals
          ≡ some a)
        × (a.used ≡ false)
        × (world.now_start < a.expires)
        × AddsOne go world daemon id (record a { used = true }) [] after)
cleanup_apply-signals_example = cleanup_apply-signals go world daemon "token" approvals []

cleanup_preview-IsIssued_example :
    IsIssued go world daemon "stale-helper" decision.proc_uid []
      (cleanup_preview go world daemon "stale-helper" decision.proc_uid approvals [])
cleanup_preview-IsIssued_example =
    cleanup_preview-IsIssued go world daemon "stale-helper" decision.proc_uid approvals []

cleanup_preview-Bounded_example :
    length (cleanup_preview go world daemon "stale-helper" decision.proc_uid approvals []).0 ≤ 128
cleanup_preview-Bounded_example =
    cleanup_preview-Bounded go world daemon "stale-helper" decision.proc_uid approvals []
      (omega arith)

run_automatic_cleanup-signals_example :
    let after = run_automatic_cleanup go world enforcing_daemon true [] in
    AddsNone [] after
    ⊎ ((true ≡ true)
        × (automatic_cleanup_enabled enforcing_daemon ≡ true)
        × OneSelected go world enforcing_daemon world.current_decisions [] after)
run_automatic_cleanup-signals_example =
    run_automatic_cleanup-signals go world enforcing_daemon true []

spent_evidence :
    (found : List Evidence) × (revalidate_cleanup go world daemon spent ≡ pass (worker_key, found))
unfolding revalidate_cleanup observe ghostgc.Daemon.Gates.policy_definition string_eq
    ghostgc.Config.mode_eq ghostgc.Daemon.Gates.cleanup_authority_enabled
    ghostgc.Daemon.Gates.any_recommending int_eq ℕ_discrete
    ghostgc.Daemon.Gates.cleanup_decision_current ghostgc.Daemon.authority_eq
    ghostgc.Policy.outcome_eq ghostgc.Process.Keys.parse_key ghostgc.Process.Keys.uid nat_eq
    ghostgc.Tests.Samples.parse_signed ghostgc.Tests.Samples.in_int64
    ghostgc.Tests.Samples.read_signed by_key ghostgc.Process.by_pid ghostgc.Classification.basis
    ghostgc.Classification.basis_state ghostgc.Classification.classify
    ghostgc.Classification.incomplete_reason ghostgc.Classification.same_window
    ghostgc.Classification.state_eq ghostgc.Classification.state_string
    ghostgc.Daemon.Gates.manual_cleanup_enabled ghostgc.Daemon.Gates.is_recommendation
    ghostgc.Daemon.Revalidation.attributed ghostgc.Daemon.Revalidation.authority_string
    ghostgc.Daemon.Revalidation.classifier_input ghostgc.Daemon.Revalidation.count_children
    ghostgc.Daemon.Revalidation.find_decision ghostgc.Daemon.Revalidation.judge
    ghostgc.Daemon.Revalidation.protection_for ghostgc.Daemon.Revalidation.protections_of
    ghostgc.Daemon.Revalidation.session_ended ghostgc.Daemon.Revalidation.target_of
    ghostgc.Policy.base_decision ghostgc.Policy.decide ghostgc.Policy.evaluate
    ghostgc.Policy.mode_evidence ghostgc.Policy.out_of_scope ghostgc.Prelude.Int.double
    ghostgc.Prelude.Int.saturate ghostgc.Prelude.Int.sub64 ghostgc.Prelude.Int.wrap bool_eq
    ghostgc.Prelude.Time.add ghostgc.Prelude.Time.sub ghostgc.Prelude.Time.unix_nano
    ghostgc.Process.Activity.derive_activity ghostgc.Process.Keys.cut_colon
    ghostgc.Process.Tree.add_process ghostgc.Process.Tree.add_processes
    ghostgc.Process.Tree.build_tree ghostgc.Process.Tree.children ghostgc.Process.Tree.classify_link
    ghostgc.Process.Tree.descendants ghostgc.Process.Tree.link_eq ghostgc.Process.after_last_slash
    executable ghostgc.Process.executable_eq ghostgc.Process.key_eq ghostgc.Process.name
    ghostgc.Process.status_eq ghostgc.Process.new_snapshot ghostgc.Protection.Paths.contains_run
    ghostgc.Protection.Paths.path_base ghostgc.Protection.Paths.split_slashes
    ghostgc.Protection.Paths.trim_slashes ghostgc.Protection.adapter_matches
    ghostgc.Protection.class_matches ghostgc.Protection.evaluate ghostgc.Protection.exec_classes
    ghostgc.Protection.match_adapter_rule ghostgc.Protection.rule_if ghostgc.Protection.rules
spent_evidence = (_, refl)

worker_exact : IsExactTarget go world 501 worker_key image
unfolding key executable ghostgc.Process.name ghostgc.Process.after_last_slash
    ghostgc.Prelude.Time.unix_nano nat_eq string_eq
worker_exact = record {
  observed = worker;
  inspected = refl;
  owner = refl;
  same_key = refl;
  same_image = refl;
}

token_listed : lookup "#token" approvals ≡ some approval
unfolding lookup string_eq nat_eq
token_listed = refl

cleanup_apply-Delivers_example :
    Delivers go world daemon "act_fresh" worker_key []
      (cleanup_apply go world daemon "token" approvals []).1
cleanup_apply-Delivers_example =
    cleanup_apply-Delivers go world daemon "token" "fresh" approvals approval worker_key
      spent_evidence.0 [] (record { commits = λ _. refl; not_cancelled = refl }) (λ e. cc)
      token_listed refl (omega arith) refl spent_evidence.1 worker_exact refl
