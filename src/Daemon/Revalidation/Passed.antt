-- ===== src/Daemon/Revalidation/Passed.antt =====
-- What has been established when the revalidation of a cleanup passes.
use ghostgc.Prelude.{
  inl, inr, Option-cases, ◌≡◌, refl, true, false, some, List, string_eq, arith, ◌≤◌, ◌<◌,
}
use ghostgc.Prelude.Int.{int_eq}
use ghostgc.Prelude.Runtime.{Runtime}
use ghostgc.Prelude.Time.{never}
use ghostgc.Process.{Key, key_eq, executable_eq, executable, by_key}
use ghostgc.Process.Keys.{parse_key}
use ghostgc.Process.Tree.{build_tree}
use ghostgc.Classification.{classify, state_string}
use ghostgc.Config.{mode_eq}
use ghostgc.Policy.{Evidence, Decision, candidate}
use ghostgc.Policy as Decisions
use ghostgc.Daemon.{
  Daemon, World, Result-cases, ok, DecisionRecord, CleanupApproval, Reconciliation,
}
use ghostgc.Daemon.Gates.{policy_definition, cleanup_authority_enabled, cleanup_decision_current}
use ghostgc.Daemon.Revalidation.{
  Checked, pass, refuse, ◌>>=◌, find_decision, attributed, session_ended, Fresh, observe,
  classifier_input, protections_of, target_of, judge, revalidate_cleanup,
}

-- A chain that passes passed its first step.
bind-pass :
    {A B : Type 0} (m : Checked A) (f : A → Checked B) (b : B)
    → (m >>= f) ≡ pass b
    → (a : A) × (m ≡ pass a) × (f a ≡ pass b)
bind-pass (pass a) f b h = (a, refl, h)
bind-pass (refuse e r) f b h = cc

module _ (R : Runtime) (w : World R) (d : Daemon) (a : CleanupApproval) where
  -- What the fresh observation established of the approval.
  pub record IsEstablished (f : Fresh R) : Type 0 where
    -- The policy still stands, in the same mode, and still has the authority.
    pub definition_found : policy_definition d.policies a.policy.id ≡ some f.definition
    pub same_mode : f.definition.mode ≡ a.policy.mode
    pub authority : cleanup_authority_enabled d a f.definition ≡ true
    -- The decision is among the store's current ones, and is still actionable.
    pub records : List DecisionRecord
    pub records_read : w.current_decisions ≡ ok records
    pub decision_found : find_decision a records ≡ some f.current
    pub decision_current : cleanup_decision_current d a f.current ≡ true
    -- It is bound to the same digest.
    pub same_binding : w.approval_binding f.current f.definition a.executable ≡ ok a.binding_digest
    -- The fresh snapshot has exactly the process, running exactly the executable.
    pub key_of_decision : parse_key R f.current.proc_uid ≡ some f.key
    pub snapshot_read : w.snapshot_processes ≡ ok f.snap
    pub process_found : by_key f.snap f.key ≡ some f.proc
    pub same_executable : executable f.proc ≡ some a.executable
    -- The session still owns it.
    pub reconciled : Reconciliation R
    pub reconciliation_read : w.reconcile f.snap (build_tree (some f.snap)) ≡ ok reconciled
    pub attribution_found : reconciled.attributions f.current.proc_uid ≡ some f.attr
    pub confident : attributed R f.attr ≡ true
    pub same_session : f.attr.session_id ≡ f.current.session_id
    pub lifecycle_read : session_ended R w f.current.session_id reconciled ≡ pass f.ended
    -- The sample is of the process and not older than the snapshot.
    pub sample_read : w.sample_activity f.key f.attr.repository_path ≡ ok f.sample
    pub same_key : f.sample.key ≡ f.key
    pub sampled : 0 < f.sample.taken
    pub fresh_sample : f.snap.taken ≤ f.sample.taken

  observe-IsEstablished : (f : Fresh R) → observe R w d a ≡ pass f → IsEstablished f
  unfolding observe
  observe-IsEstablished f h = elim (Result-cases w.current_decisions) [
    | inr (text, e) ↦ absurd (ground arith)
    | inl (records, e) ↦ elim (Result-cases (w.reconcile f.snap (build_tree (some f.snap)))) [
      | inr (text, e') ↦ absurd (ground arith)
      | inl (reconciled, e') ↦ record {
        definition_found = ground arith;
        same_mode = ground arith;
        authority = ground arith;
        records = records;
        records_read = e;
        decision_found = ground arith;
        decision_current = ground arith;
        same_binding = ground arith;
        key_of_decision = ground arith;
        snapshot_read = ground arith;
        process_found = ground arith;
        same_executable = ground arith;
        reconciled = reconciled;
        reconciliation_read = e';
        attribution_found = ground arith;
        confident = ground arith;
        same_session = ground arith;
        lifecycle_read = ground arith;
        sample_read = ground arith;
        same_key = ground arith;
        sampled = ground arith;
        fresh_sample = ground arith;
      }
    ]
  ]

  -- What the fresh facts lead to.
  pub record IsJustified (f : Fresh R) (k : Key) : Type 0 where
    pub exact_key : k ≡ f.key
    pub same_state :
        state_string (classify R (classifier_input R d f)).state ≡ f.current.classification_state
    pub unprotected : (protections_of R d f).protected ≡ false
    pub decision : Decision
    pub decided :
        Decisions.evaluate R f.definition (target_of R d f) f.sample.taken never ≡ some decision
    pub is_candidate : decision.result ≡ candidate

  judge-IsJustified :
      (f : Fresh R) (k : Key) (found : List Evidence)
      → judge R d a f ≡ pass (k, found)
      → IsJustified f k
  unfolding judge
  judge-IsJustified f k found h =
      elim (Option-cases
        (Decisions.evaluate R f.definition (target_of R d f) f.sample.taken never)) [
          | inl gone ↦ absurd (ground arith)
          | inr (decision, e) ↦ record {
            exact_key = ground arith;
            same_state = ground arith;
            unprotected = ground arith;
            decision = decision;
            decided = e;
            is_candidate = ground arith;
          }
        ]

  -- A revalidation that passes has observed fresh facts that establish the approval and justify the
  -- action on exactly the key that it returns: every authority, identity, ownership and freshness
  -- check holds, the classification is unchanged, no protection applies, and the policy still makes
  -- the process a candidate.
  pub revalidate_cleanup-pass :
      (k : Key) (found : List Evidence)
      → revalidate_cleanup R w d a ≡ pass (k, found)
      → (f : Fresh R) × (observe R w d a ≡ pass f) × IsEstablished f × IsJustified f k
  unfolding revalidate_cleanup
  revalidate_cleanup-pass k found h =
      let (f, e, h') = bind-pass (observe R w d a) (judge R d a) (k, found) h in
      (f, e, observe-IsEstablished f e, judge-IsJustified f k found h')
