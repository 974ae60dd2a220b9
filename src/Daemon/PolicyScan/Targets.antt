-- ===== src/Daemon/PolicyScan/Targets.antt =====
-- What the target is that is found for a classified process.
use ghostgc.Prelude.{
  ◌≡◌, ◌↔◌, ap, refl, inl, inr, Bool, true, false, not, ◌==◌, Option, none, some, arith,
  Option-cases, subst,
}
use ghostgc.Prelude.Runtime.{Runtime}
use ghostgc.Process.{Process, Key, key_eq, Snapshot, by_key, by_pid, key, name}
use ghostgc.Process.Keys.{parse_key}
use ghostgc.Process.Tree.{Tree}
use ghostgc.Policy.{Target}
use ghostgc.Daemon.{Daemon, Attribution, Reconciliation}
use ghostgc.Daemon.Revalidation.{protection_for}
use ghostgc.Daemon.PolicyScan.{ClassificationRecord, target_of, find_target}

by_key-exact :
    (snap : Snapshot) (k : Key) (p : Process)
    → by_key snap k ≡ some p
    → (by_pid snap k.pid ≡ some p) × (key p ≡ k)
unfolding by_key
by_key-exact snap k p h = ground arith

root-exact :
    (root : Option Key) (k : Key)
    → (elim root [ none ↦ false | some r ↦ r == k ] ≡ true) ↔ (root ≡ some k)
root-exact none k = (λ h. cc, λ h. cc)
root-exact (some r) k = (λ h. ap some (ground arith), λ h. ground arith)

module _ (R : Runtime) (d : Daemon) (snap : Snapshot) (tree : Tree) (res : Reconciliation R) where
  -- The target is the process whose PID and start time are those of the class's stored identity, which
  -- the snapshot has, with its attribution: its protections are those of this process, and it is the
  -- root of its session only if its key is that of the root of the attribution.
  pub record IsTarget (class : ClassificationRecord) (target : Target) : Type 0 where
    pub at : Key
    pub stored_identity : parse_key R class.proc_uid ≡ some at
    pub process : Process
    pub in_snapshot : by_pid snap at.pid ≡ some process
    pub exact : key process ≡ at
    pub attribution : Attribution R
    pub attributed : res.attributions class.proc_uid ≡ some attribution
    pub same_subject : target.proc_uid ≡ class.proc_uid
    pub same_state : target.state ≡ class.state
    pub same_agent : target.agent_id ≡ attribution.agent_id
    pub same_executable : target.executable ≡ name process
    pub is_root : Bool
    pub root_exact : (is_root ≡ true) ↔ (res.roots process.pid ≡ some at)
    pub protection :
        target.protection
        ≡ protection_for R d process tree attribution.confidence is_root (not class.session_ended)

  pub find_target-IsTarget :
      (class : ClassificationRecord) (target : Target)
      → find_target R d snap tree res class ≡ some target
      → IsTarget class target
  unfolding find_target
  find_target-IsTarget class target h = elim (Option-cases (parse_key R class.proc_uid)) [
    | inl e ↦ absurd (ground arith)
    | inr (k, e) ↦ elim (Option-cases (by_key snap k)) [
      | inl f ↦ absurd (ground arith)
      | inr (p, f) ↦ elim (Option-cases (res.attributions class.proc_uid)) [
        | inl g ↦ absurd (ground arith)
        | inr (attr, g) ↦
            let eq : target_of R d tree class k p attr (res.roots p.pid) ≡ target = ground arith in
            let (listed, same) = by_key-exact snap k p f in
            subst (IsTarget class) eq (record {
              at = k;
              stored_identity = e;
              process = p;
              in_snapshot = listed;
              exact = same;
              attribution = attr;
              attributed = g;
              same_subject = unfold target_of in refl;
              same_state = unfold target_of in refl;
              same_agent = unfold target_of in refl;
              same_executable = unfold target_of in refl;
              is_root = elim (res.roots p.pid) [ none ↦ false | some r ↦ r == k ];
              root_exact = root-exact (res.roots p.pid) k;
              protection = unfold target_of in refl;
            })
      ]
    ]
  ]
