-- ===== src/Daemon/Revalidation.antt =====
-- internal/daemon/action_revalidation.go: every check that stands between an authority and the
-- signal, on facts gathered afresh.
pub mod Passed
use ghostgc.Prelude.{
  ◌<>◌, Bool, true, false, not, ◌&&◌, ◌||◌, String, Option, none, some, List, [], ◌∷◌, ◌++◌, map,
  ◌==◌, ◌!=◌, string_eq, if◌then◌else◌, length, contains, leb,
}
use ghostgc.Prelude.{ℕ}
use ghostgc.Prelude.Int.{ℤ, pos, int_eq, max_int64}
use ghostgc.Prelude.Time.{is_zero, before, never}
use ghostgc.Prelude.Runtime.{Runtime}
use ghostgc.Process.{
  Process, Key, key_eq, ExecutableIdentity, executable_eq, executable, by_key, Snapshot, name,
}
use ghostgc.Process.Keys.{parse_key, uid}
use ghostgc.Process.Tree.{Tree, build_tree, descendants}
use ghostgc.Process.Activity.{ActivitySample, derive_activity}
use ghostgc.Classification.{classify, state_string}
use ghostgc.Classification
use ghostgc.Config.{mode_eq}
use ghostgc.Config.Policies.{Policy}
use ghostgc.Protection
use ghostgc.Protection.{Rule}
use ghostgc.Policy.{Evidence, evidence, Decision, candidate, outcome_eq}
use ghostgc.Policy as Decisions
use ghostgc.Daemon.{
  Daemon, World, Result, ok, err, DecisionRecord, CleanupApproval, Authority, manual, automatic,
  Attribution, Reconciliation,
}
use ghostgc.Daemon.Gates.{policy_definition, cleanup_authority_enabled, cleanup_decision_current}

-- A check that passes with a value, or refuses with the evidence gathered so far and a reason.
pub data Checked {ℓ} (A : Type ℓ) : Type ℓ where
  pass : A → Checked A
  refuse : List Evidence → String → Checked A

infixl 5 ◌>>=◌ ◌>>◌
abbrev pub ◌>>=◌ {ℓ κ} : {A : Type ℓ} {B : Type κ} → Checked A → (A → Checked B) → Checked B
pass a >>= f = f a
refuse e r >>= f = refuse e r

abbrev pub ◌>>◌ {κ} : {B : Type κ} → Checked (Unit {0}) → Checked B → Checked B
m >> k = m >>= λ _. k

abbrev pub require : Bool → List Evidence → String → Checked (Unit {0})
require true e r = pass tt
require false e r = refuse e r

abbrev pub given : {A : Type 0} → Option A → List Evidence → String → Checked A
given (some a) e r = pass a
given none e r = refuse e r

-- A failed call of the platform or the store, with what is put before its text.
abbrev pub attempt : {A : Type 0} → String → Result A → Checked A
attempt prefix (ok a) = pass a
attempt prefix (err text) = refuse [] (prefix <> text)

unfoldable pub authority_string : Authority → String
authority_string manual = "manual"
authority_string automatic = "automatic"

-- The first record with the ids of the approved decision; an id of 0 counts as none.
unfoldable pub find_decision : CleanupApproval → List DecisionRecord → Option DecisionRecord
find_decision a [] = none
find_decision a (rec ∷ recs) =
    let rest = find_decision a recs in
    if rec.id == a.decision.id && rec.evaluation_id == a.decision.evaluation_id
    then (if rec.id == pos 0 then none else some rec)
    else rest

-- uint64 to int64, held at the largest int64.
abbrev pub bounded_int64 : ℕ → ℤ
bounded_int64 v = if leb v max_int64 then pos v else pos max_int64

unfoldable pub count_children : List ℤ → ℤ
count_children ps = pos (length ps)

abbrev rule_evidence : Rule → Evidence
rule_evidence r = evidence r.id r.reason

abbrev class_evidence : Classification.Evidence → Evidence
class_evidence e = evidence e.rule e.detail

module _ (R : Runtime) where
  -- Attributed(): the attribution clears the reporting threshold of 0.75.
  unfoldable pub attributed : Attribution R → Bool
  attributed a = a.session_id != "" && R.le (R.literal 75 2) a.confidence

  unfoldable pub session_ended : World R → String → Reconciliation R → Checked Bool
  session_ended w id res = do
    stored ← attempt "reading session lifecycle: " (w.session_ended_ns id)
    pass (elim stored [ some _ ↦ true | none ↦ contains res.ended id ])

  unfoldable pub protection_for :
      Daemon → Process → Tree → R.Float → Bool → Bool → Protection.Result
  protection_for d p tree confidence is_root active = Protection.evaluate R (record {
    process = p;
    self_pid = d.self_pid;
    self_uid = d.self_uid;
    is_agent_root = is_root;
    session_active = active;
    attribution_confidence = confidence;
    descendant_count = count_children (descendants tree p.pid);
    adapter_rules = d.adapter_rules;
  })

  -- The facts that the fresh observation established.
  pub record Fresh : Type 0 where
    pub definition : Policy
    pub current : DecisionRecord
    pub key : Key
    pub snap : Snapshot
    pub proc : Process
    pub attr : Attribution R
    pub ended : Bool
    pub root_key : Option Key
    pub sample : ActivitySample

  -- The first half: authority, binding, identity, ownership and a fresh sample.
  unfoldable pub observe : World R → Daemon → CleanupApproval → Checked Fresh
  unfolding find_decision attributed session_ended
  observe w d a = do
    definition ←
        given (policy_definition d.policies a.policy.id) []
          "cleanup authority, policy or global mode changed"
    require (definition.mode == a.policy.mode && cleanup_authority_enabled d a definition) []
        "cleanup authority, policy or global mode changed"
    records ← attempt "" w.current_decisions
    current ←
        given (find_decision a records) [] "the authorized cleanup decision is no longer current"
    require (cleanup_decision_current d a current) []
        "the authorized cleanup decision is no longer current"
    binding ← attempt "" (w.approval_binding current definition a.executable)
    require (binding == a.binding_digest) []
        "the policy decision or evidence changed after authority was established"
    key ←
        given (parse_key R current.proc_uid) []
          ("process: malformed key " <> R.quoted current.proc_uid)
    snap ← attempt "fresh process snapshot unavailable: " w.snapshot_processes
    proc ← given (by_key snap key) [] "exact process identity exited or changed"
    image ← given (executable proc) [] "exact executable identity is unavailable"
    require (image == a.executable) []
        "exact executable identity changed after authority was established"
    res ←
        attempt "fresh ownership reconciliation failed: "
          (w.reconcile snap (build_tree (some snap)))
    attr ← given (res.attributions current.proc_uid) [] "ownership or session attribution changed"
    require (attributed attr && attr.session_id == current.session_id) []
        "ownership or session attribution changed"
    ended ← session_ended w current.session_id res
    sample ←
        attempt "fresh activity evidence unavailable: " (w.sample_activity key attr.repository_path)
    require
        (sample.key == key && not (is_zero sample.taken) && not (before sample.taken snap.taken)) []
        "fresh activity sample failed exact-key or freshness validation"
    pass (record {
      definition = definition;
      current = current;
      key = key;
      snap = snap;
      proc = proc;
      attr = attr;
      ended = ended;
      root_key = res.roots proc.pid;
      sample = sample;
    })

  abbrev is_detached : Fresh → Bool
  is_detached f = f.attr.original_parent_observed && f.proc.ppid != f.attr.original_ppid

  -- What the classifier is given of the fresh facts.
  unfoldable pub classifier_input : Daemon → Fresh → Classification.Input R
  classifier_input d f =
      let delta = derive_activity R (d.activity_baseline f.current.proc_uid) f.sample in
      let detached = is_detached f in
      record {
        key = f.key;
        status = f.proc.status;
        detached = detached;
        session_ended = f.ended;
        activity = record {
          taken = f.sample.taken;
          baseline_ok = delta.baseline_ok;
          cpu_percent = delta.cpu_percent;
          cpu_known = delta.cpu_known;
          disk_read_bytes = bounded_int64 delta.disk_read_bytes;
          disk_written_bytes = bounded_int64 delta.disk_written_bytes;
          io_known = delta.io_known;
          writable_repository_files = delta.writable_repository_files;
          files_known = delta.files_known;
          connected_sockets = delta.connected_sockets;
          network_changed = delta.network_changed;
          sockets_known = delta.sockets_known;
        };
        previous = d.classification_previous f.current.proc_uid;
        evidence_cadence = d.activity_sample_cadence;
        detachment_detail =
            if detached
            then "observed original parent pid "
              <> R.decimal f.attr.original_ppid
              <> " was replaced by current parent pid "
              <> R.decimal f.proc.ppid
            else "";
      }

  unfoldable pub protections_of : Daemon → Fresh → Protection.Result
  unfolding protection_for
  protections_of d f =
      protection_for d f.proc (build_tree (some f.snap)) f.attr.confidence
        (elim f.root_key [ none ↦ false | some root ↦ root == f.key ]) (not f.ended)

  unfoldable pub target_of : Daemon → Fresh → Decisions.Target
  target_of d f =
      let conclusion = classify R (classifier_input d f) in
      record {
        proc_uid = uid R f.key;
        session_id = f.attr.session_id;
        classification_ts = f.sample.taken;
        state = state_string conclusion.state;
        stable_since = conclusion.stable_since;
        agent_id = f.attr.agent_id;
        executable = name f.proc;
        detached = is_detached f;
        session_ended = f.ended;
        protection = protections_of d f;
      }

  binding_evidence : CleanupApproval → Fresh → List Evidence
  binding_evidence a f =
      evidence "authority-binding-v1" (
        "the exact committed evaluation, decision, policy and "
        <> authority_string a.authority
        <> " authority still match")
      ∷ evidence "exact-executable-v1"
          "the fresh executable path and kernel name still match bound authority"
      ∷ evidence "exact-process-key-v1" ("fresh snapshot contains " <> uid R f.key)
      ∷ evidence "fresh-ownership-v1" (
          "fresh reconciliation retained session "
          <> f.attr.session_id
          <> " with confidence "
          <> R.fixed2 f.attr.confidence)
      ∷ []

  -- The second half: classification, protections and policy on the fresh facts.
  unfoldable pub judge : Daemon → CleanupApproval → Fresh → Checked (Key × List Evidence)
  unfolding binding_evidence authority_string
  judge d a f =
      let conclusion = classify R (classifier_input d f) in
      let state = state_string conclusion.state in
      let protections = protections_of d f in
      let found = binding_evidence a f ++ map class_evidence conclusion.evidence in
      do
        require (state == f.current.classification_state) found
            ("classification changed from " <> f.current.classification_state <> " to " <> state)
        require (not protections.protected) (found ++ map rule_evidence protections.rules)
            (R.decimal (pos (length protections.rules)) <> " non-overridable protection(s) apply")
        decision ←
            given (Decisions.evaluate R f.definition (target_of d f) f.sample.taken never) found
              "fresh facts no longer satisfy the exact cleanup policy"
        require (decision.result == candidate) found
            "fresh facts no longer satisfy the exact cleanup policy"
        pass (
          f.key,
          found
              ++ (decision.evidence
                  ++ (evidence "pre-action-revalidation-v1"
                        "all authority, identity, lifecycle, activity, classification, policy and hard-protection gates passed"
                      ∷ [])),
        )

  unfoldable pub revalidate_cleanup :
      World R → Daemon → CleanupApproval → Checked (Key × List Evidence)
  revalidate_cleanup w d a = observe w d a >>= judge d a
