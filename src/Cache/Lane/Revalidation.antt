-- ===== src/Cache/Lane/Revalidation.antt =====
-- internal/daemon/cache_revalidation.go: the fresh checks between an approval and a filesystem call.
pub mod Passed
use ghostgc.Prelude.{
  Bool, true, false, not, ◌&&◌, ◌||◌, String, Option, none, some, List, [], ◌∷◌, ◌++◌, ◌==◌, ◌!=◌,
  string_eq, if◌then◌else◌,
}
use ghostgc.Prelude.Runtime.{Runtime}
use ghostgc.Daemon.{Result, ok, err}
use ghostgc.Cache.{
  recommended, lifecycle_eq, identity_eq, same_object, Artifact, Quarantine, CacheConfig, Digests,
}
use ghostgc.Cache.Evaluation.{evaluate}
use ghostgc.Cache.Store.{find_where, current_artifacts}
use ghostgc.Cache.Lane.{
  CacheApproval, Lane, CacheWorld, Inspection, cache_policy_enabled, ◌and_then◌, refuse_unless,
  read_or,
}

unfoldable pub current_cache_artifact : CacheWorld → Lane → String → Result Artifact
current_cache_artifact w lane id = read_or (w.read_error "current artifacts") (
    find_where (λ a. a.id) id (current_artifacts lane.store.latest_evaluation lane.store.artifacts))

-- The binding of the approval is the one that is computed now.
unfoldable pub same_binding : Result String → CacheApproval → Bool
same_binding (err text) a = false
same_binding (ok binding) a = binding == a.binding_digest

-- What the fresh evaluation must share with the approved artifact.
unfoldable pub unchanged : Artifact → Artifact → Bool
unchanged fresh current =
    fresh.identity == current.identity
    && fresh.manifest_digest == current.manifest_digest
    && fresh.session_id == current.session_id
    && fresh.root_path == current.root_path
    && fresh.relative_path == current.relative_path
    && same_object fresh.root_identity current.root_identity

-- The rows of the artifact and of its quarantine agree.
unfoldable pub is_consistent : Digests → Artifact → Quarantine → Bool
is_consistent D artifact item =
    item.manifest_digest == D.of_manifest item.quarantine_path item.identity
    && artifact.identity == item.identity
    && artifact.manifest_digest == item.manifest_digest
    && artifact.quarantine_digest == item.manifest_digest
    && artifact.quarantine_path == item.quarantine_path
    && artifact.root_path == item.root_path

module _ (R : Runtime) (D : Digests) (c : CacheConfig) (w : CacheWorld) where
  -- The fresh evaluation of the artifact that the provider sees now.
  unfoldable pub fresh_evaluation : Artifact → Option Artifact → Result (Artifact × List String)
  unfolding refuse_unless
  fresh_evaluation current none =
      err "approved artifact is absent from the fresh provider observation"
  fresh_evaluation current (some exact) =
      let fresh = (evaluate R D c w.now_evaluated exact (some current)).0 in
      refuse_unless (fresh.lifecycle == recommended && fresh.policy_id == current.policy_id)
        "fresh provider, session or policy facts no longer recommend the artifact"
        (refuse_unless (unchanged fresh current)
          "exact artifact identity, manifest, ownership or provider root changed"
          (ok (
            fresh,
            fresh.evidence
                ++ ("fresh provider observation retained the exact approved identity and recommendation"
                    ∷ []),
          )))

  unfoldable pub fresh_inspection : Artifact → Inspection → Result (Artifact × List String)
  unfolding refuse_unless
  fresh_inspection current seen =
      refuse_unless seen.complete "fresh provider inspection was incomplete"
        (fresh_evaluation current (find_where (λ a. a.id) current.id seen.artifacts))

  -- freshCleanupArtifact.
  unfoldable pub fresh_cleanup_artifact : Lane → CacheApproval → Result (Artifact × List String)
  unfolding refuse_unless ◌and_then◌
  fresh_cleanup_artifact lane a =
      refuse_unless
        (a.configuration == D.of_config c && cache_policy_enabled c lane a.artifact.policy_id)
        "cache configuration or recommendation authority changed"
        (current_cache_artifact w lane a.artifact.id and_then λ current.
          refuse_unless
            (same_binding (w.binding "cleanup" current none a.destination (D.of_config c)) a)
            "committed cache decision or approval binding changed"
            (w.observe and_then fresh_inspection current))

  unfoldable pub check_quarantine :
      CacheApproval → Artifact → Quarantine → Result (Quarantine × List String)
  unfolding refuse_unless is_consistent
  check_quarantine a artifact item =
      refuse_unless (item.status == "quarantined") "artifact is no longer quarantined" (
        refuse_unless (is_consistent D artifact item)
          "durable quarantine identity or metadata-only manifest is inconsistent"
          (refuse_unless
            (same_binding (w.binding a.kind artifact (some item) a.destination (D.of_config c)) a)
            "quarantine identity, manifest, destination or approval binding changed"
            (ok (
              item,
              "durable quarantine record and configuration still match the single-use approval"
                  ∷ [],
            ))))

  -- currentQuarantineApproval.
  unfoldable pub current_quarantine_approval :
      Lane → CacheApproval → Result (Quarantine × List String)
  unfolding refuse_unless ◌and_then◌
  current_quarantine_approval lane a =
      refuse_unless
        (a.configuration == D.of_config c && cache_policy_enabled c lane a.artifact.policy_id)
        "cache configuration or global authority changed"
        (read_or (w.read_error "artifact")
            (find_where (λ x. x.id) a.artifact.id lane.store.artifacts)
          and_then λ artifact.
              read_or (w.read_error "quarantine")
                (find_where (λ x. x.artifact_id) a.artifact.id lane.store.quarantines)
              and_then check_quarantine a artifact)
