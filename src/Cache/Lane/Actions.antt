-- ===== src/Cache/Lane/Actions.antt =====
-- internal/daemon/cache_action.go, cache_quarantine_action.go and cache_restore_action.go.
pub mod Journal
pub mod Moves
pub mod Consistent
use ghostgc.Prelude.{
  ◌<>◌, Bool, true, false, not, ◌&&◌, ◌||◌, String, Option, none, some, List, [], ◌∷◌, ◌++◌, ◌==◌,
  ◌!=◌, string_eq, if◌then◌else◌,
}
use ghostgc.Prelude.Int.{ℤ, pos}
use ghostgc.Prelude.Time.{Instant, add, unix_nano}
use ghostgc.Prelude.Runtime.{Runtime}
use ghostgc.Daemon.{Result, ok, err}
use ghostgc.Daemon.Approvals.{Consumed, missing, denied, granted, consume_approval}
use ghostgc.Cache.{Identity, Artifact, Action, Quarantine, CacheConfig, Digests}
use ghostgc.Cache.Store.{record_quarantined, record_restored}
use ghostgc.Cache.Lane.{
  CacheApproval, cache_ticket, Lane, CacheWorld, Response, Done, Event, quarantine_call,
  restore_call, ended, begin, commit_if, fail_action,
}
use ghostgc.Cache.Lane.Revalidation.{fresh_cleanup_artifact, current_quarantine_approval}

unfoldable pub action_response :
    String → CacheApproval → String → String → List String → Instant → Response
action_response action_id a result reason evidence at = record {
  action_id = action_id;
  artifact_id = a.artifact.id;
  action = a.kind;
  result = result;
  reason = reason;
  at_ns = unix_nano at;
  evidence = evidence;
}

-- The action that is stored at the begin.
unfoldable pub new_action :
    String → CacheApproval → String → String → List String → Instant → Action
new_action action_id a result reason evidence now = record {
  id = pos 0;
  action_id = action_id;
  artifact_id = a.artifact.id;
  kind = a.kind;
  policy_id = a.artifact.policy_id;
  requested_ns = unix_nano now;
  updated_ns = unix_nano now;
  result = result;
  reason = reason;
  evidence = evidence;
}

unfoldable pub answer : Lane → Result Lane → Response → Done Response
answer lane (err text) r = (lane, err text)
answer lane (ok after) r = (after, ok r)

unfoldable pub reject_evidence : String → List String
reject_evidence reason = "cache action refused before filesystem mutation" ∷ reason ∷ []

-- rejectCacheAction.
unfoldable pub reject_action :
    CacheWorld → String → CacheApproval → String → Instant → Lane → Done Response
unfolding answer
reject_action w action_id a reason now lane =
    answer lane
      (begin w (new_action action_id a "rejected" reason (reject_evidence reason) now) lane)
      (action_response action_id a "rejected" reason (reject_evidence reason) now)

-- The lane after a transaction whose error is ignored.
unfoldable pub committed_or : Lane → Result Lane → Lane
committed_or lane (ok after) = after
committed_or lane (err text) = lane

-- What a failed call leaves: the failure is recorded if the store can, and answered.
unfoldable pub failed_call :
    CacheWorld → String → CacheApproval → String → List String → Lane → Done Response
failed_call w action_id a cause evidence lane = (
  committed_or lane (fail_action w action_id "failed" cause evidence (unix_nano w.now_failed) lane),
  ok (action_response action_id a "failed" cause (evidence ++ (cause ∷ [])) w.now_answered),
)

-- A call on the filesystem is journaled before its outcome.
abbrev pub called : Event → Lane → Lane
called e lane = record lane { journal = lane.journal ++ (e ∷ []) }

module _ (R : Runtime) (D : Digests) (c : CacheConfig) (w : CacheWorld) where
  unfoldable pub quarantine_item : Artifact → String → Identity → Quarantine
  quarantine_item artifact destination moved =
      let path = w.join ".ghostgc-quarantine" destination in
      record {
        artifact_id = artifact.id;
        root_path = artifact.root_path;
        original_path = artifact.relative_path;
        quarantine_path = path;
        identity = moved;
        manifest_digest = D.of_manifest path moved;
        quarantined_ns = unix_nano w.now_completed;
        grace_until_ns = unix_nano (add w.now_completed c.quarantine_grace);
        status = "quarantined";
        updated_ns = unix_nano w.now_completed;
        configuration = D.of_config c;
        original_manifest = artifact.manifest_digest;
      }

  -- The outcome of the rename into quarantine.
  unfoldable pub after_quarantine :
      String
      → CacheApproval
      → Artifact
      → String
      → List String
      → Result Identity
      → Lane
      → Done Response
  unfolding answer
  after_quarantine action_id a artifact destination evidence (err cause) lane =
      failed_call w action_id a cause evidence lane
  after_quarantine action_id a artifact destination evidence (ok moved) lane =
      let item = quarantine_item artifact destination moved in
      answer lane
        (commit_if (w.commit_error "quarantined") (record_quarantined D action_id item lane.store)
          (ended action_id "quarantined") lane)
        (action_response action_id a "quarantined"
          "one exact artifact was atomically renamed into provider-local quarantine; no disk space was reclaimed"
          evidence w.now_completed)

  -- The rename into quarantine, once the attempt is committed.
  unfoldable pub try_quarantine :
      String → CacheApproval → Artifact → List String → Lane → Result Lane → Done Response
  try_quarantine action_id a artifact evidence lane (err text) = (lane, err text)
  try_quarantine action_id a artifact evidence lane (ok begun) =
      let destination = w.base a.destination in
      after_quarantine action_id a artifact destination evidence
        (w.quarantine artifact.root_path artifact.relative_path destination artifact.root_identity
          artifact.identity)
        (called
          (quarantine_call artifact.root_path artifact.relative_path destination
            artifact.root_identity artifact.identity)
          begun)

  unfoldable pub quarantine_reason : String
  quarantine_reason =
      "fresh revalidation passed; atomic same-filesystem quarantine is about to be attempted"

  -- applyCacheQuarantineLocked, after the revalidation.
  unfoldable pub quarantine_checked :
      String → CacheApproval → Instant → Result (Artifact × List String) → Lane → Done Response
  quarantine_checked action_id a now (err text) lane = reject_action w action_id a text now lane
  quarantine_checked action_id a now (ok (artifact, evidence)) lane =
      try_quarantine action_id a artifact evidence lane
        (begin w (new_action action_id a "attempting" quarantine_reason evidence now) lane)

  unfoldable pub apply_quarantine : String → CacheApproval → Instant → Lane → Done Response
  apply_quarantine action_id a now lane =
      quarantine_checked action_id a now (fresh_cleanup_artifact R D c w lane a) lane

  -- The outcome of the rename back.
  unfoldable pub after_restore :
      String → CacheApproval → Quarantine → List String → Result Identity → Lane → Done Response
  unfolding answer
  after_restore action_id a item evidence (err cause) lane =
      failed_call w action_id a cause evidence lane
  after_restore action_id a item evidence (ok restored) lane =
      answer lane
        (commit_if (w.commit_error "restored")
          (record_restored D action_id item.artifact_id restored
            (D.of_manifest item.original_path restored) (unix_nano w.now_completed) lane.store)
          (ended action_id "restored") lane)
        (action_response action_id a "restored"
          "exact quarantined artifact was atomically restored to its absent original destination"
          evidence w.now_completed)

  unfoldable pub try_restore :
      String → CacheApproval → Quarantine → List String → Lane → Result Lane → Done Response
  try_restore action_id a item evidence lane (err text) = (lane, err text)
  try_restore action_id a item evidence lane (ok begun) =
      after_restore action_id a item evidence
        (w.restore item.root_path item.quarantine_path item.original_path a.artifact.root_identity
          item.identity)
        (called
          (restore_call item.root_path item.quarantine_path item.original_path
            a.artifact.root_identity item.identity)
          begun)

  unfoldable pub restore_reason : String
  restore_reason = "exact restoration revalidation passed; atomic rename is about to be attempted"

  -- applyCacheRestoreLocked, after the revalidation.
  unfoldable pub restore_checked :
      String → CacheApproval → Instant → Result (Quarantine × List String) → Lane → Done Response
  restore_checked action_id a now (err text) lane = reject_action w action_id a text now lane
  restore_checked action_id a now (ok (item, evidence)) lane =
      try_restore action_id a item evidence lane
        (begin w (new_action action_id a "attempting" restore_reason evidence now) lane)

  unfoldable pub apply_restore : String → CacheApproval → Instant → Lane → Done Response
  apply_restore action_id a now lane =
      restore_checked action_id a now (current_quarantine_approval R D c w lane a) lane

  -- The action of an approval with authority, by its kind.
  unfoldable pub apply_kind : String → String → CacheApproval → Instant → Lane → Done Response
  apply_kind kind action_id a now lane =
      if a.kind != kind
      then reject_action w action_id a "approval action does not match the requested endpoint" now
          lane
      else if kind == "cleanup"
      then apply_quarantine action_id a now lane
      else if kind == "restore"
      then apply_restore action_id a now lane
      else reject_action w action_id a "unsupported cache action" now lane

  -- What follows the id of the action; a wrong kind is the refusal that is reported.
  unfoldable pub apply_consumed :
      String → Consumed CacheApproval → Result String → Lane → Done Response
  apply_consumed kind (missing text) id lane = (lane, err text)
  apply_consumed kind (denied a refusal) (err text) lane = (lane, err text)
  apply_consumed kind (denied a refusal) (ok token) lane =
      reject_action w ("act_" <> token) a
        (if a.kind != kind
          then "approval action does not match the requested endpoint"
          else refusal)
        w.now_start lane
  apply_consumed kind (granted a) (err text) lane = (lane, err text)
  apply_consumed kind (granted a) (ok token) lane =
      apply_kind kind ("act_" <> token) a w.now_start lane

  -- applyCacheApproval; CacheCleanupApply and CacheRestoreApply pass their kind.
  unfoldable pub apply_cache_approval : String → String → Lane → Done Response
  apply_cache_approval kind token lane =
      if token == ""
      then (lane, err "cache apply requires an approval")
      else let (approvals, consumed) =
          consume_approval (w.secret_digest token) w.now_start lane.approvals in
        apply_consumed kind consumed (w.new_token 12) (record lane { approvals = approvals })
