-- ===== src/Cache/Lane/Previews.antt =====
-- internal/daemon/cache_approval.go: the previews that issue the approvals of the cache lane.
pub mod Bounded
use ghostgc.Prelude.{
  ℕ, ◌<>◌, Bool, true, false, not, ◌&&◌, ◌||◌, String, Option, none, some, List, [], ◌∷◌, ◌++◌,
  ◌==◌, string_eq, if◌then◌else◌, length, leb,
}
use ghostgc.Prelude.Int.{ℤ, pos}
use ghostgc.Prelude.Int
use ghostgc.Prelude.Time.{Instant, add, unix_nano}
use ghostgc.Prelude.Runtime.{Runtime}
use ghostgc.Daemon.{AuditRecord, Result, ok, err}
use ghostgc.Daemon.Approvals.{
  Approvals, approval_lifetime, max_approvals, prune_approvals, insert, remove,
}
use ghostgc.Cache.{recommended, lifecycle_eq, Artifact, Quarantine, CacheConfig, Digests}
use ghostgc.Cache.Store.{find_where}
use ghostgc.Cache.Lane.{
  CacheApproval, cache_ticket, Lane, CacheWorld, Done, audited, cache_policy_enabled, ◌and_then◌,
  refuse_unless, read_or,
}
use ghostgc.Cache.Lane.Revalidation.{current_cache_artifact}

-- What an approval is issued for.
pub record Subject : Type 0 where
  pub kind : String
  pub artifact : Artifact
  pub quarantine : Option Quarantine
  pub destination : String

-- api.CachePreviewResponse, without its fixed texts.
pub record Preview : Type 0 where
  pub action : String
  pub approval : String
  pub expires_ns : ℤ
  pub artifact : Artifact
  pub quarantine : Option Quarantine
  pub destination : String
  pub command : String

unfoldable pub quarantine_of : CacheWorld → Lane → String → Result Quarantine
unfolding read_or
quarantine_of w lane id =
    read_or (w.read_error "quarantine") (find_where (λ q. q.artifact_id) id lane.store.quarantines)

unfoldable pub artifact_of : CacheWorld → Lane → String → Result Artifact
unfolding read_or
artifact_of w lane id =
    read_or (w.read_error "artifact") (find_where (λ a. a.id) id lane.store.artifacts)

module _ (R : Runtime) (D : Digests) (c : CacheConfig) (w : CacheWorld) where
  -- The checks of CacheCleanupPreview.
  unfoldable pub cleanup_subject : String → String → Lane → Result Subject
  unfolding ◌and_then◌ refuse_unless
  cleanup_subject artifact_id policy_id lane =
      refuse_unless (not (artifact_id == "" || policy_id == ""))
        "cache cleanup preview requires artifact_id and policy_id"
        (refuse_unless (cache_policy_enabled c lane policy_id)
          "cache recommendation authority is disabled"
          (current_cache_artifact w lane artifact_id and_then λ artifact.
            refuse_unless (artifact.lifecycle == recommended && artifact.policy_id == policy_id)
              "artifact is not a current recommendation for that exact policy"
              (refuse_unless
                (not (
                  Int.ltb c.max_entries_per_action (pos 1)
                  || Int.ltb c.max_bytes_per_action artifact.identity.size))
                "artifact exceeds the current cache action bounds"
                (ok (record {
                  kind = "cleanup";
                  artifact = artifact;
                  quarantine = none;
                  destination = w.join ".ghostgc-quarantine" artifact.id;
                })))))

  -- The checks of CacheRestorePreview.
  unfoldable pub restore_subject : String → Lane → Result Subject
  unfolding ◌and_then◌ refuse_unless
  restore_subject artifact_id lane =
      refuse_unless (not (artifact_id == "")) "cache restore preview requires artifact_id" (
        artifact_of w lane artifact_id and_then λ artifact.
        refuse_unless (cache_policy_enabled c lane artifact.policy_id)
          "cache restore authority is disabled"
          (quarantine_of w lane artifact_id and_then λ item.
            refuse_unless (item.status == "quarantined") "artifact is not currently quarantined" (
              refuse_unless (not (Int.ltb c.max_bytes_per_action item.identity.size))
                "artifact exceeds the current cache action byte bound"
                (ok (record {
                  kind = "restore";
                  artifact = artifact;
                  quarantine = some item;
                  destination = item.original_path;
                })))))

  -- The checks of CachePurgePreview.
  unfoldable pub purge_subject : String → String → Lane → Result Subject
  unfolding ◌and_then◌ refuse_unless
  purge_subject artifact_id policy_id lane =
      refuse_unless (not (artifact_id == "" || policy_id == ""))
        "cache purge preview requires artifact_id and policy_id"
        (refuse_unless (cache_policy_enabled c lane policy_id) "cache purge authority is disabled" (
          artifact_of w lane artifact_id and_then λ artifact.
          refuse_unless (artifact.policy_id == policy_id)
            "purge policy does not match the artifact quarantine authority"
            (quarantine_of w lane artifact_id and_then λ item.
              refuse_unless
                (item.status == "quarantined"
                  && not (Int.ltb (unix_nano w.now_start) item.grace_until_ns))
                "artifact is not purge-eligible or its quarantine grace period has not elapsed"
                (refuse_unless (not (Int.ltb c.max_bytes_per_action item.identity.size))
                  "artifact exceeds the current cache action byte bound"
                  (ok (record {
                    kind = "purge";
                    artifact = artifact;
                    quarantine = some item;
                    destination = item.quarantine_path;
                  }))))))

  unfoldable pub cache_approval : Subject → String → CacheApproval
  cache_approval s binding = record {
    kind = s.kind;
    binding_digest = binding;
    artifact = s.artifact;
    quarantine = s.quarantine;
    destination = s.destination;
    configuration = D.of_config c;
    expires = add w.now_completed approval_lifetime;
    used = false;
  }

  unfoldable pub preview_of : Subject → String → Preview
  preview_of s token = record {
    action = s.kind;
    approval = token;
    expires_ns = unix_nano (add w.now_completed approval_lifetime);
    artifact = s.artifact;
    quarantine = s.quarantine;
    destination = s.destination;
    command =
        "ghostgc cache "
        <> s.kind
        <> " --apply --approval "
        <> token
        <> " --yes"
        <> (if s.kind == "purge" then " --confirm " <> s.artifact.id else "");
  }

  unfoldable pub preview_audit : Subject → String → AuditRecord
  preview_audit s binding = record {
    ts_ns = unix_nano w.now_completed;
    kind = "cache." <> s.kind <> ".previewed";
    subject = s.artifact.id;
    summary =
        "single-use cache "
        <> s.kind
        <> " preview issued; expires at "
        <> R.rfc3339 (add w.now_completed approval_lifetime);
    evidence_json =
        w.json_list (("binding " <> binding) ∷ ("configuration " <> D.of_config c) ∷ []);
  }

  -- The audit entry, without which the approval is withdrawn.
  unfoldable pub after_audit : Option String → Subject → String → String → Lane → Done Preview
  after_audit (some text) s token binding lane =
      (record lane { approvals = remove (w.secret_digest token) lane.approvals }, err text)
  after_audit none s token binding lane = (
    record lane { journal = lane.journal ++ (audited (preview_audit s binding) ∷ []) },
    ok (preview_of s token),
  )

  -- issueCacheApproval, with its token and binding.
  unfoldable pub hold_approval : Subject → String → String → Lane → Done Preview
  hold_approval s token binding lane =
      let held = prune_approvals w.now_completed lane.approvals in
      if leb max_approvals (length held)
      then (record lane { approvals = held }, err "too many outstanding cache approvals")
      else after_audit (w.commit_error "audit") s token binding (record lane {
        approvals = insert (w.secret_digest token) (cache_approval s binding) held;
      })

  unfoldable pub issue_bound : Subject → String → Result String → Lane → Done Preview
  issue_bound s token (err text) lane = (lane, err text)
  issue_bound s token (ok binding) lane = hold_approval s token binding lane

  unfoldable pub issue_token : Subject → Result String → Lane → Done Preview
  issue_token s (err text) lane = (lane, err text)
  issue_token s (ok token) lane =
      issue_bound s token (w.binding s.kind s.artifact s.quarantine s.destination (D.of_config c))
        lane

  unfoldable pub issue_cache_approval : Result Subject → Lane → Done Preview
  issue_cache_approval (err text) lane = (lane, err text)
  issue_cache_approval (ok s) lane = issue_token s (w.new_token 32) lane

  unfoldable pub cache_cleanup_preview : String → String → Lane → Done Preview
  cache_cleanup_preview artifact_id policy_id lane =
      issue_cache_approval (cleanup_subject artifact_id policy_id lane) lane

  unfoldable pub cache_restore_preview : String → Lane → Done Preview
  cache_restore_preview artifact_id lane =
      issue_cache_approval (restore_subject artifact_id lane) lane

  unfoldable pub cache_purge_preview : String → String → Lane → Done Preview
  cache_purge_preview artifact_id policy_id lane =
      issue_cache_approval (purge_subject artifact_id policy_id lane) lane
