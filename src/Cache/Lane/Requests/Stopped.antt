-- ===== src/Cache/Lane/Requests/Stopped.antt =====
-- A stopped lane stays stopped: it renames nothing and gives no purge plan out.
use ghostgc.Prelude.{◌≡◌, ◌∙◌, refl, false, String, List, [], ◌∷◌, string_eq}
use ghostgc.Prelude.Runtime.{Runtime}
use ghostgc.Cache.{CacheConfig, Digests}
use ghostgc.Cache.Lane.{PurgePlan, Lane, CacheWorld}
use ghostgc.Cache.Lane.Actions.{apply_cache_approval}
use ghostgc.Cache.Lane.Actions.Journal.{Quiet}
use ghostgc.Cache.Lane.Actions.Moves.{stopped_lane}
use ghostgc.Daemon.{Result}
use ghostgc.Cache.Lane.Previews.{
  Subject, issue_cache_approval, cleanup_subject, restore_subject, purge_subject,
  cache_cleanup_preview, cache_restore_preview, cache_purge_preview,
}
use ghostgc.Cache.Lane.Previews.Bounded.{issue_cache_approval-IsIssued}
use ghostgc.Cache.Lane.Requests.Harmless.{
  Harmless-refl, Quiet-trans, cache_purge_apply-Harmless, cache_purge_complete-Harmless,
}
use ghostgc.Cache.Lane.Requests.Kept.{
  Kept, Kept-refl, Kept-trans, cache_purge_apply-Refused, cache_purge_complete-Kept,
}
use ghostgc.Cache.Lane.Requests.Frames.{apply_cache_approval-Frame}
use ghostgc.Cache.Lane.Requests.{
  Request, cleanup_apply, restore_apply, purge_apply, purge_complete, cleanup_preview,
  restore_preview, purge_preview, serve, serve_all, plans_of, handed_out,
}

-- The lane is stopped still, nothing was renamed, no purge plan is new, and none was handed out.
pub record IsStopped (lane after : Lane) (handed : List PurgePlan) : Type 0 where
  pub quiet : Quiet lane.journal after.journal
  pub kept : Kept lane.purge_plans after.purge_plans
  pub handed_none : handed ≡ []
  pub still : after.filesystem_healthy ≡ false

module _ (R : Runtime) (D : Digests) (c : CacheConfig) where
  apply-IsStopped :
      (w : CacheWorld) (kind token : String) (lane : Lane)
      → lane.filesystem_healthy ≡ false
      → IsStopped lane (apply_cache_approval R D c w kind token lane).0 []
  apply-IsStopped w kind token lane off =
      let (plans, circuit) = apply_cache_approval-Frame R D c w kind token lane in
      record {
        quiet = stopped_lane R D c w kind token lane off;
        kept = rw plans (Kept-refl lane.purge_plans);
        handed_none = refl;
        still = circuit ∙ off;
      }

  issue-IsStopped :
      (w : CacheWorld) (r : Result Subject) (lane : Lane)
      → lane.filesystem_healthy ≡ false
      → IsStopped lane (issue_cache_approval R D c w r lane).0 []
  issue-IsStopped w r lane off =
      let is = issue_cache_approval-IsIssued R D c w r lane in
      record {
        quiet = is.quiet;
        kept = rw is.same_plans (Kept-refl lane.purge_plans);
        handed_none = refl;
        still = is.same_circuit ∙ off;
      }

  serve-IsStopped :
      (w : CacheWorld) (request : Request) (lane : Lane)
      → lane.filesystem_healthy ≡ false
      → IsStopped lane (serve R D c w request lane) (plans_of R D c w request lane)
  unfolding serve plans_of cache_cleanup_preview cache_restore_preview cache_purge_preview
  serve-IsStopped w (cleanup_apply token) lane off = apply-IsStopped w "cleanup" token lane off
  serve-IsStopped w (restore_apply token) lane off = apply-IsStopped w "restore" token lane off
  serve-IsStopped w (purge_apply token confirmation) lane off =
      let (calm, stays) = cache_purge_apply-Harmless R D c w token confirmation lane in
      let (plans, none_given) = cache_purge_apply-Refused R D c w token confirmation lane off in
      record {
        quiet = calm;
        kept = rw plans (Kept-refl lane.purge_plans);
        handed_none = none_given;
        still = stays off;
      }
  serve-IsStopped w (purge_complete action_id completion execution_error) lane off =
      let (calm, stays) =
        cache_purge_complete-Harmless R D c w action_id completion execution_error lane in
      record {
        quiet = calm;
        kept = cache_purge_complete-Kept R D c w action_id completion execution_error lane;
        handed_none = refl;
        still = stays off;
      }
  serve-IsStopped w (cleanup_preview artifact_id policy_id) lane off =
      issue-IsStopped w (cleanup_subject R D c w artifact_id policy_id lane) lane off
  serve-IsStopped w (restore_preview artifact_id) lane off =
      issue-IsStopped w (restore_subject R D c w artifact_id lane) lane off
  serve-IsStopped w (purge_preview artifact_id policy_id) lane off =
      issue-IsStopped w (purge_subject R D c w artifact_id policy_id lane) lane off

  -- Once the filesystem circuit is open, as after an ambiguous purge, it stays open, whatever requests
  -- follow and whatever the world answers: no request leads to a rename in the filesystem, no purge
  -- apply hands a plan out, and no plan is held that was not held before. A plan of before may still
  -- be completed, which only looks at the filesystem.
  pub serve_all-IsStopped :
      (requests : List (CacheWorld × Request)) (lane : Lane)
      → lane.filesystem_healthy ≡ false
      → IsStopped lane (serve_all R D c requests lane) (handed_out R D c requests lane)
  unfolding serve_all handed_out
  serve_all-IsStopped [] lane off = record {
    quiet = (Harmless-refl lane).0;
    kept = Kept-refl lane.purge_plans;
    handed_none = refl;
    still = off;
  }
  serve_all-IsStopped ((w, request) ∷ requests) lane off =
      let now = serve-IsStopped w request lane off in
      let next = serve R D c w request lane in
      let later = serve_all-IsStopped requests next now.still in
      let last = serve_all R D c requests next in
      record {
        quiet = Quiet-trans lane.journal next.journal last.journal now.quiet later.quiet;
        kept = Kept-trans lane.purge_plans next.purge_plans last.purge_plans now.kept later.kept;
        handed_none = rw (now.handed_none, later.handed_none) refl;
        still = later.still;
      }
