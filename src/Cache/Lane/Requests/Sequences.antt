-- ===== src/Cache/Lane/Requests/Sequences.antt =====
-- Over any requests at most one purge plan is outstanding.
use ghostgc.Prelude.{◌≤◌, String, List, [], ◌∷◌, length, sym, subst}
use ghostgc.Prelude.Runtime.{Runtime}
use ghostgc.Cache.{CacheConfig, Digests}
use ghostgc.Cache.Lane.{Lane, CacheWorld}
use ghostgc.Cache.Lane.Actions.{apply_cache_approval}
use ghostgc.Cache.Lane.Purge.Plans.{
  FewPlans, cache_purge_apply-FewPlans, cache_purge_complete-FewPlans,
}
use ghostgc.Cache.Lane.Requests.{
  Request, cleanup_apply, restore_apply, purge_apply, purge_complete, cleanup_preview,
  restore_preview, purge_preview, serve, serve_all,
}
use ghostgc.Daemon.{Result}
use ghostgc.Cache.Lane.Previews.{
  Subject, issue_cache_approval, cleanup_subject, restore_subject, purge_subject,
  cache_cleanup_preview, cache_restore_preview, cache_purge_preview,
}
use ghostgc.Cache.Lane.Previews.Bounded.{issue_cache_approval-IsIssued}
use ghostgc.Cache.Lane.Requests.Frames.{apply_cache_approval-Frame}

module _ (R : Runtime) (D : Digests) (c : CacheConfig) where
  apply-FewPlans :
      (w : CacheWorld) (kind token : String) (lane : Lane)
      → FewPlans lane
      → FewPlans (apply_cache_approval R D c w kind token lane).0
  apply-FewPlans w kind token lane few =
      subst (λ z. length z ≤ 1) (sym (apply_cache_approval-Frame R D c w kind token lane).0) few

  issue-FewPlans :
      (w : CacheWorld) (r : Result Subject) (lane : Lane)
      → FewPlans lane
      → FewPlans (issue_cache_approval R D c w r lane).0
  issue-FewPlans w r lane few =
      subst (λ z. length z ≤ 1) (sym (issue_cache_approval-IsIssued R D c w r lane).same_plans) few

  serve-FewPlans :
      (w : CacheWorld) (request : Request) (lane : Lane)
      → FewPlans lane
      → FewPlans (serve R D c w request lane)
  unfolding serve cache_cleanup_preview cache_restore_preview cache_purge_preview
  serve-FewPlans w (cleanup_apply token) lane few = apply-FewPlans w "cleanup" token lane few
  serve-FewPlans w (restore_apply token) lane few = apply-FewPlans w "restore" token lane few
  serve-FewPlans w (purge_apply token confirmation) lane few =
      cache_purge_apply-FewPlans R D c w token confirmation lane few
  serve-FewPlans w (purge_complete action_id completion execution_error) lane few =
      cache_purge_complete-FewPlans R D c w action_id completion execution_error lane few
  serve-FewPlans w (cleanup_preview artifact_id policy_id) lane few =
      issue-FewPlans w (cleanup_subject R D c w artifact_id policy_id lane) lane few
  serve-FewPlans w (restore_preview artifact_id) lane few =
      issue-FewPlans w (restore_subject R D c w artifact_id lane) lane few
  serve-FewPlans w (purge_preview artifact_id policy_id) lane few =
      issue-FewPlans w (purge_subject R D c w artifact_id policy_id lane) lane few

  -- From a lane with at most one outstanding purge plan, any requests, whatever the world answers
  -- each of them, leave at most one.
  pub serve_all-FewPlans :
      (requests : List (CacheWorld × Request)) (lane : Lane)
      → FewPlans lane
      → FewPlans (serve_all R D c requests lane)
  unfolding serve_all
  serve_all-FewPlans [] lane few = few
  serve_all-FewPlans ((w, request) ∷ requests) lane few =
      serve_all-FewPlans requests (serve R D c w request lane) (serve-FewPlans w request lane few)
