-- ===== src/Cache/Lane/Requests.antt =====
-- The requests of the cache lane in sequence, each in a world of its own.
pub mod Frames
pub mod Harmless
pub mod Kept
pub mod Stopped
pub mod Sequences
use ghostgc.Prelude.{String, none, some, List, [], ◌∷◌, ◌++◌}
use ghostgc.Prelude.Runtime.{Runtime}
use ghostgc.Cache.{CacheConfig, Digests}
use ghostgc.Daemon.{Result, ok, err}
use ghostgc.Cache.Lane.{PurgePlan, Lane, CacheWorld}
use ghostgc.Cache.Lane.Previews.{cache_cleanup_preview, cache_restore_preview, cache_purge_preview}
use ghostgc.Cache.Lane.Actions.{apply_cache_approval}
use ghostgc.Cache.Lane.Purge.{Prepared, cache_purge_apply, cache_purge_complete}

pub data Request : Type 0 where
  cleanup_apply restore_apply : String → Request
  purge_apply : String → String → Request
  purge_complete : String → String → String → Request
  cleanup_preview purge_preview : String → String → Request
  restore_preview : String → Request

-- The plan that the answer to a purge apply hands out, if there is one.
unfoldable pub plan_in : Result Prepared → List PurgePlan
plan_in (err text) = []
plan_in (ok (r, none)) = []
plan_in (ok (r, some plan)) = plan ∷ []

module _ (R : Runtime) (D : Digests) (c : CacheConfig) where
  unfoldable pub serve : CacheWorld → Request → Lane → Lane
  serve w (cleanup_apply token) lane = (apply_cache_approval R D c w "cleanup" token lane).0
  serve w (restore_apply token) lane = (apply_cache_approval R D c w "restore" token lane).0
  serve w (purge_apply token confirmation) lane =
      (cache_purge_apply R D c w token confirmation lane).0
  serve w (purge_complete action_id completion execution_error) lane =
      (cache_purge_complete R D c w action_id completion execution_error lane).0
  serve w (cleanup_preview artifact_id policy_id) lane =
      (cache_cleanup_preview R D c w artifact_id policy_id lane).0
  serve w (restore_preview artifact_id) lane = (cache_restore_preview R D c w artifact_id lane).0
  serve w (purge_preview artifact_id policy_id) lane =
      (cache_purge_preview R D c w artifact_id policy_id lane).0

  -- The requests in order.
  unfoldable pub serve_all : List (CacheWorld × Request) → Lane → Lane
  serve_all [] lane = lane
  serve_all ((w, request) ∷ requests) lane = serve_all requests (serve w request lane)

  -- The plans that the answers hand out; only a purge apply is answered with one.
  unfoldable pub plans_of : CacheWorld → Request → Lane → List PurgePlan
  plans_of w (cleanup_apply token) lane = []
  plans_of w (restore_apply token) lane = []
  plans_of w (purge_apply token confirmation) lane =
      plan_in (cache_purge_apply R D c w token confirmation lane).1
  plans_of w (purge_complete action_id completion execution_error) lane = []
  plans_of w (cleanup_preview artifact_id policy_id) lane = []
  plans_of w (restore_preview artifact_id) lane = []
  plans_of w (purge_preview artifact_id policy_id) lane = []

  unfoldable pub handed_out : List (CacheWorld × Request) → Lane → List PurgePlan
  handed_out [] lane = []
  handed_out ((w, request) ∷ requests) lane =
      plans_of w request lane ++ handed_out requests (serve w request lane)
