-- ===== src/Cache/Store.antt =====
-- internal/storage/cache_transition.go and cache_write.go: the rows of the cache lane and the
-- transactions of its actions.
pub mod Rows
use ghostgc.Prelude.{
  ℕ, suc, Bool, true, false, String, Option, none, some, List, [], ◌∷◌, ◌++◌, ◌==◌, string_eq,
  nat_eq, if◌then◌else◌,
}
use ghostgc.Prelude.Int.{ℤ, pos, int_eq}
use ghostgc.Daemon.{Result, ok, err}
use ghostgc.Cache.{
  Lifecycle, quarantined, restored, purged, partial, Identity, Artifact, Action, Quarantine,
  Digests,
}

-- The tables, keyed by artifact and by action, and the id of the newest evaluation.
pub record CacheStore : Type 0 where
  pub latest_evaluation : ℤ
  pub artifacts : List Artifact
  pub quarantines : List Quarantine
  pub actions : List Action

-- The artifacts of the newest evaluation.
unfoldable pub current_artifacts : ℤ → List Artifact → List Artifact
current_artifacts latest [] = []
current_artifacts latest (a ∷ rows) =
    let rest = current_artifacts latest rows in if a.evaluation_id == latest then a ∷ rest else rest

-- What the transactions set in the artifact's row.
unfoldable pub mark_quarantined : Digests → Quarantine → Artifact → Artifact
mark_quarantined D item a = record a {
  lifecycle = quarantined;
  identity = item.identity;
  identity_digest = D.of_identity item.identity;
  manifest_digest = item.manifest_digest;
  quarantine_path = item.quarantine_path;
  quarantined_at_ns = item.quarantined_ns;
  quarantine_digest = item.manifest_digest;
  reason = "atomically quarantined on the provider filesystem";
}

unfoldable pub mark_restored : Digests → Identity → String → ℤ → Artifact → Artifact
mark_restored D identity manifest now_ns a = record a {
  lifecycle = restored;
  identity = identity;
  identity_digest = D.of_identity identity;
  manifest_digest = manifest;
  stable_since_ns = now_ns;
  quarantine_path = "";
  quarantined_at_ns = pos 0;
  quarantine_digest = "";
  reason = "restored to the exact absent original destination";
}

unfoldable pub mark_purged : Artifact → Artifact
mark_purged a = record a {
  lifecycle = purged;
  reason = "permanently purged from quarantine after separate approval";
}

unfoldable pub mark_partial : String → Artifact → Artifact
mark_partial reason a = record a { lifecycle = partial; reason = reason }

-- The rows with the key, changed.
unfoldable pub update_where {ℓ} : {A : Type ℓ} → (A → String) → String → (A → A) → List A → List A
update_where key k f [] = []
update_where key k f (a ∷ rows) =
    let rest = update_where key k f rows in if key a == k then f a ∷ rest else a ∷ rest

-- The first row with the key.
unfoldable pub find_where {ℓ} : {A : Type ℓ} → (A → String) → String → List A → Option A
find_where key k [] = none
find_where key k (a ∷ rows) =
    let rest = find_where key k rows in if key a == k then some a else rest

-- The number of rows with the key.
unfoldable pub count_where {ℓ} : {A : Type ℓ} → (A → String) → String → List A → ℕ
count_where key k [] = 0
count_where key k (a ∷ rows) =
    let rest = count_where key k rows in if key a == k then suc rest else rest

-- INSERT with ON CONFLICT DO UPDATE of every column.
unfoldable pub upsert_quarantine : Quarantine → List Quarantine → List Quarantine
upsert_quarantine item [] = item ∷ []
upsert_quarantine item (q ∷ rows) =
    let rest = upsert_quarantine item rows in
    if q.artifact_id == item.artifact_id then item ∷ rows else q ∷ rest

-- BeginCacheAction: the action's id is unique.
unfoldable pub begin_action : Action → CacheStore → Result CacheStore
begin_action a s =
    if count_where (λ x. x.action_id) a.action_id s.actions == 0
    then ok (record s { actions = s.actions ++ (a ∷ []) })
    else err "storage: beginning cache action: UNIQUE constraint failed"

-- finishCacheActionTx, on the store as the transaction has it so far; an unknown action rolls back.
unfoldable pub finish_action_tx : String → String → String → ℤ → CacheStore → Result CacheStore
finish_action_tx action_id result reason now_ns s =
    if count_where (λ x. x.action_id) action_id s.actions == 1
    then ok (record s {
      actions =
          update_where (λ x. x.action_id) action_id
            (λ x. record x { updated_ns = now_ns; result = result; reason = reason }) s.actions;
    })
    else err "storage: not found"

unfoldable pub record_quarantined : Digests → String → Quarantine → CacheStore → Result CacheStore
record_quarantined D action_id item s =
    finish_action_tx action_id "quarantined" "atomic same-filesystem quarantine completed"
      item.updated_ns
      (record s {
        quarantines = upsert_quarantine item s.quarantines;
        artifacts = update_where (λ a. a.id) item.artifact_id (mark_quarantined D item) s.artifacts;
      })

unfoldable pub record_restored :
    Digests → String → String → Identity → String → ℤ → CacheStore → Result CacheStore
record_restored D action_id artifact_id identity manifest now_ns s =
    finish_action_tx action_id "restored" "atomic restoration completed" now_ns (record s {
      quarantines =
          update_where (λ q. q.artifact_id) artifact_id
            (λ q. record q { status = "restored"; updated_ns = now_ns }) s.quarantines;
      artifacts =
          update_where (λ a. a.id) artifact_id (mark_restored D identity manifest now_ns)
            s.artifacts;
    })

unfoldable pub record_purged : String → String → ℤ → CacheStore → Result CacheStore
record_purged action_id artifact_id now_ns s =
    finish_action_tx action_id "purged" "quarantine-only purge completed" now_ns (record s {
      quarantines =
          update_where (λ q. q.artifact_id) artifact_id
            (λ q. record q { status = "purged"; updated_ns = now_ns }) s.quarantines;
      artifacts = update_where (λ a. a.id) artifact_id mark_purged s.artifacts;
    })

-- The artifact of an action.
unfoldable pub artifact_of_action : String → List Action → String
artifact_of_action action_id actions = elim (find_where (λ x. x.action_id) action_id actions) [
  | none ↦ ""
  | some a ↦ a.artifact_id
]

-- FinishCacheAction; a partial result marks the artifact too.
unfoldable pub finish_action :
    String → String → String → List String → ℤ → CacheStore → Result CacheStore
finish_action action_id result reason evidence now_ns s =
    if count_where (λ x. x.action_id) action_id s.actions == 1
    then ok (record s {
      actions =
          update_where (λ x. x.action_id) action_id
            (λ x. record x {
              updated_ns = now_ns;
              result = result;
              reason = reason;
              evidence = evidence;
            })
            s.actions;
      artifacts =
          if result == "partial"
          then update_where (λ a. a.id) (artifact_of_action action_id s.actions)
              (mark_partial reason) s.artifacts
          else s.artifacts;
    })
    else err "storage: not found"
