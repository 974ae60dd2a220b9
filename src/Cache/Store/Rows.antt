-- ===== src/Cache/Store/Rows.antt =====
-- What the transactions leave in the rows that a later request reads.
use ghostgc.Prelude.{
  ◌≡◌, ◌∙◌, ap, sym, refl, inl, inr, true, String, Option, none, some, List, [], ◌∷◌, ◌==◌,
  string_eq, nat_eq, Bool-cases, arith, map, contains, NoRepeat, false,
}
use ghostgc.Prelude.Int.{ℤ, int_eq}
use ghostgc.Daemon.{ok, ok_injective}
use ghostgc.Cache.{quarantined, identity_eq, Artifact, Quarantine, Digests}
use ghostgc.Cache.Store.{
  CacheStore, current_artifacts, mark_quarantined, update_where, find_where, count_where,
  upsert_quarantine, finish_action_tx, record_quarantined,
}
use ghostgc.Cache.Lane.Revalidation.{is_consistent}

abbrev on_found {ℓ} : {A : Type ℓ} → (A → A) → Option A → Option A
on_found f none = none
on_found f (some a) = some (f a)

-- A change that keeps the key changes what is found.
find_where-update_where {ℓ} :
    {A : Type ℓ} (key : A → String) (k : String) (f : A → A) (rows : List A)
    → ((a : A) → key (f a) ≡ key a)
    → find_where key k (update_where key k f rows) ≡ on_found f (find_where key k rows)
unfolding find_where update_where
find_where-update_where key k f [] kept = refl
find_where-update_where key k f (a ∷ rows) kept =
    let later = find_where-update_where key k f rows kept in
    elim (Bool-cases (key a == k)) [
      | inl here ↦ let still : (key (f a) == k) ≡ true = rw (kept a) here in rw here (rw still refl)
      | inr not_here ↦ rw not_here (rw not_here later)
    ]

pub find_where-key {ℓ} :
    {A : Type ℓ} (key : A → String) (k : String) (rows : List A) (x : A)
    → find_where key k rows ≡ some x
    → key x ≡ k
unfolding find_where
find_where-key key k [] x h = cc
find_where-key key k (a ∷ rows) x h = elim (Bool-cases (key a == k)) [
  | inl here ↦ let same : a ≡ x = ground arith in ap key (sym same) ∙ ground arith
  | inr not_here ↦ find_where-key key k rows x (rw not_here at h)
]

-- A key that is found is none of those before.
find_where-new :
    (before : List String) (rows : List Artifact) (k : String) (x : Artifact)
    → NoRepeat before (map (λ a. a.id) rows)
    → find_where (λ a. a.id) k rows ≡ some x
    → contains before k ≡ false
unfolding find_where
find_where-new before [] k x n h = cc
find_where-new before (a ∷ rows) k x n h = elim (Bool-cases (a.id == k)) [
  | inl here ↦ let same : a.id ≡ k = ground arith in rw (sym same) n.0
  | inr not_here ↦
      let later = find_where-new (a.id ∷ before) rows k x n.1 (rw not_here at h) in ground arith
]

-- Where each id stands once, the current row of an id is its row.
pub find_where-current_artifacts :
    (latest : ℤ) (before : List String) (rows : List Artifact) (k : String) (x : Artifact)
    → NoRepeat before (map (λ a. a.id) rows)
    → find_where (λ a. a.id) k (current_artifacts latest rows) ≡ some x
    → find_where (λ a. a.id) k rows ≡ some x
unfolding find_where current_artifacts
find_where-current_artifacts latest before [] k x n h = cc
find_where-current_artifacts latest before (a ∷ rows) k x n h =
    elim (Bool-cases (a.evaluation_id == latest)) [
      | inl current ↦ elim (Bool-cases (a.id == k)) [
        | inl here ↦ ground arith
        | inr not_here ↦ rw not_here (
            find_where-current_artifacts latest (a.id ∷ before) rows k x n.1
              (rw not_here at (rw current at h)))
      ]
      | inr old ↦
          let found =
            find_where-current_artifacts latest (a.id ∷ before) rows k x n.1 (rw old at h) in
          let new = find_where-new (a.id ∷ before) rows k x n.1 found in
          let other : (a.id == k) ≡ false = ground arith in rw other found
    ]

find_where-upsert_quarantine :
    (item : Quarantine) (rows : List Quarantine)
    → find_where (λ q. q.artifact_id) item.artifact_id (upsert_quarantine item rows) ≡ some item
unfolding find_where upsert_quarantine
find_where-upsert_quarantine item [] = ground arith
find_where-upsert_quarantine item (q ∷ rows) =
    let later = find_where-upsert_quarantine item rows in
    elim (Bool-cases (q.artifact_id == item.artifact_id)) [
      | inl here ↦ rw here (ground arith)
      | inr not_here ↦ rw not_here (rw not_here later)
    ]

-- The rows of the artifacts and quarantines are those of the transaction so far.
finish_action_tx-rows :
    (id result reason : String) (now : ℤ) (s after : CacheStore)
    → finish_action_tx id result reason now s ≡ ok after
    → (after.artifacts ≡ s.artifacts) × (after.quarantines ≡ s.quarantines)
unfolding finish_action_tx
finish_action_tx-rows id result reason now s after h =
    elim (Bool-cases (count_where (λ x. x.action_id) id s.actions == 1)) [
      | inl one ↦
          let e = ok_injective _ after (rw one at h) in
          (ap (λ z. z.artifacts) (sym e), ap (λ z. z.quarantines) (sym e))
      | inr other ↦ absurd (ground arith)
    ]

-- After the transaction of a quarantine, whose action it ends, the rows that a restore or a purge reads
-- agree with each other: they pass the check of the durable quarantine identity and manifest.
pub record_quarantined-is_consistent :
    (D : Digests) (action_id : String) (item : Quarantine) (s after : CacheStore) (old : Artifact)
    → find_where (λ a. a.id) item.artifact_id s.artifacts ≡ some old
    → old.root_path ≡ item.root_path
    → item.manifest_digest ≡ D.of_manifest item.quarantine_path item.identity
    → record_quarantined D action_id item s ≡ ok after
    → (a : Artifact) × (find_where (λ x. x.id) item.artifact_id after.artifacts ≡ some a)
      × (find_where (λ q. q.artifact_id) item.artifact_id after.quarantines ≡ some item)
      × (is_consistent D a item ≡ true)
      × (a.lifecycle ≡ quarantined)
unfolding record_quarantined
record_quarantined-is_consistent D action_id item s after old listed root manifest h =
    let (artifacts, quarantines) = finish_action_tx-rows _ _ _ _ _ after h in
    (
      mark_quarantined D item old,
      ap (find_where (λ x. x.id) item.artifact_id) artifacts
          ∙ find_where-update_where (λ x. x.id) item.artifact_id (mark_quarantined D item)
              s.artifacts (λ a. unfold mark_quarantined in refl)
          ∙ ap (on_found (mark_quarantined D item)) listed,
      ap (find_where (λ q. q.artifact_id) item.artifact_id) quarantines
          ∙ find_where-upsert_quarantine item s.quarantines,
      agree,
      unfold mark_quarantined in refl,
    )
  where
    agree : is_consistent D (mark_quarantined D item old) item ≡ true
    agree = unfold is_consistent mark_quarantined in ground arith
