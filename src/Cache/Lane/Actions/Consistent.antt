-- ===== src/Cache/Lane/Actions/Consistent.antt =====
-- What an apply request that reports a quarantine leaves in the rows.
use ghostgc.Prelude.{
  ◌<>◌, ◌≡◌, ◌≢◌, ◌∙◌, ap, sym, refl, inl, inr, true, false, String, Option, none, some, List, [],
  ◌==◌, ◌!=◌, string_eq, nat_eq, Bool-cases, arith, map, NoRepeat,
}
use ghostgc.Prelude.Time.{Instant, add, unix_nano}
use ghostgc.Prelude.Runtime.{Runtime}
use ghostgc.Daemon.{Result, Result-cases, ok, err, ok_injective}
use ghostgc.Daemon.Approvals.{Consumed, missing, denied, granted}
use ghostgc.Cache.{quarantined, Identity, Artifact, Action, Quarantine, CacheConfig, Digests}
use ghostgc.Cache.Evaluation.Stability.{evaluate-id}
use ghostgc.Cache.Store.{CacheStore, begin_action, find_where}
use ghostgc.Cache.Store.Rows.{
  find_where-key, find_where-current_artifacts, record_quarantined-is_consistent,
}
use ghostgc.Cache.Lane.{
  CacheApproval, cache_ticket, Lane, CacheWorld, Response, Event, begin, commit_if,
}
use ghostgc.Cache.Lane.Revalidation.{is_consistent, fresh_cleanup_artifact}
use ghostgc.Cache.Lane.Revalidation.Passed.{IsFresh, fresh_cleanup_artifact-IsFresh}
use ghostgc.Cache.Lane.Actions.{
  answer, action_response, reject_action, failed_call, quarantine_item, after_quarantine,
  try_quarantine, quarantine_checked, apply_quarantine, apply_kind, apply_consumed,
  apply_cache_approval,
}

commit_if-store :
    (o : Option String) (next : Result CacheStore) (e : Event) (lane after : Lane)
    → commit_if o next e lane ≡ ok after
    → next ≡ ok after.store
unfolding commit_if
commit_if-store (some text) next e lane after h = cc
commit_if-store none (err text) e lane after h = cc
commit_if-store none (ok s) e lane after h = ap (λ (z : Lane). ok z.store) (ok_injective _ after h)

answered :
    (lane : Lane) (next : Result Lane) (q r : Response)
    → (answer lane next q).1 ≡ ok r
    → (next ≡ ok (answer lane next q).0) × (r ≡ q)
unfolding answer
answered lane (err text) q r h = cc
answered lane (ok after) q r h = (refl, sym (ok_injective q r h))

not_quarantined : (s t : String) → (t == "quarantined") ≡ false → s ≡ t → s ≢ "quarantined"
not_quarantined s t other e k = ground arith

reject_action-rejected :
    (w : CacheWorld) (id : String) (a : CacheApproval) (reason : String) (now : Instant)
    (lane : Lane) (r : Response)
    → (reject_action w id a reason now lane).1 ≡ ok r
    → r.result ≢ "quarantined"
unfolding reject_action action_response string_eq nat_eq
reject_action-rejected w id a reason now lane r h =
    not_quarantined r.result "rejected" refl (ap (λ z. z.result) (answered lane _ _ r h).1)

failed_call-failed :
    (w : CacheWorld) (id : String) (a : CacheApproval) (cause : String) (evidence : List String)
    (lane : Lane) (r : Response)
    → (failed_call w id a cause evidence lane).1 ≡ ok r
    → r.result ≢ "quarantined"
unfolding failed_call action_response string_eq nat_eq
failed_call-failed w id a cause evidence lane r h k =
    not_quarantined r.result "failed" refl (ap (λ z. z.result) (sym (ok_injective _ r h))) k

begin_action-artifacts :
    (w : CacheWorld) (action : Action) (lane begun : Lane)
    → begin w action lane ≡ ok begun
    → begun.store.artifacts ≡ lane.store.artifacts
unfolding begin begin_action
begin_action-artifacts w action lane begun h =
    let stored = commit_if-store _ _ _ lane begun h in ground (arith, stored)

module _ (R : Runtime) (D : Digests) (c : CacheConfig) (w : CacheWorld) where
  -- The rows of the artifact that the answer names: one of the artifact, one of its quarantine. They
  -- pass the check of a later restore or purge, and the quarantine says the entry that the rename gave,
  -- where it was, where it is, and until when it is kept.
  pub record IsQuarantined (r : Response) (after : CacheStore) : Type 0 where
    pub artifact : Artifact
    pub answered_about : artifact.id ≡ r.artifact_id
    pub destination : String
    pub moved : Identity
    pub renamed :
        w.quarantine artifact.root_path artifact.relative_path destination artifact.root_identity
          artifact.identity
        ≡ ok moved
    pub row : Artifact
    pub row_found : find_where (λ x. x.id) r.artifact_id after.artifacts ≡ some row
    pub item : Quarantine
    pub item_found : find_where (λ q. q.artifact_id) r.artifact_id after.quarantines ≡ some item
    pub consistent : is_consistent D row item ≡ true
    pub lifecycle : row.lifecycle ≡ quarantined
    pub status : item.status ≡ "quarantined"
    pub identity : item.identity ≡ moved
    pub root_path : item.root_path ≡ artifact.root_path
    pub original_path : item.original_path ≡ artifact.relative_path
    pub quarantine_path : item.quarantine_path ≡ w.join ".ghostgc-quarantine" destination
    pub manifest_digest : item.manifest_digest ≡ D.of_manifest item.quarantine_path moved
    pub grace_until : item.grace_until_ns ≡ unix_nano (add w.now_completed c.quarantine_grace)

  after_quarantine-IsQuarantined :
      (id : String) (a : CacheApproval) (artifact : Artifact) (destination : String)
      (evidence : List String) (z : Result Identity) (lane : Lane) (old : Artifact) (r : Response)
      → artifact.id ≡ a.artifact.id
      → w.quarantine artifact.root_path artifact.relative_path destination artifact.root_identity
          artifact.identity
        ≡ z
      → find_where (λ x. x.id) artifact.id lane.store.artifacts ≡ some old
      → old.root_path ≡ artifact.root_path
      → (after_quarantine R D c w id a artifact destination evidence z lane).1 ≡ ok r
      → r.result ≡ "quarantined"
      → IsQuarantined r (after_quarantine R D c w id a artifact destination evidence z lane).0.store
  unfolding after_quarantine
  after_quarantine-IsQuarantined id a artifact destination evidence (err text) lane old r same q f
        root h k =
      absurd (failed_call-failed w id a text evidence lane r h k)
  after_quarantine-IsQuarantined id a artifact destination evidence (ok moved) lane old r same q f
        root h k =
      let (committed, e) = answered lane _ _ r h in
      let stored = commit_if-store _ _ _ lane _ committed in
      let about : artifact.id ≡ r.artifact_id =
        same ∙ sym (ap (λ z. z.artifact_id) e ∙ (unfold action_response in refl)) in
      let (row, row_found, item_found, agree, life) =
        record_quarantined-is_consistent D id (quarantine_item R D c w artifact destination moved)
          lane.store _ old (unfold quarantine_item in f) (unfold quarantine_item in root)
          (unfold quarantine_item in refl) stored in
      record {
        artifact = artifact;
        answered_about = about;
        destination = destination;
        moved = moved;
        renamed = q;
        row = row;
        row_found = rw (sym about) (unfold quarantine_item in row_found);
        item = quarantine_item R D c w artifact destination moved;
        item_found = rw (sym about) (unfold quarantine_item in item_found);
        consistent = agree;
        lifecycle = life;
        status = unfold quarantine_item in refl;
        identity = unfold quarantine_item in refl;
        root_path = unfold quarantine_item in refl;
        original_path = unfold quarantine_item in refl;
        quarantine_path = unfold quarantine_item in refl;
        manifest_digest = unfold quarantine_item in refl;
        grace_until = unfold quarantine_item in refl;
      }

  -- The stored row of an artifact that passed the revalidation.
  fresh-listed :
      (lane : Lane) (a : CacheApproval) (artifact : Artifact)
      → NoRepeat [] (map (λ x. x.id) lane.store.artifacts)
      → IsFresh R D c w lane a artifact
      → (artifact.id ≡ a.artifact.id)
        × ((old : Artifact) × (find_where (λ x. x.id) artifact.id lane.store.artifacts ≡ some old)
            × (old.root_path ≡ artifact.root_path))
  fresh-listed lane a artifact distinct is =
      let same : artifact.id ≡ is.current.id =
        ap (λ x. x.id) is.evaluated
        ∙ evaluate-id R D c w.now_evaluated is.seen (some is.current)
        ∙ find_where-key (λ x. x.id) is.current.id is.inspection.artifacts is.seen is.seen_listed in
      let approved : is.current.id ≡ a.artifact.id =
        find_where-key (λ x. x.id) a.artifact.id _ is.current is.listed in
      (
        same ∙ approved,
        (
          is.current,
          ap (λ k. find_where (λ x. x.id) k lane.store.artifacts) (same ∙ approved)
              ∙ find_where-current_artifacts lane.store.latest_evaluation [] lane.store.artifacts
                  a.artifact.id is.current distinct is.listed,
          sym is.same.root,
        ),
      )

  try_quarantine-IsQuarantined :
      (id : String) (a : CacheApproval) (artifact : Artifact) (evidence : List String) (lane : Lane)
      (action : Action) (z : Result Lane) (r : Response)
      → NoRepeat [] (map (λ x. x.id) lane.store.artifacts)
      → IsFresh R D c w lane a artifact
      → begin w action lane ≡ z
      → (try_quarantine R D c w id a artifact evidence lane z).1 ≡ ok r
      → r.result ≡ "quarantined"
      → IsQuarantined r (try_quarantine R D c w id a artifact evidence lane z).0.store
  unfolding try_quarantine
  try_quarantine-IsQuarantined id a artifact evidence lane action (err text) r distinct is b h k =
      cc
  try_quarantine-IsQuarantined id a artifact evidence lane action (ok begun) r distinct is b h k =
      let (about, (old, listed, root)) = fresh-listed lane a artifact distinct is in
      let kept = begin_action-artifacts w action lane begun b in
      after_quarantine-IsQuarantined id a artifact (w.base a.destination) evidence _ _ old r about
        refl (ap (find_where (λ x. x.id) artifact.id) kept ∙ listed) root h k

  apply_kind-IsQuarantined :
      (id : String) (a : CacheApproval) (now : Instant) (lane : Lane) (r : Response)
      → NoRepeat [] (map (λ x. x.id) lane.store.artifacts)
      → (apply_kind R D c w "cleanup" id a now lane).1 ≡ ok r
      → r.result ≡ "quarantined"
      → IsQuarantined r (apply_kind R D c w "cleanup" id a now lane).0.store
  unfolding apply_kind apply_quarantine quarantine_checked string_eq nat_eq
  apply_kind-IsQuarantined id a now lane r distinct h k = elim (Bool-cases (a.kind != "cleanup")) [
    | inl other ↦ absurd (reject_action-rejected w id a _ now lane r (rw other at h) k)
    | inr same ↦ rw same (elim (Result-cases (fresh_cleanup_artifact R D c w lane a)) [
      | inr (text, e) ↦
          absurd (reject_action-rejected w id a text now lane r (rw e at (rw same at h)) k)
      | inl ((artifact, evidence), e) ↦ rw e (
          try_quarantine-IsQuarantined id a artifact evidence lane _ _ r distinct
            (fresh_cleanup_artifact-IsFresh R D c w lane a artifact evidence e) refl
            (rw e at (rw same at h)) k)
    ])
  ]

  apply_consumed-IsQuarantined :
      (consumed : Consumed CacheApproval) (id : Result String) (lane : Lane) (r : Response)
      → NoRepeat [] (map (λ x. x.id) lane.store.artifacts)
      → (apply_consumed R D c w "cleanup" consumed id lane).1 ≡ ok r
      → r.result ≡ "quarantined"
      → IsQuarantined r (apply_consumed R D c w "cleanup" consumed id lane).0.store
  unfolding apply_consumed
  apply_consumed-IsQuarantined (missing text) id lane r distinct h k = cc
  apply_consumed-IsQuarantined (denied a refusal) (err text) lane r distinct h k = cc
  apply_consumed-IsQuarantined (denied a refusal) (ok token) lane r distinct h k =
      absurd (reject_action-rejected w ("act_" <> token) a _ w.now_start lane r h k)
  apply_consumed-IsQuarantined (granted a) (err text) lane r distinct h k = cc
  apply_consumed-IsQuarantined (granted a) (ok token) lane r distinct h k =
      apply_kind-IsQuarantined ("act_" <> token) a w.now_start lane r distinct h k

  -- Where the id of each stored artifact stands once, as the primary key of the table demands, a cleanup
  -- request that is answered with "quarantined" leaves rows that agree with each other: the artifact's
  -- row and its quarantine pass the consistency check of a later restore or purge. The quarantine holds
  -- the identity that the rename gave, the manifest digest of that entry at its new path, the root and
  -- the path it came from, and the end of the grace period.
  pub apply_cache_approval-IsQuarantined :
      (token : String) (lane : Lane) (r : Response)
      → NoRepeat [] (map (λ x. x.id) lane.store.artifacts)
      → (apply_cache_approval R D c w "cleanup" token lane).1 ≡ ok r
      → r.result ≡ "quarantined"
      → IsQuarantined r (apply_cache_approval R D c w "cleanup" token lane).0.store
  unfolding apply_cache_approval
  apply_cache_approval-IsQuarantined token lane r distinct h k = elim (Bool-cases (token == "")) [
    | inl blank ↦ absurd (refused _ (rw blank at h))
    | inr given ↦ rw given (
        apply_consumed-IsQuarantined _ (w.new_token 12) (record lane { approvals = _ }) r distinct
          (rw given at h) k)
  ]
    where
      refused : (text : String) → err text ≢ ok r
      refused text e = cc
