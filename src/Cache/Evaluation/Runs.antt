-- ===== src/Cache/Evaluation/Runs.antt =====
-- The record of one artifact over the evaluations and actions that touch it, and the run of
-- observations that its stable window stands for.
use ghostgc.Prelude.{
  ◌≡◌, ◌≢◌, ◌⊎◌, inl, inr, ◌∙◌, sym, ap, refl, true, false, String, Option, none, some, List, [],
  ◌∷◌, string_eq, arith, subst, Bool-cases, Option-cases,
}
use ghostgc.Prelude.Int.{ℤ, ◌≤ℤ◌}
use ghostgc.Prelude.Time.{Instant, sub, unix, unix_nano}
use ghostgc.Prelude.Runtime.{Runtime}
use ghostgc.Cache.{
  Lifecycle, protected, recommended, lifecycle_eq, Artifact, Identity, Quarantine, CacheConfig,
  Digests,
}
use ghostgc.Cache.Store.{mark_quarantined, mark_restored, mark_purged, mark_partial}
use ghostgc.Cache.Evaluation.{
  stable_history_eligible, first_seen, continues, with_history, evaluate,
}
use ghostgc.Cache.Evaluation.Stability.{
  IsRecommended, before, evaluate-usable, evaluate-keeps, evaluate-IsRecommended,
  first_seen-digests,
}

-- An evaluation that saw the artifact, or one that did not; or an action on it.
pub data Event : Type 0 where
  scanned : CacheConfig → Instant → Artifact → Event
  missed : Event
  quarantined_as : Quarantine → Event
  restored_as : Identity → String → ℤ → Event
  purged_now : Event
  partial_now : String → Event

abbrev changed : (Artifact → Artifact) → Option Artifact → Option Artifact
changed f none = none
changed f (some a) = some (f a)

unix-unix_nano : (t : Instant) → unix (unix_nano t) ≡ t
unfolding unix unix_nano
unix-unix_nano t = ground arith

recommended-eligible : (l : Lifecycle) → l ≡ recommended → stable_history_eligible l ≡ true
unfolding stable_history_eligible
recommended-eligible l h = ground arith

module _ (R : Runtime) (D : Digests) where
  -- The artifact's row in the newest evaluation, if it has one; events are newest first.
  unfoldable pub left_by : List Event → Option Artifact
  left_by [] = none
  left_by (scanned c t seen ∷ older) = some (evaluate R D c t seen (left_by older)).0
  left_by (missed ∷ older) = none
  left_by (quarantined_as item ∷ older) = changed (mark_quarantined D item) (left_by older)
  left_by (restored_as identity manifest now_ns ∷ older) =
      changed (mark_restored D identity manifest now_ns) (left_by older)
  left_by (purged_now ∷ older) = changed mark_purged (left_by older)
  left_by (partial_now reason ∷ older) = changed (mark_partial reason) (left_by older)

  -- Back to the time `since`, every event is an evaluation that saw the artifact with these digests and
  -- unprotected; only at `since` it may be a restoration to them.
  abbrev pub Unchanged : String → String → Instant → List Event → Type 0
  Unchanged identity manifest since [] = false ≡ true
  Unchanged identity manifest since (scanned c t seen ∷ older) =
      (seen.identity_digest ≡ identity)
      × (seen.manifest_digest ≡ manifest)
      × (seen.lifecycle ≢ protected)
      × ((t ≡ since) ⊎ Unchanged identity manifest since older)
  Unchanged identity manifest since (restored_as i m now_ns ∷ older) =
      (D.of_identity i ≡ identity) × (m ≡ manifest) × (unix now_ns ≡ since)
  Unchanged identity manifest since (missed ∷ older) = false ≡ true
  Unchanged identity manifest since (quarantined_as item ∷ older) = false ≡ true
  Unchanged identity manifest since (purged_now ∷ older) = false ≡ true
  Unchanged identity manifest since (partial_now reason ∷ older) = false ≡ true

  renamed :
      (es : List Event) {i i' m m' : String} {t t' : Instant}
      → Unchanged i m t es
      → i ≡ i'
      → m ≡ m'
      → t ≡ t'
      → Unchanged i' m' t' es
  renamed es {i} {i'} {m} {m'} {t} {t'} u e f g =
      subst (λ z. Unchanged z m' t' es) e
        (subst (λ z. Unchanged i z t' es) f (subst (λ z. Unchanged i m z es) g u))

  -- The window starts now, or goes on from an eligible record with the same digests.
  before-window :
      (c : CacheConfig) (now : Instant) (seen : Artifact) (previous : Option Artifact)
      → (unix (before R D c now seen previous).stable_since_ns ≡ now)
        ⊎ ((prior : Artifact) × (previous ≡ some prior)
            × (stable_history_eligible prior.lifecycle ≡ true)
            × (prior.identity_digest ≡ seen.identity_digest)
            × (prior.manifest_digest ≡ seen.manifest_digest)
            × ((before R D c now seen previous).stable_since_ns ≡ prior.stable_since_ns))
  unfolding before with_history continues
  before-window c now seen none =
      inl (ap unix (first_seen-digests R D c now seen).2 ∙ unix-unix_nano now)
  before-window c now seen (some prior) =
      let (same, same', new, kept) = first_seen-digests R D c now seen in
      elim (Bool-cases (continues prior (first_seen D c now seen))) [
        | inl on ↦ inr (prior, refl, ground arith, ground arith, ground arith, rw on refl)
        | inr off ↦ inl (ap unix (rw off new) ∙ unix-unix_nano now)
      ]

  left_by-Unchanged :
      (es : List Event) (a : Artifact)
      → left_by es ≡ some a
      → stable_history_eligible a.lifecycle ≡ true
      → Unchanged a.identity_digest a.manifest_digest (unix a.stable_since_ns) es
  unfolding left_by mark_restored mark_quarantined mark_purged mark_partial stable_history_eligible
  left_by-Unchanged [] a h l = cc
  left_by-Unchanged (missed ∷ older) a h l = cc
  left_by-Unchanged (scanned c t seen ∷ older) a h l =
      let b = (evaluate R D c t seen (left_by older)).0 in
      let e : b ≡ a = ground arith in
      let l' : stable_history_eligible b.lifecycle ≡ true =
        ap (λ z. stable_history_eligible z.lifecycle) e ∙ l in
      let (same, same', from) = evaluate-keeps R D c t seen (left_by older) in
      let usable = evaluate-usable R D c t seen (left_by older) l' in
      subst
        (λ z.
          Unchanged z.identity_digest z.manifest_digest (unix z.stable_since_ns)
            (scanned c t seen ∷ older))
        e
        (
          sym same,
          sym same',
          usable.0,
          elim (before-window c t seen (left_by older)) [
            | inl now ↦ inl (sym now ∙ ap unix (sym from))
            | inr (prior, found, fit, one, two, kept) ↦ inr (
                renamed older (left_by-Unchanged older prior found fit) (one ∙ sym same)
                  (two ∙ sym same') (ap unix (sym kept ∙ sym from)))
          ],
        )
  left_by-Unchanged (restored_as i m now_ns ∷ older) a h l = elim (Option-cases (left_by older)) [
    | inl e ↦ absurd (ground arith)
    | inr (prior, e) ↦
        let r : mark_restored D i m now_ns prior ≡ a = ground arith in
        subst
          (λ z.
            Unchanged z.identity_digest z.manifest_digest (unix z.stable_since_ns)
              (restored_as i m now_ns ∷ older))
          r (refl, refl, refl)
  ]
  left_by-Unchanged (quarantined_as item ∷ older) a h l = absurd (ground arith)
  left_by-Unchanged (purged_now ∷ older) a h l = absurd (ground arith)
  left_by-Unchanged (partial_now reason ∷ older) a h l = absurd (ground arith)

  -- A recommended artifact was there before: back over at least the stable window there is an
  -- unbroken run of evaluations that all saw it, with the identity and the manifest that it has now,
  -- and unprotected; only where the run begins there may be its restoration instead. It is
  -- unprotected and in the size bound, and the lane and the first enabled policy both recommend.
  pub recommended_history :
      (c : CacheConfig) (now : Instant) (seen : Artifact) (older : List Event)
      → (evaluate R D c now seen (left_by older)).0.lifecycle ≡ recommended
      → (since : Instant) × (c.min_stable ≤ℤ sub now since)
        × Unchanged seen.identity_digest seen.manifest_digest since (scanned c now seen ∷ older)
        × IsRecommended R D c now seen (evaluate R D c now seen (left_by older)).0
  unfolding left_by
  recommended_history c now seen older h =
      let a = (evaluate R D c now seen (left_by older)).0 in
      let (prior, found, is) = evaluate-IsRecommended R D c now seen (left_by older) h in
      let (same, same', from) = evaluate-keeps R D c now seen (left_by older) in
      let fit : stable_history_eligible a.lifecycle ≡ true = recommended-eligible a.lifecycle h in
      let run = left_by-Unchanged (scanned c now seen ∷ older) a refl fit in
      (
        unix a.stable_since_ns,
        is.stable,
        renamed (scanned c now seen ∷ older) run same same' refl,
        is,
      )
