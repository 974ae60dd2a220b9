-- ===== src/Cache/Evaluation/Stability.antt =====
-- A cache artifact is recommended only after a run of observations that all saw it unchanged.
use ghostgc.Prelude.{
  ◌≡◌, ◌≢◌, ◌⊎◌, inl, inr, ◌∙◌, sym, ap, refl, true, false, Option, none, some, string_eq,
  if◌then◌else◌, arith, ◌||◌, ◌&&◌, ◌==◌, Bool-cases, Option-cases,
}
use ghostgc.Prelude.Int.{ℤ, pos, negsuc, ◌≤ℤ◌}
use ghostgc.Prelude.Int
use ghostgc.Prelude.Time.{Instant, sub, unix, unix_nano}
use ghostgc.Prelude.Runtime.{Runtime}
use ghostgc.Config.{recommend, mode_eq}
use ghostgc.Cache.{
  protected, recommended, lifecycle_eq, Artifact, CachePolicy, CacheConfig, Digests,
}
use ghostgc.Cache.Evaluation.{
  stable_history_eligible, enabled_policy, size_in_bounds, with_reason, first_seen, with_history,
  settle, under_policy, stable_candidate, is_first, evaluate,
}

module _ (R : Runtime) (D : Digests) where
  -- It saw the artifact unprotected and in the size bound, the stable window is over, and the lane and
  -- the enabled policy, which the record names, both recommend.
  pub record IsRecommended (c : CacheConfig) (now : Instant) (seen : Artifact) (a : Artifact)
      : Type 0 where
    pub unprotected : seen.lifecycle ≢ protected
    pub sized : (pos 0 ≤ℤ seen.identity.size) × (seen.identity.size ≤ℤ c.max_bytes_per_action)
    pub stable : c.min_stable ≤ℤ sub now (unix a.stable_since_ns)
    pub lane : c.global_mode ≡ recommend
    pub policy : CachePolicy
    pub enabled : enabled_policy c.policies ≡ some policy
    pub policy_mode : policy.mode ≡ recommend
    pub policy_named : a.policy_id ≡ policy.id

  under_policy-recommended :
      (c : CacheConfig) (a : Artifact) (o : Option CachePolicy)
      → a.lifecycle ≢ recommended
      → (under_policy R D c a o).0.lifecycle ≡ recommended
      → (c.global_mode ≡ recommend)
        × ((p : CachePolicy) × (o ≡ some p)
            × (p.mode ≡ recommend)
            × ((under_policy R D c a o).0.policy_id ≡ p.id))
  unfolding under_policy
  under_policy-recommended c a none n h = absurd (n h)
  under_policy-recommended c a (some p) n h = (ground arith, (p, refl, ground arith, ground arith))

  unfoldable pub before : CacheConfig → Instant → Artifact → Option Artifact → Artifact
  before c now seen previous = with_history previous (first_seen D c now seen)

  pub first_seen-digests :
      (c : CacheConfig) (now : Instant) (seen : Artifact)
      → ((first_seen D c now seen).identity_digest ≡ seen.identity_digest)
        × ((first_seen D c now seen).manifest_digest ≡ seen.manifest_digest)
        × ((first_seen D c now seen).stable_since_ns ≡ unix_nano now)
        × ((first_seen D c now seen).lifecycle
            ≡ (if size_in_bounds c seen then seen.lifecycle else protected))
  unfolding first_seen with_reason size_in_bounds
  first_seen-digests c now seen = elim (Bool-cases (size_in_bounds c seen)) [
    | inl e ↦ rw e (refl, refl, refl, refl)
    | inr e ↦ rw e (refl, refl, refl, refl)
  ]

  before-digests :
      (c : CacheConfig) (now : Instant) (seen : Artifact) (previous : Option Artifact)
      → ((before c now seen previous).identity_digest ≡ seen.identity_digest)
        × ((before c now seen previous).manifest_digest ≡ seen.manifest_digest)
        × ((before c now seen previous).lifecycle
            ≡ (if size_in_bounds c seen then seen.lifecycle else protected))
  unfolding before with_history
  before-digests c now seen none = let k = first_seen-digests c now seen in (k.0, k.1, k.3)
  before-digests c now seen (some prior) = let k = first_seen-digests c now seen in (k.0, k.1, k.3)

  under_policy-keeps :
      (c : CacheConfig) (a : Artifact) (o : Option CachePolicy)
      → ((under_policy R D c a o).0.identity_digest ≡ a.identity_digest)
        × ((under_policy R D c a o).0.manifest_digest ≡ a.manifest_digest)
        × ((under_policy R D c a o).0.stable_since_ns ≡ a.stable_since_ns)
  unfolding under_policy
  under_policy-keeps c a none = (refl, refl, refl)
  under_policy-keeps c a (some p) =
      elim (Bool-cases (c.global_mode == recommend && p.mode == recommend)) [
        | inl e ↦ rw e (refl, refl, refl)
        | inr e ↦ rw e (refl, refl, refl)
      ]

  under_policy-id :
      (c : CacheConfig) (a : Artifact) (o : Option CachePolicy)
      → (under_policy R D c a o).0.id ≡ a.id
  unfolding under_policy
  under_policy-id c a none = refl
  under_policy-id c a (some p) = ground arith

  -- The three outcomes of an evaluation.
  evaluate-cases :
      (c : CacheConfig) (now : Instant) (seen : Artifact) (previous : Option Artifact)
      → let a = before c now seen previous in
        let short =
          is_first R D previous || Int.ltb (sub now (unix a.stable_since_ns)) c.min_stable in
        ((a.lifecycle ≡ protected) × ((evaluate R D c now seen previous).0 ≡ a))
        ⊎ (((a.lifecycle ≢ protected)
              × (short ≡ true)
              × ((evaluate R D c now seen previous).0
                  ≡ settle R D c (sub now (unix a.stable_since_ns)) a))
            ⊎ ((a.lifecycle ≢ protected)
                × (short ≡ false)
                × ((evaluate R D c now seen previous).0
                    ≡ (under_policy R D c (stable_candidate R D a) (enabled_policy c.policies)).0)))
  unfolding evaluate before
  evaluate-cases c now seen previous =
      let a = with_history previous (first_seen D c now seen) in
      elim (lifecycle_eq.dec a.lifecycle protected) [
        | yes p ↦ let k : (a.lifecycle == protected) ≡ true = ground arith in inl (p, rw k refl)
        | no n ↦
            let k : (a.lifecycle == protected) ≡ false = ground arith in
            elim (Bool-cases
              (is_first R D previous || Int.ltb (sub now (unix a.stable_since_ns)) c.min_stable)) [
                | inl short ↦ inr (inl (n, short, rw (k, short) refl))
                | inr long ↦ inr (inr (n, long, rw (k, long) refl))
              ]
      ]

  -- A record whose stable window can go on comes from an observation that was not protected.
  pub evaluate-usable :
      (c : CacheConfig) (now : Instant) (seen : Artifact) (previous : Option Artifact)
      → stable_history_eligible (evaluate R D c now seen previous).0.lifecycle ≡ true
      → (seen.lifecycle ≢ protected) × (size_in_bounds c seen ≡ true)
  unfolding stable_history_eligible
  evaluate-usable c now seen previous h =
      let kept = (before-digests c now seen previous).2 in
      elim (evaluate-cases c now seen previous) [
        | inl (p, e) ↦ absurd (ground arith)
        | inr (inl (n, short, e)) ↦ ground arith
        | inr (inr (n, long, e)) ↦ ground arith
      ]

  pub evaluate-keeps :
      (c : CacheConfig) (now : Instant) (seen : Artifact) (previous : Option Artifact)
      → ((evaluate R D c now seen previous).0.identity_digest ≡ seen.identity_digest)
        × ((evaluate R D c now seen previous).0.manifest_digest ≡ seen.manifest_digest)
        × ((evaluate R D c now seen previous).0.stable_since_ns
            ≡ (before c now seen previous).stable_since_ns)
  unfolding settle stable_candidate with_reason
  evaluate-keeps c now seen previous =
      let (same, same', kept) = before-digests c now seen previous in
      elim (evaluate-cases c now seen previous) [
        | inl (p, e) ↦ rw e (same, same', refl)
        | inr (inl (n, short, e)) ↦ rw e (same, same', refl)
        | inr (inr (n, long, e)) ↦
            let a = stable_candidate R D (before c now seen previous) in
            let k = under_policy-keeps c a (enabled_policy c.policies) in
            rw e (k.0 ∙ same, k.1 ∙ same', k.2)
      ]

  -- An evaluation that recommends has all of its conditions.
  pub evaluate-IsRecommended :
      (c : CacheConfig) (now : Instant) (seen : Artifact) (previous : Option Artifact)
      → (evaluate R D c now seen previous).0.lifecycle ≡ recommended
      → (prior : Artifact) × (previous ≡ some prior)
        × IsRecommended c now seen (evaluate R D c now seen previous).0
  unfolding settle stable_candidate with_reason is_first size_in_bounds
  evaluate-IsRecommended c now seen previous h =
      let (same, same', kept) = before-digests c now seen previous in
      elim (evaluate-cases c now seen previous) [
        | inl (p, e) ↦ absurd (ground arith)
        | inr (inl (n, short, e)) ↦ absurd (ground arith)
        | inr (inr (n, long, e)) ↦ elim (Option-cases previous) [
          | inl first ↦ absurd (ground arith)
          | inr (prior, found) ↦
              let a = stable_candidate R D (before c now seen previous) in
              let (lane, (p, enabled, mode, named)) =
                under_policy-recommended c a (enabled_policy c.policies) (λ z. cc)
                  (ap (λ z. z.lifecycle) (sym e) ∙ h) in
              (
                prior,
                found,
                record {
                  unprotected = ground arith;
                  sized = ground arith;
                  stable = ground (arith, evaluate-keeps c now seen previous);
                  lane = lane;
                  policy = p;
                  enabled = enabled;
                  policy_mode = mode;
                  policy_named = ap (λ z. z.policy_id) e ∙ named;
                },
              )
        ]
      ]

  before-id :
      (c : CacheConfig) (now : Instant) (seen : Artifact) (previous : Option Artifact)
      → (before c now seen previous).id ≡ seen.id
  unfolding before with_history first_seen with_reason
  before-id c now seen none = ground arith
  before-id c now seen (some prior) = ground arith

  -- The evaluation of an artifact is about that artifact.
  pub evaluate-id :
      (c : CacheConfig) (now : Instant) (seen : Artifact) (previous : Option Artifact)
      → (evaluate R D c now seen previous).0.id ≡ seen.id
  unfolding settle stable_candidate with_reason
  evaluate-id c now seen previous =
      let same = before-id c now seen previous in
      elim (evaluate-cases c now seen previous) [
        | inl (p, e) ↦ rw e same
        | inr (inl (n, short, e)) ↦ rw e same
        | inr (inr (n, long, e)) ↦ rw e (
            under_policy-id c (stable_candidate R D (before c now seen previous))
              (enabled_policy c.policies)
            ∙ same)
      ]
