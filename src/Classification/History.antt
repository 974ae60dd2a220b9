-- ===== src/Classification/History.antt =====
-- The conclusions over the samples of one process, as daemon/classification.go chains them: each
-- batch keeps the result of the process, and the next sample is compared with it.
use ghostgc.Prelude.{
  ◌≡◌, ◌∙◌, sym, refl, ◌⊎◌, inl, inr, ◌<◌, ◌≤◌, ◌+◌, true, false, List, [], ◌∷◌, arith, Bool-cases,
  if◌then◌else◌,
}
use ghostgc.Prelude.Int.{pos, double}
use ghostgc.Prelude.Int
use ghostgc.Prelude.Time.{Instant, never, sub, sub_pos}
use ghostgc.Prelude.Runtime.{Runtime}
use ghostgc.Process.{unknown}
use ghostgc.Classification.{
  idle, orphaned, unset, Previous, Input, Result, basis_state, same_window, classify,
}
use ghostgc.Classification.Conclusions.{IsUsable, since-classify, fields-classify, orphaned_iff}

-- A process of which nothing was kept.
abbrev pub zero_previous : Previous
zero_previous = record {
  key = record { pid = pos 0; start_time_ns = pos 0 };
  basis = unset;
  detached = false;
  session_ended = false;
  process_status = unknown;
  stable_since = never;
  sampled_at = never;
}

module _ (R : Runtime) where
  -- What the batch keeps of a sample and its result.
  unfoldable pub remember : Input R → Result → Previous
  remember i r = record {
    key = i.key;
    basis = r.basis;
    detached = r.detached;
    session_ended = r.session_ended;
    process_status = i.status;
    stable_since = r.stable_since;
    sampled_at = i.activity.taken;
  }

  -- The samples newest first; what each says of an earlier one is what was kept of that.
  unfoldable pub previous_of : List (Input R) → Previous
  previous_of [] = zero_previous
  previous_of (i ∷ older) =
      let i' = record i { previous = previous_of older } in remember i' (classify R i')

  abbrev pub chained : Input R → List (Input R) → Input R
  chained i older = record i { previous = previous_of older }

  -- Complete evidence of a detached process of an ended session that did nothing and held nothing.
  abbrev pub IsQuiet : Input R → Type 0
  IsQuiet i =
      IsUsable R i
      × (basis_state R i.activity ≡ idle)
      × (i.detached ≡ true)
      × (i.session_ended ≡ true)

  -- Back from a sample to the one taken at `since`, every sample is quiet, of the same process, and
  -- taken after the one before it, by at most twice the cadence.
  abbrev pub QuietSince : Instant → Input R → List (Input R) → Type 0
  QuietSince since i [] = IsQuiet i × (i.activity.taken ≡ since)
  QuietSince since i (j ∷ older) =
      IsQuiet i
      × ((i.activity.taken ≡ since)
          ⊎ ((j.key ≡ i.key)
              × (j.activity.taken < i.activity.taken)
              × (Int.leb (sub i.activity.taken j.activity.taken) (double i.evidence_cadence) ≡ true)
              × QuietSince since j older))

  -- What a kept window says of the kept sample.
  kept_window :
      (i j : Input R) (older : List (Input R))
      → same_window R (chained i (j ∷ older)) ≡ true
      → (j.key ≡ i.key)
        × ((classify R (chained j older)).basis ≡ basis_state R i.activity)
        × (j.detached ≡ i.detached)
        × (j.session_ended ≡ i.session_ended)
        × (j.activity.taken < i.activity.taken)
        × (Int.leb (sub i.activity.taken j.activity.taken) (double i.evidence_cadence) ≡ true)
  unfolding same_window previous_of remember
  kept_window i j older h =
      ground (arith, fields-classify R (chained j older), sub_pos i.activity.taken j.activity.taken)

  since-chained_first :
      (i : Input R) → IsUsable R i → (classify R (chained i [])).stable_since ≡ i.activity.taken
  unfolding same_window previous_of
  since-chained_first i u = ground (arith, since-classify R (chained i []) u)

  since-chained :
      (i j : Input R) (older : List (Input R))
      → IsUsable R i
      → (classify R (chained i (j ∷ older))).stable_since ≡ (
          if same_window R (chained i (j ∷ older))
          then (classify R (chained j older)).stable_since
          else i.activity.taken)
  unfolding previous_of remember
  since-chained i j older u = since-classify R (chained i (j ∷ older)) u

  quiet :
      (i : Input R) (older : List (Input R))
      → ((classify R (chained i older)).basis ≡ idle)
      → i.detached ≡ true
      → i.session_ended ≡ true
      → IsQuiet i
  quiet i older b d e = let f = (fields-classify R (chained i older)).2 b in (f.0, f.1, d, e)

  basis-QuietSince :
      (i : Input R) (older : List (Input R)) (since : Instant)
      → (classify R (chained i older)).stable_since ≡ since
      → (classify R (chained i older)).basis ≡ idle
      → i.detached ≡ true
      → i.session_ended ≡ true
      → QuietSince since i older
  basis-QuietSince i [] since s b d e =
      let q = quiet i [] b d e in (q, sym (since-chained_first i q.0) ∙ s)
  basis-QuietSince i (j ∷ older) since s b d e =
      let q = quiet i (j ∷ older) b d e in
      let from = sym s ∙ since-chained i j older q.0 in
      elim (Bool-cases (same_window R (chained i (j ∷ older)))) [
        | inl kept ↦
            let w = kept_window i j older kept in
            let from' = rw kept at from in
            (
              q,
              inr (
                w.0,
                w.4,
                w.5,
                basis-QuietSince j older since (sym from') (w.1 ∙ q.1) (w.2 ∙ d) (w.3 ∙ e),
              ),
            )
        | inr new ↦ let from' = rw new at from in (q, inl (sym from'))
      ]

  -- A process is concluded orphaned only after at least five minutes over which every sample, back
  -- to the one that the conclusion counts from, had complete evidence, was detached and of an ended
  -- session, showed no progress and no live resource, was of the same PID and start time, and
  -- followed the sample before it within twice the cadence.
  pub orphaned_history :
      (i : Input R) (older : List (Input R))
      → (classify R (chained i older)).state ≡ orphaned
      → let since = (classify R (chained i older)).stable_since in
        QuietSince since i older × (since + 300000000000 ≤ i.activity.taken)
  orphaned_history i older h =
      let (usable, ended, detached, still, strong) = (orphaned_iff R (chained i older)).0 h in
      (
        basis-QuietSince i older _ refl ((fields-classify R (chained i older)).3 usable ∙ still)
            detached ended,
        strong,
      )
