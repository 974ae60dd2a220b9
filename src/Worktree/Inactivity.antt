-- ===== src/Worktree/Inactivity.antt =====
-- A worktree is stale only after a continuous run of inactive scans.
use ghostgc.Prelude.{
  ◌≡◌, ◌∙◌, sym, refl, ◌↔◌, ◌⊎◌, inl, inr, ◌≤◌, true, false, List, [], ◌∷◌, string_eq, nat_eq,
  if◌then◌else◌, is_empty, arith, Bool-cases,
}
use ghostgc.Prelude.Int.{double, ◌≤ℤ◌}
use ghostgc.Prelude.Time.{Instant, sub}
use ghostgc.Worktree.{
  State, observing, stale, Record, Conclusion, Scan, is_continuous, inactive_from, continue,
  inactive, classify, remember, no_record, prior, state_eq,
}

-- The scan saw everything, and nothing keeps the worktree from being inactive.
pub record IsInactive (s : Scan) : Type 0 where
  pub present : s.seen.present ≡ true
  pub kept : s.seen.prunable ≡ false
  pub all_seen : s.all_seen ≡ true
  pub complete : s.seen.complete ≡ true
  pub canonical : s.seen.canonical ≡ true
  pub not_busy : s.busy ≡ false
  pub unprotected : is_empty s.seen.protection ≡ true

-- The later scan goes on with the earlier one: one worktree, one daemon run, the same content, and at
-- most two scan intervals between them.
pub record Follows (earlier later : Scan) : Type 0 where
  pub same_id : earlier.seen.id ≡ later.seen.id
  pub same_run : earlier.daemon_started ≡ later.daemon_started
  pub in_order : earlier.now ≤ later.now
  pub close : sub later.now earlier.now ≤ℤ double later.scan_interval
  pub same_head : earlier.seen.head ≡ later.seen.head
  pub same_ref : earlier.seen.ref ≡ later.seen.ref
  pub same_status : earlier.seen.fingerprint ≡ later.seen.fingerprint
  pub not_moved : later.moved ≡ false

-- The record that the scans leave, newest first, and what a scan after them concludes.
unfoldable pub left_by : List Scan → Record
left_by [] = no_record
left_by (s ∷ older) = remember s (classify (prior s.moved (left_by older)) s)

abbrev pub conclude : Scan → List Scan → Conclusion
conclude s older = classify (prior s.moved (left_by older)) s

-- Back from a scan to the one at `since`, every scan is inactive and follows the one before it.
abbrev pub InactiveSince : Instant → Scan → List Scan → Type 0
InactiveSince since s [] = IsInactive s × (s.now ≡ since)
InactiveSince since s (t ∷ older) =
    IsInactive s × ((s.now ≡ since) ⊎ (Follows t s × InactiveSince since t older))

-- The state is one of a worktree that is inactive.
abbrev pub IsQuietState : State → Type 0
IsQuietState state = (state ≡ observing) ⊎ (state ≡ stale)

classify-IsInactive :
    (r : Record) (s : Scan)
    → IsQuietState (classify r s).state
    → IsInactive s
      × ((classify r s).inactive_since ≡ (if is_continuous r s then inactive_from r s else s.now))
unfolding classify inactive continue
classify-IsInactive r s h = (ground arith, ground arith)

-- A stale conclusion is reached exactly for an inactive scan that goes on with a record, once the
-- inactivity has lasted for the configured time.
pub stale_iff :
    (r : Record) (s : Scan)
    → ((classify r s).state ≡ stale) ↔ (
        IsInactive s
        × (is_continuous r s ≡ true)
        × (s.stale_after ≤ℤ sub s.now (inactive_from r s)))
unfolding classify inactive continue
stale_iff r s = (ground arith, ground arith)

continuous-Follows :
    (s t : Scan) (older : List Scan)
    → is_continuous (prior s.moved (left_by (t ∷ older))) s ≡ true
    → Follows t s × IsQuietState (conclude t older).state
unfolding is_continuous prior left_by remember
continuous-Follows s t older h = (ground arith, ground arith)

inactive_from-cases :
    (s t : Scan) (older : List Scan)
    → (inactive_from (prior s.moved (left_by (t ∷ older))) s ≡ s.now)
      ⊎ (inactive_from (prior s.moved (left_by (t ∷ older))) s ≡ (conclude t older).inactive_since)
unfolding inactive_from prior left_by remember
inactive_from-cases s t older = ground arith

no_record-continuous : (s : Scan) → is_continuous (prior s.moved no_record) s ≡ false
unfolding is_continuous prior
no_record-continuous s = ground arith

quiet-InactiveSince :
    (s : Scan) (older : List Scan) (since : Instant)
    → IsQuietState (conclude s older).state
    → (conclude s older).inactive_since ≡ since
    → InactiveSince since s older
unfolding left_by
quiet-InactiveSince s [] since q e =
    let (i, from) = classify-IsInactive (prior s.moved no_record) s q in
    (i, ground (arith, from, e, no_record-continuous s))
quiet-InactiveSince s (t ∷ older) since q e =
    let r = prior s.moved (left_by (t ∷ older)) in
    let (i, from) = classify-IsInactive r s q in
    elim (Bool-cases (is_continuous r s)) [
      | inr new ↦ (i, inl (sym (rw new at from) ∙ e))
      | inl kept ↦
          let (follows, q') = continuous-Follows s t older kept in
          let from' = rw kept at from in
          elim (inactive_from-cases s t older) [
            | inl begins ↦ (i, inl (sym begins ∙ sym from' ∙ e))
            | inr goes_on ↦ (
              i,
              inr (follows, quiet-InactiveSince t older since q' (sym goes_on ∙ sym from' ∙ e)),
            )
          ]
    ]

-- A worktree is concluded stale only if, back to the scan that its inactivity counts from, every scan
-- saw it complete, canonical, unprotected and not in use, each following the one before it within
-- two scan intervals with the same HEAD, reference, status and daemon run; and that inactivity has
-- lasted for at least the configured time.
pub stale_history :
    (s : Scan) (older : List Scan)
    → (conclude s older).state ≡ stale
    → let since = (conclude s older).inactive_since in
      InactiveSince since s older × (s.stale_after ≤ℤ sub s.now since)
stale_history s older h =
    let r = prior s.moved (left_by older) in
    let (i, c, long) = (stale_iff r s).0 h in
    let from = (classify-IsInactive r s (inr h)).1 in
    (
      quiet-InactiveSince s older (conclude s older).inactive_since (inr h) refl,
      ground (arith, long, rw c at from),
    )
