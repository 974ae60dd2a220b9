-- ===== src/Classification/Conclusions.antt =====
-- When each state is concluded.
use ghostgc.Prelude.{
  ◌≡◌, ◌≢◌, ◌↔◌, ◌⊎◌, ◌<◌, ◌+◌, ◌≤◌, Bool, true, false, not, ◌&&◌, arith, String, refl, string_eq,
  if◌then◌else◌,
}
use ghostgc.Prelude.Time.{Instant, minutes, is_zero, sub, sub_ge, le-sub}
use ghostgc.Prelude.Int
use ghostgc.Prelude.Runtime.{Runtime}
use ghostgc.Process.{zombie, stopped}
use ghostgc.Classification.{
  active, waiting, idle, hung, crashed, orphaned, unknown, Activity, Input, incomplete_reason,
  basis, basis_state, same_window, classify,
}

-- A reason that is not empty was not given.
skip :
    (b : Bool) (reason rest : String)
    → reason ≢ ""
    → (if b then reason else rest) ≡ ""
    → (b ≡ false) × (rest ≡ "")
skip true reason rest ne h = absurd (ne h)
skip false reason rest ne h = (refl, h)

module _ (R : Runtime) where
  -- Every kind of evidence is there.
  pub record IsComplete (a : Activity R) : Type 0 where
    pub taken : 0 < a.taken
    pub baseline : a.baseline_ok ≡ true
    pub cpu : a.cpu_known ≡ true
    pub io : a.io_known ≡ true
    pub files : a.files_known ≡ true
    pub sockets : a.sockets_known ≡ true

  pub incomplete_reason_iff : (a : Activity R) → (incomplete_reason R a ≡ "") ↔ IsComplete a
  unfolding incomplete_reason
  incomplete_reason_iff a = (
    λ h.
        let (taken, h1) =
          skip (is_zero a.taken) "activity sample time is unavailable" _ (λ e. cc) h in
        let (baseline, h2) =
          skip (not a.baseline_ok) "activity has no valid exact-key baseline" _ (λ e. cc) h1 in
        let (cpu, h3) = skip (not a.cpu_known) "CPU activity is unavailable" _ (λ e. cc) h2 in
        let (io, h4) = skip (not a.io_known) "disk activity is unavailable" _ (λ e. cc) h3 in
        let (files, h5) =
          skip (not a.files_known) "open-file evidence is unavailable" _ (λ e. cc) h4 in
        let (sockets, _) =
          skip (not a.sockets_known) "socket evidence is unavailable" _ (λ e. cc) h5 in
        record {
          taken = ground arith;
          baseline = ground arith;
          cpu = ground arith;
          io = ground arith;
          files = ground arith;
          sockets = ground arith;
        },
    λ h. ground arith,
  )

  basis_range :
      (a : Activity R)
      → (basis_state R a ≡ active) ⊎ (basis_state R a ≡ waiting) ⊎ (basis_state R a ≡ idle)
  unfolding basis_state basis
  basis_range a = ground arith

  -- The evidence up to the sample has been stable for at least five minutes.
  abbrev pub IsStrong : Input R → Type 0
  IsStrong i = (classify R i).stable_since + 300000000000 ≤ i.activity.taken

  -- The sample supports a conclusion: no zombie, and complete evidence.
  abbrev pub IsUsable : Input R → Type 0
  IsUsable i = (i.status ≢ zombie) × IsComplete i.activity

  pub since-classify :
      (i : Input R)
      → IsUsable i
      → (classify R i).stable_since
        ≡ (if same_window R i then i.previous.stable_since else i.activity.taken)
  unfolding classify
  since-classify i u = ground (arith, (incomplete_reason_iff i.activity).1 u.1)

  -- What the conclusions rest on: the reason of a gap, the basis, and the measure of the window.
  abbrev since : Input R → Instant
  since i = if same_window R i then i.previous.stable_since else i.activity.taken

  abbrev Facts : Input R → Type 0
  Facts i =
      ((incomplete_reason R i.activity ≡ "") ↔ IsComplete i.activity)
      × ((basis_state R i.activity ≡ active)
          ⊎ (basis_state R i.activity ≡ waiting)
          ⊎ (basis_state R i.activity ≡ idle))
      × (Int.ltb (sub i.activity.taken (since i)) (minutes 5) ≡ false
          → since i + 300000000000 ≤ i.activity.taken)
      × (since i + 300000000000 ≤ i.activity.taken
          → Int.ltb (sub i.activity.taken (since i)) (minutes 5) ≡ false)

  facts : (i : Input R) → Facts i
  facts i = (
    incomplete_reason_iff i.activity,
    basis_range i.activity,
    sub_ge i.activity.taken (since i) 300000000000,
    le-sub i.activity.taken (since i) 300000000000 (omega arith),
  )

  -- A process is concluded orphaned exactly when its evidence is complete, its session ended, it is
  -- detached, it shows neither progress nor a live resource, and that has been stable for five
  -- minutes.
  pub orphaned_iff :
      (i : Input R)
      → ((classify R i).state ≡ orphaned) ↔ (
          IsUsable i
          × (i.session_ended ≡ true)
          × (i.detached ≡ true)
          × (basis_state R i.activity ≡ idle)
          × IsStrong i)
  unfolding classify basis_state
  orphaned_iff i = (ground (arith, facts i), ground (arith, facts i))

  -- A process is concluded hung exactly when it is stopped with complete evidence of no progress,
  -- stable for five minutes, and is not both detached and of an ended session.
  pub hung_iff :
      (i : Input R)
      → ((classify R i).state ≡ hung) ↔ (
          (i.status ≡ stopped)
          × IsComplete i.activity
          × (basis_state R i.activity ≢ active)
          × IsStrong i
          × (i.session_ended && i.detached ≡ false))
  unfolding classify basis_state
  hung_iff i = (ground (arith, facts i), ground (arith, facts i))

  -- Without a zombie and with a gap in the evidence the conclusion is unknown, and never otherwise;
  -- a zombie is crashed, and nothing else is.
  pub unknown_iff :
      (i : Input R)
      → (((classify R i).state ≡ unknown) ↔ ((i.status ≢ zombie) × ¬ IsComplete i.activity))
        × (((classify R i).state ≡ crashed) ↔ (i.status ≡ zombie))
  unfolding classify basis_state
  unknown_iff i = (
    (ground (arith, facts i), ground (arith, facts i)),
    (ground (arith, facts i), ground (arith, facts i)),
  )

  -- What a result repeats of its input, and what a basis of no progress says.
  pub fields-classify :
      (i : Input R)
      → ((classify R i).detached ≡ i.detached)
        × ((classify R i).session_ended ≡ i.session_ended)
        × ((classify R i).basis ≡ idle → IsUsable i × (basis_state R i.activity ≡ idle))
        × (IsUsable i → (classify R i).basis ≡ basis_state R i.activity)
  unfolding classify basis_state
  fields-classify i = (ground arith, ground arith, ground (arith, facts i), ground (arith, facts i))
