-- ===== src/Process/Tree/Ancestors.antt =====
-- `Ancestors`: the walk upward through believed links.
use ghostgc.Prelude.{
  ℕ, zero, suc, ◌≡◌, refl, false, some, List, [], ◌∷◌, ◌++◌, arith, ◌!=◌, ◌≤◌, contains, ◌⊎◌, inl,
  inr, All, Bool-cases, Option-cases, length, NoRepeat,
}
use mathlib.Core.List.{append_assoc, append-nil}
use native.Mathlib.Nat.{le_refl}
use ghostgc.Prelude.Int.{ℤ, int_eq}
use ghostgc.Prelude.Time.{Instant}
use ghostgc.Process.{Process, Snapshot, new_snapshot, by_pid}
use ghostgc.Process.Snapshots.{by_pid-new_snapshot}
use ghostgc.Process.Tree.{
  Tree, intact, link_eq, build_tree, link, tree_by_pid, walk_up, ancestors, max_tree_depth,
}
use ghostgc.Process.Tree.Links.{IsBelieved, intact-IsBelieved, link-build_tree, build_tree-snap}

-- The list from a process upward: each step is a believed link of the process found at the PID.
abbrev pub Climbs : Snapshot → ℤ → List ℤ → Type 0
Climbs s cur [] = Unit
Climbs s cur (a ∷ above) =
    ((p : Process) × (by_pid s cur ≡ some p) × (p.ppid ≡ a) × IsBelieved s p) × Climbs s a above

walk_up-out :
    (t : Tree) (depth : ℕ) (seen out : List ℤ) (cur : ℤ)
    → walk_up t depth seen out cur ≡ out ++ walk_up t depth seen [] cur
unfolding walk_up
walk_up-out t zero seen out cur = rw append-nil
walk_up-out t (suc depth) seen out cur = elim (Option-cases (tree_by_pid t.snap cur)) [
  | inl gone ↦ ground (arith, append-nil out)
  | inr (p, found) ↦ ground (
    arith,
    append-nil out,
    append_assoc out (p.ppid ∷ []) (walk_up t depth (p.ppid ∷ seen) [] p.ppid),
    walk_up-out t depth (p.ppid ∷ seen) (out ++ (p.ppid ∷ [])) p.ppid,
    walk_up-out t depth (p.ppid ∷ seen) (p.ppid ∷ []) p.ppid,
  )
]

-- One step of the walk, when it goes on to the parent of p.
Goes : Tree → List ℤ → ℤ → Process → Type 0
Goes t seen cur p =
    (tree_by_pid t.snap cur ≡ some p) × (link t cur ≡ intact) × (contains seen p.ppid ≡ false)

walk_up-cases :
    (t : Tree) (depth : ℕ) (seen : List ℤ) (cur : ℤ)
    → (walk_up t (suc depth) seen [] cur ≡ [])
      ⊎ ((p : Process) × Goes t seen cur p
          × (walk_up t (suc depth) seen [] cur
              ≡ p.ppid ∷ walk_up t depth (p.ppid ∷ seen) [] p.ppid))
unfolding walk_up Goes
walk_up-cases t depth seen cur = elim (Option-cases (tree_by_pid t.snap cur)) [
  | inl gone ↦ inl (ground arith)
  | inr (p, found) ↦ elim (Bool-cases (link t cur != intact)) [
    | inl cut ↦ inl (ground arith)
    | inr kept ↦ elim (Bool-cases (contains seen p.ppid)) [
      | inl old ↦ inl (ground arith)
      | inr new ↦ inr (
        p,
        (found, ground arith, new),
        ground (arith, walk_up-out t depth (p.ppid ∷ seen) (p.ppid ∷ []) p.ppid),
      )
    ]
  ]
]

walk_up-NoRepeat :
    (t : Tree) (depth : ℕ) (seen : List ℤ) (cur : ℤ) → NoRepeat seen (walk_up t depth seen [] cur)
walk_up-NoRepeat t zero seen cur = unfold walk_up in tt
walk_up-NoRepeat t (suc depth) seen cur = elim (walk_up-cases t depth seen cur) [
  | inl e ↦ rw e tt
  | inr (p, goes, e) ↦ rw e (unfold Goes in goes.2, walk_up-NoRepeat t depth (p.ppid ∷ seen) p.ppid)
]

length-walk_up :
    (t : Tree) (depth : ℕ) (seen : List ℤ) (cur : ℤ) → length (walk_up t depth seen [] cur) ≤ depth
length-walk_up t zero seen cur = unfold walk_up in omega arith
length-walk_up t (suc depth) seen cur = elim (walk_up-cases t depth seen cur) [
  | inl e ↦ rw e (omega arith)
  | inr (p, goes, e) ↦ rw e (omega (arith, length-walk_up t depth (p.ppid ∷ seen) p.ppid))
]

-- The ancestors of a PID are at most 128, none occurs twice, and the PID is not among them,
-- whatever the tree.
pub ancestors_bounded :
    (t : Tree) (pid : ℤ)
    → (length (ancestors t pid) ≤ max_tree_depth) × NoRepeat (pid ∷ []) (ancestors t pid)
unfolding ancestors
ancestors_bounded t pid =
    (length-walk_up t 128 (pid ∷ []) pid, walk_up-NoRepeat t 128 (pid ∷ []) pid)

module _ (taken : Instant) (ps : List Process) (total : ℤ) where
  abbrev snap : Snapshot
  snap = new_snapshot taken ps total

  Goes-IsBelieved :
      (seen : List ℤ) (cur : ℤ) (p : Process)
      → Goes (build_tree (some snap)) seen cur p
      → (by_pid snap cur ≡ some p) × IsBelieved snap p
  unfolding Goes tree_by_pid new_snapshot
  Goes-IsBelieved seen cur p g =
      let found : by_pid snap cur ≡ some p = ground (arith, build_tree-snap snap, g.0) in
      (
        found,
        intact-IsBelieved snap p
            (ground (arith, g.1, link-build_tree snap cur, by_pid-new_snapshot taken ps total cur)),
      )

  walk_up-Climbs :
      (depth : ℕ) (seen : List ℤ) (cur : ℤ)
      → Climbs snap cur (walk_up (build_tree (some snap)) depth seen [] cur)
  walk_up-Climbs zero seen cur = unfold walk_up in tt
  walk_up-Climbs (suc depth) seen cur =
      elim (walk_up-cases (build_tree (some snap)) depth seen cur) [
        | inl e ↦ rw e tt
        | inr (p, goes, e) ↦ rw e (
          (p, (Goes-IsBelieved seen cur p goes).0, refl, (Goes-IsBelieved seen cur p goes).1),
          walk_up-Climbs depth (p.ppid ∷ seen) p.ppid,
        )
      ]

  -- In the tree of a snapshot each ancestor is reached from the one before it (the first from the
  -- PID itself) by a believed link: the process at the lower PID names it as its parent, the
  -- snapshot has that parent, and the parent did not start later.
  pub ancestors-Climbs : (pid : ℤ) → Climbs snap pid (ancestors (build_tree (some snap)) pid)
  unfolding ancestors
  ancestors-Climbs pid = walk_up-Climbs 128 (pid ∷ []) pid

  -- The process at `a` did not start after the instant `t`.
  abbrev pub StartedBy : Instant → ℤ → Type 0
  StartedBy t a = (q : Process) × (by_pid snap a ≡ some q) × (q.start_time ≤ t)

  Climbs-StartedBy :
      (above : List ℤ) (cur : ℤ) (p : Process)
      → by_pid snap cur ≡ some p
      → (t : Instant) → p.start_time ≤ t
      → Climbs snap cur above
      → All (StartedBy t) above
  Climbs-StartedBy [] cur p found t le c = tt
  Climbs-StartedBy (a ∷ above) cur p found t le ((q, found', ppid_eq, b), rest) =
      let parent_found : by_pid snap a ≡ some b.parent = ground (arith, b.found) in
      let older : b.parent.start_time ≤ t = ground (arith, b.no_younger) in
      ((b.parent, parent_found, older), Climbs-StartedBy above a b.parent parent_found t older rest)

  -- No ancestor of a process of the snapshot started after it: a recycled PID never becomes an
  -- ancestor of a process that is older than its new owner.
  pub ancestors-StartedBy :
      (pid : ℤ) (p : Process)
      → by_pid snap pid ≡ some p
      → All (StartedBy p.start_time) (ancestors (build_tree (some snap)) pid)
  ancestors-StartedBy pid p found =
      Climbs-StartedBy _ pid p found p.start_time (le_refl _) (ancestors-Climbs pid)
