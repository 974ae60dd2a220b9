-- ===== src/Tests/Trees.antt =====
-- The process model on the sample processes.
use native.Mathlib.Decide.{ℕ_discrete}
use ghostgc.Prelude.{
  ◌≡◌, ◌≤◌, ◌↔◌, refl, true, ◌||◌, some, [], ◌∷◌, All, NoRepeat, length, contains, arith, nat_eq,
  ◌-◌,
}
use ghostgc.Prelude.Int.{pos, int_eq, ◌≤ℤ◌}
use ghostgc.Process.{key, key_eq, by_pid, by_key, new_snapshot}
use ghostgc.Process.Snapshots.{find_last, by_pid-new_snapshot, by_key_iff}
use ghostgc.Process.Tree.{
  Tree, build_tree, ancestors, descendants, max_tree_depth, link_eq, classify_link,
}
use ghostgc.Process.Tree.Ancestors.{
  Climbs, StartedBy, ancestors_bounded, ancestors-Climbs, ancestors-StartedBy,
}
use ghostgc.Process.Tree.Descendants.{Below, descendants-NoRepeat, descendants-Below}
use ghostgc.Process.Tree.Completeness.{Down, descendants_complete}
use ghostgc.Process.Activity.{derive_activity, Comparable, derive_activity-known}
use ghostgc.Process.Keys.{uid, parse_key, IsInt64, parse_key-uid}
use ghostgc.Tests.Samples.{
  go, go-IsDecimal, leaf, worker, worker_key, processes, now, snapshot, sample,
}

abbrev tree : Tree
tree = build_tree (some snapshot)

leaf_found : by_pid snapshot (pos 43) ≡ some leaf
unfolding by_pid new_snapshot int_eq ℕ_discrete
leaf_found = refl

leaf_ancestors : ancestors tree (pos 43) ≡ pos 41 ∷ pos 40 ∷ []
unfolding ancestors build_tree by_pid new_snapshot int_eq nat_eq link_eq classify_link
leaf_ancestors = refl

root_descendants : descendants tree (pos 40) ≡ pos 41 ∷ pos 43 ∷ []
unfolding descendants build_tree by_pid new_snapshot int_eq link_eq classify_link ℕ_discrete
root_descendants = refl

by_pid-new_snapshot_example :
    by_pid (new_snapshot now processes (pos 4)) (pos 41) ≡ find_last (pos 41) processes
by_pid-new_snapshot_example = by_pid-new_snapshot now processes (pos 4) (pos 41)

by_key_iff_example :
    (by_key (new_snapshot now processes (pos 4)) worker_key ≡ some worker)
    ↔ ((find_last (pos 42) processes ≡ some worker) × (key worker ≡ worker_key))
by_key_iff_example = by_key_iff now processes (pos 4) worker_key worker

ancestors_bounded_example :
    (length (ancestors tree (pos 43)) ≤ max_tree_depth)
    × NoRepeat (pos 43 ∷ []) (ancestors tree (pos 43))
ancestors_bounded_example = ancestors_bounded tree (pos 43)

ancestors-Climbs_example : Climbs snapshot (pos 43) (ancestors tree (pos 43))
ancestors-Climbs_example = ancestors-Climbs now processes (pos 4) (pos 43)

ancestors-StartedBy_example :
    All (StartedBy now processes (pos 4) leaf.start_time) (ancestors tree (pos 43))
ancestors-StartedBy_example = ancestors-StartedBy now processes (pos 4) (pos 43) leaf leaf_found

descendants-NoRepeat_example : NoRepeat (pos 40 ∷ []) (descendants tree (pos 40))
descendants-NoRepeat_example = descendants-NoRepeat tree (pos 40)

descendants-Below_example : All (Below snapshot (pos 40)) (descendants tree (pos 40))
descendants-Below_example = descendants-Below snapshot (pos 40)

leaf-Down : Down tree 2 (pos 40) (pos 43)
unfolding build_tree int_eq by_pid new_snapshot link_eq classify_link ℕ_discrete
leaf-Down = (pos 41, refl, (pos 43, refl, refl))

descendants_complete_example : contains (descendants tree (pos 40)) (pos 43) ≡ true
descendants_complete_example =
    descendants_complete tree (pos 40) (pos 43) 2 leaf-Down (omega arith) (λ e. cc)

derive_activity-known_example :
    let earlier = sample (now - 60000000000) in
    let later = sample now in
    let d = derive_activity go earlier later in
    ((d.cpu_known ≡ true) ↔ (
      Comparable go earlier later
      × (earlier.cpu_known ≡ true)
      × (later.cpu_known ≡ true)
      × (earlier.cpu_time ≤ℤ later.cpu_time)))
    × ((d.io_known ≡ true) ↔ (
        Comparable go earlier later
        × (earlier.io_known ≡ true)
        × (later.io_known ≡ true)
        × (earlier.disk_read_bytes ≤ later.disk_read_bytes)
        × (earlier.disk_written_bytes ≤ later.disk_written_bytes)))
    × (d.baseline_ok ≡ (d.cpu_known || d.io_known))
derive_activity-known_example = derive_activity-known go (sample (now - 60000000000)) (sample now)

parse_key-uid_example :
    (parse_key go (uid go worker_key) ≡ some worker_key)
    ↔ (IsInt64 worker_key.pid × IsInt64 worker_key.start_time_ns)
parse_key-uid_example = parse_key-uid go worker_key go-IsDecimal
