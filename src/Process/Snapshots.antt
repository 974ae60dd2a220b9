-- ===== src/Process/Snapshots.antt =====
-- The index of a snapshot against a search of its list.
use Prim.Native.Nat.add
use ghostgc.Prelude.{
  ◌↔◌, ℕ, suc, ◌+◌, ◌≡◌, refl, Option, none, some, List, [], ◌∷◌, arith, ◌==◌, if◌then◌else◌,
  get_elem?,
}
use ghostgc.Prelude.Int.{ℤ, int_eq}
use ghostgc.Process.{Process, Key, key, key_eq, new_snapshot, index_from, by_pid, by_key}
use ghostgc.Prelude.Time.{Instant}

-- The last process of the list that has the PID.
abbrev pub find_last : ℤ → List Process → Option Process
find_last pid [] = none
find_last pid (p ∷ ps) = elim (find_last pid ps) [
  | some q ↦ some q
  | none ↦ if pid == p.pid then some p else none
]

abbrev resolve : List Process → Option ℕ → Option Process
resolve ps none = none
resolve ps (some i) = get_elem? ps i

abbrev or : Option Process → Option Process → Option Process
or (some q) o = some q
or none o = o

shift :
    (all ps : List Process) (p : Process) (i : ℕ)
    → ((j : ℕ) → get_elem? all (i + j) ≡ get_elem? (p ∷ ps) j)
    → (j : ℕ) → get_elem? all (i + 1 + j) ≡ get_elem? ps j
shift all ps p i h j = let e : i + 1 + j ≡ i + suc j = omega arith in rw e (h (suc j))

-- What the list gives from position i on, where `pre` stands before it.
index_from-resolve :
    (all ps : List Process) (i : ℕ) (index : ℤ → Option ℕ) (pid : ℤ)
    → ((j : ℕ) → get_elem? all (i + j) ≡ get_elem? ps j)
    → resolve all (index_from i ps index pid) ≡ or (find_last pid ps) (resolve all (index pid))
unfolding index_from
index_from-resolve all [] i index pid h = refl
index_from-resolve all (p ∷ ps) i index pid h = ground (
  arith,
  h 0,
  index_from-resolve all ps (i + 1) (λ q. if q == p.pid then some i else index q) pid
      (shift all ps p i h),
)

-- Looking a PID up through the index finds the last process of the list that has it.
pub by_pid-new_snapshot :
    (taken : Instant) (ps : List Process) (total pid : ℤ)
    → by_pid (new_snapshot taken ps total) pid ≡ find_last pid ps
unfolding by_pid new_snapshot
by_pid-new_snapshot taken ps total pid =
    ground (arith, index_from-resolve ps ps 0 (λ _. none) pid (λ j. rw add.zero))

find_last-pid :
    (pid : ℤ) (ps : List Process) (p : Process) → find_last pid ps ≡ some p → p.pid ≡ pid
find_last-pid pid [] p h = cc
find_last-pid pid (q ∷ ps) p h = ground (arith, find_last-pid pid ps p)

-- A look-up by key gives a process with exactly that PID and start time, and it is the last of
-- the snapshot with the PID; where that last process started at another time there is no answer.
pub by_key_iff :
    (taken : Instant) (ps : List Process) (total : ℤ) (k : Key) (p : Process)
    → (by_key (new_snapshot taken ps total) k ≡ some p)
      ↔ ((find_last k.pid ps ≡ some p) × (key p ≡ k))
unfolding by_key
by_key_iff taken ps total k p = ground (arith, by_pid-new_snapshot taken ps total k.pid)
