-- ===== src/Process/Tree/Links.antt =====
-- What the maps of a built tree hold, against the snapshot that it was built from.
use mathlib.Core.List.{Memᴰ}
use ghostgc.Prelude.{
  ◌≡◌, refl, Option, none, some, List, [], ◌∷◌, arith, ◌==◌, ◌≤◌, ◌≢◌, inl, inr, All, All-append,
  Bool-cases, ◌&&◌,
}
use ghostgc.Prelude.Int.{ℤ, int_eq}
use ghostgc.Process.{Process, Snapshot, by_pid}
use ghostgc.Process.Snapshots.{find_last}
use ghostgc.Process.Tree.{
  Tree, LinkState, intact, missing, link_eq, classify_link, add_process, add_processes, build_tree,
  link, init_pid, children,
}

abbrev link_or : Option Process → Snapshot → Option LinkState → Option LinkState
link_or none s old = old
link_or (some p) s old = some (classify_link s p)

add_processes-links :
    (s : Snapshot) (ps : List Process) (t : Tree) (pid : ℤ)
    → (add_processes s t ps).links pid ≡ link_or (find_last pid ps) s (t.links pid)
unfolding add_processes add_process
add_processes-links s [] t pid = refl
add_processes-links s (p ∷ ps) t pid =
    ground (arith, add_processes-links s ps (add_process s t p) pid)

abbrev pub link_of : Snapshot → Option Process → LinkState
link_of s none = missing
link_of s (some p) = classify_link s p

-- The link of a PID is the link of the process that a look-up of the PID finds.
pub link-build_tree :
    (s : Snapshot) (pid : ℤ)
    → link (build_tree (some s)) pid ≡ link_of s (find_last pid s.processes)
unfolding link build_tree
link-build_tree s pid = ground (
  arith,
  add_processes-links s s.processes
      (record { snap = some s; child_map = λ _. []; links = λ _. none }) pid,
)

-- A link that is believed: the claimed parent was found and did not start later than the child.
pub record IsBelieved (s : Snapshot) (p : Process) : Type 0 where
  pub parent : Process
  pub found : by_pid s p.ppid ≡ some parent
  pub no_younger : parent.start_time ≤ p.start_time
  pub not_self : p.ppid ≢ p.pid
  pub not_init : p.ppid ≢ init_pid
  pub child_not_init : p.pid ≢ init_pid

IsBelieved-parent :
    (s : Snapshot) (p : Process) (o : Option Process)
    → by_pid s p.ppid ≡ o
    → classify_link s p ≡ intact
    → IsBelieved s p
unfolding classify_link
IsBelieved-parent s p none e h = absurd (ground arith)
IsBelieved-parent s p (some q) e h = record {
  parent = q;
  found = e;
  no_younger = ground arith;
  not_self = ground arith;
  not_init = ground arith;
  child_not_init = ground arith;
}

pub intact-IsBelieved : (s : Snapshot) (p : Process) → classify_link s p ≡ intact → IsBelieved s p
intact-IsBelieved s p h = IsBelieved-parent s p (by_pid s p.ppid) refl h

-- d is the PID of a process of the snapshot whose intact link names x.
pub record Edge (s : Snapshot) (x d : ℤ) : Type 0 where
  pub child : Process
  pub listed : Memᴰ child s.processes
  pub pid_eq : child.pid ≡ d
  pub ppid_eq : child.ppid ≡ x
  pub link_eq : classify_link s child ≡ intact

abbrev tail_All {ℓ} :
    {A : Type ℓ} (ys : List A) (y : A) (xs : List A)
    → All (λ a. Memᴰ a ys) xs
    → All (λ a. Memᴰ a (y ∷ ys)) xs
tail_All ys y [] h = tt
tail_All ys y (x ∷ xs) h = (Memᴰ.tail h.0, tail_All ys y xs h.1)

All_self {ℓ} : {A : Type ℓ} (xs : List A) → All (λ a. Memᴰ a xs) xs
All_self [] = tt
All_self (x ∷ xs) = (Memᴰ.head refl, tail_All xs x xs (All_self xs))

add_process-Edge :
    (s : Snapshot) (t : Tree) (p : Process) (x : ℤ)
    → Memᴰ p s.processes
    → All (Edge s x) (t.child_map x)
    → All (Edge s x) ((add_process s t p).child_map x)
unfolding add_process
add_process-Edge s t p x m h = elim (Bool-cases (classify_link s p == intact && x == p.ppid)) [
  | inl e ↦ rw e (
      All-append (Edge s x) (t.child_map x) (p.pid ∷ []) h (
        record {
          child = p;
          listed = m;
          pid_eq = refl;
          ppid_eq = ground arith;
          link_eq = ground arith;
        },
        tt,
      ))
  | inr e ↦ rw e h
]

add_processes-Edge :
    (s : Snapshot) (ps : List Process) (t : Tree) (x : ℤ)
    → All (λ p. Memᴰ p s.processes) ps
    → All (Edge s x) (t.child_map x)
    → All (Edge s x) ((add_processes s t ps).child_map x)
unfolding add_processes
add_processes-Edge s [] t x m h = h
add_processes-Edge s (p ∷ ps) t x m h =
    add_processes-Edge s ps (add_process s t p) x m.1 (add_process-Edge s t p x m.0 h)

pub children-Edge : (s : Snapshot) (x : ℤ) → All (Edge s x) (children (build_tree (some s)) x)
unfolding children build_tree
children-Edge s x = add_processes-Edge s s.processes _ x (All_self s.processes) tt

add_processes-snap :
    (s : Snapshot) (ps : List Process) (t : Tree) → (add_processes s t ps).snap ≡ t.snap
unfolding add_processes add_process
add_processes-snap s [] t = refl
add_processes-snap s (p ∷ ps) t = add_processes-snap s ps (add_process s t p)

pub build_tree-snap : (s : Snapshot) → (build_tree (some s)).snap ≡ some s
unfolding build_tree
build_tree-snap s = add_processes-snap s s.processes _
