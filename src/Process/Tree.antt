-- ===== src/Process/Tree.antt =====
-- internal/process/tree.go: the parent and child view of a snapshot that does not believe a link
-- through a reused PID.
pub mod Links
pub mod Ancestors
pub mod Descendants
pub mod Completeness
use ghostgc.Prelude.{
  ℕ, zero, suc, ◌+◌, ◌≡◌, refl, Bool, true, false, not, ◌&&◌, ◌||◌, Option, none, some, List, [],
  ◌∷◌, ◌++◌, arith, ◌==◌, ◌!=◌, if◌then◌else◌, Eq, contains,
}
use ghostgc.Prelude.Int.{ℤ, pos, int_eq}
use ghostgc.Prelude.Time.{after}
use ghostgc.Process.{Process, Snapshot, by_pid}

abbrev pub max_tree_depth : ℕ
max_tree_depth = 128

pub data LinkState : Type 0 where
  intact reparented impossible missing root : LinkState

LinkState-discrete : Discrete LinkState
LinkState-discrete = hlevel

instance unfoldable pub link_eq : Eq LinkState
unfolding LinkState-discrete
link_eq = record { dec = LinkState-discrete }

abbrev pub init_pid : ℤ
init_pid = pos 1

-- `snap` is nil for a tree that `BuildTree` made of no snapshot.
pub record Tree : Type 0 where
  pub snap : Option Snapshot
  pub child_map : ℤ → List ℤ
  pub links : ℤ → Option LinkState

-- The link of a process whose claimed parent was looked up.
classify_parent : Process → Option Process → LinkState
classify_parent p none = if p.ppid == init_pid then reparented else missing
classify_parent p (some parent) =
    if after parent.start_time p.start_time
    then impossible
    else if p.ppid == init_pid
    then reparented
    else intact

unfoldable pub classify_link : Snapshot → Process → LinkState
unfolding classify_parent
classify_link s p =
    if p.pid == init_pid
    then root
    else if p.ppid == pos 0
    then missing
    else if p.ppid == p.pid
    then impossible
    else classify_parent p (by_pid s p.ppid)

-- One round of the loop of `BuildTree`.
unfoldable pub add_process : Snapshot → Tree → Process → Tree
add_process s t p =
    let l = classify_link s p in
    record t {
      links = λ pid. if pid == p.pid then some l else t.links pid;
      child_map = λ pid.
          if l == intact && pid == p.ppid then t.child_map pid ++ (p.pid ∷ []) else t.child_map pid;
    }

unfoldable pub add_processes : Snapshot → Tree → List Process → Tree
add_processes s t [] = t
add_processes s t (p ∷ ps) = add_processes s (add_process s t p) ps

unfoldable pub build_tree : Option Snapshot → Tree
unfolding add_processes add_process
build_tree none = record { snap = none; child_map = λ _. []; links = λ _. none }
build_tree (some s) =
    add_processes s (record { snap = some s; child_map = λ _. []; links = λ _. none }) s.processes

unfoldable pub link : Tree → ℤ → LinkState
link t pid = elim (t.links pid) [ some l ↦ l | none ↦ missing ]

unfoldable pub tree_by_pid : Option Snapshot → ℤ → Option Process
tree_by_pid none pid = none
tree_by_pid (some s) pid = by_pid s pid

unfoldable pub children : Tree → ℤ → List ℤ
children t pid = t.child_map pid

-- One level of the walk of `Descendants`: the PIDs seen, those put out, and the next level.
pub record Walk : Type 0 where
  pub seen : List ℤ
  pub out : List ℤ
  pub next : List ℤ

visit : Tree → Walk → ℤ → Walk
visit t w child = if contains w.seen child then w else record {
  seen = child ∷ w.seen;
  out = w.out ++ (child ∷ []);
  next = w.next ++ t.child_map child;
}

visit_level : Tree → Walk → List ℤ → Walk
visit_level t w [] = w
visit_level t w (child ∷ frontier) = visit_level t (visit t w child) frontier

-- The levels left, what was seen and put out, and the frontier.
walk_down : Tree → ℕ → List ℤ → List ℤ → List ℤ → List ℤ
walk_down t zero seen out frontier = out
walk_down t (suc depth) seen out [] = out
walk_down t (suc depth) seen out (child ∷ frontier) =
    let w = visit_level t (record { seen = seen; out = out; next = [] }) (child ∷ frontier) in
    walk_down t depth w.seen w.out w.next

unfoldable pub descendants : Tree → ℤ → List ℤ
unfolding visit visit_level walk_down children
descendants t pid = walk_down t max_tree_depth (pid ∷ []) [] (children t pid)

-- `out` holds the ancestors found so far, nearest first.
walk_up : Tree → ℕ → List ℤ → List ℤ → ℤ → List ℤ
walk_up t zero seen out cur = out
walk_up t (suc depth) seen out cur = elim (tree_by_pid t.snap cur) [
  | none ↦ out
  | some p ↦
      let further = walk_up t depth (p.ppid ∷ seen) (out ++ (p.ppid ∷ [])) p.ppid in
      if link t cur != intact then out else if contains seen p.ppid then out else further
]

unfoldable pub ancestors : Tree → ℤ → List ℤ
unfolding walk_up tree_by_pid link
ancestors t pid = walk_up t max_tree_depth (pid ∷ []) [] pid

unfoldable pub is_descendant_of : Tree → ℤ → ℤ → Bool
is_descendant_of t pid ancestor = contains (ancestors t pid) ancestor

roots_of : Tree → List Process → List ℤ
roots_of t [] = []
roots_of t (p ∷ ps) =
    let rest = roots_of t ps in if link t p.pid != intact then p.pid ∷ rest else rest

-- Only for a tree with a snapshot; Go would panic on a nil one.
unfoldable pub roots : Tree → List ℤ
unfolding roots_of link
roots t = elim t.snap [ none ↦ [] | some s ↦ roots_of t s.processes ]
