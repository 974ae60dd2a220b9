-- ===== src/Process/Tree/Descendants.antt =====
-- `Descendants`: the breadth-first walk downward.
use ghostgc.Prelude.{
  ℕ, zero, suc, ◌≡◌, refl, false, some, List, [], ◌∷◌, arith, contains, inl, inr, All, All-append,
  Bool-cases, NoRepeat, NoRepeat-snoc, contains-append,
}
use ghostgc.Prelude.Int.{ℤ, int_eq}
use ghostgc.Process.{Snapshot}
use ghostgc.Process.Tree.{
  Tree, build_tree, children, Walk, visit, visit_level, walk_down, descendants, max_tree_depth,
}
use ghostgc.Process.Tree.Links.{Edge, children-Edge}

abbrev level : Tree → List ℤ → List ℤ → List ℤ → Walk
level t seen out frontier = visit_level t (record { seen = seen; out = out; next = [] }) frontier

module _ (t : Tree) (pid : ℤ) where
  -- What has been put out is new, and whatever is not seen is neither the start nor put out.
  record Fresh (w : Walk) : Type 0 where
    distinct : NoRepeat (pid ∷ []) w.out
    unseen :
        (a : ℤ)
        → contains w.seen a ≡ false
        → (contains (pid ∷ []) a ≡ false) × (contains w.out a ≡ false)

  visit-Fresh : (w : Walk) (c : ℤ) → Fresh w → Fresh (visit t w c)
  unfolding visit
  visit-Fresh w c f = elim (Bool-cases (contains w.seen c)) [
    | inl old ↦ rw old f
    | inr new ↦ rw new (record {
      distinct = NoRepeat-snoc (pid ∷ []) w.out c f.distinct (f.unseen c new).0 (f.unseen c new).1;
      unseen = λ a h. ground (arith, f.unseen a, contains-append w.out (c ∷ []) a);
    })
  ]

  visit_level-Fresh : (cs : List ℤ) (w : Walk) → Fresh w → Fresh (visit_level t w cs)
  unfolding visit_level
  visit_level-Fresh [] w f = f
  visit_level-Fresh (c ∷ cs) w f = visit_level-Fresh cs (visit t w c) (visit-Fresh w c f)

  walk_down-distinct :
      (depth : ℕ) (seen out next : List ℤ)
      → Fresh (record { seen = seen; out = out; next = [] })
      → NoRepeat (pid ∷ []) (walk_down t depth seen out next)
  unfolding walk_down
  walk_down-distinct zero seen out next f = f.distinct
  walk_down-distinct (suc depth) seen out [] f = f.distinct
  walk_down-distinct (suc depth) seen out (c ∷ cs) f =
      let w = level t seen out (c ∷ cs) in
      let g = visit_level-Fresh (c ∷ cs) (record { seen = seen; out = out; next = [] }) f in
      walk_down-distinct depth w.seen w.out w.next
        (record { distinct = g.distinct; unseen = g.unseen })

  -- No descendant is put out twice, and the PID itself is not among them, whatever the tree.
  pub descendants-NoRepeat : NoRepeat (pid ∷ []) (descendants t pid)
  unfolding descendants children
  descendants-NoRepeat =
      walk_down-distinct max_tree_depth (pid ∷ []) [] (t.child_map pid)
        (record { distinct = tt; unseen = λ a h. (h, refl) })

-- A chain of intact links from x down to d.
pub data Below (s : Snapshot) (x : ℤ) : ℤ → Type 0 where
  direct : {d : ℤ} → Edge s x d → Below s x d
  further : {c d : ℤ} → Below s x c → Edge s c d → Below s x d

module _ (s : Snapshot) (pid : ℤ) where
  abbrev tree : Tree
  tree = build_tree (some s)

  abbrev Sound : Walk → Type 0
  Sound w = All (Below s pid) w.out × All (Below s pid) w.next

  all_further : (c : ℤ) (ds : List ℤ) → Below s pid c → All (Edge s c) ds → All (Below s pid) ds
  all_further c [] b h = tt
  all_further c (d ∷ ds) b h = (further b h.0, all_further c ds b h.1)

  visit-Sound : (w : Walk) (c : ℤ) → Below s pid c → Sound w → Sound (visit tree w c)
  unfolding visit
  visit-Sound w c b f = elim (Bool-cases (contains w.seen c)) [
    | inl old ↦ rw old f
    | inr new ↦ rw new (
      All-append (Below s pid) w.out (c ∷ []) f.0 (b, tt),
      All-append (Below s pid) w.next (tree.child_map c) f.1
          (all_further c (tree.child_map c) b (unfold children in children-Edge s c)),
    )
  ]

  visit_level-Sound :
      (cs : List ℤ) (w : Walk) → All (Below s pid) cs → Sound w → Sound (visit_level tree w cs)
  unfolding visit_level
  visit_level-Sound [] w b f = f
  visit_level-Sound (c ∷ cs) w b f =
      visit_level-Sound cs (visit tree w c) b.1 (visit-Sound w c b.0 f)

  walk_down-Sound :
      (depth : ℕ) (seen out next : List ℤ)
      → All (Below s pid) out
      → All (Below s pid) next
      → All (Below s pid) (walk_down tree depth seen out next)
  unfolding walk_down
  walk_down-Sound zero seen out next o f = o
  walk_down-Sound (suc depth) seen out [] o f = o
  walk_down-Sound (suc depth) seen out (c ∷ cs) o f =
      let w = level tree seen out (c ∷ cs) in
      let g = visit_level-Sound (c ∷ cs) (record { seen = seen; out = out; next = [] }) f (o, tt) in
      walk_down-Sound depth w.seen w.out w.next g.0 g.1

  all_direct : (ds : List ℤ) → All (Edge s pid) ds → All (Below s pid) ds
  all_direct [] h = tt
  all_direct (d ∷ ds) h = (direct h.0, all_direct ds h.1)

  -- Every descendant that the walk finds is below the PID by intact links of the snapshot.
  pub descendants-Below : All (Below s pid) (descendants tree pid)
  unfolding descendants
  descendants-Below =
      walk_down-Sound max_tree_depth (pid ∷ []) [] (children tree pid) tt
        (all_direct _ (children-Edge s pid))
