-- ===== src/Process/Tree/Completeness.antt =====
-- `Descendants` misses nothing that the depth bound lets it reach.
use ghostgc.Prelude.{
  ℕ, zero, suc, ◌≡◌, ◌∙◌, Bool, true, false, List, [], ◌∷◌, arith, ◌==◌, ◌≤◌, ◌<◌, ◌≢◌, contains,
  ◌⊎◌, inl, inr, Bool-cases, contains-append, ◌||◌,
}
use ghostgc.Prelude.Int.{ℤ, int_eq}
use ghostgc.Process.Tree.{
  Tree, children, Walk, visit, visit_level, walk_down, descendants, max_tree_depth,
}

-- A chain of k child links of the tree from x down to d.
abbrev pub Down : Tree → ℕ → ℤ → ℤ → Type 0
Down t zero x d = x ≡ d
Down t (suc k) x d = (c : ℤ) × (contains (t.child_map x) c ≡ true) × Down t k c d

or_false : (a : Bool) → a || false ≡ a
or_false a = ground arith

module _ (t : Tree) where
  visit-seen : (w : Walk) (c a : ℤ) → contains (visit t w c).seen a ≡ (contains w.seen a || c == a)
  unfolding visit
  visit-seen w c a = elim (Bool-cases (contains w.seen c)) [
    | inl old ↦ ground arith
    | inr new ↦ ground arith
  ]

  visit_level-seen :
      (cs : List ℤ) (w : Walk) (a : ℤ)
      → contains (visit_level t w cs).seen a ≡ (contains w.seen a || contains cs a)
  unfolding visit_level
  visit_level-seen [] w a = ground arith
  visit_level-seen (c ∷ cs) w a =
      ground (arith, visit_level-seen cs (visit t w c) a, visit-seen w c a)

  -- A child of what is seen is seen, waits for the next level, or still stands in this one.
  abbrev Closed : Walk → List ℤ → Type 0
  Closed w cs =
      (x c : ℤ)
      → contains w.seen x ≡ true
      → contains (t.child_map x) c ≡ true
      → (contains w.seen c || contains w.next c || contains cs c) ≡ true

  visit-Closed : (w : Walk) (c : ℤ) (cs : List ℤ) → Closed w (c ∷ cs) → Closed (visit t w c) cs
  unfolding visit
  visit-Closed w c cs h x a s e = elim (Bool-cases (contains w.seen c)) [
    | inl old ↦ ground (arith, h x a)
    | inr new ↦ ground (arith, h x a, contains-append w.next (t.child_map c) a)
  ]

  visit_level-Closed : (cs : List ℤ) (w : Walk) → Closed w cs → Closed (visit_level t w cs) []
  unfolding visit_level
  visit_level-Closed [] w h = h
  visit_level-Closed (c ∷ cs) w h = visit_level-Closed cs (visit t w c) (visit-Closed w c cs h)

  abbrev level : List ℤ → List ℤ → List ℤ → Walk
  level seen out frontier = visit_level t (record { seen = seen; out = out; next = [] }) frontier

  -- What is seen is the start or has been put out.
  abbrev Kept : ℤ → Walk → Type 0
  Kept pid w = (a : ℤ) → contains w.seen a ≡ true → (pid == a || contains w.out a) ≡ true

  visit-Kept : (pid : ℤ) (w : Walk) (c : ℤ) → Kept pid w → Kept pid (visit t w c)
  unfolding visit
  visit-Kept pid w c h a s = elim (Bool-cases (contains w.seen c)) [
    | inl old ↦ ground (arith, h a)
    | inr new ↦ ground (arith, h a, contains-append w.out (c ∷ []) a)
  ]

  visit_level-Kept : (pid : ℤ) (cs : List ℤ) (w : Walk) → Kept pid w → Kept pid (visit_level t w cs)
  unfolding visit_level
  visit_level-Kept pid [] w h = h
  visit_level-Kept pid (c ∷ cs) w h = visit_level-Kept pid cs (visit t w c) (visit-Kept pid w c h)

  visit_level-out :
      (cs : List ℤ) (w : Walk) (a : ℤ)
      → contains w.out a ≡ true
      → contains (visit_level t w cs).out a ≡ true
  unfolding visit_level
  visit_level-out [] w a h = h
  visit_level-out (c ∷ cs) w a h =
      visit_level-out cs (visit t w c) a
        (unfold visit in ground (arith, contains-append w.out (c ∷ []) a))

  walk_down-out :
      (depth : ℕ) (seen out next : List ℤ) (a : ℤ)
      → contains out a ≡ true
      → contains (walk_down t depth seen out next) a ≡ true
  unfolding walk_down
  walk_down-out zero seen out next a h = h
  walk_down-out (suc depth) seen out [] a h = h
  walk_down-out (suc depth) seen out (c ∷ cs) a h =
      let w = level seen out (c ∷ cs) in
      walk_down-out depth w.seen w.out w.next a (visit_level-out (c ∷ cs) _ a h)

  -- What lies k links below something seen, or below something that waits, is put out if the
  -- levels left suffice.
  walk_down-finds :
      (pid : ℤ) (depth k : ℕ) (seen out next : List ℤ) (y d : ℤ)
      → Closed (record { seen = seen; out = out; next = [] }) next
      → Kept pid (record { seen = seen; out = out; next = [] })
      → Down t k y d
      → ((contains seen y ≡ true) × (k ≤ depth)) ⊎ ((contains next y ≡ true) × (k < depth))
      → pid ≢ d
      → contains (walk_down t depth seen out next) d ≡ true
  unfolding walk_down
  walk_down-finds pid depth zero seen out next y d cl kept p (inl (s, le)) ne =
      walk_down-out depth seen out next d (ground (arith, kept y))
  walk_down-finds pid depth (suc k) seen out next y d cl kept p (inl (s, le)) ne =
      elim (Bool-cases (contains seen p.0)) [
        | inl old ↦
            walk_down-finds pid depth k seen out next p.0 d cl kept p.2 (inl (old, omega arith)) ne
        | inr new ↦
            walk_down-finds pid depth k seen out next p.0 d cl kept p.2
              (inr (ground (arith, cl y p.0, p.1), omega arith)) ne
      ]
  walk_down-finds pid zero k seen out next y d cl kept p (inr (s, le)) ne = elim le [ ]
  walk_down-finds pid (suc depth) k seen out [] y d cl kept p (inr (s, le)) ne = cc
  walk_down-finds pid (suc depth) k seen out (n ∷ ns) y d cl kept p (inr (s, le)) ne =
      let start : Walk = record { seen = seen; out = out; next = [] } in
      let w = level seen out (n ∷ ns) in
      let closed : Closed w [] = visit_level-Closed (n ∷ ns) start cl in
      let found : contains w.seen y ≡ true = visit_level-seen (n ∷ ns) start y ∙ ground arith in
      walk_down-finds pid depth k w.seen w.out w.next y d
        (λ x c sx e. ground (arith, closed x c sx e)) (visit_level-Kept pid (n ∷ ns) start kept) p
        (inl (found, omega arith)) ne

  -- A PID that a chain of at most 128 child links leads down to is among the descendants, unless
  -- it is the PID itself.
  pub descendants_complete :
      (pid d : ℤ) (k : ℕ)
      → Down t k pid d
      → k ≤ max_tree_depth
      → pid ≢ d
      → contains (descendants t pid) d ≡ true
  unfolding descendants children
  descendants_complete pid d k p le ne =
      walk_down-finds pid 128 k (pid ∷ []) [] (t.child_map pid) pid d (λ x c s e. ground arith)
        (λ a s. ground arith) p (inl (ground arith, le)) ne
