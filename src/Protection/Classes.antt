-- ===== src/Protection/Classes.antt =====
-- The protected classes of executables, as `Evaluate` and `ExecutableProtection` read them.
use ghostgc.Prelude.{
  ◌≡◌, refl, Bool, true, false, not, ◌&&◌, String, Option, none, some, List, [], ◌∷◌, ◌++◌, arith,
  is_empty, any, string_eq,
}
use ghostgc.Prelude.Runtime.{Runtime}
use ghostgc.Process.{Process}
use ghostgc.Protection.{
  Rule, ExecClass, ProtectionRule, find_class, class_matches, rule_if, adapter_matches,
  match_adapter_rule,
}

pub is_empty-append {ℓ} :
    {A : Type ℓ} (xs ys : List A) → is_empty (xs ++ ys) ≡ (is_empty xs && is_empty ys)
is_empty-append [] ys = refl
is_empty-append (x ∷ xs) ys = refl

pub is_empty-rule_if : (b : Bool) (id reason : String) → is_empty (rule_if b id reason) ≡ not b
unfolding rule_if
is_empty-rule_if b id reason = ground arith

abbrev pub is_none : Option Rule → Bool
is_none none = true
is_none (some r) = false

module _ (R : Runtime) where
  -- No class rule is added exactly when the search for a class finds none.
  pub class_matches-find_class :
      (cs : List ExecClass) (base shown : String)
      → is_empty (class_matches R cs base shown) ≡ is_none (find_class cs base)
  unfolding class_matches find_class
  class_matches-find_class [] base shown = refl
  class_matches-find_class (c ∷ cs) base shown =
      ground (arith, class_matches-find_class cs base shown)

pub adapter_matches-any :
    (rs : List ProtectionRule) (p : Process)
    → is_empty (adapter_matches rs p) ≡ not (any (λ r. match_adapter_rule r p) rs)
unfolding adapter_matches
adapter_matches-any [] p = refl
adapter_matches-any (r ∷ rs) p = ground (arith, adapter_matches-any rs p)
