-- ===== src/Prelude/Lists.antt =====
-- Lists measured by native numbers, and the tests and predicates on them that the parts share.
use Prim.Native.Nat.{ℕ, zero, suc, ◌+◌}
use mathlib.Core.Path.{◌≡◌, refl, sym, subst}
use mathlib.Core.Logic.{inl, inr}
use mathlib.Core.Bool.{Bool, true, false, ◌||◌}
use mathlib.Core.Option.{Option, none, some}
use mathlib.Core.List.{List, [], ◌∷◌, ◌++◌}
use native.Mathlib.Omega.{arith}
use mathlib.Core.List.{Memᴰ}
use mathlib.Core.List.Memᴰ
use ghostgc.Prelude.Tests.{Eq, ◌==◌}

module _ {ℓ} {A : Type ℓ} where
  abbrev pub length : List A → ℕ
  length [] = 0
  length (x ∷ xs) = suc (length xs)

  abbrev pub get_elem? : List A → ℕ → Option A
  get_elem? [] i = none
  get_elem? (x ∷ xs) zero = some x
  get_elem? (x ∷ xs) (suc i) = get_elem? xs i

  pub length-append : (xs ys : List A) → length (xs ++ ys) ≡ length xs + length ys
  length-append [] ys = omega arith
  length-append (x ∷ xs) ys = omega (arith, length-append xs ys)

  -- Every element satisfies P.
  abbrev pub All {κ} : (A → Type κ) → List A → Type κ
  All P [] = Unit
  All P (x ∷ xs) = P x × All P xs

  pub All-append {κ} : (P : A → Type κ) (xs ys : List A) → All P xs → All P ys → All P (xs ++ ys)
  All-append P [] ys h k = k
  All-append P (x ∷ xs) ys h k = (h.0, All-append P xs ys h.1 k)

  pub All_at {κ} : (P : A → Type κ) (xs : List A) (x : A) → All P xs → Memᴰ x xs → P x
  All_at P [] x h m = absurd (Memᴰ.not-nil m)
  All_at P (y ∷ ys) x h m = elim (Memᴰ.cases_cons m) [
    | inl e ↦ subst P (sym e) h.0
    | inr rest ↦ All_at P ys x h.1 rest
  ]

  abbrev pub any : (A → Bool) → List A → Bool
  any p [] = false
  any p (x ∷ xs) = p x || any p xs

  abbrev pub is_empty : List A → Bool
  is_empty [] = true
  is_empty (_ ∷ _) = false

module _ {ℓ} {A : Type ℓ} ⦃e : Eq A⦄ where
  abbrev pub contains : List A → A → Bool
  contains [] a = false
  contains (x ∷ xs) a = x == a || contains xs a

  -- No element is among `before` or stands earlier in the list.
  abbrev pub NoRepeat : List A → List A → Type 0
  NoRepeat before [] = Unit
  NoRepeat before (x ∷ xs) = (contains before x ≡ false) × NoRepeat (x ∷ before) xs

  pub contains-append :
      (xs ys : List A) (a : A) → contains (xs ++ ys) a ≡ (contains xs a || contains ys a)
  contains-append [] ys a = refl
  contains-append (x ∷ xs) ys a = ground (arith, contains-append xs ys a)

  pub NoRepeat-snoc :
      (before xs : List A) (c : A)
      → NoRepeat before xs
      → contains before c ≡ false
      → contains xs c ≡ false
      → NoRepeat before (xs ++ (c ∷ []))
  NoRepeat-snoc before [] c h k l = (k, tt)
  NoRepeat-snoc before (x ∷ xs) c h k l =
      (h.0, NoRepeat-snoc (x ∷ before) xs c h.1 (ground arith) (ground arith))

  pub All_of_contains {κ} :
      (P : A → Type κ) (xs : List A) (x : A) → All P xs → contains xs x ≡ true → P x
  All_of_contains P [] x h m = cc
  All_of_contains P (y ∷ ys) x h m = elim (e.dec y x) [
    | yes same ↦ subst P same h.0
    | no differ ↦ All_of_contains P ys x h.1 (ground arith)
  ]
