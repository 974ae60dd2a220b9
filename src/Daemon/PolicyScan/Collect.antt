-- ===== src/Daemon/PolicyScan/Collect.antt =====
-- What holds of every round of a collecting loop holds of what it collects.
use mathlib.Core.List.{Memᴰ}
use mathlib.Core.List.Memᴰ
use ghostgc.Prelude.{
  ◌≡◌, ◌≢◌, ◌∙◌, ap, subst, refl, inl, inr, true, String, List, [], ◌∷◌, ◌++◌, map, string_eq, All,
  All-append, NoRepeat, contains, arith,
}
use ghostgc.Daemon.{Result, ok, err}
use ghostgc.Daemon.PolicyScan.{both, collect}

-- Both lists were there.
both-ok {ℓ} :
    {B : Type ℓ} (r s : Result (List B)) (zs : List B)
    → both r s ≡ ok zs
    → (xs : List B) × (ys : List B) × (r ≡ ok xs) × (s ≡ ok ys) × (zs ≡ xs ++ ys)
unfolding both
both-ok (err text) s zs h = cc
both-ok (ok xs) (err text) zs h = cc
both-ok (ok xs) (ok ys) zs h = (xs, ys, refl, refl, ground arith)

-- No element of the list has the property.
abbrev pub NoneOf {ℓ κ} : {A : Type ℓ} → (A → Type κ) → List A → Type κ
NoneOf P = All (λ a. ¬ P a)

-- At most one element of the list has the property.
abbrev pub Once {ℓ κ} : {A : Type ℓ} → (A → Type κ) → List A → Type κ
Once P [] = Unit
Once P (x ∷ xs) = (P x → NoneOf P xs) × Once P xs

NoneOf-append_Once {ℓ κ} :
    {A : Type ℓ} (P : A → Type κ) (xs ys : List A) → NoneOf P xs → Once P ys → Once P (xs ++ ys)
NoneOf-append_Once P [] ys h k = k
NoneOf-append_Once P (x ∷ xs) ys h k = (λ p. absurd (h.0 p), NoneOf-append_Once P xs ys h.1 k)

NoneOf-Once {ℓ κ} : {A : Type ℓ} (P : A → Type κ) (zs : List A) → NoneOf P zs → Once P zs
NoneOf-Once P [] n = tt
NoneOf-Once P (z ∷ zs) n = (λ p. absurd (n.0 p), NoneOf-Once P zs n.1)

Once-append_NoneOf {ℓ κ} :
    {A : Type ℓ} (P : A → Type κ) (xs ys : List A) → Once P xs → NoneOf P ys → Once P (xs ++ ys)
Once-append_NoneOf P [] ys h k = NoneOf-Once P ys k
Once-append_NoneOf P (x ∷ xs) ys h k =
    (λ p. All-append (λ a. ¬ P a) xs ys (h.0 p) k, Once-append_NoneOf P xs ys h.1 k)

pub All_all {ℓ κ} : {A : Type ℓ} (P : A → Type κ) (xs : List A) → ((x : A) → P x) → All P xs
All_all P [] h = tt
All_all P (x ∷ xs) h = (h x, All_all P xs h)

module _ {A : Type 0} (g : A → String) (k : String) where
  NoRepeat-NoneOf :
      (before : List String) (xs : List A)
      → NoRepeat before (map g xs)
      → contains before k ≡ true
      → NoneOf (λ x. g x ≡ k) xs
  NoRepeat-NoneOf before [] h m = tt
  NoRepeat-NoneOf before (x ∷ xs) h m =
      (λ e. ground (arith, h.0), NoRepeat-NoneOf (g x ∷ before) xs h.1 (ground arith))

  -- Of elements with distinct keys at most one has the key.
  pub NoRepeat-Once :
      (before : List String) (xs : List A) → NoRepeat before (map g xs) → Once (λ x. g x ≡ k) xs
  NoRepeat-Once before [] h = tt
  NoRepeat-Once before (x ∷ xs) h = (
    λ e. NoRepeat-NoneOf (g x ∷ before) xs h.1 (ground arith),
    NoRepeat-Once (g x ∷ before) xs h.1,
  )

module _ {A B : Type 0} (f : A → Result (List B)) where
  pub collect-All :
      (P : B → Type 0) (xs : List A) (ys : List B)
      → collect f xs ≡ ok ys
      → All (λ x. (zs : List B) → f x ≡ ok zs → All P zs) xs
      → All P ys
  unfolding collect
  collect-All P [] ys h each = let e : ys ≡ [] = ground arith in rw e tt
  collect-All P (x ∷ xs) ys h each =
      let (us, vs, e, e', eq) = both-ok (f x) (collect f xs) ys h in
      rw eq (All-append P us vs (each.0 us e) (collect-All P xs vs e' each.1))

  -- If only one key gives elements with P, gives at most one, and occurs at most once, then at most
  -- one collected element has P.
  pub collect-Once :
      (P : B → Type 0) (g : A → String) (k : String) (xs : List A) (ys : List B)
      → collect f xs ≡ ok ys
      → Once (λ x. g x ≡ k) xs
      → ((x : A) (zs : List B) → f x ≡ ok zs → Once P zs)
      → ((x : A) (zs : List B) → g x ≢ k → f x ≡ ok zs → NoneOf P zs)
      → Once P ys
  unfolding collect
  collect-Once P g k [] ys h once one none_else = let e : ys ≡ [] = ground arith in rw e tt
  collect-Once P g k (x ∷ xs) ys h once one none_else =
      let (us, vs, e, e', eq) = both-ok (f x) (collect f xs) ys h in
      rw eq (elim (string_eq.dec (g x) k) [
        | yes same ↦
            Once-append_NoneOf P us vs (one x us e)
              (collect-All (λ b. ¬ P b) xs vs e' (others xs (once.0 same)))
        | no differ ↦
            NoneOf-append_Once P us vs (none_else x us differ e)
              (collect-Once P g k xs vs e' once.1 one none_else)
      ])
    where
      others :
          (zs : List A)
          → NoneOf (λ z. g z ≡ k) zs
          → All (λ z. (bs : List B) → f z ≡ ok bs → NoneOf P bs) zs
      others [] n = tt
      others (z ∷ zs) n = (λ bs. none_else z bs n.0, others zs n.1)

  -- What a round gives is collected.
  pub collect-Memᴰ :
      (x : A) (xs : List A) (ys zs : List B) (b : B)
      → collect f xs ≡ ok ys
      → Memᴰ x xs
      → f x ≡ ok zs
      → Memᴰ b zs
      → Memᴰ b ys
  unfolding collect
  collect-Memᴰ x [] ys zs b h m e n = absurd (Memᴰ.not-nil m)
  collect-Memᴰ x (w ∷ xs) ys zs b h m e n =
      let (us, vs, first, rest, eq) = both-ok (f w) (collect f xs) ys h in
      rw eq (elim (Memᴰ.cases_cons m) [
        | inl same ↦
            let same_list : zs ≡ us = cc in Memᴰ.append_left vs (subst (Memᴰ b) same_list n)
        | inr later ↦ Memᴰ.append_right us (collect-Memᴰ x xs vs zs b rest later e n)
      ])

  -- No round has failed.
  pub collect-ok :
      (x : A) (xs : List A) (ys : List B)
      → collect f xs ≡ ok ys
      → Memᴰ x xs
      → (zs : List B) × (f x ≡ ok zs)
  unfolding collect
  collect-ok x [] ys h m = absurd (Memᴰ.not-nil m)
  collect-ok x (w ∷ xs) ys h m =
      let (us, vs, first, rest, eq) = both-ok (f w) (collect f xs) ys h in
      elim (Memᴰ.cases_cons m) [
        | inl same ↦ (us, ap f same ∙ first)
        | inr later ↦ collect-ok x xs vs rest later
      ]
