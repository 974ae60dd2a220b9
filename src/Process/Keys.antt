-- ===== src/Process/Keys.antt =====
-- `Key.UID` and `ParseKey`: the stored text of a process identity.
use Prim.Native.Char.{code}
use Prim.Native.String.append
use ghostgc.Prelude.{
  ◌<>◌, ◌≡◌, ◌↔◌, ◌∙◌, ap, subst, Bool, false, ◌||◌, String, Option, none, some, ◌==◌, nat_eq,
  if◌then◌else◌, arith, Option-cases, inl, inr,
}
use ghostgc.Prelude.Int.{ℤ, pos, negsuc, ◌≤ℤ◌, max_int64}
use ghostgc.Prelude.Runtime.{Runtime}
use ghostgc.Process.{Key}

-- strings.Cut(s, ":").
unfoldable pub cut_colon : String → Option (String × String)
cut_colon String.[] = none
cut_colon (String.◌∷◌ c s) = elim (cut_colon s) [
  | none ↦ if code c == b':' then some (String.[], s) else none
  | some (before, rest) ↦
      if code c == b':' then some (String.[], s) else some (String.◌∷◌ c before, rest)
]

module _ (R : Runtime) where
  unfoldable pub uid : Key → String
  uid k = R.decimal k.pid <> (":" <> R.decimal k.start_time_ns)

  unfoldable pub parse_key : String → Option Key
  unfolding cut_colon
  parse_key s = elim (cut_colon s) [
    | none ↦ none
    | some (pid_text, start_text) ↦ elim (R.parse_int pid_text) [
      | none ↦ none
      | some pid ↦ elim (R.parse_int start_text) [
        | none ↦ none
        | some start ↦ some (record { pid = pid; start_time_ns = start })
      ]
    ]
  ]

unfoldable pub has_colon : String → Bool
has_colon String.[] = false
has_colon (String.◌∷◌ c s) = code c == b':' || has_colon s

colon : (b : String) → ":" <> b ≡ String.◌∷◌ ":" b
colon b = append.cons ":" String.[] b ∙ ap (λ t. String.◌∷◌ ":" t) (append.nil b)

cut_colon-colon : (b : String) → cut_colon (String.◌∷◌ ":" b) ≡ some (String.[], b)
unfolding cut_colon nat_eq
cut_colon-colon b = elim (Option-cases (cut_colon b)) [
  | inl e ↦ rw (e, cut_colon)
  | inr (v, e) ↦ rw (e, cut_colon)
]

cut_colon-append : (a b : String) → has_colon a ≡ false → cut_colon (a <> (":" <> b)) ≡ some (a, b)
unfolding cut_colon has_colon
cut_colon-append String.[] b h = rw (append.nil, colon) (cut_colon-colon b)
cut_colon-append (String.◌∷◌ c a) b h =
    rw append.cons (ground (arith, cut_colon-append a b (ground arith)))

-- A value of `int` or `int64`.
abbrev pub IsInt64 : ℤ → Type 0
IsInt64 z = (negsuc max_int64 ≤ℤ z) × (z ≤ℤ pos max_int64)

-- What the decimal texts of Go do: the text of an int64 reads back, what is read is an int64, and no
-- text holds a colon.
pub record IsDecimal (R : Runtime) : Type 0 where
  pub parse_int-decimal : (z : ℤ) → IsInt64 z → R.parse_int (R.decimal z) ≡ some z
  pub parse_int-IsInt64 : (s : String) (z : ℤ) → R.parse_int s ≡ some z → IsInt64 z
  pub has_colon-decimal : (z : ℤ) → has_colon (R.decimal z) ≡ false

-- A key that is read from a text has the values that were read before and after the colon.
parse_key-IsInt64 :
    (R : Runtime) (s : String) (k : Key)
    → IsDecimal R
    → parse_key R s ≡ some k
    → IsInt64 k.pid × IsInt64 k.start_time_ns
unfolding parse_key
parse_key-IsInt64 R s k d h = elim (Option-cases (cut_colon s)) [
  | inl e ↦ absurd (ground arith)
  | inr ((a, b), e) ↦ elim (Option-cases (R.parse_int a)) [
    | inl f ↦ absurd (ground arith)
    | inr (pid, f) ↦ elim (Option-cases (R.parse_int b)) [
      | inl g ↦ absurd (ground arith)
      | inr (start, g) ↦
          let eq : record { pid = pid; start_time_ns = start } ≡ k = ground arith in
          subst (λ z. IsInt64 z.pid × IsInt64 z.start_time_ns) eq
            (d.parse_int-IsInt64 a pid f, d.parse_int-IsInt64 b start g)
    ]
  ]
]

-- The stored text of a key reads back as the key exactly if its PID and its start time are int64
-- values, if the decimal texts of the runtime read back in that range only and hold no colon.
pub parse_key-uid :
    (R : Runtime) (k : Key)
    → IsDecimal R
    → (parse_key R (uid R k) ≡ some k) ↔ (IsInt64 k.pid × IsInt64 k.start_time_ns)
unfolding parse_key uid
parse_key-uid R k d = (
  λ h. parse_key-IsInt64 R (uid R k) k d h,
  λ (p, s). ground (
    arith,
    cut_colon-append (R.decimal k.pid) (R.decimal k.start_time_ns) (d.has_colon-decimal k.pid),
    d.parse_int-decimal k.pid p,
    d.parse_int-decimal k.start_time_ns s,
  ),
)
