-- ===== src/Worktree/Registrations/Lines.antt =====
-- The documented lines of a registration, and how each is read.
use Prim.Native.Char.{code}
use Prim.Native.String.append
use ghostgc.Prelude.{
  ◌<>◌, ◌≡◌, ◌∙◌, ap, sym, refl, Bool, true, false, ◌||◌, String, some, List, [], ◌∷◌, ◌++◌, ◌==◌,
  string_eq, nat_eq, if◌then◌else◌, arith, Bool-cases, inl, inr,
}
use ghostgc.Daemon.{ok}
use ghostgc.Worktree.Registrations.{
  Registration, cut_space, trim_prefix, set_field, Reading, read_field, step, parse_from,
}

unfoldable pub has_space : String → Bool
has_space String.[] = false
has_space (String.◌∷◌ c s) = code c == b' ' || has_space s

space : (b : String) → " " <> b ≡ String.◌∷◌ " " b
space b = append.cons " " String.[] b ∙ ap (λ t. String.◌∷◌ " " t) (append.nil b)

pub cut_space-append : (a b : String) → has_space a ≡ false → cut_space (a <> (" " <> b)) ≡ (a, b)
unfolding cut_space has_space nat_eq
cut_space-append String.[] b h = rw (append.nil, space) refl
cut_space-append (String.◌∷◌ c a) b h =
    let apart : (code c == b' ') ≡ false = ground arith in
    rw append.cons (rw apart (rw (cut_space-append a b (ground arith)) refl))

-- A key that is not empty, with a value.
abbrev pub field : String → String → String
field key value = key <> (" " <> value)

unfoldable pub is_nil : String → Bool
is_nil String.[] = true
is_nil (String.◌∷◌ c s) = false

cons-nonempty : (s t : String) → is_nil s ≡ false → (s == "") ≡ false
unfolding is_nil
cons-nonempty s t h = elim (string_eq.dec s "") [
  | yes e ↦ absurd (not_nil (ap is_nil (sym e) ∙ h))
  | no n ↦ ground arith
]
  where
    not_nil : is_nil "" ≡ false → ⊥
    not_nil k = cc

pub append-nonempty : (a b : String) → is_nil a ≡ false → (a <> b == "") ≡ false
unfolding is_nil
append-nonempty String.[] b h = cc
append-nonempty (String.◌∷◌ c a) b h =
    rw append.cons (cons-nonempty (String.◌∷◌ c (a <> b)) "" refl)

-- The line of a value, if there is one.
abbrev pub value_line : String → String → List String
value_line key value = if value == "" then [] else field key value ∷ []

-- The lines of an attribute that is set or not.
abbrev pub flag_line : String → Bool → List String
flag_line key flag = if flag then key ∷ [] else []

-- The lines of an attribute that may have a reason: the key alone, or the key, a space and any text.
pub data IsReasoned (key : String) : Bool → List String → Type 0 where
  unset : IsReasoned key false []
  bare_key : IsReasoned key true (key ∷ [])
  with_reason : (reason : String) → IsReasoned key true (field key reason ∷ [])

-- The documented porcelain format of `git worktree list --porcelain -z` for one worktree: its path
-- first, a line for each further attribute that it has, in this order, and an empty field.
pub record IsPorcelain (r : Registration) (lines : List String) : Type 0 where
  pub locked_lines : List String
  pub locked_reasoned : IsReasoned "locked" r.locked locked_lines
  pub prunable_lines : List String
  pub prunable_reasoned : IsReasoned "prunable" r.prunable prunable_lines
  pub is_lines :
      lines
      ≡ field "worktree" r.path
        ∷ (value_line "HEAD" r.head
            ++ (value_line "branch" r.ref
                ++ (flag_line "detached" r.detached
                    ++ (flag_line "bare" r.bare
                        ++ (locked_lines ++ (prunable_lines ++ ("" ∷ [])))))))

-- The fields of a listing in the format: those of each worktree, and the empty one after the last
-- separator.
pub data IsListing : List Registration → List String → Type 0 where
  done : IsListing [] ("" ∷ [])
  more :
      (r : Registration) (rs : List Registration) (lines fields : List String)
      → IsPorcelain r lines
      → IsListing rs fields
      → IsListing (r ∷ rs) (lines ++ fields)

-- A registration that the listing can say: it has a path, its branch is that of its ref, and the
-- directories of git are not in it.
pub record IsListed (r : Registration) : Type 0 where
  pub has_path : (r.path == "") ≡ false
  pub branch_of : r.branch ≡ trim_prefix "refs/heads/" r.ref
  pub no_common : r.common_git_dir ≡ ""
  pub no_admin : r.admin_git_dir ≡ ""

pub parse_from-ok :
    (s next : Reading) (part : String) (parts : List String)
    → step s part ≡ ok next
    → parse_from s (part ∷ parts) ≡ parse_from next parts
unfolding parse_from
parse_from-ok s next part parts h = rw (parse_from, h) refl

step-field :
    (out : List Registration) (r : Registration) (key value : String)
    → is_nil key ≡ false
    → has_space key ≡ false
    → (key == "worktree") ≡ false
    → step (out, some r) (field key value) ≡ ok (out, some (set_field key value r))
unfolding step read_field
step-field out r key value full one_word other =
    rw (append-nonempty key (" " <> value) full, cut_space-append key value one_word, other) refl

-- The reading of a line that is there only for a value or a flag.
pub read_value :
    (out : List Registration) (r : Registration) (key value : String) (parts : List String)
    → is_nil key ≡ false
    → has_space key ≡ false
    → (key == "worktree") ≡ false
    → ((value == "") ≡ true → set_field key value r ≡ r)
    → parse_from (out, some r) (value_line key value ++ parts)
      ≡ parse_from (out, some (set_field key value r)) parts
read_value out r key value parts full one_word other blank = elim (Bool-cases (value == "")) [
  | inl e ↦ rw e (ap (λ z. parse_from (out, some z) parts) (sym (blank e)))
  | inr e ↦
      rw e (parse_from-ok (out, some r) _ _ parts (step-field out r key value full one_word other))
]

cut_space-word : (a : String) → has_space a ≡ false → cut_space a ≡ (a, "")
unfolding cut_space has_space nat_eq
cut_space-word String.[] h = refl
cut_space-word (String.◌∷◌ c a) h =
    let apart : (code c == b' ') ≡ false = ground arith in
    rw apart (rw (cut_space-word a (ground arith)) refl)

step-word :
    (out : List Registration) (r : Registration) (key : String)
    → (key == "") ≡ false
    → has_space key ≡ false
    → (key == "worktree") ≡ false
    → step (out, some r) key ≡ ok (out, some (set_field key "" r))
unfolding step read_field
step-word out r key full one_word other = rw (full, cut_space-word key one_word, other) refl

pub read_flag :
    (out : List Registration) (r : Registration) (key : String) (flag : Bool) (parts : List String)
    → (key == "") ≡ false
    → has_space key ≡ false
    → (key == "worktree") ≡ false
    → parse_from (out, some r) (flag_line key flag ++ parts)
      ≡ parse_from (out, some (if flag then set_field key "" r else r)) parts
read_flag out r key false parts full one_word other = refl
read_flag out r key true parts full one_word other =
    parse_from-ok (out, some r) _ _ parts (step-word out r key full one_word other)

-- A line with a reason sets the same as the key alone.
pub read_reasoned :
    (out : List Registration) (r : Registration) (key : String) (flag : Bool)
    (lines parts : List String)
    → is_nil key ≡ false
    → (key == "") ≡ false
    → has_space key ≡ false
    → (key == "worktree") ≡ false
    → ((reason : String) → set_field key reason r ≡ set_field key "" r)
    → IsReasoned key flag lines
    → parse_from (out, some r) (lines ++ parts)
      ≡ parse_from (out, some (if flag then set_field key "" r else r)) parts
read_reasoned out r key flag lines parts full full' one_word other ignored unset = refl
read_reasoned out r key flag lines parts full full' one_word other ignored bare_key =
    parse_from-ok (out, some r) _ _ parts (step-word out r key full' one_word other)
read_reasoned out r key flag lines parts full full' one_word other ignored (with_reason reason) =
    parse_from-ok (out, some r) _ _ parts (step-field out r key reason full one_word other)
    ∙ ap (λ z. parse_from (out, some z) parts) (ignored reason)
