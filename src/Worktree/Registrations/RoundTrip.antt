-- ===== src/Worktree/Registrations/RoundTrip.antt =====
-- A listing of registrations in the documented format is read back as them.
use mathlib.Core.List.{append-nil, append_assoc}
use ghostgc.Prelude.{
  ◌≤◌, ◌<>◌, ◌≡◌, ◌∙◌, ap, sym, refl, subst, Bool, true, false, String, none, some, List, [], ◌∷◌,
  ◌++◌, string_eq, nat_eq, if◌then◌else◌, length, length-append, All, arith,
}
use ghostgc.Daemon.{ok}
use ghostgc.Worktree.Registrations.{
  Registration, strip, trim_prefix, registration_at, set_field, close, read_field, step, finish,
  parse_from, has_pathless, check_paths, parse_registrations,
}
use ghostgc.Worktree.Registrations.Lines.{
  has_space, is_nil, cut_space-append, append-nonempty, field, value_line, flag_line, IsReasoned,
  IsPorcelain, IsListing, done, more, IsListed, parse_from-ok, read_value, read_flag, read_reasoned,
}

-- The registration as it is read, field by field.
abbrev with_head : String → Registration → Registration
with_head head r = record r { head = head }

abbrev with_ref : String → Registration → Registration
with_ref ref r = record r { ref = ref; branch = trim_prefix "refs/heads/" ref }

read_head :
    (out : List Registration) (path head : String) (parts : List String)
    → parse_from (out, some (registration_at path)) (value_line "HEAD" head ++ parts)
      ≡ parse_from (out, some (with_head head (registration_at path))) parts
unfolding set_field string_eq nat_eq has_space is_nil registration_at
read_head out path head parts =
    read_value out (registration_at path) "HEAD" head parts refl refl refl
      (λ e. let blank : head ≡ "" = ground arith in rw blank refl)

read_ref :
    (out : List Registration) (r : Registration) (ref : String) (parts : List String)
    → r.ref ≡ ""
    → r.branch ≡ ""
    → parse_from (out, some r) (value_line "branch" ref ++ parts)
      ≡ parse_from (out, some (with_ref ref r)) parts
unfolding set_field string_eq nat_eq has_space is_nil trim_prefix strip
read_ref out r ref parts e f =
    read_value out r "branch" ref parts refl refl refl
      (λ h. let blank : ref ≡ "" = ground arith in rw (blank, e, f) refl)

abbrev when : Bool → (Registration → Registration) → Registration → Registration
when flag f r = if flag then f r else r

abbrev with_flags : Bool → Bool → Bool → Bool → Registration → Registration
with_flags detached bare locked prunable r =
    when prunable (λ z. record z { prunable = true })
      (when locked (λ z. record z { locked = true })
        (when bare (λ z. record z { bare = true })
          (when detached (λ z. record z { detached = true }) r)))

read_flags :
    (out : List Registration) (r : Registration) (detached bare locked prunable : Bool)
    (locked_lines prunable_lines parts : List String)
    → IsReasoned "locked" locked locked_lines
    → IsReasoned "prunable" prunable prunable_lines
    → parse_from
        (out, some r)
        (flag_line "detached" detached
          ++ (flag_line "bare" bare ++ (locked_lines ++ (prunable_lines ++ parts))))
      ≡ parse_from (out, some (with_flags detached bare locked prunable r)) parts
unfolding set_field string_eq nat_eq has_space is_nil
read_flags out r detached bare locked prunable locked_lines prunable_lines parts l p =
    read_flag out r "detached" detached _ refl refl refl
    ∙ read_flag out _ "bare" bare _ refl refl refl
    ∙ read_reasoned out _ "locked" locked locked_lines _ refl refl refl refl (λ reason. refl) l
    ∙ read_reasoned out _ "prunable" prunable prunable_lines _ refl refl refl refl (λ reason. refl)
        p

-- A flag that is not set yet is set to what the line says.
when-set :
    (f : Bool → Registration → Registration) (flag : Bool) (r : Registration)
    → f false r ≡ r
    → when flag (f true) r ≡ f flag r
when-set f true r h = refl
when-set f false r h = sym h

-- All the fields of a listed registration give it back.
rebuilt :
    (r : Registration)
    → IsListed r
    → with_flags r.detached r.bare r.locked r.prunable
        (with_ref r.ref (with_head r.head (registration_at r.path)))
      ≡ r
unfolding registration_at
rebuilt r l =
    let s = with_ref r.ref (with_head r.head (registration_at r.path)) in
    let d : when r.detached (λ z. record z { detached = true }) s
        ≡ record s { detached = r.detached } =
      when-set (λ b z. record z { detached = b }) r.detached s refl in
    let b =
      ap (when r.bare (λ z. record z { bare = true })) d
      ∙ when-set (λ b z. record z { bare = b }) r.bare (record s { detached = r.detached }) refl in
    let k =
      ap (when r.locked (λ z. record z { locked = true })) b
      ∙ when-set (λ b z. record z { locked = b }) r.locked
          (record s { detached = r.detached; bare = r.bare }) refl in
    let p =
      ap (when r.prunable (λ z. record z { prunable = true })) k
      ∙ when-set (λ b z. record z { prunable = b }) r.prunable
          (record s { detached = r.detached; bare = r.bare; locked = r.locked }) refl in
    p
    ∙ ap (λ z. record r { common_git_dir = ""; admin_git_dir = ""; branch = z }) (sym l.branch_of)
    ∙ ap (λ z. record r { common_git_dir = z; admin_git_dir = "" }) (sym l.no_common)
    ∙ ap (λ z. record r { admin_git_dir = z }) (sym l.no_admin)

step-start :
    (out : List Registration) (path : String)
    → step (out, none) (field "worktree" path) ≡ ok (out, some (registration_at path))
unfolding step read_field string_eq nat_eq has_space is_nil
step-start out path =
    rw (append-nonempty "worktree" (" " <> path) refl, cut_space-append "worktree" path refl) refl

step-end :
    (out : List Registration) (r : Registration)
    → length (out ++ (r ∷ [])) ≤ 256
    → step (out, some r) "" ≡ ok (out ++ (r ∷ []), none)
unfolding step close string_eq
step-end out r few = ground arith

fresh_ref :
    (path head : String)
    → ((with_head head (registration_at path)).ref ≡ "")
      × ((with_head head (registration_at path)).branch ≡ "")
unfolding registration_at
fresh_ref path head = (refl, refl)

-- One listed registration is read from its fields.
read_listed :
    (out : List Registration) (r : Registration) (lines parts : List String)
    → IsListed r
    → IsPorcelain r lines
    → length (out ++ (r ∷ [])) ≤ 256
    → parse_from (out, none) (lines ++ parts) ≡ parse_from (out ++ (r ∷ []), none) parts
read_listed out r lines parts l is few =
    ap (λ z. parse_from (out, none) (z ++ parts)) is.is_lines
    ∙ parse_from-ok (out, none) _ _ _ (step-start out r.path)
    ∙ ap (parse_from (out, some (registration_at r.path))) regroup
    ∙ read_head out r.path r.head _
    ∙ read_ref out (with_head r.head (registration_at r.path)) r.ref _ (fresh_ref r.path r.head).0
        (fresh_ref r.path r.head).1
    ∙ read_flags out _ r.detached r.bare r.locked r.prunable is.locked_lines is.prunable_lines
        ("" ∷ parts) is.locked_reasoned is.prunable_reasoned
    ∙ ap (λ z. parse_from (out, some z) ("" ∷ parts)) (rebuilt r l)
    ∙ parse_from-ok (out, some r) _ "" parts (step-end out r few)
  where
    regroup :
        (value_line "HEAD" r.head
            ++ (value_line "branch" r.ref
                ++ (flag_line "detached" r.detached
                    ++ (flag_line "bare" r.bare
                        ++ (is.locked_lines ++ (is.prunable_lines ++ ("" ∷ [])))))))
          ++ parts
        ≡ value_line "HEAD" r.head
          ++ (value_line "branch" r.ref
              ++ (flag_line "detached" r.detached
                  ++ (flag_line "bare" r.bare
                      ++ (is.locked_lines ++ (is.prunable_lines ++ ("" ∷ parts))))))
    regroup = simp append_assoc

read_all :
    (out rs : List Registration) (fields : List String)
    → IsListing rs fields
    → All IsListed rs
    → length (out ++ rs) ≤ 256
    → parse_from (out, none) fields ≡ ok (out ++ rs)
unfolding parse_from step close finish string_eq
read_all out rs fields done l few = ap ok (sym (append-nil out))
read_all out rs fields (more r others lines rest is listing) l few =
    read_listed out r lines rest l.0 is
      (omega (arith, length-append out (r ∷ others), length-append out (r ∷ [])))
    ∙ read_all (out ++ (r ∷ [])) others rest listing l.1
        (subst (λ z. length z ≤ 256) (sym (append_assoc out (r ∷ []) others)) few)
    ∙ ap ok (append_assoc out (r ∷ []) others)

all_have_paths : (rs : List Registration) → All IsListed rs → has_pathless rs ≡ false
unfolding has_pathless
all_have_paths [] l = refl
all_have_paths (r ∷ rs) l = rw l.0.has_path (all_have_paths rs l.1)

-- A listing, in the documented porcelain format, of at most 256 registrations, each with a path and
-- without the directories that the format does not have, is read back as exactly these registrations,
-- in their order. Whether the locked and prunable lines give a reason, and which, makes no difference.
pub parse_registrations-IsListing :
    (rs : List Registration) (fields : List String)
    → IsListing rs fields
    → All IsListed rs
    → length rs ≤ 256
    → parse_registrations fields ≡ ok rs
unfolding parse_registrations check_paths
parse_registrations-IsListing rs fields listing l few =
    rw (read_all [] rs fields listing l few) (rw (all_have_paths rs l) refl)
