-- ===== src/Worktree/Registrations.antt =====
-- internal/worktree/parse.go, ParseRegistrations: the NUL-separated fields that git lists the
-- worktrees of a repository in.
pub mod Lines
pub mod RoundTrip
use Prim.Native.Char.{code}
use ghostgc.Prelude.{
  ℕ, ◌<>◌, Bool, true, false, String, Option, none, some, List, [], ◌∷◌, ◌++◌, ◌==◌, string_eq,
  nat_eq, if◌then◌else◌, length, ltb,
}
use ghostgc.Daemon.{Result, ok, err}

pub record Registration : Type 0 where
  pub path : String
  pub common_git_dir : String
  pub admin_git_dir : String
  pub head : String
  pub ref : String
  pub branch : String
  pub detached : Bool
  pub bare : Bool
  pub locked : Bool
  pub prunable : Bool

abbrev pub max_registrations : ℕ
max_registrations = 256

-- bytes.Cut(part, " "): all of it if there is no space.
unfoldable pub cut_space : String → String × String
cut_space String.[] = (String.[], String.[])
cut_space (String.◌∷◌ c s) =
    let rest = cut_space s in
    if code c == b' ' then (String.[], s) else (String.◌∷◌ c rest.0, rest.1)

-- What follows the prefix.
unfoldable pub strip : String → String → Option String
strip String.[] s = some s
strip (String.◌∷◌ p ps) String.[] = none
strip (String.◌∷◌ p ps) (String.◌∷◌ c s) =
    let rest = strip ps s in if code p == code c then rest else none

-- strings.TrimPrefix.
unfoldable pub trim_prefix : String → String → String
trim_prefix p s = elim (strip p s) [ none ↦ s | some rest ↦ rest ]

-- &Registration{Path: value}.
unfoldable pub registration_at : String → Registration
registration_at path = record {
  path = path;
  common_git_dir = "";
  admin_git_dir = "";
  head = "";
  ref = "";
  branch = "";
  detached = false;
  bare = false;
  locked = false;
  prunable = false;
}

-- A field of the current registration.
unfoldable pub set_field : String → String → Registration → Registration
set_field key value r =
    if key == "HEAD"
    then record r { head = value }
    else if key == "branch"
    then record r { ref = value; branch = trim_prefix "refs/heads/" value }
    else if key == "detached"
    then record r { detached = true }
    else if key == "bare"
    then record r { bare = true }
    else if key == "locked"
    then record r { locked = true }
    else if key == "prunable"
    then record r { prunable = true }
    else r

-- The registrations so far, and the one that is being read.
abbrev pub Reading : Type 0
Reading = List Registration × Option Registration

-- An empty field ends the current registration.
unfoldable pub close : Reading → Result Reading
close (out, none) = ok (out, none)
close (out, some r) =
    if ltb max_registrations (length (out ++ (r ∷ [])))
    then err "worktree: registration count exceeds 256"
    else ok (out ++ (r ∷ []), none)

unfoldable pub read_field : Reading → String × String → Result Reading
read_field (out, none) (key, value) =
    if key == "worktree" then ok (out, some (registration_at value)) else ok (out, none)
read_field (out, some r) (key, value) =
    if key == "worktree"
    then err "worktree: malformed registration boundary"
    else ok (out, some (set_field key value r))

unfoldable pub step : Reading → String → Result Reading
step s part = if part == "" then close s else read_field s (cut_space part)

unfoldable pub finish : Reading → List Registration
finish (out, none) = out
finish (out, some r) = out ++ (r ∷ [])

unfoldable pub parse_from : Reading → List String → Result (List Registration)
parse_from s [] = ok (finish s)
parse_from s (part ∷ parts) = elim (step s part) [
  | ok next ↦ parse_from next parts
  | err text ↦ err text
]

-- A registration without a path is refused at the end.
unfoldable pub has_pathless : List Registration → Bool
has_pathless [] = false
has_pathless (r ∷ rs) = let rest = has_pathless rs in if r.path == "" then true else rest

unfoldable pub check_paths : Result (List Registration) → Result (List Registration)
check_paths (err text) = err text
check_paths (ok out) = if has_pathless out then err "worktree: registration has no path" else ok out

-- ParseRegistrations, on the fields that bytes.Split gives.
unfoldable pub parse_registrations : List String → Result (List Registration)
parse_registrations parts = check_paths (parse_from ([], none) parts)
