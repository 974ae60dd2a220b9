-- ===== src/Protection/Paths.antt =====
-- The functions of `path` and `strings` that the protections use on executable paths. A `/` is
-- one byte and one character, so the walks go by characters.
use Prim.Native.Char.{code}
use ghostgc.Prelude.{
  Bool, true, false, ◌&&◌, ◌||◌, String, none, some, List, [], ◌∷◌, ◌==◌, string_eq, nat_eq,
  if◌then◌else◌,
}
use ghostgc.Process.{after_last_slash}

trim_left : String → String
trim_left String.[] = String.[]
trim_left (String.◌∷◌ c s) =
    let rest = trim_left s in if code c == b'/' then rest else String.◌∷◌ c s

trim_right : String → String
trim_right String.[] = String.[]
trim_right (String.◌∷◌ c s) =
    let rest = trim_right s in if rest == "" && code c == b'/' then String.[] else String.◌∷◌ c rest

-- strings.Trim(s, "/").
unfoldable pub trim_slashes : String → String
unfolding trim_left trim_right
trim_slashes s = trim_left (trim_right s)

-- strings.Split(s, "/"): at least one part.
unfoldable pub split_slashes : String → List String
split_slashes String.[] = "" ∷ []
split_slashes (String.◌∷◌ c s) = elim (split_slashes s) [
  | [] ↦ []
  | first ∷ rest ↦ if code c == b'/' then "" ∷ first ∷ rest else String.◌∷◌ c first ∷ rest
]

base_of : String → String
base_of trimmed =
    if trimmed == ""
    then "/"
    else elim (after_last_slash trimmed) [ none ↦ trimmed | some rest ↦ rest ]

-- path.Base.
unfoldable pub path_base : String → String
unfolding base_of trim_right after_last_slash
path_base path = if path == "" then "." else base_of (trim_right path)

starts_with_run : List String → List String → Bool
starts_with_run [] segments = true
starts_with_run (w ∷ want) [] = false
starts_with_run (w ∷ want) (x ∷ segments) = x == w && starts_with_run want segments

-- Some stretch of the segments is the wanted one.
unfoldable pub contains_run : List String → List String → Bool
unfolding starts_with_run
contains_run want [] = starts_with_run want []
contains_run want (x ∷ segments) = starts_with_run want (x ∷ segments) || contains_run want segments
