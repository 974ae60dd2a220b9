-- ===== src/Process.antt =====
-- internal/process/process.go: one observation of an operating-system process, its identity that
-- survives PID reuse, and the indexed snapshot of the process table.
pub mod Snapshots
pub mod Tree
pub mod Activity
pub mod Keys
use Prim.Native.Char.{Char, code}
use mathlib.Core.Option
use ghostgc.Prelude.{
  ℕ, suc, ◌+◌, String, ◌≡◌, refl, ◌≢◌, Bool, true, false, not, ◌&&◌, ◌||◌, Option, none, some, List,
  [], ◌∷◌, arith, ◌==◌, ◌!=◌, if◌then◌else◌, Eq, nat_eq, string_eq, get_elem?,
}
use ghostgc.Prelude.Int.{ℤ, pos, int_eq}
use ghostgc.Prelude.Time.{Instant, Duration, unix_nano}

pub data Status : Type 0 where
  unknown starting running sleeping stopped zombie : Status

Status-discrete : Discrete Status
Status-discrete = hlevel

instance unfoldable pub status_eq : Eq Status
unfolding Status-discrete
status_eq = record { dec = Status-discrete }

-- A PID with the start time of the process that has it.
pub record Key : Type 0 where
  pub pid : ℤ
  pub start_time_ns : ℤ

Key-discrete : Discrete Key
unfolding int_eq
Key-discrete = hlevel (int_eq.dec)

instance unfoldable pub key_eq : Eq Key
unfolding Key-discrete
key_eq = record { dec = Key-discrete }

-- A map from environment variable names is an association list.
pub record Process : Type 0 where
  pub pid : ℤ
  pub ppid : ℤ
  pub pgid : ℤ
  pub sid : ℤ
  pub uid : ℕ
  pub start_time : Instant
  pub comm : String
  pub status : Status
  pub tty : String
  pub detailed : Bool
  pub exec_path : String
  pub args : List String
  pub cwd : String
  pub env : List (String × String)
  pub env_readable : Bool
  pub cpu_time : Duration
  pub rss_bytes : ℕ
  pub vsz_bytes : ℕ
  pub threads : ℤ

pub record ExecutableIdentity : Type 0 where
  pub exec_path : String
  pub comm : String

ExecutableIdentity-discrete : Discrete ExecutableIdentity
unfolding string_eq
ExecutableIdentity-discrete = hlevel (string_eq.dec)

instance unfoldable pub executable_eq : Eq ExecutableIdentity
unfolding ExecutableIdentity-discrete
executable_eq = record { dec = ExecutableIdentity-discrete }

abbrev pub new_key : ℤ → Instant → Key
new_key pid start = record { pid = pid; start_time_ns = unix_nano start }

abbrev pub key : Process → Key
key p = new_key p.pid p.start_time

abbrev pub no_tty : String
no_tty = ""

abbrev pub has_tty : Process → Bool
has_tty p = p.tty != no_tty

-- The exact image, when the detail pass supplied both its path and its kernel name.
unfoldable pub executable : Process → Option ExecutableIdentity
executable p =
    if not p.detailed || p.exec_path == "" || p.comm == ""
    then none
    else some (record { exec_path = p.exec_path; comm = p.comm })

-- What follows the last `/`, if there is one.
unfoldable pub after_last_slash : String → Option String
after_last_slash String.[] = none
after_last_slash (String.◌∷◌ c s) = elim (after_last_slash s) [
  | some rest ↦ some rest
  | none ↦ if code c == b'/' then some s else none
]

-- A path that ends in `/` is its own name.
name_of_path : String → Option String → String
name_of_path path none = path
name_of_path path (some rest) = if rest == "" then path else rest

unfoldable pub name : Process → String
unfolding name_of_path after_last_slash
name p =
    if p.exec_path != "" then name_of_path p.exec_path (after_last_slash p.exec_path) else p.comm

-- `Processes` with the index `byPID`, from which the look-ups read.
pub record Snapshot : Type 0 where
  pub taken : Instant
  pub processes : List Process
  pub total_count : ℤ
  pub index : ℤ → Option ℕ

-- The loop of `NewSnapshot`: a later entry of the same PID replaces the earlier one.
index_from : ℕ → List Process → (ℤ → Option ℕ) → ℤ → Option ℕ
index_from i [] index = index
index_from i (p ∷ ps) index =
    index_from (i + 1) ps (λ pid. if pid == p.pid then some i else index pid)

unfoldable pub new_snapshot : Instant → List Process → ℤ → Snapshot
unfolding index_from
new_snapshot taken procs total = record {
  taken = taken;
  processes = procs;
  total_count = total;
  index = index_from 0 procs (λ _. none);
}

-- A position outside the list does not occur in an index that `new_snapshot` builds; Go would panic.
unfoldable pub by_pid : Snapshot → ℤ → Option Process
by_pid s pid = elim (s.index pid) [ none ↦ none | some i ↦ get_elem? s.processes i ]

unfoldable pub by_key : Snapshot → Key → Option Process
by_key s k = elim (by_pid s k.pid) [ none ↦ none | some p ↦ if key p != k then none else some p ]
