-- ===== src/Tests/Samples.antt =====
-- The data of the tests: a runtime, three processes, the samples of one of them, a policy and a world.
use Prim.Native.Char.{code}
use ghostgc.Prelude.{
  ℕ, zero, suc, ◌*◌, ◌≡◌, refl, ◌<>◌, true, false, String, Option, none, some, List, [], ◌∷◌, ltb,
  leb, ap, ◌+◌, ◌-◌, ◌/◌, ◌^◌, ◌==◌, nat_eq, string_eq, if◌then◌else◌, ◌&&◌, ◌∙◌, subst, Bool-cases,
  inl, inr, arith,
}
use ghostgc.Prelude.Int.{ℤ, pos, negsuc, max_int64}
use ghostgc.Prelude.Int
use ghostgc.Prelude.Time.{Instant, epoch, minutes, seconds}
use ghostgc.Prelude.Runtime.{Runtime}
use ghostgc.Process.{Process, Key, ExecutableIdentity, Snapshot, new_snapshot, sleeping, no_tty}
use ghostgc.Process.Keys.{uid, has_colon, IsInt64, IsDecimal}
use ghostgc.Process.Activity.{ActivitySample}
use ghostgc.Classification.{Previous, idle}
use ghostgc.Config.{recommend, enforce}
use ghostgc.Config.Policies.{Policy, Agents}
use ghostgc.Policy.{candidate}
use ghostgc.Daemon.{
  Daemon, World, ok, DecisionRecord, CleanupApproval, manual, Attribution, Reconciliation,
}
use ghostgc.Daemon.Approvals.{Approvals}

-- Numbers are written in unary here, with a sign.
abbrev unary : ℕ → String
unary zero = ""
unary (suc n) = String.◌∷◌ "1" (unary n)

abbrev count : String → ℕ
count String.[] = 0
count (String.◌∷◌ c s) = suc (count s)

abbrev signed : ℤ → String
signed (pos n) = String.◌∷◌ "+" (unary n)
signed (negsuc n) = String.◌∷◌ "-" (unary n)

unfoldable pub read_signed : String → Option ℤ
read_signed String.[] = none
read_signed (String.◌∷◌ c s) =
    if code c == b'+' then some (pos (count s)) else some (negsuc (count s))

-- A number outside the int64 range is refused.
unfoldable pub in_int64 : Option ℤ → Option ℤ
in_int64 none = none
in_int64 (some z) =
    if Int.leb (negsuc max_int64) z && Int.leb z (pos max_int64) then some z else none

unfoldable pub parse_signed : String → Option ℤ
parse_signed s = in_int64 (read_signed s)

-- Fixed-point numbers with two digits, ASCII text as it is, and numbers in unary.
abbrev pub go : Runtime
go = record {
  Float = ℕ;
  lt = ltb;
  le = leb;
  of_int = λ z. elim z [ pos n ↦ n * 100 | negsuc n ↦ 0 ];
  mul = λ a b. a * b / 100;
  div = λ a b. if b == 0 then 0 else a * 100 / b;
  literal = λ n k. n * 100 / 10 ^ k;
  to_lower = λ s. s;
  trim_space = λ s. s;
  decimal = signed;
  parse_int = parse_signed;
  quoted = λ s. "\"" <> s <> "\"";
  fixed2 = λ x. unary x;
  duration_text = signed;
  rfc3339 = λ t. "at";
}

count-unary : (n : ℕ) → count (unary n) ≡ n
count-unary zero = refl
count-unary (suc n) = ap suc (count-unary n)

has_colon-unary : (n : ℕ) → has_colon (unary n) ≡ false
unfolding has_colon nat_eq
has_colon-unary zero = refl
has_colon-unary (suc n) = has_colon-unary n

read_signed-signed : (z : ℤ) → read_signed (signed z) ≡ some z
unfolding read_signed nat_eq
read_signed-signed (pos n) = ap (λ m. some (pos m)) (count-unary n)
read_signed-signed (negsuc n) = ap (λ m. some (negsuc m)) (count-unary n)

in_int64-IsInt64 : (o : Option ℤ) (z : ℤ) → in_int64 o ≡ some z → IsInt64 z
unfolding in_int64
in_int64-IsInt64 none z h = cc
in_int64-IsInt64 (some y) z h =
    elim (Bool-cases (Int.leb (negsuc max_int64) y && Int.leb y (pos max_int64))) [
      | inl fits ↦ let e : y ≡ z = ground arith in subst IsInt64 e (ground arith)
      | inr not_fits ↦ absurd (ground arith)
    ]

parse_signed-signed : (z : ℤ) → IsInt64 z → parse_signed (signed z) ≡ some z
unfolding parse_signed in_int64
parse_signed-signed z h =
    let fits : (Int.leb (negsuc max_int64) z && Int.leb z (pos max_int64)) ≡ true = ground arith in
    ap in_int64 (read_signed-signed z) ∙ rw fits refl

has_colon-signed : (z : ℤ) → has_colon (signed z) ≡ false
unfolding has_colon nat_eq
has_colon-signed (pos n) = has_colon-unary n
has_colon-signed (negsuc n) = has_colon-unary n

pub go-IsDecimal : IsDecimal go
go-IsDecimal = record {
  parse_int-decimal = parse_signed-signed;
  parse_int-IsInt64 = λ s z h. in_int64-IsInt64 (read_signed s) z (unfold parse_signed in h);
  has_colon-decimal = has_colon-signed;
}

-- A process that was started n ns after the epoch.
abbrev process_at : ℤ → ℤ → ℕ → String → Process
process_at pid ppid n text = record {
  pid = pid;
  ppid = ppid;
  pgid = pid;
  sid = pos 3;
  uid = 501;
  start_time = epoch + n;
  comm = text;
  status = sleeping;
  tty = no_tty;
  detailed = true;
  exec_path = "/usr/bin/" <> text;
  args = [];
  cwd = "";
  env = [];
  env_readable = true;
  cpu_time = pos 5;
  rss_bytes = 1;
  vsz_bytes = 1;
  threads = pos 1;
}

-- A root, its child, and a process that was left to init.
abbrev pub root : Process
root = process_at (pos 40) (pos 1) 3 "codex"

abbrev pub child : Process
child = process_at (pos 41) (pos 40) 5 "sh"

abbrev pub leaf : Process
leaf = process_at (pos 43) (pos 41) 6 "rg"

abbrev pub worker : Process
worker = process_at (pos 42) (pos 1) 7 "helper"

abbrev pub worker_key : Key
worker_key = record { pid = pos 42; start_time_ns = pos 7 }

abbrev pub processes : List Process
processes = root ∷ child ∷ leaf ∷ worker ∷ []

-- The instant of the tests: an hour after the epoch.
abbrev pub now : Instant
now = epoch + 3600000000000

abbrev pub snapshot : Snapshot
snapshot = new_snapshot now processes (pos 4)

abbrev pub sample : Instant → ActivitySample
sample taken = record {
  key = worker_key;
  taken = taken;
  cpu_time = pos 5;
  cpu_known = true;
  disk_read_bytes = 7;
  disk_written_bytes = 7;
  io_known = true;
  rss_bytes = 1;
  open_files = pos 2;
  writable_repository_files = pos 0;
  files_known = true;
  sockets = pos 0;
  connected_sockets = pos 0;
  receive_queue_bytes = 0;
  send_queue_bytes = 0;
  sockets_known = true;
  note = "";
}

-- A quiet window that began ten minutes ago.
abbrev pub quiet_window : Previous
quiet_window = record {
  key = worker_key;
  basis = idle;
  detached = true;
  session_ended = true;
  process_status = sleeping;
  stable_since = now - 600000000000;
  sampled_at = now - 60000000000;
}

abbrev pub stale_helper : Policy
stale_helper = record {
  id = "stale-helper";
  description = "an orphaned helper";
  enabled = true;
  mode = recommend;
  automatic = false;
  states = "orphaned" ∷ [];
  agents = "codex" ∷ [];
  executables = "helper" ∷ [];
  require_detached = true;
  require_session_ended = true;
  min_stable = minutes 5;
  cooldown = minutes 60;
}

abbrev pub automatic_helper : Policy
automatic_helper = record stale_helper { mode = enforce; automatic = true }

abbrev pub policies : List Policy
policies = stale_helper ∷ []

abbrev pub agents : Agents
agents name = if name == "codex" then some true else none

abbrev pub decision : DecisionRecord
decision = record {
  id = pos 9;
  evaluation_id = pos 4;
  policy_id = "stale-helper";
  proc_uid = uid go worker_key;
  session_id = "s1";
  ts_ns = pos 1;
  classification_ts_ns = pos 1;
  classification_state = "orphaned";
  result = candidate;
  reason = "";
  cooldown_until_ns = pos 0;
  evidence_json = "";
}

abbrev pub image : ExecutableIdentity
image = record { exec_path = "/usr/bin/helper"; comm = "helper" }

abbrev pub approval : CleanupApproval
approval = record {
  binding_digest = "bound";
  decision = decision;
  policy = stale_helper;
  executable = image;
  authority = manual;
  expires = now + 60000000000;
  used = false;
}

abbrev digest : String → String
digest token = "#" <> token

abbrev pub approvals : Approvals CleanupApproval
approvals = (digest "token", approval) ∷ []

abbrev pub daemon : Daemon
daemon = record {
  global_mode = recommend;
  policies = policies;
  activity_sample_cadence = seconds 60;
  self_pid = pos 9;
  self_uid = 501;
  adapter_rules = [];
  snapshot = some snapshot;
  activity_baseline = λ _. sample (now - 60000000000);
  classification_previous = λ _. quiet_window;
}

abbrev pub enforcing_daemon : Daemon
enforcing_daemon = record daemon { global_mode = enforce; policies = automatic_helper ∷ [] }

abbrev pub attribution : Attribution go
attribution = record {
  agent_id = "codex";
  session_id = "s1";
  confidence = 97;
  original_ppid = pos 40;
  original_parent_observed = true;
  repository_path = "/src";
}

abbrev pub reconciliation : Reconciliation go
reconciliation = record {
  attributions = λ _. some attribution;
  roots = λ _. none;
  ended = "s1" ∷ [];
}

abbrev pub world : World go
world = record {
  context_error = none;
  current_decisions = ok (decision ∷ []);
  snapshot_processes = ok snapshot;
  reconcile = λ _ _. ok reconciliation;
  session_ended_ns = λ _. ok (some (pos 1));
  sample_activity = λ _ _. ok (sample now);
  inspect_process = λ _. ok worker;
  kill_error = λ _. none;
  commit_error = λ _. none;
  new_token = λ _. ok "fresh";
  secret_digest = digest;
  approval_binding = λ _ _ _. ok "bound";
  evidence_json = λ _. "[]";
  preview_json = λ _ _ _. "[]";
  now_start = now;
  now_refused = now;
  now_attempt = now;
  now_completed = now;
}
