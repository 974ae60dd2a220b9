-- ===== src/Classification.antt =====
-- internal/classification/classification.go: activity evidence becomes one deterministic state.
pub mod Conclusions
pub mod History
use ghostgc.Prelude.{
  ◌<>◌, Bool, true, false, not, ◌&&◌, ◌||◌, String, Option, none, some, List, [], ◌∷◌, ◌++◌, Eq,
  ◌==◌, ◌!=◌, string_eq, bool_eq, if◌then◌else◌,
}
use ghostgc.Prelude.Int.{ℤ, pos, negsuc, int_eq, double}
use ghostgc.Prelude.Int
use ghostgc.Prelude.Time.{Instant, Duration, is_zero, sub, minutes}
use ghostgc.Prelude.Runtime.{Runtime}
use ghostgc.Process.{Key, key_eq, Status, zombie, stopped, status_eq}

-- `unset` is the empty string that a zero `Previous` holds.
pub data State : Type 0 where
  active waiting idle suspicious hung crashed orphaned unknown unset : State

State-discrete : Discrete State
State-discrete = hlevel

instance unfoldable pub state_eq : Eq State
unfolding State-discrete
state_eq = record { dec = State-discrete }

-- `string(state)`.
unfoldable pub state_string : State → String
state_string active = "active"
state_string waiting = "waiting"
state_string idle = "idle"
state_string suspicious = "suspicious"
state_string hung = "hung"
state_string crashed = "crashed"
state_string orphaned = "orphaned"
state_string unknown = "unknown"
state_string unset = ""

abbrev pub strong_conclusion_window : Duration
strong_conclusion_window = minutes 5

pub record Evidence : Type 0 where
  pub rule : String
  pub detail : String

abbrev pub evidence : String → String → Evidence
evidence rule detail = record { rule = rule; detail = detail }

pub record Activity (R : Runtime) : Type 0 where
  pub taken : Instant
  pub baseline_ok : Bool
  pub cpu_percent : R.Float
  pub cpu_known : Bool
  pub disk_read_bytes : ℤ
  pub disk_written_bytes : ℤ
  pub io_known : Bool
  pub writable_repository_files : ℤ
  pub files_known : Bool
  pub connected_sockets : ℤ
  pub network_changed : Bool
  pub sockets_known : Bool

-- The prior committed result for the process. A Go status "" stands in a zero value only, where
-- the stable time is zero too; the model has no such status, and takes `Status.unknown`.
pub record Previous : Type 0 where
  pub key : Key
  pub basis : State
  pub detached : Bool
  pub session_ended : Bool
  pub process_status : Status
  pub stable_since : Instant
  pub sampled_at : Instant

pub record Input (R : Runtime) : Type 0 where
  pub key : Key
  pub status : Status
  pub detached : Bool
  pub session_ended : Bool
  pub activity : Activity R
  pub previous : Previous
  pub evidence_cadence : Duration
  pub detachment_detail : String

pub record Result : Type 0 where
  pub state : State
  pub basis : State
  pub detached : Bool
  pub session_ended : Bool
  pub stable_since : Instant
  pub evidence : List Evidence

module _ (R : Runtime) where
  unfoldable pub incomplete_reason : Activity R → String
  incomplete_reason a =
      if is_zero a.taken
      then "activity sample time is unavailable"
      else if not a.baseline_ok
      then "activity has no valid exact-key baseline"
      else if not a.cpu_known
      then "CPU activity is unavailable"
      else if not a.io_known
      then "disk activity is unavailable"
      else if not a.files_known
      then "open-file evidence is unavailable"
      else if not a.sockets_known
      then "socket evidence is unavailable"
      else ""

  abbrev positive : ℤ → Bool
  positive z = Int.ltb (pos 0) z

  unfoldable pub basis : Activity R → State × List Evidence
  basis a =
      if R.lt (R.of_int (pos 0)) a.cpu_percent
        || positive a.disk_read_bytes
        || positive a.disk_written_bytes
        || a.network_changed
      then (
        active,
        evidence "progress-observed-v1" "CPU, disk or socket-queue progress was observed" ∷ [],
      )
      else if positive a.writable_repository_files || positive a.connected_sockets
      then (
        waiting,
        evidence "live-resource-wait-v1"
              "no progress was observed while writable repository files or connected sockets remained"
            ∷ [],
      )
      else (
        idle,
        evidence "complete-inactivity-v1"
              "complete CPU, disk, file and socket evidence showed no progress or live resource hold"
            ∷ [],
      )

  unfoldable pub basis_state : Activity R → State
  basis_state a = (basis a).0

  unfoldable pub same_window : Input R → Bool
  unfolding basis_state
  same_window i =
      let p = i.previous in
      let gap = sub i.activity.taken p.sampled_at in
      p.key == i.key
      && not (is_zero p.stable_since)
      && p.basis != unknown
      && p.basis == basis_state i.activity
      && p.detached == i.detached
      && p.session_ended == i.session_ended
      && p.process_status == i.status
      && positive i.evidence_cadence
      && positive gap
      && Int.leb gap (double i.evidence_cadence)

  -- The `switch` over the state, its status, its basis and how long that has been stable.
  conclude : Input R → Duration → Result → Result
  conclude i stable_for r =
      if i.session_ended && i.detached && (r.basis == active || r.basis == waiting)
      then record r {
        state = suspicious;
        evidence =
            r.evidence
            ++ (evidence "post-session-work-v1"
                  "a detached process retained activity or live resources after its session ended"
                ∷ []);
      }
      else if i.session_ended
          && i.detached
          && r.basis == idle
          && not (Int.ltb stable_for strong_conclusion_window)
      then record r {
        state = orphaned;
        evidence =
            r.evidence
            ++ (evidence "stable-orphan-v1" (
                  "detached known-idle evidence remained stable for " <> R.duration_text stable_for)
                ∷ []);
      }
      else if i.status == stopped
          && (r.basis == idle || r.basis == waiting)
          && not (Int.ltb stable_for strong_conclusion_window)
      then record r {
        state = hung;
        evidence =
            r.evidence
            ++ (evidence "stable-stopped-v1" (
                  "stopped known-inactive evidence remained stable for "
                  <> R.duration_text stable_for)
                ∷ []);
      }
      else r

  -- The branch of complete evidence.
  classify_known : Input R → Result
  unfolding conclude
  classify_known i =
      let (state, found) = basis i.activity in
      let since = if same_window i then i.previous.stable_since else i.activity.taken in
      conclude i (sub i.activity.taken since) (record {
        state = state;
        basis = state;
        detached = i.detached;
        session_ended = i.session_ended;
        stable_since = since;
        evidence = found;
      })

  classify_sample : Input R → Result
  unfolding classify_known
  classify_sample i =
      let start : Result = record {
        state = unknown;
        basis = unknown;
        detached = i.detached;
        session_ended = i.session_ended;
        stable_since = i.activity.taken;
        evidence = [];
      } in
      let reason = incomplete_reason i.activity in
      if i.status == zombie
      then record start {
        state = crashed;
        basis = crashed;
        evidence = evidence "kernel-zombie-v1" "the kernel reported zombie state" ∷ [];
      }
      else if reason != ""
      then record start { evidence = evidence "activity-unknown-v1" reason ∷ [] }
      else classify_known i

  -- The deferred function: a detached process carries the evidence of its lost parent.
  add_detachment : Input R → Result → Result
  add_detachment i r =
      let detail =
        if i.detachment_detail == ""
        then "an observed original-parent link was lost"
        else i.detachment_detail in
      if r.detached
      then record r { evidence = r.evidence ++ (evidence "observed-parent-loss-v1" detail ∷ []) }
      else r

  unfoldable pub classify : Input R → Result
  unfolding classify_sample add_detachment
  classify i = add_detachment i (classify_sample i)
