-- ===== src/Worktree.antt =====
-- internal/worktree: the state of one registered worktree, state.go and the records of types.go that
-- it reads.
pub mod Inactivity
pub mod Registrations
use ghostgc.Prelude.{
  ℕ, Bool, true, false, not, ◌&&◌, ◌||◌, ◌≡◌, String, List, [], ◌∷◌, ◌==◌, string_eq, nat_eq,
  if◌then◌else◌, Eq, is_empty,
}
use ghostgc.Prelude.Int.{double}
use ghostgc.Prelude.Int
use ghostgc.Prelude.Time.{Instant, Duration, never, is_zero, before, sub}

-- `unset` is the empty string of a worktree that has no record.
pub data State : Type 0 where
  active observing stale protected unknown missing retired removed unset : State

State-discrete : Discrete State
State-discrete = hlevel

instance unfoldable pub state_eq : Eq State
unfolding State-discrete
state_eq = record { dec = State-discrete }

-- An observation, as far as the state reads it; `fingerprint` is that of its status.
pub record Observation : Type 0 where
  pub id : String
  pub head : String
  pub ref : String
  pub present : Bool
  pub canonical : Bool
  pub prunable : Bool
  pub complete : Bool
  pub fingerprint : String
  pub protection : List String

pub record Record : Type 0 where
  pub id : String
  pub state : State
  pub head : String
  pub ref : String
  pub status_fingerprint : String
  pub last_seen : Instant
  pub last_activity : Instant
  pub inactive_since : Instant
  pub daemon_started : Instant

pub record Conclusion : Type 0 where
  pub state : State
  pub last_activity : Instant
  pub inactive_since : Instant
  pub protection : List String

-- What one scan passes to Classify beside the previous record. `moved` says that the path, its file
-- or the sources changed, which the scan answers by forgetting the state.
pub record Scan : Type 0 where
  pub seen : Observation
  pub now : Instant
  pub daemon_started : Instant
  pub stale_after : Duration
  pub scan_interval : Duration
  pub busy : Bool
  pub all_seen : Bool
  pub moved : Bool

reset : Scan → State → Conclusion
reset s state = record {
  state = state;
  last_activity = s.now;
  inactive_since = never;
  protection = s.seen.protection;
}

unfoldable pub is_continuous : Record → Scan → Bool
is_continuous previous s =
    (previous.state == observing || previous.state == stale)
    && previous.id == s.seen.id
    && previous.daemon_started == s.daemon_started
    && not (is_zero previous.last_seen)
    && not (before s.now previous.last_seen)
    && Int.leb (sub s.now previous.last_seen) (double s.scan_interval)
    && previous.head == s.seen.head
    && previous.ref == s.seen.ref
    && previous.status_fingerprint == s.seen.fingerprint

-- The start of the inactivity that goes on.
unfoldable pub inactive_from : Record → Scan → Instant
inactive_from previous s =
    if is_zero previous.inactive_since || before s.now previous.inactive_since
    then s.now
    else previous.inactive_since

unfoldable pub continue : Record → Scan → Conclusion
continue previous s =
    let since = inactive_from previous s in
    record {
      state = if Int.leb s.stale_after (sub s.now since) then stale else observing;
      last_activity = if is_zero previous.last_activity then s.now else previous.last_activity;
      inactive_since = since;
      protection = [];
    }

-- An observation that nothing keeps from being inactive.
unfoldable pub inactive : Record → Scan → Conclusion
inactive previous s = if is_continuous previous s then continue previous s else record {
  state = observing;
  last_activity = s.now;
  inactive_since = s.now;
  protection = [];
}

unfoldable pub classify : Record → Scan → Conclusion
unfolding reset
classify previous s =
    if not s.seen.present || s.seen.prunable
    then reset s missing
    else if not s.all_seen || not s.seen.complete || not s.seen.canonical
    then reset s unknown
    else if s.busy
    then reset s active
    else if not (is_empty s.seen.protection)
    then reset s protected
    else inactive previous s

-- What the scan keeps of a conclusion, as the next scan reads it back.
unfoldable pub remember : Scan → Conclusion → Record
remember s c = record {
  id = s.seen.id;
  state = c.state;
  head = s.seen.head;
  ref = s.seen.ref;
  status_fingerprint = s.seen.fingerprint;
  last_seen = s.now;
  last_activity = c.last_activity;
  inactive_since = c.inactive_since;
  daemon_started = s.daemon_started;
}

abbrev pub no_record : Record
no_record = record {
  id = "";
  state = unset;
  head = "";
  ref = "";
  status_fingerprint = "";
  last_seen = never;
  last_activity = never;
  inactive_since = never;
  daemon_started = never;
}

-- The record that a scan passes on: the state is forgotten if the worktree moved.
unfoldable pub prior : Bool → Record → Record
prior moved r = if moved then record r { state = unknown } else r
