-- ===== src/Process/Activity.antt =====
-- internal/process/activity.go: the difference between two activity samples of one process.
use ghostgc.Prelude.{
  ℕ, ◌-◌, ◌≤◌, ◌<◌, ◌≡◌, ◌↔◌, Bool, true, false, not, ◌&&◌, ◌||◌, String, arith, leb, ◌!=◌, nat_eq,
  if◌then◌else◌,
}
use ghostgc.Prelude.Int.{ℤ, pos, int_eq, sub64, ◌≤ℤ◌, leb→le}
use ghostgc.Prelude.Int
use ghostgc.Prelude.Time.{Instant, Duration, is_zero, after, sub}
use ghostgc.Prelude.Runtime.{Runtime}
use ghostgc.Process.{Key, key_eq}

pub record ActivitySample : Type 0 where
  pub key : Key
  pub taken : Instant
  pub cpu_time : Duration
  pub cpu_known : Bool
  pub disk_read_bytes : ℕ
  pub disk_written_bytes : ℕ
  pub io_known : Bool
  pub rss_bytes : ℕ
  pub open_files : ℤ
  pub writable_repository_files : ℤ
  pub files_known : Bool
  pub sockets : ℤ
  pub connected_sockets : ℤ
  pub receive_queue_bytes : ℕ
  pub send_queue_bytes : ℕ
  pub sockets_known : Bool
  pub note : String

pub record ActivityDelta (R : Runtime) : Type 0 where
  pub key : Key
  pub taken : Instant
  pub interval : Duration
  pub baseline_ok : Bool
  pub cpu_percent : R.Float
  pub cpu_delta : Duration
  pub cpu_known : Bool
  pub disk_read_bytes : ℕ
  pub disk_written_bytes : ℕ
  pub io_known : Bool
  pub open_files : ℤ
  pub writable_repository_files : ℤ
  pub files_known : Bool
  pub sockets : ℤ
  pub connected_sockets : ℤ
  pub receive_queue_bytes : ℕ
  pub send_queue_bytes : ℕ
  pub network_changed : Bool
  pub sockets_known : Bool
  pub note : String

module _ (R : Runtime) where
  -- What a delta holds before any baseline is used.
  initial : ActivitySample → ActivityDelta R
  initial current = record {
    key = current.key;
    taken = current.taken;
    interval = pos 0;
    baseline_ok = false;
    cpu_percent = R.of_int (pos 0);
    cpu_delta = pos 0;
    cpu_known = false;
    disk_read_bytes = 0;
    disk_written_bytes = 0;
    io_known = false;
    open_files = current.open_files;
    writable_repository_files = current.writable_repository_files;
    files_known = current.files_known;
    sockets = current.sockets;
    connected_sockets = current.connected_sockets;
    receive_queue_bytes = current.receive_queue_bytes;
    send_queue_bytes = current.send_queue_bytes;
    network_changed = false;
    sockets_known = current.sockets_known;
    note = current.note;
  }

  add_cpu : ActivitySample → ActivitySample → ActivityDelta R → ActivityDelta R
  add_cpu previous current d =
      let delta = sub64 current.cpu_time previous.cpu_time in
      if previous.cpu_known && current.cpu_known && Int.leb previous.cpu_time current.cpu_time
      then record d {
        cpu_delta = delta;
        cpu_percent = R.div (R.mul (R.of_int (pos 100)) (R.of_int delta)) (R.of_int d.interval);
        cpu_known = true;
        baseline_ok = true;
      }
      else d

  -- The counters are uint64 and do not fall, so the truncated `-` is exact.
  add_io : ActivitySample → ActivitySample → ActivityDelta R → ActivityDelta R
  add_io previous current d =
      if previous.io_known
        && current.io_known
        && leb previous.disk_read_bytes current.disk_read_bytes
        && leb previous.disk_written_bytes current.disk_written_bytes
      then record d {
        disk_read_bytes = current.disk_read_bytes - previous.disk_read_bytes;
        disk_written_bytes = current.disk_written_bytes - previous.disk_written_bytes;
        io_known = true;
        baseline_ok = true;
      }
      else d

  network_differs : ActivitySample → ActivitySample → Bool
  network_differs previous current =
      previous.sockets != current.sockets
      || previous.connected_sockets != current.connected_sockets
      || previous.receive_queue_bytes != current.receive_queue_bytes
      || previous.send_queue_bytes != current.send_queue_bytes

  add_network : ActivitySample → ActivitySample → ActivityDelta R → ActivityDelta R
  add_network previous current d =
      if previous.sockets_known && current.sockets_known
      then record d { network_changed = network_differs previous current }
      else d

  unfoldable pub derive_activity : ActivitySample → ActivitySample → ActivityDelta R
  unfolding initial add_cpu add_io add_network network_differs
  derive_activity previous current =
      let d = initial current in
      if previous.key != current.key
        || is_zero previous.taken
        || not (after current.taken previous.taken)
      then d
      else let timed = record d { interval = sub current.taken previous.taken } in
        add_network previous current (add_io previous current (add_cpu previous current timed))

  -- The two samples may be compared: one process, the earlier one was taken, and time advanced.
  abbrev pub Comparable : ActivitySample → ActivitySample → Type 0
  Comparable previous current =
      (previous.key ≡ current.key) × (0 < previous.taken) × (previous.taken < current.taken)

  -- CPU activity is known exactly when the samples are comparable, both knew it and the counter did
  -- not fall; disk activity likewise; and there is a baseline exactly when one of them is known.
  pub derive_activity-known :
      (previous current : ActivitySample)
      → let d = derive_activity previous current in
        ((d.cpu_known ≡ true) ↔ (
          Comparable previous current
          × (previous.cpu_known ≡ true)
          × (current.cpu_known ≡ true)
          × (previous.cpu_time ≤ℤ current.cpu_time)))
        × ((d.io_known ≡ true) ↔ (
            Comparable previous current
            × (previous.io_known ≡ true)
            × (current.io_known ≡ true)
            × (previous.disk_read_bytes ≤ current.disk_read_bytes)
            × (previous.disk_written_bytes ≤ current.disk_written_bytes)))
        × (d.baseline_ok ≡ (d.cpu_known || d.io_known))
  unfolding derive_activity
  derive_activity-known previous current = (ground arith, ground arith, ground arith)
