-- ===== src/Tests/Worktrees.antt =====
-- A listing of two worktrees, and three scans of one worktree that nothing touches.
use ghostgc.Daemon.{ok}
use ghostgc.Worktree.Registrations.{Registration, trim_prefix, strip, parse_registrations}
use ghostgc.Worktree.Registrations.Lines.{IsListed, IsListing, more, done, unset, with_reason}
use ghostgc.Worktree.Registrations.RoundTrip.{parse_registrations-IsListing}
use ghostgc.Prelude.{
  All, arith, ◌≡◌, refl, true, false, List, String, [], ◌∷◌, ◌++◌, nat_eq, string_eq,
}
use ghostgc.Prelude.Int.{◌≤ℤ◌, double}
use ghostgc.Prelude.Time.{Instant, seconds, sub}
use ghostgc.Worktree.{
  Observation, Scan, stale, state_eq, classify, is_continuous, inactive_from, continue, inactive,
  remember, prior,
}
use ghostgc.Worktree.Inactivity.{InactiveSince, left_by, conclude, stale_history}

abbrev topic_tree : Registration
topic_tree = record {
  path = "/tmp/a path\nwith-tab\tand spaces";
  common_git_dir = "";
  admin_git_dir = "";
  head = "abc123";
  ref = "refs/heads/topic";
  branch = "topic";
  detached = false;
  bare = false;
  locked = false;
  prunable = false;
}

abbrev detached_tree : Registration
detached_tree = record topic_tree {
  path = "/tmp/detached";
  head = "def456";
  ref = "";
  branch = "";
  detached = true;
  locked = true;
}

abbrev topic_lines : List String
topic_lines =
    "worktree /tmp/a path\nwith-tab\tand spaces" ∷ "HEAD abc123" ∷ "branch refs/heads/topic" ∷ ""
    ∷ []

abbrev detached_lines : List String
detached_lines = "worktree /tmp/detached" ∷ "HEAD def456" ∷ "detached" ∷ "locked reason" ∷ "" ∷ []

listed : IsListing (topic_tree ∷ detached_tree ∷ []) (topic_lines ++ (detached_lines ++ ("" ∷ [])))
unfolding string_eq nat_eq
listed =
    more topic_tree (detached_tree ∷ []) topic_lines (detached_lines ++ ("" ∷ []))
      (record {
        locked_lines = [];
        locked_reasoned = unset;
        prunable_lines = [];
        prunable_reasoned = unset;
        is_lines = refl;
      })
      (more detached_tree [] detached_lines ("" ∷ [])
        (record {
          locked_lines = "locked reason" ∷ [];
          locked_reasoned = with_reason "reason";
          prunable_lines = [];
          prunable_reasoned = unset;
          is_lines = refl;
        })
        done)

both-IsListed : All IsListed (topic_tree ∷ detached_tree ∷ [])
unfolding string_eq trim_prefix strip nat_eq
both-IsListed = (
  record { has_path = refl; branch_of = refl; no_common = refl; no_admin = refl },
  (record { has_path = refl; branch_of = refl; no_common = refl; no_admin = refl }, tt),
)

parse_registrations-IsListing_example :
    parse_registrations (topic_lines ++ (detached_lines ++ ("" ∷ [])))
    ≡ ok (topic_tree ∷ detached_tree ∷ [])
parse_registrations-IsListing_example =
    parse_registrations-IsListing (topic_tree ∷ detached_tree ∷ [])
      (topic_lines ++ (detached_lines ++ ("" ∷ []))) listed both-IsListed (omega arith)

abbrev clean : Observation
clean = record {
  id = "w";
  head = "h";
  ref = "r";
  present = true;
  canonical = true;
  prunable = false;
  complete = true;
  fingerprint = "f";
  protection = [];
}

abbrev scan : Instant → Scan
scan now = record {
  seen = clean;
  now = now;
  daemon_started = 1;
  stale_after = seconds 60;
  scan_interval = seconds 30;
  busy = false;
  all_seen = true;
  moved = false;
}

abbrev last : Scan
last = scan 70000000000

abbrev before_last : List Scan
before_last = scan 40000000000 ∷ scan 10000000000 ∷ []

last_is_stale : (conclude last before_last).state ≡ stale
unfolding left_by classify is_continuous inactive_from continue inactive remember prior state_eq
    nat_eq string_eq sub double
last_is_stale = refl

stale_history_example :
    let since = (conclude last before_last).inactive_since in
    InactiveSince since last before_last × (last.stale_after ≤ℤ sub last.now since)
stale_history_example = stale_history last before_last last_is_stale
