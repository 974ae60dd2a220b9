-- ===== src/Lib.antt =====
-- ghostgc: a model of the part of the daemon that decides about processes and signals them, of its
-- cache lane, and of the state of a worktree.
--
-- ghostgc observes the processes of coding agents, classifies each from samples of its activity,
-- applies hard protections and narrow policies, and sends one SIGTERM to a process that a policy
-- selects, after an approval by hand or under an enforce policy. This library models that path from
-- the process snapshot to the signal; the code is Go, and paths are from the repository's root.
--
-- Parts, and how they meet:
-- - Process: internal/process/process.go. A snapshot with its index by PID, the PID-and-start-time
--   key, names and images. Process/Tree: tree.go, `build_tree`, `ancestors` and `descendants` as
--   BuildTree, Ancestors and Descendants. Process/Activity: activity.go, the difference of two
--   samples. Process/Keys: Key.UID and ParseKey.
-- - Classification: internal/classification/classification.go, `classify` as Classify, on the delta
--   of two samples and on what was kept of the sample before. Classification/History chains the
--   samples as internal/daemon/classification.go keeps them.
-- - Protection: internal/protection/protection.go, `evaluate` as Evaluate, on a process, its
--   attribution and the adapters' rules.
-- - Config: the modes of internal/config/config.go; Config/Policies: validatePolicies of
--   internal/config/policy.go, with one constructor of `PolicyError` for each refusal.
-- - Policy: internal/policy/policy.go, `evaluate` as Evaluate, on a policy, a classified target and
--   its protections.
-- - Daemon: internal/daemon. Approvals: the map of approvals and consumeApproval of approval.go, over
--   any kind of approval that has an instance of `Ticket`.
--   Preview: CleanupPreview. Gates: the gates of backend_policy.go. Revalidation:
--   revalidateCleanup of action_revalidation.go, which runs the snapshot, the tree, the classifier,
--   the protections and the policy once more. Signals: SignalProcess of
--   internal/platform/darwin/signal.go. Actions: CleanupApply and executeCleanupLocked of action.go.
--   Automatic: automatic.go. PolicyScan: evaluatePolicies of policy.go, the rows that it stores and
--   what the retention pass of internal/storage/retention.go keeps of them; PolicyScan/Histories
--   chains scans and passes.
-- - Cache: the records of internal/cacheartifact. Cache/Config: Cache.Validate of
--   internal/config/cache.go. Cache/Evaluation: Evaluate of internal/cachepolicy/evaluate.go, and in
--   Runs the record of one artifact over evaluations and actions. Cache/Store: the transactions of
--   internal/storage/cache_transition.go and cache_write.go on rows. Cache/Lane: the requests of
--   internal/daemon: Previews (cache_approval.go), Revalidation (cache_revalidation.go), Actions
--   (cache_action.go with the quarantine and restore actions) and Purge (cache_purge_action.go);
--   Requests runs them in sequence. It shares the map of approvals with Daemon, by an instance of
--   `Ticket`.
-- - Worktree: internal/worktree/state.go, `classify` as Classify, over the scans of one worktree as
--   internal/daemon/worktree_scan.go chains them. Registrations: ParseRegistrations of
--   parse.go; Registrations/Lines says the documented format of the listing that git gives it. The
--   worktree parts share nothing with the process path.
--
-- State and time. The memory of the daemon is explicit: the approvals and the list of effects are
-- passed through, and the rest is the record `Daemon`. What the platform, the store, the clock, the
-- random source and the digests answer during one request is the record `World`, and its fields are
-- arbitrary, so a theorem holds whatever they answer. An effect is a transaction that committed, an
-- audit entry, or one call of kill(2). The cache lane has its tables, approvals and purge plans in the
-- record `Lane`, with a journal of what it began, called and ended, and `CacheWorld` answers for it.
-- A request is one function: the approval is consumed under one
-- lock, and the daemon holds another from the revalidation to the record of the outcome. What happens
-- to the approvals between requests is a list of operations in Daemon/Approvals/SingleUse.
--
-- Numbers. An instant is the number of nanoseconds since the zero time of Go; a duration is an
-- integer, and a difference of instants saturates as in Go. uint64 counters are natural numbers that
-- are only subtracted after a comparison. `unix_nano` gives the exact count also at instants before
-- 1678 and after 2262, where Go defines no result of UnixNano. What the model asks of the decimal
-- texts of Go is the record `IsDecimal` of Process/Keys, in the range of int64. IEEE floating point, case folding, trimming and the text of
-- fmt and time are the fields of `Runtime`.
--
-- Bounds. The walks over the tree have the source's own bound of 128 levels as their fuel, so that
-- the model returns at the bound exactly when the code does; nothing else needs fuel.
--
-- Not modelled: the scan of the cache lane, the checked renames of internal/cachefs,
-- the rest of the worktree lane, the attribution of processes to sessions, redaction, the collection
-- loop, the rest of storage, the API, the command line and the collectors of each platform. The paths
-- above take what they need of them from `World` and `CacheWorld`. SHA-256 and JSON are parameters.
-- The log, the metrics and the list of degraded notes are left out, since nothing on the paths reads
-- them.
pub mod Prelude
pub mod Process
pub mod Classification
pub mod Protection
pub mod Config
pub mod Policy
pub mod Daemon
pub mod Worktree
pub mod Cache
mod Tests
