-- ===== src/Cache.antt =====
-- internal/cacheartifact: the identities, the lifecycle and the durable records of cache artifacts;
-- and the cache configuration of internal/config/cache.go.
pub mod Config
pub mod Evaluation
pub mod Store
pub mod Lane
use native.Mathlib.Decide.{ℕ_discrete}
use ghostgc.Prelude.{ℕ, Bool, true, false, ◌&&◌, String, List, Eq, ◌==◌, string_eq, nat_eq}
use ghostgc.Prelude.Int.{ℤ, int_eq}
use ghostgc.Prelude.Time.{Duration}
use ghostgc.Config.{Mode}

pub data Lifecycle : Type 0 where
  observed protected settling stale_candidate recommended : Lifecycle
  quarantined restored purged partial failed : Lifecycle

Lifecycle-discrete : Discrete Lifecycle
Lifecycle-discrete = hlevel

instance unfoldable pub lifecycle_eq : Eq Lifecycle
unfolding Lifecycle-discrete
lifecycle_eq = record { dec = Lifecycle-discrete }

-- The metadata of one filesystem entry.
pub record Identity : Type 0 where
  pub uid : ℕ
  pub device : ℕ
  pub inode : ℕ
  pub mode : ℕ
  pub nlink : ℕ
  pub size : ℤ
  pub mtime_ns : ℤ
  pub ctime_ns : ℤ
  pub atime_ns : ℤ
  pub birth_ns : ℤ
  pub entry_type : String

Identity-discrete : Discrete Identity
Identity-discrete = hlevel (ℕ_discrete, int_eq.dec, string_eq.dec)

-- Identity.Equal.
instance unfoldable pub identity_eq : Eq Identity
unfolding Identity-discrete
identity_eq = record { dec = Identity-discrete }

unfoldable pub same_object : Identity → Identity → Bool
same_object i j =
    i.uid == j.uid && i.device == j.device && i.inode == j.inode && i.entry_type == j.entry_type

pub record Artifact : Type 0 where
  pub id : String
  pub provider : String
  pub agent : String
  pub session_id : String
  pub kind : String
  pub root_path : String
  pub relative_path : String
  pub identity : Identity
  pub root_identity : Identity
  pub identity_digest : String
  pub manifest_digest : String
  pub first_observed_ns : ℤ
  pub last_observed_ns : ℤ
  pub stable_since_ns : ℤ
  pub lifecycle : Lifecycle
  pub reason : String
  pub evidence : List String
  pub configuration : String
  pub evaluation_id : ℤ
  pub policy_id : String
  pub quarantine_path : String
  pub quarantined_at_ns : ℤ
  pub quarantine_digest : String

pub record Decision : Type 0 where
  pub id : ℤ
  pub evaluation_id : ℤ
  pub artifact_id : String
  pub policy_id : String
  pub result : String
  pub reason : String
  pub evidence : List String

pub record Action : Type 0 where
  pub id : ℤ
  pub action_id : String
  pub artifact_id : String
  pub kind : String
  pub policy_id : String
  pub requested_ns : ℤ
  pub updated_ns : ℤ
  pub result : String
  pub reason : String
  pub evidence : List String

pub record Quarantine : Type 0 where
  pub artifact_id : String
  pub root_path : String
  pub original_path : String
  pub quarantine_path : String
  pub identity : Identity
  pub manifest_digest : String
  pub quarantined_ns : ℤ
  pub grace_until_ns : ℤ
  pub status : String
  pub updated_ns : ℤ
  pub configuration : String
  pub original_manifest : String

pub record CachePolicy : Type 0 where
  pub id : String
  pub description : String
  pub enabled : Bool
  pub mode : Mode
  pub provider : String
  pub agent : String
  pub artifact_kind : String
  pub session_state : String

pub record CacheConfig : Type 0 where
  pub enabled : Bool
  pub global_mode : Mode
  pub roots : List String
  pub scan_interval : Duration
  pub min_stable : Duration
  pub quarantine_grace : Duration
  pub max_entries_per_scan : ℤ
  pub max_entries_per_action : ℤ
  pub max_bytes_per_action : ℤ
  pub policies : List CachePolicy

-- SHA-256 over JSON: the digests of a configuration and of an identity, and of a path with one.
pub record Digests : Type 0 where
  pub of_config : CacheConfig → String
  pub of_identity : Identity → String
  pub of_manifest : String → Identity → String
