-- ===== src/Daemon/Approvals.antt =====
-- The approvals in memory, from issue to the one use: internal/daemon/approval.go, and the same code
-- once more for cache artifacts in cache_approval.go.
pub mod SingleUse
use ghostgc.Prelude.{
  ℕ, ◌<>◌, ◌≡◌, refl, Bool, true, false, not, String, Option, none, some, List, [], ◌∷◌, ◌==◌,
  string_eq, if◌then◌else◌,
}
use ghostgc.Prelude.Time.{Instant, Duration, minutes, add, before}
use ghostgc.Daemon.{CleanupApproval}

abbrev pub approval_lifetime : Duration
approval_lifetime = minutes 2

abbrev pub max_approvals : ℕ
max_approvals = 128

-- What the maps of approvals ask of an approval: its expiry, whether it was used, the approval once
-- it is used, and what the refusals call it.
pub record Ticket (A : Type 0) : Type 0 where
  pub noun : String
  pub expires : A → Instant
  pub used : A → Bool
  pub spend : A → A
  pub used-spend : (a : A) → used (spend a) ≡ true

instance abbrev pub cleanup_ticket : Ticket CleanupApproval
cleanup_ticket = record {
  noun = "approval";
  expires = λ a. a.expires;
  used = λ a. a.used;
  spend = λ a. record a { used = true };
  used-spend = λ a. refl;
}

-- The map from digests to approvals; each digest stands once.
abbrev pub Approvals : Type 0 → Type 0
Approvals A = List (String × A)

-- What a token gets: nothing, an approval with a refusal, or an approval with authority.
pub data Consumed (A : Type 0) : Type 0 where
  missing : String → Consumed A
  denied : A → String → Consumed A
  granted : A → Consumed A

module _ {A : Type 0} where
  unfoldable pub lookup : String → Approvals A → Option A
  lookup digest [] = none
  lookup digest ((d, a) ∷ rest) = if d == digest then some a else lookup digest rest

  -- `delete(m, digest)`.
  unfoldable pub remove : String → Approvals A → Approvals A
  remove digest [] = []
  remove digest ((d, b) ∷ rest) =
      let others = remove digest rest in if d == digest then others else (d, b) ∷ others

  -- `m[digest] = a`.
  unfoldable pub insert : String → A → Approvals A → Approvals A
  unfolding remove
  insert digest a all = (digest, a) ∷ remove digest all

module _ {A : Type 0} ⦃T : Ticket A⦄ where
  -- Approvals that expired more than a lifetime ago are dropped.
  unfoldable pub prune_approvals : Instant → Approvals A → Approvals A
  prune_approvals now [] = []
  prune_approvals now ((d, a) ∷ rest) =
      let others = prune_approvals now rest in
      if before (add (T.expires a) approval_lifetime) now then others else (d, a) ∷ others

  consume_found : String → Instant → Approvals A → A → Approvals A × Consumed A
  consume_found digest now all a =
      if T.used a
      then (all, denied a (T.noun <> " has already been consumed"))
      else let spent = T.spend a in
        (
          insert digest spent all,
          (if not (before now (T.expires a))
              then denied spent (T.noun <> " has expired")
              else granted spent),
        )

  -- The token is known by its digest.
  unfoldable pub consume_approval : String → Instant → Approvals A → Approvals A × Consumed A
  unfolding consume_found
  consume_approval digest now approvals = elim (lookup digest approvals) [
    | none ↦ (approvals, missing (T.noun <> " is unknown or was lost when the daemon restarted"))
    | some a ↦ consume_found digest now approvals a
  ]
