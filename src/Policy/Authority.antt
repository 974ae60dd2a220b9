-- ===== src/Policy/Authority.antt =====
-- What a decision of a policy requires, and what it cannot override.
use mathlib.Core.List.{Memᴰ}
use ghostgc.Prelude.{
  ℕ, ◌+◌, ◌≤◌, ◌<◌, ◌≡◌, ◌↔◌, ◌⊎◌, true, false, none, some, List, string_eq, nat_eq, contains,
  All_at, All_of_contains, zero, suc, arith,
}
use ghostgc.Prelude.Int.{pos, negsuc, ◌≤ℤ◌}
use ghostgc.Prelude.Time.{Instant, Duration, sub, add}
use ghostgc.Prelude.Runtime.{Runtime}
use ghostgc.Config.{audit, recommend, enforce, mode_eq}
use ghostgc.Config.Policies.{Policy, Agents, validate_policies}
use ghostgc.Config.Accepted.{IsAccepted, Eligible, Targetable, validate_policies-IsAccepted}
use ghostgc.Policy.{Target, Decision, candidate, refused, out_of_scope, evaluate}

-- Every condition of the policy holds of the target.
pub record InScope (p : Policy) (t : Target) (at : Instant) : Type 0 where
  pub enabled : p.enabled ≡ true
  pub acting : (p.mode ≡ audit) ⊎ ((p.mode ≡ recommend) ⊎ (p.mode ≡ enforce))
  pub state : contains p.states t.state ≡ true
  pub agent : contains p.agents t.agent_id ≡ true
  pub executable : contains p.executables t.executable ≡ true
  pub detached : p.require_detached ≡ true → t.detached ≡ true
  pub ended : p.require_session_ended ≡ true → t.session_ended ≡ true
  pub classified : 0 < t.classification_ts
  pub stable : 0 < t.stable_since
  pub long : p.min_stable ≤ℤ sub at t.stable_since

InScope-iff :
    (p : Policy) (t : Target) (at : Instant) → (out_of_scope p t at ≡ false) ↔ InScope p t at
unfolding out_of_scope
InScope-iff p t at = (ground arith, ground arith)

add_min :
    (at : Instant) (c : Duration) (k : ℕ) (until at' : Instant)
    → pos k ≤ℤ c
    → until ≡ add at c
    → until ≤ at'
    → at + k ≤ at'
unfolding add
add_min at (pos n) k until at' h e le = omega arith
add_min at (negsuc n) zero until at' h e le = absurd (omega arith)
add_min at (negsuc n) (suc k) until at' h e le = absurd (omega arith)

module _ (R : Runtime) where
  -- A decision is made exactly for a target in scope. It is a candidate exactly when moreover no
  -- protection applies and no earlier cooldown reaches past the instant, refused exactly when a
  -- protection applies, and else it is cooling down.
  pub evaluate-result :
      (p : Policy) (t : Target) (at prior : Instant)
      → ((evaluate R p t at prior ≡ none) ↔ ¬ InScope p t at)
        × ((d : Decision)
            → evaluate R p t at prior ≡ some d
            → InScope p t at
              × ((d.result ≡ candidate) ↔ ((t.protection.protected ≡ false) × (prior ≤ at)))
              × ((d.result ≡ refused) ↔ (t.protection.protected ≡ true)))
  unfolding evaluate
  evaluate-result p t at prior = (
    ground (arith, InScope-iff p t at),
    λ d h. (ground (arith, InScope-iff p t at), ground arith, ground arith),
  )

  pub cooldown_until-candidate :
      (p : Policy) (t : Target) (at prior : Instant) (d : Decision)
      → evaluate R p t at prior ≡ some d
      → d.result ≡ candidate
      → d.cooldown_until ≡ add at p.cooldown
  unfolding evaluate
  cooldown_until-candidate p t at prior d made c = ground arith

  -- Whatever the evidence says, a policy of an accepted configuration makes a candidate only of a
  -- process that no protection covers, in one of the states orphaned, hung and crashed, detached
  -- and of an ended session if it is orphaned, whose executable is in no protected class; and an
  -- enforce policy only of an orphaned one.
  pub candidate_authority :
      (configured : Agents) (ps : List Policy) (p : Policy) (t : Target) (at prior : Instant)
      (d : Decision)
      → validate_policies R configured ps ≡ none
      → Memᴰ p ps
      → evaluate R p t at prior ≡ some d
      → d.result ≡ candidate
      → (t.protection.protected ≡ false)
        × (((t.state ≡ "orphaned") × (t.detached ≡ true) × (t.session_ended ≡ true))
            ⊎ ((t.state ≡ "hung") ⊎ (t.state ≡ "crashed")))
        × Targetable R t.executable
        × (p.mode ≡ enforce → t.state ≡ "orphaned")
  candidate_authority configured ps p t at prior d valid listed made c =
      let (scope, candidate_iff, _) = (evaluate-result p t at prior).1 d made in
      let a =
        All_at (IsAccepted R configured) ps p (validate_policies-IsAccepted R configured ps valid).0
          listed in
      let eligible = All_of_contains (Eligible p) p.states t.state a.states scope.state in
      (
        (candidate_iff.0 c).0,
        ground (arith, eligible, scope.detached, scope.ended),
        All_of_contains (Targetable R) p.executables t.executable a.executables scope.executable,
        λ e. ground (arith, scope.state, (a.narrow e).one_state),
      )

  -- After a candidate of an accepted policy the same policy makes no other candidate of the process
  -- for the policy's cooldown, which is at least a minute.
  pub candidate_cooldown :
      (configured : Agents) (ps : List Policy) (p : Policy) (t t' : Target) (at at' prior : Instant)
      (d d' : Decision)
      → validate_policies R configured ps ≡ none
      → Memᴰ p ps
      → evaluate R p t at prior ≡ some d
      → d.result ≡ candidate
      → evaluate R p t' at' d.cooldown_until ≡ some d'
      → d'.result ≡ candidate
      → (d.cooldown_until ≡ add at p.cooldown) × (d.cooldown_until ≤ at') × (at + 60000000000 ≤ at')
  candidate_cooldown configured ps p t t' at at' prior d d' valid listed made c made' c' =
      let a =
        All_at (IsAccepted R configured) ps p (validate_policies-IsAccepted R configured ps valid).0
          listed in
      let until = cooldown_until-candidate p t at prior d made c in
      let later = (((evaluate-result p t' at' d.cooldown_until).1 d' made').1.0 c').1 in
      (until, later, add_min at p.cooldown 60000000000 d.cooldown_until at' a.cooldown until later)
