-- ===== src/Config/Accepted.antt =====
-- What holds of the policies that the validation accepts.
use ghostgc.Prelude.{
  ℕ, suc, ◌+◌, ◌≤◌, ◌≡◌, ◌≢◌, ◌↔◌, ◌⊎◌, refl, Bool, true, false, ◌&&◌, String, Option, none, some,
  List, [], ◌∷◌, ◌==◌, string_eq, bool_eq, nat_eq, if◌then◌else◌, contains, length, is_empty, All,
  NoRepeat, arith, map,
}
use ghostgc.Prelude.Int.{pos, ◌≤ℤ◌}
use ghostgc.Prelude.Time.{minutes}
use ghostgc.Prelude.Runtime.{Runtime}
use ghostgc.Protection.{executable_protection}
use ghostgc.Protection.Paths.{path_base}
use ghostgc.Config.{disabled, enforce, mode_eq, is_valid_mode}
use ghostgc.Config.Policies.{
  Policy, PolicyError, Agents, matches_id, needs_stable_window, ◌then_check◌, refuse_if,
  check_states, check_agents, check_executables, check_enforce, check_policy, check_policies,
  validate_policies, is_one_orphaned,
}

then_check-none : (a b : Option PolicyError) → (a then_check b) ≡ none → (a ≡ none) × (b ≡ none)
unfolding ◌then_check◌
then_check-none none b h = (refl, h)
then_check-none (some e) b h = cc

refuse_if-none : (b : Bool) (e : PolicyError) → refuse_if b e ≡ none → b ≡ false
unfolding refuse_if
refuse_if-none b e h = ground arith

-- A state that a policy may select, with what it demands of the policy.
abbrev pub Eligible : Policy → String → Type 0
Eligible p state =
    ((state ≡ "orphaned") × (p.require_detached ≡ true) × (p.require_session_ended ≡ true))
    ⊎ ((state ≡ "hung") ⊎ (state ≡ "crashed"))

check_states-Eligible :
    (p : Policy) (states : List String) → check_states p states ≡ none → All (Eligible p) states
unfolding check_states
check_states-Eligible p [] h = tt
check_states-Eligible p (state ∷ states) h =
    (ground arith, check_states-Eligible p states (ground arith))

check_agents-enabled :
    (configured : Agents) (agents : List String)
    → check_agents configured agents ≡ none
    → All (λ a. configured a ≡ some true) agents
unfolding check_agents
check_agents-enabled configured [] h = tt
check_agents-enabled configured (agent ∷ agents) h =
    (ground arith, check_agents-enabled configured agents (ground arith))

-- An exact basename outside every protected class.
abbrev pub Targetable : Runtime → String → Type 0
Targetable R x = (x ≢ "") × (path_base x ≡ x) × (executable_protection R x ≡ none)

check_executables-Targetable :
    (R : Runtime) (xs : List String) → check_executables R xs ≡ none → All (Targetable R) xs
unfolding check_executables
check_executables-Targetable R [] h = tt
check_executables-Targetable R (x ∷ xs) h =
    ((ground arith, ground arith, ground arith), check_executables-Targetable R xs (ground arith))

-- The scope of an enforce policy.
pub record IsNarrow (p : Policy) : Type 0 where
  pub one_state : p.states ≡ "orphaned" ∷ []
  pub one_agent : length p.agents ≡ 1
  pub one_executable : length p.executables ≡ 1
  pub detached : p.require_detached ≡ true
  pub ended : p.require_session_ended ≡ true
  pub slow : minutes 60 ≤ℤ p.cooldown

one_orphaned : (states : List String) → is_one_orphaned states ≡ true → states ≡ "orphaned" ∷ []
unfolding is_one_orphaned
one_orphaned [] h = cc
one_orphaned (s ∷ []) h = ground arith
one_orphaned (s ∷ t ∷ r) h = cc

check_enforce-IsNarrow : (p : Policy) → check_enforce p ≡ none → p.mode ≡ enforce → IsNarrow p
unfolding check_enforce
check_enforce-IsNarrow p h e = record {
  one_state = one_orphaned p.states (ground arith);
  one_agent = ground arith;
  one_executable = ground arith;
  detached = ground arith;
  ended = ground arith;
  slow = ground arith;
}

pub record IsAccepted (R : Runtime) (configured : Agents) (p : Policy) : Type 0 where
  pub well_named : matches_id p.id ≡ true
  pub known_mode : is_valid_mode p.mode ≡ true
  pub not_disabled : p.enabled ≡ true → p.mode ≢ disabled
  pub automatic_iff : (p.automatic ≡ true) ↔ (p.mode ≡ enforce)
  pub states : All (Eligible p) p.states
  pub agents : All (λ a. configured a ≡ some true) p.agents
  pub executables : All (Targetable R) p.executables
  pub scoped :
      (is_empty p.states ≡ false) × (is_empty p.agents ≡ false) × (is_empty p.executables ≡ false)
  pub min_stable :
      (pos 0 ≤ℤ p.min_stable) × (needs_stable_window p.states ≡ true → minutes 5 ≤ℤ p.min_stable)
  pub cooldown : minutes 1 ≤ℤ p.cooldown
  pub narrow : p.mode ≡ enforce → IsNarrow p

check_policy-IsAccepted :
    (R : Runtime) (configured : Agents) (ids : List String) (p : Policy)
    → check_policy R configured ids p ≡ none
    → IsAccepted R configured p × (contains ids p.id ≡ false)
unfolding check_policy
check_policy-IsAccepted R configured ids p h = (
  record {
    well_named = ground arith;
    known_mode = ground arith;
    not_disabled = ground arith;
    automatic_iff = ground arith;
    states = check_states-Eligible p p.states (ground arith);
    agents = check_agents-enabled configured p.agents (ground arith);
    executables = check_executables-Targetable R p.executables (ground arith);
    scoped = ground arith;
    min_stable = ground arith;
    cooldown = ground arith;
    narrow = check_enforce-IsNarrow p (ground arith);
  },
  ground arith,
)

-- How many policies enforce.
abbrev pub enforcing : List Policy → ℕ
enforcing [] = 0
enforcing (p ∷ ps) = if p.enabled && p.mode == enforce then suc (enforcing ps) else enforcing ps

check_policies-IsAccepted :
    (R : Runtime) (configured : Agents) (ids : List String) (n : ℕ) (ps : List Policy)
    → check_policies R configured ids n ps ≡ none
    → All (IsAccepted R configured) ps × NoRepeat ids (map (λ p. p.id) ps) × (n + enforcing ps ≤ 1)
unfolding check_policies
check_policies-IsAccepted R configured ids n [] h = (tt, tt, ground arith)
check_policies-IsAccepted R configured ids n (p ∷ ps) h =
    let (own, others) = then_check-none _ _ h in
    let (accepted, fresh) = check_policy-IsAccepted R configured ids p own in
    let (all, distinct, few) = check_policies-IsAccepted R configured (p.id ∷ ids) _ ps others in
    ((accepted, all), (fresh, distinct), ground arith)

-- A configuration whose policies are accepted has only policies of known modes that select
-- eligible states, enabled agents and exact basenames outside every protected class, over the
-- required windows; no id occurs twice; an enforce policy has its narrow scope; and at most one
-- enabled policy enforces.
pub validate_policies-IsAccepted :
    (R : Runtime) (configured : Agents) (ps : List Policy)
    → validate_policies R configured ps ≡ none
    → All (IsAccepted R configured) ps × NoRepeat [] (map (λ p. p.id) ps) × (enforcing ps ≤ 1)
unfolding validate_policies
validate_policies-IsAccepted R configured ps h =
    let (all, distinct, few) = check_policies-IsAccepted R configured [] 0 ps h in
    (all, distinct, omega arith)
