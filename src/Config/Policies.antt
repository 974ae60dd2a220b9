-- ===== src/Config/Policies.antt =====
-- internal/config/policy.go: the checks that every process policy passes before it is loaded.
use Prim.Native.Char.{code}
use ghostgc.Prelude.{
  ℕ, zero, suc, Bool, true, false, not, ◌&&◌, ◌||◌, String, Option, none, some, List, [], ◌∷◌, ◌==◌,
  ◌!=◌, string_eq, bool_eq, nat_eq, if◌then◌else◌, contains, leb, ltb, length, is_empty,
}
use ghostgc.Prelude.Int.{pos}
use ghostgc.Prelude.Int
use ghostgc.Prelude.Time.{Duration, minutes}
use ghostgc.Prelude.Runtime.{Runtime}
use ghostgc.Protection.{executable_protection}
use ghostgc.Protection.Paths.{path_base}
use ghostgc.Config.{Mode, disabled, enforce, mode_eq, is_valid_mode}

pub record Policy : Type 0 where
  pub id : String
  pub description : String
  pub enabled : Bool
  pub mode : Mode
  pub automatic : Bool
  pub states : List String
  pub agents : List String
  pub executables : List String
  pub require_detached : Bool
  pub require_session_ended : Bool
  pub min_stable : Duration
  pub cooldown : Duration

-- One constructor for each refusal, in the order of the checks.
pub data PolicyError : Type 0 where
  bad_id duplicate_id unknown_mode enabled_but_disabled automatic_without_enforce : PolicyError
  enforce_without_automatic no_description unscoped : PolicyError
  duplicate_state duplicate_agent duplicate_executable : PolicyError
  state_not_eligible orphaned_unrestricted agent_not_enabled : PolicyError
  not_a_basename protected_class negative_min_stable short_min_stable short_cooldown : PolicyError
  enforce_scope enforce_unrestricted enforce_cooldown several_enforce : PolicyError

-- The configured agents: whether one of that name is enabled.
abbrev pub Agents : Type 0
Agents = String → Option Bool

is_lower : ℕ → Bool
is_lower c = leb b'a' c && leb c b'z'

is_id_char : ℕ → Bool
is_id_char c = is_lower c || (leb b'0' c && leb c b'9') || c == b'-'

-- At most n further characters of an id.
id_tail : ℕ → String → Bool
id_tail n String.[] = true
id_tail zero (String.◌∷◌ c s) = false
id_tail (suc n) (String.◌∷◌ c s) = is_id_char (code c) && id_tail n s

-- The pattern ^[a-z][a-z0-9-]{0,62}$.
unfoldable pub matches_id : String → Bool
unfolding is_lower is_id_char id_tail
matches_id String.[] = false
matches_id (String.◌∷◌ c s) = is_lower (code c) && id_tail 62 s

duplicate_from : List String → List String → String
duplicate_from seen [] = ""
duplicate_from seen (value ∷ values) =
    let rest = duplicate_from (value ∷ seen) values in if contains seen value then value else rest

-- The first repeated value; "" for none, and also for a repeated "".
unfoldable pub duplicate_value : List String → String
unfolding duplicate_from
duplicate_value values = duplicate_from [] values

unfoldable pub needs_stable_window : List String → Bool
needs_stable_window [] = false
needs_stable_window (state ∷ states) =
    state == "orphaned" || state == "hung" || needs_stable_window states

-- The first error of a row of checks.
infixr 5 ◌then_check◌
unfoldable pub ◌then_check◌ : Option PolicyError → Option PolicyError → Option PolicyError
some e then_check rest = some e
none then_check rest = rest

unfoldable pub refuse_if : Bool → PolicyError → Option PolicyError
refuse_if b e = if b then some e else none

unfoldable pub check_states : Policy → List String → Option PolicyError
unfolding ◌then_check◌ refuse_if
check_states p [] = none
check_states p (state ∷ states) =
    refuse_if (not (state == "orphaned" || state == "hung" || state == "crashed"))
      state_not_eligible
    then_check refuse_if
        (state == "orphaned" && (not p.require_detached || not p.require_session_ended))
        orphaned_unrestricted
    then_check check_states p states

unfoldable pub check_agents : Agents → List String → Option PolicyError
unfolding ◌then_check◌ refuse_if
check_agents configured [] = none
check_agents configured (agent ∷ agents) =
    refuse_if (elim (configured agent) [ none ↦ true | some enabled ↦ not enabled ])
      agent_not_enabled
    then_check check_agents configured agents

unfoldable pub check_executables : Runtime → List String → Option PolicyError
unfolding ◌then_check◌ refuse_if
check_executables R [] = none
check_executables R (x ∷ xs) =
    refuse_if (x == "" || path_base x != x) not_a_basename
    then_check refuse_if (elim (executable_protection R x) [ none ↦ false | some r ↦ true ])
        protected_class
    then_check check_executables R xs

unfoldable pub is_one_orphaned : List String → Bool
is_one_orphaned (state ∷ []) = state == "orphaned"
is_one_orphaned _ = false

-- The narrower scope of an enforce policy.
unfoldable pub check_enforce : Policy → Option PolicyError
unfolding ◌then_check◌ refuse_if is_one_orphaned
check_enforce p =
    if p.mode == enforce
    then refuse_if
        (not (is_one_orphaned p.states) || length p.agents != 1 || length p.executables != 1)
        enforce_scope
      then_check refuse_if (not p.require_detached || not p.require_session_ended)
          enforce_unrestricted
      then_check refuse_if (Int.ltb p.cooldown (minutes 60)) enforce_cooldown
    else none

-- The body of the loop, for one policy after those with the ids.
unfoldable pub check_policy : Runtime → Agents → List String → Policy → Option PolicyError
unfolding ◌then_check◌ refuse_if
check_policy R configured ids p =
    refuse_if (not (matches_id p.id)) bad_id
    then_check refuse_if (contains ids p.id) duplicate_id
    then_check refuse_if (not (is_valid_mode p.mode)) unknown_mode
    then_check refuse_if (p.enabled && p.mode == disabled) enabled_but_disabled
    then_check refuse_if (p.automatic && p.mode != enforce) automatic_without_enforce
    then_check refuse_if (p.mode == enforce && not p.automatic) enforce_without_automatic
    then_check refuse_if (R.trim_space p.description == "") no_description
    then_check refuse_if (is_empty p.states || is_empty p.agents || is_empty p.executables) unscoped
    then_check refuse_if (duplicate_value p.states != "") duplicate_state
    then_check refuse_if (duplicate_value p.agents != "") duplicate_agent
    then_check refuse_if (duplicate_value p.executables != "") duplicate_executable
    then_check check_states p p.states
    then_check check_agents configured p.agents
    then_check check_executables R p.executables
    then_check refuse_if (Int.ltb p.min_stable (pos 0)) negative_min_stable
    then_check refuse_if (needs_stable_window p.states && Int.ltb p.min_stable (minutes 5))
        short_min_stable
    then_check refuse_if (Int.ltb p.cooldown (minutes 1)) short_cooldown
    then_check check_enforce p

unfoldable pub check_policies :
    Runtime → Agents → List String → ℕ → List Policy → Option PolicyError
unfolding ◌then_check◌ refuse_if
check_policies R configured ids enforcing [] = refuse_if (ltb 1 enforcing) several_enforce
check_policies R configured ids enforcing (p ∷ ps) =
    check_policy R configured ids p
    then_check check_policies R configured (p.id ∷ ids)
        (if p.enabled && p.mode == enforce then suc enforcing else enforcing) ps

-- `none` accepts the configuration's policies.
unfoldable pub validate_policies : Runtime → Agents → List Policy → Option PolicyError
unfolding check_policies
validate_policies R configured policies = check_policies R configured [] 0 policies
