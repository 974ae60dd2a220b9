-- ===== src/Policy.antt =====
-- internal/policy/policy.go: a decision on one process by one bounded policy.
pub mod Authority
use ghostgc.Prelude.{
  ◌<>◌, Bool, true, false, not, ◌&&◌, ◌||◌, String, Option, none, some, List, [], ◌∷◌, ◌++◌, map,
  ◌==◌, ◌!=◌, Eq, string_eq, if◌then◌else◌, contains, length,
}
use ghostgc.Prelude.Int.{pos}
use ghostgc.Prelude.Int
use ghostgc.Prelude.Time.{Instant, is_zero, never, after, sub, add}
use ghostgc.Prelude.Runtime.{Runtime}
use ghostgc.Config.{Mode, audit, recommend, enforce, mode_eq}
use ghostgc.Config.Policies.{Policy}
use ghostgc.Protection.{Rule}
use ghostgc.Protection

pub data Outcome : Type 0 where
  candidate refused cooldown : Outcome

Outcome-discrete : Discrete Outcome
Outcome-discrete = hlevel

instance unfoldable pub outcome_eq : Eq Outcome
unfolding Outcome-discrete
outcome_eq = record { dec = Outcome-discrete }

pub record Evidence : Type 0 where
  pub rule : String
  pub detail : String

abbrev pub evidence : String → String → Evidence
evidence rule detail = record { rule = rule; detail = detail }

pub record Target : Type 0 where
  pub proc_uid : String
  pub session_id : String
  pub classification_ts : Instant
  pub state : String
  pub stable_since : Instant
  pub agent_id : String
  pub executable : String
  pub detached : Bool
  pub session_ended : Bool
  pub protection : Protection.Result

pub record Decision : Type 0 where
  pub policy_id : String
  pub proc_uid : String
  pub session_id : String
  pub at : Instant
  pub state : String
  pub result : Outcome
  pub reason : String
  pub cooldown_until : Instant
  pub evidence : List Evidence

-- The conditions under which the policy says nothing of the target.
unfoldable pub out_of_scope : Policy → Target → Instant → Bool
out_of_scope p t at =
    not p.enabled
    || (p.mode != audit && p.mode != recommend && p.mode != enforce)
    || not (contains p.states t.state)
    || not (contains p.agents t.agent_id)
    || not (contains p.executables t.executable)
    || (p.require_detached && not t.detached)
    || (p.require_session_ended && not t.session_ended)
    || is_zero t.classification_ts
    || is_zero t.stable_since
    || Int.ltb (sub at t.stable_since) p.min_stable

abbrev rule_evidence : Rule → Evidence
rule_evidence r = evidence r.id r.reason

-- The evidence that the mode of the policy adds to a candidate.
unfoldable pub mode_evidence : Mode → Evidence
mode_evidence m =
    if m == recommend
    then evidence "manual-approval-v1"
        "recommendation requires a separate short-lived approval and full revalidation"
    else if m == enforce
    then evidence "automatic-enforcement-v1"
        "automatic enforcement still requires full fresh revalidation and the final exact-image platform gate"
    else evidence "audit-only-v1" "audit policy grants no recommendation or signalling authority"

module _ (R : Runtime) where
  unfoldable pub base_decision : Policy → Target → Instant → Decision
  base_decision p t at = record {
    policy_id = p.id;
    proc_uid = t.proc_uid;
    session_id = t.session_id;
    at = at;
    state = t.state;
    result = candidate;
    reason = "";
    cooldown_until = never;
    evidence =
        evidence "policy-state-v1" (
          "classification is "
          <> t.state
          <> " and has been stable since "
          <> R.rfc3339 t.stable_since)
        ∷ evidence "policy-scope-v1" (
            "agent " <> t.agent_id <> " executable " <> t.executable
            <> " matched exact policy scope")
        ∷ [];
  }

  -- What is decided of a target in scope.
  unfoldable pub decide : Policy → Target → Instant → Instant → Decision → Decision
  decide p t at prior d =
      if t.protection.protected
      then record d {
        result = refused;
        reason =
            R.decimal (pos (length t.protection.rules)) <> " non-overridable protection(s) apply";
        evidence = d.evidence ++ map rule_evidence t.protection.rules;
      }
      else if after prior at
      then record d {
        result = cooldown;
        cooldown_until = prior;
        reason = "an earlier candidate for this exact policy and process is cooling down";
        evidence =
            d.evidence
            ++ (evidence "policy-cooldown-v1" ("cooldown ends " <> R.rfc3339 prior) ∷ []);
      }
      else record d {
        result = candidate;
        reason = "policy matched and no hard protection applies";
        cooldown_until = add at p.cooldown;
        evidence = d.evidence ++ (mode_evidence p.mode ∷ []);
      }

  -- `none` is a policy that does not match.
  unfoldable pub evaluate : Policy → Target → Instant → Instant → Option Decision
  unfolding base_decision decide mode_evidence
  evaluate p t at prior =
      if out_of_scope p t at then none else some (decide p t at prior (base_decision p t at))
