-- ===== src/Daemon/Gates.antt =====
-- internal/daemon/backend_policy.go and action_revalidation.go: who may act on which decision.
use ghostgc.Prelude.{
  Bool, false, ◌&&◌, ◌||◌, String, Option, none, some, List, [], ◌∷◌, ◌==◌, string_eq,
  if◌then◌else◌,
}
use ghostgc.Config.{recommend, enforce, mode_eq}
use ghostgc.Config.Policies.{Policy}
use ghostgc.Policy.{candidate, cooldown, outcome_eq}
use ghostgc.Process.{Snapshot, by_key}
use ghostgc.Process.Keys.{parse_key}
use ghostgc.Prelude.Runtime.{Runtime}
use ghostgc.Daemon.{Daemon, DecisionRecord, CleanupApproval, manual, automatic, authority_eq}

unfoldable pub policy_definition : List Policy → String → Option Policy
policy_definition [] id = none
policy_definition (p ∷ ps) id = if p.id == id then some p else policy_definition ps id

unfoldable pub any_recommending : List Policy → Bool
any_recommending [] = false
any_recommending (p ∷ ps) = (p.enabled && p.mode == recommend) || any_recommending ps

unfoldable pub any_enforcing : List Policy → Bool
any_enforcing [] = false
any_enforcing (p ∷ ps) = (p.enabled && p.mode == enforce && p.automatic) || any_enforcing ps

unfoldable pub manual_cleanup_enabled : Daemon → Bool
manual_cleanup_enabled d =
    (d.global_mode == recommend || d.global_mode == enforce) && any_recommending d.policies

unfoldable pub automatic_cleanup_enabled : Daemon → Bool
automatic_cleanup_enabled d = d.global_mode == enforce && any_enforcing d.policies

unfoldable pub is_recommendation : Daemon → DecisionRecord → Bool
is_recommendation d rec = elim (policy_definition d.policies rec.policy_id) [
  | none ↦ false
  | some p ↦
      (rec.result == candidate || rec.result == cooldown)
      && (d.global_mode == recommend || d.global_mode == enforce)
      && p.enabled
      && p.mode == recommend
]

unfoldable pub is_enforceable : Daemon → DecisionRecord → Bool
is_enforceable d rec = elim (policy_definition d.policies rec.policy_id) [
  | none ↦ false
  | some p ↦
      rec.result == candidate
      && d.global_mode == enforce
      && p.enabled
      && p.mode == enforce
      && p.automatic
]

unfoldable pub cleanup_authority_enabled : Daemon → CleanupApproval → Policy → Bool
unfolding manual_cleanup_enabled automatic_cleanup_enabled
cleanup_authority_enabled d a p = elim a.authority [
  | manual ↦ manual_cleanup_enabled d && p.enabled && p.mode == recommend
  | automatic ↦ automatic_cleanup_enabled d && p.enabled && p.mode == enforce && p.automatic
]

unfoldable pub cleanup_decision_current : Daemon → CleanupApproval → DecisionRecord → Bool
unfolding is_enforceable is_recommendation
cleanup_decision_current d a current =
    if a.authority == automatic
    then is_enforceable d current
    else a.authority == manual && is_recommendation d current

-- The decisions whose exact process the snapshot has.
unfoldable pub present_decisions : Runtime → Snapshot → List DecisionRecord → List DecisionRecord
present_decisions R s [] = []
present_decisions R s (rec ∷ recs) =
    let rest = present_decisions R s recs in
    elim (parse_key R rec.proc_uid) [
      | none ↦ rest
      | some key ↦ elim (by_key s key) [ none ↦ rest | some p ↦ rec ∷ rest ]
    ]

unfoldable pub current_policy_decisions :
    Runtime → Daemon → List DecisionRecord → List DecisionRecord
unfolding present_decisions
current_policy_decisions R d records = elim d.snapshot [
  | none ↦ []
  | some s ↦ present_decisions R s records
]
