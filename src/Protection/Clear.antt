-- ===== src/Protection/Clear.antt =====
-- The exact condition under which no hard protection applies.
use ghostgc.Prelude.{
  ◌≡◌, ◌≢◌, ◌↔◌, ◌⊎◌, Bool, true, false, not, ◌&&◌, none, arith, is_empty, any, ◌==◌, ◌!=◌,
  string_eq, nat_eq,
}
use ghostgc.Prelude.Int.{ℤ, pos, int_eq, ◌≤ℤ◌}
use ghostgc.Prelude.Int
use ghostgc.Prelude.Runtime.{Runtime}
use ghostgc.Process.{name, no_tty}
use ghostgc.Process.Tree.{init_pid}
use ghostgc.Protection.{
  Input, evaluate, rules, executable_protection, match_adapter_rule, confidence_policy_eligible,
}
use ghostgc.Protection.Classes.{
  is_empty-append, is_empty-rule_if, is_none, class_matches-find_class, adapter_matches-any,
}

module _ (R : Runtime) where
  -- Every fact that a protection asks about is established, and none of them applies.
  pub record IsClear (i : Input R) : Type 0 where
    pub not_self : (i.self_pid ≡ pos 0) ⊎ (i.process.pid ≢ i.self_pid)
    pub not_init : i.process.pid ≢ init_pid
    pub same_user : i.process.uid ≡ i.self_uid
    pub no_terminal : i.process.tty ≡ no_tty
    pub no_leader : (i.process.pid ≢ i.process.sid) ⊎ (i.process.sid ≡ pos 0)
    pub no_root : i.is_agent_root ≡ false
    pub session_over : i.session_active ≡ false
    pub no_descendants : i.descendant_count ≤ℤ pos 0
    pub confident : R.lt i.attribution_confidence (confidence_policy_eligible R) ≡ false
    pub inspected : i.process.detailed ≡ true
    pub no_class : executable_protection R (name i.process) ≡ none
    pub no_adapter_rule : any (λ r. match_adapter_rule r i.process) i.adapter_rules ≡ false

  abbrev clear_of_facts : Input R → Bool
  clear_of_facts i =
      let p = i.process in
      not (i.self_pid != pos 0 && p.pid == i.self_pid)
      && (not (p.pid == init_pid)
          && (not (p.uid != i.self_uid)
              && (not (p.tty != no_tty)
                  && (not (p.pid == p.sid && p.sid != pos 0)
                      && (not i.is_agent_root
                          && (not i.session_active
                              && (not (Int.ltb (pos 0) i.descendant_count)
                                  && (not (
                                        R.lt i.attribution_confidence
                                          (confidence_policy_eligible R))
                                      && (not (not p.detailed)
                                          && (is_none (executable_protection R (name p))
                                              && not (
                                                  any (λ r. match_adapter_rule r p)
                                                    i.adapter_rules)))))))))))

  is_empty-rules : (i : Input R) → is_empty (rules R i) ≡ clear_of_facts i
  unfolding rules executable_protection
  is_empty-rules i =
      simp (is_empty-append, is_empty-rule_if, class_matches-find_class R, adapter_matches-any)

  IsClear-iff : (i : Input R) → (clear_of_facts i ≡ true) ↔ IsClear i
  IsClear-iff i = (ground arith, ground arith)

  -- A process is not protected exactly when it is not the daemon or init, belongs to the daemon's
  -- user, has no terminal and leads no session, is no session root, its session is over, it has no
  -- descendant, its attribution reaches 0.95, it was inspected, its executable is in no protected
  -- class, and no adapter rule matches it.
  pub unprotected_iff : (i : Input R) → ((evaluate R i).protected ≡ false) ↔ IsClear i
  unfolding evaluate
  unprotected_iff i = ground (arith, IsClear-iff i, is_empty-rules i)
