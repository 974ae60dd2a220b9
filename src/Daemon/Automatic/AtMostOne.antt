-- ===== src/Daemon/Automatic/AtMostOne.antt =====
-- An evaluation leads to at most one automatic signal, for its first enforceable decision.
use mathlib.Core.List.{append-nil, append_assoc}
use ghostgc.Prelude.{
  ◌<>◌, ◌≡◌, ◌∙◌, ap, sym, refl, ◌⊎◌, inl, inr, Bool, true, ◌&&◌, String, Option, none, some, List,
  [], ◌∷◌, ◌++◌, All-append, Option-cases, Bool-cases, arith,
}
use ghostgc.Prelude.Runtime.{Runtime}
use ghostgc.Daemon.{
  Daemon, World, Result, ok, err, DecisionRecord, CleanupApproval, Effect, insert_action, kill,
}
use ghostgc.Daemon.Gates.{automatic_cleanup_enabled, is_enforceable}
use ghostgc.Daemon.Actions.{Done, execute_cleanup}
use ghostgc.Daemon.Actions.Safety.{IsQuiet, AddsNone, AddsOne, execute_cleanup-signals}
use ghostgc.Daemon.Automatic.{
  first_enforceable, skipped_audit, automatic_failure, automatic_authority, after_execution,
  after_authority, execute_selected, after_decisions, run_automatic_cleanup,
}

-- The first enforceable decision is one.
first_enforceable-is :
    (d : Daemon) (recs : List DecisionRecord) (rec : DecisionRecord)
    → first_enforceable d recs ≡ some rec
    → is_enforceable d rec ≡ true
unfolding first_enforceable
first_enforceable-is d [] rec h = cc
first_enforceable-is d (r ∷ recs) rec h = elim (Bool-cases (is_enforceable d r)) [
  | inl e ↦ let same : r ≡ rec = ground arith in ap (is_enforceable d) (sym same) ∙ e
  | inr e ↦ first_enforceable-is d recs rec (ground arith)
]

AddsNone-trans :
    (before middle after : List Effect)
    → AddsNone before middle
    → AddsNone middle after
    → AddsNone before after
AddsNone-trans before middle after (rest, e, q) (rest', e', q') = (
  rest ++ rest',
  e' ∙ ap (λ s. s ++ rest') e ∙ append_assoc before rest rest',
  All-append IsQuiet rest rest' q q',
)

module _ (R : Runtime) (w : World R) (d : Daemon) where
  AddsOne-trans :
      (id : String) (a : CleanupApproval) (before middle after : List Effect)
      → AddsOne R w d id a before middle
      → AddsNone middle after
      → AddsOne R w d id a before after
  AddsOne-trans id a before middle after (k, found, r, audit, rest, e, q, i, s, p, x)
        (rest', e', q') =
      (
        k,
        found,
        r,
        audit,
        rest ++ rest',
        e'
            ∙ ap (λ s. s ++ rest') e
            ∙ append_assoc before (insert_action r audit ∷ kill k.pid ∷ rest) rest',
        All-append IsQuiet rest rest' q q',
        i,
        s,
        p,
        x,
      )

  automatic_failure-AddsNone :
      (reason : String) (effects : List Effect)
      → AddsNone effects (automatic_failure R w reason effects)
  unfolding automatic_failure
  automatic_failure-AddsNone reason effects =
      elim (Option-cases (w.commit_error (skipped_audit R w reason))) [
        | inl e ↦
            rw (e, automatic_failure)
              (skipped_audit R w reason ∷ [], refl, (unfold skipped_audit in tt, tt))
        | inr (text, e) ↦ rw (e, automatic_failure) ([], sym (append-nil effects), tt)
      ]

  after_execution-signals :
      (id : String) (a : CleanupApproval) (before : List Effect) (done : Done)
      → AddsNone before done.0 ⊎ AddsOne R w d id a before done.0
      → let after = after_execution R w id done in
        AddsNone before after ⊎ AddsOne R w d id a before after
  unfolding after_execution
  after_execution-signals id a before (effects, ok response) h = h
  after_execution-signals id a before (effects, err text) (inl h) =
      inl (AddsNone-trans before effects _ h (automatic_failure-AddsNone _ effects))
  after_execution-signals id a before (effects, err text) (inr h) =
      inr (AddsOne-trans id a before effects _ h (automatic_failure-AddsNone _ effects))

  abbrev pub OneUnder : Result (String × CleanupApproval) → List Effect → List Effect → Type 0
  OneUnder authority before after =
      (id : String) × (a : CleanupApproval) × (authority ≡ ok (id, a))
      × AddsOne R w d id a before after

  after_authority-signals :
      (authority : Result (String × CleanupApproval)) (effects : List Effect)
      → let after = after_authority R w d authority effects in
        AddsNone effects after ⊎ OneUnder authority effects after
  unfolding after_authority
  after_authority-signals (err text) effects = inl (automatic_failure-AddsNone text effects)
  after_authority-signals (ok (id, a)) effects =
      elim (after_execution-signals id a effects (execute_cleanup R w d id a w.now_start effects)
        (execute_cleanup-signals R w d id a w.now_start effects)) [
          | inl none_sent ↦ inl none_sent
          | inr one_sent ↦ inr (id, a, refl, one_sent)
        ]

  abbrev pub OneSelected : Result (List DecisionRecord) → List Effect → List Effect → Type 0
  OneSelected read before after =
      (records : List DecisionRecord) × (read ≡ ok records)
      × (decision : DecisionRecord) × (first_enforceable d records ≡ some decision)
      × (is_enforceable d decision ≡ true)
      × OneUnder (automatic_authority R w d decision) before after

  execute_selected-signals :
      (records : List DecisionRecord) (selected : Option DecisionRecord) (effects : List Effect)
      → first_enforceable d records ≡ selected
      → let after = execute_selected R w d selected effects in
        AddsNone effects after ⊎ OneSelected (ok records) effects after
  unfolding execute_selected
  execute_selected-signals records none effects e = inl ([], sym (append-nil effects), tt)
  execute_selected-signals records (some decision) effects e =
      elim (after_authority-signals (automatic_authority R w d decision) effects) [
        | inl none_sent ↦ inl none_sent
        | inr one_sent ↦
            inr (records, refl, decision, e, first_enforceable-is d records decision e, one_sent)
      ]

  after_decisions-signals :
      (read : Result (List DecisionRecord)) (effects : List Effect)
      → let after = after_decisions R w d read effects in
        AddsNone effects after ⊎ OneSelected read effects after
  unfolding after_decisions
  after_decisions-signals (err text) effects =
      inl (automatic_failure-AddsNone ("reading current decisions: " <> text) effects)
  after_decisions-signals (ok records) effects =
      execute_selected-signals records (first_enforceable d records) effects refl

  -- However many decisions are enforceable, an evaluation adds either no signal, or exactly one, after
  -- a committed attempt and a full revalidation, to the exact process that was authorized; then the
  -- evaluation was due, the daemon and a policy enforce, and the signal is for the first enforceable
  -- of the store's current decisions.
  pub run_automatic_cleanup-signals :
      (due : Bool) (effects : List Effect)
      → let after = run_automatic_cleanup R w d due effects in
        AddsNone effects after
        ⊎ ((due ≡ true)
            × (automatic_cleanup_enabled d ≡ true)
            × OneSelected w.current_decisions effects after)
  unfolding run_automatic_cleanup
  run_automatic_cleanup-signals due effects =
      elim (Bool-cases (due && automatic_cleanup_enabled d)) [
        | inr off ↦ rw off (inl ([], sym (append-nil effects), tt))
        | inl on ↦ rw on (elim (after_decisions-signals w.current_decisions effects) [
          | inl none_sent ↦ inl none_sent
          | inr one_sent ↦ inr (ground arith, ground arith, one_sent)
        ])
      ]
