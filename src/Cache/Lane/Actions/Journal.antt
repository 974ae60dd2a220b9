-- ===== src/Cache/Lane/Actions/Journal.antt =====
-- What the transactions of the cache lane add to its journal, and what one call adds.
use mathlib.Core.List.{append-nil, append_assoc}
use ghostgc.Prelude.{
  ◌≡◌, ◌∙◌, ap, sym, refl, Bool, true, false, String, Option, none, some, List, [], ◌∷◌, ◌++◌, All,
  string_eq, arith,
}
use ghostgc.Prelude.Time.{Instant}
use ghostgc.Daemon.{Result, ok, err}
use ghostgc.Cache.{Action}
use ghostgc.Cache.Store.{CacheStore}
use ghostgc.Cache.Lane.{
  CacheApproval, cache_ticket, Lane, CacheWorld, Response, Event, began, quarantine_call,
  restore_call, ended, audited, begin, commit_if, fail_action,
}
use ghostgc.Cache.Lane.Actions.{answer, reject_action, failed_call, committed_or}

abbrev pub is_call : Event → Bool
is_call (began a) = false
is_call (quarantine_call root path destination r i) = true
is_call (restore_call root path destination r i) = true
is_call (ended id result) = false
is_call (audited r) = false

-- None of the events that were added is a call that renames an entry.
abbrev pub Quiet : List Event → List Event → Type 0
Quiet before after = (es : List Event) × (after ≡ before ++ es) × All (λ e. is_call e ≡ false) es

pub Quiet-refl : (j : List Event) → Quiet j j
Quiet-refl j = ([], sym (append-nil j), tt)

pub commit_if-journal :
    (o : Option String) (next : Result CacheStore) (e : Event) (lane after : Lane)
    → commit_if o next e lane ≡ ok after
    → after.journal ≡ lane.journal ++ (e ∷ [])
unfolding commit_if
commit_if-journal (some text) next e lane after h = cc
commit_if-journal none (err text) e lane after h = cc
commit_if-journal none (ok s) e lane after h =
    let same : record lane { store = s; journal = lane.journal ++ (e ∷ []) } ≡ after =
      ground arith in
    ap (λ z. z.journal) (sym same)

pub answer-Quiet :
    (o : Option String) (next : Result CacheStore) (e : Event) (lane : Lane) (r : Response)
    → is_call e ≡ false
    → Quiet lane.journal (answer lane (commit_if o next e lane) r).0.journal
unfolding commit_if answer
answer-Quiet (some text) next e lane r q = Quiet-refl lane.journal
answer-Quiet none (err text) e lane r q = Quiet-refl lane.journal
answer-Quiet none (ok s) e lane r q = (e ∷ [], refl, (q, tt))

pub reject_action-Quiet :
    (w : CacheWorld) (id : String) (a : CacheApproval) (reason : String) (now : Instant)
    (lane : Lane)
    → Quiet lane.journal (reject_action w id a reason now lane).0.journal
unfolding reject_action begin
reject_action-Quiet w id a reason now lane = answer-Quiet (w.commit_error "begin") _ _ lane _ refl

committed_or-Quiet :
    (o : Option String) (next : Result CacheStore) (e : Event) (lane : Lane)
    → is_call e ≡ false
    → Quiet lane.journal (committed_or lane (commit_if o next e lane)).journal
unfolding commit_if committed_or
committed_or-Quiet (some text) next e lane q = Quiet-refl lane.journal
committed_or-Quiet none (err text) e lane q = Quiet-refl lane.journal
committed_or-Quiet none (ok s) e lane q = (e ∷ [], refl, (q, tt))

pub failed_call-Quiet :
    (w : CacheWorld) (id : String) (a : CacheApproval) (cause : String) (evidence : List String)
    (lane : Lane)
    → Quiet lane.journal (failed_call w id a cause evidence lane).0.journal
unfolding failed_call fail_action
failed_call-Quiet w id a cause evidence lane =
    committed_or-Quiet (w.commit_error "finish") _ _ lane refl

-- The events that were added are the committed attempt for the artifact of the approval, the one call,
-- and records.
abbrev pub OneCall : CacheApproval → Event → List Event → List Event → Type 0
OneCall a call before after =
    (action : Action) × (rest : List Event) × (after ≡ before ++ (began action ∷ call ∷ rest))
    × All (λ e. is_call e ≡ false) rest
    × (action.result ≡ "attempting")
    × (action.artifact_id ≡ a.artifact.id)

regroup :
    (before : List Event) (e f : Event) (rest : List Event)
    → ((before ++ (e ∷ [])) ++ (f ∷ [])) ++ rest ≡ before ++ (e ∷ f ∷ rest)
regroup before e f rest = simp append_assoc

-- After a committed attempt and a call, quiet steps leave just the one call.
pub begun-OneCall :
    (a : CacheApproval) (action : Action) (call : Event) (lane begun : Lane) (after : List Event)
    → begun.journal ≡ lane.journal ++ (began action ∷ [])
    → action.result ≡ "attempting"
    → action.artifact_id ≡ a.artifact.id
    → Quiet (begun.journal ++ (call ∷ [])) after
    → OneCall a call lane.journal after
begun-OneCall a action call lane begun after b r i (rest, e, quiet) = (
  action,
  rest,
  e ∙ ap (λ z. (z ++ (call ∷ [])) ++ rest) b ∙ regroup lane.journal (began action) call rest,
  quiet,
  r,
  i,
)
