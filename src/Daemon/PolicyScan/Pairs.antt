-- ===== src/Daemon/PolicyScan/Pairs.antt =====
-- A batch has at most one candidate of a policy and a process, and what its row says.
use mathlib.Core.List.{Memᴰ}
use mathlib.Core.List.Memᴰ
use ghostgc.Prelude.{
  ℕ, ◌+◌, ◌≤◌, ◌≡◌, ◌≢◌, ◌∙◌, ap, sym, refl, inl, inr, Bool, String, some, List, [], ◌∷◌, All,
  All_at, NoRepeat, map, arith, Option-cases, subst, string_eq,
}
use ghostgc.Prelude.Int.{ℤ, pos, negsuc, int_eq, ◌≤ℤ◌}
use ghostgc.Prelude.Time.{Instant, Duration, unix, unix_nano, add}
use ghostgc.Prelude.Runtime.{Runtime}
use ghostgc.Process.{Snapshot}
use ghostgc.Process.Tree.{Tree}
use ghostgc.Config.Policies.{Policy}
use ghostgc.Daemon.{DecisionRecord, Daemon, Reconciliation, ok}
use ghostgc.Policy.{Decision, Target, candidate, refused, cooldown, outcome_eq}
use ghostgc.Policy as Decisions
use ghostgc.Daemon.PolicyScan.{
  ClassificationRecord, Entry, Batch, Store, query_cooldown, entry_of, decide_after,
  evaluate_definition, evaluate_target, find_target, evaluate_class, evaluate_policies,
  last_candidate_cooldown, target_of,
}
use ghostgc.Daemon.PolicyScan.Collect.{
  NoneOf, Once, NoRepeat-Once, collect-Once, collect-All, All_all,
}
use ghostgc.Daemon.PolicyScan.Sound.{evaluate_policies-collects, Decides, decide_after-Decides}
use ghostgc.Daemon.PolicyScan.Spacing.{IsCandidate}

-- The rows of a batch.
abbrev pub records : List Entry → List DecisionRecord
records = map (λ e. e.0)

pub records-All :
    (P : DecisionRecord → Type 0) (es : List Entry) → All (λ e. P e.0) es → All P (records es)
records-All P [] a = tt
records-All P (e ∷ es) a = (a.0, records-All P es a.1)

pub records-Once :
    (P : DecisionRecord → Type 0) (es : List Entry) → Once (λ e. P e.0) es → Once P (records es)
records-Once P [] a = tt
records-Once P (e ∷ es) a = (λ p. records-All (λ r. ¬ P r) es (a.0 p), records-Once P es a.1)

pub All_map {ℓ κ} :
    {A : Type ℓ} (P Q : A → Type κ) (xs : List A) → ((x : A) → P x → Q x) → All P xs → All Q xs
All_map P Q [] f a = tt
All_map P Q (x ∷ xs) f a = (f x a.0, All_map P Q xs f a.1)

module _ (R : Runtime) where
  evaluate-ids :
      (p : Policy) (t : Target) (at prior : Instant) (d : Decision)
      → Decisions.evaluate R p t at prior ≡ some d
      → (d.policy_id ≡ p.id) × (d.proc_uid ≡ t.proc_uid)
  unfolding Decisions.evaluate
  evaluate-ids p t at prior d h = (ground arith, ground arith)

  module _ (d : Daemon) (s : Store) (snap : Snapshot) (tree : Tree) (res : Reconciliation R) where
    find_target-proc_uid :
        (class : ClassificationRecord) (t : Target)
        → find_target R d snap tree res class ≡ some t
        → t.proc_uid ≡ class.proc_uid
    unfolding find_target target_of
    find_target-proc_uid class t h = grind arith

    pub Decides-ids :
        (class : ClassificationRecord) (p : Policy) (e : Entry)
        → Decides R d s snap tree res class p e
        → (e.0.policy_id ≡ p.id) × (e.0.proc_uid ≡ class.proc_uid)
    unfolding entry_of
    Decides-ids class p e made =
        let ids = evaluate-ids p made.target _ _ made.decision made.decided in
        let same = find_target-proc_uid class made.target made.target_found in
        (
          ap (λ z. z.0.policy_id) made.is_entry ∙ ids.0,
          ap (λ z. z.0.proc_uid) made.is_entry ∙ ids.1 ∙ same,
        )

    one_entry :
        (class : ClassificationRecord) (t : Target) (p : Policy) (P : Entry → Type 0)
        (es : List Entry)
        → evaluate_definition R s class t p ≡ ok es
        → Once P es
    unfolding evaluate_definition decide_after
    one_entry class t p P [] h = tt
    one_entry class t p P (e ∷ []) h = (λ is. tt, tt)
    one_entry class t p P (e ∷ f ∷ es) h = absurd (ground arith)

    module _ (policy_id proc_uid : String) where
      abbrev Pair : Entry → Type 0
      Pair e = IsCandidate policy_id proc_uid e.0

      other_process :
          (class : ClassificationRecord) (es : List Entry)
          → class.proc_uid ≢ proc_uid
          → evaluate_class R d s snap tree res class ≡ ok es
          → NoneOf Pair es
      unfolding evaluate_class evaluate_target
      other_process class es differ h = elim (Option-cases (find_target R d snap tree res class)) [
        | inl none_found ↦ let e : [] ≡ es = ground arith in subst (NoneOf Pair) e tt
        | inr (t, found) ↦
            collect-All (evaluate_definition R s class t) (λ e. ¬ Pair e) d.policies es
              (rw found at h)
              (All_all _ d.policies λ p zs made.
                All_map (Decides R d s snap tree res class p) (λ e. ¬ Pair e) zs
                  (λ e by_p is. differ (sym (Decides-ids class p e by_p).1 ∙ is.2))
                  (decide_after-Decides R d s snap tree res class t p _ zs found refl
                    (unfold evaluate_definition in made)))
      ]

      one_policy :
          (class : ClassificationRecord) (es : List Entry)
          → NoRepeat [] (map (λ p. p.id) d.policies)
          → evaluate_class R d s snap tree res class ≡ ok es
          → Once Pair es
      unfolding evaluate_class evaluate_target
      one_policy class es distinct h = elim (Option-cases (find_target R d snap tree res class)) [
        | inl none_found ↦ let e : [] ≡ es = ground arith in subst (Once Pair) e tt
        | inr (t, found) ↦
            collect-Once (evaluate_definition R s class t) Pair (λ p. p.id) policy_id d.policies es
              (rw found at h) (NoRepeat-Once (λ p. p.id) policy_id [] d.policies distinct)
              (λ p zs made. one_entry class t p Pair zs made)
              (λ p zs differ made.
                All_map (Decides R d s snap tree res class p) (λ e. ¬ Pair e) zs
                  (λ e by_p is. differ (sym (Decides-ids class p e by_p).0 ∙ is.1))
                  (decide_after-Decides R d s snap tree res class t p _ zs found refl
                    (unfold evaluate_definition in made)))
      ]

      -- A batch has at most one candidate of a policy and a process.
      pub entries-Once :
          (last : Instant) (cadence : Duration) (due : Bool) (classes : List ClassificationRecord)
          (b : Batch)
          → NoRepeat [] (map (λ p. p.id) d.policies)
          → NoRepeat [] (map (λ c. c.proc_uid) classes)
          → evaluate_policies R d s last cadence snap tree res due classes ≡ ok b
          → Once Pair b.entries
      entries-Once last cadence due classes b ids keys h =
          elim (evaluate_policies-collects R d s snap tree res last cadence due classes b h) [
            | inr e ↦ rw e tt
            | inl (acting, e) ↦
                collect-Once (evaluate_class R d s snap tree res) Pair (λ c. c.proc_uid) proc_uid
                  classes b.entries e (NoRepeat-Once (λ c. c.proc_uid) proc_uid [] classes keys)
                  (λ class zs made. one_policy class zs ids made)
                  (λ class zs differ made. other_process class zs differ made)
          ]

pub Once-unique :
    {A : Type 0} (P : A → Type 0) (xs : List A) (x y : A)
    → Once P xs
    → Memᴰ x xs
    → Memᴰ y xs
    → P x
    → P y
    → x ≡ y
Once-unique P [] x y once m n p q = absurd (Memᴰ.not-nil m)
Once-unique P (z ∷ zs) x y once m n p q = elim (Memᴰ.cases_cons m) [
  | inl e ↦ elim (Memᴰ.cases_cons n) [
    | inl f ↦ e ∙ sym f
    | inr f ↦ absurd (All_at (λ w. ¬ P w) zs y (once.0 (subst P e p)) f q)
  ]
  | inr e ↦ elim (Memᴰ.cases_cons n) [
    | inl f ↦ absurd (All_at (λ w. ¬ P w) zs x (once.0 (subst P f q)) e p)
    | inr f ↦ Once-unique P zs x y once.1 e f p q
  ]
]

pub last_read :
    (s : Store) (policy_id proc_uid : String) (until : ℤ)
    → query_cooldown s policy_id proc_uid ≡ ok until
    → until ≡ last_candidate_cooldown s.rows policy_id proc_uid
unfolding query_cooldown
last_read s policy_id proc_uid until h = ground arith

pub unix-monotone : (until : ℤ) (t : ℕ) → unix until ≤ unix (pos t) → until ≤ℤ pos t
unfolding unix
unix-monotone (pos u) t le = omega arith
unix-monotone (negsuc u) t le = omega arith

pub row_times :
    (R : Runtime) (s : Store) (class : ClassificationRecord) (decision : Decision) (t k : ℕ)
    → class.ts_ns ≡ pos t
    → decision.result ≡ candidate
    → decision.cooldown_until ≡ add (unix class.ts_ns) (pos k)
    → ((entry_of R s class decision).0.ts_ns ≡ pos t)
      × ((entry_of R s class decision).0.cooldown_until_ns ≡ pos (t + k))
unfolding entry_of unix unix_nano add
row_times R s class decision t k e c until = (rw e (ground arith), ground arith)
