-- ===== src/Daemon/PolicyScan/Spacing.antt =====
-- Over scans and retention passes, the stored candidates of a policy and a process keep the
-- cooldown of the policy apart.
use ghostgc.Prelude.{
  ℕ, suc, ◌+◌, ◌≤◌, ◌≡◌, sym, String, List, [], ◌∷◌, All, arith, subst, string_eq,
}
use ghostgc.Prelude.Int.{ℤ, pos, int_eq, ◌≤ℤ◌}
use ghostgc.Daemon.{DecisionRecord}
use ghostgc.Policy.{candidate, outcome_eq}
use ghostgc.Daemon.PolicyScan.{last_candidate_cooldown, stored, insert_decisions, retain_decisions}
use ghostgc.Daemon.PolicyScan.Collect.{NoneOf, Once}

-- A candidate of the policy and the process.
abbrev pub IsCandidate : String → String → DecisionRecord → Type 0
IsCandidate policy_id proc_uid r =
    (r.result ≡ candidate) × (r.policy_id ≡ policy_id) × (r.proc_uid ≡ proc_uid)

module _ (policy_id proc_uid : String) (k : ℕ) where
  -- The row was decided at least the cooldown k before t.
  abbrev pub Before : ℕ → DecisionRecord → Type 0
  Before t r = IsCandidate policy_id proc_uid r → (n : ℕ) × (r.ts_ns ≡ pos n) × (n + k ≤ t)

  -- Any two candidates of the pair are at least k apart, the newer first.
  abbrev pub Spaced : List DecisionRecord → Type 0
  Spaced [] = Unit
  Spaced (r ∷ rows) =
      (IsCandidate policy_id proc_uid r → (t : ℕ) × (r.ts_ns ≡ pos t) × All (Before t) rows)
      × Spaced rows

  -- Whatever is decided after the clock and the last kept cooldown is k after every logged candidate.
  abbrev pub Covered : ℕ → List DecisionRecord → List DecisionRecord → Type 0
  Covered clock rows log =
      (t : ℕ)
      → clock ≤ t
      → last_candidate_cooldown rows policy_id proc_uid ≤ℤ pos t
      → All (Before t) log

  -- A candidate of the pair is decided after the clock, past the last cooldown, and starts a new one.
  abbrev pub Fine : ℕ → ℤ → DecisionRecord → Type 0
  Fine clock last r =
      IsCandidate policy_id proc_uid r
      → (t : ℕ) × (r.ts_ns ≡ pos t)
        × (r.cooldown_until_ns ≡ pos (t + k))
        × (clock ≤ t)
        × (last ≤ℤ pos t)

  Before-later :
      (t u : ℕ) (log : List DecisionRecord) → t ≤ u → All (Before t) log → All (Before u) log
  Before-later t u [] le a = tt
  Before-later t u (r ∷ log) le a =
      (λ c. let (n, e, b) = a.0 c in (n, e, omega arith), Before-later t u log le a.1)

  last-candidate :
      (r : DecisionRecord) (rows : List DecisionRecord)
      → IsCandidate policy_id proc_uid r
      → last_candidate_cooldown (r ∷ rows) policy_id proc_uid ≡ r.cooldown_until_ns
  unfolding last_candidate_cooldown
  last-candidate r rows (c, p, q) = ground arith

  last-other :
      (r : DecisionRecord) (rows : List DecisionRecord)
      → ¬ IsCandidate policy_id proc_uid r
      → last_candidate_cooldown (r ∷ rows) policy_id proc_uid
        ≡ last_candidate_cooldown rows policy_id proc_uid
  unfolding last_candidate_cooldown
  last-other r rows other = ground arith

  -- Retention deletes no cooldown that is not over.
  last-retain :
      (cutoff latest : ℤ) (now t : ℕ) (rows : List DecisionRecord)
      → now ≤ t
      → last_candidate_cooldown (retain_decisions cutoff latest (pos now) rows) policy_id proc_uid
        ≤ℤ pos t
      → last_candidate_cooldown rows policy_id proc_uid ≤ℤ pos t
  unfolding last_candidate_cooldown retain_decisions
  last-retain cutoff latest now t [] le h = h
  last-retain cutoff latest now t (r ∷ rows) le h =
      let earlier = last-retain cutoff latest now t rows le in ground (arith, earlier)

  pub Covered-retain :
      (cutoff latest : ℤ) (clock now : ℕ) (rows log : List DecisionRecord)
      → clock ≤ now
      → Covered clock rows log
      → Covered now (retain_decisions cutoff latest (pos now) rows) log
  Covered-retain cutoff latest clock now rows log le c t later h =
      c t (omega arith) (last-retain cutoff latest now t rows later h)

  -- What one new row does.
  Spaced-cons :
      (clock : ℕ) (r : DecisionRecord) (rows log : List DecisionRecord)
      → Fine clock (last_candidate_cooldown rows policy_id proc_uid) r
      → Covered clock rows log
      → Spaced log
      → Spaced (r ∷ log)
  Spaced-cons clock r rows log fine c s =
      (λ is. let (t, e, until, le, past) = fine is in (t, e, c t le past), s)

  Covered-cons :
      (clock : ℕ) (r : DecisionRecord) (rows log : List DecisionRecord)
      → Dec (IsCandidate policy_id proc_uid r)
      → Fine clock (last_candidate_cooldown rows policy_id proc_uid) r
      → Covered clock rows log
      → Covered clock (r ∷ rows) (r ∷ log)
  Covered-cons clock r rows log (no other) fine c t le h =
      (λ is. absurd (other is), c t le (subst (λ z. z ≤ℤ pos t) (last-other r rows other) h))
  Covered-cons clock r rows log (yes is) fine c t le h =
      let (n, e, until, after, past) = fine is in
      let h' : r.cooldown_until_ns ≤ℤ pos t =
        subst (λ z. z ≤ℤ pos t) (last-candidate r rows is) h in
      let ahead : pos (n + k) ≤ℤ pos t = subst (λ z. z ≤ℤ pos t) until h' in
      let reached : n + k ≤ t = omega arith in
      (λ again. (n, e, reached), Before-later n t log (omega arith) (c n after past))

  is_candidate? : (r : DecisionRecord) → Dec (IsCandidate policy_id proc_uid r)
  is_candidate? r = elim (outcome_eq.dec r.result candidate) [
    | no n ↦ no (λ h. n h.0)
    | yes c ↦ elim (string_eq.dec r.policy_id policy_id) [
      | no n ↦ no (λ h. n h.1)
      | yes p ↦ elim (string_eq.dec r.proc_uid proc_uid) [
        | no n ↦ no (λ h. n h.2)
        | yes q ↦ yes (c, p, q)
      ]
    ]
  ]

  Fine-rest :
      (clock : ℕ) (r : DecisionRecord) (rows rs : List DecisionRecord)
      → Dec (IsCandidate policy_id proc_uid r)
      → (IsCandidate policy_id proc_uid r → NoneOf (IsCandidate policy_id proc_uid) rs)
      → All (Fine clock (last_candidate_cooldown rows policy_id proc_uid)) rs
      → All (Fine clock (last_candidate_cooldown (r ∷ rows) policy_id proc_uid)) rs
  Fine-rest clock r rows rs (no other) once a =
      subst (λ z. All (Fine clock z) rs) (sym (last-other r rows other)) a
  Fine-rest clock r rows [] (yes is) once a = tt
  Fine-rest clock r rows (q ∷ rs) (yes is) once a =
      (λ c. absurd ((once is).0 c), Fine-rest clock r rows rs (yes is) (λ i. (once i).1) a.1)

  -- A batch with at most one candidate of the pair, all decided on the rows before it.
  pub Spaced-insert :
      (clock : ℕ) (evaluation : ℤ) (next : ℕ) (rs rows log : List DecisionRecord)
      → Once (IsCandidate policy_id proc_uid) rs
      → All (Fine clock (last_candidate_cooldown rows policy_id proc_uid)) rs
      → Covered clock rows log
      → Spaced log
      → Covered clock
          (insert_decisions evaluation next rows rs)
          (insert_decisions evaluation next log rs)
        × Spaced (insert_decisions evaluation next log rs)
  unfolding insert_decisions
  Spaced-insert clock evaluation next [] rows log once a c s = (c, s)
  Spaced-insert clock evaluation next (r ∷ rs) rows log once a c s =
      let row = stored evaluation (pos next) r in
      Spaced-insert clock evaluation (suc next) rs (row ∷ rows) (row ∷ log) once.1
        (Fine-rest clock row rows rs (is_candidate? row) once.0 a.1)
        (Covered-cons clock row rows log (is_candidate? row) a.0 c)
        (Spaced-cons clock row rows log a.0 c s)
