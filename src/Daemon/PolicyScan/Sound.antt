-- ===== src/Daemon/PolicyScan/Sound.antt =====
-- The entries of a batch are exactly the decisions of the policies on the classified processes.
use mathlib.Core.List.{Memᴰ}
use ghostgc.Prelude.{
  ◌≡◌, refl, ◌⊎◌, inl, inr, Bool, true, not, ◌&&◌, ◌||◌, Option, none, some, List, [], ◌∷◌, All,
  arith, Bool-cases, Option-cases, subst,
}
use ghostgc.Prelude.Int.{ℤ}
use ghostgc.Prelude.Int
use ghostgc.Prelude.Time.{Instant, is_zero, sub, unix}
use ghostgc.Prelude.Runtime.{Runtime}
use ghostgc.Process.{key_eq, Snapshot}
use ghostgc.Process.Tree.{Tree}
use ghostgc.Config.Policies.{Policy}
use ghostgc.Policy.{Decision, Target}
use ghostgc.Policy as Decisions
use ghostgc.Daemon.{Daemon, Result, Result-cases, ok, err, Reconciliation}
use ghostgc.Daemon.PolicyScan.{
  ClassificationRecord, Entry, Batch, Store, query_cooldown, collect, entry_of, decide_after,
  evaluate_definition, evaluate_target, find_target, evaluate_class, batch_of, is_active_mode,
  evaluate_policies,
}
use ghostgc.Daemon.PolicyScan.Targets.{IsTarget, find_target-IsTarget}
use ghostgc.Daemon.PolicyScan.Collect.{collect-All, collect-Memᴰ, collect-ok}

module _ (R : Runtime) (d : Daemon) (s : Store) (snap : Snapshot) (tree : Tree)
    (res : Reconciliation R) where
  -- The entry is what a policy decides about a class, with the cooldown that the store has for them.
  pub record Decides (class : ClassificationRecord) (p : Policy) (e : Entry) : Type 0 where
    pub target : Target
    pub target_found : find_target R d snap tree res class ≡ some target
    pub is_target : IsTarget R d snap tree res class target
    pub until : ℤ
    pub cooldown_read : query_cooldown s p.id class.proc_uid ≡ ok until
    pub decision : Decision
    pub decided : Decisions.evaluate R p target (unix class.ts_ns) (unix until) ≡ some decision
    pub is_entry : e ≡ entry_of R s class decision

  pub record IsDecided (classes : List ClassificationRecord) (e : Entry) : Type 0 where
    pub class : ClassificationRecord
    pub listed : Memᴰ class classes
    pub policy : Policy
    pub configured : Memᴰ policy d.policies
    pub decides : Decides class policy e

  AllMem : {A : Type 0} (P : A → Type 0) (xs : List A) → ((x : A) → Memᴰ x xs → P x) → All P xs
  AllMem P [] h = tt
  AllMem P (x ∷ xs) h = (h x (Memᴰ.head refl), AllMem P xs (λ y m. h y (Memᴰ.tail m)))

  pub decide_after-Decides :
      (class : ClassificationRecord) (target : Target) (p : Policy) (read : Result ℤ)
      (es : List Entry)
      → find_target R d snap tree res class ≡ some target
      → query_cooldown s p.id class.proc_uid ≡ read
      → decide_after R s class target p read ≡ ok es
      → All (Decides class p) es
  unfolding decide_after
  decide_after-Decides class target p (err text) es t q h = cc
  decide_after-Decides class target p (ok until) es t q h =
      elim (Option-cases (Decisions.evaluate R p target (unix class.ts_ns) (unix until))) [
        | inl e ↦ let eq : [] ≡ es = ground arith in subst (All (Decides class p)) eq tt
        | inr (decision, e) ↦
            let eq : entry_of R s class decision ∷ [] ≡ es = ground arith in
            subst (All (Decides class p)) eq (
              record {
                target = target;
                target_found = t;
                is_target = find_target-IsTarget R d snap tree res class target t;
                until = until;
                cooldown_read = q;
                decision = decision;
                decided = e;
                is_entry = refl;
              },
              tt,
            )
      ]

  evaluate_target-IsDecided :
      (classes : List ClassificationRecord) (class : ClassificationRecord) (o : Option Target)
      (es : List Entry)
      → Memᴰ class classes
      → find_target R d snap tree res class ≡ o
      → evaluate_target R s d.policies class o ≡ ok es
      → All (IsDecided classes) es
  unfolding evaluate_target
  evaluate_target-IsDecided classes class none es m t h =
      let eq : [] ≡ es = ground arith in subst (All (IsDecided classes)) eq tt
  evaluate_target-IsDecided classes class (some target) es m t h =
      collect-All (evaluate_definition R s class target) (IsDecided classes) d.policies es h (
        AllMem _ d.policies λ p configured zs e.
          lift p configured zs
            (decide_after-Decides class target p _ zs t refl (unfold evaluate_definition in e)))
    where
      lift :
          (p : Policy)
          → Memᴰ p d.policies
          → (zs : List Entry) → All (Decides class p) zs
          → All (IsDecided classes) zs
      lift p configured [] a = tt
      lift p configured (z ∷ zs) a = (
        record { class = class; listed = m; policy = p; configured = configured; decides = a.0 },
        lift p configured zs a.1,
      )

  batch_of-entries :
      (classes : List ClassificationRecord) (found : Result (List Entry)) (b : Batch)
      → batch_of R snap classes found ≡ ok b
      → found ≡ ok b.entries
  unfolding batch_of
  batch_of-entries classes (err text) b h = cc
  batch_of-entries classes (ok es) b h = ground arith

  -- The entries of a batch that is due are collected in the acting modes, and none are in the others.
  pub evaluate_policies-collects :
      (last : Instant) (cadence : Int.ℤ) (classes_due : Bool) (classes : List ClassificationRecord)
      (b : Batch)
      → evaluate_policies R d s last cadence snap tree res classes_due classes ≡ ok b
      → ((is_active_mode d.global_mode ≡ true)
          × (collect (evaluate_class R d s snap tree res) classes ≡ ok b.entries))
        ⊎ (b.entries ≡ [])
  unfolding evaluate_policies
  evaluate_policies-collects last cadence classes_due classes b h =
      elim (Bool-cases
        (not classes_due || (not (is_zero last) && Int.ltb (sub snap.taken last) cadence))) [
          | inl early ↦ inr (ground arith)
          | inr due ↦ elim (Bool-cases (is_active_mode d.global_mode)) [
            | inl acting ↦
                let h' = rw acting at (rw due at h) in inl (acting, batch_of-entries classes _ b h')
            | inr idle ↦
                let h' = rw idle at (rw due at h) in
                let e = batch_of-entries classes _ b h' in inr (ground arith)
          ]
        ]

  -- Every entry of a batch is the decision of a configured policy about a classified process. The
  -- process has the PID and the start time of the stored identity, is in the snapshot and is attributed;
  -- it is judged under its own protections, its classification and the cooldown of the last stored
  -- candidate of the pair.
  pub evaluate_policies-IsDecided :
      (last : Instant) (cadence : Int.ℤ) (classes_due : Bool) (classes : List ClassificationRecord)
      (b : Batch)
      → evaluate_policies R d s last cadence snap tree res classes_due classes ≡ ok b
      → All (IsDecided classes) b.entries
  evaluate_policies-IsDecided last cadence classes_due classes b h =
      elim (evaluate_policies-collects last cadence classes_due classes b h) [
        | inl (acting, e) ↦
            collect-All (evaluate_class R d s snap tree res) (IsDecided classes) classes b.entries e
              (AllMem _ classes λ class m zs e'.
                evaluate_target-IsDecided classes class _ zs m refl (unfold evaluate_class in e'))
        | inr e ↦ rw e tt
      ]

  due_collects :
      (last : Instant) (cadence : Int.ℤ) (classes : List ClassificationRecord) (b : Batch)
      → evaluate_policies R d s last cadence snap tree res true classes ≡ ok b
      → b.due ≡ true
      → is_active_mode d.global_mode ≡ true
      → collect (evaluate_class R d s snap tree res) classes ≡ ok b.entries
  unfolding evaluate_policies
  due_collects last cadence classes b h due acting =
      elim (Bool-cases (not (is_zero last) && Int.ltb (sub snap.taken last) cadence)) [
        | inl early ↦ absurd (ground arith)
        | inr on ↦ batch_of-entries classes _ b (rw acting at (rw on at h))
      ]

  -- What a policy decides is in the entries of the policy.
  decide_after_complete :
      (class : ClassificationRecord) (target : Target) (p : Policy) (es : List Entry)
      → evaluate_definition R s class target p ≡ ok es
      → (until : ℤ) × (query_cooldown s p.id class.proc_uid ≡ ok until)
        × ((decision : Decision)
            → Decisions.evaluate R p target (unix class.ts_ns) (unix until) ≡ some decision
            → Memᴰ (entry_of R s class decision) es)
  unfolding evaluate_definition decide_after
  decide_after_complete class target p es h =
      elim (Result-cases (query_cooldown s p.id class.proc_uid)) [
        | inr (text, e) ↦ absurd (ground arith)
        | inl (until, e) ↦ (
          until,
          e,
          λ decision made.
              let eq : entry_of R s class decision ∷ [] ≡ es = ground arith in
              subst (Memᴰ (entry_of R s class decision)) eq (Memᴰ.head refl),
        )
      ]

  pub evaluate_class-found :
      (class : ClassificationRecord) (target : Target) (us : List Entry)
      → find_target R d snap tree res class ≡ some target
      → evaluate_class R d s snap tree res class ≡ ok us
      → collect (evaluate_definition R s class target) d.policies ≡ ok us
  unfolding evaluate_class evaluate_target
  evaluate_class-found class target us t h = rw t at h

  -- Nothing is left out: in an acting mode, for each classified process that is present and attributed
  -- and each configured policy, the cooldown was read, and the decision that the policy makes with it
  -- is an entry of the batch. So if one query fails there is no batch at all.
  pub evaluate_policies_complete :
      (last : Instant) (cadence : Int.ℤ) (classes : List ClassificationRecord) (b : Batch)
      (class : ClassificationRecord) (p : Policy) (target : Target)
      → evaluate_policies R d s last cadence snap tree res true classes ≡ ok b
      → b.due ≡ true
      → is_active_mode d.global_mode ≡ true
      → Memᴰ class classes
      → Memᴰ p d.policies
      → find_target R d snap tree res class ≡ some target
      → (until : ℤ) × (query_cooldown s p.id class.proc_uid ≡ ok until)
        × ((decision : Decision)
            → Decisions.evaluate R p target (unix class.ts_ns) (unix until) ≡ some decision
            → Memᴰ (entry_of R s class decision) b.entries)
  evaluate_policies_complete last cadence classes b class p target h due acting m configured t =
      let e = due_collects last cadence classes b h due acting in
      let (us, inner) =
        collect-ok (evaluate_class R d s snap tree res) class classes b.entries e m in
      let all = evaluate_class-found class target us t inner in
      let (es, own) =
        collect-ok (evaluate_definition R s class target) p d.policies us all configured in
      let (until, read, made) = decide_after_complete class target p es own in
      (
        until,
        read,
        λ decision x.
            collect-Memᴰ (evaluate_class R d s snap tree res) class classes b.entries us _ e m inner
              (collect-Memᴰ (evaluate_definition R s class target) p d.policies us es _ all
                configured own (made decision x)),
      )
