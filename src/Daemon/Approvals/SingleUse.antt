-- ===== src/Daemon/Approvals/SingleUse.antt =====
-- An approval grants authority once, and only before it expires.
use ghostgc.Prelude.{
  ◌≡◌, ◌↔◌, ◌≢◌, inl, inr, true, false, String, some, List, [], ◌∷◌, ◌==◌, string_eq, All, arith,
  ◌<◌, Bool-cases, Option-cases,
}
use ghostgc.Prelude.Time.{Instant, add, before}
use ghostgc.Daemon.Approvals.{
  Ticket, Approvals, granted, lookup, insert, remove, prune_approvals, approval_lifetime,
  consume_approval,
}

-- What can happen to the approvals between two uses of a token.
pub data Op (A : Type 0) : Type 0 where
  consume : String → Instant → Op A
  prune : Instant → Op A
  issue : String → A → Op A
  withdraw : String → Op A

module _ {A : Type 0} ⦃T : Ticket A⦄ where
  -- Whatever the map holds under the digest has been used.
  abbrev pub IsSpent : String → Approvals A → Type 0
  IsSpent digest = All (λ (d, a). d ≡ digest → T.used a ≡ true)

  remove-IsSpent :
      (digest d : String) (all : Approvals A) → IsSpent digest all → IsSpent digest (remove d all)
  unfolding remove
  remove-IsSpent digest d [] h = tt
  remove-IsSpent digest d ((k, a) ∷ rest) h = elim (Bool-cases (k == d)) [
    | inl same ↦ rw same (remove-IsSpent digest d rest h.1)
    | inr differ ↦ rw differ (h.0, remove-IsSpent digest d rest h.1)
  ]

  -- Nothing is left under a digest that was removed.
  remove_self : (digest : String) (all : Approvals A) → IsSpent digest (remove digest all)
  unfolding remove
  remove_self digest [] = tt
  remove_self digest ((k, a) ∷ rest) = elim (Bool-cases (k == digest)) [
    | inl same ↦ rw same (remove_self digest rest)
    | inr differ ↦ rw differ (λ e. absurd (ground arith), remove_self digest rest)
  ]

  prune-IsSpent :
      (digest : String) (now : Instant) (all : Approvals A)
      → IsSpent digest all
      → IsSpent digest (prune_approvals now all)
  unfolding prune_approvals
  prune-IsSpent digest now [] h = tt
  prune-IsSpent digest now ((k, a) ∷ rest) h =
      elim (Bool-cases (before (add (T.expires a) approval_lifetime) now)) [
        | inl old ↦ rw old (prune-IsSpent digest now rest h.1)
        | inr kept ↦ rw kept (h.0, prune-IsSpent digest now rest h.1)
      ]

  insert-IsSpent :
      (digest d : String) (a : A) (all : Approvals A)
      → (d ≡ digest → T.used a ≡ true)
      → IsSpent digest all
      → IsSpent digest (insert d a all)
  unfolding insert
  insert-IsSpent digest d a all u h = (u, remove-IsSpent digest d all h)

  lookup-IsSpent :
      (digest : String) (all : Approvals A) (a : A)
      → IsSpent digest all
      → lookup digest all ≡ some a
      → T.used a ≡ true
  unfolding lookup
  lookup-IsSpent digest [] a h e = cc
  lookup-IsSpent digest ((k, b) ∷ rest) a h e =
      ground (arith, h.0, lookup-IsSpent digest rest a h.1)

  consume-IsSpent :
      (digest d : String) (now : Instant) (all : Approvals A)
      → IsSpent digest all
      → IsSpent digest (consume_approval d now all).0
  unfolding consume_approval
  consume-IsSpent digest d now all h = elim (Option-cases (lookup d all)) [
    | inl gone ↦ rw (gone, consume_approval) h
    | inr (a, found) ↦
        rw (found, consume_approval)
          (elim (Bool-cases (T.used a)) [
            | inl used ↦ rw used h
            | inr fresh ↦ rw fresh (insert-IsSpent digest d (T.spend a) all (λ _. T.used-spend a) h)
          ])
  ]

  unfoldable pub apply_op : Op A → Approvals A → Approvals A
  apply_op (consume d now) all = (consume_approval d now all).0
  apply_op (prune now) all = prune_approvals now all
  apply_op (issue d a) all = insert d a all
  apply_op (withdraw d) all = remove d all

  unfoldable pub run : List (Op A) → Approvals A → Approvals A
  unfolding apply_op
  run [] all = all
  run (op ∷ ops) all = run ops (apply_op op all)

  -- The operation does not issue another approval under the digest.
  abbrev pub Keeps : String → Op A → Type 0
  Keeps digest (issue d a) = d ≢ digest
  Keeps digest (consume d now) = Unit
  Keeps digest (prune now) = Unit
  Keeps digest (withdraw d) = Unit

  apply_op-IsSpent :
      (digest : String) (op : Op A) (all : Approvals A)
      → Keeps digest op
      → IsSpent digest all
      → IsSpent digest (apply_op op all)
  unfolding apply_op
  apply_op-IsSpent digest (consume d now) all k h = consume-IsSpent digest d now all h
  apply_op-IsSpent digest (prune now) all k h = prune-IsSpent digest now all h
  apply_op-IsSpent digest (issue d a) all k h = insert-IsSpent digest d a all (λ e. absurd (k e)) h
  apply_op-IsSpent digest (withdraw d) all k h = remove-IsSpent digest d all h

  run-IsSpent :
      (digest : String) (ops : List (Op A)) (all : Approvals A)
      → All (Keeps digest) ops
      → IsSpent digest all
      → IsSpent digest (run ops all)
  unfolding run
  run-IsSpent digest [] all k h = h
  run-IsSpent digest (op ∷ ops) all k h =
      run-IsSpent digest ops (apply_op op all) k.1 (apply_op-IsSpent digest op all k.0 h)

  -- A token grants authority exactly when an approval that was not used stands under its digest
  -- and has not expired; what is granted is the approval, marked as used.
  pub granted_iff :
      (digest : String) (now : Instant) (all : Approvals A) (a : A)
      → ((consume_approval digest now all).1 ≡ granted a) ↔ (
          (b : A) × (lookup digest all ≡ some b)
          × (T.used b ≡ false)
          × (now < T.expires b)
          × (a ≡ T.spend b))
  unfolding consume_approval
  granted_iff digest now all a = elim (Option-cases (lookup digest all)) [
    | inl gone ↦ (λ h. absurd (ground arith), λ h. absurd (ground arith))
    | inr (b, found) ↦
        (λ h. (b, found, ground arith, ground arith, ground arith), λ h. ground arith)
  ]

  granted-IsSpent :
      (digest : String) (now : Instant) (all : Approvals A) (a : A)
      → (consume_approval digest now all).1 ≡ granted a
      → IsSpent digest (consume_approval digest now all).0
  unfolding consume_approval insert
  granted-IsSpent digest now all a h = elim (Option-cases (lookup digest all)) [
    | inl gone ↦ absurd (ground arith)
    | inr (b, found) ↦
        rw (found, consume_approval)
          (elim (Bool-cases (T.used b)) [
            | inl used ↦ absurd (ground arith)
            | inr fresh ↦ rw fresh ((λ _. T.used-spend b), remove_self digest all)
          ])
  ]

  -- Once a token was granted authority it never is again, whatever is consumed, pruned, withdrawn or
  -- issued under other digests in between.
  pub granted_once :
      (digest : String) (now later : Instant) (all : Approvals A) (a b : A) (ops : List (Op A))
      → (consume_approval digest now all).1 ≡ granted a
      → All (Keeps digest) ops
      → (consume_approval digest later (run ops (consume_approval digest now all).0)).1 ≢ granted b
  granted_once digest now later all a b ops h k again =
      let left = (consume_approval digest now all).0 in
      let spent = run-IsSpent digest ops left k (granted-IsSpent digest now all a h) in
      let (c, found, unused, _, _) = (granted_iff digest later (run ops left) b).0 again in
      cc (lookup-IsSpent digest (run ops left) c spent found)
