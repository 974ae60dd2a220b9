-- ===== src/Cache/Lane/Previews/Bounded.antt =====
-- What a preview of the cache lane leaves: it holds at most 128 approvals and touches nothing else.
use mathlib.Core.List.{append-nil}
use ghostgc.Prelude.{
  ◌≡◌, ◌≤◌, ◌∙◌, ap, sym, refl, String, Option, none, some, [], ◌∷◌, ◌++◌, length, leb, arith,
  Bool-cases, inl, inr,
}
use ghostgc.Prelude.Time.{Instant}
use ghostgc.Prelude.Runtime.{Runtime}
use ghostgc.Daemon.{Result, ok, err}
use ghostgc.Daemon.Approvals.{Approvals, max_approvals, prune_approvals, insert, remove}
use ghostgc.Cache.{CacheConfig, Digests}
use ghostgc.Cache.Lane.{CacheApproval, cache_ticket, Lane, CacheWorld, audited}
use ghostgc.Cache.Lane.Actions.Journal.{Quiet}
use ghostgc.Cache.Lane.Previews.{
  Subject, cache_approval, preview_audit, after_audit, hold_approval, issue_bound, issue_token,
  issue_cache_approval,
}

length-remove :
    (digest : String) (all : Approvals CacheApproval) → length (remove digest all) ≤ length all
unfolding remove
length-remove digest [] = omega arith
length-remove digest ((d, x) ∷ all) = let shorter = length-remove digest all in ground arith

length-prune_approvals :
    (now : Instant) (all : Approvals CacheApproval) → length (prune_approvals now all) ≤ length all
unfolding prune_approvals
length-prune_approvals now [] = omega arith
length-prune_approvals now ((d, x) ∷ all) =
    let shorter = length-prune_approvals now all in ground arith

-- The plans and the circuit are as before, nothing was called, and the bound of approvals holds.
pub record IsIssued (lane after : Lane) : Type 0 where
  pub same_plans : after.purge_plans ≡ lane.purge_plans
  pub same_circuit : after.filesystem_healthy ≡ lane.filesystem_healthy
  pub quiet : Quiet lane.journal after.journal
  pub bounded : length lane.approvals ≤ 128 → length after.approvals ≤ 128

same_lane : (lane : Lane) → IsIssued lane lane
same_lane lane = record {
  same_plans = refl;
  same_circuit = refl;
  quiet = ([], sym (append-nil lane.journal), tt);
  bounded = λ h. h;
}

module _ (R : Runtime) (D : Digests) (c : CacheConfig) (w : CacheWorld) where
  after_audit-IsIssued :
      (o : Option String) (s : Subject) (token binding : String) (lane held : Lane)
      → held.purge_plans ≡ lane.purge_plans
      → held.filesystem_healthy ≡ lane.filesystem_healthy
      → held.journal ≡ lane.journal
      → length held.approvals ≤ 128
      → IsIssued lane (after_audit R D c w o s token binding held).0
  unfolding after_audit
  after_audit-IsIssued (some text) s token binding lane held p q j few = record {
    same_plans = p;
    same_circuit = q;
    quiet = ([], j ∙ sym (append-nil lane.journal), tt);
    bounded =
        let shorter = length-remove (w.secret_digest token) held.approvals in λ h. omega arith;
  }
  after_audit-IsIssued none s token binding lane held p q j few = record {
    same_plans = p;
    same_circuit = q;
    quiet = (
      audited (preview_audit R D c w s binding) ∷ [],
      ap (λ z. z ++ (audited (preview_audit R D c w s binding) ∷ [])) j,
      (refl, tt),
    );
    bounded = λ h. few;
  }

  hold_approval-IsIssued :
      (s : Subject) (token binding : String) (lane : Lane)
      → IsIssued lane (hold_approval R D c w s token binding lane).0
  unfolding hold_approval insert
  hold_approval-IsIssued s token binding lane =
      let held = prune_approvals w.now_completed lane.approvals in
      let shorter = length-prune_approvals w.now_completed lane.approvals in
      elim (Bool-cases (leb max_approvals (length held))) [
        | inl full ↦ rw full (record {
          same_plans = refl;
          same_circuit = refl;
          quiet = ([], sym (append-nil lane.journal), tt);
          bounded = λ h. omega arith;
        })
        | inr room ↦
            let gone = length-remove (w.secret_digest token) held in
            rw room (
              after_audit-IsIssued (w.commit_error "audit") s token binding lane
                (record lane {
                  approvals =
                      (w.secret_digest token, cache_approval R D c w s binding)
                      ∷ remove (w.secret_digest token) held;
                })
                refl refl refl (ground arith))
      ]

  -- Whatever it was to issue, and whether it did or failed.
  pub issue_cache_approval-IsIssued :
      (r : Result Subject) (lane : Lane) → IsIssued lane (issue_cache_approval R D c w r lane).0
  unfolding issue_cache_approval
  issue_cache_approval-IsIssued (err text) lane = same_lane lane
  issue_cache_approval-IsIssued (ok s) lane = with_token (w.new_token 32)
    where
      bound :
          (token : String) (r : Result String)
          → IsIssued lane (issue_bound R D c w s token r lane).0
      bound token (err text) = unfold issue_bound in same_lane lane
      bound token (ok binding) = unfold issue_bound in hold_approval-IsIssued s token binding lane

      with_token : (r : Result String) → IsIssued lane (issue_token R D c w s r lane).0
      with_token (err text) = unfold issue_token in same_lane lane
      with_token (ok token) = unfold issue_token in bound token _
