-- ===== src/Cache/Lane/Actions/Moves.antt =====
-- An apply request calls the filesystem at most once, after every check and a committed attempt.
use ghostgc.Prelude.{
  ◌<>◌, ◌≡◌, ◌∙◌, ap, subst, sym, refl, ◌⊎◌, inl, inr, true, false, String, some, List, ◌==◌, ◌!=◌,
  string_eq, Bool-cases, ◌<◌, arith,
}
use ghostgc.Prelude.Time.{Instant}
use ghostgc.Prelude.Runtime.{Runtime}
use ghostgc.Daemon.{Result, Result-cases, ok, err}
use ghostgc.Daemon.Approvals.{Consumed, missing, denied, granted, consume_approval, lookup}
use ghostgc.Daemon.Approvals.SingleUse.{granted_iff}
use ghostgc.Cache.{Identity, Artifact, Quarantine, CacheConfig, Digests}
use ghostgc.Cache.Lane.{
  CacheApproval, cache_ticket, Lane, CacheWorld, Event, quarantine_call, restore_call, begin,
}
use ghostgc.Cache.Lane.Revalidation.{fresh_cleanup_artifact, current_quarantine_approval}
use ghostgc.Cache.Lane.Revalidation.Passed.{
  fresh_cleanup_artifact-IsFresh, current_quarantine_approval-MayAct,
}
use ghostgc.Cache.Lane.Actions.{
  new_action, after_quarantine, try_quarantine, quarantine_checked, apply_quarantine, after_restore,
  try_restore, restore_checked, apply_restore, apply_kind, apply_consumed, apply_cache_approval,
  quarantine_reason, restore_reason,
}
use ghostgc.Cache.Lane.Actions.Journal.{
  Quiet, Quiet-refl, commit_if-journal, answer-Quiet, reject_action-Quiet, failed_call-Quiet,
  OneCall, begun-OneCall,
}

module _ (R : Runtime) (D : Digests) (c : CacheConfig) (w : CacheWorld) where
  after_quarantine-Quiet :
      (id : String) (a : CacheApproval) (artifact : Artifact) (destination : String)
      (evidence : List String) (r : Result Identity) (lane : Lane)
      → Quiet lane.journal
          (after_quarantine R D c w id a artifact destination evidence r lane).0.journal
  unfolding after_quarantine
  after_quarantine-Quiet id a artifact destination evidence (err cause) lane =
      failed_call-Quiet w id a cause evidence lane
  after_quarantine-Quiet id a artifact destination evidence (ok moved) lane =
      answer-Quiet (w.commit_error "quarantined") _ _ lane _ refl

  after_restore-Quiet :
      (id : String) (a : CacheApproval) (item : Quarantine) (evidence : List String)
      (r : Result Identity) (lane : Lane)
      → Quiet lane.journal (after_restore R D c w id a item evidence r lane).0.journal
  unfolding after_restore
  after_restore-Quiet id a item evidence (err cause) lane =
      failed_call-Quiet w id a cause evidence lane
  after_restore-Quiet id a item evidence (ok restored) lane =
      answer-Quiet (w.commit_error "restored") _ _ lane _ refl

  -- The call of a checked approval: what the revalidation gave is what is renamed.
  pub data Call (lane : Lane) (a : CacheApproval) : Event → Type 0 where
    into_quarantine :
        (artifact : Artifact) (evidence : List String)
        → a.kind ≡ "cleanup"
        → fresh_cleanup_artifact R D c w lane a ≡ ok (artifact, evidence)
        → Call lane a (
            quarantine_call artifact.root_path artifact.relative_path
              (w.base a.destination)
              artifact.root_identity
              artifact.identity)
    back :
        (item : Quarantine) (evidence : List String)
        → a.kind ≡ "restore"
        → current_quarantine_approval R D c w lane a ≡ ok (item, evidence)
        → Call lane a (
            restore_call item.root_path item.quarantine_path item.original_path
              a.artifact.root_identity item.identity)

  -- Nothing was called, or one call was made for the approval.
  abbrev pub AtMostOneCall : Lane → CacheApproval → List Event → Type 0
  AtMostOneCall lane a after =
      Quiet lane.journal after
      ⊎ ((call : Event) × Call lane a call × OneCall a call lane.journal after)

  try_quarantine-AtMostOneCall :
      (id : String) (a : CacheApproval) (artifact : Artifact) (evidence : List String)
      (now : Instant) (lane : Lane) (r : Result Lane)
      → a.kind ≡ "cleanup"
      → fresh_cleanup_artifact R D c w lane a ≡ ok (artifact, evidence)
      → begin w (new_action id a "attempting" (quarantine_reason R D c w) evidence now) lane ≡ r
      → AtMostOneCall lane a (try_quarantine R D c w id a artifact evidence lane r).0.journal
  unfolding try_quarantine begin
  try_quarantine-AtMostOneCall id a artifact evidence now lane (err text) k h b =
      inl (Quiet-refl lane.journal)
  try_quarantine-AtMostOneCall id a artifact evidence now lane (ok begun) k h b = inr (
    _,
    into_quarantine artifact evidence k h,
    begun-OneCall a _ _ lane begun _ (commit_if-journal _ _ _ lane begun b)
        (unfold new_action in refl) (unfold new_action in refl)
        (after_quarantine-Quiet id a artifact (w.base a.destination) evidence _ _),
  )

  try_restore-AtMostOneCall :
      (id : String) (a : CacheApproval) (item : Quarantine) (evidence : List String) (now : Instant)
      (lane : Lane) (r : Result Lane)
      → a.kind ≡ "restore"
      → current_quarantine_approval R D c w lane a ≡ ok (item, evidence)
      → begin w (new_action id a "attempting" (restore_reason R D c w) evidence now) lane ≡ r
      → AtMostOneCall lane a (try_restore R D c w id a item evidence lane r).0.journal
  unfolding try_restore begin
  try_restore-AtMostOneCall id a item evidence now lane (err text) k h b =
      inl (Quiet-refl lane.journal)
  try_restore-AtMostOneCall id a item evidence now lane (ok begun) k h b = inr (
    _,
    back item evidence k h,
    begun-OneCall a _ _ lane begun _ (commit_if-journal _ _ _ lane begun b)
        (unfold new_action in refl) (unfold new_action in refl)
        (after_restore-Quiet id a item evidence _ _),
  )

  apply_quarantine-AtMostOneCall :
      (id : String) (a : CacheApproval) (now : Instant) (lane : Lane)
      → a.kind ≡ "cleanup"
      → AtMostOneCall lane a (apply_quarantine R D c w id a now lane).0.journal
  unfolding apply_quarantine quarantine_checked
  apply_quarantine-AtMostOneCall id a now lane k =
      elim (Result-cases (fresh_cleanup_artifact R D c w lane a)) [
        | inl ((artifact, evidence), e) ↦
            rw e (try_quarantine-AtMostOneCall id a artifact evidence now lane _ k e refl)
        | inr (text, e) ↦ rw e (inl (reject_action-Quiet w id a text now lane))
      ]

  apply_restore-AtMostOneCall :
      (id : String) (a : CacheApproval) (now : Instant) (lane : Lane)
      → a.kind ≡ "restore"
      → AtMostOneCall lane a (apply_restore R D c w id a now lane).0.journal
  unfolding apply_restore restore_checked
  apply_restore-AtMostOneCall id a now lane k =
      elim (Result-cases (current_quarantine_approval R D c w lane a)) [
        | inl ((item, evidence), e) ↦
            rw e (try_restore-AtMostOneCall id a item evidence now lane _ k e refl)
        | inr (text, e) ↦ rw e (inl (reject_action-Quiet w id a text now lane))
      ]

  apply_kind-AtMostOneCall :
      (kind id : String) (a : CacheApproval) (now : Instant) (lane : Lane)
      → Quiet lane.journal (apply_kind R D c w kind id a now lane).0.journal
        ⊎ ((a.kind ≡ kind) × AtMostOneCall lane a (apply_kind R D c w kind id a now lane).0.journal)
  unfolding apply_kind
  apply_kind-AtMostOneCall kind id a now lane = elim (Bool-cases (a.kind != kind)) [
    | inl other ↦ inl (rw other (reject_action-Quiet w id a _ now lane))
    | inr same ↦ elim (Bool-cases (kind == "cleanup")) [
      | inl cleanup ↦
          let k : a.kind ≡ "cleanup" = ground arith in
          inr (ground arith, rw (same, cleanup) (apply_quarantine-AtMostOneCall id a now lane k))
      | inr not_cleanup ↦ elim (Bool-cases (kind == "restore")) [
        | inl restore ↦
            let k : a.kind ≡ "restore" = ground arith in
            inr (
              ground arith,
              rw (same, not_cleanup, restore) (apply_restore-AtMostOneCall id a now lane k),
            )
        | inr neither ↦
            inl (rw (same, not_cleanup, neither) (reject_action-Quiet w id a _ now lane))
      ]
    ]
  ]

  -- The lane after the token was consumed.
  abbrev pub consumed_lane : String → Lane → Lane
  consumed_lane token lane = record lane {
    approvals = (consume_approval (w.secret_digest token) w.now_start lane.approvals).0;
  }

  -- The approval that allows a call: known by the token's digest, unused, unexpired and of the kind.
  pub record Allows (kind token : String) (lane : Lane) (a : CacheApproval) : Type 0 where
    pub listed : lookup (w.secret_digest token) lane.approvals ≡ some a
    pub unused : a.used ≡ false
    pub in_time : w.now_start < a.expires
    pub of_kind : a.kind ≡ kind

  apply_consumed-AtMostOneCall :
      (kind : String) (consumed : Consumed CacheApproval) (id : Result String) (lane : Lane)
      → Quiet lane.journal (apply_consumed R D c w kind consumed id lane).0.journal
        ⊎ ((a : CacheApproval) × (consumed ≡ granted a)
            × (a.kind ≡ kind)
            × AtMostOneCall lane a (apply_consumed R D c w kind consumed id lane).0.journal)
  unfolding apply_consumed
  apply_consumed-AtMostOneCall kind (missing text) id lane = inl (Quiet-refl lane.journal)
  apply_consumed-AtMostOneCall kind (denied a refusal) (err text) lane =
      inl (Quiet-refl lane.journal)
  apply_consumed-AtMostOneCall kind (denied a refusal) (ok token) lane =
      inl (reject_action-Quiet w _ a _ w.now_start lane)
  apply_consumed-AtMostOneCall kind (granted a) (err text) lane = inl (Quiet-refl lane.journal)
  apply_consumed-AtMostOneCall kind (granted a) (ok token) lane =
      elim (apply_kind-AtMostOneCall kind ("act_" <> token) a w.now_start lane) [
        | inl quiet ↦ inl quiet
        | inr (same, one) ↦ inr (a, refl, same, one)
      ]

  -- An apply request makes at most one call on the filesystem. It makes one only with an unused and
  -- unexpired approval of the requested kind, for exactly the entry that the fresh revalidation gave,
  -- right after the attempt was committed; what it does after the call calls nothing more.
  pub apply_cache_approval-OneCall :
      (kind token : String) (lane : Lane)
      → let after = (apply_cache_approval R D c w kind token lane).0.journal in
        Quiet lane.journal after
        ⊎ ((a : CacheApproval) × (call : Event) × Allows kind token lane a
            × Call (consumed_lane token lane) (record a { used = true }) call
            × OneCall a call lane.journal after)
  unfolding apply_cache_approval
  apply_cache_approval-OneCall kind token lane = elim (Bool-cases (token == "")) [
    | inl empty ↦ inl (rw empty (Quiet-refl lane.journal))
    | inr given ↦
        let consumed = consume_approval (w.secret_digest token) w.now_start lane.approvals in
        elim (apply_consumed-AtMostOneCall kind consumed.1 (w.new_token 12)
          (consumed_lane token lane)) [
            | inl quiet ↦ inl (rw given quiet)
            | inr (b, got, same, inl quiet) ↦ inl (rw given quiet)
            | inr (b, got, same, inr (call, is, one)) ↦
                let (a, listed, unused, in_time, spent) =
                  (granted_iff (w.secret_digest token) w.now_start lane.approvals b).0 got in
                inr (
                  a,
                  call,
                  record {
                    listed = listed;
                    unused = unused;
                    in_time = in_time;
                    of_kind = ap (λ z. z.kind) (sym spent) ∙ same;
                  },
                  subst (λ z. Call (consumed_lane token lane) z call) spent is,
                  rw given (
                      subst
                        (λ z.
                          OneCall z call lane.journal
                            (apply_consumed R D c w kind consumed.1 (w.new_token 12)
                              (consumed_lane token lane)).0.journal)
                        spent one),
                )
          ]
  ]

  Call-healthy :
      (lane : Lane) (a : CacheApproval) (call : Event)
      → Call lane a call
      → lane.filesystem_healthy ≡ true
  Call-healthy lane a call (into_quarantine artifact evidence k h) =
      (fresh_cleanup_artifact-IsFresh R D c w lane a artifact evidence h).may_act.filesystem_healthy
  Call-healthy lane a call (back item evidence k h) =
      (current_quarantine_approval-MayAct R D c w lane a item evidence h).filesystem_healthy

  -- Once the filesystem circuit is open, no token leads to a call.
  pub stopped_lane :
      (kind token : String) (lane : Lane)
      → lane.filesystem_healthy ≡ false
      → Quiet lane.journal (apply_cache_approval R D c w kind token lane).0.journal
  stopped_lane kind token lane off = elim (apply_cache_approval-OneCall kind token lane) [
    | inl quiet ↦ quiet
    | inr (a, call, allowed, is, one) ↦
        let on = Call-healthy (consumed_lane token lane) (record a { used = true }) call is in
        absurd (ground arith)
  ]
