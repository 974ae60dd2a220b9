-- ===== src/Daemon/Signals.antt =====
-- internal/platform/darwin/signal.go: the last identity check, beside the system call.
use ghostgc.Prelude.{
  ℕ, ◌<>◌, ◌≡◌, ◌⊎◌, inl, inr, Bool, false, ◌||◌, String, Option, none, some, List, [], ◌∷◌, ◌++◌,
  ◌==◌, ◌!=◌, nat_eq, if◌then◌else◌, Bool-cases, arith, refl,
}
use ghostgc.Prelude.Runtime.{Runtime}
use ghostgc.Process.{Process, Key, key, key_eq, ExecutableIdentity, executable_eq, executable}
use ghostgc.Process.Keys.{uid}
use ghostgc.Daemon.{World, Result, ok, err, Effect, kill}

-- The signals; `other` is any but SIGTERM.
pub data Signal : Type 0 where
  sigterm : Signal
  other : ℕ → Signal

module _ (R : Runtime) where
  -- The process found at the PID is still the one meant: its owner, key and image.
  image_matches : Process → ExecutableIdentity → Bool
  image_matches p image = elim (executable p) [ none ↦ false | some found ↦ found == image ]

  send : World R → Key → List Effect → List Effect × Option String
  send w k effects = (
    effects ++ (kill k.pid ∷ []),
    elim (w.kill_error k.pid) [
      | none ↦ none
      | some e ↦ some ("darwin: signalling exact target " <> uid R k <> ": " <> e)
    ],
  )

  check_and_send :
      World R → ℕ → Key → ExecutableIdentity → Process → List Effect → List Effect × Option String
  unfolding image_matches send
  check_and_send w self_uid k image observed effects =
      if observed.uid != self_uid || key observed != k
      then (
        effects,
        some ("darwin: signal target changed from " <> uid R k <> " to " <> uid R (key observed)),
      )
      else if image_matches observed image
      then send w k effects
      else (effects, some "darwin: signal target executable changed or is unavailable")

  -- What follows the inspection of the PID.
  after_inspection :
      World R
      → ℕ
      → Key
      → ExecutableIdentity
      → Result Process
      → List Effect
      → List Effect × Option String
  unfolding check_and_send
  after_inspection w self_uid k image (err e) effects =
      (effects, some ("darwin: signal target " <> uid R k <> " unavailable: " <> e))
  after_inspection w self_uid k image (ok observed) effects =
      check_and_send w self_uid k image observed effects

  -- What follows the check of the context.
  after_context :
      World R
      → ℕ
      → Key
      → ExecutableIdentity
      → Signal
      → Option String
      → List Effect
      → List Effect × Option String
  unfolding after_inspection
  after_context w self_uid k image sig (some e) effects = (effects, some e)
  after_context w self_uid k image (other n) none effects =
      (effects, some "darwin: only SIGTERM is allowed")
  after_context w self_uid k image sigterm none effects =
      after_inspection w self_uid k image (w.inspect_process k.pid) effects

  unfoldable pub signal_process :
      World R → ℕ → Key → ExecutableIdentity → Signal → List Effect → List Effect × Option String
  unfolding after_context
  signal_process w self_uid k image sig effects =
      after_context w self_uid k image sig w.context_error effects

  -- The process at the PID of the key is, at the moment of the call, of the user, of the key and of
  -- the image.
  pub record IsExactTarget (w : World R) (self_uid : ℕ) (k : Key) (image : ExecutableIdentity)
      : Type 0 where
    pub observed : Process
    pub inspected : w.inspect_process k.pid ≡ ok observed
    pub owner : observed.uid ≡ self_uid
    pub same_key : key observed ≡ k
    pub same_image : executable observed ≡ some image

  check_and_send-exact :
      (w : World R) (self_uid : ℕ) (k : Key) (image : ExecutableIdentity) (p : Process)
      (effects : List Effect)
      → ((check_and_send w self_uid k image p effects).0 ≡ effects)
        ⊎ (((check_and_send w self_uid k image p effects).0 ≡ effects ++ (kill k.pid ∷ []))
            × (p.uid ≡ self_uid)
            × (key p ≡ k)
            × (executable p ≡ some image))
  unfolding check_and_send
  check_and_send-exact w self_uid k image p effects =
      elim (Bool-cases (p.uid != self_uid || key p != k)) [
        | inl changed ↦ inl (ground arith)
        | inr same ↦ elim (Bool-cases (image_matches p image)) [
          | inr differs ↦ inl (ground arith)
          | inl fits ↦ inr (ground arith, ground arith, ground arith, ground arith)
        ]
      ]

  abbrev Outcome :
      (w : World R) → ℕ → Key → ExecutableIdentity → Signal → List Effect → List Effect → Type 0
  Outcome w self_uid k image sig effects after =
      (after ≡ effects)
      ⊎ ((after ≡ effects ++ (kill k.pid ∷ []))
          × (sig ≡ sigterm)
          × IsExactTarget w self_uid k image)

  after_inspection-exact :
      (w : World R) (self_uid : ℕ) (k : Key) (image : ExecutableIdentity) (r : Result Process)
      (effects : List Effect)
      → w.inspect_process k.pid ≡ r
      → Outcome w self_uid k image sigterm effects (after_inspection w self_uid k image r effects).0
  unfolding after_inspection
  after_inspection-exact w self_uid k image (err e) effects found = inl refl
  after_inspection-exact w self_uid k image (ok p) effects found =
      elim (check_and_send-exact w self_uid k image p effects) [
        | inl same ↦ inl same
        | inr (sent, owner, same_key, same_image) ↦ inr (
          sent,
          refl,
          record {
            observed = p;
            inspected = found;
            owner = owner;
            same_key = same_key;
            same_image = same_image;
          },
        )
      ]

  after_context-exact :
      (w : World R) (self_uid : ℕ) (k : Key) (image : ExecutableIdentity) (sig : Signal)
      (c : Option String) (effects : List Effect)
      → Outcome w self_uid k image sig effects (after_context w self_uid k image sig c effects).0
  unfolding after_context
  after_context-exact w self_uid k image sigterm (some e) effects = inl refl
  after_context-exact w self_uid k image (other n) (some e) effects = inl refl
  after_context-exact w self_uid k image (other n) none effects = inl refl
  after_context-exact w self_uid k image sigterm none effects =
      after_inspection-exact w self_uid k image (w.inspect_process k.pid) effects refl

  -- A call either leaves the world alone, or sends one SIGTERM to the PID of the key, and then the
  -- signal is SIGTERM and the process inspected there is the exact target.
  pub signal_process-exact :
      (w : World R) (self_uid : ℕ) (k : Key) (image : ExecutableIdentity) (sig : Signal)
      (effects : List Effect)
      → ((signal_process w self_uid k image sig effects).0 ≡ effects)
        ⊎ (((signal_process w self_uid k image sig effects).0 ≡ effects ++ (kill k.pid ∷ []))
            × (sig ≡ sigterm)
            × IsExactTarget w self_uid k image)
  unfolding signal_process
  signal_process-exact w self_uid k image sig effects =
      after_context-exact w self_uid k image sig w.context_error effects

  -- To an exact target the signal is sent, and its outcome is that of the system call.
  pub signal_process-sends :
      (w : World R) (self_uid : ℕ) (k : Key) (image : ExecutableIdentity) (effects : List Effect)
      → w.context_error ≡ none
      → IsExactTarget w self_uid k image
      → w.kill_error k.pid ≡ none
      → signal_process w self_uid k image sigterm effects ≡ (effects ++ (kill k.pid ∷ []), none)
  unfolding signal_process
  signal_process-sends w self_uid k image effects c x e =
      ground (arith, x.inspected, x.owner, x.same_key, x.same_image)
