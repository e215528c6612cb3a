-- ===== src/Executor/StepCapture/Laws.antt =====
-- What capturing and replaying a step promise (`src/executor.rs`).
use magnetar_provider_cuda.Base.{
  by_cases, ◌⊎◌, ℕ, ◌≡◌, arith, String, true, false, some, is_some, List, Result, ok, is_ok, lookup,
  lookup-insert_self, ⊤, Bool-cases, Option-cases, Result-cases, inl, inr,
}
use magnetar_provider_cuda.Base.Eq.{string_eq, nat_eq}
use magnetar_provider_cuda.Platform.{Platform, HostTensor}
use magnetar_provider_cuda.Kernels.State.{is_capturing}
use magnetar_provider_cuda.Kernels.Capture.{end_capture, launch_captured, check_embedding_flag}
use magnetar_provider_cuda.Kernels.Capture.Laws.{
  begin_capture-is_capturing, end_capture-is_capturing,
}
use magnetar_provider_cuda.Executor.State.{Executor, CapturedExecutorStep, StepReplayError}
use magnetar_provider_cuda.Executor.StepCapture.{
  begin_step_capture, end_step_capture, abort_step_capture, add_capture, replay_step,
}
use magnetar_provider_cuda.Executor.StepCapture.Replay.{
  may_replay, is_invalidated, replays, check_inputs-is_ok, all-contains_key, write_inputs-storage,
  write_inputs-replays,
}

module _ {Dev : Type 0} where
  -- A recording is in progress in the executor exactly while a capture is in the Kernels.
  abbrev pub IsSynced : Executor Dev → Type 0
  IsSynced e = is_some e.step_capture.recording ≡ is_capturing e.kernels

module _ {Dev : Type 0} (platform : Platform Dev) where
  -- The outcome of an allowed replay is that of the specification, and nothing of the executor but its
  -- Kernels changes.
  abbrev pub IsReplay :
      CapturedExecutorStep
      → ℕ
      → List (String × HostTensor)
      → Executor Dev
      → Result StepReplayError ⊤ × Executor Dev
      → Type 0
  IsReplay captured offset inputs e (r, e') =
      let (succeeded, k) = replays platform captured offset inputs e.storage e.kernels in
      (is_ok r ≡ succeeded) × (e' ≡ record e { kernels = k })

  replay_step-cases :
      (id offset : ℕ) (inputs : List (String × HostTensor)) (captured : CapturedExecutorStep)
      (e : Executor Dev)
      → lookup id e.step_capture.captures ≡ some captured
      → let (r, e') = replay_step platform id offset inputs e in
        (may_replay captured offset inputs e.storage ≡ false → (is_ok r ≡ false) × (e' ≡ e))
        × (may_replay captured offset inputs e.storage ≡ true
            → (is_invalidated r ≡ false) × IsReplay captured offset inputs e (r, e'))
  unfolding replay_step
  replay_step-cases id offset inputs captured e found =
      let checked = check_inputs-is_ok captured.recording inputs in
      (
        λ refused. ground (arith, checked),
        λ allowed.
            let written = write_inputs-storage platform inputs e (
              all-contains_key captured.recording inputs e.storage (ground arith) (ground arith)) in
            let replayed = write_inputs-replays platform captured offset inputs e in
            (
              ground (arith, checked, written),
              (ground (arith, checked, replayed), ground (arith, checked, replayed)),
            ),
      )

  -- A captured step may be replayed when the offset is within the captured bound, every recorded
  -- buffer is where it was, and every input was read by the step and has valid ids. Then the inputs
  -- are written in order, the offset is copied to the captured cell and the captured graph is
  -- launched, up to the first of these that fails; the replay succeeds exactly when all succeed,
  -- nothing of the executor but the Kernels' state changes, and no `Invalidated` comes back, so the
  -- `expect` on the inputs cannot panic. Otherwise the replay fails and nothing at all changes, on
  -- the device included.
  pub replay_step-may_replay :
      (id offset : ℕ) (inputs : List (String × HostTensor)) (captured : CapturedExecutorStep)
      (e : Executor Dev)
      → lookup id e.step_capture.captures ≡ some captured
      → let (r, e') = replay_step platform id offset inputs e in
        ((may_replay captured offset inputs e.storage ≡ true)
          × ((is_invalidated r ≡ false) × IsReplay captured offset inputs e (r, e')))
        ⊎ ((may_replay captured offset inputs e.storage ≡ false) × ((is_ok r ≡ false) × (e' ≡ e)))
  replay_step-may_replay id offset inputs captured e found =
      let (refused, allowed) = replay_step-cases id offset inputs captured e found in
      by_cases (may_replay captured offset inputs e.storage) allowed refused

  -- `replay_step` answers `Invalidated` only when it changed nothing, whether the capture is unknown
  -- or may not be replayed: the caller can still run the step without the capture.
  pub replay_step-is_invalidated :
      (id offset : ℕ) (inputs : List (String × HostTensor)) (e : Executor Dev)
      → let (r, e') = replay_step platform id offset inputs e in is_invalidated r ≡ true → e' ≡ e
  unfolding replay_step
  replay_step-is_invalidated id offset inputs e =
      elim (Option-cases (lookup id e.step_capture.captures)) [
        | inl unknown ↦ ground arith
        | inr (captured, found) ↦
            let (refused, allowed) = replay_step-cases id offset inputs captured e found in
            λ h. elim (Bool-cases (may_replay captured offset inputs e.storage)) [
              | inl may ↦ absurd (ground (arith, allowed may))
              | inr may_not ↦ (refused may_not).1
            ]
      ]

  -- Beginning, ending and aborting a step capture keep the executor's recording and the Kernels'
  -- capture in step, also when the driver fails; after an end or an abort neither is in progress.
  pub step_capture-IsSynced :
      (advancing : List String) (e : Executor Dev)
      → IsSynced e
      → IsSynced (begin_step_capture platform advancing e).1
        × IsSynced (end_step_capture platform e).1
        × IsSynced (abort_step_capture platform e)
        × (is_some (end_step_capture platform e).1.step_capture.recording ≡ false)
        × (is_some (abort_step_capture platform e).step_capture.recording ≡ false)
  unfolding begin_step_capture end_step_capture abort_step_capture add_capture launch_captured
      check_embedding_flag
  step_capture-IsSynced advancing e h = (
    ground (arith, begin_capture-is_capturing platform advancing e.kernels),
    ground (arith, end_capture-is_capturing platform e.kernels),
    ground (arith, end_capture-is_capturing platform e.kernels),
    ground arith,
    ground arith,
  )

  -- A step capture that ends well is stored under the id it returns, with what was recorded, and the
  -- bound and the graph that its capture gave.
  pub end_step_capture-stored :
      (id : ℕ) (e : Executor Dev)
      → (end_step_capture platform e).0 ≡ ok id
      → (captured : CapturedExecutorStep) × (lookup id
            (end_step_capture platform e).1.step_capture.captures
          ≡ some captured)
        × (some captured.recording ≡ e.step_capture.recording)
        × ((end_capture platform e.kernels).0 ≡ ok captured.step)
  unfolding end_step_capture add_capture
  end_step_capture-stored id e h = elim (Option-cases e.step_capture.recording) [
    | inl idle ↦ absurd (ground arith)
    | inr (recording, taken) ↦ elim (Result-cases (end_capture platform e.kernels).0) [
      | inr (error, failed) ↦ absurd (ground arith)
      | inl (step, ended) ↦
          let captured : CapturedExecutorStep = record { step = step; recording = recording } in
          let stored =
            lookup-insert_self e.step_capture.next_capture captured e.step_capture.captures in
          (captured, ground (arith, stored), ground arith, ended)
    ]
  ]
