-- ===== src/Executor/StepCapture.antt =====
-- Step capture and replay in `CudaExecutor` (`src/executor.rs`).
pub mod Laws
pub mod Replay
use magnetar_provider_cuda.Base.{
  ℕ, ◌+◌, ◌≡◌, String, Bool, true, false, ltb, ◌==◌, ◌&&◌, not, any, if◌then◌else◌, Option, none,
  some, is_some, List, [], ◌∷◌, ◌++◌, Map, Result, ok, err, ⊤, Action, pure, fail, ◌>>=◌, ◌>>◌,
  fail_if, gets, modify, lift, map_err, ok_or, lookup, insert, remove, contains_key,
}
use magnetar_provider_cuda.Base.Eq.{Eq, string_eq, nat_eq}
use magnetar_provider_cuda.Base.Bits.{u64}
use magnetar_provider_cuda.Error.{CudaError}
use magnetar_provider_cuda.Platform.{Platform, HostTensor}
use magnetar_provider_cuda.Kernels.State.{
  Kernels, KernelsAction, CudaDeviceBuffer, CapturedStep, buffer_len, buffer_address,
}
use magnetar_provider_cuda.Kernels.Floats.{integer_value}
use magnetar_provider_cuda.Kernels.Capture.{
  begin_capture, end_capture, abort_capture, launch_captured, check_embedding_flag,
}
use magnetar_provider_cuda.Kernels.Transfer.{write_into}
use magnetar_provider_cuda.Executor.State.{
  Executor, ExecutorAction, on_kernels, CaptureRecording, CapturedExecutorStep, StepCaptureState,
  ProviderExecutionError, execution_failed, Phase, submit_phase, complete_phase, StepReplayError,
  Resource, KernelInvocation,
}

-- `step_capture_error`
abbrev pub step_capture_error : Phase → ProviderExecutionError
step_capture_error phase = record { code = execution_failed; phase = phase }

-- Whether every recorded buffer is still at its address, with its length.
unfoldable pub resources_unchanged : Map String (ℕ × ℕ) → Map String CudaDeviceBuffer → Bool
resources_unchanged [] storage = true
resources_unchanged ((id, (address, len)) ∷ resources) storage =
    (elim (lookup id storage) [
      | some buffer ↦ buffer_address buffer == address && buffer_len buffer == len
      | none ↦ false
    ])
    && resources_unchanged resources storage

-- `value >= 0.0 && value == value.floor() && (value as u64) < vocab`
unfoldable pub is_valid_id : ℕ → ℕ → Bool
is_valid_id vocab value = elim (integer_value value) [ some n ↦ ltb n vocab | none ↦ false ]

-- The first input that cannot be replayed decides the error.
unfoldable pub check_inputs :
    CaptureRecording → List (String × HostTensor) → Result StepReplayError ⊤
check_inputs recording [] = ok tt
check_inputs recording ((id, tensor) ∷ inputs) =
    let rest = check_inputs recording inputs in
    let invalid_id : Bool = elim (lookup id recording.embedding_ids) [
      | some vocab ↦ any (λ value. not (is_valid_id vocab value)) tensor.values
      | none ↦ false
    ] in
    if not (contains_key id recording.resources)
    then err StepReplayError.invalidated
    else if invalid_id
    then err (StepReplayError.failed (step_capture_error submit_phase))
    else rest

-- `BTreeMap::extend`
abbrev pub extend : {V : Type 0} → Map String V → List (String × V) → Map String V
extend m [] = m
extend m ((k, v) ∷ entries) = extend (insert k v m) entries

-- The buffers that exist of the resources, with their addresses and lengths.
unfoldable pub touched : List Resource → Map String CudaDeviceBuffer → List (String × (ℕ × ℕ))
touched [] storage = []
touched (resource ∷ resources) storage =
    let rest = touched resources storage in
    elim (lookup resource.id storage) [
      | some buffer ↦ (resource.id, (buffer_address buffer, buffer_len buffer)) ∷ rest
      | none ↦ rest
    ]

-- An embedding lookup's ids (input 1), with the first dimension of its table (input 0).
unfoldable pub embedding_ids_of : KernelInvocation → Map String CudaDeviceBuffer → List (String × ℕ)
embedding_ids_of invocation storage =
    if string_eq.beq invocation.kernel_name "embedding"
    then (elim invocation.inputs [
      | table ∷ (ids ∷ _) ↦ elim (lookup table.id storage) [
        | some buffer ↦ elim buffer.shape [ vocab ∷ _ ↦ (ids.id, vocab) ∷ [] | [] ↦ [] ]
        | none ↦ []
      ]
      | _ ↦ []
    ])
    else []

module _ {Dev : Type 0} where
  abbrev pub with_recording : Option CaptureRecording → Executor Dev → Executor Dev
  with_recording recording e = record e {
    step_capture = record e.step_capture { recording = recording };
  }

  -- `record_captured_resources`, a step of nothing when no capture records.
  unfoldable pub record_captured_resources : KernelInvocation → Executor Dev → Executor Dev
  record_captured_resources invocation e = elim e.step_capture.recording [
    | none ↦ e
    | some recording ↦
        with_recording
          (some (record {
            resources =
                extend recording.resources
                  (touched (invocation.inputs ++ invocation.outputs) e.storage);
            embedding_ids = extend recording.embedding_ids (embedding_ids_of invocation e.storage);
          }))
          e
  ]

  unfoldable pub release_step_capture : ℕ → Executor Dev → Executor Dev
  release_step_capture id e = record e {
    step_capture = record e.step_capture { captures = remove id e.step_capture.captures };
  }

module _ {Dev : Type 0} (platform : Platform Dev) where
  -- A call of `self.kernels` whose error is a `step_capture_error`.
  abbrev capture_call :
      {A : Type 0} → Phase → KernelsAction Dev A → ExecutorAction ProviderExecutionError Dev A
  capture_call phase m = map_err (λ _. step_capture_error phase) (on_kernels m)

  -- The advancing attributes are those of the request.
  unfoldable pub begin_step_capture : List String → ExecutorAction ProviderExecutionError Dev ⊤
  begin_step_capture advancing = do
    recording ← gets (λ e. e.step_capture.recording)
    fail_if (is_some recording) (step_capture_error submit_phase)
    capture_call submit_phase (begin_capture platform advancing)
    modify (with_recording (some (record { resources = []; embedding_ids = [] })))

  unfoldable pub add_capture : CapturedExecutorStep → ExecutorAction ProviderExecutionError Dev ℕ
  add_capture captured e =
      let state = e.step_capture in
      let id = state.next_capture in
      (
        ok id,
        record e {
          step_capture = record state {
            next_capture = u64 (id + 1);
            captures = insert id captured state.captures;
          };
        },
      )

  unfoldable pub end_step_capture : ExecutorAction ProviderExecutionError Dev ℕ
  unfolding add_capture
  end_step_capture = do
    taken ← gets (λ e. e.step_capture.recording)
    modify (with_recording none)
    recording ← ok_or taken (step_capture_error complete_phase)
    step ← capture_call complete_phase (end_capture platform)
    capture_call complete_phase (launch_captured platform step 0)
    (if step.has_embedding
        then capture_call complete_phase (check_embedding_flag platform)
        else pure tt)
    add_capture (record { step = step; recording = recording })

  unfoldable pub abort_step_capture : Executor Dev → Executor Dev
  abort_step_capture e =
      let e' = with_recording none e in record e' { kernels = abort_capture platform e'.kernels }

  abbrev replay_call : {A : Type 0} → KernelsAction Dev A → ExecutorAction StepReplayError Dev A
  replay_call m =
      map_err (λ _. StepReplayError.failed (step_capture_error submit_phase)) (on_kernels m)

  -- A resource that is missing here is the source's `expect`, which panics.
  unfoldable pub write_inputs : List (String × HostTensor) → ExecutorAction StepReplayError Dev ⊤
  write_inputs [] = pure tt
  write_inputs ((id, tensor) ∷ inputs) =
      let rest = write_inputs inputs in
      (do
        found ← gets (λ e. lookup id e.storage)
        buffer ← ok_or found StepReplayError.invalidated
        replay_call (write_into platform buffer tensor.values)
        rest)

  unfoldable pub replay_step :
      ℕ → ℕ → List (String × HostTensor) → ExecutorAction StepReplayError Dev ⊤
  replay_step id offset inputs = do
    found ← gets (λ e. lookup id e.step_capture.captures)
    captured ← ok_or found StepReplayError.invalidated
    fail_if (ltb captured.step.max_offset offset) StepReplayError.invalidated
    storage ← gets (λ e. e.storage)
    fail_if (not (resources_unchanged captured.recording.resources storage))
        StepReplayError.invalidated
    lift (check_inputs captured.recording inputs)
    write_inputs inputs
    replay_call (launch_captured platform captured.step offset)
