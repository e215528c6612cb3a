-- ===== src/Executor/Tests.antt =====
-- Tests of `src/executor.rs` on the simulated device: handles, observations and step capture.
pub mod Memory
mod Admission
mod Invocation
use magnetar_provider_cuda.Base.{
  ◌⊎◌, ℕ, ◌+◌, ◌*◌, ◌≤◌, ◌<◌, ◌^◌, ◌≡◌, ◌≢◌, refl, arith, String, Bool, true, false, Option, none,
  some, is_some, List, [], ◌∷◌, Result, ok, err, is_ok, length, lookup, contains_key,
}
use magnetar_provider_cuda.Base.Eq.{Eq, string_eq, nat_eq}
use magnetar_provider_cuda.Platform.{Slice, HostTensor}
use magnetar_provider_cuda.Platform.Simulated.{Device, simulated, fresh_device}
use magnetar_provider_cuda.Kernels.State.{Kernels, CudaDeviceBuffer, CapturedStep}
use magnetar_provider_cuda.Kernels.Capture.{end_capture, launch_captured, check_embedding_flag}
use magnetar_provider_cuda.Kernels.Transfer.{f32_buffer}
use magnetar_provider_cuda.Kernels.Tests.{kernels0, capturing0, capture0}
use magnetar_provider_cuda.Executor.State.{
  Executor, ExecutionId, made, numbered, execution_eq, ProviderExecutionRequest,
  ProviderExecutionHandle, KernelInvocation, KernelResult, Resource, DType, success,
  KernelObservation, dispatch_started, dispatch_completed, CaptureRecording, CapturedExecutorStep,
  StepReplayError,
}
use magnetar_provider_cuda.Executor.Observations.{observations, kernel_observation_log_capacity}
use magnetar_provider_cuda.Executor.Observations.Laws.{
  latest, observe_all, observations-observe_all,
}
use magnetar_provider_cuda.Error.{KernelError}
use magnetar_provider_cuda.Executor.Dispatch.{FrequencyScaling}
use magnetar_provider_cuda.Executor.Admitted.{execute_invocation_with_memory_manager}
use magnetar_provider_cuda.Executor.Tests.Memory.{test_manager}
use magnetar_provider_cuda.Executor.Submission.{
  status, complete, submit_kernel_invocation, complete_kernel_invocation,
  next_provider_execution_id,
}
use magnetar_provider_cuda.Executor.Submission.Laws.{
  Event, submitted, completed, is_open, run_events, status-run_events,
  complete_kernel_invocation-submit_kernel_invocation,
}
use magnetar_provider_cuda.Executor.StepCapture.{
  begin_step_capture, end_step_capture, abort_step_capture, add_capture, replay_step,
}
use magnetar_provider_cuda.Executor.StepCapture.Replay.{may_replay, is_invalidated}
use magnetar_provider_cuda.Executor.StepCapture.Laws.{
  IsReplay, IsSynced, replay_step-may_replay, replay_step-is_invalidated, step_capture-IsSynced,
  end_step_capture-stored,
}

abbrev pub executor0 : Executor Device
executor0 = record {
  kernels = kernels0;
  device_id = "gpu";
  provider_name = "cuda";
  storage = [];
  observations = [];
  submitted = [];
  kernel_executions = [];
  resource_allocations = [];
  next_execution_ordinal = 0;
  step_capture = record { recording = none; captures = []; next_capture = 0 };
}

abbrev pub resource : String → Resource
resource id = record { id = id; dtype = DType.float32; byte_size = some 8 }

abbrev pub invocation0 : KernelInvocation
invocation0 = record {
  id = "run";
  kernel_name = "unknown";
  inputs = resource "x" ∷ [];
  outputs = resource "y" ∷ [];
  attributes = [];
  deadline_millis = none;
}

abbrev request : ProviderExecutionRequest
request = record { handle_id = "h"; operation = 1; plan = "p"; provider = "cuda"; device = none }

abbrev handle : ProviderExecutionHandle
handle = record { id = made "h"; operation = 1; plan = "p"; provider = "cuda"; device = none }

abbrev events : List Event
events = submitted request ∷ completed handle ∷ submitted request ∷ []

status-run_events_example :
    let e' = run_events events executor0 in
    let open_handle = is_open events handle.id (contains_key handle.id executor0.submitted) in
    (is_ok (status handle e').0 ≡ open_handle)
    × ((status handle e').1 ≡ e')
    × (is_ok (complete handle e').0 ≡ open_handle)
    × (is_ok (complete handle (complete handle e').1).0 ≡ false)
status-run_events_example = status-run_events events handle executor0

abbrev pub no_scaling : FrequencyScaling
no_scaling attributes = some none

abbrev accept : KernelInvocation → Result KernelError Unit
accept invocation = ok tt

abbrev invocation1 : KernelInvocation
invocation1 = record invocation0 { id = "again" }

complete_kernel_invocation-submit_kernel_invocation_example :
    let execute = execute_invocation_with_memory_manager simulated no_scaling test_manager accept in
    let submit_kernel = submit_kernel_invocation simulated no_scaling test_manager accept in
    let ran = (execute invocation0 ((next_provider_execution_id "run" executor0).1, [])).0 in
    let (h, (e1, memory1)) = submit_kernel invocation0 (executor0, []) in
    let ran' = (execute invocation1 ((next_provider_execution_id "again" e1).1, memory1)).0 in
    let (h', (e2, _)) = submit_kernel invocation1 (e1, memory1) in
    let (first, e3) = complete_kernel_invocation h e2 in
    (h'.id ≢ h.id)
    × (first ≡ ok ran)
    × (is_ok (complete_kernel_invocation h e3).0 ≡ false)
    × ((complete_kernel_invocation h' e3).0 ≡ ok ran')
complete_kernel_invocation-submit_kernel_invocation_example =
    complete_kernel_invocation-submit_kernel_invocation simulated no_scaling test_manager accept
      invocation0 invocation1 executor0 [] (omega arith)

abbrev observed : List KernelObservation
observed =
    record { kind = dispatch_started; kernel_name = "add"; invocation = "run" }
    ∷ record { kind = dispatch_completed; kernel_name = "add"; invocation = "run" }
    ∷ []

observations-observe_all_example :
    (observations (observe_all observed executor0)
      ≡ latest kernel_observation_log_capacity observed)
    × (length (observe_all observed executor0).observations ≤ 2 * kernel_observation_log_capacity)
observations-observe_all_example = observations-observe_all observed executor0 refl

-- A step that read the ids of an embedding lookup among 10.
abbrev ids : CudaDeviceBuffer
ids = f32_buffer (record { address = 50; len = 1 }) (1 ∷ [])

abbrev recorded : CaptureRecording
recorded = record { resources = ("ids", (50, 1)) ∷ []; embedding_ids = ("ids", 10) ∷ [] }

abbrev step : CapturedExecutorStep
step = record {
  step = record {
    graph = 7;
    offset = record { address = 60; len = 1 };
    max_offset = 5;
    has_embedding = true;
  };
  recording = recorded;
}

abbrev replayable : Executor Device
replayable = record executor0 {
  storage = ("ids", ids) ∷ [];
  step_capture = record { recording = none; captures = (0, step) ∷ []; next_capture = 1 };
}

-- The id 9, as an `f32`.
abbrev inputs : List (String × HostTensor)
inputs = ("ids", record { shape = 1 ∷ []; values = 0x4110_0000 ∷ [] }) ∷ []

replay_step-may_replay_example :
    let (r, e') = replay_step simulated 0 5 inputs replayable in
    ((may_replay step 5 inputs replayable.storage ≡ true)
      × ((is_invalidated r ≡ false) × IsReplay simulated step 5 inputs replayable (r, e')))
    ⊎ ((may_replay step 5 inputs replayable.storage ≡ false)
        × ((is_ok r ≡ false) × (e' ≡ replayable)))
replay_step-may_replay_example = replay_step-may_replay simulated 0 5 inputs step replayable refl

abbrev recording : Executor Device
recording = record executor0 {
  kernels = capturing0;
  step_capture = record { recording = some recorded; captures = []; next_capture = 0 };
}

step_capture-IsSynced_example :
    IsSynced (begin_step_capture simulated [] recording).1
    × IsSynced (end_step_capture simulated recording).1
    × IsSynced (abort_step_capture simulated recording)
    × (is_some (end_step_capture simulated recording).1.step_capture.recording ≡ false)
    × (is_some (abort_step_capture simulated recording).step_capture.recording ≡ false)
step_capture-IsSynced_example = step_capture-IsSynced simulated [] recording refl
