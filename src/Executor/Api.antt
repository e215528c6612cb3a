-- ===== src/Executor/Api.antt =====
-- `impl ProviderExecutionApi for CudaExecutor` (`src/executor.rs`): what the Runtime calls, on the
-- executor and the memory manager that it passes.
pub mod Laws
pub mod Sequence
use magnetar_provider_cuda.Base.{
  ℕ, ◌≡◌, String, Bool, true, false, Option, none, some, List, Result, ok, err, ⊤, Action, map_err,
}
use magnetar_provider_cuda.Error.{CudaError, KernelError}
use magnetar_provider_cuda.Platform.{Platform, HostTensor}
use magnetar_provider_cuda.Executor.State.{
  Executor, ExecutorAction, KernelInvocation, KernelResult, KernelObservation,
  ProviderExecutionRequest, ProviderExecutionHandle, ProviderExecutionError, StepReplayError,
  TensorValue, MemoryManager, MemoryError, TensorValueAdmissionError,
}
use magnetar_provider_cuda.Executor.Observations.{observations}
use magnetar_provider_cuda.Executor.Tensors.{
  materialization_error, write_tensor, write_weight_tensor, read_tensor, read_tensor_rows,
  release_tensor, read_tensor_value, resident_shape, write_tensor_value, write_zeroed_tensor,
  select_greedy_column,
}
use magnetar_provider_cuda.Executor.Admission.{
  on_executor, write_tensor_admitted, write_tensor_value_admitted, copy_tensor_admitted,
  release_admitted_tensor,
}
use magnetar_provider_cuda.Executor.Submission.{
  SchedulingState, CancellationOutcome, submit, status, cancel, complete, release,
  submit_kernel_invocation, complete_kernel_invocation,
}
use magnetar_provider_cuda.Executor.StepCapture.{
  begin_step_capture, end_step_capture, abort_step_capture, replay_step, release_step_capture,
}
use magnetar_provider_cuda.Executor.Dispatch.{FrequencyScaling}

-- The operations that the executor implements, on a state.
pub record ProviderExecutionApi (S : Type 0) : Type 0 where
  pub submit_request :
      ProviderExecutionRequest → Action ProviderExecutionError S ProviderExecutionHandle
  pub status_of : ProviderExecutionHandle → Action ProviderExecutionError S SchedulingState
  pub cancel_request : ProviderExecutionHandle → Action ProviderExecutionError S CancellationOutcome
  pub complete_request : ProviderExecutionHandle → Action ProviderExecutionError S ⊤
  pub release_request : ProviderExecutionHandle → Action ProviderExecutionError S ⊤
  pub submit_kernel : KernelInvocation → Action ProviderExecutionError S ProviderExecutionHandle
  pub complete_kernel : ProviderExecutionHandle → Action ProviderExecutionError S KernelResult
  pub write : String → HostTensor → Action ProviderExecutionError S ⊤
  pub write_weight : String → HostTensor → Action ProviderExecutionError S ⊤
  pub read : String → S → Option HostTensor × S
  pub read_rows : String → ℕ → ℕ → S → Option HostTensor × S
  pub free : String → Action ProviderExecutionError S Bool
  pub free_admitted : String → Action ProviderExecutionError S Bool
  pub write_admitted : String → HostTensor → ℕ → ℕ → Action MemoryError S ⊤
  pub read_value : String → S → Option TensorValue
  pub shape_of : String → S → Option (List ℕ)
  pub write_value : String → TensorValue → Action ProviderExecutionError S ⊤
  pub write_zeroed : String → List ℕ → Action ProviderExecutionError S Bool
  pub write_value_admitted : String → TensorValue → ℕ → ℕ → Action TensorValueAdmissionError S ⊤
  pub copy_admitted : String → String → ℕ → ℕ → Action TensorValueAdmissionError S ℕ
  pub observed : S → List KernelObservation
  pub supports_step_capture : Bool
  pub begin_step : List String → Action ProviderExecutionError S ⊤
  pub end_step : Action ProviderExecutionError S ℕ
  pub abort_step : S → S
  pub replay : ℕ → ℕ → List (String × HostTensor) → Action StepReplayError S ⊤
  pub release_step : ℕ → S → S
  pub select_greedy : String → ℕ → List (ℕ × ℕ) → ℕ → S → Option ℕ × S

module _ {Dev Mem : Type 0} where
  -- `Ok(…)` of a call that cannot fail.
  abbrev succeeding :
      {E A : Type 0}
      → (Executor Dev × Mem → A × (Executor Dev × Mem))
      → Action E (Executor Dev × Mem) A
  succeeding m s = let (a, s') = m s in (ok a, s')

  abbrev keeping_memory :
      {A : Type 0}
      → (Executor Dev → A × Executor Dev)
      → Executor Dev × Mem
      → A × (Executor Dev × Mem)
  keeping_memory m (e, memory) = let (a, e') = m e in (a, (e', memory))

  abbrev changing : (Executor Dev → Executor Dev) → Executor Dev × Mem → Executor Dev × Mem
  changing f (e, memory) = (f e, memory)

  abbrev reading : {A : Type 0} → (Executor Dev → A) → Executor Dev × Mem → A
  reading f (e, memory) = f e

module _ {Dev Mem : Type 0} (platform : Platform Dev) (scaling : FrequencyScaling)
    (manager : MemoryManager Mem) (validate : KernelInvocation → Result KernelError ⊤) where
  -- The trait's `write_tensor` and `write_weight_tensor`.
  unfoldable pub api_write_tensor :
      String → HostTensor → ExecutorAction ProviderExecutionError Dev ⊤
  api_write_tensor id tensor =
      map_err (λ _. materialization_error) (write_tensor platform id tensor)

  unfoldable pub api_write_weight_tensor :
      String → HostTensor → ExecutorAction ProviderExecutionError Dev ⊤
  api_write_weight_tensor id tensor =
      map_err (λ _. materialization_error) (write_weight_tensor platform id tensor)

  unfoldable pub api_write_zeroed_tensor :
      String → List ℕ → ExecutorAction ProviderExecutionError Dev Bool
  api_write_zeroed_tensor id shape e =
      let (r, e') = write_zeroed_tensor platform id shape e in
      (elim r [ ok _ ↦ ok true | err error ↦ err error ], e')

  unfoldable pub cuda_execution_api : ProviderExecutionApi (Executor Dev × Mem)
  cuda_execution_api = record {
    submit_request = λ request. on_executor (submit request);
    status_of = λ handle. on_executor (status handle);
    cancel_request = λ handle. on_executor (cancel handle);
    complete_request = λ handle. on_executor (complete handle);
    release_request = λ handle. on_executor (release handle);
    submit_kernel = λ invocation.
        succeeding (submit_kernel_invocation platform scaling manager validate invocation);
    complete_kernel = λ handle. on_executor (complete_kernel_invocation handle);
    write = λ id tensor. on_executor (api_write_tensor id tensor);
    write_weight = λ id tensor. on_executor (api_write_weight_tensor id tensor);
    read = λ id. keeping_memory (read_tensor platform id);
    read_rows = λ id first_row rows. keeping_memory (read_tensor_rows platform id first_row rows);
    free = λ id. succeeding (keeping_memory (release_tensor id));
    free_admitted = λ id. succeeding (release_admitted_tensor platform manager id);
    write_admitted = write_tensor_admitted platform manager;
    read_value = λ id. reading (read_tensor_value id);
    shape_of = λ id. reading (resident_shape id);
    write_value = λ id value. on_executor (write_tensor_value platform id value);
    write_zeroed = λ id shape. on_executor (api_write_zeroed_tensor id shape);
    write_value_admitted = write_tensor_value_admitted platform manager;
    copy_admitted = copy_tensor_admitted platform manager;
    observed = reading observations;
    supports_step_capture = true;
    begin_step = λ advancing. on_executor (begin_step_capture platform advancing);
    end_step = on_executor (end_step_capture platform);
    abort_step = changing (abort_step_capture platform);
    replay = λ id offset inputs. on_executor (replay_step platform id offset inputs);
    release_step = λ id. changing (release_step_capture id);
    select_greedy = λ logits row excluded temperature.
        keeping_memory (select_greedy_column platform logits row excluded temperature);
  }
