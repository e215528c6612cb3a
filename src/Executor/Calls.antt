-- ===== src/Executor/Calls.antt =====
-- Calls of a `CudaExecutor` (`src/executor.rs`), one after another, on the executor and the memory
-- manager that the caller passes.
pub mod Captures
pub mod Tensors
pub mod Admitted
pub mod Laws
use magnetar_provider_cuda.Base.{ℕ, String, List, [], ◌∷◌, Result, ⊤, lookup}
use magnetar_provider_cuda.Base.Eq.{string_eq}
use magnetar_provider_cuda.Error.{KernelError}
use magnetar_provider_cuda.Platform.{Platform, HostTensor}
use magnetar_provider_cuda.Executor.State.{
  Executor, KernelInvocation, ProviderExecutionRequest, ProviderExecutionHandle, TensorValue,
  MemoryManager,
}
use magnetar_provider_cuda.Executor.Tensors.{
  write_tensor, write_weight_tensor, write_tensor_value, write_zeroed_tensor, read_tensor,
  read_tensor_rows, release_tensor, select_greedy_column,
}
use magnetar_provider_cuda.Executor.Admission.{
  write_tensor_admitted, write_tensor_value_admitted, copy_tensor_admitted,
  copy_tensor_from_peer_admitted, release_admitted_tensor,
}
use magnetar_provider_cuda.Executor.Submission.{
  submit, complete, release, submit_kernel_invocation, complete_kernel_invocation,
}
use magnetar_provider_cuda.Executor.StepCapture.{
  begin_step_capture, end_step_capture, abort_step_capture, replay_step, release_step_capture,
}
use magnetar_provider_cuda.Executor.Dispatch.{FrequencyScaling}
use magnetar_provider_cuda.Executor.Invocation.{execute_invocation}
use magnetar_provider_cuda.Executor.Admitted.{execute_invocation_with_memory_manager}

pub data Call (Dev : Type 0) : Type 0 where
  write : String → HostTensor → Call Dev
  write_weight : String → HostTensor → Call Dev
  write_value : String → TensorValue → Call Dev
  write_zeroed : String → List ℕ → Call Dev
  read : String → Call Dev
  read_rows : String → ℕ → ℕ → Call Dev
  free : String → Call Dev
  select_greedy : String → ℕ → List (ℕ × ℕ) → ℕ → Call Dev
  write_admitted : String → HostTensor → ℕ → ℕ → Call Dev
  write_value_admitted : String → TensorValue → ℕ → ℕ → Call Dev
  copy_admitted : String → String → ℕ → ℕ → Call Dev
  copy_from_peer : Executor Dev → String → String → ℕ → ℕ → Call Dev
  free_admitted : String → Call Dev
  execute : KernelInvocation → Call Dev
  execute_admitted : KernelInvocation → Call Dev
  submit_kernel : KernelInvocation → Call Dev
  complete_kernel : ProviderExecutionHandle → Call Dev
  submit_plan : ProviderExecutionRequest → Call Dev
  complete_plan : ProviderExecutionHandle → Call Dev
  release_plan : ProviderExecutionHandle → Call Dev
  begin_step : List String → Call Dev
  end_step : Call Dev
  abort_step : Call Dev
  replay : ℕ → ℕ → List (String × HostTensor) → Call Dev
  release_step : ℕ → Call Dev

module _ {Dev Mem : Type 0} (platform : Platform Dev) (scaling : FrequencyScaling)
    (manager : MemoryManager Mem) (validate : KernelInvocation → Result KernelError ⊤) where
  -- What is left of the state after a call, whatever it returns.
  unfoldable pub perform : Call Dev → Executor Dev × Mem → Executor Dev × Mem
  perform (write id tensor) (e, memory) = ((write_tensor platform id tensor e).1, memory)
  perform (write_weight id tensor) (e, memory) =
      ((write_weight_tensor platform id tensor e).1, memory)
  perform (write_value id value) (e, memory) = ((write_tensor_value platform id value e).1, memory)
  perform (write_zeroed id shape) (e, memory) =
      ((write_zeroed_tensor platform id shape e).1, memory)
  perform (read id) (e, memory) = ((read_tensor platform id e).1, memory)
  perform (read_rows id first_row rows) (e, memory) =
      ((read_tensor_rows platform id first_row rows e).1, memory)
  perform (free id) (e, memory) = ((release_tensor id e).1, memory)
  perform (select_greedy logits row excluded temperature) (e, memory) =
      ((select_greedy_column platform logits row excluded temperature e).1, memory)
  perform (write_admitted id tensor class owner) s =
      (write_tensor_admitted platform manager id tensor class owner s).1
  perform (write_value_admitted id value class owner) s =
      (write_tensor_value_admitted platform manager id value class owner s).1
  perform (copy_admitted from to class owner) s =
      (copy_tensor_admitted platform manager from to class owner s).1
  perform (copy_from_peer peer peer_id id class owner) s =
      (copy_tensor_from_peer_admitted platform manager peer peer_id id class owner s).1
  perform (free_admitted id) s = (release_admitted_tensor platform manager id s).1
  perform (execute invocation) (e, memory) =
      ((execute_invocation platform scaling validate invocation e).1, memory)
  perform (execute_admitted invocation) s =
      (execute_invocation_with_memory_manager platform scaling manager validate invocation s).1
  perform (submit_kernel invocation) s =
      (submit_kernel_invocation platform scaling manager validate invocation s).1
  perform (complete_kernel handle) (e, memory) = ((complete_kernel_invocation handle e).1, memory)
  perform (submit_plan request) (e, memory) = ((submit request e).1, memory)
  perform (complete_plan handle) (e, memory) = ((complete handle e).1, memory)
  perform (release_plan handle) (e, memory) = ((release handle e).1, memory)
  perform (begin_step advancing) (e, memory) = ((begin_step_capture platform advancing e).1, memory)
  perform end_step (e, memory) = ((end_step_capture platform e).1, memory)
  perform abort_step (e, memory) = (abort_step_capture platform e, memory)
  perform (replay id offset inputs) (e, memory) =
      ((replay_step platform id offset inputs e).1, memory)
  perform (release_step id) (e, memory) = (release_step_capture id e, memory)

  unfoldable pub perform_all : List (Call Dev) → Executor Dev × Mem → Executor Dev × Mem
  unfolding perform
  perform_all [] s = s
  perform_all (call ∷ calls) s = perform_all calls (perform call s)
