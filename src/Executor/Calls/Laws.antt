-- ===== src/Executor/Calls/Laws.antt =====
-- An executor that calls have been made to (`src/executor.rs`) holds fitting buffers only.
use magnetar_provider_cuda.Base.{
  ℕ, String, none, List, [], ◌∷◌, Result, ⊤, lookup, Option-cases, inl, inr, contains_key,
  Bool-cases, map_err, Result-cases,
}
use magnetar_provider_cuda.Base.Eq.{string_eq}
use magnetar_provider_cuda.Error.{KernelError}
use magnetar_provider_cuda.Platform.{Platform}
use magnetar_provider_cuda.Platform.Allocation.{Allocation, Capacity}
use magnetar_provider_cuda.Kernels.Fits.Transfer.{IsValid}
use magnetar_provider_cuda.Executor.State.{
  Executor, execution_eq, KernelInvocation, TensorValue, MemoryManager,
}
use magnetar_provider_cuda.Executor.Admission.{
  write_tensor_admitted, write_tensor_value_admitted, copy_tensor_admitted,
  copy_tensor_from_peer_admitted,
}
use magnetar_provider_cuda.Executor.Submission.{
  next_provider_execution_id, submit, complete, release, submit_kernel_invocation,
  complete_kernel_invocation,
}
use magnetar_provider_cuda.Executor.Dispatch.{FrequencyScaling}
use magnetar_provider_cuda.Executor.Dispatch.Fits.{AllFit, IsReady}
use magnetar_provider_cuda.Executor.Invocation.Stored.{execute_invocation-IsReady}
use magnetar_provider_cuda.Executor.Calls.{
  Call, perform, perform_all, write, write_weight, write_value, write_zeroed, read, read_rows, free,
  select_greedy, write_admitted, write_value_admitted, copy_admitted, copy_from_peer, free_admitted,
  execute, execute_admitted, submit_kernel, complete_kernel, submit_plan, complete_plan,
  release_plan, begin_step, end_step, abort_step, replay, release_step,
}
use magnetar_provider_cuda.Executor.Calls.Captures.{
  begin_step_capture-Gives, end_step_capture-Gives, abort_step_capture-IsReady, replay_step-Gives,
  release_step_capture-IsReady,
}
use magnetar_provider_cuda.Executor.Calls.Tensors.{
  IsValidValue, write_tensor-IsReady, write_weight_tensor-IsReady, write_tensor_value-IsReady,
  write_zeroed_tensor-IsReady, read_tensor-IsReady, read_tensor_rows-IsReady,
  release_tensor-IsReady, select_greedy_column-IsReady,
}
use magnetar_provider_cuda.Executor.Calls.Admitted.{
  write_tensor_admitted-IsReady, copy_admitted-IsReady, release_admitted_tensor-IsReady,
  execute_invocation_with_memory_manager-IsReady,
}

-- A host tensor that a caller passes was made by `HostTensor::new`, and a peer holds fitting buffers.
abbrev pub IsSound : {Dev : Type 0} → Call Dev → Type 0
IsSound (write id tensor) = IsValid tensor
IsSound (write_weight id tensor) = IsValid tensor
IsSound (write_value id value) = IsValidValue value
IsSound (write_admitted id tensor class owner) = IsValid tensor
IsSound (write_value_admitted id value class owner) = IsValidValue value
IsSound (copy_from_peer peer peer_id id class owner) = AllFit peer.storage
IsSound _ = ⊤

abbrev pub AreSound : {Dev : Type 0} → List (Call Dev) → Type 0
AreSound [] = ⊤
AreSound (call ∷ calls) = IsSound call × AreSound calls

module _ {Dev Mem : Type 0} (platform : Platform Dev) (scaling : FrequencyScaling)
    (allocation : Allocation platform) (capacity : Capacity platform) (manager : MemoryManager Mem)
    (validate : KernelInvocation → Result KernelError ⊤) where
  write_value-IsReady :
      (id : String) (value : TensorValue) (class owner : ℕ)
      → IsValidValue value
      → (e : Executor Dev) (memory : Mem) → IsReady none e
      → IsReady none
          (write_tensor_value_admitted platform manager id value class owner (e, memory)).1.0
  unfolding write_tensor_value_admitted
  write_value-IsReady id (TensorValue.host tensor) class owner valid e memory ready =
      let ready' =
        write_tensor_admitted-IsReady platform allocation capacity manager id tensor class owner
          valid e memory ready in
      elim (Result-cases
        (write_tensor_admitted platform manager id tensor class owner (e, memory)).0) [
          | inl (done, written) ↦ rw (write_tensor_value_admitted, map_err, written) ready'
          | inr (error, failed) ↦ rw (write_tensor_value_admitted, map_err, failed) ready'
        ]
  write_value-IsReady id TensorValue.opaque_value class owner valid e memory ready =
      elim (Bool-cases (contains_key id e.storage)) [
        | inl there ↦ rw (write_tensor_value_admitted, there) ready
        | inr absent ↦ rw (write_tensor_value_admitted, absent) ready
      ]

  perform-IsReady :
      (call : Call Dev)
      → IsSound call
      → (e : Executor Dev) (memory : Mem) → IsReady none e
      → IsReady none (perform platform scaling manager validate call (e, memory)).0
  unfolding perform copy_tensor_admitted copy_tensor_from_peer_admitted submit complete release
      complete_kernel_invocation submit_kernel_invocation next_provider_execution_id
  perform-IsReady (write id tensor) sound e memory ready =
      write_tensor-IsReady platform allocation capacity id tensor sound e ready
  perform-IsReady (write_weight id tensor) sound e memory ready =
      write_weight_tensor-IsReady platform allocation capacity id tensor sound e ready
  perform-IsReady (write_value id value) sound e memory ready =
      write_tensor_value-IsReady platform allocation capacity id value sound e ready
  perform-IsReady (write_zeroed id shape) sound e memory ready =
      write_zeroed_tensor-IsReady platform allocation capacity id shape e ready
  perform-IsReady (read id) sound e memory ready =
      read_tensor-IsReady platform allocation capacity id e ready
  perform-IsReady (read_rows id first_row rows) sound e memory ready =
      read_tensor_rows-IsReady platform allocation capacity id first_row rows e ready
  perform-IsReady (free id) sound e memory ready = release_tensor-IsReady id e ready
  perform-IsReady (select_greedy logits row excluded temperature) sound e memory ready =
      select_greedy_column-IsReady platform allocation capacity logits row excluded temperature e
        ready
  perform-IsReady (write_admitted id tensor class owner) sound e memory ready =
      write_tensor_admitted-IsReady platform allocation capacity manager id tensor class owner sound
        e memory ready
  perform-IsReady (write_value_admitted id value class owner) sound e memory ready =
      write_value-IsReady id value class owner sound e memory ready
  perform-IsReady (copy_admitted from to class owner) sound e memory ready =
      copy_admitted-IsReady platform allocation capacity manager (lookup from e.storage) to class
        owner (λ b found. ready.0 from b found) e memory ready
  perform-IsReady (copy_from_peer peer peer_id id class owner) sound e memory ready =
      copy_admitted-IsReady platform allocation capacity manager (lookup peer_id peer.storage) id
        class owner (λ b found. sound peer_id b found) e memory ready
  perform-IsReady (free_admitted id) sound e memory ready =
      release_admitted_tensor-IsReady platform allocation capacity manager id e memory ready
  perform-IsReady (execute invocation) sound e memory ready =
      execute_invocation-IsReady platform scaling allocation capacity validate invocation e ready
  perform-IsReady (execute_admitted invocation) sound e memory ready =
      execute_invocation_with_memory_manager-IsReady platform scaling allocation capacity manager
        validate invocation e memory ready
  perform-IsReady (submit_kernel invocation) sound e memory ready =
      execute_invocation_with_memory_manager-IsReady platform scaling allocation capacity manager
        validate invocation (next_provider_execution_id invocation.id e).1 memory ready
  perform-IsReady (complete_kernel handle) sound e memory ready =
      elim (Option-cases (lookup handle.id e.kernel_executions)) [
        | inl absent ↦ rw (perform, complete_kernel_invocation, absent) ready
        | inr (result, present) ↦ rw (perform, complete_kernel_invocation, present) ready
      ]
  perform-IsReady (submit_plan request) sound e memory ready = ready
  perform-IsReady (complete_plan handle) sound e memory ready =
      elim (Option-cases (lookup handle.id e.submitted)) [
        | inl absent ↦ rw (perform, complete, absent) ready
        | inr (request, present) ↦ rw (perform, complete, present) ready
      ]
  perform-IsReady (release_plan handle) sound e memory ready = ready
  perform-IsReady (begin_step advancing) sound e memory ready =
      (begin_step_capture-Gives platform advancing).keeps e ready
  perform-IsReady end_step sound e memory ready = (end_step_capture-Gives platform).keeps e ready
  perform-IsReady abort_step sound e memory ready = abort_step_capture-IsReady platform e ready
  perform-IsReady (replay id offset inputs) sound e memory ready =
      (replay_step-Gives platform id offset inputs).keeps e ready
  perform-IsReady (release_step id) sound e memory ready =
      release_step_capture-IsReady platform id e ready

  -- Any calls of an executor, whatever each returns: when every stored buffer holds as many elements as
  -- its shape says and has a size from 1 to 2^32 - 1, and nothing is offered for an output, then the
  -- same holds after the calls. The host tensors that are written must be as long as their shapes say,
  -- the peers that are copied from must hold such buffers, and the device must give buffers of the
  -- length that is asked for, of such a size, and copies as long as what they copy.
  pub perform_all-IsReady :
      (calls : List (Call Dev))
      → AreSound calls
      → (e : Executor Dev) (memory : Mem) → IsReady none e
      → IsReady none (perform_all platform scaling manager validate calls (e, memory)).0
  unfolding perform_all
  perform_all-IsReady [] sound e memory ready = ready
  perform_all-IsReady (call ∷ calls) sound e memory ready =
      let (e', memory') = perform platform scaling manager validate call (e, memory) in
      perform_all-IsReady calls sound.1 e' memory' (perform-IsReady call sound.0 e memory ready)
