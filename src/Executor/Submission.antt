-- ===== src/Executor/Submission.antt =====
-- Submissions and their handles in `CudaExecutor` (`src/executor.rs`).
pub mod Laws
use magnetar_provider_cuda.Base.{
  ℕ, ◌+◌, ◌≡◌, String, Bool, true, false, if◌then◌else◌, not, Option, none, some, is_some, List, [],
  ◌∷◌, Result, ok, err, ⊤, Action, pure, fail, ◌>>=◌, ◌>>◌, fail_if, gets, modify, map_err, ok_or,
  lookup, insert, remove, contains_key,
}
use magnetar_provider_cuda.Base.Eq.{Eq}
use magnetar_provider_cuda.Base.Bits.{u64}
use magnetar_provider_cuda.Executor.State.{
  Executor, ExecutorAction, ExecutionId, made, numbered, execution_eq, ProviderExecutionRequest,
  ProviderExecutionHandle, ProviderExecutionError, execution_failed, observe_phase, complete_phase,
  KernelInvocation, KernelResult, MemoryManager,
}
use magnetar_provider_cuda.Error.{KernelError}
use magnetar_provider_cuda.Platform.{Platform}
use magnetar_provider_cuda.Executor.Dispatch.{FrequencyScaling}
use magnetar_provider_cuda.Executor.Admitted.{execute_invocation_with_memory_manager}

-- `SchedulingState::Completed`, and `ProviderCancellationOutcome::Unsupported`.
pub data SchedulingState : Type 0 where
  completed : SchedulingState

pub data CancellationOutcome : Type 0 where
  unsupported : CancellationOutcome

module _ {Dev : Type 0} where
  unfoldable pub submit :
      ProviderExecutionRequest → ExecutorAction ProviderExecutionError Dev ProviderExecutionHandle
  submit request e = (
    ok (record {
      id = made request.handle_id;
      operation = request.operation;
      plan = request.plan;
      provider = request.provider;
      device = request.device;
    }),
    record e { submitted = insert (made request.handle_id) request e.submitted },
  )

  unfoldable pub status :
      ProviderExecutionHandle → ExecutorAction ProviderExecutionError Dev SchedulingState
  status handle e =
      if not (contains_key handle.id e.submitted)
      then (err (record { code = execution_failed; phase = observe_phase }), e)
      else (ok SchedulingState.completed, e)

  unfoldable pub cancel :
      ProviderExecutionHandle → ExecutorAction ProviderExecutionError Dev CancellationOutcome
  cancel _ = pure CancellationOutcome.unsupported

  unfoldable pub complete : ProviderExecutionHandle → ExecutorAction ProviderExecutionError Dev ⊤
  complete handle e =
      let e' : Executor Dev = record e { submitted = remove handle.id e.submitted } in
      elim (lookup handle.id e.submitted) [
        | some _ ↦ (ok tt, e')
        | none ↦ (err (record { code = execution_failed; phase = complete_phase }), e')
      ]

  unfoldable pub release : ProviderExecutionHandle → ExecutorAction ProviderExecutionError Dev ⊤
  release handle e = (ok tt, record e { submitted = remove handle.id e.submitted })

  -- The ordinal is an `AtomicU64`, whose `fetch_add` wraps.
  unfoldable pub next_provider_execution_id : String → Executor Dev → ExecutionId × Executor Dev
  next_provider_execution_id label e = (
    numbered e.provider_name label e.next_execution_ordinal,
    record e { next_execution_ordinal = u64 (e.next_execution_ordinal + 1) },
  )

  unfoldable pub complete_kernel_invocation :
      ProviderExecutionHandle → ExecutorAction ProviderExecutionError Dev KernelResult
  complete_kernel_invocation handle e =
      let e' : Executor Dev = record e {
        kernel_executions = remove handle.id e.kernel_executions;
      } in
      elim (lookup handle.id e.kernel_executions) [
        | some result ↦ (ok result, e')
        | none ↦ (err (record { code = execution_failed; phase = complete_phase }), e')
      ]

module _ {Dev Mem : Type 0} (platform : Platform Dev) (scaling : FrequencyScaling)
    (manager : MemoryManager Mem) (validate : KernelInvocation → Result KernelError ⊤) where
  unfoldable pub submit_kernel_invocation :
      KernelInvocation → Executor Dev × Mem → ProviderExecutionHandle × (Executor Dev × Mem)
  unfolding next_provider_execution_id
  submit_kernel_invocation invocation (e, memory) =
      let (id, e') = next_provider_execution_id invocation.id e in
      let handle : ProviderExecutionHandle = record {
        id = id;
        operation = e'.next_execution_ordinal;
        plan = invocation.id;
        provider = e'.provider_name;
        device = some e'.device_id;
      } in
      let (result, (e'', memory')) =
        execute_invocation_with_memory_manager platform scaling manager validate invocation
          (e', memory) in
      (handle, (record e'' { kernel_executions = insert id result e''.kernel_executions }, memory'))
