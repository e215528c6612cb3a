-- ===== src/Executor/State.antt =====
-- The state of `CudaExecutor` (`src/executor.rs`), and the Runtime's values that it handles.
-- Methods run one at a time: each takes its mutexes and releases them before it returns.
mod Runtime
pub mod Ledger
pub use Runtime.*
use magnetar_provider_cuda.Base.{
  ℕ, String, Bool, true, false, ◌&&◌, ◌≡◌, ◌↔◌, refl, arith, Option, none, some, List, [], Result,
  ok, err, ⊤, Action, Map, map_err, insert, ◌==◌,
}
use magnetar_provider_cuda.Base.Eq.{Eq, string_eq, nat_eq}
use magnetar_provider_cuda.Error.{CudaError, KernelError, to_kernel_error}
use magnetar_provider_cuda.Kernels.State.{Kernels, KernelsAction, CudaDeviceBuffer, CapturedStep}

-- `CaptureRecording`: the address and length of each buffer that the captured work touches, and
-- the id inputs of captured embedding lookups with their vocabulary sizes.
pub record CaptureRecording : Type 0 where
  pub resources : Map String (ℕ × ℕ)
  pub embedding_ids : Map String ℕ

pub record CapturedExecutorStep : Type 0 where
  pub step : CapturedStep
  pub recording : CaptureRecording

-- A `StepCaptureId` is the provider's name, "step-capture" and a number: here the number.
pub record StepCaptureState : Type 0 where
  pub recording : Option CaptureRecording
  pub captures : Map ℕ CapturedExecutorStep
  pub next_capture : ℕ

pub record Executor (Dev : Type 0) : Type 0 where
  pub kernels : Kernels Dev
  pub device_id : String
  pub provider_name : String
  pub storage : Map String CudaDeviceBuffer
  pub observations : List KernelObservation
  pub submitted : Map ExecutionId ProviderExecutionRequest
  pub kernel_executions : Map ExecutionId KernelResult
  pub resource_allocations : Map String ℕ
  pub next_execution_ordinal : ℕ
  pub step_capture : StepCaptureState

abbrev pub ExecutorAction : Type 0 → Type 0 → Type 0 → Type 0
ExecutorAction E Dev A = Action E (Executor Dev) A

module _ {Dev : Type 0} where
  -- `CudaExecutor::new`
  unfoldable pub new_executor : Kernels Dev → String → String → Executor Dev
  new_executor kernels device_id provider_name = record {
    kernels = kernels;
    device_id = device_id;
    provider_name = provider_name;
    storage = [];
    observations = [];
    submitted = [];
    kernel_executions = [];
    resource_allocations = [];
    next_execution_ordinal = 0;
    step_capture = record { recording = none; captures = []; next_capture = 0 };
  }

  -- A call of `self.kernels`.
  abbrev pub on_kernels : {A : Type 0} → KernelsAction Dev A → ExecutorAction CudaError Dev A
  on_kernels m e = let (r, kernels) = m e.kernels in (r, record e { kernels = kernels })

  -- `.map_err(KernelError::from)`
  abbrev pub kernel_call : {A : Type 0} → KernelsAction Dev A → ExecutorAction KernelError Dev A
  kernel_call m = map_err to_kernel_error (on_kernels m)

  abbrev pub store : String → CudaDeviceBuffer → Executor Dev → Executor Dev
  store id buffer e = record e { storage = insert id buffer e.storage }
