-- ===== src/Executor/State/Runtime.antt =====
-- Values of `magnetar-runtime` that `src/executor.rs` reads and makes: invocations, results,
-- observations, execution handles and the memory manager. The executor only stores and compares
-- what is a number here without a meaning of its own (a class, an owner, a plan).
use magnetar_provider_cuda.Base.{
  ℕ, String, Bool, true, false, ◌&&◌, ◌≡◌, ◌↔◌, arith, Option, none, some, List, [], Result, Map,
  ◌==◌, ==_iff,
}
use magnetar_provider_cuda.Base.Eq.{Eq, string_eq}
use magnetar_provider_cuda.Error.{KernelError}
use magnetar_provider_cuda.Platform.{HostTensor}

-- `ComputeDType`; `other_dtype` stands for those that no code here names.
pub data DType : Type 0 where
  float32 float16 brain_float16 other_dtype : DType

-- `TensorResourceDescriptor`: the id, the dtype, and `descriptor.byte_size()` if it is valid.
pub record Resource : Type 0 where
  pub id : String
  pub dtype : DType
  pub byte_size : Option ℕ

-- An `i64`: `negsuc n` is -(n + 1).
pub data ℤ : Type 0 where
  pos : ℕ → ℤ
  negsuc : ℕ → ℤ

-- `OperatorAttributeValue`; a float is the pattern that `as f32` gives.
pub data AttributeValue : Type 0 where
  float : ℕ → AttributeValue
  integer : ℤ → AttributeValue
  boolean : Bool → AttributeValue
  text : String → AttributeValue
  dtype : DType → AttributeValue

abbrev pub Attributes : Type 0
Attributes = Map String AttributeValue

pub record KernelInvocation : Type 0 where
  pub id : String
  pub kernel_name : String
  pub inputs : List Resource
  pub outputs : List Resource
  pub attributes : Attributes
  pub deadline_millis : Option ℕ

-- `KernelResult`: `error` is `none` for the status `Succeeded`.
pub record KernelResult : Type 0 where
  pub invocation : String
  pub error : Option KernelError
  pub output_readiness : Map String Bool
  pub updated_resources : List Resource

-- `KernelResult::success` and `KernelResult::failure`
abbrev pub success : String → KernelResult
success id = record { invocation = id; error = none; output_readiness = []; updated_resources = [] }

abbrev pub failure : String → KernelError → KernelResult
failure id e = record {
  invocation = id;
  error = some e;
  output_readiness = [];
  updated_resources = [];
}

pub data ObservationKind : Type 0 where
  dispatch_started dispatch_completed timed_out memory_infeasible : ObservationKind
  dispatch_failed : KernelError → ObservationKind

pub record KernelObservation : Type 0 where
  pub kind : ObservationKind
  pub kernel_name : String
  pub invocation : String

-- `ProviderExecutionId`, a text: one that the Runtime's `ProviderExecutionHandle::new` made, or
-- the provider's name, a label and a number with `:` between them, which are kept as the parts.
pub data ExecutionId : Type 0 where
  made : String → ExecutionId
  numbered : String → String → ℕ → ExecutionId

abbrev pub execution_beq : ExecutionId → ExecutionId → Bool
execution_beq (made a) (made b) = string_eq.beq a b
execution_beq (numbered p a m) (numbered q b n) = string_eq.beq p q && string_eq.beq a b && m == n
execution_beq _ _ = false

pub execution_beq_iff : (a b : ExecutionId) → (execution_beq a b ≡ true) ↔ (a ≡ b)
execution_beq_iff (made a) (made b) = ground (arith, string_eq.beq_iff a b)
execution_beq_iff (made a) (numbered q b n) = ground arith
execution_beq_iff (numbered p a m) (made b) = ground arith
execution_beq_iff (numbered p a m) (numbered q b n) =
    ground (arith, string_eq.beq_iff p q, string_eq.beq_iff a b, ==_iff m n)

instance abbrev pub execution_eq : Eq ExecutionId
execution_eq = record { beq = execution_beq; beq_iff = execution_beq_iff }

-- `ProviderExecutionRequest`; `handle_id` is the id that `ProviderExecutionHandle::new` gives it.
pub record ProviderExecutionRequest : Type 0 where
  pub handle_id : String
  pub operation : ℕ
  pub plan : String
  pub provider : String
  pub device : Option String

pub record ProviderExecutionHandle : Type 0 where
  pub id : ExecutionId
  pub operation : ℕ
  pub plan : String
  pub provider : String
  pub device : Option String

pub data ErrorCode : Type 0 where
  execution_failed materialization_failed : ErrorCode

pub data Phase : Type 0 where
  submit_phase observe_phase complete_phase : Phase

pub record ProviderExecutionError : Type 0 where
  pub code : ErrorCode
  pub phase : Phase

pub data TensorValue : Type 0 where
  host : HostTensor → TensorValue
  opaque_value : TensorValue

pub data MemoryError : Type 0 where
  allocation_denied : MemoryError
  other : ℕ → MemoryError

pub data TensorValueAdmissionError : Type 0 where
  provider_error : ProviderExecutionError → TensorValueAdmissionError
  memory_error : MemoryError → TensorValueAdmissionError

pub data StepReplayError : Type 0 where
  invalidated : StepReplayError
  failed : ProviderExecutionError → StepReplayError

-- `MemoryAllocationRequest`; the placement is always the executor's Device.
pub record AllocationRequest : Type 0 where
  pub class : ℕ
  pub byte_size : ℕ
  pub owner : ℕ

-- The Runtime's memory manager: the calls that the executor makes of it. `residency` is
-- `tensor_residency` with the residency's allocation.
pub record MemoryManager (Mem : Type 0) : Type 0 where
  pub allocate : AllocationRequest → Mem → Result MemoryError ℕ × Mem
  pub release : ℕ → Mem → Mem
  pub residency : String → Mem → Option (Option ℕ)
  pub record_residency : String → ℕ → Mem → Mem
