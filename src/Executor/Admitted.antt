-- ===== src/Executor/Admitted.antt =====
-- `execute_invocation_with_memory_manager` of `CudaExecutor` (`src/executor.rs`): outputs are admitted,
-- the invocation runs, and what it produced is recorded.
pub mod Laws
pub mod Frame
use magnetar_provider_cuda.Base.{
  ℕ, ◌≡◌, String, Bool, true, false, ◌&&◌, ◌==◌, not, any, if◌then◌else◌, Option, none, some,
  is_some, List, [], ◌∷◌, ◌++◌, Map, Result, ok, err, ⊤, lookup, insert, remove,
}
use magnetar_provider_cuda.Base.Eq.{Eq, string_eq}
use magnetar_provider_cuda.Error.{KernelError, kernel_execution_failed}
use magnetar_provider_cuda.Platform.{Platform}
use magnetar_provider_cuda.Kernels.State.{mem_string}
use magnetar_provider_cuda.Executor.State.{
  Executor, KernelInvocation, KernelResult, Resource, failure, memory_infeasible, MemoryManager,
  AllocationRequest,
}
use magnetar_provider_cuda.Executor.Observations.{observe}
use magnetar_provider_cuda.Executor.Admission.{release_previous}
use magnetar_provider_cuda.Executor.Dispatch.{FrequencyScaling}
use magnetar_provider_cuda.Executor.Invocation.{execute_invocation, observation}

-- `MemoryAllocationClass::Tensor` and the Provider as the owner
abbrev pub tensor_class : ℕ
tensor_class = 0

abbrev pub provider_owner : ℕ
provider_owner = 0

abbrev pub same_allocation : Option ℕ → Option ℕ → Bool
same_allocation none none = true
same_allocation (some a) (some b) = a == b
same_allocation _ _ = false

-- The allocation that a residency record names, if there is a record and it names one.
abbrev pub residency_allocation : Option (Option ℕ) → Option ℕ
residency_allocation none = none
residency_allocation (some allocation) = allocation

-- What the loop over the outputs has admitted so far, and which it found admitted by the caller.
pub record Admissions : Type 0 where
  pub admitted : Map String ℕ
  pub preadmitted : List String

module _ {Mem : Type 0} (manager : MemoryManager Mem) where
  abbrev pub release_all : Map String ℕ → Mem → Mem
  release_all [] memory = memory
  release_all ((_, allocation) ∷ admitted) memory =
      release_all admitted (manager.release allocation memory)

module _ {Dev Mem : Type 0} (manager : MemoryManager Mem) where
  -- Whether the caller admitted the output: the record names another allocation than the one that
  -- the executor tracks.
  unfoldable pub is_preadmitted : Resource → Executor Dev × Mem → Bool
  is_preadmitted resource (e, memory) =
      let residency = manager.residency resource.id memory in
      is_some residency
      && not (
          same_allocation (residency_allocation residency)
            (lookup resource.id e.resource_allocations))

  unfoldable pub admit_output :
      KernelInvocation
      → Resource
      → Admissions
      → Executor Dev × Mem
      → Result KernelError Admissions × (Executor Dev × Mem)
  unfolding is_preadmitted
  admit_output invocation resource done (e, memory) =
      if is_preadmitted resource (e, memory)
      then (
        ok (record done { preadmitted = resource.id ∷ done.preadmitted }),
        (
          record e { resource_allocations = remove resource.id e.resource_allocations },
          release_previous manager (lookup resource.id e.resource_allocations) memory,
        ),
      )
      else elim resource.byte_size [
        | none ↦ (err kernel_execution_failed, (e, release_all manager done.admitted memory))
        | some byte_size ↦
            let request : AllocationRequest = record {
              class = tensor_class;
              byte_size = byte_size;
              owner = provider_owner;
            } in
            let (allocated, memory') = manager.allocate request memory in
            elim allocated [
              | ok allocation ↦ (
                ok (record done { admitted = done.admitted ++ (resource.id, allocation) ∷ [] }),
                (e, memory'),
              )
              | err _ ↦ (
                err kernel_execution_failed,
                (
                  observe (observation memory_infeasible invocation) e,
                  release_all manager done.admitted memory',
                ),
              )
            ]
      ]

  unfoldable pub admit_outputs :
      KernelInvocation
      → List Resource
      → Admissions
      → Executor Dev × Mem
      → Result KernelError Admissions × (Executor Dev × Mem)
  unfolding admit_output
  admit_outputs invocation [] done s = (ok done, s)
  admit_outputs invocation (resource ∷ resources) done s =
      let (outcome, s') = admit_output invocation resource done s in
      elim outcome [
        | ok done' ↦ admit_outputs invocation resources done' s'
        | err error ↦ (err error, s')
      ]

  -- A produced output: its residency is recorded and its previous allocation released.
  unfoldable pub record_output : Admissions → Resource → Executor Dev × Mem → Executor Dev × Mem
  record_output done resource (e, memory) =
      if mem_string resource.id done.preadmitted
      then (e, memory)
      else elim (lookup resource.id done.admitted) [
        | none ↦ (e, memory)
        | some allocation ↦ (
          record e { resource_allocations = insert resource.id allocation e.resource_allocations },
          release_previous manager (lookup resource.id e.resource_allocations)
              (manager.record_residency resource.id allocation memory),
        )
      ]

  unfoldable pub record_outputs :
      Admissions → List Resource → Executor Dev × Mem → Executor Dev × Mem
  unfolding record_output
  record_outputs done [] s = s
  record_outputs done (resource ∷ resources) s =
      record_outputs done resources (record_output done resource s)

module _ {Dev Mem : Type 0} (platform : Platform Dev) (scaling : FrequencyScaling)
    (manager : MemoryManager Mem) where
  unfoldable pub execute_invocation_with_memory_manager :
      (KernelInvocation → Result KernelError ⊤)
      → KernelInvocation
      → Executor Dev × Mem
      → KernelResult × (Executor Dev × Mem)
  unfolding admit_outputs record_outputs
  execute_invocation_with_memory_manager validate invocation s =
      let start : Admissions = record { admitted = []; preadmitted = [] } in
      let (outcome, (e, memory)) = admit_outputs manager invocation invocation.outputs start s in
      elim outcome [
        | err error ↦ (failure invocation.id error, (e, memory))
        | ok done ↦
            let (result, e') = execute_invocation platform scaling validate invocation e in
            elim result.error [
              | some _ ↦ (result, (e', release_all manager done.admitted memory))
              | none ↦ (result, record_outputs manager done result.updated_resources (e', memory))
            ]
      ]
