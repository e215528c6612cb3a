-- ===== src/Executor/Admission.antt =====
-- Writes and copies that the Runtime's memory manager admits (`src/executor.rs`): the state is the
-- executor and the memory manager that the caller passes.
pub mod Laws
pub mod Outcomes
pub mod Consistency
use magnetar_provider_cuda.Base.{
  ℕ, ◌+◌, ◌*◌, ◌≡◌, String, Bool, true, false, if◌then◌else◌, Option, none, some, is_some, List, [],
  ◌∷◌, Result, ok, err, ⊤, Action, pure, fail, ◌>>=◌, ◌>>◌, map_err, ok_or, lookup, insert, remove,
  contains_key, length,
}
use magnetar_provider_cuda.Base.Eq.{Eq, string_eq}
use magnetar_provider_cuda.Base.Bits.{u64}
use magnetar_provider_cuda.Error.{CudaError}
use magnetar_provider_cuda.Platform.{Platform, HostTensor}
use magnetar_provider_cuda.Kernels.State.{Kernels, KernelsAction, CudaDeviceBuffer, buffer_len}
use magnetar_provider_cuda.Kernels.Transfer.{upload, clone_buffer}
use magnetar_provider_cuda.Executor.State.{
  Executor, ExecutorAction, on_kernels, store, TensorValue, MemoryManager, MemoryError,
  AllocationRequest, TensorValueAdmissionError,
}
use magnetar_provider_cuda.Executor.Tensors.{materialization_error}

-- A call that changes the executor and the memory manager.
abbrev pub Admitting : Type 0 → Type 0 → Type 0 → Type 0 → Type 0
Admitting E Dev Mem A = Action E (Executor Dev × Mem) A

module _ {Dev Mem : Type 0} where
  abbrev pub on_memory : {E A : Type 0} → (Mem → Result E A × Mem) → Admitting E Dev Mem A
  on_memory m (e, memory) = let (r, memory') = m memory in (r, (e, memory'))

  abbrev pub on_executor : {E A : Type 0} → ExecutorAction E Dev A → Admitting E Dev Mem A
  on_executor m (e, memory) = let (r, e') = m e in (r, (e', memory))

module _ {Mem : Type 0} (manager : MemoryManager Mem) where
  -- `if let Some(previous) = previous { let _ = memory.release(previous); }`
  abbrev pub release_previous : Option ℕ → Mem → Mem
  release_previous none memory = memory
  release_previous (some previous) memory = manager.release previous memory

module _ {Dev Mem : Type 0} (platform : Platform Dev) (manager : MemoryManager Mem) where
  -- `id` gets the allocation, its previous one is released, and the buffer is stored.
  unfoldable pub replace : String → ℕ → CudaDeviceBuffer → Executor Dev × Mem → Executor Dev × Mem
  replace id allocation buffer (e, memory) = (
    record e {
      resource_allocations = insert id allocation e.resource_allocations;
      storage = insert id buffer e.storage;
    },
    release_previous manager (lookup id e.resource_allocations) memory,
  )

  unfoldable pub release_admitted_tensor : String → Executor Dev × Mem → Bool × (Executor Dev × Mem)
  release_admitted_tensor id (e, memory) = (
    contains_key id e.storage,
    (
      record e {
        resource_allocations = remove id e.resource_allocations;
        storage = remove id e.storage;
      },
      release_previous manager (lookup id e.resource_allocations) memory,
    ),
  )

  -- The element count times four, as a `u64`.
  abbrev pub admission_request : ℕ → ℕ → ℕ → AllocationRequest
  admission_request class owner len = record {
    class = class;
    byte_size = u64 (len * 4);
    owner = owner;
  }

  unfoldable pub write_tensor_admitted :
      String → HostTensor → ℕ → ℕ → Admitting MemoryError Dev Mem ⊤
  write_tensor_admitted id tensor class owner =
      on_memory (manager.allocate (admission_request class owner (length tensor.values)))
      >>= λ allocation (e, memory).
          let (uploaded, e') = on_kernels (upload platform tensor) e in
          elim uploaded [
            | ok buffer ↦ (ok tt, replace id allocation buffer (e', memory))
            | err _ ↦ (err MemoryError.allocation_denied, (e', manager.release allocation memory))
          ]

  unfoldable pub write_tensor_value_admitted :
      String → TensorValue → ℕ → ℕ → Admitting TensorValueAdmissionError Dev Mem ⊤
  write_tensor_value_admitted id (TensorValue.host tensor) class owner s =
      map_err TensorValueAdmissionError.memory_error (write_tensor_admitted id tensor class owner) s
  write_tensor_value_admitted id TensorValue.opaque_value class owner (e, memory) =
      if contains_key id e.storage
      then (ok tt, (e, memory))
      else (err (TensorValueAdmissionError.provider_error materialization_error), (e, memory))

  -- The copy of a buffer that is found, or is not, admitted and stored under `id`.
  unfoldable pub copy_admitted :
      Option CudaDeviceBuffer → String → ℕ → ℕ → Admitting TensorValueAdmissionError Dev Mem ℕ
  copy_admitted found id class owner = do
    buffer ← ok_or found (TensorValueAdmissionError.provider_error materialization_error)
    cloned ← on_executor (
        map_err (λ _. TensorValueAdmissionError.provider_error materialization_error)
          (on_kernels (clone_buffer platform buffer)))
    allocation ←
        map_err TensorValueAdmissionError.memory_error
          (on_memory (manager.allocate (admission_request class owner (buffer_len cloned))))
    (λ s. (ok allocation, replace id allocation cloned s))

  unfoldable pub copy_tensor_admitted :
      String → String → ℕ → ℕ → Admitting TensorValueAdmissionError Dev Mem ℕ
  copy_tensor_admitted from to class owner (e, memory) =
      copy_admitted (lookup from e.storage) to class owner (e, memory)

  -- `peer` is another executor: its storage is read, nothing of it changes.
  unfoldable pub copy_tensor_from_peer_admitted :
      {PeerDev : Type 0}
      → Executor PeerDev
      → String
      → String
      → ℕ
      → ℕ
      → Admitting TensorValueAdmissionError Dev Mem ℕ
  copy_tensor_from_peer_admitted peer peer_id id class owner =
      copy_admitted (lookup peer_id peer.storage) id class owner
