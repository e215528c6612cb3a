-- ===== src/Executor/Calls/Admitted.antt =====
-- The calls with the memory manager (`src/executor.rs`) keep every stored buffer fitting.
use magnetar_provider_cuda.Base.{
  ◌≡◌, refl, sym, subst, arith, inl, inr, ℕ, String, Option, none, some, List, length, [], ◌∷◌,
  Result, ⊤, ◌>>=◌, Result-cases, Option-cases,
}
use magnetar_provider_cuda.Base.Eq.{string_eq}
use magnetar_provider_cuda.Error.{KernelError}
use magnetar_provider_cuda.Platform.{Platform, HostTensor}
use magnetar_provider_cuda.Platform.Allocation.{Allocation, Capacity}
use magnetar_provider_cuda.Kernels.State.{CudaDeviceBuffer, buffer_len}
use magnetar_provider_cuda.Kernels.Transfer.{upload, clone_buffer}
use magnetar_provider_cuda.Kernels.Fits.{Fits}
use magnetar_provider_cuda.Kernels.Fits.Transfer.{IsValid, upload-Fits, clone_buffer-Fits}
use magnetar_provider_cuda.Executor.State.{
  Executor, on_kernels, KernelInvocation, Resource, MemoryManager,
}
use magnetar_provider_cuda.Executor.Observations.{observe}
use magnetar_provider_cuda.Executor.Admission.{
  replace, release_admitted_tensor, write_tensor_admitted, copy_admitted, admission_request,
}
use magnetar_provider_cuda.Executor.Admitted.{
  Admissions, admit_output, admit_outputs, record_output, record_outputs,
  execute_invocation_with_memory_manager,
}
use magnetar_provider_cuda.Executor.Dispatch.{FrequencyScaling}
use magnetar_provider_cuda.Executor.Dispatch.Fits.{IsReady, IsReady-same}
use magnetar_provider_cuda.Executor.Invocation.{execute_invocation}
use magnetar_provider_cuda.Executor.Invocation.Fits.{insert-AllFit, remove-AllFit}
use magnetar_provider_cuda.Executor.Invocation.Stored.{execute_invocation-IsReady}
use magnetar_provider_cuda.Executor.Calls.Tensors.{on_kernels-IsReady}

module _ {Dev Mem : Type 0} (manager : MemoryManager Mem) where
  -- The ledger of admissions is kept beside the buffers, which it does not touch.
  admit_output-same :
      (invocation : KernelInvocation) (resource : Resource) (done : Admissions) (e : Executor Dev)
      (memory : Mem)
      → let e' = (admit_output manager invocation resource done (e, memory)).1.0 in
        (e'.storage ≡ e.storage) × (e'.kernels ≡ e.kernels)
  unfolding admit_output observe
  admit_output-same invocation resource done e memory = (ground arith, ground arith)

  admit_outputs-IsReady :
      (invocation : KernelInvocation) (resources : List Resource) (done : Admissions)
      (e : Executor Dev) (memory : Mem)
      → IsReady none e
      → IsReady none (admit_outputs manager invocation resources done (e, memory)).1.0
  unfolding admit_outputs
  admit_outputs-IsReady invocation [] done e memory ready = ready
  admit_outputs-IsReady invocation (resource ∷ resources) done e memory ready =
      let (outcome, (e', memory')) = admit_output manager invocation resource done (e, memory) in
      let (storage, kernels) = admit_output-same invocation resource done e memory in
      let ready' = IsReady-same e e' storage kernels ready in
      elim (Result-cases outcome) [
        | inl (done', admitted) ↦
            rw (admit_outputs, admitted)
              (admit_outputs-IsReady invocation resources done' e' memory' ready')
        | inr (error, refused) ↦ rw (admit_outputs, refused) ready'
      ]

  record_output-same :
      (done : Admissions) (resource : Resource) (e : Executor Dev) (memory : Mem)
      → let e' = (record_output manager done resource (e, memory)).0 in
        (e'.storage ≡ e.storage) × (e'.kernels ≡ e.kernels)
  unfolding record_output
  record_output-same done resource e memory = (ground arith, ground arith)

  record_outputs-IsReady :
      (done : Admissions) (resources : List Resource) (e : Executor Dev) (memory : Mem)
      → IsReady none e
      → IsReady none (record_outputs manager done resources (e, memory)).0
  unfolding record_outputs
  record_outputs-IsReady done [] e memory ready = ready
  record_outputs-IsReady done (resource ∷ resources) e memory ready =
      let (e', memory') = record_output manager done resource (e, memory) in
      let (storage, kernels) = record_output-same done resource e memory in
      record_outputs-IsReady done resources e' memory' (IsReady-same e e' storage kernels ready)

module _ {Dev Mem : Type 0} (platform : Platform Dev) (allocation : Allocation platform)
    (capacity : Capacity platform) (manager : MemoryManager Mem) where
  replace-IsReady :
      (id : String) (a : ℕ) (b : CudaDeviceBuffer) (e : Executor Dev) (memory : Mem)
      → Fits b
      → IsReady none e
      → IsReady none (replace platform manager id a b (e, memory)).0
  unfolding replace
  replace-IsReady id a b e memory fits ready = (insert-AllFit id b e.storage fits ready.0, ready.1)

  pub release_admitted_tensor-IsReady :
      (id : String) (e : Executor Dev) (memory : Mem)
      → IsReady none e
      → IsReady none (release_admitted_tensor platform manager id (e, memory)).1.0
  unfolding release_admitted_tensor
  release_admitted_tensor-IsReady id e memory ready = (remove-AllFit id e.storage ready.0, ready.1)

  pub write_tensor_admitted-IsReady :
      (id : String) (tensor : HostTensor) (class owner : ℕ)
      → IsValid tensor
      → (e : Executor Dev) (memory : Mem) → IsReady none e
      → IsReady none (write_tensor_admitted platform manager id tensor class owner (e, memory)).1.0
  unfolding write_tensor_admitted
  write_tensor_admitted-IsReady id tensor class owner valid e memory ready =
      let request = admission_request platform manager class owner (length tensor.values) in
      let made = upload-Fits platform allocation capacity tensor valid in
      let ready' = on_kernels-IsReady (upload platform tensor) made e ready in
      elim (Result-cases (manager.allocate request memory).0) [
        | inr (denied, refused) ↦ rw (write_tensor_admitted, ◌>>=◌, refused) ready
        | inl (a, allocated) ↦ elim (Result-cases (upload platform tensor e.kernels).0) [
          | inr (error, failed) ↦ rw (write_tensor_admitted, ◌>>=◌, allocated, failed) ready'
          | inl (buffer, done) ↦
              rw (write_tensor_admitted, ◌>>=◌, allocated, done)
                (replace-IsReady id a buffer (on_kernels (upload platform tensor) e).1
                  (manager.allocate request memory).1 (made.gives e.kernels buffer ready.1 done)
                  ready')
        ]
      ]

  pub copy_admitted-IsReady :
      (found : Option CudaDeviceBuffer) (id : String) (class owner : ℕ)
      → ((b : CudaDeviceBuffer) → found ≡ some b → Fits b)
      → (e : Executor Dev) (memory : Mem) → IsReady none e
      → IsReady none (copy_admitted platform manager found id class owner (e, memory)).1.0
  unfolding copy_admitted
  copy_admitted-IsReady none id class owner fits e memory ready = ready
  copy_admitted-IsReady (some buffer) id class owner fits e memory ready =
      let made = clone_buffer-Fits platform allocation capacity buffer (fits buffer refl) in
      let (r, e') = on_kernels (clone_buffer platform buffer) e in
      let ready' = on_kernels-IsReady (clone_buffer platform buffer) made e ready in
      elim (Result-cases (clone_buffer platform buffer e.kernels).0) [
        | inr (error, failed) ↦
            let same : (copy_admitted platform manager (some buffer) id class owner (e, memory)).1
                ≡ (e', memory) =
              ground (arith, failed) in
            subst (λ s. IsReady none s.0) (sym same) ready'
        | inl (cloned, done) ↦
            let request = admission_request platform manager class owner (buffer_len cloned) in
            elim (Result-cases (manager.allocate request memory).0) [
              | inr (denied, refused) ↦
                  let same : (copy_admitted platform manager (some buffer) id class owner
                        (e, memory)).1
                      ≡ (e', (manager.allocate request memory).1) =
                    ground (arith, done, refused) in
                  subst (λ s. IsReady none s.0) (sym same) ready'
              | inl (a, allocated) ↦
                  let memory' = (manager.allocate request memory).1 in
                  let same : (copy_admitted platform manager (some buffer) id class owner
                        (e, memory)).1
                      ≡ replace platform manager id a cloned (e', memory') =
                    ground (arith, done, allocated) in
                  subst (λ s. IsReady none s.0) (sym same)
                    (replace-IsReady id a cloned e' memory'
                      (made.gives e.kernels cloned ready.1 done) ready')
            ]
      ]

module _ {Dev Mem : Type 0} (platform : Platform Dev) (scaling : FrequencyScaling)
    (allocation : Allocation platform) (capacity : Capacity platform)
    (manager : MemoryManager Mem) where
  pub execute_invocation_with_memory_manager-IsReady :
      (validate : KernelInvocation → Result KernelError ⊤) (invocation : KernelInvocation)
      (e : Executor Dev) (memory : Mem)
      → IsReady none e
      → IsReady none
          (execute_invocation_with_memory_manager platform scaling manager validate invocation
            (e, memory)).1.0
  unfolding execute_invocation_with_memory_manager
  execute_invocation_with_memory_manager-IsReady validate invocation e memory ready =
      let start : Admissions = record { admitted = []; preadmitted = [] } in
      let (outcome, (e1, memory1)) =
        admit_outputs manager invocation invocation.outputs start (e, memory) in
      let ready1 =
        admit_outputs-IsReady manager invocation invocation.outputs start e memory ready in
      let (result, e2) = execute_invocation platform scaling validate invocation e1 in
      let ready2 =
        execute_invocation-IsReady platform scaling allocation capacity validate invocation e1
          ready1 in
      elim (Result-cases outcome) [
        | inr (error, refused) ↦ rw (execute_invocation_with_memory_manager, refused) ready1
        | inl (done, admitted) ↦ elim (Option-cases result.error) [
          | inr (error, failed) ↦
              rw (execute_invocation_with_memory_manager, admitted, failed) ready2
          | inl succeeded ↦
              rw (execute_invocation_with_memory_manager, admitted, succeeded)
                (record_outputs-IsReady manager done result.updated_resources e2 memory1 ready2)
        ]
      ]
