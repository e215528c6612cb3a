-- ===== src/Executor/Admission/Laws.antt =====
-- What admission promises of the ledger (`src/executor.rs`).
use magnetar_provider_cuda.Base.{
  ℕ, ◌*◌, ◌≡◌, refl, arith, String, Bool, true, false, if◌then◌else◌, Option, none, some, ok, err,
  is_ok, lookup, lookup-insert, Result-cases, inl, inr, length, ◌⊎◌,
}
use magnetar_provider_cuda.Base.Eq.{string_eq}
use magnetar_provider_cuda.Base.Bits.{u64}
use magnetar_provider_cuda.Platform.{Platform, HostTensor}
use magnetar_provider_cuda.Kernels.State.{CudaDeviceBuffer, buffer_len}
use magnetar_provider_cuda.Kernels.Transfer.{upload, clone_buffer}
use magnetar_provider_cuda.Executor.State.{
  Executor, MemoryManager, MemoryError, AllocationRequest, TensorValueAdmissionError,
}
use magnetar_provider_cuda.Executor.State.Ledger.{Ledger}
use magnetar_provider_cuda.Executor.Tensors.{materialization_error}
use magnetar_provider_cuda.Executor.Admission.{
  write_tensor_admitted, copy_admitted, copy_tensor_admitted, copy_tensor_from_peer_admitted,
  replace,
}
use magnetar_provider_cuda.Executor.Admission.Outcomes.{
  IsAdmission, replace-IsReplaced, release-allocate, transport-IsAdmission,
}

module _ {Dev Mem : Type 0} (platform : Platform Dev) (manager : MemoryManager Mem)
    (ledger : Ledger manager) where
  -- `write_tensor_admitted` either stores the tensor, with a fresh allocation in place of the
  -- resource's previous one, or leaves tracking, storage and ledger as they were, also when the
  -- upload fails after the allocation was granted.
  pub write_tensor_admitted-IsAdmission :
      (id : String) (tensor : HostTensor) (class owner : ℕ) (e : Executor Dev) (memory : Mem)
      → let (r, s) = write_tensor_admitted platform manager id tensor class owner (e, memory) in
        IsAdmission platform manager ledger (is_ok r) id (e, memory) s
  unfolding write_tensor_admitted
  write_tensor_admitted-IsAdmission id tensor class owner e memory =
      let request : AllocationRequest = record {
        class = class;
        byte_size = u64 (length tensor.values * 4);
        owner = owner;
      } in
      let outcome = write_tensor_admitted platform manager id tensor class owner (e, memory) in
      let memory' = (manager.allocate request memory).1 in
      let e' : Executor Dev = record e { kernels = (upload platform tensor e.kernels).1 } in
      elim (Result-cases (manager.allocate request memory).0) [
        | inr (error, denied) ↦
            let same : outcome ≡ (err error, (e, memory')) = ground arith in
            transport-IsAdmission platform manager ledger id (e, memory) same
              (inr (refl, (refl, refl, λ b. ledger.allocate-err request memory error b denied)))
        | inl (a, allocated) ↦ elim (Result-cases (upload platform tensor e.kernels).0) [
          | inl (buffer, uploaded) ↦
              let same : outcome ≡ (ok tt, replace platform manager id a buffer (e', memory')) =
                ground arith in
              transport-IsAdmission platform manager ledger id (e, memory) same
                (inl (
                  refl,
                  (
                    a,
                    replace-IsReplaced platform manager ledger id request a buffer e e' memory
                        allocated refl,
                  ),
                ))
          | inr (error, failed) ↦
              let same : outcome
                  ≡ (err MemoryError.allocation_denied, (e', manager.release a memory')) =
                ground arith in
              transport-IsAdmission platform manager ledger id (e, memory) same
                (inr (
                  refl,
                  (
                    refl,
                    refl,
                    λ b. release-allocate platform manager ledger request a b memory allocated,
                  ),
                ))
        ]
      ]

  copy_admitted-IsAdmission :
      (found : Option CudaDeviceBuffer) (id : String) (class owner : ℕ) (e : Executor Dev)
      (memory : Mem)
      → let (r, s) = copy_admitted platform manager found id class owner (e, memory) in
        IsAdmission platform manager ledger (is_ok r) id (e, memory) s
  unfolding copy_admitted
  copy_admitted-IsAdmission none id class owner e memory = inr (refl, (refl, refl, λ b. refl))
  copy_admitted-IsAdmission (some from) id class owner e memory =
      let outcome = copy_admitted platform manager (some from) id class owner (e, memory) in
      let e' : Executor Dev = record e { kernels = (clone_buffer platform from e.kernels).1 } in
      elim (Result-cases (clone_buffer platform from e.kernels).0) [
        | inr (error, failed) ↦
            let same : outcome ≡ (
              err (TensorValueAdmissionError.provider_error materialization_error),
              (e', memory),
            ) =
              ground arith in
            transport-IsAdmission platform manager ledger id (e, memory) same
              (inr (refl, (refl, refl, λ b. refl)))
        | inl (buffer, cloned) ↦
            let request : AllocationRequest = record {
              class = class;
              byte_size = u64 (buffer_len buffer * 4);
              owner = owner;
            } in
            let memory' = (manager.allocate request memory).1 in
            elim (Result-cases (manager.allocate request memory).0) [
              | inr (error, denied) ↦
                  let same : outcome
                      ≡ (err (TensorValueAdmissionError.memory_error error), (e', memory')) =
                    ground arith in
                  transport-IsAdmission platform manager ledger id (e, memory) same
                    (inr
                      (refl, (refl, refl, λ b. ledger.allocate-err request memory error b denied)))
              | inl (a, allocated) ↦
                  let same : outcome ≡ (ok a, replace platform manager id a buffer (e', memory')) =
                    ground arith in
                  transport-IsAdmission platform manager ledger id (e, memory) same
                    (inl (
                      refl,
                      (
                        a,
                        replace-IsReplaced platform manager ledger id request a buffer e e' memory
                            allocated refl,
                      ),
                    ))
            ]
      ]

  -- What a copy of `found` under `id` does to the storage: the clone of the buffer is under `id`, and
  -- every other resource has its buffer; or nothing changes.
  abbrev pub IsCopy : Bool → Option CudaDeviceBuffer → String → Executor Dev → Executor Dev → Type 0
  IsCopy succeeded found id e e' =
      ((succeeded ≡ true)
        × ((from : CudaDeviceBuffer) × (clone : CudaDeviceBuffer) × (found ≡ some from)
            × ((clone_buffer platform from e.kernels).0 ≡ ok clone)
            × ((id' : String)
                → lookup id' e'.storage
                  ≡ (if string_eq.beq id id' then some clone else lookup id' e.storage))))
      ⊎ ((succeeded ≡ false) × (e'.storage ≡ e.storage))

  copy_admitted-IsCopy :
      (found : Option CudaDeviceBuffer) (id : String) (class owner : ℕ) (e : Executor Dev)
      (memory : Mem)
      → let (r, (e', _)) = copy_admitted platform manager found id class owner (e, memory) in
        IsCopy (is_ok r) found id e e'
  unfolding copy_admitted replace
  copy_admitted-IsCopy none id class owner e memory = inr (refl, refl)
  copy_admitted-IsCopy (some from) id class owner e memory =
      elim (Result-cases (clone_buffer platform from e.kernels).0) [
        | inr (error, failed) ↦ inr (ground arith, ground arith)
        | inl (clone, cloned) ↦
            let request : AllocationRequest = record {
              class = class;
              byte_size = u64 (buffer_len clone * 4);
              owner = owner;
            } in
            elim (Result-cases (manager.allocate request memory).0) [
              | inr (error, denied) ↦ inr (ground arith, ground arith)
              | inl (a, allocated) ↦ inl (
                ground arith,
                (
                  from,
                  clone,
                  refl,
                  cloned,
                  λ id'. ground (arith, lookup-insert id id' clone e.storage),
                ),
              )
            ]
      ]

  -- A copy, from the executor's own storage or from a peer's, that succeeds stores the clone of the
  -- buffer that it found under `to`, with a fresh allocation in place of the previous one of `to`, and
  -- every other resource keeps its buffer; whatever fails, tracking, storage and ledger are as before.
  pub copies-IsAdmission :
      {PeerDev : Type 0} (peer : Executor PeerDev) (from to : String) (class owner : ℕ)
      (e : Executor Dev) (memory : Mem)
      → let (r, s) = copy_tensor_admitted platform manager from to class owner (e, memory) in
        let (r', s') =
          copy_tensor_from_peer_admitted platform manager peer from to class owner (e, memory) in
        IsAdmission platform manager ledger (is_ok r) to (e, memory) s
        × IsCopy (is_ok r) (lookup from e.storage) to e s.0
        × IsAdmission platform manager ledger (is_ok r') to (e, memory) s'
        × IsCopy (is_ok r') (lookup from peer.storage) to e s'.0
  unfolding copy_tensor_admitted copy_tensor_from_peer_admitted
  copies-IsAdmission peer from to class owner e memory = (
    copy_admitted-IsAdmission (lookup from e.storage) to class owner e memory,
    copy_admitted-IsCopy (lookup from e.storage) to class owner e memory,
    copy_admitted-IsAdmission (lookup from peer.storage) to class owner e memory,
    copy_admitted-IsCopy (lookup from peer.storage) to class owner e memory,
  )
