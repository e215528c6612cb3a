-- ===== src/Executor/Invocation/Laws.antt =====
-- What an invocation promises of the storage (`src/executor.rs`).
use magnetar_provider_cuda.Base.{
  ◌≡◌, ap, arith, ◌≢◌, String, false, none, some, is_ok, lookup, remove, get_elem?, Option-cases,
  Bool-cases, inl, inr, ◌⊎◌, lookup-insert, lookup-remove,
}
use magnetar_provider_cuda.Base.Eq.{string_eq}
use magnetar_provider_cuda.Platform.{Platform}
use magnetar_provider_cuda.Kernels.State.{CudaDeviceBuffer}
use magnetar_provider_cuda.Kernels.Transfer.{f32_buffer}
use magnetar_provider_cuda.Executor.State.{Executor, KernelInvocation, Resource}
use magnetar_provider_cuda.Executor.Dispatch.{
  FrequencyScaling, input_resource_id, run_invocation_with_offer,
}
use magnetar_provider_cuda.Executor.Dispatch.Frame.{run_invocation_with_offer-IsDispatch}
use magnetar_provider_cuda.Executor.Invocation.{
  has_id, take_previous_output, offer_previous, restore_offer, take_store, write_rows, run_kv_write,
  run_with_previous_output,
}

module _ {Dev : Type 0} (platform : Platform Dev) where
  -- An in-place `kv-write`, whose output is its store, never changes which buffer any resource has,
  -- whether it succeeds or fails and whatever failed: the store that was taken out always goes back.
  pub run_kv_write-storage :
      (invocation : KernelInvocation) (store output : Resource) (e : Executor Dev)
      → get_elem? invocation.inputs 0 ≡ some store
      → get_elem? invocation.outputs 0 ≡ some output
      → output.id ≡ store.id
      → (id : String)
      → lookup id (run_kv_write platform invocation e).1.storage ≡ lookup id e.storage
  unfolding run_kv_write input_resource_id take_store write_rows
  run_kv_write-storage invocation store output e hs ho same id =
      let beq = (string_eq.beq_iff output.id store.id).1 same in
      elim (Option-cases (lookup store.id e.storage)) [
        | inl absent ↦ ground (arith, beq)
        | inr (buffer, present) ↦ ground (
          arith,
          beq,
          lookup-insert output.id id buffer (remove store.id e.storage),
          lookup-remove store.id id e.storage,
          string_eq.beq_iff store.id id,
        )
      ]

module _ {Dev : Type 0} where
  -- What `take_previous_output` took: nothing, or an `f32` buffer that the storage then lacks.
  pub take_previous_output-cases :
      (invocation : KernelInvocation) (e : Executor Dev)
      → (take_previous_output invocation e ≡ (none, e))
        ⊎ ((output : Resource) × (buffer : CudaDeviceBuffer) × (get_elem? invocation.outputs 0
              ≡ some output)
            × (take_previous_output invocation e
                ≡ (some (output.id, buffer), record e { storage = remove output.id e.storage }))
            × (lookup output.id e.storage ≡ some buffer)
            × (buffer ≡ f32_buffer buffer.slice buffer.shape))
  unfolding take_previous_output
  take_previous_output-cases invocation e = elim (Option-cases (get_elem? invocation.outputs 0)) [
    | inl nothing ↦ inl (ground arith)
    | inr (output, first) ↦ elim (Bool-cases (has_id output.id invocation.inputs)) [
      | inl read ↦ inl (ground arith)
      | inr unread ↦ elim (Option-cases (lookup output.id e.storage)) [
        | inl absent ↦ inl (ground arith)
        | inr (buffer, present) ↦ elim (Option-cases buffer.bf16) [
          | inl plain ↦ inr (
            output,
            buffer,
            first,
            ground arith,
            present,
            ap (λ bf16. record buffer { bf16 = bf16 }) plain,
          )
          | inr (bf16, compact) ↦ inl (ground arith)
        ]
      ]
    ]
  ]

module _ {Dev : Type 0} (platform : Platform Dev) (scaling : FrequencyScaling) where
  -- A dispatch that fails, whose Kernel did not take the offered output buffer, leaves every
  -- resource with the buffer that it had: the one that was offered goes back.
  pub run_with_previous_output-restores :
      (invocation : KernelInvocation) (e : Executor Dev) (id : String)
      → let (taken, e1) = take_previous_output invocation e in
        let start = offer_previous taken e1 in
        let (r, e2) = run_invocation_with_offer platform scaling invocation start in
        is_ok r ≡ false
        → e2.kernels.offered_output ≡ start.kernels.offered_output
        → lookup id (run_with_previous_output platform scaling invocation e).1.storage
          ≡ lookup id e.storage
  unfolding run_with_previous_output restore_offer offer_previous
  run_with_previous_output-restores invocation e id failed left =
      let (taken, e1) = take_previous_output invocation e in
      let start = offer_previous taken e1 in
      let dispatch = run_invocation_with_offer-IsDispatch platform scaling invocation start in
      elim (take_previous_output-cases invocation e) [
        | inl nothing ↦ elim dispatch [
          | inl (_, frame) ↦ ground (arith, ap (λ x. x.storage) frame)
          | inr (_, _, _, succeeded, _) ↦ absurd (ground arith)
        ]
        | inr (output, buffer, _, took, present, plain) ↦ elim dispatch [
          | inl (_, frame) ↦ ground (
            arith,
            ap (λ x. x.storage) frame,
            lookup-insert output.id id (f32_buffer buffer.slice buffer.shape)
                (remove output.id e.storage),
            lookup-remove output.id id e.storage,
            string_eq.beq_iff output.id id,
            plain,
          )
          | inr (_, _, _, succeeded, _) ↦ absurd (ground arith)
        ]
      ]

  -- Whatever its outcome, a dispatch leaves every resource but its first output with the buffer that
  -- it had.
  pub run_with_previous_output-others :
      (invocation : KernelInvocation) (output : Resource) (e : Executor Dev) (id : String)
      → get_elem? invocation.outputs 0 ≡ some output
      → output.id ≢ id
      → lookup id (run_with_previous_output platform scaling invocation e).1.storage
        ≡ lookup id e.storage
  unfolding run_with_previous_output restore_offer offer_previous
  run_with_previous_output-others invocation output e id first other =
      let (taken, e1) = take_previous_output invocation e in
      let start = offer_previous taken e1 in
      let differ = string_eq.beq_iff output.id id in
      let dispatch = run_invocation_with_offer-IsDispatch platform scaling invocation start in
      elim (take_previous_output-cases invocation e) [
        | inl nothing ↦ elim dispatch [
          | inl (failed, frame) ↦ ground (arith, ap (λ x. x.storage) frame)
          | inr (stored, made, named, succeeded, frame) ↦
              ground (
                arith,
                ap (λ x. x.storage) frame,
                lookup-insert stored.id id made e.storage,
                differ,
              )
        ]
        | inr (output', buffer, named', took, present, plain) ↦
            let removed = lookup-remove output'.id id e.storage in
            elim dispatch [
              | inl (failed, frame) ↦
                  let e2 = (run_invocation_with_offer platform scaling invocation start).1 in
                  elim (Option-cases e2.kernels.offered_output) [
                    | inl gone ↦ ground (arith, ap (λ x. x.storage) frame, removed, differ)
                    | inr (left, kept) ↦
                        let back = f32_buffer left buffer.shape in
                        ground (
                          arith,
                          ap (λ x. x.storage) frame,
                          lookup-insert output'.id id back (remove output'.id e.storage),
                          removed,
                          differ,
                        )
                  ]
              | inr (stored, made, named, succeeded, frame) ↦ ground (
                arith,
                ap (λ x. x.storage) frame,
                lookup-insert stored.id id made (remove output'.id e.storage),
                removed,
                differ,
              )
            ]
      ]
