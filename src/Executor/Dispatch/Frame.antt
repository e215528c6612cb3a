-- ===== src/Executor/Dispatch/Frame.antt =====
-- What one dispatch changes (`run_invocation_with_offer` of `src/executor.rs`).
use magnetar_provider_cuda.Base.{
  ◌≡◌, arith, false, some, Result, ok, err, is_ok, lookup, insert, contains_key, get_elem?,
  Option-cases, Result-cases, inl, inr, ◌⊎◌,
}
use magnetar_provider_cuda.Base.Eq.{string_eq}
use magnetar_provider_cuda.Error.{KernelError, kernel_not_found}
use magnetar_provider_cuda.Platform.{Platform}
use magnetar_provider_cuda.Kernels.State.{CudaDeviceBuffer}
use magnetar_provider_cuda.Executor.State.{Executor, KernelInvocation, KernelResult, Resource}
use magnetar_provider_cuda.Executor.Names.{kernel_names, with_output}
use magnetar_provider_cuda.Executor.Dispatch.{
  FrequencyScaling, store_output, run_kernel, run_invocation_with_offer,
}
use magnetar_provider_cuda.Executor.Dispatch.Laws.{run_kernel-IsKernelsOnly}

module _ {Dev : Type 0} (platform : Platform Dev) (scaling : FrequencyScaling) where
  -- A dispatch that failed changed nothing but the Kernels; one that succeeded stored a buffer under
  -- the first output, and names that output as ready and updated.
  abbrev pub IsDispatch :
      KernelInvocation → Executor Dev → Result KernelError KernelResult × Executor Dev → Type 0
  IsDispatch invocation e outcome =
      ((is_ok outcome.0 ≡ false) × (outcome.1 ≡ record e { kernels = outcome.1.kernels }))
      ⊎ ((output : Resource) × (buffer : CudaDeviceBuffer) × (get_elem? invocation.outputs 0
            ≡ some output)
          × (outcome.0 ≡ ok (with_output invocation output))
          × (outcome.1 ≡ record e {
            kernels = outcome.1.kernels;
            storage = insert output.id buffer e.storage;
          }))

  -- Every dispatch, of a Kernel that exists or not, either fails and changes nothing but the
  -- Kernels' own state, or stores one buffer under the invocation's first output and nothing else.
  pub run_invocation_with_offer-IsDispatch :
      (invocation : KernelInvocation) (e : Executor Dev)
      → IsDispatch invocation e (run_invocation_with_offer platform scaling invocation e)
  unfolding run_invocation_with_offer store_output
  run_invocation_with_offer-IsDispatch invocation e =
      elim (Option-cases (lookup invocation.kernel_name kernel_names)) [
        | inl unknown ↦ inl (ground arith, ground arith)
        | inr (kernel, known) ↦
            let (r, e1) = run_kernel platform scaling kernel invocation e in
            let frame = run_kernel-IsKernelsOnly platform scaling kernel invocation e in
            elim (Result-cases r) [
              | inr (error, failed) ↦ inl (ground arith, ground (arith, frame))
              | inl (buffer, ran) ↦ elim (Option-cases (get_elem? invocation.outputs 0)) [
                | inl missing ↦ inl (ground arith, ground (arith, frame))
                | inr (output, first) ↦
                    inr (output, buffer, first, ground arith, ground (arith, frame))
              ]
            ]
      ]

  -- A Kernel name that no arm has is not found, and nothing changes.
  pub run_invocation_with_offer-unknown :
      (invocation : KernelInvocation) (e : Executor Dev)
      → contains_key invocation.kernel_name kernel_names ≡ false
      → run_invocation_with_offer platform scaling invocation e ≡ (err kernel_not_found, e)
  unfolding run_invocation_with_offer
  run_invocation_with_offer-unknown invocation e unknown =
      ground (arith, Option-cases (lookup invocation.kernel_name kernel_names))
