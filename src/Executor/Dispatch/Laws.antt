-- ===== src/Executor/Dispatch/Laws.antt =====
-- What the arms of the dispatch promise (`src/executor.rs`).
use magnetar_provider_cuda.Base.{◌≡◌}
use magnetar_provider_cuda.Base.Eq.{string_eq}
use magnetar_provider_cuda.Platform.{Platform}
use magnetar_provider_cuda.Kernels.Elementwise.{HalfOp}
use magnetar_provider_cuda.Executor.State.{Executor, KernelInvocation}
use magnetar_provider_cuda.Executor.Names.{Kernel}
use magnetar_provider_cuda.Executor.Dispatch.{
  FrequencyScaling, run_kernel, run_rope, run_attention, run_half,
}
use magnetar_provider_cuda.Executor.Dispatch.Arms.{IsStep, steps}

module _ {Dev : Type 0} (platform : Platform Dev) (scaling : FrequencyScaling) where
  -- What a Kernel's arm leaves alone: all of the executor but its `kernels`.
  abbrev pub IsKernelsOnly : Executor Dev → Executor Dev → Type 0
  IsKernelsOnly e e' = e' ≡ record e { kernels = e'.kernels }

  run_half-IsStep :
      (op : HalfOp) (invocation : KernelInvocation)
      → IsStep (run_half platform scaling op invocation)
  unfolding run_half
  run_half-IsStep op invocation = search steps depth 20

  run_rope-IsStep : (invocation : KernelInvocation) → IsStep (run_rope platform scaling invocation)
  unfolding run_rope
  run_rope-IsStep invocation = search steps depth 20

  run_attention-IsStep :
      (invocation : KernelInvocation) → IsStep (run_attention platform scaling invocation)
  unfolding run_attention
  run_attention-IsStep invocation = search steps depth 20

  pub run_kernel-IsStep :
      (kernel : Kernel) (invocation : KernelInvocation)
      → IsStep (run_kernel platform scaling kernel invocation)
  unfolding run_kernel
  run_kernel-IsStep Kernel.rope invocation = run_rope-IsStep invocation
  run_kernel-IsStep Kernel.attention invocation = run_attention-IsStep invocation
  run_kernel-IsStep Kernel.add_half invocation = run_half-IsStep HalfOp.add_op invocation
  run_kernel-IsStep Kernel.mul_half invocation = run_half-IsStep HalfOp.mul_op invocation
  run_kernel-IsStep _ invocation = search steps depth 20

  pub run_kernel-IsKernelsOnly :
      (kernel : Kernel) (invocation : KernelInvocation) (e : Executor Dev)
      → IsKernelsOnly e (run_kernel platform scaling kernel invocation e).1
  run_kernel-IsKernelsOnly kernel invocation e = (run_kernel-IsStep kernel invocation).frame e
