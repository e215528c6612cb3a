-- ===== src/Executor/Dispatch/Fits.antt =====
-- Every Kernel's arm of the dispatch (`src/executor.rs`) gives a buffer that fits its shape, when every
-- stored buffer does.
use magnetar_provider_cuda.Base.{
  ◌≡◌, ap, ◌∙◌, sym, subst, arith, inl, inr, ℕ, String, Option, none, some, Map, Result, ok, err, ⊤,
  lift, ok_or, ◌>>=◌, Result-cases, Option-cases, get_elem?, lookup,
}
use magnetar_provider_cuda.Base.Eq.{string_eq}
use magnetar_provider_cuda.Error.{KernelError}
use magnetar_provider_cuda.Platform.{Slice, Platform, HostTensor}
use magnetar_provider_cuda.Platform.Allocation.{Allocation, Capacity, HasSize}
use magnetar_provider_cuda.Kernels.State.{KernelsAction, CudaDeviceBuffer}
use magnetar_provider_cuda.Kernels.Elementwise.{HalfOp}
use magnetar_provider_cuda.Kernels.Fits.{Fits, Offers}
use magnetar_provider_cuda.Kernels.Fits.Rules.{Makes, Runs}
use magnetar_provider_cuda.Kernels.Fits.Elementwise.{
  silu-Fits, mul-Fits, add-Fits, residual_add-Fits, silu_mul-Fits, concat-Fits,
}
use magnetar_provider_cuda.Kernels.Fits.Lookup.{
  softmax_rows-Fits, rmsnorm-Fits, embedding_lookup-Fits, rope-Fits,
}
use magnetar_provider_cuda.Kernels.Fits.Matmul.{
  matmul-Fits, matmul_bias-Fits, matmul_residual-Fits, gated_matmul-Fits,
}
use magnetar_provider_cuda.Kernels.Fits.Attention.{attention_bounded-Fits}
use magnetar_provider_cuda.Kernels.Fits.Transfer.{
  IsValid, upload-Fits, download-IsValid, download_half-IsValid, Runs-upload_half,
  Runs-half_elementwise,
}
use magnetar_provider_cuda.Executor.State.{Executor, ExecutorAction, kernel_call, KernelInvocation}
use magnetar_provider_cuda.Executor.Names.{Kernel}
use magnetar_provider_cuda.Executor.Dispatch.{
  FrequencyScaling, input_buffer, input_resource_id, run_kernel, run_rope, run_attention, run_half,
}

abbrev pub AllFit : Map String CudaDeviceBuffer → Type 0
AllFit m = (id : String) (b : CudaDeviceBuffer) → lookup id m ≡ some b → Fits b

abbrev pub IsReady : {Dev : Type 0} → Option Slice → Executor Dev → Type 0
IsReady offered e = AllFit e.storage × Offers offered e.kernels

module _ {Dev : Type 0} where
  pub IsReady-same :
      (e e' : Executor Dev)
      → e'.storage ≡ e.storage
      → e'.kernels ≡ e.kernels
      → IsReady none e
      → IsReady none e'
  IsReady-same e e' storage kernels ready = (
    subst AllFit (sym storage) ready.0,
    λ s given. ready.1 s (ap (λ k. k.offered_output) (sym kernels) ∙ given),
  )

pub record Gives {E Dev A : Type 0} (offered : Option Slice) (P : A → Type 0)
    (m : ExecutorAction E Dev A) : Type 0 where
  pub keeps : (e : Executor Dev) → IsReady offered e → IsReady offered (m e).1
  pub gives : (e : Executor Dev) (a : A) → IsReady offered e → (m e).0 ≡ ok a → P a

module _ {Dev : Type 0} {offered : Option Slice} where
  pub Gives-kernel_call :
      {A : Type 0} {P : A → Type 0} (m : KernelsAction Dev A)
      → Makes offered P m
      → Gives offered P (kernel_call m)
  Gives-kernel_call m h = record {
    keeps = λ e ready.
        let same : (kernel_call m e).1 ≡ record e { kernels = (m e.kernels).1 } = ground arith in
        subst (IsReady offered) (sym same) (ready.0, h.keeps e.kernels ready.1);
    gives = λ e a ready done. h.gives e.kernels a ready.1 (ground arith);
  }

  module _ {E A B : Type 0} {Q : A → Type 0} {P : B → Type 0} where
    pub Gives->>= :
        (m : ExecutorAction E Dev A) (f : A → ExecutorAction E Dev B)
        → Gives offered Q m
        → ((a : A) → Q a → Gives offered P (f a))
        → Gives offered P (m >>= f)
    Gives->>= m f hm hf = record {
      keeps = λ e ready. elim (Result-cases (m e).0) [
        | inl (a, done) ↦
            let same : ((m >>= f) e).1 ≡ (f a (m e).1).1 = ground arith in
            subst (IsReady offered) (sym same)
              ((hf a (hm.gives e a ready done)).keeps (m e).1 (hm.keeps e ready))
        | inr (c, failed) ↦
            let same : ((m >>= f) e).1 ≡ (m e).1 = ground arith in
            subst (IsReady offered) (sym same) (hm.keeps e ready)
      ];
      gives = λ e b ready done. elim (Result-cases (m e).0) [
        | inl (a, ran) ↦
            (hf a (hm.gives e a ready ran)).gives (m e).1 b (hm.keeps e ready) (ground arith)
        | inr (c, failed) ↦ absurd (ground arith)
      ];
    }

  module _ {E B : Type 0} {P : B → Type 0} where
    pub next_lift :
        {A : Type 0} (r : Result E A) (f : A → ExecutorAction E Dev B)
        → ((a : A) → Gives offered P (f a))
        → Gives offered P (lift r >>= f)
    next_lift (ok a) f hf = hf a
    next_lift (err c) f hf = record {
      keeps = λ e ready. ready;
      gives = λ e a ready done. absurd (ground arith);
    }

    pub next_some :
        {A : Type 0} (o : Option A) (c : E) (f : A → ExecutorAction E Dev B)
        → ((a : A) → Gives offered P (f a))
        → Gives offered P (ok_or o c >>= f)
    next_some (some a) c f hf = hf a
    next_some none c f hf = record {
      keeps = λ e ready. ready;
      gives = λ e a ready done. absurd (ground arith);
    }

  module _ {B : Type 0} {P : B → Type 0} where
    pub next_call :
        {A : Type 0} (m : KernelsAction Dev A) (f : A → ExecutorAction KernelError Dev B)
        → Runs offered m
        → ((a : A) → Gives offered P (f a))
        → Gives offered P (kernel_call m >>= f)
    next_call m f hm hf = Gives->>= (kernel_call m) f (Gives-kernel_call m hm) (λ a _. hf a)

    pub next_tensor :
        (m : KernelsAction Dev HostTensor) (f : HostTensor → ExecutorAction KernelError Dev B)
        → Makes offered IsValid m
        → ((t : HostTensor) → IsValid t → Gives offered P (f t))
        → Gives offered P (kernel_call m >>= f)
    next_tensor m f hm hf = Gives->>= (kernel_call m) f (Gives-kernel_call m hm) hf

    pub next_input :
        (invocation : KernelInvocation) (index : ℕ)
        (f : CudaDeviceBuffer → ExecutorAction KernelError Dev B)
        → ((b : CudaDeviceBuffer) → Fits b → Gives offered P (f b))
        → Gives offered P (input_buffer invocation index >>= f)
    unfolding input_buffer input_resource_id
    next_input invocation index f hf =
        Gives->>= {Q = Fits} (input_buffer invocation index) f
          (record {
            keeps = λ e ready.
                let same : (input_buffer invocation index e).1 ≡ e = ground arith in
                subst (IsReady offered) (sym same) ready;
            gives = λ e b ready done. elim (Option-cases (get_elem? invocation.inputs index)) [
              | inl missing ↦ absurd (ground arith)
              | inr (resource, is) ↦
                  ready.0 resource.id b
                    (ground (arith, Option-cases (lookup resource.id e.storage)))
            ];
          })
          hf

  pub Gives-lift : {E A : Type 0} (r : Result E A) → Gives {Dev = Dev} offered (λ _. ⊤) (lift r)
  Gives-lift (ok a) = record { keeps = λ e ready. ready; gives = λ e a ready done. tt }
  Gives-lift (err c) = record { keeps = λ e ready. ready; gives = λ e a ready done. tt }

-- The rules that build an arm from its steps.
pub ruleset arms = (next_lift, next_some, next_call, next_tensor, next_input, Gives-kernel_call)

module _ {Dev : Type 0} (platform : Platform Dev) (scaling : FrequencyScaling)
    (allocation : Allocation platform) (capacity : Capacity platform) {offered : Option Slice}
    (size : (s : Slice) → offered ≡ some s → HasSize s.len) where
  run_half-Fits :
      (op : HalfOp) (invocation : KernelInvocation)
      → Gives offered Fits (run_half platform scaling op invocation)
  unfolding run_half
  run_half-Fits op invocation =
      search
        (
          next_input,
          next_some,
          next_lift,
          next_tensor,
          next_call,
          Gives-kernel_call,
          download-IsValid platform allocation capacity,
          download_half-IsValid platform allocation capacity,
          Runs-upload_half platform allocation capacity,
          Runs-half_elementwise platform allocation capacity,
          upload-Fits platform allocation capacity,
        )
        depth 20

  run_rope-Fits :
      (invocation : KernelInvocation) → Gives offered Fits (run_rope platform scaling invocation)
  unfolding run_rope
  run_rope-Fits invocation = search (arms, rope-Fits platform allocation capacity size) depth 20

  run_attention-Fits :
      (invocation : KernelInvocation)
      → Gives offered Fits (run_attention platform scaling invocation)
  unfolding run_attention
  run_attention-Fits invocation =
      search (arms, attention_bounded-Fits platform allocation capacity size) depth 20

  pub run_kernel-Fits :
      (kernel : Kernel) (invocation : KernelInvocation)
      → Gives offered Fits (run_kernel platform scaling kernel invocation)
  unfolding run_kernel
  run_kernel-Fits Kernel.matmul invocation =
      search (arms, matmul-Fits platform allocation capacity size) depth 12
  run_kernel-Fits Kernel.matmul_bias invocation =
      search (arms, matmul_bias-Fits platform allocation capacity size) depth 12
  run_kernel-Fits Kernel.matmul_residual invocation =
      search (arms, matmul_residual-Fits platform allocation capacity size) depth 12
  run_kernel-Fits Kernel.gated_matmul invocation =
      search (arms, gated_matmul-Fits platform allocation capacity size) depth 12
  run_kernel-Fits Kernel.silu_mul invocation =
      search (arms, silu_mul-Fits platform allocation capacity size) depth 12
  run_kernel-Fits Kernel.embedding invocation =
      search (arms, embedding_lookup-Fits platform allocation capacity size) depth 12
  run_kernel-Fits Kernel.rmsnorm invocation =
      search (arms, rmsnorm-Fits platform allocation capacity size) depth 12
  run_kernel-Fits Kernel.rope invocation = run_rope-Fits invocation
  run_kernel-Fits Kernel.attention invocation = run_attention-Fits invocation
  run_kernel-Fits Kernel.softmax invocation =
      search (arms, softmax_rows-Fits platform allocation capacity size) depth 12
  run_kernel-Fits Kernel.silu invocation =
      search (arms, silu-Fits platform allocation capacity size) depth 12
  run_kernel-Fits Kernel.add invocation =
      search (arms, add-Fits platform allocation capacity size) depth 12
  run_kernel-Fits Kernel.mul invocation =
      search (arms, mul-Fits platform allocation capacity size) depth 12
  run_kernel-Fits Kernel.concat invocation =
      search (arms, concat-Fits platform allocation capacity size) depth 12
  run_kernel-Fits Kernel.residual_add invocation =
      search (arms, residual_add-Fits platform allocation capacity size) depth 12
  run_kernel-Fits Kernel.add_half invocation = run_half-Fits HalfOp.add_op invocation
  run_kernel-Fits Kernel.mul_half invocation = run_half-Fits HalfOp.mul_op invocation
