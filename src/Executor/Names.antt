-- ===== src/Executor/Names.antt =====
-- The Kernel names that `run_invocation_with_offer` of `src/executor.rs` matches on.
use magnetar_provider_cuda.Base.{String, true, [], ◌∷◌, Map, insert}
use magnetar_provider_cuda.Base.Eq.{string_eq}
use magnetar_provider_cuda.Executor.State.{KernelInvocation, KernelResult, Resource, success}

-- The arms of the `match`, and the names that select them.
pub data Kernel : Type 0 where
  matmul matmul_bias matmul_residual gated_matmul silu_mul embedding rmsnorm rope attention
        softmax :
      Kernel
  silu add mul concat residual_add add_half mul_half : Kernel

abbrev pub kernel_names : Map String Kernel
kernel_names =
    ("matmul", Kernel.matmul)
    ∷ ("matmul-bias", Kernel.matmul_bias)
    ∷ ("matmul-residual", Kernel.matmul_residual)
    ∷ ("gated-matmul", Kernel.gated_matmul)
    ∷ ("silu-mul", Kernel.silu_mul)
    ∷ ("embedding", Kernel.embedding)
    ∷ ("rmsnorm", Kernel.rmsnorm)
    ∷ ("rope", Kernel.rope)
    ∷ ("attention", Kernel.attention)
    ∷ ("softmax", Kernel.softmax)
    ∷ ("silu", Kernel.silu)
    ∷ ("add", Kernel.add)
    ∷ ("mul", Kernel.mul)
    ∷ ("concat", Kernel.concat)
    ∷ ("residual-add", Kernel.residual_add)
    ∷ ("add-half", Kernel.add_half)
    ∷ ("mul-half", Kernel.mul_half)
    ∷ []

-- The result of a success whose one output is ready.
abbrev pub with_output : KernelInvocation → Resource → KernelResult
with_output invocation output = record (success invocation.id) {
  output_readiness = insert output.id true [];
  updated_resources = output ∷ [];
}
