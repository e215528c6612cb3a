-- ===== src/Executor/Dispatch/Arms.antt =====
-- How the steps of a Kernel's arm behave in the dispatch of `src/executor.rs`, one rule for each way to
-- build a step.
use magnetar_provider_cuda.Base.{
  ◌≡◌, refl, arith, ◌⊎◌, inl, inr, ℕ, String, Bool, true, false, if◌then◌else◌, Option, none, some,
  Result, ok, err, ⊤, pure, fail, gets, lift, ok_or, ◌>>=◌, ◌>>◌, Result-cases, get_elem?, lookup,
}
use magnetar_provider_cuda.Base.Eq.{string_eq}
use magnetar_provider_cuda.Error.{CudaError, KernelError, to_kernel_error}
use magnetar_provider_cuda.Kernels.State.{KernelsAction}
use magnetar_provider_cuda.Executor.State.{
  Executor, ExecutorAction, kernel_call, KernelInvocation, Attributes, Resource,
}
use magnetar_provider_cuda.Executor.Attributes.{
  require_f32_accumulation, half_dtype_from_descriptor, check_position_mode, position_offset_of,
  rotation_pairing_of, check_mask_kind,
}
use magnetar_provider_cuda.Executor.Dispatch.{input_buffer, input_resource_id}

abbrev pub is_not_found_error : KernelError → Bool
is_not_found_error KernelError.kernel_not_found = true
is_not_found_error _ = false

abbrev pub is_not_found : {A : Type 0} → Result KernelError A → Bool
is_not_found (ok _) = false
is_not_found (err e) = is_not_found_error e

-- A step changes nothing of the executor but its `kernels`, and never says that there is no Kernel.
pub record IsStep {Dev A : Type 0} (m : ExecutorAction KernelError Dev A) : Type 0 where
  pub frame : (e : Executor Dev) → (m e).1 ≡ record e { kernels = (m e).1.kernels }
  pub has_arm : (e : Executor Dev) → is_not_found (m e).0 ≡ false

pub to_kernel_error-found : (c : CudaError) → is_not_found_error (to_kernel_error c) ≡ false
unfolding to_kernel_error
to_kernel_error-found c = ground arith

module _ {Dev : Type 0} {A : Type 0} where
  pub IsStep-lift :
      (r : Result KernelError A) → is_not_found r ≡ false → IsStep {Dev = Dev} (lift r)
  IsStep-lift r h = record { frame = λ e. ground arith; has_arm = λ e. ground arith }

  pub IsStep-ok_or :
      (o : Option A) (c : KernelError)
      → is_not_found_error c ≡ false
      → IsStep {Dev = Dev} (ok_or o c)
  IsStep-ok_or o c h = record { frame = λ e. ground arith; has_arm = λ e. ground arith }

  pub IsStep-kernel_call : (m : KernelsAction Dev A) → IsStep (kernel_call m)
  IsStep-kernel_call m = record {
    frame = λ e. ground arith;
    has_arm = λ e. elim (Result-cases (m e.kernels).0) [
      | inl (a, done) ↦ ground arith
      | inr (c, failed) ↦ ground (arith, to_kernel_error-found c)
    ];
  }

module _ {Dev A B : Type 0} where
  pub IsStep->>= :
      (m : ExecutorAction KernelError Dev A) (f : A → ExecutorAction KernelError Dev B)
      → IsStep m
      → ((a : A) → IsStep (f a))
      → IsStep (m >>= f)
  IsStep->>= m f hm hf = record {
    frame = λ e. elim (Result-cases (m e).0) [
      | inl (a, done) ↦ ground (arith, hm.frame e, (hf a).frame (m e).1)
      | inr (c, failed) ↦ ground (arith, hm.frame e)
    ];
    has_arm = λ e. elim (Result-cases (m e).0) [
      | inl (a, done) ↦ ground (arith, (hf a).has_arm (m e).1)
      | inr (c, failed) ↦ ground (arith, hm.has_arm e)
    ];
  }

module _ {Dev : Type 0} where
  pub IsStep-input_buffer :
      (invocation : KernelInvocation) (index : ℕ)
      → IsStep {Dev = Dev} (input_buffer invocation index)
  unfolding input_buffer input_resource_id
  IsStep-input_buffer invocation index = record {
    frame = λ e. ground arith;
    has_arm = λ e. ground arith;
  }

module _ (attributes : Attributes) where
  pub require_f32_accumulation-found : is_not_found (require_f32_accumulation attributes) ≡ false
  unfolding require_f32_accumulation
  require_f32_accumulation-found = ground arith

  pub check_position_mode-found : is_not_found (check_position_mode attributes) ≡ false
  unfolding check_position_mode
  check_position_mode-found = ground arith

  pub position_offset_of-found : is_not_found (position_offset_of attributes) ≡ false
  unfolding position_offset_of
  position_offset_of-found = ground arith

  pub rotation_pairing_of-found : is_not_found (rotation_pairing_of attributes) ≡ false
  unfolding rotation_pairing_of
  rotation_pairing_of-found = ground arith

  pub check_mask_kind-found :
      (causal : Bool) → is_not_found (check_mask_kind attributes causal) ≡ false
  unfolding check_mask_kind
  check_mask_kind-found causal = ground arith

pub half_dtype_from_descriptor-found :
    (r : Resource) → is_not_found (half_dtype_from_descriptor r) ≡ false
unfolding half_dtype_from_descriptor
half_dtype_from_descriptor-found r = ground arith

pub ruleset steps = (
  IsStep-lift, IsStep-ok_or, IsStep-kernel_call, IsStep->>=, IsStep-input_buffer,
  require_f32_accumulation-found, check_position_mode-found, position_offset_of-found,
  rotation_pairing_of-found, check_mask_kind-found, half_dtype_from_descriptor-found, refl,
)
