-- ===== src/Advertisements.antt =====
-- What the Provider advertises of its Kernels (`src/advertisements.rs`). An advertisement is what the
-- source sets of the Runtime's `KernelAdvertisement`; the rest keeps the Runtime's defaults.
pub mod Laws
pub mod Half
mod Tests
use Prim.Native.String.{◌++◌}
use magnetar_provider_cuda.Base.{
  ℕ, String, Bool, true, false, ◌||◌, if◌then◌else◌, Option, none, some, List, [], ◌∷◌,
}
use magnetar_provider_cuda.Base.Eq.{string_eq}
use magnetar_provider_cuda.Executor.State.{DType, float32, float16, brain_float16}

-- `OperatorFamily`, the families that the source names.
pub data OperatorFamily : Type 0 where
  linear_algebra activation tensor normalization position_encoding attention : OperatorFamily

-- `OperatorId::magnetar(name, 1, family)`
pub record OperatorId : Type 0 where
  pub name : String
  pub version : ℕ
  pub family : OperatorFamily

-- `KernelId`; the Kernel version is always 1.0.0, the operator's range exactly version 1, and the
-- implementation family `Cuda`.
pub record KernelId : Type 0 where
  pub provider : String
  pub name : String
  pub operator : OperatorId
  pub conformance_profile : String
  pub features : List String

pub data TensorLayoutKind : Type 0 where
  contiguous : TensorLayoutKind

pub data KernelMemoryClass : Type 0 where
  device : KernelMemoryClass

pub data KernelCancellationSupport : Type 0 where
  timeout_only : KernelCancellationSupport

pub record KernelAdvertisement : Type 0 where
  pub id : KernelId
  pub input_dtypes : List DType
  pub output_dtypes : List DType
  pub layouts : List TensorLayoutKind
  pub memory_classes : List KernelMemoryClass
  pub devices : List String
  pub cancellation : KernelCancellationSupport
  pub rank : Option ℕ

abbrev pub key_count_feature : String
key_count_feature = "key-count"

abbrev pub cuda_conformance_profile : String
cuda_conformance_profile = "cuda-conformance-v1"

-- `matches!(name, "matmul" | "rope" | "attention" | "softmax")`
abbrev pub has_rank_two : String → Bool
has_rank_two name =
    string_eq.beq name "matmul"
    || string_eq.beq name "rope"
    || string_eq.beq name "attention"
    || string_eq.beq name "softmax"

unfoldable pub cuda_kernel_id : OperatorId → String → String → KernelId
cuda_kernel_id operator name provider_name = record {
  provider = provider_name;
  name = name;
  operator = operator;
  conformance_profile = cuda_conformance_profile;
  features = [];
}

-- `id.features.insert(..)`
abbrev with_feature : String → KernelAdvertisement → KernelAdvertisement
with_feature feature a = record a { id = record a.id { features = feature ∷ a.id.features } }

-- `ROPE_BANDED_FREQUENCY_SCALING_FEATURE` of the Runtime, and the rank that its
-- `KernelAdvertisement::new` sets.
module _ (banded_feature : String) (default_rank : Option ℕ) where
  unfoldable pub baseline_advertisement :
      String → OperatorFamily → String → String → KernelAdvertisement
  unfolding cuda_kernel_id
  baseline_advertisement name family device_id provider_name =
      let operator : OperatorId = record { name = name; version = 1; family = family } in
      record {
        id = cuda_kernel_id operator name provider_name;
        input_dtypes = float32 ∷ [];
        output_dtypes = float32 ∷ [];
        layouts = contiguous ∷ [];
        memory_classes = KernelMemoryClass.device ∷ [];
        devices = device_id ∷ [];
        cancellation = timeout_only;
        rank = if has_rank_two name then some 2 else default_rank;
      }

  unfoldable pub half_precision_advertisement :
      String → OperatorFamily → String → String → KernelAdvertisement
  unfolding cuda_kernel_id
  half_precision_advertisement base_name family device_id provider_name =
      let operator : OperatorId = record { name = base_name; version = 1; family = family } in
      record {
        id = cuda_kernel_id operator (base_name ++ "-half") provider_name;
        input_dtypes = float16 ∷ brain_float16 ∷ [];
        output_dtypes = float16 ∷ brain_float16 ∷ [];
        layouts = contiguous ∷ [];
        memory_classes = KernelMemoryClass.device ∷ [];
        devices = device_id ∷ [];
        cancellation = timeout_only;
        rank = default_rank;
      }

  unfoldable pub cuda_kernel_advertisements : String → String → List KernelAdvertisement
  unfolding baseline_advertisement half_precision_advertisement
  cuda_kernel_advertisements device_id provider_name =
      let baseline = λ (name : String) (family : OperatorFamily).
        baseline_advertisement name family device_id provider_name in
      let half = λ (name : String) (family : OperatorFamily).
        half_precision_advertisement name family device_id provider_name in
      baseline "matmul" linear_algebra
      ∷ baseline "matmul-bias" linear_algebra
      ∷ baseline "matmul-residual" linear_algebra
      ∷ baseline "silu-mul" activation
      ∷ baseline "gated-matmul" linear_algebra
      ∷ baseline "embedding" tensor
      ∷ baseline "rmsnorm" normalization
      ∷ with_feature banded_feature (baseline "rope" position_encoding)
      ∷ with_feature key_count_feature (baseline "attention" OperatorFamily.attention)
      ∷ baseline "softmax" activation
      ∷ baseline "silu" activation
      ∷ baseline "add" tensor
      ∷ baseline "mul" tensor
      ∷ baseline "concat" tensor
      ∷ baseline "kv-write" tensor
      ∷ baseline "residual-add" tensor
      ∷ half "add" tensor
      ∷ half "mul" tensor
      ∷ []
