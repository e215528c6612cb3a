-- ===== src/Executor/Api/Laws.antt =====
-- What the Runtime may rely on in a `ProviderExecutionApi`'s tensors (`src/executor.rs`).
use magnetar_provider_cuda.Base.{
  ◌≡◌, if◌then◌else◌, arith, ℕ, String, Bool, true, Option, none, some, is_some, List, Result, ok,
  is_ok, not, ◌&&◌, ⊤, lookup-insert, lookup-remove, Result-cases, inl, inr,
}
use magnetar_provider_cuda.Base.Eq.{string_eq}
use magnetar_provider_cuda.Error.{KernelError}
use magnetar_provider_cuda.Platform.{Platform, HostTensor}
use magnetar_provider_cuda.Kernels.State.{
  Kernels, CudaDeviceBuffer, forbid_in_capture, is_capturing,
}
use magnetar_provider_cuda.Kernels.Transfer.{upload, upload_weight, zeros}
use magnetar_provider_cuda.Executor.State.{Executor, KernelInvocation, TensorValue, MemoryManager}
use magnetar_provider_cuda.Executor.Tensors.{
  write_tensor, write_weight_tensor, write_zeroed_tensor, write_tensor_value, release_tensor,
  resident_shape, read_tensor_value,
}
use magnetar_provider_cuda.Executor.Tensors.Laws.{upload-shape, upload_weight-shape}
use magnetar_provider_cuda.Executor.Dispatch.{FrequencyScaling}
use magnetar_provider_cuda.Executor.Api.{
  ProviderExecutionApi, cuda_execution_api, api_write_tensor, api_write_weight_tensor,
  api_write_zeroed_tensor,
}

-- Either the call succeeds, and exactly `id` has a new shape, or it fails and every shape stays.
abbrev pub Updates :
    {S : Type 0} → ProviderExecutionApi S → Bool → String → Option (List ℕ) → S → S → Type 0
Updates api succeeded id shape s s' =
    (j : String)
    → api.shape_of j s' ≡ (
        if succeeded
        then (if string_eq.beq id j then shape else api.shape_of j s)
        else api.shape_of j s)

-- A store of tensors as a map from names to shapes: what a client may use, whatever holds the tensors.
pub record IsTensorStore {S : Type 0} (api : ProviderExecutionApi S) : Type 0 where
  pub writes :
      (id : String) (tensor : HostTensor) (s : S)
      → let (r, s') = api.write id tensor s in Updates api (is_ok r) id (some tensor.shape) s s'
  pub writes_weight :
      (id : String) (tensor : HostTensor) (s : S)
      → let (r, s') = api.write_weight id tensor s in
        Updates api (is_ok r) id (some tensor.shape) s s'
  pub writes_zeroed :
      (id : String) (shape : List ℕ) (s : S)
      → let (r, s') = api.write_zeroed id shape s in Updates api (is_ok r) id (some shape) s s'
  pub frees :
      (id : String) (s : S)
      → let (r, s') = api.free id s in
        (r ≡ ok (is_some (api.shape_of id s))) × Updates api true id none s s'
  pub reads_value :
      (id : String) (s : S) → is_some (api.read_value id s) ≡ is_some (api.shape_of id s)
  -- An opaque value is the tensor that is there already.
  pub writes_back :
      (id : String) (s : S)
      → let (r, s') = api.write_value id TensorValue.opaque_value s in
        (is_ok r ≡ is_some (api.shape_of id s)) × (s' ≡ s)

module _ {Dev Mem : Type 0} (platform : Platform Dev) (scaling : FrequencyScaling)
    (manager : MemoryManager Mem) (validate : KernelInvocation → Result KernelError ⊤) where
  zeros-shape :
      (shape : List ℕ) (k : Kernels Dev) (b : CudaDeviceBuffer)
      → (zeros platform shape k).0 ≡ ok b
      → b.shape ≡ shape
  unfolding zeros forbid_in_capture
  zeros-shape shape k b h = ground arith

  -- The executor's implementation of the interface is a store of tensors: a write in full, as a weight
  -- or zeroed gives exactly its resource the new shape, or fails and changes no shape; a release says
  -- whether there was such a tensor and removes exactly it; a value can be read exactly when there is a
  -- shape; writing back an opaque value changes nothing, and succeeds exactly when there is a shape.
  pub cuda_execution_api-IsTensorStore :
      IsTensorStore (cuda_execution_api platform scaling manager validate)
  unfolding cuda_execution_api api_write_tensor api_write_weight_tensor api_write_zeroed_tensor
      write_tensor write_weight_tensor write_zeroed_tensor write_tensor_value release_tensor
      resident_shape read_tensor_value
  cuda_execution_api-IsTensorStore = record {
    writes = λ id tensor (e, memory) j. elim (Result-cases (upload platform tensor e.kernels).0) [
      | inl (b, made) ↦
          ground
            (arith, upload-shape platform tensor e.kernels b made, lookup-insert id j b e.storage)
      | inr (error, failed) ↦ ground arith
    ];
    writes_weight = λ id tensor (e, memory) j.
        elim (Result-cases (upload_weight platform tensor e.kernels).0) [
          | inl (b, made) ↦ ground (
            arith,
            upload_weight-shape platform tensor e.kernels b made,
            lookup-insert id j b e.storage,
          )
          | inr (error, failed) ↦ ground arith
        ];
    writes_zeroed = λ id shape (e, memory) j.
        elim (Result-cases (zeros platform shape e.kernels).0) [
          | inl (b, made) ↦
              ground (arith, zeros-shape shape e.kernels b made, lookup-insert id j b e.storage)
          | inr (error, failed) ↦ ground arith
        ];
    frees = λ id (e, memory). (ground arith, λ j. ground (arith, lookup-remove id j e.storage));
    reads_value = λ id (e, memory). ground arith;
    writes_back = λ id (e, memory). (ground arith, ground arith);
  }

  -- A write through the interface succeeds exactly when no capture runs and the device takes the values:
  -- nothing else can make it fail, and a write in a capture is refused.
  pub api_write_tensor-is_ok :
      (id : String) (tensor : HostTensor) (e : Executor Dev)
      → is_ok (api_write_tensor platform scaling manager validate id tensor e).0 ≡ (
          not (is_capturing e.kernels) && is_ok (platform.clone_htod tensor.values e.kernels.dev).0)
  unfolding api_write_tensor write_tensor upload forbid_in_capture
  api_write_tensor-is_ok id tensor e = ground arith
