-- ===== src/Executor/Tensors.antt =====
-- The tensors that `CudaExecutor` holds (`src/executor.rs`): writing, reading and releasing them,
-- without the memory manager.
pub mod Laws
pub mod RoundTrip
use magnetar_provider_cuda.Base.{
  ℕ, ◌+◌, ◌*◌, ◌-◌, ◌^◌, ◌≡◌, String, Bool, true, false, ltb, ◌||◌, if◌then◌else◌, Option, none,
  some, is_some, List, [], ◌∷◌, Result, ok, err, to_option, ⊤, Action, pure, fail, ◌>>=◌, ◌>>◌,
  map_err, lookup, insert, remove, contains_key, take, drop, length,
}
use magnetar_provider_cuda.Base.Eq.{Eq, string_eq}
use magnetar_provider_cuda.Base.Bits.{u64}
use magnetar_provider_cuda.Error.{CudaError}
use magnetar_provider_cuda.Platform.{Platform, HostTensor}
use magnetar_provider_cuda.Kernels.State.{Kernels, KernelsAction, CudaDeviceBuffer}
use magnetar_provider_cuda.Kernels.Transfer.{upload, zeros, download, download_rows, upload_weight}
use magnetar_provider_cuda.Kernels.Lookup.{greedy_select}
use magnetar_provider_cuda.Executor.State.{
  Executor, ExecutorAction, on_kernels, store, ProviderExecutionError, materialization_failed,
  submit_phase, TensorValue,
}

abbrev pub materialization_error : ProviderExecutionError
materialization_error = record { code = materialization_failed; phase = submit_phase }

-- `data.get(start..end)`
abbrev pub get_range : List ℕ → ℕ → ℕ → Option (List ℕ)
get_range values start end =
    if ltb end start || ltb (length values) end
    then none
    else some (take (end - start) (drop start values))

module _ {Dev : Type 0} where
  -- `CudaExecutor::release_tensor`: whether there was one.
  unfoldable pub release_tensor : String → Executor Dev → Bool × Executor Dev
  release_tensor id e = (contains_key id e.storage, record e { storage = remove id e.storage })

  unfoldable pub read_tensor_value : String → Executor Dev → Option TensorValue
  read_tensor_value id e = if contains_key id e.storage then some TensorValue.opaque_value else none

  unfoldable pub resident_shape : String → Executor Dev → Option (List ℕ)
  resident_shape id e = elim (lookup id e.storage) [ some b ↦ some b.shape | none ↦ none ]

module _ {Dev : Type 0} (platform : Platform Dev) where
  -- A buffer that a call of `self.kernels` makes, stored under `id` when the call succeeds.
  abbrev pub stored : String → KernelsAction Dev CudaDeviceBuffer → ExecutorAction CudaError Dev ⊤
  stored id m = on_kernels m >>= λ buffer e. (ok tt, store id buffer e)

  unfoldable pub write_tensor : String → HostTensor → ExecutorAction CudaError Dev ⊤
  write_tensor id tensor = stored id (upload platform tensor)

  unfoldable pub write_weight_tensor : String → HostTensor → ExecutorAction CudaError Dev ⊤
  write_weight_tensor id tensor = stored id (upload_weight platform tensor)

  unfoldable pub read_tensor : String → Executor Dev → Option HostTensor × Executor Dev
  read_tensor id e = elim (lookup id e.storage) [
    | none ↦ (none, e)
    | some buffer ↦ let (r, e') = on_kernels (download platform buffer) e in (to_option r, e')
  ]

  -- The whole tensor, sliced, when the rows alone cannot be downloaded.
  unfoldable pub sliced_rows : HostTensor → ℕ → ℕ → Option HostTensor
  sliced_rows whole first_row rows = elim whole.shape [
    | _ ∷ (columns ∷ []) ↦
        elim (get_range whole.values (u64 (first_row * columns))
          (u64 ((first_row + rows) * columns))) [
            | some values ↦ platform.new_tensor (rows ∷ columns ∷ []) values
            | none ↦ none
          ]
    | _ ↦ none
  ]

  unfoldable pub read_tensor_rows : String → ℕ → ℕ → Executor Dev → Option HostTensor × Executor Dev
  read_tensor_rows id first_row rows e = elim (lookup id e.storage) [
    | none ↦ (none, e)
    | some buffer ↦
        let (r, e') = on_kernels (download_rows platform buffer first_row rows) e in
        elim r [
          | err _ ↦ (none, e')
          | ok (some tensor) ↦ (some tensor, e')
          | ok none ↦
              let (whole, e'') = on_kernels (download platform buffer) e' in
              elim whole [
                | ok tensor ↦ (sliced_rows tensor first_row rows, e'')
                | err _ ↦ (none, e'')
              ]
        ]
  ]

  unfoldable pub write_tensor_value :
      String → TensorValue → ExecutorAction ProviderExecutionError Dev ⊤
  write_tensor_value id (TensorValue.host tensor) e =
      map_err (λ _. materialization_error) (write_tensor id tensor) e
  write_tensor_value id TensorValue.opaque_value e =
      if contains_key id e.storage then (ok tt, e) else (err materialization_error, e)

  unfoldable pub write_zeroed_tensor : String → List ℕ → ExecutorAction ProviderExecutionError Dev ⊤
  write_zeroed_tensor id shape =
      map_err (λ _. materialization_error) (stored id (zeros platform shape))

  -- `select_greedy_column` of `ProviderExecutionApi`
  unfoldable pub select_greedy_column :
      String → ℕ → List (ℕ × ℕ) → ℕ → Executor Dev → Option ℕ × Executor Dev
  select_greedy_column logits row excluded temperature e = elim (lookup logits e.storage) [
    | none ↦ (none, e)
    | some buffer ↦
        let (r, e') = on_kernels (greedy_select platform buffer row excluded temperature) e in
        elim r [ ok column ↦ (column, e') | err _ ↦ (none, e') ]
  ]
