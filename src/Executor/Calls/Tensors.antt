-- ===== src/Executor/Calls/Tensors.antt =====
-- Writing, reading and releasing tensors (`src/executor.rs`) keep every stored buffer fitting.
use magnetar_provider_cuda.Base.{
  inl, inr, ℕ, String, none, List, ⊤, map_err, ◌>>=◌, Result-cases, Option-cases, Bool-cases,
  lookup, contains_key,
}
use magnetar_provider_cuda.Base.Eq.{string_eq}
use magnetar_provider_cuda.Platform.{Platform, HostTensor}
use magnetar_provider_cuda.Platform.Allocation.{Allocation, Capacity}
use magnetar_provider_cuda.Kernels.State.{KernelsAction, CudaDeviceBuffer}
use magnetar_provider_cuda.Kernels.Transfer.{upload, upload_weight, zeros, download, download_rows}
use magnetar_provider_cuda.Kernels.Lookup.{greedy_select}
use magnetar_provider_cuda.Kernels.Fits.{Fits}
use magnetar_provider_cuda.Kernels.Fits.Rules.{Makes}
use magnetar_provider_cuda.Kernels.Fits.Transfer.{
  IsValid, upload-Fits, zeros-Fits, upload_weight-Fits, download-IsValid,
}
use magnetar_provider_cuda.Kernels.Fits.Capture.{Runs-download_rows, Runs-greedy_select}
use magnetar_provider_cuda.Executor.State.{Executor, ExecutorAction, on_kernels, TensorValue}
use magnetar_provider_cuda.Executor.Tensors.{
  materialization_error, stored, release_tensor, write_tensor, write_weight_tensor,
  write_zeroed_tensor, write_tensor_value, read_tensor, read_tensor_rows, select_greedy_column,
}
use magnetar_provider_cuda.Executor.Dispatch.Fits.{IsReady}
use magnetar_provider_cuda.Executor.Invocation.Fits.{insert-AllFit, remove-AllFit}

-- A value that a caller may write.
abbrev pub IsValidValue : TensorValue → Type 0
IsValidValue (TensorValue.host tensor) = IsValid tensor
IsValidValue TensorValue.opaque_value = ⊤

module _ {Dev : Type 0} where
  pub on_kernels-IsReady :
      {A : Type 0} {P : A → Type 0} (m : KernelsAction Dev A)
      → Makes none P m
      → (e : Executor Dev) → IsReady none e
      → IsReady none (on_kernels m e).1
  on_kernels-IsReady m h e ready = (ready.0, h.keeps e.kernels ready.1)

  pub release_tensor-IsReady :
      (id : String) (e : Executor Dev) → IsReady none e → IsReady none (release_tensor id e).1
  unfolding release_tensor
  release_tensor-IsReady id e ready = (remove-AllFit id e.storage ready.0, ready.1)

  map_err-IsReady :
      {E F A : Type 0} (f : E → F) (m : ExecutorAction E Dev A) (e : Executor Dev)
      → IsReady none (m e).1
      → IsReady none (map_err f m e).1
  map_err-IsReady f m e ready = elim (Result-cases (m e).0) [
    | inl (a, done) ↦ rw (map_err, done) ready
    | inr (c, failed) ↦ rw (map_err, failed) ready
  ]

module _ {Dev : Type 0} (platform : Platform Dev) (allocation : Allocation platform)
    (capacity : Capacity platform) where
  stored-IsReady :
      (id : String) (m : KernelsAction Dev CudaDeviceBuffer)
      → Makes none Fits m
      → (e : Executor Dev) → IsReady none e
      → IsReady none (stored platform id m e).1
  stored-IsReady id m h e ready = elim (Result-cases (m e.kernels).0) [
    | inl (buffer, done) ↦
        rw (stored, ◌>>=◌, done)
          (
            insert-AllFit id buffer e.storage (h.gives e.kernels buffer ready.1 done) ready.0,
            h.keeps e.kernels ready.1,
          )
    | inr (c, failed) ↦ rw (stored, ◌>>=◌, failed) (ready.0, h.keeps e.kernels ready.1)
  ]

  pub write_tensor-IsReady :
      (id : String) (tensor : HostTensor)
      → IsValid tensor
      → (e : Executor Dev) → IsReady none e
      → IsReady none (write_tensor platform id tensor e).1
  unfolding write_tensor
  write_tensor-IsReady id tensor valid e ready =
      stored-IsReady id (upload platform tensor)
        (upload-Fits platform allocation capacity tensor valid) e ready

  pub write_weight_tensor-IsReady :
      (id : String) (tensor : HostTensor)
      → IsValid tensor
      → (e : Executor Dev) → IsReady none e
      → IsReady none (write_weight_tensor platform id tensor e).1
  unfolding write_weight_tensor
  write_weight_tensor-IsReady id tensor valid e ready =
      stored-IsReady id (upload_weight platform tensor)
        (upload_weight-Fits platform allocation capacity tensor valid) e ready

  pub write_zeroed_tensor-IsReady :
      (id : String) (shape : List ℕ) (e : Executor Dev)
      → IsReady none e
      → IsReady none (write_zeroed_tensor platform id shape e).1
  unfolding write_zeroed_tensor
  write_zeroed_tensor-IsReady id shape e ready =
      map_err-IsReady (λ _. materialization_error) (stored platform id (zeros platform shape)) e
        (stored-IsReady id (zeros platform shape) (zeros-Fits platform allocation capacity shape) e
          ready)

  pub write_tensor_value-IsReady :
      (id : String) (value : TensorValue)
      → IsValidValue value
      → (e : Executor Dev) → IsReady none e
      → IsReady none (write_tensor_value platform id value e).1
  unfolding write_tensor_value
  write_tensor_value-IsReady id (TensorValue.host tensor) valid e ready =
      map_err-IsReady (λ _. materialization_error) (write_tensor platform id tensor) e
        (write_tensor-IsReady id tensor valid e ready)
  write_tensor_value-IsReady id TensorValue.opaque_value valid e ready =
      elim (Bool-cases (contains_key id e.storage)) [
        | inl there ↦ rw (write_tensor_value, there) ready
        | inr absent ↦ rw (write_tensor_value, absent) ready
      ]

  pub read_tensor-IsReady :
      (id : String) (e : Executor Dev) → IsReady none e → IsReady none (read_tensor platform id e).1
  unfolding read_tensor
  read_tensor-IsReady id e ready = elim (Option-cases (lookup id e.storage)) [
    | inl absent ↦ rw (read_tensor, absent) ready
    | inr (buffer, present) ↦
        rw (read_tensor, present)
          (on_kernels-IsReady (download platform buffer)
            (download-IsValid platform allocation capacity buffer) e ready)
  ]

  pub read_tensor_rows-IsReady :
      (id : String) (first_row rows : ℕ) (e : Executor Dev)
      → IsReady none e
      → IsReady none (read_tensor_rows platform id first_row rows e).1
  unfolding read_tensor_rows
  read_tensor_rows-IsReady id first_row rows e ready = elim (Option-cases (lookup id e.storage)) [
    | inl absent ↦ rw (read_tensor_rows, absent) ready
    | inr (buffer, present) ↦
        let (r, e') = on_kernels (download_rows platform buffer first_row rows) e in
        let ready' =
          on_kernels-IsReady (download_rows platform buffer first_row rows)
            (Runs-download_rows platform buffer first_row rows) e ready in
        let ready'' =
          on_kernels-IsReady (download platform buffer)
            (download-IsValid platform allocation capacity buffer) e' ready' in
        elim (Result-cases r) [
          | inr (c, failed) ↦ rw (read_tensor_rows, present, failed) ready'
          | inl (tensor, done) ↦ elim (Option-cases tensor) [
            | inr (found, is) ↦ rw (read_tensor_rows, present, done, is) ready'
            | inl missing ↦ elim (Result-cases (download platform buffer e'.kernels).0) [
              | inl (whole, read) ↦ rw (read_tensor_rows, present, done, missing, read) ready''
              | inr (c, unread) ↦ rw (read_tensor_rows, present, done, missing, unread) ready''
            ]
          ]
        ]
  ]

  pub select_greedy_column-IsReady :
      (logits : String) (row : ℕ) (excluded : List (ℕ × ℕ)) (temperature : ℕ) (e : Executor Dev)
      → IsReady none e
      → IsReady none (select_greedy_column platform logits row excluded temperature e).1
  unfolding select_greedy_column
  select_greedy_column-IsReady logits row excluded temperature e ready =
      elim (Option-cases (lookup logits e.storage)) [
        | inl absent ↦ rw (select_greedy_column, absent) ready
        | inr (buffer, present) ↦
            let m = greedy_select platform buffer row excluded temperature in
            let ready' =
              on_kernels-IsReady m (Runs-greedy_select platform buffer row excluded temperature) e
                ready in
            elim (Result-cases (m e.kernels).0) [
              | inl (column, done) ↦ rw (select_greedy_column, present, done) ready'
              | inr (c, failed) ↦ rw (select_greedy_column, present, failed) ready'
            ]
      ]
