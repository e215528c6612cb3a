-- ===== src/Kernels/State.antt =====
-- The state of `CudaKernels` (`src/kernels.rs`), its device buffers, and the helpers that every
-- Kernel wrapper uses. Methods run one at a time: each mutex is taken and released within one
-- call. The streams and modules are the platform's, and a buffer that is dropped is no event here.
use magnetar_provider_cuda.Base.{
  ℕ, ◌+◌, ◌-◌, ◌^◌, min, String, Bool, true, false, ◌&&◌, not, ◌==◌, if◌then◌else◌, Option, none,
  some, is_some, List, [], ◌∷◌, any, Result, ok, err, ⊤, Action, pure, fail, ◌>>◌, fail_if, modify,
}
use magnetar_provider_cuda.Base.Eq.{string_eq}
use magnetar_provider_cuda.Error.{
  CudaError, of_driver_error, shape_unsupported, dtype_unsupported, capture_unsupported,
}
use magnetar_provider_cuda.Platform.{Slice, Call, Platform, LaunchConfig, Arg}

pub data CudaHalfDType : Type 0 where
  float16 brain_float16 : CudaHalfDType

pub record CudaHalfBuffer : Type 0 where
  pub slice : Slice
  pub shape : List ℕ
  pub dtype : CudaHalfDType

-- `bf16` holds the values of a compact buffer; its `slice` is then a placeholder.
pub record CudaDeviceBuffer : Type 0 where
  pub slice : Slice
  pub shape : List ℕ
  pub bf16 : Option Slice

-- `CudaDeviceBuffer::len`
abbrev pub buffer_len : CudaDeviceBuffer → ℕ
buffer_len b = elim b.bf16 [ some bf16 ↦ bf16.len | none ↦ b.slice.len ]

-- `CudaDeviceBuffer::is_compact`
abbrev pub is_compact : CudaDeviceBuffer → Bool
is_compact b = is_some b.bf16

-- `CudaKernels::address`
abbrev pub buffer_address : CudaDeviceBuffer → ℕ
buffer_address b = elim b.bf16 [ some bf16 ↦ bf16.address | none ↦ b.slice.address ]

-- `CudaKernels::bf16_address`
abbrev pub bf16_address : CudaDeviceBuffer → ℕ
bf16_address b = elim b.bf16 [ some bf16 ↦ bf16.address | none ↦ 0 ]

-- `failure` is what first happened that cannot be captured.
pub record KernelCapture : Type 0 where
  pub advancing : List String
  pub offset : Slice
  pub max_offset : ℕ
  pub failure : Option String
  pub has_embedding : Bool

pub record CapturedStep : Type 0 where
  pub graph : ℕ
  pub offset : Slice
  pub max_offset : ℕ
  pub has_embedding : Bool

-- `tensor_cores` is `tensor_module.is_some()`; `functions` are the names looked up so far; a scratch
-- is the current buffer and the ones it outgrew, the last first.
pub record Kernels (Dev : Type 0) : Type 0 where
  pub dev : Dev
  pub tensor_cores : Bool
  pub upload_count : ℕ
  pub download_count : ℕ
  pub functions : List String
  pub offered_output : Option Slice
  pub capture : Option KernelCapture
  pub embedding_flag : Option Slice
  pub attention_scratch : Option Slice × List Slice
  pub split_scratch : Option Slice × List Slice

abbrev pub u64_max : ℕ
u64_max = 2 ^ 64 - 1

abbrev pub mem_string : String → List String → Bool
mem_string s = any (λ t. string_eq.beq t s)

abbrev pub shape_eq : List ℕ → List ℕ → Bool
shape_eq [] [] = true
shape_eq (a ∷ s) (b ∷ t) = a == b && shape_eq s t
shape_eq _ _ = false

abbrev pub KernelsAction : Type 0 → Type 0 → Type 0
KernelsAction Dev A = Action CudaError (Kernels Dev) A

module _ {Dev : Type 0} where
  -- A driver call followed by `?`.
  abbrev pub call : {A : Type 0} → Call Dev A → KernelsAction Dev A
  call c k =
      let (r, dev) = c k.dev in
      (elim r [ ok a ↦ ok a | err e ↦ err (of_driver_error e) ], record k { dev = dev })

  -- A driver call whose result is kept.
  abbrev pub attempt : {A : Type 0} → Call Dev A → KernelsAction Dev (Result CudaError A)
  attempt c k =
      let (r, dev) = c k.dev in
      (ok (elim r [ ok a ↦ ok a | err e ↦ err (of_driver_error e) ]), record k { dev = dev })

  abbrev pub is_capturing : Kernels Dev → Bool
  is_capturing k = is_some k.capture

  -- The first failure of the capture in progress is kept.
  unfoldable pub forbid_in_capture : String → KernelsAction Dev ⊤
  forbid_in_capture what k = elim k.capture [
    | some capture ↦
        let failure : Option String = elim capture.failure [ some f ↦ some f | none ↦ some what ] in
        (
          err capture_unsupported,
          record k { capture = some (record capture { failure = failure }) },
        )
    | none ↦ (ok tt, k)
  ]

  -- The address of the replay offset for a launch whose attribute advances, else zero; the capture
  -- then allows no offset above `max_offset`.
  unfoldable pub advancing_offset : String → ℕ → KernelsAction Dev ℕ
  advancing_offset attribute max_offset k = elim k.capture [
    | some capture ↦
        if mem_string attribute capture.advancing
        then (let narrowed = record capture { max_offset = min capture.max_offset max_offset } in
            (ok capture.offset.address, record k { capture = some narrowed }))
        else (ok 0, k)
    | none ↦ (ok 0, k)
  ]

  abbrev pub require_f32 : List CudaDeviceBuffer → KernelsAction Dev ⊤
  require_f32 buffers = fail_if (any is_compact buffers) dtype_unsupported

  abbrev pub same_shape_buf : CudaDeviceBuffer → CudaDeviceBuffer → KernelsAction Dev ⊤
  same_shape_buf a b = fail_if (not (shape_eq a.shape b.shape)) shape_unsupported

  unfoldable pub rows_cols_buf : CudaDeviceBuffer → KernelsAction Dev (ℕ × ℕ)
  rows_cols_buf b = elim b.shape [
    | rows ∷ (cols ∷ []) ↦ pure (rows, cols)
    | _ ↦ fail shape_unsupported
  ]

  abbrev pub add_upload : Kernels Dev → Kernels Dev
  add_upload k = record k { upload_count = k.upload_count + 1 }

  abbrev pub add_download : Kernels Dev → Kernels Dev
  add_download k = record k { download_count = k.download_count + 1 }

  -- `CudaKernels::offer_output`, and the guard's `reclaim` and `drop`.
  abbrev pub offer_output : Option Slice → Kernels Dev → Kernels Dev
  offer_output buffer k = record k { offered_output = buffer }

  abbrev pub reclaim : Kernels Dev → Option Slice × Kernels Dev
  reclaim k = (k.offered_output, record k { offered_output = none })

module _ {Dev : Type 0} (platform : Platform Dev) where
  -- `CudaKernels::function`
  unfoldable pub function : String → KernelsAction Dev ⊤
  function name k =
      if mem_string name k.functions
      then (ok tt, k)
      else (do
        call (platform.load_function name)
        modify (λ k'. record k' { functions = name ∷ k'.functions }))
          k

  -- `CudaKernels::tensor_function`: whether there is one.
  unfoldable pub tensor_function : String → Kernels Dev → Bool × Kernels Dev
  tensor_function name k =
      if not k.tensor_cores
      then (false, k)
      else if mem_string name k.functions
      then (true, k)
      else let (r, dev) = platform.load_tensor_function name k.dev in
        elim r [
          | ok _ ↦ (true, record k { dev = dev; functions = name ∷ k.functions })
          | err _ ↦ (false, record k { dev = dev })
        ]

  -- `tensor_function` as a step.
  abbrev pub has_tensor_function : String → KernelsAction Dev Bool
  has_tensor_function name k = let (found, k') = tensor_function name k in (ok found, k')

  -- `CudaKernels::alloc_output`: the offered buffer if it has the length, else a fresh one.
  unfoldable pub alloc_output : ℕ → KernelsAction Dev Slice
  unfolding forbid_in_capture
  alloc_output len k =
      let fresh = (do forbid_in_capture "a device allocation"; call (platform.alloc len)) in
      elim k.offered_output [
        | some slice ↦
            if slice.len == len then (ok slice, record k { offered_output = none }) else fresh k
        | none ↦ fresh k
      ]

  abbrev pub launch : String → List Arg → LaunchConfig → KernelsAction Dev ⊤
  launch name args config =
      call (platform.launch (record { function = name; args = args; config = config }))

  -- A function looked up and launched.
  abbrev pub run : String → List Arg → LaunchConfig → KernelsAction Dev ⊤
  run name args config = do function name; launch name args config
