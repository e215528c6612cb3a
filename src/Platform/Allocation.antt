-- ===== src/Platform/Allocation.antt =====
-- What `src/kernels.rs` relies on in `cudarc`'s allocation: a slice has the length that was asked for.
use magnetar_provider_cuda.Base.{ℕ, ◌≡◌, ◌<◌, ◌^◌, List, some, ok, length, product}
use magnetar_provider_cuda.Platform.{Platform, Slice, HostTensor}

pub record Allocation {Dev : Type 0} (platform : Platform Dev) : Type 0 where
  pub alloc-len : (n : ℕ) (d : Dev) (s : Slice) → (platform.alloc n d).0 ≡ ok s → s.len ≡ n
  pub alloc_zeros-len :
      (n : ℕ) (d : Dev) (s : Slice) → (platform.alloc_zeros n d).0 ≡ ok s → s.len ≡ n
  pub clone_htod-len :
      (values : List ℕ) (d : Dev) (s : Slice)
      → (platform.clone_htod values d).0 ≡ ok s
      → s.len ≡ length values

-- A device of less than 2^32 elements for one buffer (16 GiB), and what the source says of CUDA: no
-- buffer is empty. A copy is as long as what it copies, and `HostTensor::new` refuses a shape that
-- does not have as many elements as there are values.
abbrev pub HasSize : ℕ → Type 0
HasSize n = (0 < n) × (n < 2 ^ 32)

pub record Capacity {Dev : Type 0} (platform : Platform Dev) : Type 0 where
  pub alloc-size : (n : ℕ) (d : Dev) (s : Slice) → (platform.alloc n d).0 ≡ ok s → HasSize n
  pub alloc_zeros-size :
      (n : ℕ) (d : Dev) (s : Slice) → (platform.alloc_zeros n d).0 ≡ ok s → HasSize n
  pub clone_htod-size :
      (values : List ℕ) (d : Dev) (s : Slice)
      → (platform.clone_htod values d).0 ≡ ok s
      → HasSize (length values)
  pub clone_dtod-len :
      (from : Slice) (d : Dev) (s : Slice)
      → (platform.clone_dtod from d).0 ≡ ok s
      → s.len ≡ from.len
  pub new_tensor-IsValid :
      (shape values : List ℕ) (t : HostTensor)
      → platform.new_tensor shape values ≡ some t
      → (t.shape ≡ shape) × (length t.values ≡ product t.shape)
