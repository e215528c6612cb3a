-- ===== src/Platform.antt =====
-- What the Provider calls and does not contain: the CUDA driver and NVRTC through `cudarc`, and the
-- Runtime's `HostTensor`. The device, with everything in its memory, is a state of the parameter's
-- own type; every driver call may fail, and may change the device when it does.
pub mod Simulated
pub mod Allocation
use magnetar_provider_cuda.Base.{ℕ, Bool, String, List, Option, Result, ⊤}
use magnetar_provider_cuda.Error.{DriverError}

-- A device allocation (`CudaSlice`): where it is and how many elements it holds. Its contents are
-- the device's.
pub record Slice : Type 0 where
  pub address : ℕ
  pub len : ℕ

-- `HostTensor` of the Runtime; a value of `data` is the bit pattern of an `f32`.
pub record HostTensor : Type 0 where
  pub shape : List ℕ
  pub values : List ℕ

-- `LaunchConfig` of `cudarc`.
pub record LaunchConfig : Type 0 where
  pub grid_dim : ℕ × ℕ × ℕ
  pub block_dim : ℕ × ℕ × ℕ
  pub shared_mem_bytes : ℕ

-- An argument of a launch: a buffer, or a number (a float by its pattern, a pointer by its address).
pub data Arg : Type 0 where
  slice : Slice → Arg
  word : ℕ → Arg

pub record Launch : Type 0 where
  pub function : String
  pub args : List Arg
  pub config : LaunchConfig

abbrev pub Call : Type 0 → Type 0 → Type 0
Call Dev A = Dev → Result DriverError A × Dev

pub record Platform (Dev : Type 0) : Type 0 where
  -- `CudaStream::alloc`, uninitialized, and `alloc_zeros`, by element count.
  pub alloc : ℕ → Call Dev Slice
  pub alloc_zeros : ℕ → Call Dev Slice
  -- A fresh allocation that holds the values.
  pub clone_htod : List ℕ → Call Dev Slice
  -- The values into an allocation, from a position on.
  pub memcpy_htod : List ℕ → Slice → ℕ → Call Dev ⊤
  -- The elements of an allocation from a position on, by count.
  pub clone_dtoh : Slice → ℕ → ℕ → Call Dev (List ℕ)
  pub clone_dtod : Slice → Call Dev Slice
  -- All of the first allocation into the second, from a position on.
  pub memcpy_dtod : Slice → Slice → ℕ → Call Dev ⊤
  pub memset_zeros : Slice → Call Dev ⊤
  pub synchronize : Call Dev ⊤
  -- `CudaModule::load_function` of the two modules.
  pub load_function : String → Call Dev ⊤
  pub load_tensor_function : String → Call Dev ⊤
  -- `CudaFunction::set_attribute` of the largest dynamic shared memory: whether it is granted.
  pub set_max_shared : String → ℕ → Dev → Bool
  pub launch : Launch → Call Dev ⊤
  -- `CudaStream::begin_capture`, `end_capture` with the graph's handle if any work was recorded,
  -- and `CudaGraph::launch`.
  pub begin_capture : Call Dev ⊤
  pub end_capture : Call Dev (Option ℕ)
  pub launch_graph : ℕ → Call Dev ⊤
  -- `LaunchConfig::for_num_elems`
  pub for_num_elems : ℕ → LaunchConfig
  -- `HostTensor::new`, `none` for an error.
  pub new_tensor : List ℕ → List ℕ → Option HostTensor
