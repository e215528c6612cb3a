-- ===== src/Kernels/Matmul.antt =====
-- The matmul family of `CudaKernels` (`src/kernels.rs`).
mod Grids
mod Terms
mod Product
mod Gated
pub mod Laws
unfoldable pub use Terms.*
unfoldable pub use Grids.*
unfoldable pub use Product.*
unfoldable pub use Gated.*
