-- ===== src/Kernels.antt =====
-- `src/kernels.rs`: `CudaKernels`, by the groups of its methods.
pub mod State
pub mod Capture
pub mod Transfer
pub mod Floats
pub mod Elementwise
pub mod Load
pub mod Lookup
pub mod Rope
pub mod Matmul
pub mod Attention
pub mod Shapes
pub mod Fits
pub mod Tests
