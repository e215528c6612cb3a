-- ===== src/Kernels/Fits/Rules.antt =====
-- What a wrapper of `CudaKernels` (`src/kernels.rs`) gives back, one rule for each way to build a step.
mod Steps
mod Then
pub use Steps.*
pub use Then.*

-- Steps of which only the effect matters, and steps that stop or give.
pub ruleset runs = (
  Runs-call, Runs-attempt, Runs-gets, Runs-lift, Runs-forbid_in_capture, Runs-advancing_offset,
  Runs-function, Runs-has_tensor_function, Runs-add_upload, Runs-add_download, Makes-pure,
  Makes-fail, Makes-if, then_run, then_check, then_some, then_matrix,
)
