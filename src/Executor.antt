-- ===== src/Executor.antt =====
-- `src/executor.rs`: `CudaExecutor`, by the groups of its methods.
pub mod State
pub mod Observations
pub mod Tensors
pub mod Admission
pub mod Submission
pub mod StepCapture
pub mod Attributes
pub mod Names
pub mod Dispatch
pub mod Invocation
pub mod Admitted
pub mod Api
pub mod Calls
pub mod Tests
