-- ===== src/Kernels/Fits/Rules/Then.antt =====
-- What a wrapper (`src/kernels.rs`) keeps and gives after a step, by what the step gives.
use magnetar_provider_cuda.Base.{
  ◌≡◌, arith, ℕ, Bool, false, Option, none, some, List, [], ◌∷◌, length, ⊤, pure, ◌>>=◌, fail_if,
  ok_or,
}
use magnetar_provider_cuda.Error.{CudaError}
use magnetar_provider_cuda.Platform.{Slice, Platform}
use magnetar_provider_cuda.Platform.Allocation.{Allocation, Capacity, HasSize}
use magnetar_provider_cuda.Kernels.State.{
  KernelsAction, CudaDeviceBuffer, call, rows_cols_buf, alloc_output,
}
use magnetar_provider_cuda.Kernels.Fits.{Fits}
use magnetar_provider_cuda.Kernels.Fits.Rules.Steps.{
  Makes, Runs, Makes-fail_if, Makes-ok_or, Makes-rows_cols_buf, Makes-alloc_zeros, Makes-clone_htod,
  Makes-clone_dtod, Makes-alloc_output, Makes->>=,
}

module _ {Dev : Type 0} {offered : Option Slice} {B : Type 0} {P : B → Type 0} where
  -- A step of which only the effect matters.
  pub then_run :
      {A : Type 0} (m : KernelsAction Dev A) (f : A → KernelsAction Dev B)
      → Runs offered m
      → ((a : A) → Makes offered P (f a))
      → Makes offered P (m >>= f)
  then_run m f hm hf = Makes->>= m f hm (λ a _. hf a)

  pub then_value :
      {A : Type 0} (a : A) (f : A → KernelsAction Dev B)
      → Makes offered P (f a)
      → Makes offered P (pure a >>= f)
  then_value a f h = h

  -- A buffer that fits is at hand for what follows.
  pub then_buffer :
      (m : KernelsAction Dev CudaDeviceBuffer) (f : CudaDeviceBuffer → KernelsAction Dev B)
      → Makes offered Fits m
      → ((b : CudaDeviceBuffer) → Fits b → Makes offered P (f b))
      → Makes offered P (m >>= f)
  then_buffer = Makes->>=

  pub then_check :
      (b : Bool) (c : CudaError) (f : ⊤ → KernelsAction Dev B)
      → (b ≡ false → Makes offered P (f tt))
      → Makes offered P (fail_if b c >>= f)
  then_check b c f hf = Makes->>= (fail_if b c) f (Makes-fail_if b c) (λ _ h. hf h)

  pub then_some :
      {A : Type 0} (o : Option A) (c : CudaError) (f : A → KernelsAction Dev B)
      → ((a : A) → o ≡ some a → Makes offered P (f a))
      → Makes offered P (ok_or o c >>= f)
  then_some o c f hf = Makes->>= (ok_or o c) f (Makes-ok_or o c) hf

  pub then_matrix :
      (b : CudaDeviceBuffer) (f : ℕ × ℕ → KernelsAction Dev B)
      → ((rc : ℕ × ℕ) → b.shape ≡ rc.0 ∷ rc.1 ∷ [] → Makes offered P (f rc))
      → Makes offered P (rows_cols_buf b >>= f)
  then_matrix b f hf = Makes->>= (rows_cols_buf b) f (Makes-rows_cols_buf b) hf

  pub then_option :
      {A : Type 0} (m : KernelsAction Dev (Option A)) (f : Option A → KernelsAction Dev B)
      → Runs offered m
      → Makes offered P (f none)
      → ((a : A) → Makes offered P (f (some a)))
      → Makes offered P (m >>= f)
  then_option m f hm hn hs = Makes->>= m f hm (λ o _. cases o)
    where
      cases : (o : Option _) → Makes offered P (f o)
      cases none = hn
      cases (some a) = hs a

  pub Makes-option :
      {A : Type 0} (o : Option A) (m : KernelsAction Dev B) (f : A → KernelsAction Dev B)
      → Makes offered P m
      → ((a : A) → Makes offered P (f a))
      → Makes offered P (elim o [ none ↦ m | some a ↦ f a ])
  Makes-option none m f hm hf = hm
  Makes-option (some a) m f hm hf = hf a

  module _ (platform : Platform Dev) (allocation : Allocation platform)
      (capacity : Capacity platform) where
    pub then_alloc :
        (n : ℕ) (f : Slice → KernelsAction Dev B)
        → ((s : Slice) → (s.len ≡ n) × HasSize n → Makes offered P (f s))
        → Makes offered P (call (platform.alloc n) >>= f)
    then_alloc n f hf =
        Makes->>= (call (platform.alloc n)) f
          (record {
            keeps = λ k h. h;
            gives = λ k s h e. (
              allocation.alloc-len n k.dev s (ground arith),
              capacity.alloc-size n k.dev s (ground arith),
            );
          })
          hf

    pub then_upload :
        (values : List ℕ) (f : Slice → KernelsAction Dev B)
        → ((s : Slice) → (s.len ≡ length values) × HasSize (length values) → Makes offered P (f s))
        → Makes offered P (call (platform.clone_htod values) >>= f)
    then_upload values f hf =
        Makes->>= (call (platform.clone_htod values)) f
          (Makes-clone_htod platform allocation capacity values) hf

    pub then_zeros :
        (n : ℕ) (f : Slice → KernelsAction Dev B)
        → ((s : Slice) → (s.len ≡ n) × HasSize n → Makes offered P (f s))
        → Makes offered P (call (platform.alloc_zeros n) >>= f)
    then_zeros n f hf =
        Makes->>= (call (platform.alloc_zeros n)) f
          (Makes-alloc_zeros platform allocation capacity n) hf

    pub then_copy :
        (from : Slice) (f : Slice → KernelsAction Dev B)
        → ((s : Slice) → s.len ≡ from.len → Makes offered P (f s))
        → Makes offered P (call (platform.clone_dtod from) >>= f)
    then_copy from f hf =
        Makes->>= (call (platform.clone_dtod from)) f
          (Makes-clone_dtod platform allocation capacity from) hf

    pub then_output :
        ((s : Slice) → offered ≡ some s → HasSize s.len)
        → (n : ℕ) (f : Slice → KernelsAction Dev B)
        → ((s : Slice) → (s.len ≡ n) × HasSize n → Makes offered P (f s))
        → Makes offered P (alloc_output platform n >>= f)
    then_output size n f hf =
        Makes->>= (alloc_output platform n) f
          (Makes-alloc_output platform allocation capacity size n) hf
