-- ===== src/Kernels/Fits/Rules/Steps.antt =====
-- What one step of a wrapper (`src/kernels.rs`) keeps and gives.
use magnetar_provider_cuda.Base.{
  ◌≡◌, subst, inl, inr, refl, sym, ◌∙◌, arith, ℕ, String, Bool, true, false, if◌then◌else◌, Option,
  none, some, List, [], ◌∷◌, length, Result, ok, err, ⊤, pure, fail, ◌>>=◌, fail_if, ok_or, lift,
  gets, modify, Result-cases,
}
use magnetar_provider_cuda.Error.{CudaError}
use magnetar_provider_cuda.Platform.{Slice, Call, Platform}
use magnetar_provider_cuda.Platform.Allocation.{Allocation, Capacity, HasSize}
use magnetar_provider_cuda.Kernels.State.{
  Kernels, KernelsAction, CudaDeviceBuffer, call, attempt, forbid_in_capture, advancing_offset,
  rows_cols_buf, function, tensor_function, has_tensor_function, add_upload, add_download,
  alloc_output,
}
use magnetar_provider_cuda.Kernels.Shapes.{alloc_output-len}
use magnetar_provider_cuda.Kernels.Fits.{Offers}

pub record Makes {Dev A : Type 0} (offered : Option Slice) (P : A → Type 0)
    (m : KernelsAction Dev A) : Type 0 where
  pub keeps : (k : Kernels Dev) → Offers offered k → Offers offered (m k).1
  pub gives : (k : Kernels Dev) (a : A) → Offers offered k → (m k).0 ≡ ok a → P a

abbrev pub Runs : {Dev A : Type 0} → Option Slice → KernelsAction Dev A → Type 0
Runs {A} offered m = Makes offered (λ (_ : A). ⊤) m

ok-injective : {E A : Type 0} {a b : A} → ◌≡◌ {A = Result E A} (ok a) (ok b) → a ≡ b
ok-injective h = cc

module _ {Dev : Type 0} {offered : Option Slice} where
  module _ {A : Type 0} {P : A → Type 0} where
    pub Makes-pure : (a : A) → P a → Makes {Dev = Dev} offered P (pure a)
    Makes-pure a p = record { keeps = λ k h. h; gives = λ k b h e. subst P (ok-injective e) p }

    pub Makes-fail : (c : CudaError) → Makes {Dev = Dev} {A = A} offered P (fail c)
    Makes-fail c = record { keeps = λ k h. h; gives = λ k b h e. absurd (ground arith) }

    pub Makes-if :
        (b : Bool) (m n : KernelsAction Dev A)
        → Makes offered P m
        → Makes offered P n
        → Makes offered P (if b then m else n)
    Makes-if true m n hm hn = hm
    Makes-if false m n hm hn = hn

  pub weaken :
      {A : Type 0} {P Q : A → Type 0} {m : KernelsAction Dev A}
      → ((a : A) → P a → Q a)
      → Makes offered P m
      → Makes offered Q m
  weaken f h = record { keeps = h.keeps; gives = λ k a o e. f a (h.gives k a o e) }

  pub Runs-call : {A : Type 0} (c : Call Dev A) → Runs offered (call c)
  Runs-call c = record { keeps = λ k h. h; gives = λ k a h e. tt }

  pub Runs-attempt : {A : Type 0} (c : Call Dev A) → Runs offered (attempt c)
  Runs-attempt c = record { keeps = λ k h. h; gives = λ k a h e. tt }

  pub Runs-gets : {A : Type 0} (f : Kernels Dev → A) → Runs offered (gets f)
  Runs-gets f = record { keeps = λ k h. h; gives = λ k a h e. tt }

  pub Runs-lift : {A : Type 0} (r : Result CudaError A) → Runs {Dev = Dev} offered (lift r)
  Runs-lift (ok a) = Makes-pure a tt
  Runs-lift (err c) = Makes-fail c

  pub Runs-forbid_in_capture : (what : String) → Runs {Dev = Dev} offered (forbid_in_capture what)
  unfolding forbid_in_capture
  Runs-forbid_in_capture what = record {
    keeps = λ k h s e. ground (arith, h s);
    gives = λ k a h e. tt;
  }

  pub Runs-advancing_offset :
      (what : String) (n : ℕ) → Runs {Dev = Dev} offered (advancing_offset what n)
  unfolding advancing_offset
  Runs-advancing_offset what n = record {
    keeps = λ k h s e. ground (arith, h s);
    gives = λ k a h e. tt;
  }

  pub Runs-function :
      (platform : Platform Dev) (name : String) → Runs offered (function platform name)
  unfolding function
  Runs-function platform name = record {
    keeps = λ k h s e. ground (arith, h s);
    gives = λ k a h e. tt;
  }

  pub Runs-has_tensor_function :
      (platform : Platform Dev) (name : String) → Runs offered (has_tensor_function platform name)
  unfolding tensor_function
  Runs-has_tensor_function platform name = record {
    keeps = λ k h s e. ground (arith, h s);
    gives = λ k a h e. tt;
  }

  pub Runs-modify :
      (f : Kernels Dev → Kernels Dev)
      → ((k : Kernels Dev) → (f k).offered_output ≡ k.offered_output)
      → Runs offered (modify f)
  Runs-modify f same = record { keeps = λ k h s e. h s (sym (same k) ∙ e); gives = λ k a h e. tt }

  pub Runs-add_upload : Runs {Dev = Dev} offered (modify add_upload)
  Runs-add_upload = Runs-modify add_upload (λ k. refl)

  pub Runs-add_download : Runs {Dev = Dev} offered (modify add_download)
  Runs-add_download = Runs-modify add_download (λ k. refl)

  pub Makes-fail_if :
      (b : Bool) (c : CudaError) → Makes {Dev = Dev} offered (λ _. b ≡ false) (fail_if b c)
  Makes-fail_if true c = Makes-fail c
  Makes-fail_if false c = Makes-pure tt refl

  pub Runs-fail_if : (b : Bool) (c : CudaError) → Runs {Dev = Dev} offered (fail_if b c)
  Runs-fail_if b c = weaken (λ _ _. tt) (Makes-fail_if b c)

  pub Makes-ok_or :
      {A : Type 0} (o : Option A) (c : CudaError)
      → Makes {Dev = Dev} offered (λ a. o ≡ some a) (ok_or o c)
  Makes-ok_or none c = Makes-fail c
  Makes-ok_or (some a) c = Makes-pure a refl

  pub Makes-rows_cols_buf :
      (b : CudaDeviceBuffer)
      → Makes {Dev = Dev} offered (λ rc. b.shape ≡ rc.0 ∷ rc.1 ∷ []) (rows_cols_buf b)
  unfolding rows_cols_buf
  Makes-rows_cols_buf b = record {
    keeps = λ k h s e. ground (arith, h s);
    gives = λ k a h e. ground arith;
  }

  module _ (platform : Platform Dev) (allocation : Allocation platform)
      (capacity : Capacity platform) where
    pub Makes-alloc_zeros :
        (n : ℕ) → Makes offered (λ s. (s.len ≡ n) × HasSize n) (call (platform.alloc_zeros n))
    Makes-alloc_zeros n = record {
      keeps = λ k h. h;
      gives = λ k s h e. (
        allocation.alloc_zeros-len n k.dev s (ground arith),
        capacity.alloc_zeros-size n k.dev s (ground arith),
      );
    }

    pub Makes-clone_htod :
        (values : List ℕ)
        → Makes offered
            (λ s. (s.len ≡ length values) × HasSize (length values))
            (call (platform.clone_htod values))
    Makes-clone_htod values = record {
      keeps = λ k h. h;
      gives = λ k s h e. (
        allocation.clone_htod-len values k.dev s (ground arith),
        capacity.clone_htod-size values k.dev s (ground arith),
      );
    }

    pub Makes-clone_dtod :
        (from : Slice) → Makes offered (λ s. s.len ≡ from.len) (call (platform.clone_dtod from))
    Makes-clone_dtod from = record {
      keeps = λ k h. h;
      gives = λ k s h e. capacity.clone_dtod-len from k.dev s (ground arith);
    }

    -- The offered buffer, or a fresh one.
    pub Makes-alloc_output :
        ((s : Slice) → offered ≡ some s → HasSize s.len)
        → (n : ℕ) → Makes offered (λ s. (s.len ≡ n) × HasSize n) (alloc_output platform n)
    unfolding alloc_output forbid_in_capture
    Makes-alloc_output size n = record {
      keeps = λ k h s e. ground (arith, h s);
      gives = λ k s h e.
          let (len≡, source) = alloc_output-len platform allocation n k s e in
          elim source [
            | inl (given, _, _) ↦ (len≡, subst HasSize len≡ (size s (h s given)))
            | inr (fresh, _) ↦ (len≡, capacity.alloc-size n k.dev s fresh)
          ];
    }

  module _ {A B : Type 0} {Q : A → Type 0} {P : B → Type 0} where
    -- What a step gives is at hand for what follows.
    pub Makes->>= :
        (m : KernelsAction Dev A) (f : A → KernelsAction Dev B)
        → Makes offered Q m
        → ((a : A) → Q a → Makes offered P (f a))
        → Makes offered P (m >>= f)
    Makes->>= m f hm hf = record {
      keeps = λ k h s e. elim (Result-cases (m k).0) [
        | inl (a, done) ↦ (hf a (hm.gives k a h done)).keeps (m k).1 (hm.keeps k h) s (ground arith)
        | inr (c, failed) ↦ hm.keeps k h s (ground arith)
      ];
      gives = λ k b h e. elim (Result-cases (m k).0) [
        | inl (a, done) ↦ (hf a (hm.gives k a h done)).gives (m k).1 b (hm.keeps k h) (ground arith)
        | inr (c, failed) ↦ absurd (ground arith)
      ];
    }
