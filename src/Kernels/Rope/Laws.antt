-- ===== src/Kernels/Rope/Laws.antt =====
-- `rope`'s launch size and its accepted shapes (`src/kernels.rs`).
use magnetar_provider_cuda.Base.{ℕ, ◌*◌, ◌≤◌, ◌<◌, ◌^◌, ◌≡◌, ◌⊎◌, arith, ok, err}
use magnetar_provider_cuda.Error.{shape_unsupported}
use magnetar_provider_cuda.Kernels.Rope.{rope_launch_work_items}

-- For a nonzero half the launch size is the exact product when that fits 32 bits, and an error
-- otherwise, also where a step of the product does not fit 64 bits.
pub rope_launch_work_items_lem :
    (rows head_count half : ℕ)
    → 0 < half
    → ((rows * head_count * half < 2 ^ 32)
        × (rope_launch_work_items rows head_count half ≡ ok (rows * head_count * half)))
      ⊎ ((2 ^ 32 ≤ rows * head_count * half)
          × (rope_launch_work_items rows head_count half ≡ err shape_unsupported))
unfolding rope_launch_work_items
rope_launch_work_items_lem rows head_count half pos = grind arith
