-- ===== src/Device/Laws.antt =====
-- The identifiers of devices (`src/device.rs`).
use text.Mathlib.TextLemmas.{append_cancel_left}
use magnetar_provider_cuda.Base.{ℕ, ◌≡◌, ◌<◌, ◌^◌, ap, sym, ◌∙◌}
use magnetar_provider_cuda.Device.{cuda_device_id}
use magnetar_provider_cuda.Device.Decimal.{show, parse, parse-show}

-- Two ordinals, which are `usize`s, never share a device id.
pub cuda_device_id-injective :
    (m n : ℕ) → m < 2 ^ 64 → n < 2 ^ 64 → cuda_device_id m ≡ cuda_device_id n → m ≡ n
unfolding cuda_device_id
cuda_device_id-injective m n hm hn h =
    sym (parse-show m hm)
    ∙ ap (parse 0) (append_cancel_left "cuda:" (show m) (show n) h)
    ∙ parse-show n hn
