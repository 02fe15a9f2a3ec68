-- ===== src/Opaque/Key.antt =====
-- lib/opaque.h: OPAQUE_GENERATE, OPAQUE_GET_CONTEXT_KEY and OPAQUE_GET_DATA_KEY. The shifted key of
-- the context has no bit in common with the lower half, so `|` adds them; `& OPAQUE_LOWER` takes the
-- remainder by 2 ^ 32.
use cray_pwrapi.Base.{ℕ, ◌+◌, ◌*◌, ◌/◌, ◌%◌, ◌^◌, ◌<◌, ◌≡◌, arith}

unfoldable pub opaque_generate : ℕ → ℕ → ℕ
opaque_generate context_key data_key = context_key * 2 ^ 32 % 2 ^ 64 + data_key % 2 ^ 32

unfoldable pub opaque_get_context_key : ℕ → ℕ
opaque_get_context_key opaque = opaque / 2 ^ 32

unfoldable pub opaque_get_data_key : ℕ → ℕ
opaque_get_data_key opaque = opaque % 2 ^ 32

-- The reference made of two keys below 2 ^ 32, which the keys of a map are, is a 64-bit number, and
-- the two keys can be read back from it.
pub generate-get :
    (context_key data_key : ℕ)
    → context_key < 2 ^ 32
    → data_key < 2 ^ 32
    → (opaque_generate context_key data_key < 2 ^ 64)
      × (opaque_get_context_key (opaque_generate context_key data_key) ≡ context_key)
      × (opaque_get_data_key (opaque_generate context_key data_key) ≡ data_key)
unfolding opaque_generate opaque_get_context_key opaque_get_data_key
generate-get context_key data_key h k = (omega arith, omega arith, omega arith)
