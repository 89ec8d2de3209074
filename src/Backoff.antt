-- ===== src/Backoff.antt =====
-- The delay between attempts, libs/cap-core/src/engine/backoff.ts.
-- `rand` is the value of `Math.floor(Math.random() * baseMs)`, a number below `base_ms` (if that is not 0).
-- A power too large for a JavaScript number is `Infinity` there, and the minimum is the same.
pub mod Bounds
use cap_nodejs.Prelude.{ℕ, ◌+◌, ◌*◌, ◌^◌, min}

abbrev pub default_base_ms : ℕ
default_base_ms = 1000

abbrev pub default_max_ms : ℕ
default_max_ms = 300000

-- `expJitter`
unfoldable pub exp_jitter : ℕ → ℕ → ℕ → ℕ → ℕ
exp_jitter attempt base_ms max_ms rand = min (base_ms * 2 ^ attempt + rand) max_ms

-- `calculateBackoff`
unfoldable pub calculate_backoff : ℕ → ℕ → ℕ → ℕ → ℕ → ℕ
calculate_backoff retry_count base_ms max_ms now rand =
    now + exp_jitter retry_count base_ms max_ms rand
