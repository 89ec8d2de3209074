-- ===== src/Backoff/Bounds.antt =====
-- Bounds and growth of the delay.
use native.Mathlib.Nat.{pow-suc}
use cap_nodejs.Prelude.{ℕ, zero, suc, ◌+◌, ◌-◌, ◌*◌, ◌^◌, ◌≤◌, ◌<◌, ◌≡◌, min, arith}
use cap_nodejs.Backoff.{exp_jitter, default_base_ms, default_max_ms}

pow_pos : (a : ℕ) → 1 ≤ 2 ^ a
pow_pos zero = omega arith
pow_pos (suc a) = omega (arith, pow-suc 2 a, pow_pos a)

-- With a random part below the base, a delay is at most the maximum, at least the doubled base or the
-- maximum, and exceeds the doubled base by less than one base. (The doubled base is the base times two to
-- the power of the attempt.)
pub exp_jitter_bounds :
    (attempt base_ms max_ms rand : ℕ)
    → rand < base_ms
    → (exp_jitter attempt base_ms max_ms rand ≤ max_ms)
      × (min (base_ms * 2 ^ attempt) max_ms ≤ exp_jitter attempt base_ms max_ms rand)
      × (exp_jitter attempt base_ms max_ms rand < base_ms * 2 ^ attempt + base_ms)
unfolding exp_jitter
exp_jitter_bounds attempt base_ms max_ms rand h = omega arith

grows :
    (attempt base_ms rand : ℕ)
    → rand < base_ms
    → base_ms * 2 ^ attempt + rand ≤ base_ms * 2 ^ suc attempt
grows attempt base_ms rand h = grind (arith, pow-suc 2 attempt, pow_pos attempt)

-- No delay is longer than the one after the next failure, whatever the two random parts are.
pub exp_jitter_mono :
    (attempt base_ms max_ms rand rand' : ℕ)
    → rand < base_ms
    → exp_jitter attempt base_ms max_ms rand ≤ exp_jitter (suc attempt) base_ms max_ms rand'
unfolding exp_jitter
exp_jitter_mono attempt base_ms max_ms rand rand' h = omega (arith, grows attempt base_ms rand h)

pow_large : (k n : ℕ) → n ≡ k + 9 → 512 ≤ 2 ^ n
pow_large zero n e = let nine : n ≡ 9 = omega arith in rw nine (omega arith)
pow_large (suc k) zero e = absurd (omega arith)
pow_large (suc k) (suc n) e = omega (arith, pow-suc 2 n, pow_large k n (omega arith))

-- With the engine's settings of one second and five minutes, the delay is five minutes from the tenth attempt
-- on (`attempt` 9).
pub exp_jitter_saturates :
    (attempt rand : ℕ)
    → 9 ≤ attempt
    → exp_jitter attempt default_base_ms default_max_ms rand ≡ default_max_ms
unfolding exp_jitter
exp_jitter_saturates attempt rand h = omega (arith, pow_large (attempt - 9) attempt (omega arith))
