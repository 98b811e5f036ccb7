-- ===== src/LiveTransport/Backoff.antt =====
-- The delay before a retry (src/lib/live-transport.ts, `getBackoffDelay`). `Math.random()` is
-- draw / 2 ^ 53; the products are taken exactly, with no rounding of a double.
pub mod Bounds
use distributed_job_platform.Base.{ℕ, ◌+◌, ◌-◌, ◌*◌, ◌/◌, ◌^◌, min}

abbrev pub random_steps : ℕ
random_steps = 2 ^ 53

-- min(base * 2 ** max(attempt - 1, 0), cap), without the jitter.
pub base_delay : ℕ → ℕ → ℕ → ℕ
base_delay attempt base_ms cap_ms = min (base_ms * 2 ^ (attempt - 1)) cap_ms

-- Math.round(delay * 0.3 * r) for r = draw / 2 ^ 53, as the floor of the value plus one half.
pub jitter : ℕ → ℕ → ℕ
jitter delay draw = (2 * (delay * 3 * draw) + 10 * random_steps) / (20 * random_steps)

pub get_backoff_delay : ℕ → ℕ → ℕ → ℕ → ℕ
unfolding base_delay jitter
get_backoff_delay attempt base_ms cap_ms draw =
    let delay = base_delay attempt base_ms cap_ms in min (delay + jitter delay draw) cap_ms
