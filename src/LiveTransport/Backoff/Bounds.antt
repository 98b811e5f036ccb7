-- ===== src/LiveTransport/Backoff/Bounds.antt =====
-- The bounds of the retry delay.
use distributed_job_platform.Base.{ℕ, ◌+◌, ◌*◌, ◌-◌, ◌≤◌, ◌<◌, ◌^◌, min, arith}
use distributed_job_platform.LiveTransport.Backoff.{
  base_delay, jitter, get_backoff_delay, random_steps,
}

jitter-le : (d draw : ℕ) → draw < random_steps → 10 * jitter d draw ≤ 3 * d + 5
unfolding jitter
jitter-le d draw h = grind arith

-- The delay lies between the doubled base and the cap, and the jitter adds at most three tenths of
-- it, rounded.
pub get_backoff_delay_bounds :
    (attempt base_ms cap_ms draw : ℕ)
    → draw < random_steps
    → (min (base_ms * 2 ^ (attempt - 1)) cap_ms ≤ get_backoff_delay attempt base_ms cap_ms draw)
      × (get_backoff_delay attempt base_ms cap_ms draw ≤ cap_ms)
      × (10 * get_backoff_delay attempt base_ms cap_ms draw
          ≤ 13 * min (base_ms * 2 ^ (attempt - 1)) cap_ms + 5)
unfolding get_backoff_delay base_delay
get_backoff_delay_bounds a base cap draw h =
    let j = jitter-le (base_delay a base cap) draw h in omega arith
