-- ===== src/LiveRefresh/Delays/Bounds.antt =====
-- Bounds of the poll delay (src/lib/live-refresh.ts, `getNextPollDelay`).
use native.Mathlib.Nat.{pow-le-pow_right, mul-le-mul_left, one-le-pow}
use distributed_job_platform.Base.{ℕ, zero, suc, ◌*◌, ◌≤◌, ◌<◌, ◌^◌, ◌≡◌, min, some, arith}
use distributed_job_platform.LiveRefresh.Delays.{get_next_poll_delay}

abbrev factor : ℕ → ℕ
factor f = min (2 ^ f) 8

delay_lem :
    (base f : ℕ)
    → 0 < base
    → base ≤ 60_000
    → get_next_poll_delay base f ≡ some (min (base * factor f) 60_000)
unfolding get_next_poll_delay
delay_lem base zero pos top = ground arith
delay_lem base (suc f) pos top = ground arith

factor_mono : (f g : ℕ) → f ≤ g → (1 ≤ factor f) × (factor f ≤ factor g)
factor_mono f g h =
    let one : 1 ≤ 2 ^ f = one-le-pow f 2 (omega arith) in
    let grows : 2 ^ f ≤ 2 ^ g = pow-le-pow_right (omega arith) h in omega arith

-- The delay for polling intervals of up to a minute: there is one, at least the interval, at most a
-- minute and at most eight intervals, and it never falls as the failures grow.
pub get_next_poll_delay_mono :
    (base f g : ℕ)
    → 0 < base
    → base ≤ 60_000
    → f ≤ g
    → (d : ℕ) × (e : ℕ) × (get_next_poll_delay base f ≡ some d)
      × (get_next_poll_delay base g ≡ some e)
      × (base ≤ d)
      × (d ≤ e)
      × (e ≤ 60_000)
      × (e ≤ 8 * base)
get_next_poll_delay_mono base f g pos top h =
    let (one, grows) = factor_mono f g h in
    let least : base * 1 ≤ base * factor f = mul-le-mul_left base one in
    let step : base * factor f ≤ base * factor g = mul-le-mul_left base grows in
    let most : base * factor g ≤ base * 8 = mul-le-mul_left base (omega arith) in
    (
      min (base * factor f) 60_000,
      min (base * factor g) 60_000,
      delay_lem base f pos top,
      delay_lem base g pos top,
      omega arith,
      omega arith,
      omega arith,
      omega arith,
    )
