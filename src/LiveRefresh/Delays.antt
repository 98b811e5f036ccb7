-- ===== src/LiveRefresh/Delays.antt =====
-- The delays between polls (src/lib/live-refresh.ts, `getNextPollDelay`, `getDrawerRefreshInterval`).
-- The numbers of failures and of milliseconds are naturals, as the console counts them.
pub mod Bounds
use distributed_job_platform.Base.{ℕ, ◌*◌, ◌^◌, min, max, Option, none, some, if◌then◌else◌, ◌==◌}

pub get_next_poll_delay : ℕ → ℕ → Option ℕ
get_next_poll_delay base_interval_ms consecutive_failures =
    if base_interval_ms == 0
    then none
    else if consecutive_failures == 0
    then some base_interval_ms
    else some (min (base_interval_ms * min (2 ^ consecutive_failures) 8) 60_000)

pub get_drawer_refresh_interval : ℕ → ℕ
get_drawer_refresh_interval base_interval_ms =
    if base_interval_ms == 0 then 0 else max (base_interval_ms * 2) 15_000
