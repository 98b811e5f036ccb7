-- ===== src/LiveRefresh/Tests.antt =====
-- Poll delays at concrete numbers of failures, and a concrete object.
use distributed_job_platform.Json.{Fields, field, end, text, null}
use distributed_job_platform.Base.{ℕ, ◌≤◌, ◌*◌, ◌≡◌, some, arith}
use distributed_job_platform.LiveRefresh.Delays.{get_next_poll_delay}
use distributed_job_platform.LiveRefresh.Delays.Bounds.{get_next_poll_delay_mono}

get_next_poll_delay_mono_example :
    (d : ℕ) × (e : ℕ) × (get_next_poll_delay 15_000 1 ≡ some d)
    × (get_next_poll_delay 15_000 5 ≡ some e)
    × (15_000 ≤ d)
    × (d ≤ e)
    × (e ≤ 60_000)
    × (e ≤ 8 * 15_000)
get_next_poll_delay_mono_example =
    get_next_poll_delay_mono 15_000 1 5 (omega arith) (omega arith) (omega arith)

abbrev two_fields : Fields
two_fields = field "b" (text "x") (field "a" null end)
