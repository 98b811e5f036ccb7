-- ===== src/LiveRefresh/Serializing/Members.antt =====
-- The fields of a value before and after they are sorted (src/lib/live-refresh.ts, `sortValue`).
use distributed_job_platform.Base.{Option, none, some}
use distributed_job_platform.Json.{Json}
use distributed_job_platform.LiveRefresh.Serializing.{sort_value}

abbrev pub sorted_value : Option Json → Option Json
sorted_value none = none
sorted_value (some v) = some (sort_value v)
