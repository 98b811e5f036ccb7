-- ===== src/LiveRefresh.antt =====
-- What the live refresh shares (src/lib/live-refresh.ts): event fingerprints here, and in the
-- children the delays, the health of the connection and the text by which values are compared.
pub mod Delays
pub mod Serializing
pub mod Health
pub mod Tests
use distributed_job_platform.Base.{String, Option, none, some, append}
use distributed_job_platform.Models.Jobs.{
  JobState, queued, scheduled, retrying, blocked, throttled, active, completed, failed, canceled,
}
use distributed_job_platform.Models.Snapshot.{SystemEvent}

abbrev pub job_state_text : JobState → String
job_state_text queued = "queued"
job_state_text scheduled = "scheduled"
job_state_text retrying = "retrying"
job_state_text blocked = "blocked"
job_state_text throttled = "throttled"
job_state_text active = "active"
job_state_text completed = "completed"
job_state_text failed = "failed"
job_state_text canceled = "canceled"

-- `value ?? ""`.
abbrev pub or_empty : Option String → String
or_empty none = ""
or_empty (some s) = s

abbrev state_text : Option JobState → String
state_text none = ""
state_text (some s) = job_state_text s

abbrev bar : String → String → String
bar s rest = append s (append "|" rest)

unfoldable pub create_event_fingerprint : SystemEvent → String
create_event_fingerprint e = bar e.kind (
    bar e.timestamp (
      bar (or_empty e.job_id) (
        bar (or_empty e.queue)
          (bar (or_empty e.worker_id) (bar (state_text e.state) (or_empty e.message))))))
