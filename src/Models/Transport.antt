-- ===== src/Models/Transport.antt =====
-- Transport modes, connection states and the status that the transport manager reports
-- (src/lib/models.ts, lines 14 to 39).
use distributed_job_platform.Base.{ℕ, String}

pub data LiveHealth : Type 0 where
  live degraded reconnecting offline paused demo : LiveHealth

pub data TransportMode : Type 0 where
  websocket sse polling degraded offline demo : TransportMode

pub data TransportConnectionState : Type 0 where
  idle connecting live polling degraded offline paused demo : TransportConnectionState

-- An instant is its ISO text, and the empty text where there is none.
pub record TransportStatus : Type 0 where
  pub mode : TransportMode
  pub state : TransportConnectionState
  pub attempt : ℕ
  pub last_message_at : String
  pub last_failure_at : String
  pub last_error : String
  pub degraded_reason : String
  pub next_retry_at : String

-- The intervals that the console offers: 0, 5000, 15000 and 30000 milliseconds.
pub data PollingPreset : Type 0 where
  off fast medium slow : PollingPreset

pub interval_ms : PollingPreset → ℕ
interval_ms off = 0
interval_ms fast = 5000
interval_ms medium = 15000
interval_ms slow = 30000
