-- ===== src/LiveData/Tests.antt =====
-- The health of concrete connections.
use distributed_job_platform.Base.{◌≡◌, refl, true, some}
use distributed_job_platform.Models.Transport.{TransportMode, TransportConnectionState, LiveHealth}
use distributed_job_platform.LiveData.{Connection, transport_mode_of, live_health}

-- Live updates are on, and the transport has fallen back to polling.
abbrev fallen_back : Connection
fallen_back = record {
  live_mode = true;
  live_updates = true;
  resolved_base_url = some "http://localhost";
  poll_interval_ms = 5000;
  consecutive_failures = 0;
  last_successful_at = "2026-01-01T00:00:00.000Z";
  status_mode = TransportMode.polling;
  status_state = TransportConnectionState.polling;
}

fallen_back_health : live_health fallen_back ≡ LiveHealth.degraded
unfolding live_health transport_mode_of
fallen_back_health = refl
