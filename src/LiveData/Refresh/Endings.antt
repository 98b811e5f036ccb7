-- ===== src/LiveData/Refresh/Endings.antt =====
-- How a refresh of the console ends (src/hooks/useDashboardLiveData.ts, `refreshConsole`, the request's
-- `finally`, and the effect on `liveMode` where it aborts).
use distributed_job_platform.Base.{
  ℕ, ◌+◌, String, Bool, true, false, not, ◌&&◌, ◌||◌, [], Option, none, some, keep, remove, str_eq,
  ◌==◌, if◌then◌else◌,
}
use distributed_job_platform.Models.Transport.{TransportStatus}
use distributed_job_platform.Models.Console.{ConsoleData, Source}
use distributed_job_platform.ConsoleData.{create_console_data_from_api}
use distributed_job_platform.ConsoleData.Stabilizing.{stabilize_console_data}
use distributed_job_platform.LiveData.Refresh.{
  Fetching, Payload, Refresh, Setting, abort_current, has_number, create_console_payload_signature,
}

-- How `Promise.all` ends.
pub data Ending : Type 0 where
  fulfilled : Payload → Ending
  rejected : String → Ending

abbrev is_live_source : Source → Bool
is_live_source Source.live = true
is_live_source Source.demo = false

abbrev pub next_data : Setting → Payload → ConsoleData → ConsoleData
next_data e p current =
    record (stabilize_console_data e.serialize current (
      create_console_data_from_api e.clock e.now p.snapshot p.jobs p.schedules p.worker_statuses
        (some (if is_live_source current.source then current.events else [])))) {
          inspections = current.inspections;
          queue_controls = current.queue_controls;
          worker_controls = current.worker_controls;
        }

abbrev pub take_payload : Setting → Payload → Fetching → Fetching
take_payload e p s =
    if not (is_live_source s.console_data.source)
      || not (str_eq (create_console_payload_signature e p) s.data_signature)
    then record s {
      data_signature = create_console_payload_signature e p;
      console_data = next_data e p s.console_data;
    }
    else s

abbrev pub after_ending : Setting → Ending → Fetching → Fetching
after_ending e (fulfilled p) s = record (take_payload e p s) {
  last_successful_at = e.clock.iso e.now;
  last_fetch_at = e.clock.iso e.now;
  consecutive_failures = 0;
  global_error = "";
}
after_ending e (rejected message) s = record s {
  global_error = message;
  consecutive_failures = s.consecutive_failures + 1;
}

abbrev pub drop_controller : Option ℕ → ℕ → Option ℕ
drop_controller none number = none
drop_controller (some m) number = if m == number then none else some m

-- The `finally` of a refresh, which is then no longer under way.
abbrev pub close_refresh : Refresh → Fetching → Fetching
close_refresh r s = record s {
  fetch_controller = drop_controller s.fetch_controller r.number;
  fetch_promise = none;
  loading = false;
  is_refreshing = r.quiet && s.is_refreshing;
  under_way = keep (λ (x : Refresh). not (x.number == r.number)) s.under_way;
}

unfoldable pub finish_refresh : Setting → Refresh → Ending → Fetching → Fetching
finish_refresh e r ending s =
    close_refresh r (if has_number r.number s.aborted then s else after_ending e ending s)

-- The `finally` of the request that stands under a key.
unfoldable pub settle_request : String → Fetching → Fetching
settle_request key s = record s { request_map = remove key s.request_map }

-- The switch of the mode, for a refresh: what is under way is aborted.
unfoldable pub abort_for_mode : ConsoleData → TransportStatus → Bool → Fetching → Fetching
abort_for_mode next_console_data status is_loading s = record (abort_current s.fetch_controller s) {
  data_signature = "";
  last_successful_at = "";
  consecutive_failures = 0;
  current_poll_delay_ms = 0;
  global_error = "";
  last_attempt_at = "";
  last_fetch_at = "";
  is_refreshing = false;
  transport_status = status;
  loading = is_loading;
  console_data = next_console_data;
}
