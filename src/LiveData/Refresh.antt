-- ===== src/LiveData/Refresh.antt =====
-- Refreshing the console from the API (src/hooks/useDashboardLiveData.ts, `requestJson` and
-- `refreshConsole`). A refresh, its abort controller and its promise have one number; a promise of a
-- request has another. What comes back is an argument: the host settles requests and lets refreshes go on.
pub mod Endings
pub mod History
pub mod Writers
pub mod Sharing
use distributed_job_platform.Base.{
  ℕ, ◌+◌, String, Bool, true, false, not, ◌&&◌, ◌||◌, List, [], ◌∷◌, ◌++◌, Option, none, some,
  is_some, find, keep, any, lookup, insert, remove, truthy, str_eq, ◌==◌, if◌then◌else◌,
}
use distributed_job_platform.Json.{Json}
use distributed_job_platform.Models.Jobs.{Job}
use distributed_job_platform.Models.Snapshot.{
  DashboardSnapshot, Schedule, WorkerStatus, SystemEvent,
}
use distributed_job_platform.Models.Transport.{
  TransportStatus, TransportMode, TransportConnectionState,
}
use distributed_job_platform.Models.Console.{ConsoleData, Clock, Source}
use distributed_job_platform.ConsoleData.{create_console_data_from_api}
use distributed_job_platform.ConsoleData.Stabilizing.{Serializer, text_by, stabilize_console_data}
use distributed_job_platform.LiveData.{has_url}

pub record Payload : Type 0 where
  pub snapshot : DashboardSnapshot
  pub jobs : List Job
  pub schedules : List Schedule
  pub worker_statuses : List WorkerStatus

-- A refresh that is under way: the promises that `Promise.all` waits for.
pub record Refresh : Type 0 where
  pub number : ℕ
  pub quiet : Bool
  pub waits_for : List ℕ

-- A request that went out: its promise and the controller whose signal it has.
pub record Sent : Type 0 where
  pub promise : ℕ
  pub key : String
  pub controller : ℕ

pub record Fetching : Type 0 where
  pub console_data : ConsoleData
  pub loading : Bool
  pub is_refreshing : Bool
  pub global_error : String
  pub last_attempt_at : String
  pub last_successful_at : String
  pub last_fetch_at : String
  pub consecutive_failures : ℕ
  pub current_poll_delay_ms : ℕ
  pub transport_status : TransportStatus
  pub data_signature : String
  pub fetch_promise : Option ℕ
  pub fetch_controller : Option ℕ
  pub request_map : List (String × ℕ)
  pub aborted : List ℕ
  pub under_way : List Refresh
  pub sent : List Sent
  pub next : ℕ

-- What a refresh reads; `payload_value` is the JavaScript value that a payload stands for.
pub record Setting : Type 0 where
  pub live_mode : Bool
  pub resolved_base_url : Option String
  pub clock : Clock
  pub now : ℕ
  pub payload_value : Payload → Json
  pub serialize : Serializer

abbrev pub create_console_payload_signature : Setting → Payload → String
create_console_payload_signature e p = text_by e.serialize.stringify e.payload_value p

pub record RefreshOptions : Type 0 where
  pub quiet : Bool
  pub force : Bool

abbrev is_number : ℕ → ℕ → Bool
is_number n m = m == n

abbrev pub has_number : ℕ → List ℕ → Bool
has_number n = any (is_number n)

abbrev pub is_current_number : Option ℕ → ℕ → Bool
is_current_number none n = false
is_current_number (some m) n = m == n

-- A request under a key joins the one that is there; a new one has the signal of the controller.
abbrev pub join_or_send : String → ℕ → Option ℕ → Fetching → Fetching × ℕ
join_or_send key controller (some promise) s = (s, promise)
join_or_send key controller none s = (
  record s {
    request_map = insert key s.next s.request_map;
    sent = record { promise = s.next; key = key; controller = controller } ∷ s.sent;
    next = s.next + 1;
  },
  s.next,
)

unfoldable pub shared_request : String → ℕ → Fetching → Fetching × ℕ
shared_request key controller s = join_or_send key controller (lookup key s.request_map) s

-- The requests that one refresh makes, in their order.
abbrev pub request_keys : List String
request_keys =
    "dashboard-snapshot" ∷ "dashboard-jobs" ∷ "dashboard-schedules" ∷ "dashboard-workers" ∷ []

unfoldable pub request_all : List String → ℕ → Fetching → Fetching × List ℕ
request_all [] controller s = (s, [])
request_all (key ∷ keys) controller s =
    let (t, promise) = shared_request key controller s in
    let (u, promises) = request_all keys controller t in (u, promise ∷ promises)

abbrev pub abort_current : Option ℕ → Fetching → Fetching
abort_current none s = s
abort_current (some controller) s = record s { aborted = controller ∷ s.aborted }

abbrev pub one_at_least : ℕ → ℕ
one_at_least n = if n == 0 then 1 else n

abbrev pub refuse_url : Bool → Fetching → Fetching
refuse_url quiet s = record s {
  loading = false;
  is_refreshing = quiet && s.is_refreshing;
  current_poll_delay_ms = 0;
  global_error =
      "API base URL is invalid. Live data is paused until the connection settings are corrected.";
  transport_status = record (s.transport_status) {
    mode = TransportMode.offline;
    state = TransportConnectionState.offline;
    degraded_reason = "API base URL is invalid.";
    last_error = "API base URL is invalid.";
  };
  consecutive_failures = one_at_least s.consecutive_failures;
}

-- The controller takes the first fresh number.
abbrev pub open_refresh : Bool → Fetching → Fetching
open_refresh quiet s = record (abort_current s.fetch_controller s) {
  fetch_controller = some s.next;
  next = s.next + 1;
  loading = if truthy s.last_successful_at then s.loading else true;
  is_refreshing = if truthy s.last_successful_at && not quiet then true else s.is_refreshing;
}

abbrev pub launch : Bool → ℕ → Fetching × List ℕ → Fetching
launch quiet number (s, promises) = record s {
  fetch_promise = some number;
  under_way = record { number = number; quiet = quiet; waits_for = promises } ∷ s.under_way;
}

abbrev pub start_refresh : Bool → Fetching → Fetching
start_refresh quiet s = launch quiet s.next (request_all request_keys s.next (open_refresh quiet s))

abbrev pub note_attempt : Setting → Bool → Fetching → Fetching
note_attempt e quiet s = record s {
  last_attempt_at = if quiet then s.last_attempt_at else e.clock.iso e.now;
}

unfoldable pub refresh_console : Setting → RefreshOptions → Fetching → Fetching
refresh_console e options s =
    let t = note_attempt e options.quiet s in
    if not e.live_mode
    then s
    else if not (has_url e.resolved_base_url)
    then refuse_url options.quiet t
    else if is_some s.fetch_promise && not options.force
    then t
    else start_refresh options.quiet t
