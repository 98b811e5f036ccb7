-- ===== src/Safe/Drafts.antt =====
-- Jobs made from drafts (src/lib/safe.ts, `createJobFromDraft`, `parseDependencyIds`, `clamp`,
-- `asNumber`). `Number` and `new Date` read a text; the numbers of a draft are whole,
-- or infinite, or NaN.
pub mod Bounds
pub mod Tests
use distributed_job_platform.Base.{
  ℕ, zero, suc, ◌+◌, ◌*◌, min, max, String, Bool, true, false, ◌&&◌, ◌||◌, ◌==◌, List, [], ◌∷◌,
  Option, none, some, length, keep, ltb, truthy, or_text, trim, append, decimal, is_space, split_by,
  map, if◌then◌else◌,
}
use distributed_job_platform.Json.{Json}
use distributed_job_platform.Models.Jobs.{Job, JobState, queued, scheduled, blocked}

pub record JobDraft : Type 0 where
  pub type : String
  pub queue : String
  pub tenant_id : String
  pub priority : String
  pub max_attempts : String
  pub timeout_seconds : String
  pub delay_seconds : String
  pub scheduled_at : String
  pub workflow_id : String
  pub dependencies : String
  pub idempotency_key : String
  pub dedupe_window_seconds : String
  pub payload : String

-- A whole number: n, or -(n + 1).
pub data Whole : Type 0 where
  nonneg : ℕ → Whole
  negative : ℕ → Whole

-- A number that is not NaN.
pub data Extended : Type 0 where
  finite : Whole → Extended
  infinite : Extended
  minus_infinite : Extended

-- What the host reads and draws: `Number(text)` where it is not NaN, `new Date(text).getTime()` where
-- it is valid, `toISOString`, the instant and the id.
pub record Host : Type 0 where
  pub number_of : String → Option Extended
  pub time_of : String → Option ℕ
  pub iso : ℕ → String
  pub now : ℕ
  pub id : String

abbrev pub or_number : Option Extended → Whole → Whole
or_number (some (finite n)) fallback = n
or_number _ fallback = fallback

abbrev pub as_number : Host → String → Whole → Whole
as_number host value fallback = or_number (host.number_of value) fallback

-- `Math.max(n, low)` for a low that is not negative.
abbrev pub at_least : ℕ → Whole → ℕ
at_least low (nonneg n) = max n low
at_least low (negative n) = low

abbrev pub clamp : Whole → ℕ → ℕ → ℕ
clamp value low high = min (at_least low value) high

abbrev is_separator : ℕ → Bool
is_separator n = is_space n || n == 44

-- `split(/[\s,]+/)`: a run of separators gives empty texts here, which `filter(Boolean)` drops.
unfoldable pub parse_dependency_ids : String → List String
parse_dependency_ids value = keep truthy (map trim (split_by is_separator (trim value)))

abbrev pub or_instant : Option ℕ → ℕ → ℕ
or_instant none now = now
or_instant (some t) now = t

abbrev pub scheduled_instant : Host → String → ℕ
scheduled_instant host scheduled_at =
    if truthy scheduled_at then or_instant (host.time_of scheduled_at) host.now else host.now

abbrev pub delayed_instant : ℕ → Whole → ℕ → ℕ
delayed_instant now (nonneg (suc n)) run_at = now + suc n * 1000
delayed_instant now _ run_at = run_at

pub run_instant : Host → JobDraft → ℕ
run_instant host draft =
    delayed_instant host.now (as_number host draft.delay_seconds (nonneg 0))
      (scheduled_instant host (trim draft.scheduled_at))

pub draft_state : Host → JobDraft → JobState
draft_state host draft =
    if ltb 0 (length (parse_dependency_ids draft.dependencies))
    then blocked
    else if ltb host.now (run_instant host draft)
    then scheduled
    else queued

unfoldable pub create_job_from_draft : Host → JobDraft → Json → Job
create_job_from_draft host draft payload =
    let dependencies = length (parse_dependency_ids draft.dependencies) in
    record {
      id = host.id;
      type = or_text (trim draft.type) "email.send";
      queue = or_text (trim draft.queue) "default";
      tenant_id = or_text (trim draft.tenant_id) "default";
      payload = payload;
      priority = clamp (as_number host draft.priority (nonneg 5)) 0 9;
      attempts = 0;
      max_attempts = at_least 1 (as_number host draft.max_attempts (nonneg 5));
      state = draft_state host draft;
      schema_version = 1;
      idempotency_key = some (trim draft.idempotency_key);
      workflow_id = some (trim draft.workflow_id);
      parent_job_id = none;
      dependency_policy = some (if ltb 0 dependencies then "block" else "");
      blocked_reason = some (
          if ltb 0 dependencies
          then append "waiting on " (append (decimal dependencies) " dependencies")
          else "");
      created_at = host.iso host.now;
      updated_at = host.iso host.now;
      run_at = host.iso (run_instant host draft);
      started_at = none;
      finished_at = none;
      last_heartbeat_at = none;
      lease_expires_at = none;
      throttle_until = none;
      last_error = none;
      result = none;
      worker_id = none;
      lease_token = none;
      timeout_seconds = at_least 0 (as_number host draft.timeout_seconds (nonneg 60));
      cancel_requested = false;
      execution_ms = 0;
    }
