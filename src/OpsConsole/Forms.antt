-- ===== src/OpsConsole/Forms.antt =====
-- The forms of the console: their checks and the bodies of their requests (src/components/OpsConsole.tsx,
-- `validateJobForm`, `validateScheduleForm`, `requestBody`, `scheduleBody`), with `safeJsonParse` and
-- `friendlyInlineError` of src/lib/safe.ts. `JSON.parse` is a parameter, whose failure is its message.
pub mod Checks
use distributed_job_platform.Base.{
  ℕ, String, Bool, true, false, not, ◌&&◌, ◌||◌, List, [], ◌∷◌, Option, none, some, length, keep,
  min, ltb, leb, truthy, or_text, trim, append, insert, is_space, split_by, str_eq, if◌then◌else◌,
}
use distributed_job_platform.Json.{Json, null, boolean, number, text, array, object}
use distributed_job_platform.ApiParsers.{Result, ok, failed}
use distributed_job_platform.Safe.Drafts.{
  JobDraft, Host, Whole, nonneg, negative, Extended, finite, infinite, minus_infinite, at_least,
  clamp, parse_dependency_ids,
}
use distributed_job_platform.Models.Snapshot.{Amount, amount, unbounded}
use distributed_job_platform.OpsConsole.Controls.{ScheduleBody, request_tenant_id, request_type}

pub record ScheduleDraft : Type 0 where
  pub name : String
  pub cron_expression : String
  pub queue : String
  pub type : String
  pub priority : String
  pub max_attempts : String
  pub timeout_seconds : String
  pub timezone : String
  pub enabled : Bool
  pub payload : String

pub record Parsed : Type 0 where
  pub value : Option Json
  pub error : String

abbrev parsed_of : Result Json → Parsed
parsed_of (ok v) = record { value = some v; error = "" }
parsed_of (failed message) = record { value = none; error = message }

unfoldable pub safe_json_parse : (String → Result Json) → String → Parsed
safe_json_parse parse input =
    if truthy (trim input)
    then parsed_of (parse (trim input))
    else record { value = none; error = "" }

-- A value that is not falsy; `JSON.parse` gives no NaN.
abbrev pub is_truthy : Json → Bool
is_truthy null = false
is_truthy (boolean b) = b
is_truthy (number s) = not (str_eq s "0")
is_truthy (text s) = truthy s
is_truthy _ = true

abbrev pub has_value : Option Json → Bool
has_value none = false
has_value (some v) = is_truthy v

pub friendly_inline_error : String → String → String
friendly_inline_error field error =
    if str_eq field "payload"
    then append "Payload JSON is invalid: " error
    else if str_eq field "cronExpression"
    then "Cron expressions require five space-separated fields."
    else if str_eq field "scheduledAt"
    then "Provide a valid future timestamp."
    else error

-- `if (condition) errors[field] = message`.
unfoldable pub note_if : Bool → String → String → List (String × String) → List (String × String)
note_if condition field message errors = if condition then insert field message errors else errors

-- `Number(x) || fallback`: NaN and 0 are falsy, the infinities are not.
abbrev pub number_or_else : Option Extended → Whole → Extended
number_or_else none fallback = finite fallback
number_or_else (some (finite (nonneg ℕ.zero))) fallback = finite fallback
number_or_else (some n) fallback = n

-- `Math.max(n, low)` and `clamp` for a low that is not negative.
abbrev pub amount_at_least : ℕ → Extended → Amount
amount_at_least low (finite n) = amount (at_least low n)
amount_at_least low infinite = unbounded
amount_at_least low minus_infinite = amount low

abbrev pub clamp_extended : Extended → ℕ → ℕ → ℕ
clamp_extended (finite n) low high = clamp n low high
clamp_extended infinite low high = high
clamp_extended minus_infinite low high = min low high

-- `Number(x) < 0 || Number(x) > 9`.
abbrev pub is_off_scale : Option Extended → Bool
is_off_scale none = false
is_off_scale (some (finite (negative n))) = true
is_off_scale (some (finite (nonneg n))) = ltb 9 n
is_off_scale (some infinite) = true
is_off_scale (some minus_infinite) = true

abbrev pub is_past : ℕ → Option ℕ → Bool
is_past now none = true
is_past now (some t) = leb t now

pub record JobForm : Type 0 where
  pub errors : List (String × String)
  pub payload : Option Json
  pub dedupe_window_seconds : ℕ
  pub dependencies : List String

unfoldable pub job_form_errors : Host → String → JobDraft → List (String × String)
job_form_errors host payload_error draft =
    let typed = note_if (not (truthy (trim draft.type))) "type" "Job type is required." [] in
    let owned =
      note_if (not (truthy (trim draft.tenant_id))) "tenantId" "Tenant is required." typed in
    let read =
      note_if (truthy payload_error) "payload" (friendly_inline_error "payload" payload_error)
        owned in
    let ranked =
      note_if (is_off_scale (host.number_of draft.priority)) "priority"
        "Priority must stay between 0 and 9." read in
    note_if (truthy (trim draft.scheduled_at) && is_past host.now (host.time_of draft.scheduled_at))
      "scheduledAt" (friendly_inline_error "scheduledAt" "scheduledAt") ranked

unfoldable pub validate_job_form : (String → Result Json) → Host → JobDraft → JobForm
validate_job_form parse host draft =
    let result = safe_json_parse parse draft.payload in
    record {
      errors = job_form_errors host result.error draft;
      payload = result.value;
      dedupe_window_seconds =
          clamp_extended (number_or_else (host.number_of draft.dedupe_window_seconds) (nonneg 0)) 0
            86400;
      dependencies = parse_dependency_ids draft.dependencies;
    }

pub record ScheduleForm : Type 0 where
  pub errors : List (String × String)
  pub payload : Option Json

-- `split(/\s+/)`: a run of white space gives empty texts here, which `filter(Boolean)` drops.
abbrev pub cron_fields : String → List String
cron_fields expression = keep truthy (split_by is_space (trim expression))

unfoldable pub schedule_form_errors : String → ScheduleDraft → List (String × String)
schedule_form_errors payload_error draft =
    let named = note_if (not (truthy (trim draft.name))) "name" "Schedule name is required." [] in
    let timed =
      note_if (ltb (length (cron_fields draft.cron_expression)) 5) "cronExpression"
        (friendly_inline_error "cronExpression" "cronExpression") named in
    let typed = note_if (not (truthy (trim draft.type))) "type" "Job type is required." timed in
    note_if (truthy payload_error) "payload" (friendly_inline_error "payload" payload_error) typed

unfoldable pub validate_schedule_form : (String → Result Json) → ScheduleDraft → ScheduleForm
validate_schedule_form parse draft =
    let result = safe_json_parse parse draft.payload in
    record { errors = schedule_form_errors result.error draft; payload = result.value }

-- A form is sent when it has no error and its payload is a value that is not falsy.
abbrev pub is_empty : List (String × String) → Bool
is_empty [] = true
is_empty (e ∷ es) = false

-- The body of a submission; a field that reads `undefined` is `none`.
pub record JobRequest : Type 0 where
  pub type : String
  pub queue : String
  pub tenant_id : String
  pub priority : ℕ
  pub max_attempts : Amount
  pub timeout_seconds : Amount
  pub delay_seconds : Amount
  pub scheduled_at : Option String
  pub schema_version : ℕ
  pub workflow_id : Option String
  pub dependencies : Option (List String)
  pub dependency_policy : Option String
  pub idempotency_key : Option String
  pub dedupe_window_seconds : ℕ
  pub payload : Json

abbrev pub given : String → Option String
given s = if truthy s then some s else none

-- `new Date(text).toISOString()`, which throws on a text that is no instant; the form has an error then.
abbrev iso_of : Host → Option ℕ → Option String
iso_of host none = none
iso_of host (some t) = some (host.iso t)

unfoldable pub job_request : Host → JobDraft → JobForm → Json → JobRequest
job_request host draft form payload = record {
  type = request_type draft;
  queue = or_text (trim draft.queue) "default";
  tenant_id = request_tenant_id draft;
  priority = clamp_extended (number_or_else (host.number_of draft.priority) (nonneg 5)) 0 9;
  max_attempts = amount_at_least 1 (number_or_else (host.number_of draft.max_attempts) (nonneg 5));
  timeout_seconds =
      amount_at_least 0 (number_or_else (host.number_of draft.timeout_seconds) (nonneg 0));
  delay_seconds =
      amount_at_least 0 (number_or_else (host.number_of draft.delay_seconds) (nonneg 0));
  scheduled_at =
      if truthy (trim draft.scheduled_at)
      then iso_of host (host.time_of draft.scheduled_at)
      else none;
  schema_version = 1;
  workflow_id = given (trim draft.workflow_id);
  dependencies = if ltb 0 (length form.dependencies) then some form.dependencies else none;
  dependency_policy = if ltb 0 (length form.dependencies) then some "block" else none;
  idempotency_key = given (trim draft.idempotency_key);
  dedupe_window_seconds = form.dedupe_window_seconds;
  payload = payload;
}

unfoldable pub schedule_body : Host → ScheduleDraft → Json → ScheduleBody
schedule_body host draft payload = record {
  name = trim draft.name;
  cron_expression = trim draft.cron_expression;
  queue = or_text (trim draft.queue) "default";
  type = trim draft.type;
  payload = payload;
  priority = clamp_extended (number_or_else (host.number_of draft.priority) (nonneg 5)) 0 9;
  max_attempts = amount_at_least 1 (number_or_else (host.number_of draft.max_attempts) (nonneg 5));
  timeout_seconds =
      amount_at_least 0 (number_or_else (host.number_of draft.timeout_seconds) (nonneg 0));
  enabled = draft.enabled;
  timezone = or_text (trim draft.timezone) "UTC";
}
