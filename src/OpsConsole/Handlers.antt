-- ===== src/OpsConsole/Handlers.antt =====
-- The handlers of the console, in both modes (src/components/OpsConsole.tsx). A handler that calls the
-- API waits with what it does when the call ends: `none` is a call that throws.
pub mod Jobs
pub mod Letters
pub mod Controlling
pub mod Operations
use distributed_job_platform.Base.{
  ℕ, ◌+◌, String, Bool, true, false, List, [], ◌∷◌, ◌++◌, Option, none, some, insert, remove,
  lookup, append, if◌then◌else◌,
}
use distributed_job_platform.Json.{Json}
use distributed_job_platform.ApiParsers.{Result}
use distributed_job_platform.Models.Jobs.{Job}
use distributed_job_platform.Models.Snapshot.{Amount}
use distributed_job_platform.Models.Console.{ConsoleData, Clock}
use distributed_job_platform.Safe.Drafts.{Host, JobDraft}
use distributed_job_platform.ToastQueue.{ToastInput, ToastTone, info}
use distributed_job_platform.OpsConsole.Updates.{Turn}
use distributed_job_platform.OpsConsole.Controls.{ScheduleBody}
use distributed_job_platform.OpsConsole.Forms.{ScheduleDraft, JobRequest}

-- The state that the handlers set: `toasts` are the calls of `enqueueToast` in their order, and
-- `refreshes` counts the calls of `refreshConsole({ quiet: true, force: true })`.
pub record Ops : Type 0 where
  pub console_data : ConsoleData
  pub busy : List (String × Bool)
  pub selected_job_id : String
  pub selected_tab : String
  pub selected_dead_letters : List String
  pub bulk_replay_queue : String
  pub bulk_replay_payload : String
  pub job_draft : JobDraft
  pub job_errors : List (String × String)
  pub schedule_draft : ScheduleDraft
  pub schedule_errors : List (String × String)
  pub toasts : List ToastInput
  pub refreshes : ℕ

-- What a handler reads beside the state: the mode, the host, and the JSON functions.
pub record Env : Type 0 where
  pub live_mode : Bool
  pub host : Host
  pub get_time : String → ℕ
  pub parse : String → Result Json
  pub stringify : Json → String
  pub default_draft : JobDraft
  pub default_schedule : ScheduleDraft

abbrev pub turn_of : Env → Turn
turn_of e = record {
  clock = record { get_time = e.get_time; iso = e.host.iso };
  now = e.host.now;
  id = e.host.id;
}

-- A failed job that is enqueued again, and a schedule's job.
pub record CloneRequest : Type 0 where
  pub type : String
  pub queue : String
  pub tenant_id : String
  pub priority : ℕ
  pub max_attempts : Amount
  pub timeout_seconds : Amount
  pub schema_version : ℕ
  pub workflow_id : Option String
  pub parent_job_id : Option String
  pub payload : Json

pub data Body : Type 0 where
  no_body : Body
  submission : JobRequest → Body
  cloning : CloneRequest → Body
  replaying : List String → String → Option Json → Body
  deleting : List String → Body
  saving : ScheduleBody → Body
  seeding : String → Body

-- A POST of a path under `/api/v1`.
pub record Post : Type 0 where
  pub path : String
  pub body : Body

pub data Step (A : Type 0) : Type 0 where
  done : Ops → Step A
  awaits : Ops → Post → (Option A → Ops → Ops) → Step A

abbrev pub then_after : {A : Type 0} → (A → Ops → Ops) → Option A → Ops → Ops
then_after k none s = s
then_after k (some a) s = k a s

abbrev pub api_request : {A : Type 0} → Post → (A → Ops → Ops) → Ops → Step A
api_request post k s = awaits s post (then_after k)

unfoldable pub set_busy : String → Bool → Ops → Ops
set_busy key true s = record s { busy = insert key true s.busy }
set_busy key false s = record s { busy = remove key s.busy }

-- The `finally` of `runBusy`.
abbrev pub finally_idle : {A : Type 0} → String → Step A → Step A
finally_idle key (done s) = done (set_busy key false s)
finally_idle key (awaits s post k) = awaits s post (λ a later. set_busy key false (k a later))

unfoldable pub run_busy : {A : Type 0} → String → (Ops → Step A) → Ops → Step A
run_busy key task s = finally_idle key (task (set_busy key true s))

abbrev pub toast : ToastTone → String → String → ToastInput
toast tone title description = record {
  title = title;
  description = some description;
  tone = tone;
  key = none;
  cooldown_ms = none;
  duration_ms = none;
}

abbrev pub tell : ToastInput → Ops → Ops
tell input s = record s { toasts = s.toasts ++ input ∷ [] }

abbrev pub set_console_data : (ConsoleData → ConsoleData) → Ops → Ops
set_console_data update s = record s { console_data = update s.console_data }

abbrev pub set_selected_job : String → Ops → Ops
set_selected_job job_id s = record s { selected_job_id = job_id }

abbrev pub ask_refresh : Ops → Ops
ask_refresh s = record s { refreshes = s.refreshes + 1 }

unfoldable pub notify_unsupported_live_control : String → String → Ops → Ops
notify_unsupported_live_control title description s =
    tell
      (record {
        title = title;
        description = some description;
        tone = info;
        key = some (append "unsupported-live-control:" title);
        cooldown_ms = some 8000;
        duration_ms = none;
      })
      s

abbrev pub api_path : String → String
api_path rest = append "/api/v1" rest
