-- ===== src/OpsConsole/Handlers/Operations/Modes.antt =====
-- What the operations do in each mode (src/components/OpsConsole.tsx).
use distributed_job_platform.Base.{
  ◌≡◌, refl, String, Bool, true, false, not, ◌&&◌, Option, none, some, is_some, append, lookup,
  insert, remove, lookup-insert, str_eq_refl, truthy, Bool-cases, inl, inr, arith,
}
use distributed_job_platform.Json.{Json}
use distributed_job_platform.Models.Jobs.{Job}
use distributed_job_platform.Models.Console.{ConsoleData}
use distributed_job_platform.ConsoleData.{find_dead_letter}
use distributed_job_platform.OpsConsole.Updates.{find_job}
use distributed_job_platform.OpsConsole.Forms.{
  Parsed, JobForm, ScheduleForm, has_value, validate_job_form, validate_schedule_form,
  safe_json_parse,
}
use distributed_job_platform.OpsConsole.Actions.{Action, apply}
use distributed_job_platform.OpsConsole.Handlers.{
  Ops, Env, Post, turn_of, set_busy, run_busy, notify_unsupported_live_control,
}
use distributed_job_platform.OpsConsole.Handlers.Jobs.{
  is_sent, handle_submit, handle_retry, handle_cancel, handle_priority, handle_replay, submit_if,
  replay_found, replay_parsed,
}
use distributed_job_platform.OpsConsole.Handlers.Letters.{
  override_of, has_selection, handle_bulk_replay, handle_bulk_delete,
}
use distributed_job_platform.OpsConsole.Handlers.Controlling.{
  handle_queue, handle_cordon, schedule_if, handle_schedule, handle_toggle_schedule, handle_trigger,
  handle_seed,
}
use distributed_job_platform.OpsConsole.Handlers.Operations.{
  Operation, submit, retry, cancel, priority, replay, bulk_replay, bulk_delete, queue_control,
  cordon, save_schedule, switch, trigger, seed, Begun, begun, begin, key_of,
}

abbrev idle : String → Ops → Ops
idle key later = record later { busy = remove key later.busy }

abbrev pub apply_maybe : Env → Option Action → ConsoleData → ConsoleData
apply_maybe e none d = d
apply_maybe e (some a) d = apply (turn_of e) a d

-- The operation waits as a busy one for its request, and if that fails it is busy no more.
pub record IsWaiting (key : String) (s : Ops) (b : Begun) : Type 0 where
  pub kept : b.state.console_data ≡ s.console_data
  pub busy : (post : Post) → b.request ≡ some post → lookup key b.state.busy ≡ some true
  pub failure :
      (post : Post) → b.request ≡ some post → (later : Ops) → b.on_failure later ≡ idle key later

busy_on : (key : String) (s : Ops) → lookup key (insert key true s.busy) ≡ some true
busy_on key s = rw (lookup-insert key key true s.busy) (rw (str_eq_refl key) refl)

-- An operation that asks for nothing and leaves the data alone.
refused :
    (key : String) (s : Ops) (b : Begun)
    → b.state.console_data ≡ s.console_data
    → b.request ≡ none
    → IsWaiting key s b
refused key s b h r = record {
  kept = h;
  busy = λ post e. ground (arith, r, e);
  failure = λ post e later. ground (arith, r, e);
}

-- One that is busy from its request on.
requested :
    (key : String) (s : Ops) (post : Post)
    → IsWaiting key s (record {
      state = set_busy key true s;
      request = some post;
      on_failure = λ later. set_busy key false later;
    })
unfolding set_busy
requested key s post = record {
  kept = refl;
  busy = λ other h. busy_on key s;
  failure = λ other h later. refl;
}

module _ (e : Env) (live : e.live_mode ≡ true) (s : Ops) where
  submit_if-IsWaiting :
      (f : JobForm) (b : Bool) (payload : Option Json)
      → IsWaiting "submit-job" s (begun (submit_if e f b payload s))
  unfolding run_busy
  submit_if-IsWaiting f true (some v) = rw live (requested "submit-job" s _)
  submit_if-IsWaiting f false (some v) = refused "submit-job" s _ refl refl
  submit_if-IsWaiting f true none = refused "submit-job" s _ refl refl
  submit_if-IsWaiting f false none = refused "submit-job" s _ refl refl

  replay_found-IsWaiting :
      (i queue : String) (payload : Json) (edited is_dead : Bool) (job : Option Job)
      → IsWaiting (append "job-replay-" i) s (
          begun (
            run_busy
              (append "job-replay-" i)
              (λ now. replay_found e i queue payload edited is_dead job now)
              s))
  unfolding run_busy set_busy
  replay_found-IsWaiting i queue payload edited is_dead none =
      refused (append "job-replay-" i) s _ refl refl
  replay_found-IsWaiting i queue payload edited is_dead (some job) =
      rw live (requested (append "job-replay-" i) s _)

  replay_parsed-IsWaiting :
      (i queue : String) (edited : Bool) (parsed : Parsed) (b : Bool) (payload : Option Json)
      → IsWaiting
          (append "job-replay-" i)
          s
          (begun (replay_parsed e i queue edited parsed b payload s))
  replay_parsed-IsWaiting i queue edited parsed true (some v) =
      replay_found-IsWaiting i queue v edited (is_some (find_dead_letter s.console_data i))
        (find_job i s.console_data.jobs)
  replay_parsed-IsWaiting i queue edited parsed false (some v) =
      refused (append "job-replay-" i) s _ refl refl
  replay_parsed-IsWaiting i queue edited parsed true none =
      refused (append "job-replay-" i) s _ refl refl
  replay_parsed-IsWaiting i queue edited parsed false none =
      refused (append "job-replay-" i) s _ refl refl

  bulk_replay-IsWaiting : IsWaiting "bulk-replay" s (begun (handle_bulk_replay e s))
  unfolding handle_bulk_replay run_busy
  bulk_replay-IsWaiting = elim (Bool-cases (has_selection s.selected_dead_letters)) [
    | inr a ↦ rw a (refused "bulk-replay" s _ refl refl)
    | inl a ↦ elim (Bool-cases (truthy (override_of e s).error)) [
      | inl b ↦ rw a (rw b (refused "bulk-replay" s _ refl refl))
      | inr b ↦ rw a (rw b (rw live (requested "bulk-replay" s _)))
    ]
  ]

  bulk_delete-IsWaiting : IsWaiting "bulk-delete" s (begun (handle_bulk_delete e s))
  unfolding handle_bulk_delete run_busy
  bulk_delete-IsWaiting = elim (Bool-cases (has_selection s.selected_dead_letters)) [
    | inr a ↦ rw a (refused "bulk-delete" s _ refl refl)
    | inl a ↦ rw a (rw live (requested "bulk-delete" s _))
  ]

  schedule_if-IsWaiting :
      (f : ScheduleForm) (b : Bool) (payload : Option Json)
      → IsWaiting "schedule-submit" s (begun (schedule_if e f b payload s))
  unfolding run_busy
  schedule_if-IsWaiting f true (some v) = rw live (requested "schedule-submit" s _)
  schedule_if-IsWaiting f false (some v) = refused "schedule-submit" s _ refl refl
  schedule_if-IsWaiting f true none = refused "schedule-submit" s _ refl refl
  schedule_if-IsWaiting f false none = refused "schedule-submit" s _ refl refl

-- In live mode no operation changes the data before the API answers; one that sends a request is busy
-- while it waits; and if the request fails, all that happens is that it is busy no more.
pub begin-IsWaiting :
    (e : Env) (op : Operation) (s : Ops)
    → e.live_mode ≡ true
    → IsWaiting (key_of op) s (begin e op s)
unfolding begin handle_submit handle_replay handle_schedule handle_retry handle_cancel
    handle_priority handle_queue handle_cordon handle_toggle_schedule handle_trigger handle_seed
    run_busy notify_unsupported_live_control
begin-IsWaiting e submit s live =
    let f = validate_job_form e.parse e.host s.job_draft in
    submit_if-IsWaiting e live s f (is_sent f.errors f.payload) f.payload
begin-IsWaiting e (retry i) s live = rw live (requested (append "job-retry-" i) s _)
begin-IsWaiting e (cancel i) s live = rw live (requested (append "job-cancel-" i) s _)
begin-IsWaiting e (priority i delta) s live = rw live (refused "" s _ refl refl)
begin-IsWaiting e (replay i queue text edited) s live =
    let parsed = safe_json_parse e.parse text in
    replay_parsed-IsWaiting e live s i queue edited parsed
      (not (truthy parsed.error) && has_value parsed.value) parsed.value
begin-IsWaiting e bulk_replay s live = bulk_replay-IsWaiting e live s
begin-IsWaiting e bulk_delete s live = bulk_delete-IsWaiting e live s
begin-IsWaiting e (queue_control queue action) s live = rw live (refused "" s _ refl refl)
begin-IsWaiting e (cordon w b) s live = rw live (refused "" s _ refl refl)
begin-IsWaiting e save_schedule s live =
    let f = validate_schedule_form e.parse s.schedule_draft in
    schedule_if-IsWaiting e live s f (is_sent f.errors f.payload) f.payload
begin-IsWaiting e (switch schedule enabled) s live =
    rw live (requested (append "schedule-" schedule.id) s _)
begin-IsWaiting e (trigger schedule) s live =
    rw live (requested (append "schedule-trigger-" schedule.id) s _)
begin-IsWaiting e (seed ids) s live = rw live (requested "seed-workflow" s _)
