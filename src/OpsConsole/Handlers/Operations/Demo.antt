-- ===== src/OpsConsole/Handlers/Operations/Demo.antt =====
-- The operations in demo mode, and their actions (src/components/OpsConsole.tsx).
use distributed_job_platform.Base.{
  ◌≡◌, refl, sym, ap, String, Bool, true, false, not, ◌&&◌, Option, none, some, is_some, append,
  lookup, insert, remove, lookup-remove, str_eq_refl, truthy, Bool-cases, inl, inr,
}
use distributed_job_platform.Json.{Json}
use distributed_job_platform.Models.Jobs.{Job}
use distributed_job_platform.Safe.Drafts.{create_job_from_draft}
use distributed_job_platform.ConsoleData.{find_dead_letter}
use distributed_job_platform.OpsConsole.Updates.{find_job, replay_job}
use distributed_job_platform.OpsConsole.Controls.{submit_job, submitted}
use distributed_job_platform.OpsConsole.Forms.{
  Parsed, JobForm, ScheduleForm, has_value, validate_job_form, validate_schedule_form,
  safe_json_parse, schedule_body,
}
use distributed_job_platform.OpsConsole.Actions.{Action, submits, replays, adds_schedule, apply}
use distributed_job_platform.OpsConsole.Handlers.{Ops, Env, turn_of, set_busy, run_busy}
use distributed_job_platform.OpsConsole.Handlers.Jobs.{
  is_sent, handle_submit, handle_retry, handle_cancel, handle_priority, handle_replay, submit_if,
  replay_found, replay_parsed, locally_submitted, duplicate_of,
}
use distributed_job_platform.OpsConsole.Handlers.Letters.{
  override_of, has_selection, handle_bulk_replay, handle_bulk_delete,
}
use distributed_job_platform.OpsConsole.Handlers.Controlling.{
  handle_queue, handle_cordon, schedule_if, handle_schedule, handle_toggle_schedule, handle_trigger,
  handle_seed,
}
use distributed_job_platform.OpsConsole.Handlers.Operations.{
  Operation, submit, retry, cancel, priority, replay, bulk_replay, bulk_delete, queue_control,
  cordon, save_schedule, switch, trigger, seed, Begun, begun, begin, key_of, demo_action, sent,
}
use distributed_job_platform.OpsConsole.Handlers.Operations.Modes.{apply_maybe}

-- The operation is over, without a request: the data are what the action makes of them, and it is as
-- busy as before.
pub record IsApplied (e : Env) (key : String) (action : Option Action) (s : Ops) (b : Begun)
    : Type 0 where
  pub quiet : b.request ≡ none
  pub applied : b.state.console_data ≡ apply_maybe e action s.console_data
  pub idle : lookup key s.busy ≡ none → lookup key b.state.busy ≡ none

busy_off : (key : String) (s : Ops) → lookup key (remove key (insert key true s.busy)) ≡ none
busy_off key s = rw (lookup-remove key key (insert key true s.busy)) (rw (str_eq_refl key) refl)

unused :
    (e : Env) (key : String) (s later : Ops)
    → later.console_data ≡ s.console_data
    → later.busy ≡ s.busy
    → IsApplied e key none s (record { state = later; request = none; on_failure = λ x. x })
unused e key s later h k = record { quiet = refl; applied = h; idle = λ n. rw k n }

at_once :
    (e : Env) (key : String) (a : Action) (s later : Ops)
    → later.console_data ≡ apply (turn_of e) a s.console_data
    → later.busy ≡ s.busy
    → IsApplied e key (some a) s (record { state = later; request = none; on_failure = λ x. x })
at_once e key a s later h k = record { quiet = refl; applied = h; idle = λ n. rw k n }

-- Busy and idle again.
finished :
    (e : Env) (key : String) (a : Action) (s later : Ops)
    → later.console_data ≡ apply (turn_of e) a s.console_data
    → later.busy ≡ remove key (insert key true s.busy)
    → IsApplied e key (some a) s (record { state = later; request = none; on_failure = λ x. x })
finished e key a s later h k = record {
  quiet = refl;
  applied = h;
  idle = λ n. rw k (busy_off key s);
}

abbrev pub in_demo_mode : Env → Env
in_demo_mode e = record e { live_mode = false }

module _ (env : Env) (s : Ops) where
  locally_submitted-IsApplied :
      (v : Json) (d : Option Job)
      → duplicate_of s.job_draft s.console_data ≡ d
      → IsApplied env "submit-job" (some (submits env.host s.job_draft v)) s (record {
        state = set_busy "submit-job" false (
            locally_submitted env
              (create_job_from_draft env.host s.job_draft v)
              d
              (set_busy "submit-job" true s));
        request = none;
        on_failure = λ later. later;
      })
  unfolding apply submit_job set_busy
  locally_submitted-IsApplied v (some duplicate) h =
      finished env "submit-job" _ s _
        (ap
          (λ o.
            (submitted (turn_of env) (create_job_from_draft env.host s.job_draft v) s.console_data
              o).0)
          (sym h))
        refl
  locally_submitted-IsApplied v none h =
      finished env "submit-job" _ s _
        (ap
          (λ o.
            (submitted (turn_of env) (create_job_from_draft env.host s.job_draft v) s.console_data
              o).0)
          (sym h))
        refl

module _ (env : Env) (s : Ops) where
  submit_if-IsApplied :
      (f : JobForm) (b : Bool) (payload : Option Json)
      → IsApplied
          (in_demo_mode env)
          "submit-job"
          (sent b payload (submits env.host s.job_draft))
          s
          (begun (submit_if (in_demo_mode env) f b payload s))
  unfolding run_busy set_busy
  submit_if-IsApplied f true (some v) =
      locally_submitted-IsApplied (in_demo_mode env) s v (duplicate_of s.job_draft s.console_data)
        refl
  submit_if-IsApplied f false (some v) = unused (in_demo_mode env) "submit-job" s _ refl refl
  submit_if-IsApplied f true none = unused (in_demo_mode env) "submit-job" s _ refl refl
  submit_if-IsApplied f false none = unused (in_demo_mode env) "submit-job" s _ refl refl

  replay_found-IsApplied :
      (i queue : String) (v : Json) (edited is_dead : Bool) (job : Option Job)
      → find_job i s.console_data.jobs ≡ job
      → IsApplied
          (in_demo_mode env)
          (append "job-replay-" i)
          (some (replays i queue v edited is_dead))
          s
          (begun (
            run_busy
              (append "job-replay-" i)
              (λ now. replay_found (in_demo_mode env) i queue v edited is_dead job now)
              s))
  unfolding run_busy set_busy apply replay_job
  replay_found-IsApplied i queue v edited is_dead none h =
      finished (in_demo_mode env) (append "job-replay-" i) _ s _ (rw h refl) refl
  replay_found-IsApplied i queue v edited is_dead (some job) h =
      finished (in_demo_mode env) (append "job-replay-" i) _ s _ refl refl

  replay_parsed-IsApplied :
      (i queue : String) (edited : Bool) (parsed : Parsed) (b : Bool) (payload : Option Json)
      → IsApplied
          (in_demo_mode env)
          (append "job-replay-" i)
          (sent b payload
            (λ v. replays i queue v edited (is_some (find_dead_letter s.console_data i))))
          s
          (begun (replay_parsed (in_demo_mode env) i queue edited parsed b payload s))
  replay_parsed-IsApplied i queue edited parsed true (some v) =
      replay_found-IsApplied i queue v edited (is_some (find_dead_letter s.console_data i))
        (find_job i s.console_data.jobs) refl
  replay_parsed-IsApplied i queue edited parsed false (some v) =
      unused (in_demo_mode env) (append "job-replay-" i) s _ refl refl
  replay_parsed-IsApplied i queue edited parsed true none =
      unused (in_demo_mode env) (append "job-replay-" i) s _ refl refl
  replay_parsed-IsApplied i queue edited parsed false none =
      unused (in_demo_mode env) (append "job-replay-" i) s _ refl refl

  bulk_replay-IsApplied :
      let e = in_demo_mode env in
      IsApplied e "bulk-replay" (demo_action e bulk_replay s) s (begun (handle_bulk_replay e s))
  unfolding handle_bulk_replay run_busy set_busy apply demo_action
  bulk_replay-IsApplied = elim (Bool-cases (has_selection s.selected_dead_letters)) [
    | inr a ↦ rw a (unused (in_demo_mode env) "bulk-replay" s _ refl refl)
    | inl a ↦ elim (Bool-cases (truthy (override_of (in_demo_mode env) s).error)) [
      | inl b ↦ rw a (rw b (unused (in_demo_mode env) "bulk-replay" s _ refl refl))
      | inr b ↦ rw a (rw b (finished (in_demo_mode env) "bulk-replay" _ s _ refl refl))
    ]
  ]

  bulk_delete-IsApplied :
      let e = in_demo_mode env in
      IsApplied e "bulk-delete" (demo_action e bulk_delete s) s (begun (handle_bulk_delete e s))
  unfolding handle_bulk_delete run_busy set_busy apply demo_action
  bulk_delete-IsApplied = elim (Bool-cases (has_selection s.selected_dead_letters)) [
    | inr a ↦ rw a (unused (in_demo_mode env) "bulk-delete" s _ refl refl)
    | inl a ↦ rw a (finished (in_demo_mode env) "bulk-delete" _ s _ refl refl)
  ]

  schedule_if-IsApplied :
      (f : ScheduleForm) (b : Bool) (payload : Option Json)
      → IsApplied
          (in_demo_mode env)
          "schedule-submit"
          (sent b payload (λ v. adds_schedule (schedule_body env.host s.schedule_draft v)))
          s
          (begun (schedule_if (in_demo_mode env) f b payload s))
  unfolding run_busy set_busy apply
  schedule_if-IsApplied f true (some v) =
      finished (in_demo_mode env) "schedule-submit" _ s _ refl refl
  schedule_if-IsApplied f false (some v) = unused (in_demo_mode env) "schedule-submit" s _ refl refl
  schedule_if-IsApplied f true none = unused (in_demo_mode env) "schedule-submit" s _ refl refl
  schedule_if-IsApplied f false none = unused (in_demo_mode env) "schedule-submit" s _ refl refl

-- In demo mode every operation is over at once: it sends no request, it makes of the data exactly what
-- its action makes of them, or nothing if a form, a payload or an empty selection is refused, and it is
-- not busy afterwards unless it was before.
pub begin-IsApplied :
    (env : Env) (op : Operation) (s : Ops)
    → let e = in_demo_mode env in IsApplied e (key_of op) (demo_action e op s) s (begin e op s)
unfolding begin demo_action apply set_busy run_busy handle_submit handle_replay handle_schedule
    handle_retry handle_cancel handle_priority handle_queue handle_cordon handle_toggle_schedule
    handle_trigger handle_seed
begin-IsApplied env submit s =
    let f = validate_job_form env.parse env.host s.job_draft in
    submit_if-IsApplied env s f (is_sent f.errors f.payload) f.payload
begin-IsApplied env (retry i) s =
    finished (in_demo_mode env) (append "job-retry-" i) _ s _ refl refl
begin-IsApplied env (cancel i) s =
    finished (in_demo_mode env) (append "job-cancel-" i) _ s _ refl refl
begin-IsApplied env (priority i delta) s = at_once (in_demo_mode env) "" _ s _ refl refl
begin-IsApplied env (replay i queue text edited) s =
    let parsed = safe_json_parse env.parse text in
    replay_parsed-IsApplied env s i queue edited parsed
      (not (truthy parsed.error) && has_value parsed.value) parsed.value
begin-IsApplied env bulk_replay s = bulk_replay-IsApplied env s
begin-IsApplied env bulk_delete s = bulk_delete-IsApplied env s
begin-IsApplied env (queue_control queue action) s = at_once (in_demo_mode env) "" _ s _ refl refl
begin-IsApplied env (cordon w b) s = at_once (in_demo_mode env) "" _ s _ refl refl
begin-IsApplied env save_schedule s =
    let f = validate_schedule_form env.parse s.schedule_draft in
    schedule_if-IsApplied env s f (is_sent f.errors f.payload) f.payload
begin-IsApplied env (switch schedule enabled) s =
    finished (in_demo_mode env) (append "schedule-" schedule.id) _ s _ refl refl
begin-IsApplied env (trigger schedule) s =
    finished (in_demo_mode env) (append "schedule-trigger-" schedule.id) _ s _ refl refl
begin-IsApplied env (seed ids) s = finished (in_demo_mode env) "seed-workflow" _ s _ refl refl
