-- ===== src/OpsConsole/Actions/Settled.antt =====
-- What the operations of demo mode leave (src/components/OpsConsole.tsx).
use distributed_job_platform.Base.{
  ℕ, String, Bool, true, false, Option, none, some, List, [], ◌∷◌, if◌then◌else◌, trim,
}
use distributed_job_platform.Json.{Json}
use distributed_job_platform.Models.Jobs.{Job}
use distributed_job_platform.Models.Console.{ConsoleData, Clock}
use distributed_job_platform.Safe.Drafts.{Whole, create_job_from_draft}
use distributed_job_platform.ConsoleData.Settled.{
  IsSettled, reconcile_console_data-IsSettled, append_event-IsSettled, replace_job-IsSettled,
  remove_dead_letters-IsSettled,
}
use distributed_job_platform.ConsoleData.Workflows.{add_local_workflow_jobs}
use distributed_job_platform.OpsConsole.Updates.{
  Turn, with_job, find_job, retry_job, cancel_job, adjust_priority, replay_job, replay_selected_one,
  replay_selected, replay_selected_dead_letters, delete_selected_dead_letters,
}
use distributed_job_platform.OpsConsole.Controls.{
  set_queue_control, toggle_worker_cordon, add_schedule, toggle_schedule, trigger_schedule,
  enqueue_job, submitted, submit_job, find_duplicate, request_tenant_id, request_type,
}
use distributed_job_platform.OpsConsole.Actions.{
  Action, submits, retries, cancels, adjusts, replays, replays_selected, deletes_selected, controls,
  cordons, adds_schedule, toggles_schedule, triggers, seeds, apply, apply_all,
}

with_job-IsSettled :
    (c : Clock) (update : Job → ConsoleData) (current : ConsoleData) (found : Option Job)
    → IsSettled c current
    → ((job : Job) → IsSettled c (update job))
    → IsSettled c (with_job update current found)
with_job-IsSettled c update current none h f = h
with_job-IsSettled c update current (some job) h f = f job

either-IsSettled :
    (c : Clock) (b : Bool) (x y : ConsoleData)
    → IsSettled c x
    → IsSettled c y
    → IsSettled c (if b then x else y)
either-IsSettled c true x y p q = p
either-IsSettled c false x y p q = q

module _ (t : Turn) (d : ConsoleData) (h : IsSettled t.clock d) where
  retry_job-IsSettled : (i : String) → IsSettled t.clock (retry_job t i d)
  unfolding retry_job
  retry_job-IsSettled i =
      with_job-IsSettled t.clock _ d (find_job i d.jobs) h (λ job.
        append_event-IsSettled t.clock _ _ (remove_dead_letters-IsSettled t.clock t.now _ _))

  cancel_job-IsSettled : (i : String) → IsSettled t.clock (cancel_job t i d)
  unfolding cancel_job
  cancel_job-IsSettled i =
      with_job-IsSettled t.clock _ d (find_job i d.jobs) h
        (λ job. append_event-IsSettled t.clock _ _ (replace_job-IsSettled t.clock t.now d _))

  adjust_priority-IsSettled :
      (i : String) (delta : Whole) → IsSettled t.clock (adjust_priority t i delta d)
  unfolding adjust_priority
  adjust_priority-IsSettled i delta =
      with_job-IsSettled t.clock _ d (find_job i d.jobs) h
        (λ job. append_event-IsSettled t.clock _ _ (replace_job-IsSettled t.clock t.now d _))

  replay_job-IsSettled :
      (i queue : String) (payload : Json) (edited is_dead : Bool)
      → IsSettled t.clock (replay_job t i queue payload edited is_dead d)
  unfolding replay_job
  replay_job-IsSettled i queue payload edited is_dead =
      with_job-IsSettled t.clock _ d (find_job i d.jobs) h (λ job.
        either-IsSettled t.clock is_dead _ _
          (append_event-IsSettled t.clock _ _ (remove_dead_letters-IsSettled t.clock t.now _ _))
          (append_event-IsSettled t.clock _ _ (replace_job-IsSettled t.clock t.now d _)))

  replay_selected_one-IsSettled :
      (queue : String) (override : Option Json) (i : String)
      → IsSettled t.clock (replay_selected_one t queue override i d)
  unfolding replay_selected_one
  replay_selected_one-IsSettled queue override i =
      with_job-IsSettled t.clock _ d (find_job i d.jobs) h
        (λ job. remove_dead_letters-IsSettled t.clock t.now _ _)

  toggle_worker_cordon-IsSettled :
      (w : String) (b : Bool) → IsSettled t.clock (toggle_worker_cordon t w b d)
  unfolding toggle_worker_cordon
  toggle_worker_cordon-IsSettled w b = append_event-IsSettled t.clock _ _ (record {
    jobs_sorted = h.jobs_sorted;
    schedules_sorted = h.schedules_sorted;
    dead_letters_sorted = h.dead_letters_sorted;
    workers_sorted = h.workers_sorted;
    events_sorted = h.events_sorted;
    events_short = h.events_short;
    counted = h.counted;
  })

  submitted-IsSettled :
      (job : Job) (found : Option Job) → IsSettled t.clock (submitted t job d found).0
  unfolding enqueue_job
  submitted-IsSettled job (some duplicate) = h
  submitted-IsSettled job none =
      append_event-IsSettled t.clock _ _ (replace_job-IsSettled t.clock t.now d job)

replay_selected-IsSettled :
    (t : Turn) (queue : String) (override : Option Json) (ids : List String) (d : ConsoleData)
    → IsSettled t.clock d
    → IsSettled t.clock (replay_selected t queue override ids d)
unfolding replay_selected
replay_selected-IsSettled t queue override [] d h = h
replay_selected-IsSettled t queue override (i ∷ ids) d h =
    replay_selected-IsSettled t queue override ids (replay_selected_one t queue override i d)
      (replay_selected_one-IsSettled t d h queue override i)

pub apply-IsSettled :
    (t : Turn) (a : Action) (d : ConsoleData)
    → IsSettled t.clock d
    → IsSettled t.clock (apply t a d)
unfolding apply submit_job replay_selected_dead_letters delete_selected_dead_letters
    set_queue_control add_schedule toggle_schedule trigger_schedule add_local_workflow_jobs
apply-IsSettled t (submits host draft payload) d h =
    submitted-IsSettled t d h (create_job_from_draft host draft payload) (
      find_duplicate (request_tenant_id draft) (request_type draft) (trim draft.idempotency_key)
        d.jobs)
apply-IsSettled t (retries i) d h = retry_job-IsSettled t d h i
apply-IsSettled t (cancels i) d h = cancel_job-IsSettled t d h i
apply-IsSettled t (adjusts i delta) d h = adjust_priority-IsSettled t d h i delta
apply-IsSettled t (replays i queue payload edited is_dead) d h =
    replay_job-IsSettled t d h i queue payload edited is_dead
apply-IsSettled t (replays_selected queue override ids) d h =
    append_event-IsSettled t.clock _ _ (replay_selected-IsSettled t queue override ids d h)
apply-IsSettled t (deletes_selected ids) d h =
    append_event-IsSettled t.clock _ _ (remove_dead_letters-IsSettled t.clock t.now d ids)
apply-IsSettled t (controls queue action) d h =
    append_event-IsSettled t.clock _ _ (reconcile_console_data-IsSettled t.clock t.now _)
apply-IsSettled t (cordons w b) d h = toggle_worker_cordon-IsSettled t d h w b
apply-IsSettled t (adds_schedule body) d h =
    append_event-IsSettled t.clock _ _ (reconcile_console_data-IsSettled t.clock t.now _)
apply-IsSettled t (toggles_schedule schedule enabled) d h =
    append_event-IsSettled t.clock _ _ (reconcile_console_data-IsSettled t.clock t.now _)
apply-IsSettled t (triggers name job) d h =
    append_event-IsSettled t.clock _ _ (replace_job-IsSettled t.clock t.now d job)
apply-IsSettled t (seeds ids) d h = reconcile_console_data-IsSettled t.clock t.now _

-- After any session of operations in demo mode the data are in order, with at most 60 events and an
-- overview that counts exactly the jobs that there are, if they were so before.
pub apply_all-IsSettled :
    (c : Clock) (session : List (ℕ × String × Action)) (d : ConsoleData)
    → IsSettled c d
    → IsSettled c (apply_all c session d)
unfolding apply_all
apply_all-IsSettled c [] d h = h
apply_all-IsSettled c ((now, id, a) ∷ more) d h =
    let t : Turn = record { clock = c; now = now; id = id } in
    apply_all-IsSettled c more (apply t a d) (apply-IsSettled t a d h)
