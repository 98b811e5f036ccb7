-- ===== src/ApiParsers/Acceptance.antt =====
-- What the parsers accept (src/lib/api-parsers.ts).
use distributed_job_platform.Base.{
  ◌≡◌, refl, String, Bool, true, false, Option, none, some, arith, Bool-cases, inl, inr,
}
use distributed_job_platform.Json.{
  Json, Items, null, boolean, number, text, array, object, nil, cons, member,
}
use distributed_job_platform.ApiParsers.{
  Result, ok, failed, as_array, parse_dashboard_snapshot, parse_job, parse_items, parse_list,
  parse_jobs, parse_schedule, parse_schedules, parse_worker_status, parse_worker_statuses,
  parse_job_field, parse_job_inspection, parse_enqueue_result,
}
use distributed_job_platform.ApiParsers.Shapes.{
  job_shape, snapshot_shape, schedule_shape, worker_shape, is_object, is_job, inspection_shape,
  enqueue_shape, all_items, is_list, Accepts,
}
use distributed_job_platform.ApiParsers.Steps.{
  Passes, gate, last_gate, as_record-Passes, as_array-Passes, require_string-Passes,
  require_queues-Passes, require_flag-Passes, object_Accepts,
}

parse_job-Accepts : Accepts parse_job (is_object job_shape)
unfolding parse_job
parse_job-Accepts = object_Accepts "Job" _ job_shape (λ fs v.
    gate _ _ _ _ v (require_string-Passes (member "id" fs) "Job id") (
      gate _ _ _ _ v (require_string-Passes (member "type" fs) "Job type") (
        gate _ _ _ _ v (require_string-Passes (member "queue" fs) "Job queue")
          (last_gate _ _ v (require_string-Passes (member "state" fs) "Job state")))))

parse_schedule-Accepts : Accepts parse_schedule (is_object schedule_shape)
unfolding parse_schedule
parse_schedule-Accepts = object_Accepts "Schedule" _ schedule_shape (λ fs v.
    gate _ _ _ _ v (require_string-Passes (member "id" fs) "Schedule id") (
      gate _ _ _ _ v (require_string-Passes (member "name" fs) "Schedule name") (
        last_gate _ _ v
          (require_string-Passes (member "cronExpression" fs) "Schedule cron expression"))))

parse_worker_status-Accepts : Accepts parse_worker_status (is_object worker_shape)
unfolding parse_worker_status
parse_worker_status-Accepts = object_Accepts "Worker status" _ worker_shape (λ fs v.
    gate _ _ _ _ v (require_string-Passes (member "workerId" fs) "Worker id") (
      gate _ _ _ _ v (require_string-Passes (member "hostname" fs) "Worker hostname")
        (last_gate _ _ v (require_queues-Passes (member "queues" fs)))))

parse_dashboard_snapshot-Accepts : Accepts parse_dashboard_snapshot (is_object snapshot_shape)
unfolding parse_dashboard_snapshot
parse_dashboard_snapshot-Accepts = object_Accepts "Dashboard snapshot" _ snapshot_shape (λ fs v.
    gate _ _ _ _ v (as_record-Passes (member "overview" fs) "Dashboard overview") (
      gate _ _ _ _ v (as_record-Passes (member "metrics" fs) "Dashboard metrics")
        (last_gate _ _ v (as_record-Passes (member "trend" fs) "Dashboard trend"))))

parse_job_field-Passes : (o : Option Json) → Passes (parse_job_field o) (is_job o)
unfolding Passes Accepts
parse_job_field-Passes none = (λ h. ground arith, λ h. (_, refl))
parse_job_field-Passes (some v) = let (good, bad) = parse_job-Accepts v in (λ h. (v, good h), bad)

parse_job_inspection-Accepts : Accepts parse_job_inspection (is_object inspection_shape)
unfolding parse_job_inspection
parse_job_inspection-Accepts = object_Accepts "Job inspection" _ inspection_shape (λ fs v.
    gate _ _ _ _ v (parse_job_field-Passes (member "job" fs)) (
      gate _ _ _ _ v (as_array-Passes (member "attempts" fs) "Job inspection attempts") (
        gate _ _ _ _ v (as_array-Passes (member "events" fs) "Job inspection events")
          (last_gate _ _ v (as_record-Passes (member "graph" fs) "Job inspection graph")))))

parse_enqueue_result-Accepts : Accepts parse_enqueue_result (is_object enqueue_shape)
unfolding parse_enqueue_result
parse_enqueue_result-Accepts = object_Accepts "Enqueue result" _ enqueue_shape (λ fs v.
    gate _ _ _ _ v (parse_job_field-Passes (member "job" fs))
      (last_gate _ _ v (require_flag-Passes (member "duplicateSuppressed" fs))))

-- Lists of values that a parser accepts.
module _ (parse : Json → Result Json) (test : Json → Bool) (accepts : Accepts parse test) where
  parse_items_lem :
      (vs : Items)
      → (all_items test vs ≡ true → parse_items parse vs ≡ ok vs)
        × (all_items test vs ≡ false → (e : String) × (parse_items parse vs ≡ failed e))
  unfolding parse_items Accepts
  parse_items_lem nil = (λ h. refl, λ h. ground arith)
  parse_items_lem (cons v vs) =
      let (good, bad) = accepts v in
      let (all_good, some_bad) = parse_items_lem vs in
      elim (Bool-cases (test v)) [
        | inl h ↦
            rw h
              (rw (good h) (λ k. rw (all_good k), λ k. let (e, q) = some_bad k in rw q (e, refl)))
        | inr h ↦ let (e, q) = bad h in rw h (rw q (λ k. ground arith, λ k. (e, refl)))
      ]

  parse_list-Accepts : (label : String) → Accepts (parse_list parse label) (is_list test)
  unfolding parse_list Accepts as_array
  parse_list-Accepts label (array vs) =
      let (all_good, some_bad) = parse_items_lem vs in
      (λ h. rw (all_good h), λ h. let (e, q) = some_bad h in rw q (e, refl))
  parse_list-Accepts label (object fs) = (λ h. ground arith, λ h. (_, refl))
  parse_list-Accepts label null = (λ h. ground arith, λ h. (_, refl))
  parse_list-Accepts label (boolean b) = (λ h. ground arith, λ h. (_, refl))
  parse_list-Accepts label (number n) = (λ h. ground arith, λ h. (_, refl))
  parse_list-Accepts label (text s) = (λ h. ground arith, λ h. (_, refl))

-- Each parser returns every value of its shape unchanged and fails on every other: jobs, schedules
-- and workers need their texts to be there and not empty, a list needs every one of its items to be
-- so, a snapshot its three records, an inspection its job, lists and graph, and an enqueued job its
-- flag.
pub parsers-Accepts :
    Accepts parse_jobs (is_list (is_object job_shape))
    × Accepts parse_schedules (is_list (is_object schedule_shape))
    × Accepts parse_worker_statuses (is_list (is_object worker_shape))
    × Accepts parse_dashboard_snapshot (is_object snapshot_shape)
    × Accepts parse_job_inspection (is_object inspection_shape)
    × Accepts parse_enqueue_result (is_object enqueue_shape)
unfolding parse_jobs parse_schedules parse_worker_statuses
parsers-Accepts = (
  parse_list-Accepts parse_job (is_object job_shape) parse_job-Accepts "Jobs",
  parse_list-Accepts parse_schedule (is_object schedule_shape) parse_schedule-Accepts "Schedules",
  parse_list-Accepts parse_worker_status (is_object worker_shape) parse_worker_status-Accepts
      "Workers",
  parse_dashboard_snapshot-Accepts,
  parse_job_inspection-Accepts,
  parse_enqueue_result-Accepts,
)
