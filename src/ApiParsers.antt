-- ===== src/ApiParsers.antt =====
-- The checks on the responses of the API (src/lib/api-parsers.ts). A thrown error is its message. A
-- parser that passes returns the value it was given.
pub mod Shapes
pub mod Steps
pub mod Acceptance
use distributed_job_platform.Base.{
  String, Bool, true, false, List, [], ◌∷◌, Option, none, some, append, truthy, if◌then◌else◌,
}
use distributed_job_platform.Json.{
  Json, Items, Fields, null, boolean, number, text, array, object, nil, cons, end, field, member,
}

pub data Result (A : Type 0) : Type 0 where
  ok : A → Result A
  failed : String → Result A

abbrev pub and_then : {A B : Type 0} → Result A → (A → Result B) → Result B
and_then (ok a) k = k a
and_then (failed e) k = failed e

abbrev pub malformed : {A : Type 0} → String → Result A
malformed label = failed (append label " response was malformed.")

-- A value that may be `undefined`; the fields of a record.
pub as_record : Option Json → String → Result Fields
as_record (some (object fs)) label = ok fs
as_record _ label = malformed label

pub as_array : Option Json → String → Result Items
as_array (some (array vs)) label = ok vs
as_array _ label = malformed label

pub require_string : Option Json → String → Result String
require_string (some (text s)) label = if truthy s then ok s else malformed label
require_string _ label = malformed label

pub parse_dashboard_snapshot : Json → Result Json
parse_dashboard_snapshot value =
    and_then (as_record (some value) "Dashboard snapshot") (λ record_fields.
      and_then (as_record (member "overview" record_fields) "Dashboard overview") (λ overview.
        and_then (as_record (member "metrics" record_fields) "Dashboard metrics") (λ metrics.
          and_then (as_record (member "trend" record_fields) "Dashboard trend")
            (λ trend. ok value))))

pub parse_job : Json → Result Json
parse_job value = and_then (as_record (some value) "Job") (λ record_fields.
    and_then (require_string (member "id" record_fields) "Job id") (λ id.
      and_then (require_string (member "type" record_fields) "Job type") (λ type.
        and_then (require_string (member "queue" record_fields) "Job queue") (λ queue.
          and_then (require_string (member "state" record_fields) "Job state")
            (λ state. ok value)))))

-- `items.map((item) => parse(item))`: the first error ends it.
pub parse_items : (Json → Result Json) → Items → Result Items
parse_items parse nil = ok nil
parse_items parse (cons v vs) =
    let rest = parse_items parse vs in
    and_then (parse v) (λ w. and_then rest (λ ws. ok (cons w ws)))

pub parse_list : (Json → Result Json) → String → Json → Result Json
parse_list parse label value =
    and_then (as_array (some value) label)
      (λ vs. and_then (parse_items parse vs) (λ ws. ok (array ws)))

pub parse_jobs : Json → Result Json
parse_jobs = parse_list parse_job "Jobs"

pub parse_schedule : Json → Result Json
parse_schedule value = and_then (as_record (some value) "Schedule") (λ record_fields.
    and_then (require_string (member "id" record_fields) "Schedule id") (λ id.
      and_then (require_string (member "name" record_fields) "Schedule name") (λ name.
        and_then (require_string (member "cronExpression" record_fields) "Schedule cron expression")
          (λ cron. ok value))))

pub parse_schedules : Json → Result Json
parse_schedules = parse_list parse_schedule "Schedules"

abbrev pub require_queues : Option Json → Result Items
require_queues (some (array vs)) = ok vs
require_queues _ = failed "Worker queues response was malformed."

pub parse_worker_status : Json → Result Json
parse_worker_status value = and_then (as_record (some value) "Worker status") (λ record_fields.
    and_then (require_string (member "workerId" record_fields) "Worker id") (λ worker_id.
      and_then (require_string (member "hostname" record_fields) "Worker hostname") (λ hostname.
        and_then (require_queues (member "queues" record_fields)) (λ queues. ok value))))

pub parse_worker_statuses : Json → Result Json
parse_worker_statuses = parse_list parse_worker_status "Workers"

-- `record.job` that is `undefined` is no record.
abbrev pub parse_job_field : Option Json → Result Json
parse_job_field none = malformed "Job"
parse_job_field (some v) = parse_job v

pub parse_job_inspection : Json → Result Json
parse_job_inspection value = and_then (as_record (some value) "Job inspection") (λ record_fields.
    and_then (parse_job_field (member "job" record_fields)) (λ job.
      and_then (as_array (member "attempts" record_fields) "Job inspection attempts") (λ attempts.
        and_then (as_array (member "events" record_fields) "Job inspection events") (λ events.
          and_then (as_record (member "graph" record_fields) "Job inspection graph")
            (λ graph. ok value)))))

abbrev pub require_flag : Option Json → Result Bool
require_flag (some (boolean b)) = ok b
require_flag _ = failed "Enqueue result duplicateSuppressed flag was malformed."

pub parse_enqueue_result : Json → Result Json
parse_enqueue_result value = and_then (as_record (some value) "Enqueue result") (λ record_fields.
    and_then (parse_job_field (member "job" record_fields)) (λ job.
      and_then (require_flag (member "duplicateSuppressed" record_fields)) (λ flag. ok value)))
