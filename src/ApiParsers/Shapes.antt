-- ===== src/ApiParsers/Shapes.antt =====
-- The shapes of the responses that the parsers accept (src/lib/api-parsers.ts).
use distributed_job_platform.Base.{◌≡◌, String, Bool, true, false, ◌&&◌, Option, none, some, truthy}
use distributed_job_platform.Json.{
  Json, Items, Fields, boolean, text, array, object, nil, cons, member,
}
use distributed_job_platform.ApiParsers.{Result, ok, failed}

abbrev pub is_record : Option Json → Bool
is_record (some (object fs)) = true
is_record _ = false

abbrev pub is_array : Option Json → Bool
is_array (some (array vs)) = true
is_array _ = false

abbrev pub is_name : Option Json → Bool
is_name (some (text s)) = truthy s
is_name _ = false

abbrev pub is_flag : Option Json → Bool
is_flag (some (boolean b)) = true
is_flag _ = false

abbrev pub job_shape : Fields → Bool
job_shape fs =
    is_name (member "id" fs)
    && (is_name (member "type" fs) && (is_name (member "queue" fs) && is_name (member "state" fs)))

abbrev pub snapshot_shape : Fields → Bool
snapshot_shape fs =
    is_record (member "overview" fs)
    && (is_record (member "metrics" fs) && is_record (member "trend" fs))

abbrev pub schedule_shape : Fields → Bool
schedule_shape fs =
    is_name (member "id" fs) && (is_name (member "name" fs) && is_name (member "cronExpression" fs))

abbrev pub worker_shape : Fields → Bool
worker_shape fs =
    is_name (member "workerId" fs)
    && (is_name (member "hostname" fs) && is_array (member "queues" fs))

-- An object whose fields pass a test.
abbrev pub is_object : (Fields → Bool) → Json → Bool
is_object test (object fs) = test fs
is_object test _ = false

abbrev pub is_job : Option Json → Bool
is_job none = false
is_job (some v) = is_object job_shape v

abbrev pub inspection_shape : Fields → Bool
inspection_shape fs =
    is_job (member "job" fs)
    && (is_array (member "attempts" fs)
        && (is_array (member "events" fs) && is_record (member "graph" fs)))

abbrev pub enqueue_shape : Fields → Bool
enqueue_shape fs = is_job (member "job" fs) && is_flag (member "duplicateSuppressed" fs)

abbrev pub all_items : (Json → Bool) → Items → Bool
all_items test nil = true
all_items test (cons v vs) = test v && all_items test vs

abbrev pub is_list : (Json → Bool) → Json → Bool
is_list test (array vs) = all_items test vs
is_list test _ = false

-- The parser returns every value of the shape as it is, and fails on every other.
unfoldable pub Accepts : (Json → Result Json) → (Json → Bool) → Type 0
Accepts parse test =
    (v : Json)
    → (test v ≡ true → parse v ≡ ok v) × (test v ≡ false → (e : String) × (parse v ≡ failed e))
