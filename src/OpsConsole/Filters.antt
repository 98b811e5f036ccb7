-- ===== src/OpsConsole/Filters.antt =====
-- What the lists of the console show (src/components/OpsConsole.tsx): the filters and orders of jobs, dead
-- letters, workers, schedules and events. `toLowerCase` is a parameter.
use distributed_job_platform.Base.{
  String, Bool, true, false, not, ◌&&◌, ◌||◌, List, [], ◌∷◌, Option, none, some, any, keep, truthy,
  trim, or_text, append, str_eq, sort_by, down, if◌then◌else◌,
}
use Prim.Native.Char.{code}
use Prim.Native.Nat.{ℕ}
use distributed_job_platform.Models.Jobs.{Job, DeadLetter}
use distributed_job_platform.Models.Snapshot.{Schedule, SystemEvent}
use distributed_job_platform.Models.Console.{Clock}
use distributed_job_platform.LiveRefresh.{or_empty, job_state_text}
use distributed_job_platform.OpsConsole.Views.{WorkerView}
use distributed_job_platform.Base.{◌==◌}

-- `startsWith` and `includes` on texts.
abbrev pub starts_with : String → String → Bool
starts_with s String.[] = true
starts_with String.[] (String.◌∷◌ c t) = false
starts_with (String.◌∷◌ d s) (String.◌∷◌ c t) = (code d == code c) && starts_with s t

abbrev pub contains : String → String → Bool
contains String.[] t = starts_with String.[] t
contains (String.◌∷◌ d s) t = starts_with (String.◌∷◌ d s) t || contains s t

-- `filter === "all" || value === filter`.
abbrev pub chosen : String → String → Bool
chosen filter value = str_eq filter "all" || str_eq value filter

-- `!search || values.some((value) => safeTrim(value).toLowerCase().includes(search))`.
unfoldable pub mentions : (String → String) → String → List String → Bool
mentions lower search values =
    not (truthy search) || any (λ value. contains (lower (trim value)) search) values

pub record JobFilters : Type 0 where
  pub state : String
  pub queue : String
  pub sort : String
  pub tenant : String

-- The query that a text field gives.
abbrev pub query : (String → String) → String → String
query lower field = lower (trim field)

abbrev pub shows_job : (String → String) → JobFilters → String → Job → Bool
shows_job lower filters search job =
    chosen filters.state (job_state_text job.state)
    && (chosen filters.queue job.queue
        && ((not (truthy (query lower filters.tenant))
              || contains (lower job.tenant_id) (query lower filters.tenant))
            && mentions lower search (
                job.type
                ∷ job.id
                ∷ job.queue
                ∷ job.tenant_id
                ∷ or_empty job.workflow_id
                ∷ or_empty job.idempotency_key
                ∷ [])))

-- The key by which the jobs are in descending order.
abbrev pub sort_key : Clock → String → Job → ℕ
sort_key c sort job =
    if str_eq sort "priority"
    then job.priority
    else if str_eq sort "created"
    then c.get_time job.created_at
    else if str_eq sort "latency"
    then job.execution_ms
    else c.get_time job.updated_at

unfoldable pub visible_jobs : Clock → (String → String) → JobFilters → String → List Job → List Job
visible_jobs c lower filters search jobs =
    sort_by (down (sort_key c filters.sort)) (keep (shows_job lower filters search) jobs)

pub record DeadLetterFilters : Type 0 where
  pub queue : String
  pub error_type : String
  pub search : String

abbrev letter_type : Option Job → String
letter_type none = ""
letter_type (some job) = job.type

abbrev pub shows_letter : (String → String) → DeadLetterFilters → DeadLetter → Bool
shows_letter lower filters item =
    chosen filters.queue item.queue
    && (chosen filters.error_type (trim (or_empty item.error_type))
        && mentions lower (query lower filters.search) (
            letter_type item.job
            ∷ item.job_id
            ∷ or_empty item.error_type
            ∷ item.error_message
            ∷ item.queue
            ∷ []))

unfoldable pub visible_dead_letters :
    (String → String) → DeadLetterFilters → List DeadLetter → List DeadLetter
visible_dead_letters lower filters letters = keep (shows_letter lower filters) letters

-- `queues.join(" ")`.
abbrev join_words : List String → String
join_words [] = ""
join_words (w ∷ []) = w
join_words (w ∷ ws) = append w (append " " (join_words ws))

unfoldable pub visible_workers : (String → String) → String → List WorkerView → List WorkerView
visible_workers lower filter workers =
    keep
      (λ (w : WorkerView). mentions lower (query lower filter) (
        w.health.worker_id
        ∷ w.health.hostname
        ∷ w.effective_status
        ∷ join_words w.health.queues
        ∷ []))
      workers

unfoldable pub visible_schedules : (String → String) → String → List Schedule → List Schedule
visible_schedules lower filter schedules =
    keep
      (λ (s : Schedule).
        mentions lower (query lower filter) (s.name ∷ s.type ∷ s.queue ∷ s.cron_expression ∷ []))
      schedules

-- The events' own field comes before the search of the whole console.
unfoldable pub visible_events :
    (String → String) → String → String → List SystemEvent → List SystemEvent
visible_events lower filter search_query events =
    keep
      (λ (x : SystemEvent). mentions lower (query lower (or_text filter search_query)) (
        x.kind
        ∷ or_empty x.message
        ∷ or_empty x.job_id
        ∷ or_empty x.queue
        ∷ or_empty x.worker_id
        ∷ []))
      events
