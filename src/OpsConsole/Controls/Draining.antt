-- ===== src/OpsConsole/Controls/Draining.antt =====
-- Draining a queue in demo mode (src/components/OpsConsole.tsx, `setQueueControl`).
use distributed_job_platform.Base.{
  ◌+◌, ◌≡◌, ◌≢◌, refl, ◌∙◌, String, Bool, false, ◌||◌, List, [], ◌∷◌, map, tally, str_eq_iff,
  lookup, arith,
}
use distributed_job_platform.Models.Jobs.{Job, JobState, canceled}
use distributed_job_platform.Models.Console.{ConsoleData}
use distributed_job_platform.ConsoleData.Summary.{is_waiting, or_zero}
use distributed_job_platform.ConsoleData.Summary.Counts.{is_state, in_state, waits_in}
use distributed_job_platform.ConsoleData.Reconciling.{tally-reconcile_jobs}
use distributed_job_platform.ConsoleData.Settled.{
  IsSettled, append_event_rest, reconcile_console_data-IsSettled, append_event-IsSettled,
}
use distributed_job_platform.OpsConsole.Updates.{Turn}
use distributed_job_platform.OpsConsole.Controls.{drain, drain_job, set_queue_control}

drained_jobs :
    (p : Job → Bool) (t : Turn) (q : String) (d : ConsoleData)
    → tally p (set_queue_control t q drain d).jobs ≡ tally p (map (drain_job t q) d.jobs)
unfolding set_queue_control
drained_jobs p t q d = rw (append_event_rest t.clock _ _).0 (tally-reconcile_jobs p t.clock t.now _)

tally-drained :
    (t : Turn) (q : String) (js : List Job) → tally (waits_in q) (map (drain_job t q) js) ≡ 0
tally-drained t q [] = refl
tally-drained t q (j ∷ js) = ground (arith, tally-drained t q js)

tally-other_queue :
    (t : Turn) (q r : String) (js : List Job)
    → q ≢ r
    → tally (waits_in r) (map (drain_job t q) js) ≡ tally (waits_in r) js
tally-other_queue t q r [] h = refl
tally-other_queue t q r (j ∷ js) h =
    ground (arith, tally-other_queue t q r js, str_eq_iff j.queue q, str_eq_iff j.queue r)

tally-canceled :
    (t : Turn) (q : String) (js : List Job)
    → tally (in_state canceled) (map (drain_job t q) js)
      ≡ tally (in_state canceled) js + tally (waits_in q) js
tally-canceled t q [] = refl
tally-canceled t q (j ∷ js) = ground (arith, tally-canceled t q js)

abbrev pub is_touched : JobState → Bool
is_touched k = is_waiting k || is_state k canceled

tally-untouched :
    (t : Turn) (q : String) (k : JobState) (js : List Job)
    → is_touched k ≡ false
    → tally (in_state k) (map (drain_job t q) js) ≡ tally (in_state k) js
tally-untouched t q k [] h = refl
tally-untouched t q k (j ∷ js) h = ground (arith, tally-untouched t q k js)

drained-IsSettled :
    (t : Turn) (q : String) (d : ConsoleData) → IsSettled t.clock (set_queue_control t q drain d)
unfolding set_queue_control
drained-IsSettled t q d =
    append_event-IsSettled t.clock _ _ (reconcile_console_data-IsSettled t.clock t.now _)

-- Draining a queue leaves no job waiting in it, and the overview says so; what waits in any other queue
-- still waits; exactly the jobs that waited are canceled; and as many jobs as before are blocked,
-- throttled, active, completed and failed.
pub set_queue_control-drain :
    (t : Turn) (q : String) (d : ConsoleData)
    → let r = set_queue_control t q drain d in
      (tally (waits_in q) r.jobs ≡ 0)
      × (or_zero (lookup q r.snapshot.overview.queue_lengths) ≡ 0)
      × ((other : String)
          → q ≢ other
          → tally (waits_in other) r.jobs ≡ tally (waits_in other) d.jobs)
      × (tally (in_state canceled) r.jobs
          ≡ tally (in_state canceled) d.jobs + tally (waits_in q) d.jobs)
      × ((k : JobState)
          → is_touched k ≡ false
          → tally (in_state k) r.jobs ≡ tally (in_state k) d.jobs)
set_queue_control-drain t q d =
    let none_waits = drained_jobs (waits_in q) t q d ∙ tally-drained t q d.jobs in
    (
      none_waits,
      (drained-IsSettled t q d).counted.by_queue q ∙ none_waits,
      λ other h. drained_jobs (waits_in other) t q d ∙ tally-other_queue t q other d.jobs h,
      drained_jobs (in_state canceled) t q d ∙ tally-canceled t q d.jobs,
      λ k h. drained_jobs (in_state k) t q d ∙ tally-untouched t q k d.jobs h,
    )
