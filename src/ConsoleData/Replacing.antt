-- ===== src/ConsoleData/Replacing.antt =====
-- Replacing a job (src/lib/console-data.ts, `replaceJob`).
use distributed_job_platform.Base.{
  ℕ, ◌+◌, ◌≤◌, ◌≡◌, max, Bool, true, false, not, ◌&&◌, List, [], ◌∷◌, map, any, tally,
  if◌then◌else◌, arith, Bool-cases, inl, inr, ◌∙◌,
}
use distributed_job_platform.Models.Jobs.{Job}
use distributed_job_platform.Models.Console.{ConsoleData, Clock}
use distributed_job_platform.ConsoleData.{replace_job, has_id}
use distributed_job_platform.ConsoleData.Reconciling.{tally-reconcile_jobs}

abbrev put : Job → Job → Job
put job x = if has_id job.id x then job else x

tally-put :
    (p : Job → Bool) (job : Job) (js : List Job)
    → tally p (map (put job) js)
      ≡ tally (λ x. p x && not (has_id job.id x)) js
        + (if p job then tally (has_id job.id) js else 0)
tally-put p job [] = ground arith
tally-put p job (x ∷ xs) = ground (arith, tally-put p job xs)

tally-absent :
    (job : Job) (js : List Job) → any (has_id job.id) js ≡ false → tally (has_id job.id) js ≡ 0
tally-absent job [] h = omega arith
tally-absent job (x ∷ xs) h = ground (arith, tally-absent job xs)

tally-present :
    (job : Job) (js : List Job) → any (has_id job.id) js ≡ true → 1 ≤ tally (has_id job.id) js
tally-present job [] h = ground arith
tally-present job (x ∷ xs) h = ground (arith, tally-present job xs)

tally-put_none :
    (p : Job → Bool) (job : Job) (js : List Job)
    → any (has_id job.id) js ≡ false
    → tally (λ x. p x && not (has_id job.id x)) js ≡ tally p js
tally-put_none p job [] h = omega arith
tally-put_none p job (x ∷ xs) h = ground (arith, tally-put_none p job xs)

-- After a job is replaced, every other job is there as often as before, and the job itself is there
-- once, or as often as its id was, whatever the test that counts them.
pub tally-replace_job :
    (p : Job → Bool) (c : Clock) (now : ℕ) (d : ConsoleData) (job : Job)
    → tally p (replace_job c now d job).jobs
      ≡ tally (λ x. p x && not (has_id job.id x)) d.jobs
        + (if p job then max 1 (tally (has_id job.id) d.jobs) else 0)
unfolding replace_job
tally-replace_job p c now d job = elim (Bool-cases (any (has_id job.id) d.jobs)) [
  | inl e ↦ rw e (
      tally-reconcile_jobs p c now (record d { jobs = map (put job) d.jobs })
      ∙ ground (arith, tally-put p job d.jobs, tally-present job d.jobs e))
  | inr e ↦ rw e (
      tally-reconcile_jobs p c now (record d { jobs = job ∷ d.jobs })
      ∙ ground (arith, tally-put_none p job d.jobs e, tally-absent job d.jobs e))
]
