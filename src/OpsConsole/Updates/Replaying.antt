-- ===== src/OpsConsole/Updates/Replaying.antt =====
-- Replaying the selected dead letters in demo mode (src/components/OpsConsole.tsx,
-- `replaySelectedDeadLetters`).
use distributed_job_platform.Base.{
  ◌+◌, ◌≤◌, ◌≡◌, refl, sym, ◌∙◌, max, String, Bool, true, false, not, ◌&&◌, List, [], ◌∷◌, Option,
  none, some, find-none, find-tally, find_passes, any, tally, includes, str_eq, str_eq_iff,
  str_eq_refl, ◌==◌, if◌then◌else◌, Bool-cases, Option-cases, inl, inr, arith,
}
use distributed_job_platform.Json.{Json}
use distributed_job_platform.Models.Jobs.{Job, queued}
use distributed_job_platform.Models.Console.{ConsoleData}
use distributed_job_platform.ConsoleData.{replace_job, remove_dead_letters, has_id}
use distributed_job_platform.ConsoleData.Summary.Counts.{is_state}
use distributed_job_platform.ConsoleData.Reconciling.{
  tally-reconcile_jobs, tally-reconcile_dead_letters,
}
use distributed_job_platform.ConsoleData.Replacing.{tally-replace_job}
use distributed_job_platform.ConsoleData.DeadLetters.{
  is_of, tally-remove_dead_letters, tally-gone, tally-stays,
}
use distributed_job_platform.ConsoleData.Settled.{append_event_rest}
use distributed_job_platform.OpsConsole.Updates.{
  Turn, make_system_event, find_job, counted_jobs, bulk_replayed, replay_selected_one,
  replay_selected, replay_selected_dead_letters,
}

-- A job under the id that does not wait in the queue as a fresh one.
abbrev pub is_stale : String → String → Job → Bool
is_stale queue i x =
    has_id i x && not (str_eq x.queue queue && (is_state x.state queued && x.attempts == 0))

removed_jobs :
    (p : Job → Bool) (t : Turn) (d : ConsoleData) (ids : List String)
    → tally p (remove_dead_letters t.clock t.now d ids).jobs ≡ tally p d.jobs
unfolding remove_dead_letters
removed_jobs p t d ids = tally-reconcile_jobs p t.clock t.now _

module _ (t : Turn) (queue : String) (o : Option Json) where
  jobs_missing :
      (i : String) (d : ConsoleData)
      → find_job i d.jobs ≡ none
      → replay_selected_one t queue o i d ≡ d
  unfolding replay_selected_one
  jobs_missing i d h = rw h refl

  found_id : (i : String) (d : ConsoleData) (job : Job) → find_job i d.jobs ≡ some job → job.id ≡ i
  found_id i d job h = (str_eq_iff job.id i).0 (find_passes (has_id i) d.jobs job h)

  jobs_found :
      (p : Job → Bool) (i : String) (d : ConsoleData) (job : Job)
      → find_job i d.jobs ≡ some job
      → tally p (replay_selected_one t queue o i d).jobs
        ≡ tally (λ x. p x && not (has_id i x)) d.jobs
          + (if p (bulk_replayed t queue o job) then max 1 (tally (has_id i) d.jobs) else 0)
  unfolding replay_selected_one
  jobs_found p i d job h = rw h (
      rw (sym (found_id i d job h))
        (removed_jobs p t _ _ ∙ tally-replace_job p t.clock t.now d (bulk_replayed t queue o job)))

  tally-apart :
      (p : Job → Bool) (i : String) (js : List Job)
      → ((x : Job) → p x ≡ true → has_id i x ≡ false)
      → tally (λ x. p x && not (has_id i x)) js ≡ tally p js
  tally-apart p i [] h = refl
  tally-apart p i (x ∷ js) h = ground (arith, tally-apart p i js h, h x)

  tally-part :
      (p : Job → Bool) (i : String) (js : List Job)
      → ((x : Job) → p x ≡ true → has_id i x ≡ true)
      → tally (λ x. p x && not (has_id i x)) js ≡ 0
  tally-part p i [] h = refl
  tally-part p i (x ∷ js) h = ground (arith, tally-part p i js h, h x)

  found_once :
      (i : String) (d : ConsoleData) (job : Job)
      → find_job i d.jobs ≡ some job
      → 1 ≤ tally (has_id i) d.jobs
  found_once i d job h =
      find-tally (has_id i) (has_id i) d.jobs job h (find_passes (has_id i) d.jobs job h)

  -- The jobs that another id tells are untouched.
  apart :
      (p : Job → Bool) (i : String) (d : ConsoleData)
      → ((x : Job) → p x ≡ true → has_id i x ≡ false)
      → tally p (replay_selected_one t queue o i d).jobs ≡ tally p d.jobs
  apart p i d h = elim (Option-cases (find_job i d.jobs)) [
    | inl e ↦ rw (jobs_missing i d e) refl
    | inr (job, e) ↦ ground (
      arith,
      jobs_found p i d job e,
      tally-apart p i d.jobs h,
      h (bulk_replayed t queue o job),
      find_passes (has_id i) d.jobs job e,
    )
  ]

  same_id :
      (i : String) (d : ConsoleData)
      → tally (has_id i) (replay_selected_one t queue o i d).jobs ≡ tally (has_id i) d.jobs
  same_id i d = elim (Option-cases (find_job i d.jobs)) [
    | inl e ↦ rw (jobs_missing i d e) refl
    | inr (job, e) ↦ ground (
      arith,
      jobs_found (has_id i) i d job e,
      tally-part (has_id i) i d.jobs (λ x k. k),
      found_once i d job e,
      find_passes (has_id i) d.jobs job e,
    )
  ]

  stale_id : (i : String) (x : Job) → is_stale queue i x ≡ true → has_id i x ≡ true
  stale_id i x h = ground arith

  tally-no_id : (i : String) (js : List Job) → any (has_id i) js ≡ false → tally (has_id i) js ≡ 0
  tally-no_id i [] h = refl
  tally-no_id i (x ∷ js) h = ground (arith, tally-no_id i js)

  tally-absent :
      (i : String) (js : List Job) → any (has_id i) js ≡ false → tally (is_stale queue i) js ≡ 0
  tally-absent i [] h = refl
  tally-absent i (x ∷ js) h = ground (arith, tally-absent i js)

  none_stale :
      (i : String) (d : ConsoleData)
      → tally (is_stale queue i) (replay_selected_one t queue o i d).jobs ≡ 0
  none_stale i d = elim (Option-cases (find_job i d.jobs)) [
    | inl e ↦ rw (jobs_missing i d e) (tally-absent i d.jobs (find-none (has_id i) d.jobs e))
    | inr (job, e) ↦ ground (
      arith,
      jobs_found (is_stale queue i) i d job e,
      tally-part (is_stale queue i) i d.jobs (stale_id i),
      str_eq_refl queue,
    )
  ]

  other_id :
      (k i : String) → str_eq i k ≡ false → (x : Job) → has_id k x ≡ true → has_id i x ≡ false
  other_id k i h x e = ground (arith, str_eq_iff x.id k, str_eq_iff x.id i, str_eq_iff i k)

  ids_kept :
      (k : String) (ids : List String) (d : ConsoleData)
      → tally (has_id k) (replay_selected t queue o ids d).jobs ≡ tally (has_id k) d.jobs
  unfolding replay_selected
  ids_kept k [] d = refl
  ids_kept k (i ∷ ids) d =
      ids_kept k ids (replay_selected_one t queue o i d) ∙ (elim (Bool-cases (str_eq i k)) [
        | inl e ↦ rw (sym ((str_eq_iff i k).0 e)) (same_id i d)
        | inr e ↦ apart (has_id k) i d (other_id k i e)
      ])

  unselected :
      (p : Job → Bool) (k : String)
      → ((x : Job) → p x ≡ true → has_id k x ≡ true)
      → (ids : List String) (d : ConsoleData) → includes k ids ≡ false
      → tally p (replay_selected t queue o ids d).jobs ≡ tally p d.jobs
  unfolding replay_selected
  unselected p k h [] d e = refl
  unselected p k h (i ∷ ids) d e =
      unselected p k h ids (replay_selected_one t queue o i d) (ground arith)
      ∙ apart p i d (λ x f. other_id k i (ground arith) x (h x f))

  selected :
      (k : String) (ids : List String) (d : ConsoleData)
      → includes k ids ≡ true
      → tally (is_stale queue k) (replay_selected t queue o ids d).jobs ≡ 0
  unfolding replay_selected
  selected k [] d h = ground arith
  selected k (i ∷ ids) d h = elim (Bool-cases (includes k ids)) [
    | inl e ↦ selected k ids (replay_selected_one t queue o i d) e
    | inr e ↦
        unselected (is_stale queue k) k (stale_id k) ids (replay_selected_one t queue o i d) e
        ∙ rw (sym ((str_eq_iff i k).0 (ground arith))) (none_stale i d)
  ]

  letters_found :
      (k i : String) (d : ConsoleData) (job : Job)
      → find_job i d.jobs ≡ some job
      → tally (is_of k) (replay_selected_one t queue o i d).snapshot.dead_letters
        ≡ tally (λ x. is_of k x && not (includes x.job_id (i ∷ []))) d.snapshot.dead_letters
  unfolding replay_selected_one replace_job
  letters_found k i d job h = rw h (
      tally-remove_dead_letters (is_of k) t.clock t.now _ (i ∷ [])
      ∙ tally-reconcile_dead_letters (λ x. is_of k x && not (includes x.job_id (i ∷ []))) t.clock
          t.now _)

  letters_apart :
      (k i : String) (d : ConsoleData)
      → str_eq i k ≡ false
      → tally (is_of k) (replay_selected_one t queue o i d).snapshot.dead_letters
        ≡ tally (is_of k) d.snapshot.dead_letters
  letters_apart k i d h = elim (Option-cases (find_job i d.jobs)) [
    | inl e ↦ rw (jobs_missing i d e) refl
    | inr (job, e) ↦
        letters_found k i d job e ∙ tally-stays k (i ∷ []) d.snapshot.dead_letters (ground arith)
  ]

  letters_unselected :
      (k : String) (ids : List String) (d : ConsoleData)
      → includes k ids ≡ false
      → tally (is_of k) (replay_selected t queue o ids d).snapshot.dead_letters
        ≡ tally (is_of k) d.snapshot.dead_letters
  unfolding replay_selected
  letters_unselected k [] d h = refl
  letters_unselected k (i ∷ ids) d h =
      letters_unselected k ids (replay_selected_one t queue o i d) (ground arith)
      ∙ letters_apart k i d (ground arith)

  letters_gone :
      (k : String) (d : ConsoleData)
      → 1 ≤ tally (has_id k) d.jobs
      → tally (is_of k) (replay_selected_one t queue o k d).snapshot.dead_letters ≡ 0
  letters_gone k d h = elim (Option-cases (find_job k d.jobs)) [
    | inl e ↦ ground (arith, tally-no_id k d.jobs (find-none (has_id k) d.jobs e))
    | inr (job, e) ↦
        letters_found k k d job e
        ∙ tally-gone k (k ∷ []) d.snapshot.dead_letters (ground (arith, str_eq_refl k))
  ]

  letters_selected :
      (k : String) (ids : List String) (d : ConsoleData)
      → includes k ids ≡ true
      → 1 ≤ tally (has_id k) d.jobs
      → tally (is_of k) (replay_selected t queue o ids d).snapshot.dead_letters ≡ 0
  unfolding replay_selected
  letters_selected k [] d h n = ground arith
  letters_selected k (i ∷ ids) d h n = elim (Bool-cases (includes k ids)) [
    | inl e ↦
        letters_selected k ids (replay_selected_one t queue o i d) e
          (ground (arith, ids_kept k (i ∷ []) d))
    | inr e ↦
        letters_unselected k ids (replay_selected_one t queue o i d) e
        ∙ rw ((str_eq_iff i k).0 (ground arith)) (letters_gone k d n)
  ]

-- Replaying the selected dead letters leaves every job under a selected id as a fresh one that waits in the
-- chosen queue, and the jobs under any other id as they were; no id has more or fewer jobs than before;
-- the dead letters of a selected id are gone if there is a job under it, and those of an id that is not
-- selected are as many as before.
pub replay_selected_dead_letters_lem :
    (t : Turn) (queue : String) (o : Option Json) (ids : List String) (d : ConsoleData) (k : String)
    → let r = replay_selected_dead_letters t queue o ids d in
      (tally (has_id k) r.jobs ≡ tally (has_id k) d.jobs)
      × (includes k ids ≡ true
          → (tally (is_stale queue k) r.jobs ≡ 0)
            × (1 ≤ tally (has_id k) d.jobs → tally (is_of k) r.snapshot.dead_letters ≡ 0))
      × (includes k ids ≡ false
          → ((p : Job → Bool)
              → ((x : Job) → p x ≡ true → has_id k x ≡ true)
              → tally p r.jobs ≡ tally p d.jobs)
            × (tally (is_of k) r.snapshot.dead_letters ≡ tally (is_of k) d.snapshot.dead_letters))
unfolding replay_selected_dead_letters
replay_selected_dead_letters_lem t queue o ids d k =
    let (jobs, snapshot) = append_event_rest t.clock (replay_selected t queue o ids d) (
      make_system_event t "job.replayed" none (some queue) none none
        (some (counted_jobs ids " dead-letter jobs replayed"))) in
    rw jobs (
      rw snapshot (
        ids_kept t queue o k ids d,
        λ h. (selected t queue o k ids d h, letters_selected t queue o k ids d h),
        λ h. (λ p f. unselected t queue o p k f ids d h, letters_unselected t queue o k ids d h),
      ))
