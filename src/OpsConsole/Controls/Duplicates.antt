-- ===== src/OpsConsole/Controls/Duplicates.antt =====
-- Submitting a job twice under one key (src/components/OpsConsole.tsx, `submitJob`).
use distributed_job_platform.Base.{
  ◌≡◌, refl, ◌≤◌, Bool, true, List, [], ◌∷◌, Option, none, some, find, tally, trim, trim-trim,
  truthy, or_text, str_eq_refl, Bool-cases, inl, inr, arith,
}
use distributed_job_platform.Json.{Json}
use distributed_job_platform.Models.Jobs.{Job}
use distributed_job_platform.Models.Console.{ConsoleData}
use distributed_job_platform.Safe.Drafts.{JobDraft, Host, create_job_from_draft}
use distributed_job_platform.ConsoleData.Replacing.{tally-replace_job}
use distributed_job_platform.ConsoleData.Settled.{append_event_rest}
use distributed_job_platform.OpsConsole.Updates.{Turn}
use distributed_job_platform.OpsConsole.Controls.{
  is_duplicate, enqueue_job, submitted, submit_job, request_tenant_id, request_type,
}

-- The test for the duplicates of a draft.
abbrev of_draft : JobDraft → Job → Bool
of_draft draft =
    is_duplicate (request_tenant_id draft) (request_type draft) (trim draft.idempotency_key)

-- The job that a draft makes is a duplicate of it.
created-of_draft :
    (host : Host) (draft : JobDraft) (payload : Json)
    → truthy (request_type draft) ≡ true
    → of_draft draft (create_job_from_draft host draft payload) ≡ true
unfolding create_job_from_draft
created-of_draft host draft payload h = rw h (
    rw (trim-trim draft.idempotency_key) (
      ground (
        arith,
        str_eq_refl (or_text (trim draft.tenant_id) "default"),
        str_eq_refl (trim draft.type),
        str_eq_refl (trim draft.idempotency_key),
      )))

find-some : (p : Job → Bool) (js : List Job) → 1 ≤ tally p js → (job : Job) × (find p js ≡ some job)
find-some p [] h = ground arith
find-some p (j ∷ js) h = elim (Bool-cases (p j)) [
  | inl e ↦ (j, rw e refl)
  | inr e ↦ let (job, f) = find-some p js (ground arith) in (job, rw e f)
]

enqueued :
    (t : Turn) (job : Job) (d : ConsoleData) (p : Job → Bool)
    → p job ≡ true
    → 1 ≤ tally p (enqueue_job t job d).jobs
unfolding enqueue_job
enqueued t job d p h =
    rw (append_event_rest t.clock _ _).0 (ground (arith, tally-replace_job p t.clock t.now d job))

submitted-again :
    (t u : Turn) (job next : Job) (d : ConsoleData) (p : Job → Bool) (found : Option Job)
    → find p d.jobs ≡ found
    → p job ≡ true
    → let r = (submitted t job d found).0 in (submitted u next r (find p r.jobs)).0 ≡ r
submitted-again t u job next d p (some duplicate) e h = rw e refl
submitted-again t u job next d p none e h =
    let (other, f) = find-some p (enqueue_job t job d).jobs (enqueued t job d p h) in rw f refl

-- After a draft with a job type and an idempotency key has been submitted in demo mode, submitting it
-- once more, whatever its payload reads as by then, at whatever instant, changes nothing.
pub submit_job-submit_job :
    (t u : Turn) (host later : Host) (draft : JobDraft) (payload again : Json) (d : ConsoleData)
    → truthy (trim draft.type) ≡ true
    → truthy (trim draft.idempotency_key) ≡ true
    → let r = (submit_job t host draft payload d).0 in (submit_job u later draft again r).0 ≡ r
unfolding submit_job
submit_job-submit_job t u host later draft payload again d type key = rw key (
    submitted-again t u (create_job_from_draft host draft payload)
      (create_job_from_draft later draft again) d (of_draft draft) (find (of_draft draft) d.jobs)
      refl (created-of_draft host draft payload type))
