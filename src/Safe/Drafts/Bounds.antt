-- ===== src/Safe/Drafts/Bounds.antt =====
-- The fields of a job made from a draft (src/lib/safe.ts, `createJobFromDraft`).
use distributed_job_platform.Base.{
  ℕ, ◌≤◌, ◌<◌, ◌≡◌, refl, ◌⊎◌, inl, inr, String, true, false, List, [], ◌∷◌, length, ltb, truthy,
  or_text, trim, Bool-cases, arith, ◌≢◌,
}
use distributed_job_platform.Json.{Json}
use distributed_job_platform.Models.Jobs.{JobState, queued, scheduled, blocked}
use distributed_job_platform.Safe.Drafts.{
  JobDraft, Host, Whole, nonneg, negative, at_least, as_number, parse_dependency_ids, run_instant,
  draft_state, create_job_from_draft,
}

at_least_le : (low : ℕ) (n : Whole) → low ≤ at_least low n
at_least_le low (nonneg n) = omega arith
at_least_le low (negative n) = omega arith

named : (a b : String) → truthy b ≡ true → truthy (or_text a b) ≡ true
named a b h = ground arith

filled : (xs : List String) → ltb 0 (length xs) ≡ true → xs ≢ []
filled [] h = ground arith
filled (x ∷ xs) h = λ e. ground arith

blank : (xs : List String) → ltb 0 (length xs) ≡ false → xs ≡ []
blank [] h = refl
blank (x ∷ xs) h = ground arith

-- The state that fits the dependencies and the instant at which the job is to run.
pub Fits : Host → JobDraft → JobState → Type 0
Fits host draft state =
    ((parse_dependency_ids draft.dependencies ≢ []) × (state ≡ blocked))
    ⊎ ((parse_dependency_ids draft.dependencies ≡ [])
        × ((host.now < run_instant host draft × (state ≡ scheduled))
            ⊎ (run_instant host draft ≤ host.now × (state ≡ queued))))

draft_state-Fits : (host : Host) (draft : JobDraft) → Fits host draft (draft_state host draft)
unfolding Fits draft_state
draft_state-Fits host draft =
    elim (Bool-cases (ltb 0 (length (parse_dependency_ids draft.dependencies)))) [
      | inl some_ids ↦
          rw some_ids (inl (filled (parse_dependency_ids draft.dependencies) some_ids, refl))
      | inr no_ids ↦ rw no_ids (
          inr (
            blank (parse_dependency_ids draft.dependencies) no_ids,
            elim (Bool-cases (ltb host.now (run_instant host draft))) [
              | inl later ↦ rw later (inl (ground arith, refl))
              | inr now ↦ rw now (inr (ground arith, refl))
            ],
          ))
    ]

-- A job made from a draft, whatever its texts, has a type, a queue and a tenant, a priority of at
-- most 9 and at least one attempt, and it is blocked when it has dependencies, and else scheduled or
-- queued as it is to run later or now.
pub create_job_from_draft-Fits :
    (host : Host) (draft : JobDraft) (payload : Json)
    → let job = create_job_from_draft host draft payload in
      (job.priority ≤ 9)
      × (1 ≤ job.max_attempts)
      × (truthy job.type ≡ true)
      × (truthy job.queue ≡ true)
      × (truthy job.tenant_id ≡ true)
      × Fits host draft job.state
unfolding create_job_from_draft
create_job_from_draft-Fits host draft payload = (
  omega arith,
  at_least_le 1 (as_number host draft.max_attempts (nonneg 5)),
  named (trim draft.type) "email.send" refl,
  named (trim draft.queue) "default" refl,
  named (trim draft.tenant_id) "default" refl,
  draft_state-Fits host draft,
)
