-- ===== src/OpsConsole/Forms/Checks.antt =====
-- What the checks of the forms accept, and how the two modes read an accepted draft
-- (src/components/OpsConsole.tsx, `validateJobForm`, `submitJob`).
use distributed_job_platform.Base.{
  zero, suc, ◌≡◌, refl, String, Bool, true, false, not, ◌&&◌, List, [], ◌∷◌, Option, none, some,
  insert, truthy, trim, arith,
}
use distributed_job_platform.Json.{Json}
use distributed_job_platform.ApiParsers.{Result}
use distributed_job_platform.Safe.Drafts.{
  JobDraft, Host, Whole, nonneg, negative, Extended, finite, infinite, minus_infinite, at_least,
  clamp, or_number, create_job_from_draft,
}
use distributed_job_platform.Models.Snapshot.{amount, unbounded}
use distributed_job_platform.OpsConsole.Forms.{
  JobForm, is_off_scale, is_past, is_empty, job_form_errors, validate_job_form, job_request,
  number_or_else, amount_at_least, clamp_extended, safe_json_parse, note_if,
}

insert-is_empty : (k v : String) (es : List (String × String)) → is_empty (insert k v es) ≡ false
unfolding insert
insert-is_empty k v [] = refl
insert-is_empty k v ((j, w) ∷ es) = ground arith

note_if-is_empty :
    (b : Bool) (k v : String) (es : List (String × String))
    → is_empty (note_if b k v es) ≡ (is_empty es && not b)
unfolding note_if
note_if-is_empty true k v es = ground (arith, insert-is_empty k v es)
note_if-is_empty false k v es = ground arith

-- The draft's fields are in order: a type, a tenant, a payload that parses, a priority on the scale, and
-- no instant or one to come.
abbrev pub is_in_order : Host → String → JobDraft → Bool
is_in_order host payload_error draft =
    truthy (trim draft.type)
    && (truthy (trim draft.tenant_id)
        && (not (truthy payload_error)
            && (not (is_off_scale (host.number_of draft.priority))
                && not (
                    truthy (trim draft.scheduled_at)
                    && is_past host.now (host.time_of draft.scheduled_at)))))

errors_lem :
    (host : Host) (payload_error : String) (draft : JobDraft)
    → is_empty (job_form_errors host payload_error draft) ≡ is_in_order host payload_error draft
unfolding job_form_errors
errors_lem host payload_error draft = rw note_if-is_empty (
    rw note_if-is_empty
      (rw note_if-is_empty (rw note_if-is_empty (rw note_if-is_empty (ground arith)))))

-- The job form has no error exactly when the draft has a type and a tenant, a payload that parses or is
-- empty, a priority that is no number or lies between 0 and 9, and no instant or one to come.
pub validate_job_form-is_in_order :
    (parse : String → Result Json) (host : Host) (draft : JobDraft)
    → is_empty (validate_job_form parse host draft).errors
      ≡ is_in_order host (safe_json_parse parse draft.payload).error draft
unfolding validate_job_form
validate_job_form-is_in_order parse host draft =
    errors_lem host (safe_json_parse parse draft.payload).error draft

abbrev pub zero_number : Option Extended
zero_number = some (finite (nonneg 0))

-- NaN, or a finite number but 0.
abbrev pub is_shared : Option Extended → Bool
is_shared none = true
is_shared (some (finite (nonneg zero))) = false
is_shared (some (finite w)) = true
is_shared (some n) = false

-- How the two modes read the text of a priority, and of a count of attempts.
priority_lem :
    (n : Option Extended)
    → is_shared n ≡ true
    → clamp_extended (number_or_else n (nonneg 5)) 0 9 ≡ clamp (or_number n (nonneg 5)) 0 9
priority_lem none h = refl
priority_lem (some (finite (nonneg zero))) h = ground arith
priority_lem (some (finite (nonneg (suc n)))) h = refl
priority_lem (some (finite (negative n))) h = refl
priority_lem (some infinite) h = ground arith
priority_lem (some minus_infinite) h = ground arith

attempts_lem :
    (n : Option Extended)
    → is_shared n ≡ true
    → amount_at_least 1 (number_or_else n (nonneg 5)) ≡ amount (at_least 1 (or_number n (nonneg 5)))
attempts_lem none h = refl
attempts_lem (some (finite (nonneg zero))) h = ground arith
attempts_lem (some (finite (nonneg (suc n)))) h = refl
attempts_lem (some (finite (negative n))) h = refl
attempts_lem (some infinite) h = ground arith
attempts_lem (some minus_infinite) h = ground arith

timeout_lem :
    (n : Option Extended) (w : Whole)
    → n ≡ some (finite w)
    → amount_at_least 0 (number_or_else n (nonneg 0))
      ≡ amount (at_least 0 (or_number n (nonneg 60)))
timeout_lem n (nonneg zero) h = rw h refl
timeout_lem n (nonneg (suc w)) h = rw h refl
timeout_lem n (negative w) h = rw h refl

-- The request of a draft with a type and the job that demo mode makes of it have one type, queue and
-- tenant; one priority and one limit of attempts where the draft has NaN or a finite number but 0, and one
-- timeout where it has a finite number. A request reads 0 as 5, and demo mode as the priority 0 and one
-- attempt; an infinite limit of attempts is infinite in the request and 5 in demo mode, and an infinite
-- timeout is infinite in the request and 60 in demo mode; and a timeout that is NaN is 0 in the request and
-- 60 in demo mode.
pub job_request-create_job_from_draft :
    (host : Host) (draft : JobDraft) (form : JobForm) (payload : Json)
    → truthy (trim draft.type) ≡ true
    → let r = job_request host draft form payload in
      let j = create_job_from_draft host draft payload in
      (r.type ≡ j.type)
      × (r.queue ≡ j.queue)
      × (r.tenant_id ≡ j.tenant_id)
      × (is_shared (host.number_of draft.priority) ≡ true → r.priority ≡ j.priority)
      × (host.number_of draft.priority ≡ zero_number → (r.priority ≡ 5) × (j.priority ≡ 0))
      × (is_shared (host.number_of draft.max_attempts) ≡ true
          → r.max_attempts ≡ amount j.max_attempts)
      × (host.number_of draft.max_attempts ≡ zero_number
          → (r.max_attempts ≡ amount 5) × (j.max_attempts ≡ 1))
      × (host.number_of draft.max_attempts ≡ some infinite
          → (r.max_attempts ≡ unbounded) × (j.max_attempts ≡ 5))
      × ((w : Whole)
          → host.number_of draft.timeout_seconds ≡ some (finite w)
          → r.timeout_seconds ≡ amount j.timeout_seconds)
      × (host.number_of draft.timeout_seconds ≡ some infinite
          → (r.timeout_seconds ≡ unbounded) × (j.timeout_seconds ≡ 60))
      × (host.number_of draft.timeout_seconds ≡ none
          → (r.timeout_seconds ≡ amount 0) × (j.timeout_seconds ≡ 60))
unfolding job_request create_job_from_draft
job_request-create_job_from_draft host draft form payload typed = (
  rw typed refl,
  refl,
  refl,
  priority_lem (host.number_of draft.priority),
  λ h. rw h (refl, refl),
  attempts_lem (host.number_of draft.max_attempts),
  λ h. rw h (refl, refl),
  λ h. rw h (refl, refl),
  timeout_lem (host.number_of draft.timeout_seconds),
  λ h. rw h (refl, refl),
  λ h. rw h (refl, refl),
)
