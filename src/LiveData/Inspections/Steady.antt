-- ===== src/LiveData/Inspections/Steady.antt =====
-- What the drawer shows while the cache is kept in step, and after a failed refresh
-- (src/hooks/useDashboardLiveData.ts).
use distributed_job_platform.Base.{
  ℕ, ◌≡◌, refl, sym, ap, ◌∙◌, String, List, Option, none, some, find, lookup, lookup-insert, truthy,
  str_eq_refl, any, ◌==◌, Bool-cases, inl, inr,
}
use distributed_job_platform.Models.Jobs.{Job, JobInspection, DeadLetter}
use distributed_job_platform.Models.Console.{ConsoleData, Clock}
use distributed_job_platform.ConsoleData.{has_id}
use distributed_job_platform.ConsoleData.Workflows.{get_inspection}
use distributed_job_platform.Safe.{create_inspection_fallback}
use distributed_job_platform.LiveData.Inspections.{
  Drawer, Inspector, store_fallback, apply_inspection_fallback, cached_data, has_signature,
  create_inspection_signature, refused, finish_inspection, carries, letter_with, with_latest,
  in_step, synced, sync_inspection, latest_or, shown, selected_inspection,
}

letter_with-letter_with :
    (latest : Job) (o : Option DeadLetter)
    → letter_with latest (letter_with latest o) ≡ letter_with latest o
letter_with-letter_with latest none = refl
letter_with-letter_with latest (some letter) = elim (Bool-cases (carries latest letter.job)) [
  | inl e ↦ rw e (rw (str_eq_refl latest.id) refl)
  | inr e ↦ rw e (rw e refl)
]

with_latest-with_latest :
    (latest : Job) (x : JobInspection)
    → with_latest latest (with_latest latest x) ≡ with_latest latest x
with_latest-with_latest latest x = rw (letter_with-letter_with latest x.dead_letter) refl

shown_again :
    (c : Clock) (d : ConsoleData) (i : String) (x : JobInspection) (latest : Job)
    (cache : List (String × JobInspection))
    → find (has_id i) d.jobs ≡ some latest
    → shown c d cache i (some (with_latest latest x)) ≡ shown c d cache i (some x)
shown_again c d i x latest cache h = rw h (ap some (with_latest-with_latest latest x))

selected-synced :
    (c : Clock) (d : ConsoleData) (i : String) (cache : List (String × JobInspection))
    (cached : Option JobInspection) (latest : Option Job)
    → lookup i cache ≡ cached
    → find (has_id i) d.jobs ≡ latest
    → let after = synced i cached latest cache in
      shown c d after i (lookup i after) ≡ shown c d cache i (lookup i cache)
selected-synced c d i cache none latest h k = refl
selected-synced c d i cache (some x) none h k = refl
selected-synced c d i cache (some x) (some latest) h k = elim (Bool-cases (in_step x latest)) [
  | inl e ↦ rw e refl
  | inr e ↦ rw e (
      rw (lookup-insert i i (with_latest latest x) cache)
        (rw (str_eq_refl i) (rw h (shown_again c d i x latest cache k))))
]

inspection_cached :
    (e : Inspector) (s : Drawer) (i : String) (x : JobInspection)
    → lookup i s.cache ≡ some x
    → get_inspection e.clock (cached_data s) i ≡ some x
unfolding get_inspection
inspection_cached e s i x h = rw h refl

inspection_none :
    (e : Inspector) (s : Drawer) (i : String)
    → lookup i s.cache ≡ none
    → find (has_id i) s.console_data.jobs ≡ none
    → get_inspection e.clock (cached_data s) i ≡ none
unfolding get_inspection
inspection_none e s i h k = rw h (rw k refl)

inspection_fresh :
    (e : Inspector) (s : Drawer) (i : String) (job : Job)
    → lookup i s.cache ≡ none
    → find (has_id i) s.console_data.jobs ≡ some job
    → get_inspection e.clock (cached_data s) i
      ≡ some (create_inspection_fallback e.clock job s.console_data.jobs)
unfolding get_inspection
inspection_fresh e s i job h k = rw h (rw k refl)

-- A fallback that is stored is what is shown, if it was before.
stored :
    (e : Inspector) (s : Drawer) (i : String) (fallback : JobInspection)
    → shown e.clock s.console_data s.cache i (lookup i s.cache)
      ≡ some (latest_or (find (has_id i) s.console_data.jobs) fallback)
    → let after = (store_fallback e i (some fallback) s).cache in
      shown e.clock s.console_data after i (lookup i after)
      ≡ shown e.clock s.console_data s.cache i (lookup i s.cache)
stored e s i fallback h =
    elim (Bool-cases
      (has_signature (lookup i s.signatures) (create_inspection_signature e fallback))) [
        | inl a ↦ rw a refl
        | inr a ↦ rw a (rw (lookup-insert i i fallback s.cache) (rw (str_eq_refl i) (sym h)))
      ]

applied :
    (e : Inspector) (s : Drawer) (i : String) (cached : Option JobInspection) (latest : Option Job)
    → lookup i s.cache ≡ cached
    → find (has_id i) s.console_data.jobs ≡ latest
    → let after = (store_fallback e i (get_inspection e.clock (cached_data s) i) s).cache in
      shown e.clock s.console_data after i (lookup i after)
      ≡ shown e.clock s.console_data s.cache i (lookup i s.cache)
unfolding get_inspection create_inspection_fallback
applied e s i (some x) latest h k =
    rw (inspection_cached e s i x h)
      (stored e s i x (ap (shown e.clock s.console_data s.cache i) h))
applied e s i none none h k = rw (inspection_none e s i h k) refl
applied e s i none (some job) h k =
    let fresh = inspection_fresh e s i job h k in
    rw fresh (
      stored e s i (create_inspection_fallback e.clock job s.console_data.jobs) (
        ap (shown e.clock s.console_data s.cache i) h
        ∙ fresh
        ∙ ap (λ o. some (latest_or o (create_inspection_fallback e.clock job s.console_data.jobs)))
            (sym k)))

-- Keeping the cached inspection in step with the jobs never changes which inspection the drawer shows, and
-- neither does a refresh of the inspection that fails, whatever its error.
pub selected_inspection-steady :
    (e : Inspector) (s : Drawer) (i : String) (number : ℕ) (previous : Option String)
    (message : String)
    → let now = selected_inspection e.clock s.console_data s.cache i in
      (selected_inspection e.clock s.console_data (sync_inspection s.console_data i s.cache) i
        ≡ now)
      × (selected_inspection e.clock s.console_data
            (finish_inspection e i number previous (refused message) s).cache
            i
          ≡ now)
unfolding selected_inspection sync_inspection finish_inspection apply_inspection_fallback
selected_inspection-steady e s i number previous message = elim (Bool-cases (truthy i)) [
  | inr t ↦ (rw t refl, rw t refl)
  | inl t ↦ (
    rw t (
        selected-synced e.clock s.console_data i s.cache (lookup i s.cache)
          (find (has_id i) s.console_data.jobs) refl refl),
    elim (Bool-cases (any (λ n. n == number) s.aborted)) [
      | inl a ↦ rw t (rw a refl)
      | inr a ↦
          rw t (
            rw a (applied e s i (lookup i s.cache) (find (has_id i) s.console_data.jobs) refl refl))
    ],
  )
]
