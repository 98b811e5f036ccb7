-- ===== src/LiveData/Inspections.antt =====
-- The inspection that the drawer shows (src/hooks/useDashboardLiveData.ts, `applyInspectionFallback`,
-- `refreshInspection`, the effect that keeps the cached inspection in step, and `selectedInspection`).
-- `inspection_value` is the JavaScript value that an inspection stands for.
pub mod Steady
use distributed_job_platform.Base.{
  ℕ, ◌+◌, String, Bool, true, false, not, ◌&&◌, ◌||◌, List, [], ◌∷◌, Option, none, some, is_some,
  find, lookup, insert, remove, truthy, or_text, str_eq, any, ◌==◌, if◌then◌else◌,
}
use distributed_job_platform.Json.{Json}
use distributed_job_platform.LiveRefresh.Serializing.{stable_serialize}
use distributed_job_platform.Models.Jobs.{Job, JobInspection, DeadLetter}
use distributed_job_platform.Models.Console.{ConsoleData, Clock, Source}
use distributed_job_platform.ConsoleData.{has_id}
use distributed_job_platform.ConsoleData.Workflows.{get_inspection}
use distributed_job_platform.ConsoleData.Summary.Counts.{is_state}

pub record InspectionMeta : Type 0 where
  pub busy : Bool
  pub error : String
  pub last_updated_at : String

-- The cache, the signatures, and the refreshes under way, whose promise and controller have one number.
pub record Drawer : Type 0 where
  pub console_data : ConsoleData
  pub cache : List (String × JobInspection)
  pub meta : List (String × InspectionMeta)
  pub signatures : List (String × String)
  pub promises : List (String × ℕ)
  pub controllers : List (String × ℕ)
  pub aborted : List ℕ
  pub next : ℕ

pub record Inspector : Type 0 where
  pub live_mode : Bool
  pub clock : Clock
  pub now : ℕ
  pub stringify : Json → String
  pub inspection_value : JobInspection → Json

abbrev pub create_inspection_signature : Inspector → JobInspection → String
create_inspection_signature e inspection =
    stable_serialize e.stringify (e.inspection_value inspection)

abbrev pub cached_data : Drawer → ConsoleData
cached_data s = record (s.console_data) { inspections = s.cache }

abbrev pub has_signature : Option String → String → Bool
has_signature none signature = false
has_signature (some old) signature = str_eq old signature

abbrev pub store_fallback : Inspector → String → Option JobInspection → Drawer → Drawer
store_fallback e job_id none s = s
store_fallback e job_id (some fallback) s =
    if has_signature (lookup job_id s.signatures) (create_inspection_signature e fallback)
    then s
    else record s {
      signatures = insert job_id (create_inspection_signature e fallback) s.signatures;
      cache = insert job_id fallback s.cache;
    }

unfoldable pub apply_inspection_fallback : Inspector → String → Drawer → Drawer
apply_inspection_fallback e job_id s =
    store_fallback e job_id (get_inspection e.clock (cached_data s) job_id) s

abbrev updated_or : Option InspectionMeta → String → String
updated_or none fallback = fallback
updated_or (some m) fallback = or_text m.last_updated_at fallback

abbrev pub set_meta : String → Bool → String → String → Drawer → Drawer
set_meta job_id busy error fallback s = record s {
  meta =
      insert job_id
        (record {
          busy = busy;
          error = error;
          last_updated_at = updated_or (lookup job_id s.meta) fallback;
        })
        s.meta;
}

abbrev is_live_source : Source → Bool
is_live_source Source.live = true
is_live_source Source.demo = false

abbrev abort_inspection : Option ℕ → Drawer → Drawer
abort_inspection none s = s
abort_inspection (some controller) s = record s { aborted = controller ∷ s.aborted }

abbrev open_inspection : String → Drawer → Drawer
open_inspection job_id s =
    set_meta job_id true "" "" (record (abort_inspection (lookup job_id s.controllers) s) {
      controllers = insert job_id s.next s.controllers;
      promises = insert job_id s.next s.promises;
      next = s.next + 1;
    })

unfoldable pub refresh_inspection : Inspector → String → Bool → Drawer → Drawer
refresh_inspection e job_id force s =
    if not (truthy job_id)
    then s
    else if not e.live_mode || not (is_live_source s.console_data.source)
    then set_meta job_id false "" (e.clock.iso e.now) (apply_inspection_fallback e job_id s)
    else if is_some (lookup job_id s.promises) && not force
    then s
    else open_inspection job_id s

pub data InspectionEnding : Type 0 where
  inspected : JobInspection → InspectionEnding
  refused : String → InspectionEnding

-- `previous` is the signature at the start.
abbrev pub after_inspection :
    Inspector → String → Option String → InspectionEnding → Drawer → Drawer
after_inspection e job_id previous (inspected inspection) s =
    let t = record s {
      signatures = insert job_id (create_inspection_signature e inspection) s.signatures;
    } in
    let u =
      if has_signature previous (create_inspection_signature e inspection)
      then t
      else record t { cache = insert job_id inspection s.cache } in
    record u {
      meta =
          insert job_id (record { busy = false; error = ""; last_updated_at = e.clock.iso e.now })
            s.meta;
    }
after_inspection e job_id previous (refused message) s =
    set_meta job_id false message "" (apply_inspection_fallback e job_id s)

abbrev is_own : Option ℕ → ℕ → Bool
is_own none number = false
is_own (some n) number = n == number

abbrev pub close_inspection : String → ℕ → Drawer → Drawer
close_inspection job_id number s = record s {
  controllers =
      if is_own (lookup job_id s.controllers) number
      then remove job_id s.controllers
      else s.controllers;
  promises = remove job_id s.promises;
}

unfoldable pub finish_inspection :
    Inspector → String → ℕ → Option String → InspectionEnding → Drawer → Drawer
finish_inspection e job_id number previous ending s =
    close_inspection job_id number
      (if any (λ n. n == number) s.aborted then s else after_inspection e job_id previous ending s)

-- `{ ...deadLetter, job: latestJob }` where the dead letter carries that job.
abbrev pub carries : Job → Option Job → Bool
carries latest none = false
carries latest (some job) = str_eq job.id latest.id

abbrev pub letter_with : Job → Option DeadLetter → Option DeadLetter
letter_with latest none = none
letter_with latest (some letter) =
    some (if carries latest letter.job then record letter { job = some latest } else letter)

abbrev pub with_latest : Job → JobInspection → JobInspection
with_latest latest inspection = record inspection {
  job = latest;
  dead_letter = letter_with latest inspection.dead_letter;
}

abbrev pub in_step : JobInspection → Job → Bool
in_step existing latest =
    str_eq existing.job.updated_at latest.updated_at && is_state existing.job.state latest.state

abbrev pub synced :
    String
    → Option JobInspection
    → Option Job
    → List (String × JobInspection)
    → List (String × JobInspection)
synced job_id (some existing) (some latest) cache =
    if in_step existing latest then cache else insert job_id (with_latest latest existing) cache
synced job_id _ _ cache = cache

-- The effect on the jobs and the selection.
unfoldable pub sync_inspection :
    ConsoleData → String → List (String × JobInspection) → List (String × JobInspection)
sync_inspection d job_id cache =
    if truthy job_id
    then synced job_id (lookup job_id cache) (find (has_id job_id) d.jobs) cache
    else cache

abbrev pub latest_or : Option Job → JobInspection → JobInspection
latest_or none cached = cached
latest_or (some latest) cached = with_latest latest cached

abbrev pub shown :
    Clock
    → ConsoleData
    → List (String × JobInspection)
    → String
    → Option JobInspection
    → Option JobInspection
shown c d cache job_id (some cached) = some (latest_or (find (has_id job_id) d.jobs) cached)
shown c d cache job_id none = get_inspection c (record d { inspections = cache }) job_id

unfoldable pub selected_inspection :
    Clock → ConsoleData → List (String × JobInspection) → String → Option JobInspection
selected_inspection c d cache job_id =
    if truthy job_id then shown c d cache job_id (lookup job_id cache) else none
