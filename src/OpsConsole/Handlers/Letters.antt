-- ===== src/OpsConsole/Handlers/Letters.antt =====
-- The handlers of the selected dead letters: `replaySelectedDeadLetters`, `deleteSelectedDeadLetters` and
-- `handleToggleDeadLetterSelection` of src/components/OpsConsole.tsx, and the effect that prunes the
-- selection.
pub mod Selection
use distributed_job_platform.Base.{
  ℕ, String, Bool, true, false, not, List, [], ◌∷◌, ◌++◌, Option, none, some, any, keep, length,
  includes, append, decimal, str_eq, trim, truthy, if◌then◌else◌,
}
use distributed_job_platform.Json.{Json, null}
use distributed_job_platform.Models.Jobs.{Job, DeadLetter}
use distributed_job_platform.Models.Console.{ConsoleData}
use distributed_job_platform.ToastQueue.{info, success, warning}
use distributed_job_platform.OpsConsole.Updates.{
  replay_selected_dead_letters, delete_selected_dead_letters,
}
use distributed_job_platform.OpsConsole.Forms.{Parsed, safe_json_parse}
use distributed_job_platform.OpsConsole.Handlers.{
  Ops, Env, Step, done, Post, replaying, deleting, turn_of, api_request, run_busy, toast, tell,
  set_console_data, ask_refresh, api_path,
}

-- `value ?? …`: the value, unless it is `null`.
abbrev pub non_null : Option Json → Option Json
non_null (some null) = none
non_null v = v

abbrev replayed_toast : List String → Ops → Ops
replayed_toast ids s =
    tell
      (toast success "Bulk replay issued"
        (append (decimal (length ids)) " dead-letter jobs were replayed."))
      (record s { selected_dead_letters = []; bulk_replay_payload = "" })

-- The selection, the queue and the payload are those of the moment when the button was pressed.
abbrev send_bulk_replay : Env → List String → String → Option Json → Ops → Step Json
send_bulk_replay e ids queue override s =
    if e.live_mode
    then api_request (record { path = api_path "/dlq/replay"; body = replaying ids queue override })
        (λ reply later. replayed_toast ids (ask_refresh later)) s
    else done (
        replayed_toast ids
          (set_console_data (replay_selected_dead_letters (turn_of e) queue override ids) s))

abbrev pub override_of : Env → Ops → Parsed
override_of e s =
    if truthy (trim s.bulk_replay_payload)
    then safe_json_parse e.parse s.bulk_replay_payload
    else record { value = none; error = "" }

abbrev pub has_selection : List String → Bool
has_selection [] = false
has_selection (i ∷ ids) = true

abbrev nothing_selected : String → Ops → Step Json
nothing_selected description s =
    done (tell (toast warning "Select dead-letter jobs first" description) s)

unfoldable pub handle_bulk_replay : Env → Ops → Step Json
handle_bulk_replay e s =
    let override = override_of e s in
    if not (has_selection s.selected_dead_letters)
    then nothing_selected "Bulk replay requires at least one selected dead-letter record." s
    else if truthy override.error
    then done (tell (toast warning "Replay override is invalid" override.error) s)
    else run_busy "bulk-replay"
        (send_bulk_replay e s.selected_dead_letters s.bulk_replay_queue (non_null override.value)) s

abbrev deleted_toast : Ops → Ops
deleted_toast s =
    tell
      (toast info "Dead-letter records deleted"
        "The selected DLQ metadata was removed from the console.")
      (record s { selected_dead_letters = [] })

abbrev send_bulk_delete : Env → List String → Ops → Step Json
send_bulk_delete e ids s =
    if e.live_mode
    then api_request (record { path = api_path "/dlq/delete"; body = deleting ids })
        (λ reply later. deleted_toast (ask_refresh later)) s
    else done (deleted_toast (set_console_data (delete_selected_dead_letters (turn_of e) ids) s))

unfoldable pub handle_bulk_delete : Env → Ops → Step Json
handle_bulk_delete e s =
    if not (has_selection s.selected_dead_letters)
    then nothing_selected "Bulk delete requires at least one selected record." s
    else run_busy "bulk-delete" (send_bulk_delete e s.selected_dead_letters) s

-- `current.includes(jobId) ? current.filter(…) : [...current, jobId]`.
unfoldable pub toggle_dead_letter : String → List String → List String
toggle_dead_letter job_id current =
    if includes job_id current
    then keep (λ item. not (str_eq item job_id)) current
    else current ++ job_id ∷ []

unfoldable pub prune_selection : List DeadLetter → List String → List String
prune_selection letters current = keep (λ job_id. any (λ x. str_eq x.job_id job_id) letters) current
