-- ===== src/ToastQueue/Tests.antt =====
-- Toasts on concrete queues, and the theorems at them.
use distributed_job_platform.Base.{
  ◌≡◌, String, truthy, true, refl, [], ◌∷◌, none, some, tally, lookup, insert, subst, arith,
}
use distributed_job_platform.ToastQueue.{
  ToastInput, ToastQueue, info, empty_queue, toast_key, is_cooling, show_toast, enqueue_toast,
  dismiss_toast, number_or,
}
use distributed_job_platform.ToastQueue.Keys.{has_id, IsLinked, IsQueue}
use distributed_job_platform.ToastQueue.Shown.{enqueue_toast-IsQueue, dismiss_toast-IsQueue}

abbrev saved : ToastInput
saved = record {
  title = "Saved";
  description = none;
  tone = info;
  key = some "saved";
  cooldown_ms = none;
  duration_ms = none;
}

empty-IsQueue : IsQueue empty_queue
unfolding IsQueue IsLinked lookup
empty-IsQueue = (omega arith, λ i. omega arith, refl, λ i k h. ground arith)

fresh : lookup "t1" empty_queue.key_by_id ≡ none
unfolding lookup
fresh = refl

enqueue_toast-IsQueue_example : IsQueue (enqueue_toast saved 1000 "t1" 7 empty_queue).1
enqueue_toast-IsQueue_example =
    enqueue_toast-IsQueue saved 1000 "t1" 7 empty_queue refl fresh empty-IsQueue

abbrev shown : ToastQueue
shown = record {
  toasts = record { id = "t1"; title = "Saved"; description = none; tone = info } ∷ [];
  timers = ("t1", 7) ∷ [];
  active_keys = ("saved", "t1") ∷ [];
  key_by_id = ("t1", "saved") ∷ [];
  last_shown_at = ("saved", 1000) ∷ [];
}

shown-reached : (enqueue_toast saved 1000 "t1" 7 empty_queue).1 ≡ shown
unfolding lookup insert enqueue_toast toast_key is_cooling show_toast
shown-reached = refl

shown-IsQueue : IsQueue shown
shown-IsQueue =
    subst IsQueue shown-reached
      (enqueue_toast-IsQueue saved 1000 "t1" 7 empty_queue refl fresh empty-IsQueue)

dismiss_toast-IsQueue_example :
    let r = dismiss_toast "t1" shown in
    IsQueue r
    × (tally (has_id "t1") r.toasts ≡ 0)
    × (number_or 0 (lookup "t1" r.timers) ≡ 0)
    × ((k : String)
        → lookup "t1" shown.key_by_id ≡ some k
        → truthy k ≡ true
        → (lookup k r.active_keys ≡ none) × (lookup "t1" r.key_by_id ≡ none))
dismiss_toast-IsQueue_example = dismiss_toast-IsQueue "t1" shown shown-IsQueue
