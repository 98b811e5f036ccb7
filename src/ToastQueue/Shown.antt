-- ===== src/ToastQueue/Shown.antt =====
-- The toasts on the screen (src/hooks/useToastQueue.ts).
use distributed_job_platform.Base.{
  ℕ, ◌≤◌, ◌≡◌, refl, String, true, false, not, List, [], ◌∷◌, none, some, keep, all, length, tally,
  lookup, lookup-remove, insert, remove, truthy, str_eq, str_eq_iff, str_eq_refl, lookup-insert,
  length-take, tally-take, arith, Bool-cases, inl, inr, ltb,
}
use distributed_job_platform.ToastQueue.{
  Toast, ToastInput, ToastQueue, text_or_empty, number_or, toast_key, clear_timer, release_key,
  drop_toast, dismiss_toast, show_toast, is_cooling, enqueue_toast,
}
use distributed_job_platform.ToastQueue.Keys.{
  has_id, IsLinked, has_key, IsQueue, IsLinked-insert, IsLinked-remove, all-insert, all-take,
  all-keep, all-remove, tally-fresh, length-keep_le, tally-keep_le, key_found,
}

show_toast-IsQueue :
    (toast : ToastInput) (key : String) (now : ℕ) (id : String) (timer : ℕ) (q : ToastQueue)
    → truthy id ≡ true
    → lookup id q.key_by_id ≡ none
    → truthy (text_or_empty (lookup key q.active_keys)) ≡ false
    → IsQueue q
    → IsQueue (show_toast toast key now id timer q)
unfolding IsQueue show_toast
show_toast-IsQueue toast key now id timer q nonempty fresh free (short, once, keyed, linked) =
    let new : Toast = record {
      id = id;
      title = toast.title;
      description = toast.description;
      tone = toast.tone;
    } in
    let keyed_later = all-insert id key q.key_by_id q.toasts keyed in
    (
      omega (arith, length-take 5 (new ∷ q.toasts)),
      λ i.
          let most = tally-take (has_id i) 5 (new ∷ q.toasts) in
          let none_yet = tally-fresh id q.key_by_id q.toasts fresh keyed in
          ground (arith, most, none_yet, once i, str_eq_iff id i),
      all-take (has_key (insert id key q.key_by_id)) 5 (new ∷ q.toasts)
          (ground (arith, keyed_later, lookup-insert id id key q.key_by_id, str_eq_refl id)),
      IsLinked-insert id key q.key_by_id q.active_keys nonempty fresh free linked,
    )

-- Enqueueing any toast, under an id that is not in use, keeps the queue well formed: at most five
-- toasts, none twice, each with a key that stands for it alone.
pub enqueue_toast-IsQueue :
    (toast : ToastInput) (now : ℕ) (id : String) (timer : ℕ) (q : ToastQueue)
    → truthy id ≡ true
    → lookup id q.key_by_id ≡ none
    → IsQueue q
    → IsQueue (enqueue_toast toast now id timer q).1
unfolding enqueue_toast
enqueue_toast-IsQueue toast now id timer q nonempty fresh h =
    elim (Bool-cases (truthy (text_or_empty (lookup (toast_key toast) q.active_keys)))) [
      | inl active ↦ rw active h
      | inr free ↦ rw free (elim (Bool-cases (is_cooling toast (toast_key toast) now q)) [
        | inl cooling ↦ rw cooling h
        | inr warm ↦
            rw warm
              (show_toast-IsQueue toast (toast_key toast) now id timer q nonempty fresh free h)
      ])
    ]

clear_timer_lem :
    (i : String) (q : ToastQueue)
    → let r = clear_timer i q in
      (r.toasts ≡ q.toasts) × (r.key_by_id ≡ q.key_by_id) × (r.active_keys ≡ q.active_keys)
unfolding clear_timer
clear_timer_lem i q = ground arith

drop-IsQueue :
    (i : String) (q : ToastQueue) (ids keys : List (String × String))
    → (length q.toasts ≤ 5)
    → ((j : String) → tally (has_id j) q.toasts ≤ 1)
    → all (has_key ids) (keep (λ t. not (str_eq t.id i)) q.toasts) ≡ true
    → IsLinked ids keys
    → IsQueue (drop_toast i (record q { active_keys = keys; key_by_id = ids }))
unfolding IsQueue drop_toast
drop-IsQueue i q ids keys short once keyed linked = (
  omega (arith, length-keep_le (λ t. not (str_eq t.id i)) q.toasts),
  λ j. omega (arith, once j, tally-keep_le (has_id j) (λ t. not (str_eq t.id i)) q.toasts),
  keyed,
  linked,
)

release-IsQueue :
    (i : String) (q : ToastQueue) → IsQueue q → IsQueue (drop_toast i (release_key i q))
unfolding release_key IsQueue
release-IsQueue i q (short, once, keyed, linked) =
    elim (Bool-cases (truthy (text_or_empty (lookup i q.key_by_id)))) [
      | inl e ↦ rw e (
          drop-IsQueue i q (remove i q.key_by_id)
            (remove (text_or_empty (lookup i q.key_by_id)) q.active_keys) short once
            (all-remove i q.key_by_id q.toasts keyed)
            (IsLinked-remove i (text_or_empty (lookup i q.key_by_id)) q.key_by_id q.active_keys
              (key_found (lookup i q.key_by_id) e) linked))
      | inr e ↦ rw e (
          drop-IsQueue i q q.key_by_id q.active_keys short once
            (all-keep (has_key q.key_by_id) (λ t. not (str_eq t.id i)) q.toasts keyed) linked)
    ]

clear-IsQueue : (i : String) (q : ToastQueue) → IsQueue q → IsQueue (clear_timer i q)
unfolding IsQueue clear_timer
clear-IsQueue i q h = elim (Bool-cases (ltb 0 (number_or 0 (lookup i q.timers)))) [
  | inl e ↦ rw e h
  | inr e ↦ rw e h
]

tally-dropped :
    (i : String) (ts : List Toast) → tally (has_id i) (keep (λ t. not (str_eq t.id i)) ts) ≡ 0
tally-dropped i [] = refl
tally-dropped i (t ∷ ts) = ground (arith, tally-dropped i ts)

dropped : (i : String) (q : ToastQueue) → tally (has_id i) (drop_toast i q).toasts ≡ 0
unfolding drop_toast
dropped i q = tally-dropped i q.toasts

clear_timer-untimed :
    (i : String) (q : ToastQueue) → number_or 0 (lookup i (clear_timer i q).timers) ≡ 0
unfolding clear_timer
clear_timer-untimed i q = elim (Bool-cases (ltb 0 (number_or 0 (lookup i q.timers)))) [
  | inl e ↦ rw e (rw (lookup-remove i i q.timers) (rw (str_eq_refl i) refl))
  | inr e ↦ rw e (ground arith)
]

release_key-timers : (i : String) (q : ToastQueue) → (release_key i q).timers ≡ q.timers
unfolding release_key
release_key-timers i q = ground arith

-- The key of a toast is free once it is released.
release_key-free :
    (i k : String) (q : ToastQueue)
    → lookup i q.key_by_id ≡ some k
    → truthy k ≡ true
    → (lookup k (release_key i q).active_keys ≡ none)
      × (lookup i (release_key i q).key_by_id ≡ none)
unfolding release_key
release_key-free i k q h t = rw h (
    rw t (
      rw (lookup-remove k k q.active_keys) (rw (str_eq_refl k) refl),
      rw (lookup-remove i i q.key_by_id) (rw (str_eq_refl i) refl),
    ))

-- Dismissing a toast, shown or not, keeps the queue well formed and takes the toast off the screen; it has
-- no timer any more; and its key, if that is not empty, stands for no toast.
pub dismiss_toast-IsQueue :
    (i : String) (q : ToastQueue)
    → IsQueue q
    → let r = dismiss_toast i q in
      IsQueue r
      × (tally (has_id i) r.toasts ≡ 0)
      × (number_or 0 (lookup i r.timers) ≡ 0)
      × ((k : String)
          → lookup i q.key_by_id ≡ some k
          → truthy k ≡ true
          → (lookup k r.active_keys ≡ none) × (lookup i r.key_by_id ≡ none))
unfolding dismiss_toast drop_toast
dismiss_toast-IsQueue i q h =
    let same = clear_timer_lem i q in
    (
      release-IsQueue i (clear_timer i q) (clear-IsQueue i q h),
      dropped i (release_key i (clear_timer i q)),
      rw (release_key-timers i (clear_timer i q)) (clear_timer-untimed i q),
      λ k e t. release_key-free i k (clear_timer i q) (rw same.1 e) t,
    )
