-- ===== src/ToastQueue.antt =====
-- The queue of toasts (src/hooks/useToastQueue.ts). The instant, the id that `createToastId` draws
-- and the handle that `setTimeout` returns are arguments; the host calls `dismiss_toast` when the
-- timer of a toast fires.
pub mod Keys
pub mod Shown
pub mod Tests
use distributed_job_platform.Base.{
  ℕ, ◌+◌, String, Bool, true, false, not, ◌&&◌, List, [], ◌∷◌, Option, none, some, take, keep, ltb,
  lookup, insert, remove, truthy, append, str_eq, if◌then◌else◌,
}

pub data ToastTone : Type 0 where
  info success warning danger : ToastTone

pub record Toast : Type 0 where
  pub id : String
  pub title : String
  pub description : Option String
  pub tone : ToastTone

-- `durationMs` is the delay of the timer.
pub record ToastInput : Type 0 where
  pub title : String
  pub description : Option String
  pub tone : ToastTone
  pub key : Option String
  pub cooldown_ms : Option ℕ
  pub duration_ms : Option ℕ

pub record ToastQueue : Type 0 where
  pub toasts : List Toast
  pub timers : List (String × ℕ)
  pub active_keys : List (String × String)
  pub key_by_id : List (String × String)
  pub last_shown_at : List (String × ℕ)

abbrev pub empty_queue : ToastQueue
empty_queue = record {
  toasts = [];
  timers = [];
  active_keys = [];
  key_by_id = [];
  last_shown_at = [];
}

abbrev tone_text : ToastTone → String
tone_text info = "info"
tone_text success = "success"
tone_text warning = "warning"
tone_text danger = "danger"

-- A missing entry reads as `undefined`, which is falsy like "" and 0.
abbrev pub text_or_empty : Option String → String
text_or_empty none = ""
text_or_empty (some s) = s

abbrev pub number_or : ℕ → Option ℕ → ℕ
number_or d none = d
number_or d (some n) = n

pub toast_key : ToastInput → String
toast_key toast = elim toast.key [
  | none ↦
      append (tone_text toast.tone)
        (append ":" (append toast.title (append ":" (text_or_empty toast.description))))
  | some key ↦ key
]

clear_timer : String → ToastQueue → ToastQueue
clear_timer toast_id q =
    if ltb 0 (number_or 0 (lookup toast_id q.timers))
    then record q { timers = remove toast_id q.timers }
    else q

release_key : String → ToastQueue → ToastQueue
release_key toast_id q =
    let key = text_or_empty (lookup toast_id q.key_by_id) in
    if truthy key
    then record q {
      active_keys = remove key q.active_keys;
      key_by_id = remove toast_id q.key_by_id;
    }
    else q

drop_toast : String → ToastQueue → ToastQueue
drop_toast toast_id q = record q {
  toasts = keep (λ toast. not (str_eq toast.id toast_id)) q.toasts;
}

pub dismiss_toast : String → ToastQueue → ToastQueue
dismiss_toast toast_id q = drop_toast toast_id (release_key toast_id (clear_timer toast_id q))

show_toast : ToastInput → String → ℕ → String → ℕ → ToastQueue → ToastQueue
show_toast toast key now id timer q = record q {
  toasts = take 5 (
      record { id = id; title = toast.title; description = toast.description; tone = toast.tone }
      ∷ q.toasts);
  timers = insert id timer q.timers;
  active_keys = insert key id q.active_keys;
  key_by_id = insert id key q.key_by_id;
  last_shown_at = insert key now q.last_shown_at;
}

is_cooling : ToastInput → String → ℕ → ToastQueue → Bool
is_cooling toast key now q =
    let last = number_or 0 (lookup key q.last_shown_at) in
    ltb 0 last && ltb now (last + number_or 10_000 toast.cooldown_ms)

pub enqueue_toast : ToastInput → ℕ → String → ℕ → ToastQueue → Option String × ToastQueue
enqueue_toast toast now id timer q =
    let key = toast_key toast in
    let active_id = text_or_empty (lookup key q.active_keys) in
    if truthy active_id
    then (some active_id, q)
    else if is_cooling toast key now q
    then (none, q)
    else (some id, show_toast toast key now id timer q)

-- The delay of the timer that dismisses the toast.
abbrev pub toast_duration : ToastInput → ℕ
toast_duration toast = number_or 4_200 toast.duration_ms

-- What unmounting clears.
abbrev pub pending_timers : List (String × ℕ) → List ℕ
pending_timers [] = []
pending_timers ((toast_id, timer) ∷ timers) = timer ∷ pending_timers timers
