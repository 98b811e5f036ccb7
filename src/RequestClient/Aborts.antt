-- ===== src/RequestClient/Aborts.antt =====
-- The abort signals bound to a request: the caller's and the timeout (src/lib/request-client.ts,
-- `bindAbortSignals`). A reason is a `DOMException`, another `Error` with its
-- name, or something else that is neither null nor one of the client's own errors.
use distributed_job_platform.Base.{
  String, Bool, true, false, List, [], ◌∷◌, Option, none, some, str_eq, if◌then◌else◌,
}

pub data Reason : Type 0 where
  dom_exception : String → Reason
  other_error : String → Reason
  other_reason : Reason

-- `aborted` and `signal_reason` are those of the controller's signal; the reason given to `abort` may
-- be missing, and the controller's signal then has an `AbortError`.
pub record Binding : Type 0 where
  pub aborted : Bool
  pub signal_reason : Option Reason
  pub abort_reason : Option Reason
  pub timed_out : Bool

abbrev pub is_timeout : Option Reason → Bool
is_timeout (some (dom_exception name)) = str_eq name "TimeoutError"
is_timeout _ = false

abbrev pub or_abort_error : Option Reason → Reason
or_abort_error none = dom_exception "AbortError"
or_abort_error (some reason) = reason

unfoldable pub abort : Option Reason → Binding → Binding
abort reason b = if b.aborted then b else record {
  aborted = true;
  signal_reason = some (or_abort_error reason);
  abort_reason = reason;
  timed_out = is_timeout reason;
}

abbrev pub unaborted : Binding
unaborted = record { aborted = false; signal_reason = none; abort_reason = none; timed_out = false }

-- The caller's signal: none, one that is aborted already, or one to listen to.
pub data Signal : Type 0 where
  no_signal : Signal
  aborted_signal : Option Reason → Signal
  open_signal : Signal

unfoldable pub bind_abort_signals : Signal → Binding
bind_abort_signals no_signal = unaborted
bind_abort_signals (aborted_signal reason) = abort reason unaborted
bind_abort_signals open_signal = unaborted

-- Until the binding is released, the timer fires or the caller aborts.
pub data Happening : Type 0 where
  timer_fires : Happening
  caller_aborts : Option Reason → Happening

abbrev pub reason_of : Happening → Option Reason
reason_of timer_fires = some (dom_exception "TimeoutError")
reason_of (caller_aborts reason) = reason

unfoldable pub happen : Binding → List Happening → Binding
happen b [] = b
happen b (h ∷ hs) = happen (abort (reason_of h) b) hs

-- `abortReason ?? controller.signal.reason`.
abbrev pub get_abort_reason : Binding → Option Reason
get_abort_reason b = elim b.abort_reason [ none ↦ b.signal_reason | some reason ↦ some reason ]
