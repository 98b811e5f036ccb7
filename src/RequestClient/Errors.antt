-- ===== src/RequestClient/Errors.antt =====
-- The errors of a request (src/lib/request-client.ts, `RequestError`, `classifyFetchError`).
use distributed_job_platform.Base.{
  ℕ, String, Bool, true, false, not, ◌||◌, Option, none, some, str_eq, if◌then◌else◌,
}
use distributed_job_platform.RequestClient.Aborts.{Binding, is_timeout, get_abort_reason}

pub data RequestErrorKind : Type 0 where
  aborted auth config empty network parse server timeout : RequestErrorKind

pub record RequestError : Type 0 where
  pub message : String
  pub kind : RequestErrorKind
  pub status : ℕ
  pub retriable : Bool

abbrev pub is_final : RequestErrorKind → Bool
is_final auth = true
is_final config = true
is_final parse = true
is_final _ = false

abbrev pub status_or_zero : Option ℕ → ℕ
status_or_zero none = 0
status_or_zero (some n) = n

abbrev pub retriable_or : Option Bool → Bool → Bool
retriable_or none d = d
retriable_or (some b) d = b

-- The constructor, with its options.
unfoldable pub request_error : String → RequestErrorKind → Option ℕ → Option Bool → RequestError
request_error message kind status retriable = record {
  message = message;
  kind = kind;
  status = status_or_zero status;
  retriable = retriable_or retriable (not (is_final kind));
}

-- What `fetch` or `response.text` throws: a `DOMException`, another `Error`, or something else.
pub data Thrown : Type 0 where
  request_failed : RequestError → Thrown
  dom_exception : String → Thrown
  error : String → Thrown
  something : Thrown

abbrev pub cancelled : RequestError
cancelled = request_error "Request was cancelled." aborted none none

abbrev pub timed_out_error : RequestError
timed_out_error = request_error "Request timed out before the API responded." timeout none none

abbrev pub unreachable : RequestError
unreachable =
    request_error "Network request failed before a response was received." network none none

-- The cases below the test of the binding. A `DOMException` is an `Error` in the browser, so the last
-- test reads its name again.
abbrev pub classify_name : Thrown → RequestError
classify_name (request_failed e) = e
classify_name (dom_exception name) =
    if str_eq name "AbortError"
    then cancelled
    else if str_eq name "TimeoutError"
    then timed_out_error
    else unreachable
classify_name (error name) = if str_eq name "AbortError" then cancelled else unreachable
classify_name something = unreachable

abbrev has_timed_out : Binding → Bool
has_timed_out b = b.timed_out || is_timeout (get_abort_reason b)

unfoldable pub classify_fetch_error : Thrown → Binding → RequestError
classify_fetch_error (request_failed e) b = e
classify_fetch_error (dom_exception name) b =
    if has_timed_out b then timed_out_error else classify_name (dom_exception name)
classify_fetch_error (error name) b =
    if has_timed_out b then timed_out_error else classify_name (error name)
classify_fetch_error something b =
    if has_timed_out b then timed_out_error else classify_name something
