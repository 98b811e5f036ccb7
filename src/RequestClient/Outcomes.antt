-- ===== src/RequestClient/Outcomes.antt =====
-- How a request ends (src/lib/request-client.ts, `requestJson`).
use distributed_job_platform.Base.{
  ◌≡◌, refl, ap, ◌∙◌, str_eq, inl, inr, String, Bool, true, false, not, ◌||◌, ◌==◌, List, [], ◌∷◌,
  Option, none, some, truthy, arith, Bool-cases, append, if◌then◌else◌,
}
use distributed_job_platform.Json.{Json, null}
use distributed_job_platform.ApiParsers.{Result, ok, failed}
use distributed_job_platform.RequestClient.Aborts.{
  Binding, Reason, Happening, open_signal, unaborted, reason_of, abort, bind_abort_signals, happen,
  is_timeout, Signal, no_signal, aborted_signal, other_error, other_reason, or_abort_error,
}
use distributed_job_platform.RequestClient.Errors.{
  Thrown, request_failed, dom_exception, error, something, is_final, empty, request_error,
  classify_fetch_error, cancelled, unreachable, RequestError, timed_out_error,
}
use distributed_job_platform.RequestClient.{
  Request, Response, Delivery, refused, cut, delivered, Outcome, returned, thrown, outcome_of,
  request_json, read_body, build_response_error, parsed, parse_body, to_url, settle,
}

-- The rule of the constructor: an error can be retried unless it is about access, settings or shape.
unfoldable pub HasRule : Outcome → Type 0
HasRule (returned v) = Unit {0}
HasRule (thrown e) = e.retriable ≡ not (is_final e.kind)

abbrev pub is_plain : Thrown → Bool
is_plain (request_failed e) = false
is_plain _ = true

-- `fetch` and `response.text` throw errors of the browser.
unfoldable pub IsPlain : Delivery → Type 0
IsPlain (refused e) = is_plain e ≡ true
IsPlain (cut response e) = is_plain e ≡ true
IsPlain (delivered response body_text) = Unit {0}

classify-HasRule :
    (e : Thrown) (b : Binding) → is_plain e ≡ true → HasRule (thrown (classify_fetch_error e b))
unfolding HasRule classify_fetch_error request_error
classify-HasRule (request_failed e) b h = ground arith
classify-HasRule (dom_exception name) b h = ground arith
classify-HasRule (error name) b h = ground arith
classify-HasRule something b h = ground arith

outcome_of-HasRule :
    (response : Response) (result : Result Json) → HasRule (outcome_of response result)
unfolding HasRule request_error
outcome_of-HasRule response (ok v) = tt
outcome_of-HasRule response (failed message) = refl

parsed-HasRule :
    (response : Response) (parser : Option (Json → Result Json)) (body : Json)
    → HasRule (parsed response parser body)
unfolding HasRule
parsed-HasRule response none body = tt
parsed-HasRule response (some parser) body = outcome_of-HasRule response (parser body)

either-HasRule : (b : Bool) (x y : Outcome) → HasRule x → HasRule y → HasRule (if b then x else y)
either-HasRule true x y p q = p
either-HasRule false x y p q = q

kept_abort : (reason : Option Reason) (b : Binding) → b.aborted ≡ true → abort reason b ≡ b
unfolding abort
kept_abort reason b h = ground arith

first_abort : (b : Binding) (hs : List Happening) → b.aborted ≡ true → happen b hs ≡ b
unfolding happen
first_abort b [] h = refl
first_abort b (x ∷ hs) h = simp (kept_abort (reason_of x) b h) (first_abort b hs h)

blank-HasRule :
    (r : Request) (response : Response)
    → HasRule (
        if r.allow_empty
        then returned null
        else thrown (
            request_error
              (append "The " (append r.path " response was empty."))
              empty
              (some response.status)
              none))
unfolding HasRule request_error
blank-HasRule r response = either-HasRule r.allow_empty _ _ tt refl

aborts : (reason : Option Reason) → (abort reason unaborted).aborted ≡ true
unfolding abort
aborts reason = refl

-- The first abort of a request: of the caller's signal if it is aborted already, or else of what happens.
abbrev pub first_reason : Signal → List Happening → Option (Option Reason)
first_reason (aborted_signal reason) hs = some reason
first_reason _ [] = none
first_reason _ (h ∷ hs) = some (reason_of h)

-- `fetch` and `response.text` of an aborted request reject with the signal's reason.
abbrev pub thrown_of : Reason → Thrown
thrown_of (Reason.dom_exception name) = Thrown.dom_exception name
thrown_of (other_error name) = error name
thrown_of other_reason = something

abbrev pub rejection : Option Reason → Thrown
rejection reason = thrown_of (or_abort_error reason)

-- The error that reports an abort: a timeout, a cancellation, or a failure of the network.
abbrev pub verdict : Option Reason → RequestError
verdict none = cancelled
verdict (some (Reason.dom_exception name)) =
    if str_eq name "TimeoutError"
    then timed_out_error
    else if str_eq name "AbortError"
    then cancelled
    else unreachable
verdict (some (other_error name)) = if str_eq name "AbortError" then cancelled else unreachable
verdict (some other_reason) = unreachable

-- The binding after everything that happens is that of the first abort.
bound :
    (signal : Signal) (hs : List Happening) (reason : Option Reason)
    → first_reason signal hs ≡ some reason
    → happen (bind_abort_signals signal) hs ≡ abort reason unaborted
unfolding bind_abort_signals happen
bound (aborted_signal r) hs reason h =
    first_abort (abort r unaborted) hs (aborts r)
    ∙ ap (λ (x : Option Reason). abort x unaborted) (cc)
bound no_signal [] reason h = ground arith
bound no_signal (x ∷ hs) reason h =
    first_abort (abort (reason_of x) unaborted) hs (aborts (reason_of x))
    ∙ ap (λ (r : Option Reason). abort r unaborted) (cc)
bound open_signal [] reason h = ground arith
bound open_signal (x ∷ hs) reason h =
    first_abort (abort (reason_of x) unaborted) hs (aborts (reason_of x))
    ∙ ap (λ (r : Option Reason). abort r unaborted) (cc)

classify_first :
    (reason : Option Reason)
    → classify_fetch_error (rejection reason) (abort reason unaborted) ≡ verdict reason
unfolding classify_fetch_error abort
classify_first none = refl
classify_first (some (Reason.dom_exception name)) = elim (Bool-cases (str_eq name "TimeoutError")) [
  | inl t ↦ rw t refl
  | inr t ↦ rw t refl
]
classify_first (some (other_error name)) = refl
classify_first (some other_reason) = refl

classify_timeout :
    (e : Thrown) (reason : Option Reason)
    → is_plain e ≡ true
    → is_timeout reason ≡ true
    → classify_fetch_error e (abort reason unaborted) ≡ timed_out_error
unfolding classify_fetch_error abort
classify_timeout (request_failed e) reason h k = ground arith
classify_timeout (Thrown.dom_exception name) reason h k = rw k refl
classify_timeout (error name) reason h k = rw k refl
classify_timeout something reason h k = rw k refl

module _ (parse_json : String → Option Json) (to_text : Json → String) where
  build-HasRule :
      (response : Response) (body : Json) (body_text : String)
      → HasRule (thrown (build_response_error parse_json to_text response body body_text))
  unfolding HasRule build_response_error request_error
  build-HasRule response body body_text =
      elim (Bool-cases (response.status == 401 || response.status == 403)) [
        | inl h ↦ rw h refl
        | inr h ↦ rw h refl
      ]

  read_body-HasRule :
      (r : Request) (response : Response) (body_text : String)
      → HasRule (read_body parse_json to_text r response body_text)
  unfolding read_body
  read_body-HasRule r response body_text =
      let body = parse_body parse_json to_text body_text in
      either-HasRule (not response.is_ok) _ _ (build-HasRule response body body_text) (
        either-HasRule (not (truthy body_text)) _ _ (blank-HasRule r response)
          (parsed-HasRule response r.parser body))

  settle-HasRule :
      (r : Request) (d : Delivery) → IsPlain d → HasRule (settle parse_json to_text r d)
  unfolding IsPlain
  settle-HasRule r (refused e) h =
      classify-HasRule e (happen (bind_abort_signals r.signal) r.happenings) h
  settle-HasRule r (cut response e) h =
      classify-HasRule e (happen (bind_abort_signals r.signal) r.happenings) h
  settle-HasRule r (delivered response body_text) h = read_body-HasRule r response body_text

  to_url-HasRule :
      (r : Request) (url : Option String)
      → IsPlain r.delivery
      → HasRule (to_url parse_json to_text r url)
  unfolding HasRule request_error
  to_url-HasRule r none h = refl
  to_url-HasRule r (some url) h = settle-HasRule r r.delivery h

  -- Every error of a request can be retried unless it is about access, settings or the shape of the
  -- response, provided that the browser throws none of the client's own errors.
  pub request_json-HasRule :
      (r : Request) → IsPlain r.delivery → HasRule (request_json parse_json to_text r)
  unfolding request_json
  request_json-HasRule r h = to_url-HasRule r r.url h

  -- The first abort decides, be it the timer's, the caller's or that of a signal which is aborted already,
  -- and whatever follows. A request that the browser ends with the reason of its signal, before the response
  -- or while its body is read, is reported as timed out when the reason is a `TimeoutError`, as cancelled
  -- when it is an `AbortError` or missing, and as a failure of the network when it is anything else; and
  -- after a first abort that is a timeout, what the browser ends the request with does not matter.
  pub request_json-first_abort :
      (r : Request) (url : String) (response : Response) (e : Thrown) (reason : Option Reason)
      → r.url ≡ some url
      → first_reason r.signal r.happenings ≡ some reason
      → is_plain e ≡ true
      → (request_json parse_json to_text (record r { delivery = refused (rejection reason) })
          ≡ thrown (verdict reason))
        × (request_json parse_json to_text (record r { delivery = cut response (rejection reason) })
            ≡ thrown (verdict reason))
        × (is_timeout reason ≡ true
            → (request_json parse_json to_text (record r { delivery = refused e })
                ≡ thrown timed_out_error)
              × (request_json parse_json to_text (record r { delivery = cut response e })
                  ≡ thrown timed_out_error))
  unfolding request_json
  request_json-first_abort r url response e reason has first plain =
      let b = bound r.signal r.happenings reason first in
      let now = ap thrown (rw b (classify_first reason)) in
      (
        rw has now,
        rw has now,
        λ late.
            let ended = ap thrown (rw b (classify_timeout e reason plain late)) in
            (rw has ended, rw has ended),
      )
