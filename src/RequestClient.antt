-- ===== src/RequestClient.antt =====
-- Requests to the API (src/lib/request-client.ts). What the browser does is an argument: the URL that
-- `buildApiUrl` gives, what happens to the abort signals until the request is settled, how `fetch` and
-- `response.text` end, and `JSON.parse` and `String`.
pub mod Aborts
pub mod Errors
pub mod Outcomes
pub mod Tests
use Errors.{
  RequestError, Thrown, config, empty, parse, auth, server, request_error, classify_fetch_error,
}
use Aborts.{Binding, Signal, Happening, bind_abort_signals, happen}
use distributed_job_platform.Base.{
  ℕ, String, Bool, true, false, not, ◌&&◌, ◌||◌, ◌==◌, List, [], ◌∷◌, Option, none, some, truthy,
  or_text, trim, append, decimal, if◌then◌else◌,
}
use distributed_job_platform.Json.{Json, Fields, null, boolean, number, text, array, object, member}
use distributed_job_platform.ApiParsers.{Result, ok, failed}

-- `Headers` of the browser.
pub record HeadersApi (H : Type 0) : Type 0 where
  pub has : String → H → Bool
  pub set : String → String → H → H

-- The headers that are sent, from those of `init`.
pub request_headers : {H : Type 0} → HeadersApi H → Bool → String → H → H
request_headers api has_body token headers =
    let typed =
      if has_body && not (api.has "Content-Type" headers)
      then api.set "Content-Type" "application/json" headers
      else headers in
    if truthy (trim token)
    then api.set "Authorization" (append "Bearer " (trim token)) typed
    else typed

pub record Response : Type 0 where
  pub is_ok : Bool
  pub status : ℕ

-- How `fetch` and `response.text` end.
pub data Delivery : Type 0 where
  refused : Thrown → Delivery
  cut : Response → Thrown → Delivery
  delivered : Response → String → Delivery

pub data Outcome : Type 0 where
  returned : Json → Outcome
  thrown : RequestError → Outcome

pub record Request : Type 0 where
  pub path : String
  pub url : Option String
  pub signal : Signal
  pub happenings : List Happening
  pub delivery : Delivery
  pub parser : Option (Json → Result Json)
  pub allow_empty : Bool

-- A parser throws an `Error`, whose message is passed on.
abbrev pub outcome_of : Response → Result Json → Outcome
outcome_of response (ok v) = returned v
outcome_of response (failed message) =
    thrown (request_error message parse (some response.status) (some false))

abbrev pub parsed : Response → Option (Json → Result Json) → Json → Outcome
parsed response none body = returned body
parsed response (some parser) body = outcome_of response (parser body)

abbrev body_or : String → Option Json → Json
body_or body_text none = text body_text
body_or body_text (some v) = v

module _ (parse_json : String → Option Json) (to_text : Json → String) where
  pub parse_body : String → Json
  parse_body body_text =
      if truthy (trim body_text) then body_or body_text (parse_json (trim body_text)) else null

  -- `safeTrim` of the `error` field.
  abbrev pub safe_trim_field : Json → String
  safe_trim_field (text s) = trim s
  safe_trim_field null = ""
  safe_trim_field v = trim (to_text v)

  abbrev error_field : Option Json → String → String
  error_field none body_text = trim body_text
  error_field (some v) body_text = safe_trim_field v

  abbrev pub response_message : Json → String → String
  response_message (object fs) body_text = error_field (member "error" fs) body_text
  response_message body body_text = trim body_text

  pub build_response_error : Response → Json → String → RequestError
  build_response_error response body body_text =
      let message = response_message body body_text in
      if response.status == 401 || response.status == 403
      then request_error (or_text message "Authentication failed for the dashboard API.") auth
          (some response.status) (some false)
      else request_error
          (or_text message (append "Request failed with " (append (decimal response.status) ".")))
          server (some response.status) none

  pub read_body : Request → Response → String → Outcome
  read_body r response body_text =
      let body = parse_body body_text in
      if not response.is_ok
      then thrown (build_response_error response body body_text)
      else if not (truthy body_text)
      then (if r.allow_empty
          then returned null
          else thrown (
              request_error (append "The " (append r.path " response was empty.")) empty
                (some response.status) none))
      else parsed response r.parser body

  abbrev pub settle : Request → Delivery → Outcome
  settle r (refused e) =
      thrown (classify_fetch_error e (happen (bind_abort_signals r.signal) r.happenings))
  settle r (cut response e) =
      thrown (classify_fetch_error e (happen (bind_abort_signals r.signal) r.happenings))
  settle r (delivered response body_text) = read_body r response body_text

  abbrev pub to_url : Request → Option String → Outcome
  to_url r none =
      thrown
        (request_error "Enter a valid API base URL to resume live data." config none (some false))
  to_url r (some url) = settle r r.delivery

  pub request_json : Request → Outcome
  request_json r = to_url r r.url
