-- ===== src/RequestClient/Tests.antt =====
-- Requests on concrete responses, and the theorems at them.
use distributed_job_platform.Base.{◌≡◌, refl, String, true, false, [], ◌∷◌, Option, none, some}
use distributed_job_platform.Json.{Json}
use distributed_job_platform.RequestClient.Aborts.{
  no_signal, open_signal, timer_fires, caller_aborts, other_error, is_timeout,
}
use distributed_job_platform.RequestClient.Errors.{something, timed_out_error}
use distributed_job_platform.RequestClient.{
  Request, Response, delivered, refused, cut, thrown, request_json,
}
use distributed_job_platform.RequestClient.Outcomes.{
  HasRule, IsPlain, rejection, verdict, request_json-HasRule, request_json-first_abort,
}

abbrev no_json : String → Option Json
no_json s = none

abbrev no_text : Json → String
no_text v = ""

abbrev unauthorized : Request
unauthorized = record {
  path = "/jobs";
  url = some "http://localhost/jobs";
  signal = no_signal;
  happenings = [];
  delivery = delivered (record { is_ok = false; status = 401 }) "denied";
  parser = none;
  allow_empty = false;
}

request_json-HasRule_example : HasRule (request_json no_json no_text unauthorized)
unfolding IsPlain
request_json-HasRule_example = request_json-HasRule no_json no_text unauthorized tt

-- The caller aborts with an error of its own, and the timer fires later.
abbrev given_up : Request
given_up = record unauthorized {
  signal = open_signal;
  happenings = caller_aborts (some (other_error "Error")) ∷ timer_fires ∷ [];
}

abbrev denied : Response
denied = record { is_ok = false; status = 401 }

request_json-first_abort_example :
    let reason = some (other_error "Error") in
    (request_json no_json no_text (record given_up { delivery = refused (rejection reason) })
      ≡ thrown (verdict reason))
    × (request_json no_json no_text (record given_up { delivery = cut denied (rejection reason) })
        ≡ thrown (verdict reason))
    × (is_timeout reason ≡ true
        → (request_json no_json no_text (record given_up { delivery = refused something })
            ≡ thrown timed_out_error)
          × (request_json no_json no_text (record given_up { delivery = cut denied something })
              ≡ thrown timed_out_error))
request_json-first_abort_example =
    request_json-first_abort no_json no_text given_up "http://localhost/jobs" denied something
      (some (other_error "Error")) refl refl refl
