-- ===== src/LiveTransport/Messages.antt =====
-- Reading a realtime message (src/lib/live-transport.ts, `parseTransportEvent`).
use distributed_job_platform.Base.{String, Option, none, some, if◌then◌else◌}
use distributed_job_platform.Json.{Json, object, member, is_text_field}
use distributed_job_platform.LiveTransport.Types.{Payload, buffer, other, Browser}

parse_object : Json → Option Json
parse_object (object fs) = if is_text_field (member "kind" fs) then some (object fs) else none
parse_object _ = none

raw_text : Browser → Payload → String
raw_text b (Payload.text s) = s
raw_text b (buffer bytes) = b.decode bytes
raw_text b (other s) = s

pub parse_transport_event : Browser → Payload → Option Json
unfolding parse_object raw_text
parse_transport_event b payload = elim (b.json_parse (raw_text b payload)) [
  | none ↦ none
  | some v ↦ parse_object v
]
