-- ===== src/ConsoleData/Events.antt =====
-- The event feed (src/lib/console-data.ts, `appendEvents`, `sortEvents`). The `Set` of fingerprints
-- is the list of those in it.
pub mod Feed
use distributed_job_platform.Base.{
  ℕ, String, Bool, true, false, List, [], ◌∷◌, ◌++◌, map, take, sort_by, down, includes,
  if◌then◌else◌,
}
use distributed_job_platform.Models.Snapshot.{SystemEvent}
use distributed_job_platform.Models.Console.{ConsoleData, Clock}
use distributed_job_platform.LiveRefresh.{create_event_fingerprint}

abbrev pub latest_first : Clock → SystemEvent → SystemEvent → Bool
latest_first c = down (λ (e : SystemEvent). c.get_time e.timestamp)

unfoldable pub sort_events : Clock → List SystemEvent → List SystemEvent
sort_events c events = take 60 (sort_by (latest_first c) events)

-- The loop: the events that are new, in their order, by the fingerprints seen so far.
unfoldable pub fresh_events : List String → List SystemEvent → List SystemEvent
fresh_events seen [] = []
fresh_events seen (e ∷ es) =
    let print = create_event_fingerprint e in
    let rest = fresh_events (print ∷ seen) es in
    if includes print seen then fresh_events seen es else e ∷ rest

unfoldable pub merge_events : Clock → ConsoleData → List SystemEvent → ConsoleData
merge_events c d [] = d
merge_events c d (e ∷ es) = record d { events = sort_events c (d.events ++ e ∷ es) }

unfoldable pub append_events : Clock → ConsoleData → List SystemEvent → ConsoleData
append_events c d events =
    merge_events c d (fresh_events (map create_event_fingerprint d.events) events)

unfoldable pub append_event : Clock → ConsoleData → SystemEvent → ConsoleData
append_event c d e = append_events c d (e ∷ [])
