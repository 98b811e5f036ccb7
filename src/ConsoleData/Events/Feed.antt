-- ===== src/ConsoleData/Events/Feed.antt =====
-- The event feed (src/lib/console-data.ts, `appendEvents`).
use distributed_job_platform.Base.{
  ℕ, ◌+◌, ◌≤◌, ◌≡◌, refl, String, Bool, true, false, List, [], ◌∷◌, ◌++◌, map, length, tally,
  sort_by, includes, if◌then◌else◌, str_eq, str_eq_iff, IsSortedBy, sort_by-IsSortedBy,
  IsSortedBy-take, down_total, tally-sort_by, tally-append, tally-take, length-take, All, arith,
  Bool-cases, inl, inr,
}
use distributed_job_platform.Models.Snapshot.{SystemEvent}
use distributed_job_platform.Models.Console.{ConsoleData, Clock}
use distributed_job_platform.LiveRefresh.{create_event_fingerprint}
use distributed_job_platform.ConsoleData.Events.{
  latest_first, sort_events, fresh_events, merge_events, append_events,
}

abbrev pub has_print : String → SystemEvent → Bool
has_print p e = str_eq (create_event_fingerprint e) p

-- At most 60 events, the latest first, no two with one fingerprint.
unfoldable pub IsFeed : Clock → List SystemEvent → Type 0
IsFeed c es =
    (length es ≤ 60) × IsSortedBy (latest_first c) es × ((p : String) → tally (has_print p) es ≤ 1)

tally-unseen :
    (p : String) (es : List SystemEvent)
    → includes p (map create_event_fingerprint es) ≡ false
    → tally (has_print p) es ≡ 0
tally-unseen p [] h = refl
tally-unseen p (e ∷ es) h = ground (arith, tally-unseen p es)

-- An event that was seen is not fresh, and none is fresh twice.
tally-fresh_events :
    (p : String) (seen : List String) (es : List SystemEvent)
    → tally (has_print p) (fresh_events seen es) + (if includes p seen then 1 else 0) ≤ 1
unfolding fresh_events
tally-fresh_events p seen [] = ground arith
tally-fresh_events p seen (e ∷ es) =
    let later = tally-fresh_events p (create_event_fingerprint e ∷ seen) es in
    let same = tally-fresh_events p seen es in
    elim (Bool-cases (includes (create_event_fingerprint e) seen)) [
      | inl h ↦ rw h same
      | inr h ↦ rw h (ground (arith, later, h, str_eq_iff (create_event_fingerprint e) p))
    ]

pub sort_events-short : (c : Clock) (es : List SystemEvent) → length (sort_events c es) ≤ 60
unfolding sort_events
sort_events-short c es = omega (arith, length-take 60 (sort_by (latest_first c) es))

pub sort_events-IsSortedBy :
    (c : Clock) (es : List SystemEvent) → IsSortedBy (latest_first c) (sort_events c es)
unfolding sort_events
sort_events-IsSortedBy c es =
    let key : SystemEvent → ℕ = λ e. c.get_time e.timestamp in
    IsSortedBy-take (latest_first c) (down_total key) 60 (sort_by (latest_first c) es)
      (sort_by-IsSortedBy (latest_first c) (down_total key) es)

tally-sort_events :
    (p : SystemEvent → Bool) (c : Clock) (es : List SystemEvent)
    → tally p (sort_events c es) ≤ tally p es
unfolding sort_events
tally-sort_events p c es =
    omega
      (arith, tally-take p 60 (sort_by (latest_first c) es), tally-sort_by p (latest_first c) es)

merge_events-IsFeed :
    (c : Clock) (d : ConsoleData) (new : List SystemEvent)
    → IsFeed c d.events
    → ((p : String) → tally (has_print p) d.events + tally (has_print p) new ≤ 1)
    → IsFeed c (merge_events c d new).events
unfolding merge_events IsFeed
merge_events-IsFeed c d [] h once = h
merge_events-IsFeed c d (e ∷ es) h once = (
  sort_events-short c (d.events ++ e ∷ es),
  sort_events-IsSortedBy c (d.events ++ e ∷ es),
  λ p. omega (
    arith,
    once p,
    tally-sort_events (has_print p) c (d.events ++ e ∷ es),
    tally-append (has_print p) d.events (e ∷ es),
  ),
)

-- Appending any events keeps the feed at 60 events or fewer, the latest first, with no fingerprint
-- twice.
pub append_events-IsFeed :
    (c : Clock) (d : ConsoleData) (es : List SystemEvent)
    → IsFeed c d.events
    → IsFeed c (append_events c d es).events
unfolding append_events IsFeed
append_events-IsFeed c d es h =
    let prints = map create_event_fingerprint d.events in
    merge_events-IsFeed c d (fresh_events prints es) h (λ p. elim (Bool-cases (includes p prints)) [
      | inl e ↦ let none_new = tally-fresh_events p prints es in ground (arith, none_new, e, h.2 p)
      | inr e ↦
          let one_new = tally-fresh_events p prints es in
          let none_old = tally-unseen p d.events e in omega arith
    ])

unfoldable pub IsSeen : List String → SystemEvent → Type 0
IsSeen seen e = includes (create_event_fingerprint e) seen ≡ true

fresh_events-seen :
    (seen : List String) (es : List SystemEvent) → All (IsSeen seen) es → fresh_events seen es ≡ []
unfolding fresh_events IsSeen
fresh_events-seen seen [] h = refl
fresh_events-seen seen (e ∷ es) h = rw h.0 (fresh_events-seen seen es h.1)

-- Events that are all in the feed already leave the console's data as it is.
pub append_events-seen :
    (c : Clock) (d : ConsoleData) (es : List SystemEvent)
    → All (IsSeen (map create_event_fingerprint d.events)) es
    → append_events c d es ≡ d
unfolding append_events merge_events
append_events-seen c d es h = rw (fresh_events-seen (map create_event_fingerprint d.events) es h)
