-- ===== src/LiveData/Refresh/Sharing.antt =====
-- The requests of a forced refresh (src/hooks/useDashboardLiveData.ts, `requestJson`, `refreshConsole`).
use distributed_job_platform.Base.{
  ℕ, ◌+◌, ◌≡◌, refl, ap, ◌∙◌, String, Bool, true, false, not, ◌&&◌, [], ◌∷◌, Option, none, some,
  is_some, lookup, if◌then◌else◌, arith,
}
use distributed_job_platform.LiveData.{has_url}
use distributed_job_platform.LiveData.Refresh.{
  Refresh, Fetching, Setting, has_number, shared_request, request_all, request_keys, abort_current,
  open_refresh, launch, start_refresh, note_attempt, refresh_console,
}
use distributed_job_platform.LiveData.Refresh.Endings.{rejected, finish_refresh}

-- The four requests of a refresh stand in the map.
pub record AreOut (a b c d : ℕ) (s : Fetching) : Type 0 where
  pub snapshot : lookup "dashboard-snapshot" s.request_map ≡ some a
  pub jobs : lookup "dashboard-jobs" s.request_map ≡ some b
  pub schedules : lookup "dashboard-schedules" s.request_map ≡ some c
  pub workers : lookup "dashboard-workers" s.request_map ≡ some d

joined :
    (a b c d n : ℕ) (s : Fetching)
    → AreOut a b c d s
    → request_all request_keys n s ≡ (s, a ∷ b ∷ c ∷ d ∷ [])
unfolding request_all shared_request
joined a b c d n s h = rw h.snapshot (rw h.jobs (rw h.schedules (rw h.workers refl)))

aborted_map : (o : Option ℕ) (s : Fetching) → (abort_current o s).request_map ≡ s.request_map
aborted_map none s = refl
aborted_map (some n) s = refl

aborted_sent : (o : Option ℕ) (s : Fetching) → (abort_current o s).sent ≡ s.sent
aborted_sent none s = refl
aborted_sent (some n) s = refl

aborted_flights : (o : Option ℕ) (s : Fetching) → (abort_current o s).under_way ≡ s.under_way
aborted_flights none s = refl
aborted_flights (some n) s = refl

open-AreOut :
    (a b c d : ℕ) (quiet : Bool) (s : Fetching)
    → AreOut a b c d s
    → AreOut a b c d (open_refresh quiet s)
open-AreOut a b c d quiet s h =
    let e = aborted_map s.fetch_controller s in
    record {
      snapshot = rw e h.snapshot;
      jobs = rw e h.jobs;
      schedules = rw e h.schedules;
      workers = rw e h.workers;
    }

failed_number :
    (e : Setting) (r : Refresh) (message : String) (s : Fetching)
    → has_number r.number s.aborted ≡ false
    → let t = finish_refresh e r (rejected message) s in
      (t.consecutive_failures ≡ s.consecutive_failures + 1) × (t.global_error ≡ message)
unfolding finish_refresh
failed_number e r message s h = rw h (refl, refl)

chosen_last :
    (live url busy : Bool) (x y z w : Fetching)
    → live ≡ true
    → url ≡ true
    → (if not live then x else if not url then y else if busy && not true then z else w) ≡ w
chosen_last true true true x y z w h k = refl
chosen_last true true false x y z w h k = refl
chosen_last true false busy x y z w h k = ground arith
chosen_last false url busy x y z w h k = ground arith

forced :
    (e : Setting) (quiet : Bool) (s : Fetching)
    → e.live_mode ≡ true
    → has_url e.resolved_base_url ≡ true
    → refresh_console e (record { quiet = quiet; force = true }) s
      ≡ start_refresh quiet (note_attempt e quiet s)
unfolding refresh_console
forced e quiet s live url =
    chosen_last e.live_mode (has_url e.resolved_base_url) (is_some s.fetch_promise) s _ _ _ live url

-- A forced refresh of a live console that starts while the four requests of another are out aborts the
-- other's controller, sends no request of its own, and waits for the four requests that it has aborted; when
-- they are rejected for that, and its own number is fresh, it counts a failure and shows the message.
pub refresh_console-AreOut :
    (e : Setting) (quiet : Bool) (s : Fetching) (old a b c d : ℕ) (message : String)
    → e.live_mode ≡ true
    → has_url e.resolved_base_url ≡ true
    → s.fetch_controller ≡ some old
    → AreOut a b c d s
    → has_number s.next (old ∷ s.aborted) ≡ false
    → let t = refresh_console e (record { quiet = quiet; force = true }) s in
      let r : Refresh = record { number = s.next; quiet = quiet; waits_for = a ∷ b ∷ c ∷ d ∷ [] } in
      (t.sent ≡ s.sent)
      × (t.aborted ≡ old ∷ s.aborted)
      × (t.under_way ≡ r ∷ s.under_way)
      × ((finish_refresh e r (rejected message) t).consecutive_failures
          ≡ t.consecutive_failures + 1)
      × ((finish_refresh e r (rejected message) t).global_error ≡ message)
refresh_console-AreOut e quiet s old a b c d message live url h out fresh =
    let t = note_attempt e quiet s in
    let r : Refresh = record { number = s.next; quiet = quiet; waits_for = a ∷ b ∷ c ∷ d ∷ [] } in
    let o = open_refresh quiet t in
    let noted : AreOut a b c d t = record {
      snapshot = out.snapshot;
      jobs = out.jobs;
      schedules = out.schedules;
      workers = out.workers;
    } in
    let starts =
      forced e quiet s live url
      ∙ ap (launch quiet s.next) (joined a b c d s.next o (open-AreOut a b c d quiet t noted)) in
    let aborts : o.aborted ≡ old ∷ s.aborted = ap (λ x. (abort_current x t).aborted) h in
    let fails =
      failed_number e r message (launch quiet s.next (o, a ∷ b ∷ c ∷ d ∷ []))
        (ap (has_number s.next) aborts ∙ fresh) in
    rw starts (
      aborted_sent s.fetch_controller t,
      aborts,
      ap (λ rs. r ∷ rs) (aborted_flights s.fetch_controller t),
      fails.0,
      fails.1,
    )
