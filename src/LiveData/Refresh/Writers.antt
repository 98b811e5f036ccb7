-- ===== src/LiveData/Refresh/Writers.antt =====
-- Which of the refreshes under way can write what (src/hooks/useDashboardLiveData.ts, `refreshConsole`).
use distributed_job_platform.Base.{
  ℕ, ◌≡◌, refl, ◌∙◌, ap, String, Bool, true, false, not, ◌&&◌, ◌||◌, List, [], ◌∷◌, Option, none,
  some, is_some, find, find_passes, all, keep, lookup, ◌==◌, ==_iff, Bool-cases, inl, inr,
  if◌then◌else◌, arith,
}
use distributed_job_platform.LiveData.{has_url}
use distributed_job_platform.LiveData.Refresh.{
  Refresh, Fetching, Setting, RefreshOptions, has_number, is_current_number, join_or_send,
  shared_request, request_all, request_keys, abort_current, open_refresh, start_refresh,
  note_attempt, refuse_url, refresh_console,
}
use distributed_job_platform.LiveData.Refresh.Endings.{
  Ending, fulfilled, rejected, after_ending, close_refresh, finish_refresh, settle_request,
  drop_controller, abort_for_mode,
}
use distributed_job_platform.LiveData.Refresh.History.{
  Happening, refreshes, settles, finishes, switches, finish_found, has_refresh_number, happens,
  history,
}

-- The refresh is aborted, or it has the current controller.
abbrev pub is_held : Fetching → Refresh → Bool
is_held s r = has_number r.number s.aborted || is_current_number s.fetch_controller r.number

abbrev pub IsHeld : Fetching → Type 0
IsHeld s = all (is_held s) s.under_way ≡ true

-- What requests leave alone.
record IsSameFlight (s t : Fetching) : Type 0 where
  flights : t.under_way ≡ s.under_way
  aborts : t.aborted ≡ s.aborted
  controller : t.fetch_controller ≡ s.fetch_controller

join-IsSameFlight :
    (key : String) (n : ℕ) (o : Option ℕ) (s : Fetching) → IsSameFlight s (join_or_send key n o s).0
join-IsSameFlight key n none s = record { flights = refl; aborts = refl; controller = refl }
join-IsSameFlight key n (some p) s = record { flights = refl; aborts = refl; controller = refl }

request_all-IsSameFlight :
    (keys : List String) (n : ℕ) (s : Fetching) → IsSameFlight s (request_all keys n s).0
unfolding request_all shared_request
request_all-IsSameFlight [] n s = record { flights = refl; aborts = refl; controller = refl }
request_all-IsSameFlight (key ∷ keys) n s =
    let a = join-IsSameFlight key n (lookup key s.request_map) s in
    let b = request_all-IsSameFlight keys n (join_or_send key n (lookup key s.request_map) s).0 in
    record {
      flights = b.flights ∙ a.flights;
      aborts = b.aborts ∙ a.aborts;
      controller = b.controller ∙ a.controller;
    }

-- After the current controller is aborted, every refresh under way is aborted.
all_aborted :
    (rs : List Refresh) (o : Option ℕ) (s : Fetching)
    → s.fetch_controller ≡ o
    → all (is_held s) rs ≡ true
    → all (λ (r : Refresh). has_number r.number (abort_current o s).aborted) rs ≡ true
all_aborted [] o s h k = refl
all_aborted (r ∷ rs) none s h k = ground (arith, all_aborted rs none s h)
all_aborted (r ∷ rs) (some n) s h k = ground (arith, h, all_aborted rs (some n) s h)

held_over :
    (rs : List Refresh) (ns : List ℕ) (o : Option ℕ)
    → all (λ (r : Refresh). has_number r.number ns) rs ≡ true
    → all (λ (r : Refresh). has_number r.number ns || is_current_number o r.number) rs ≡ true
held_over [] ns o h = refl
held_over (r ∷ rs) ns o h = ground (arith, held_over rs ns o)

open-aborts : (quiet : Bool) (s : Fetching) → (open_refresh quiet s).under_way ≡ s.under_way
open-aborts quiet s = go s.fetch_controller
  where
    go : (o : Option ℕ) → (abort_current o s).under_way ≡ s.under_way
    go none = refl
    go (some n) = refl

IsHeld-from :
    (t : Fetching) (rs : List Refresh) (ns : List ℕ) (o : Option ℕ)
    → t.under_way ≡ rs
    → t.aborted ≡ ns
    → t.fetch_controller ≡ o
    → all (λ (r : Refresh). has_number r.number ns || is_current_number o r.number) rs ≡ true
    → IsHeld t
IsHeld-from t rs ns o a b c h = rw (a, b, c) h

new_held :
    (r : Refresh) (rs : List Refresh) (ns : List ℕ)
    → all (λ (x : Refresh). has_number x.number ns || is_current_number (some r.number) x.number) rs
      ≡ true
    → all
        (λ (x : Refresh). has_number x.number ns || is_current_number (some r.number) x.number)
        (r ∷ rs)
      ≡ true
new_held r rs ns h = ground (arith, ==_iff r.number r.number)

start_refresh-IsHeld : (quiet : Bool) (s : Fetching) → IsHeld s → IsHeld (start_refresh quiet s)
start_refresh-IsHeld quiet s h =
    let out = request_all request_keys s.next (open_refresh quiet s) in
    let same = request_all-IsSameFlight request_keys s.next (open_refresh quiet s) in
    let aborted = (abort_current s.fetch_controller s).aborted in
    let r : Refresh = record { number = s.next; quiet = quiet; waits_for = out.1 } in
    IsHeld-from (start_refresh quiet s) (r ∷ s.under_way) aborted (some s.next)
      (ap (λ rs. r ∷ rs) (same.flights ∙ open-aborts quiet s)) same.aborts same.controller
      (new_held r s.under_way aborted (
        held_over s.under_way aborted (some s.next)
          (all_aborted s.under_way s.fetch_controller s refl h)))

ending-IsSameFlight :
    (e : Setting) (ending : Ending) (s : Fetching) → IsSameFlight s (after_ending e ending s)
ending-IsSameFlight e (rejected message) s = record {
  flights = refl;
  aborts = refl;
  controller = refl;
}
ending-IsSameFlight e (fulfilled p) s = record {
  flights = ground arith;
  aborts = ground arith;
  controller = ground arith;
}

closed :
    (rs : List Refresh) (n : ℕ) (ns : List ℕ) (o : Option ℕ)
    → all (λ (r : Refresh). has_number r.number ns || is_current_number o r.number) rs ≡ true
    → all
        (λ (r : Refresh).
          has_number r.number ns || is_current_number (drop_controller o n) r.number)
        (keep (λ (x : Refresh). not (x.number == n)) rs)
      ≡ true
closed [] n ns o h = refl
closed (r ∷ rs) n ns none h = ground (arith, closed rs n ns none)
closed (r ∷ rs) n ns (some m) h = ground (arith, closed rs n ns (some m))

finish-IsHeld :
    (e : Setting) (r : Refresh) (ending : Ending) (s : Fetching)
    → IsHeld s
    → IsHeld (finish_refresh e r ending s)
unfolding finish_refresh
finish-IsHeld e r ending s h = elim (Bool-cases (has_number r.number s.aborted)) [
  | inl a ↦ rw a (
      IsHeld-from (close_refresh r s) _ s.aborted (drop_controller s.fetch_controller r.number) refl
        refl refl (closed s.under_way r.number s.aborted s.fetch_controller h))
  | inr a ↦
      let same = ending-IsSameFlight e ending s in
      rw a (
        IsHeld-from (close_refresh r (after_ending e ending s)) _ s.aborted
          (drop_controller s.fetch_controller r.number)
          (ap (keep (λ (x : Refresh). not (x.number == r.number))) same.flights) same.aborts
          (ap (λ o. drop_controller o r.number) same.controller)
          (closed s.under_way r.number s.aborted s.fetch_controller h))
]

either-IsHeld : (b : Bool) (x y : Fetching) → IsHeld x → IsHeld y → IsHeld (if b then x else y)
either-IsHeld true x y h k = h
either-IsHeld false x y h k = k

refresh_console-IsHeld :
    (e : Setting) (options : RefreshOptions) (s : Fetching)
    → IsHeld s
    → IsHeld (refresh_console e options s)
unfolding refresh_console
refresh_console-IsHeld e options s h =
    let t = note_attempt e options.quiet s in
    either-IsHeld (not e.live_mode) s _ h (
      either-IsHeld (not (has_url e.resolved_base_url)) (refuse_url options.quiet t) _ h (
        either-IsHeld (is_some s.fetch_promise && not options.force) t
          (start_refresh options.quiet t) h (start_refresh-IsHeld options.quiet t h)))

found-IsHeld :
    (e : Setting) (ending : Ending) (s : Fetching) (o : Option Refresh)
    → IsHeld s
    → IsHeld (finish_found e ending s o)
found-IsHeld e ending s none h = h
found-IsHeld e ending s (some r) h = finish-IsHeld e r ending s h

switched-IsHeld :
    (s : Fetching) (o : Option ℕ) → s.fetch_controller ≡ o → IsHeld s → IsHeld (abort_current o s)
switched-IsHeld s none e h = h
switched-IsHeld s (some n) e h =
    IsHeld-from (abort_current (some n) s) s.under_way (n ∷ s.aborted) s.fetch_controller refl refl
      refl
      (held_over s.under_way (n ∷ s.aborted) s.fetch_controller
        (all_aborted s.under_way (some n) s e h))

happens-IsHeld : (a : Happening) (s : Fetching) → IsHeld s → IsHeld (happens a s)
unfolding happens settle_request abort_for_mode
happens-IsHeld (refreshes e options) s h = refresh_console-IsHeld e options s h
happens-IsHeld (settles key) s h = h
happens-IsHeld (finishes e number ending) s h =
    found-IsHeld e ending s (find (has_refresh_number number) s.under_way) h
happens-IsHeld (switches next status is_loading) s h = switched-IsHeld s s.fetch_controller refl h

find-all :
    (p q : Refresh → Bool) (rs : List Refresh) (r : Refresh)
    → all p rs ≡ true
    → find q rs ≡ some r
    → p r ≡ true
find-all p q [] r h k = ground arith
find-all p q (x ∷ rs) r h k = ground (arith, find-all p q rs r)

-- What a refresh that was replaced leaves alone.
abbrev pub IsUnwritten : Fetching → Fetching → Type 0
IsUnwritten s t =
    (t.console_data ≡ s.console_data)
    × (t.consecutive_failures ≡ s.consecutive_failures)
    × (t.global_error ≡ s.global_error)
    × (t.last_successful_at ≡ s.last_successful_at)
    × (t.last_fetch_at ≡ s.last_fetch_at)
    × (t.data_signature ≡ s.data_signature)

aborted-IsUnwritten :
    (e : Setting) (ending : Ending) (s : Fetching) (r : Refresh)
    → has_number r.number s.aborted ≡ true
    → IsUnwritten s (finish_refresh e r ending s)
unfolding finish_refresh
aborted-IsUnwritten e ending s r h = rw h (refl, refl, refl, refl, refl, refl)

replaced-IsUnwritten :
    (e : Setting) (n : ℕ) (ending : Ending) (s : Fetching) (o : Option Refresh)
    → IsHeld s
    → is_current_number s.fetch_controller n ≡ false
    → find (has_refresh_number n) s.under_way ≡ o
    → IsUnwritten s (finish_found e ending s o)
replaced-IsUnwritten e n ending s none held h k = (refl, refl, refl, refl, refl, refl)
replaced-IsUnwritten e n ending s (some r) held h k = aborted-IsUnwritten e ending s r (
    ground (
      arith,
      find-all (is_held s) (has_refresh_number n) s.under_way r held k,
      (==_iff r.number n).0 (find_passes (has_refresh_number n) s.under_way r k),
    ))

-- The end of a refresh, replaced or not, forgets the promise of the current one and stops showing loading.
found-clears :
    (e : Setting) (ending : Ending) (s : Fetching) (o : Option Refresh) (r : Refresh)
    → o ≡ some r
    → ((finish_found e ending s o).fetch_promise ≡ none)
      × ((finish_found e ending s o).loading ≡ false)
unfolding finish_refresh
found-clears e ending s none r k = ground arith
found-clears e ending s (some x) r k = (refl, refl)

-- After any history of refreshes, forced or not, of answers and of switches of the mode, every refresh
-- under way is aborted or the current one, if this was so at first: whatever a refresh that was replaced
-- gets in the end, it changes neither the data and their signature nor the failures, the error, the last
-- success and the last fetch; but if it is still under way, its end forgets the promise of the refresh that
-- replaced it, and the console no longer shows that it loads.
pub history-IsHeld :
    (hs : List Happening) (s : Fetching)
    → IsHeld s
    → let t = history hs s in
      IsHeld t
      × ((e : Setting) (n : ℕ) (ending : Ending)
          → is_current_number t.fetch_controller n ≡ false
          → let u = happens (finishes e n ending) t in
            IsUnwritten t u
            × ((r : Refresh)
                → find (has_refresh_number n) t.under_way ≡ some r
                → (u.fetch_promise ≡ none) × (u.loading ≡ false)))
unfolding history happens
history-IsHeld [] s held = (
  held,
  λ e n ending h. (
    replaced-IsUnwritten e n ending s (find (has_refresh_number n) s.under_way) held h refl,
    found-clears e ending s (find (has_refresh_number n) s.under_way),
  ),
)
history-IsHeld (a ∷ hs) s held = history-IsHeld hs (happens a s) (happens-IsHeld a s held)
