-- ===== src/LiveData/Linking/Single.antt =====
-- The stages of the transport managers that the hook holds or has stopped (src/hooks/useDashboardLiveData.ts,
-- src/lib/live-transport.ts).
use distributed_job_platform.Base.{
  ℕ, zero, suc, ◌≡◌, refl, subst, Bool, true, false, not, ◌&&◌, List, [], ◌∷◌, Option, none, some,
  All, arith, if◌then◌else◌,
}
use distributed_job_platform.LiveTransport.Types.{Browser, Moment, LiveTransportManager, Event}
use distributed_job_platform.Models.Transport.{TransportStatus}
use distributed_job_platform.LiveTransport.Callbacks.{handle}
use distributed_job_platform.LiveTransport.Protocol.{Stage, starting, halted, Shows}
use distributed_job_platform.LiveTransport.Protocol.Timers.{Shows-Tracked, stop-Shows}
use distributed_job_platform.LiveTransport.Protocol.History.{handle-Shows, start-Shows}
use distributed_job_platform.LiveTransport.Protocol.Stopping.{halted-Move}
use distributed_job_platform.LiveData.{has_url}
use distributed_job_platform.LiveData.Linking.{
  Link, Wiring, retired_manager, retire, wire, rewire, delivered, delivered_late, LinkStep, rewires,
  delivers, delivers_late, link_step, link_history,
}

abbrev IsShown : Option LiveTransportManager → Type 0
IsShown none = Unit {0}
IsShown (some m) = (stage : Stage) × Shows m stage

-- Every retired manager is halted, and the current one, if any, is at a stage of the protocol.
pub record IsLinked (s : Link) : Type 0 where
  pub halts : All (λ m. Shows m halted) s.retired
  pub shown : IsShown s.current

-- An effect under these conditions makes a manager.
abbrev pub connects : Wiring → Bool
connects w = w.live_mode && (has_url w.resolved_base_url && (w.is_visible && w.live_updates))

retired-IsLinked :
    (b : Browser) (t : Moment) (v : Bool) (o : Option LiveTransportManager) (s : Link)
    → s.current ≡ o
    → IsLinked s
    → IsLinked (retired_manager b t v o s) × ((retired_manager b t v o s).current ≡ none)
retired-IsLinked b t v none s e h = (h, e)
retired-IsLinked b t v (some m) s e h =
    let (stage, shows) = subst IsShown e h.shown in
    (record { halts = (stop-Shows _ m (Shows-Tracked stage m shows), h.halts); shown = tt }, refl)

either-IsLinked : (b : Bool) (x y : Link) → IsLinked x → IsLinked y → IsLinked (if b then x else y)
either-IsLinked true x y h k = h
either-IsLinked false x y h k = k

restated :
    (s : Link) (status : TransportStatus)
    → IsLinked s
    → IsLinked (record s { transport_status = status })
restated s status h = record { halts = h.halts; shown = h.shown }

wire-IsLinked :
    (b : Browser) (w : Wiring) (t : Moment) (s : Link) → IsLinked s → IsLinked (wire b w t s)
wire-IsLinked b w t s h = either-IsLinked (not w.live_mode) s _ h (
    either-IsLinked (not (has_url w.resolved_base_url)) _ _ (restated s _ h) (
      either-IsLinked (not w.is_visible) _ _ (restated s _ h) (
        either-IsLinked (not w.live_updates) _ _ (restated s _ h)
          (record { halts = h.halts; shown = (starting, start-Shows t) }))))

none_unless :
    (a b c d : Bool) (v w x y z : Link)
    → (a && (b && (c && d))) ≡ false
    → v.current ≡ none
    → w.current ≡ none
    → x.current ≡ none
    → y.current ≡ none
    → (if not a
        then v
        else if not b
        then w
        else if not c
        then x
        else if not d
        then y
        else z).current
      ≡ none
none_unless false b c d v w x y z e p q r o = p
none_unless true false c d v w x y z e p q r o = q
none_unless true true false d v w x y z e p q r o = r
none_unless true true true false v w x y z e p q r o = o
none_unless true true true true v w x y z e p q r o = ground arith

wire-none :
    (b : Browser) (w : Wiring) (t : Moment) (s : Link)
    → connects w ≡ false
    → s.current ≡ none
    → (wire b w t s).current ≡ none
wire-none b w t s c h =
    none_unless w.live_mode (has_url w.resolved_base_url) w.is_visible w.live_updates s _ _ _ _ c h
      h h h

late-All :
    (b : Browser) (t : Moment) (e : Event) (n : ℕ) (ms : List LiveTransportManager)
    → All (λ m. Shows m halted) ms
    → All (λ m. Shows m halted) (delivered_late b t e n ms)
late-All b t e n [] h = h
late-All b t e zero (m ∷ ms) (x, h) =
    let (stage, move, shows) = handle-Shows b t m halted e x in
    (subst (Shows (handle b t e m)) (halted-Move move) shows, h)
late-All b t e (suc n) (m ∷ ms) (x, h) = (x, late-All b t e n ms h)

delivered-IsLinked :
    (b : Browser) (t : Moment) (e : Event) (o : Option LiveTransportManager) (s : Link)
    → s.current ≡ o
    → IsLinked s
    → IsLinked (delivered b t e o s)
delivered-IsLinked b t e none s c h = h
delivered-IsLinked b t e (some m) s c h =
    let (stage, shows) = subst IsShown c h.shown in
    let (next, move, now) = handle-Shows b t m stage e shows in
    record { halts = h.halts; shown = (next, now) }

rewire-IsLinked :
    (b : Browser) (v : Bool) (w : Wiring) (t : Moment) (s : Link)
    → IsLinked s
    → IsLinked (rewire b v w t s) × (connects w ≡ false → (rewire b v w t s).current ≡ none)
unfolding rewire
rewire-IsLinked b v w t s h =
    let (first, gone) = retired-IsLinked b t v s.current s refl h in
    let (second, empty) =
      retired-IsLinked b t w.is_visible (retire b t v s).current (retire b t v s) refl first in
    (
      wire-IsLinked b w t (retire b t w.is_visible (retire b t v s)) second,
      λ c. wire-none b w t (retire b t w.is_visible (retire b t v s)) c empty,
    )

link_step-IsLinked :
    (b : Browser) (x : LinkStep) (s : Link) → IsLinked s → IsLinked (link_step b x s)
unfolding link_step
link_step-IsLinked b (rewires v w t) s h = (rewire-IsLinked b v w t s h).0
link_step-IsLinked b (delivers t e) s h = delivered-IsLinked b t e s.current s refl h
link_step-IsLinked b (delivers_late t e n) s h = record {
  halts = late-All b t e n s.retired h.halts;
  shown = h.shown;
}

-- After any history of changes of the connection's settings and of events of the browser, also events that
-- reach a manager that was stopped, every manager but the current one is stopped, with no socket, no event
-- source and no timer, and the current one is at a stage of its protocol, if this was so at first; and a
-- change to settings under which the console does not connect leaves no current manager.
pub link_history-IsLinked :
    (b : Browser) (xs : List LinkStep) (s : Link)
    → IsLinked s
    → let r = link_history b xs s in
      IsLinked r
      × ((v : Bool) (w : Wiring) (t : Moment)
          → connects w ≡ false
          → (rewire b v w t r).current ≡ none)
unfolding link_history
link_history-IsLinked b [] s h = (h, λ v w t. (rewire-IsLinked b v w t s h).1)
link_history-IsLinked b (x ∷ xs) s h =
    link_history-IsLinked b xs (link_step b x s) (link_step-IsLinked b x s h)
