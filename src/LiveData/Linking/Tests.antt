-- ===== src/LiveData/Linking/Tests.antt =====
-- The transport managers of the live data hook at concrete histories.
use distributed_job_platform.Base.{◌≡◌, refl, Bool, true, false, List, [], ◌∷◌, none, some}
use distributed_job_platform.Models.Transport.{TransportConnectionState}
use distributed_job_platform.LiveTransport.Types.{Moment, fires}
use distributed_job_platform.LiveTransport.Tests.{chrome, tick}
use distributed_job_platform.LiveData.Linking.{
  Link, Wiring, initial_transport_status, rewire, LinkStep, rewires, delivers, delivers_late,
  link_step, link_history,
}
use distributed_job_platform.LiveData.Linking.Single.{IsLinked, connects, link_history-IsLinked}

abbrev unlinked : Link
unlinked = record { transport_status = initial_transport_status; current = none; retired = [] }

abbrev wiring : Wiring
wiring = record {
  live_mode = true;
  resolved_base_url = some "http://localhost:8080";
  is_visible = true;
  live_updates = true;
  poll_interval_ms = 5000;
}

-- The console connects, the page is hidden, a timer of the stopped manager fires and the page is shown again.
abbrev hidden_for_a_while : List LinkStep
hidden_for_a_while =
    rewires true wiring tick
    ∷ delivers tick (fires 1)
    ∷ rewires true (record wiring { is_visible = false }) tick
    ∷ delivers_late tick (fires 1) 0
    ∷ rewires false wiring tick
    ∷ []

unlinked-IsLinked : IsLinked unlinked
unlinked-IsLinked = record { halts = tt; shown = tt }

link_history-IsLinked_example :
    let r = link_history chrome hidden_for_a_while unlinked in
    IsLinked r
    × ((v : Bool) (w : Wiring) (t : Moment)
        → connects w ≡ false
        → (rewire chrome v w t r).current ≡ none)
link_history-IsLinked_example =
    link_history-IsLinked chrome hidden_for_a_while unlinked unlinked-IsLinked

paused_test :
    (link_step chrome
      (rewires true (record wiring { is_visible = false }) tick)
      unlinked).transport_status.state
    ≡ TransportConnectionState.paused
unfolding link_step rewire
paused_test = refl
