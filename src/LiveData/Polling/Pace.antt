-- ===== src/LiveData/Polling/Pace.antt =====
-- How fast the console polls (src/hooks/useDashboardLiveData.ts, `scheduleNext`, `sameTransportStatus`).
use distributed_job_platform.Base.{
  ℕ, ◌≤◌, ◌<◌, ◌≡◌, inl, inr, refl, String, true, false, ◌&&◌, Option, some, Bool-cases, arith,
}
use distributed_job_platform.LiveRefresh.Delays.Bounds.{get_next_poll_delay_mono}
use distributed_job_platform.LiveData.{has_url}
use distributed_job_platform.LiveData.Polling.{
  is_realtime, Pacing, Loop, lengthened, schedule_next, after_poll,
}

lengthened_bounds :
    (p : Pacing) (d : ℕ)
    → p.poll_interval_ms ≤ d
    → d ≤ 60_000
    → let n = lengthened p d in
      (p.poll_interval_ms ≤ n)
      × (n ≤ 60_000)
      × (p.live_updates && is_realtime p.mode ≡ false → 15_000 ≤ n)
lengthened_bounds p d low high = elim (Bool-cases (p.live_updates && is_realtime p.mode)) [
  | inl e ↦ rw e (low, high, λ h. ground (arith, h))
  | inr e ↦ rw e (omega arith, omega arith, λ h. omega arith)
]

-- While the page is shown and the address is good, a poll that has ended sets the timer of the next for an
-- interval of up to a minute: it fires no sooner than the interval and within a minute, and without a
-- realtime transport no sooner than 15 seconds; and the delay that is shown is that of the timer.
pub after_poll_lem :
    (p : Pacing) (url : Option String) (s : Loop)
    → 0 < p.poll_interval_ms
    → p.poll_interval_ms ≤ 60_000
    → s.cancelled ≡ false
    → has_url url ≡ true
    → (n : ℕ) × ((after_poll p true url s).timer ≡ some n)
      × ((after_poll p true url s).current_poll_delay_ms ≡ n)
      × (p.poll_interval_ms ≤ n)
      × (n ≤ 60_000)
      × ((p.live_updates && is_realtime p.mode) ≡ false → 15_000 ≤ n)
unfolding after_poll schedule_next
after_poll_lem p url s pos top going good =
    let (d, e, h, k, low, mono, high, cap) =
      get_next_poll_delay_mono p.poll_interval_ms p.consecutive_failures p.consecutive_failures pos
        top (omega arith) in
    let bounds = lengthened_bounds p d low (omega arith) in
    (
      lengthened p d,
      rw going (rw good (rw h refl)),
      rw going (rw good (rw h refl)),
      bounds.0,
      bounds.1,
      bounds.2,
    )
