-- ===== src/LiveTransport/Protocol/Ranks.antt =====
-- A measure of how far a stage of the transport manager is from polling.
use distributed_job_platform.Base.{ℕ, ◌+◌, ◌-◌, ◌*◌, ◌≤◌, ◌<◌, ◌≡◌, refl, arith}
use distributed_job_platform.LiveTransport.Types.{RealtimeMode}
use distributed_job_platform.LiveTransport.Protocol.{
  Stage, starting, dialing, connected, waiting, polling, halted, Lands, dials, gives_up, is_refused,
  Fails, retries, falls_back, polls, limit,
}
use distributed_job_platform.LiveTransport.Protocol.History.{InLimits}

-- How many bad events are left before the manager polls.
abbrev pub dial_rank : RealtimeMode → ℕ → ℕ
dial_rank RealtimeMode.websocket a = 2 * (3 - a) + 4
dial_rank RealtimeMode.sse a = 2 * (2 - a)

abbrev pub rank : Stage → ℕ
rank starting = 11
rank (dialing k a) = dial_rank k a
rank (connected k a) = dial_rank k a
rank (waiting k a) = dial_rank k a + 1
rank _ = 0

abbrev pub IsRunning : Stage → Type 0
IsRunning halted = ⊥
IsRunning _ = Unit {0}

mutual
  pub Fails-rank :
      {k : RealtimeMode} {a : ℕ} {s : Stage}
      → Fails k a s
      → a < limit k
      → (rank s < dial_rank k a) × IsRunning s
  Fails-rank {k = RealtimeMode.websocket} (retries more) h = (omega arith, tt)
  Fails-rank {k = RealtimeMode.sse} (retries more) h = (omega arith, tt)
  Fails-rank (falls_back last lands) h =
      let l = Lands-rank lands (omega arith) in (omega arith, l.1)
  Fails-rank {k = RealtimeMode.websocket} (polls last) h = (omega arith, tt)
  Fails-rank {k = RealtimeMode.sse} (polls last) h = (omega arith, tt)

  pub Lands-rank :
      {k : RealtimeMode} {a : ℕ} {s : Stage}
      → Lands k a s
      → a < limit k
      → (rank s ≤ dial_rank k a) × IsRunning s
  Lands-rank dials h = (omega arith, tt)
  Lands-rank gives_up h = (omega arith, tt)
  Lands-rank (is_refused f) h = let l = Fails-rank f h in (omega arith, l.1)

pub rank_zero : (s : Stage) → rank s ≤ 0 → InLimits s → IsRunning s → s ≡ polling
rank_zero starting h lim r = absurd (omega arith)
rank_zero (dialing RealtimeMode.websocket a) h lim r = absurd (omega arith)
rank_zero (dialing RealtimeMode.sse a) h lim r = absurd (omega arith)
rank_zero (connected RealtimeMode.websocket a) h lim r = absurd (omega arith)
rank_zero (connected RealtimeMode.sse a) h lim r = absurd (omega arith)
rank_zero (waiting k a) h lim r = absurd (omega arith)
rank_zero polling h lim r = refl
rank_zero halted h lim r = elim r [ ]
