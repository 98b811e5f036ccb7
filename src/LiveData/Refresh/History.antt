-- ===== src/LiveData/Refresh/History.antt =====
-- What can happen to the refreshes of the console, in any order (src/hooks/useDashboardLiveData.ts).
use distributed_job_platform.Base.{ℕ, String, Bool, List, [], ◌∷◌, Option, none, some, find, ◌==◌}
use distributed_job_platform.Models.Transport.{TransportStatus}
use distributed_job_platform.Models.Console.{ConsoleData}
use distributed_job_platform.LiveData.Refresh.{
  Fetching, Refresh, RefreshOptions, Setting, refresh_console,
}
use distributed_job_platform.LiveData.Refresh.Endings.{
  Ending, abort_for_mode, finish_refresh, settle_request,
}

pub data Happening : Type 0 where
  refreshes : Setting → RefreshOptions → Happening
  settles : String → Happening
  finishes : Setting → ℕ → Ending → Happening
  switches : ConsoleData → TransportStatus → Bool → Happening

abbrev pub finish_found : Setting → Ending → Fetching → Option Refresh → Fetching
finish_found e ending s none = s
finish_found e ending s (some r) = finish_refresh e r ending s

abbrev pub has_refresh_number : ℕ → Refresh → Bool
has_refresh_number number r = r.number == number

unfoldable pub happens : Happening → Fetching → Fetching
happens (refreshes e options) s = refresh_console e options s
happens (settles key) s = settle_request key s
happens (finishes e number ending) s =
    finish_found e ending s (find (has_refresh_number number) s.under_way)
happens (switches next status is_loading) s = abort_for_mode next status is_loading s

unfoldable pub history : List Happening → Fetching → Fetching
history [] s = s
history (h ∷ hs) s = history hs (happens h s)
