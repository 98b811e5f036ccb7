-- ===== src/OpsConsole/Handlers/Operations/Settling.antt =====
-- What the handlers leave of the data in demo mode (src/components/OpsConsole.tsx).
use distributed_job_platform.Base.{◌≡◌, subst, sym, Option, none, some, lookup}
use distributed_job_platform.Models.Console.{ConsoleData}
use distributed_job_platform.ConsoleData.Settled.{IsSettled}
use distributed_job_platform.OpsConsole.Actions.{Action}
use distributed_job_platform.OpsConsole.Actions.Settled.{apply-IsSettled}
use distributed_job_platform.OpsConsole.Handlers.{Ops, Env, turn_of}
use distributed_job_platform.OpsConsole.Handlers.Operations.{Operation, begin, key_of, demo_action}
use distributed_job_platform.OpsConsole.Handlers.Operations.Modes.{apply_maybe}
use distributed_job_platform.OpsConsole.Handlers.Operations.Demo.{in_demo_mode, begin-IsApplied}

apply_maybe-IsSettled :
    (e : Env) (a : Option Action) (d : ConsoleData)
    → IsSettled (turn_of e).clock d
    → IsSettled (turn_of e).clock (apply_maybe e a d)
apply_maybe-IsSettled e none d h = h
apply_maybe-IsSettled e (some a) d h = apply-IsSettled (turn_of e) a d h

-- In demo mode no operation of the console sends a request; from data that are in order, short in events and
-- counted rightly it makes data that are so again; and it is not busy afterwards if it was not before.
pub begin-IsSettled :
    (env : Env) (op : Operation) (s : Ops)
    → IsSettled (turn_of (in_demo_mode env)).clock s.console_data
    → let e = in_demo_mode env in
      let b = begin e op s in
      (b.request ≡ none)
      × IsSettled (turn_of e).clock b.state.console_data
      × (lookup (key_of op) s.busy ≡ none → lookup (key_of op) b.state.busy ≡ none)
begin-IsSettled env op s h =
    let e = in_demo_mode env in
    let a = begin-IsApplied env op s in
    (
      a.quiet,
      subst (IsSettled (turn_of e).clock) (sym a.applied)
          (apply_maybe-IsSettled e (demo_action e op s) s.console_data h),
      a.idle,
    )
