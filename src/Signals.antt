-- ===== src/Signals.antt =====
-- cmd/sb/stop/terminals.go: the signals that `sb stop` sends behind the identity check, and its wait
-- for the process to exit. What the kernel answers is an argument.
use sbsh.Base.{ℕ, Bool, true, false, not, Option, none, some, String, List, [], ◌∷◌, if◌then◌else◌}
use sbsh.Errdefs.{Error, sentinel, wrap, message, err_signal_process}
use sbsh.Process.{
  ℤ, positive, Errno, esrch, err_not_exist, Probe, match_instance, process_is_ours,
  is_process_gone_err,
}

pub data Sig : Type 0 where
  sigterm sigkill : Sig

-- What is done to the outside: `kill(-pgid, SIGKILL)`, a signal to a pid, the Stop RPC.
pub data Effect : Type 0 where
  kill_group : ℤ → Effect
  signal : ℤ → Sig → Effect
  rpc_stop : String → Effect

abbrev pub errno_error : Errno → Error
errno_error e = message "errno"

abbrev pub signal_error : Errno → Option Error
signal_error e = some (wrap (sentinel err_signal_process) (errno_error e))

abbrev pub group_killed : Option Errno → Option Error
group_killed none = none
group_killed (some esrch) = none
group_killed (some e) = signal_error e

-- `sendPgroupKill`, and the kernel's answer.
unfoldable pub send_pgroup_kill : ℤ → Option Errno → Option Error × List Effect
send_pgroup_kill pgid answer =
    if positive pgid then (group_killed answer, kill_group pgid ∷ []) else (none, [])

abbrev pub signalled_ok : Option Errno → Option Error
signalled_ok none = none
signalled_ok (some e) = if is_process_gone_err e then none else signal_error e

-- `sendSignal` behind `Match`; a vanished or recycled pid is not signalled.
unfoldable pub send_matched :
    ℤ → Sig → Probe → Option Errno → Bool × Option Errno → Option Error × List Effect
send_matched pid sig p answer (ok, some err_not_exist) = (none, [])
send_matched pid sig p answer (ok, some e) = (signal_error e, [])
send_matched pid sig p answer (false, none) = (none, [])
send_matched pid sig p answer (true, none) = elim p.found [
  | some e ↦ (signal_error e, [])
  | none ↦ (signalled_ok answer, signal pid sig ∷ [])
]

unfoldable pub send_signal : ℤ → ℕ → Sig → Probe → Option Errno → Option Error × List Effect
unfolding send_matched
send_signal pid start sig p answer =
    if positive pid
    then send_matched pid sig p answer (match_instance pid start p)
    else (some (wrap (sentinel err_signal_process) (message "invalid pid")), [])

-- One round of the poll: the probe, whether the deadline has passed, and whether the context ended
-- the wait, with the probe after that.
pub record Round : Type 0 where
  pub probe : Probe
  pub late : Bool
  pub ended : Option Probe

-- `waitForExit` over its rounds; `none` is a poll that still goes on.
unfoldable pub wait_rounds : ℤ → ℕ → List Round → Option Bool
wait_rounds pid start [] = none
wait_rounds pid start (r ∷ rs) =
    let rest = wait_rounds pid start rs in
    if not (process_is_ours pid start r.probe)
    then some true
    else if r.late
    then some false
    else elim r.ended [ some p ↦ some (not (process_is_ours pid start p)) | none ↦ rest ]

unfoldable pub wait_for_exit : ℤ → ℕ → List Round → Option Bool
unfolding wait_rounds
wait_for_exit pid start rs = if positive pid then wait_rounds pid start rs else some true
