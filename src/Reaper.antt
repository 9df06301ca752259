-- ===== src/Reaper.antt =====
-- internal/terminal/terminalrunner/reaper_linux.go: the reaper of a terminal that is PID 1. The mutex
-- makes RegisterChild and each handled child one step. What `Wait4` answers is an argument.
pub mod Sweeps
pub mod Exits
mod Tests
use sbsh.Base.{
  ℕ, suc, ◌+◌, Bool, true, false, not, ◌&&◌, Option, none, some, List, [], ◌∷◌, ◌++◌, ◌==◌,
  if◌then◌else◌,
}

-- A `WaitStatus`.
pub data Status : Type 0 where
  exited : ℕ → Status
  signaled : ℕ → Status

-- `tracked_once` is whether the Once has run, `exit_ch` what was sent on the channel.
pub record Reaper : Type 0 where
  pub tracked_pid : ℕ
  pub tracked_once : Bool
  pub tracked_stopped : Bool
  pub exit_ch : List ℕ
  pub exit_ch_closed : Bool
  pub pending_exits : List (ℕ × ℕ)

abbrev pub new_reaper : Reaper
new_reaper = record {
  tracked_pid = 0;
  tracked_once = false;
  tracked_stopped = false;
  exit_ch = [];
  exit_ch_closed = false;
  pending_exits = [];
}

abbrev pub exit_code : Status → ℕ
exit_code (exited n) = n
exit_code (signaled n) = 128 + n

-- `deliverTrackedExitLocked`.
abbrev pub deliver_tracked_exit : ℕ → Reaper → Reaper
deliver_tracked_exit code r = if r.tracked_once then r else record {
  tracked_pid = r.tracked_pid;
  tracked_once = true;
  tracked_stopped = true;
  exit_ch = r.exit_ch ++ code ∷ [];
  exit_ch_closed = true;
  pending_exits = r.pending_exits;
}

-- The map of pending exits: the last one that was recorded for a pid.
abbrev pub pending_exit : ℕ → List (ℕ × ℕ) → Option ℕ
pending_exit pid [] = none
pending_exit pid ((p, code) ∷ ps) =
    let rest = pending_exit pid ps in if p == pid then some code else rest

abbrev pub record_exit : ℕ → ℕ → Reaper → Reaper
record_exit pid code r = record {
  tracked_pid = r.tracked_pid;
  tracked_once = r.tracked_once;
  tracked_stopped = r.tracked_stopped;
  exit_ch = r.exit_ch;
  exit_ch_closed = r.exit_ch_closed;
  pending_exits = (pid, code) ∷ r.pending_exits;
}

-- `handleReaped`.
unfoldable pub handle_reaped : ℕ → Status → Reaper → Reaper
handle_reaped pid st r =
    if not (r.tracked_pid == 0) && ((pid == r.tracked_pid) && not r.tracked_stopped)
    then deliver_tracked_exit (exit_code st) r
    else if r.tracked_pid == 0
    then record_exit pid (exit_code st) r
    else r

abbrev pub track : ℕ → Reaper → Reaper
track pid r = record {
  tracked_pid = pid;
  tracked_once = r.tracked_once;
  tracked_stopped = r.tracked_stopped;
  exit_ch = r.exit_ch;
  exit_ch_closed = r.exit_ch_closed;
  pending_exits = r.pending_exits;
}

abbrev pub drop_pending : Reaper → Reaper
drop_pending r = record {
  tracked_pid = r.tracked_pid;
  tracked_once = r.tracked_once;
  tracked_stopped = r.tracked_stopped;
  exit_ch = r.exit_ch;
  exit_ch_closed = r.exit_ch_closed;
  pending_exits = [];
}

abbrev pub resolve : Option ℕ → Reaper → Reaper
resolve none r = r
resolve (some code) r = if r.tracked_stopped then r else deliver_tracked_exit code r

-- `RegisterChild`.
unfoldable pub register_child : ℕ → Reaper → Reaper
register_child pid r =
    if r.tracked_pid == 0
    then drop_pending (resolve (pending_exit pid r.pending_exits) (track pid r))
    else r

-- What `Wait4` answers: a child, none that is ready, none at all, EINTR, or another error.
pub data Waited : Type 0 where
  reaped : ℕ → Status → Waited
  none_ready no_child interrupted wait_error : Waited

-- `drainOnce` on what its calls of `Wait4` answer: the children it handled, and the reaper.
unfoldable pub drain_once : List Waited → Reaper → ℕ × Reaper
unfolding handle_reaped
drain_once [] r = (0, r)
drain_once (reaped pid st ∷ ws) r =
    let (n, r1) = drain_once ws (handle_reaped pid st r) in (suc n, r1)
drain_once (interrupted ∷ ws) r = drain_once ws r
drain_once (none_ready ∷ ws) r = (0, r)
drain_once (no_child ∷ ws) r = (0, r)
drain_once (wait_error ∷ ws) r = (0, r)

-- What happens to a reaper: a sweep of `loop`, or the registration of the child.
pub data Event : Type 0 where
  sweep : List Waited → Event
  register : ℕ → Event

unfoldable pub run : List Event → Reaper → Reaper
unfolding drain_once register_child
run [] r = r
run (sweep ws ∷ es) r = run es (drain_once ws r).1
run (register pid ∷ es) r = run es (register_child pid r)
