-- ===== src/Stop.antt =====
-- cmd/sb/stop/terminals.go: `sb stop`. What the kernel and the terminal answer is an argument, what
-- the command does to them a list of effects.
pub mod Careful
pub mod Gone
pub mod Reports
mod Tests
use sbsh.Base.{
  ℕ, suc, ◌+◌, Bool, true, false, not, ◌&&◌, ◌||◌, Option, none, some, String, List, [], ◌∷◌, ◌++◌,
  is_empty, ◌⊎◌, inl, inr, if◌then◌else◌, ltb, length,
}
use sbsh.Errdefs.{
  Error, sentinel, wrap, context, message, err_no_terminal_identifier, err_invalid_flag,
  err_signal_process, err_stop_terminal, err_terminal_not_found, is,
}
use sbsh.Process.{
  ℤ, positive, Errno, esrch, err_not_exist, Probe, match_instance, process_is_ours,
  is_process_gone_err,
}
use sbsh.Signals.{
  Sig, sigterm, sigkill, Effect, kill_group, signal, rpc_stop, errno_error, signal_error,
  group_killed, send_pgroup_kill, signalled_ok, send_matched, send_signal, Round, wait_rounds,
  wait_for_exit,
}

pub record StopOpts : Type 0 where
  pub name : String
  pub all : Bool
  pub force : Bool
  pub timeout : ℤ
  pub kill_after : Bool
  pub ignore_not_found : Bool

-- A single argument is the name.
abbrev pub with_name : List String → StopOpts → StopOpts
with_name (n ∷ []) o = record o { name = n }
with_name _ o = o

abbrev pub refused : StopOpts → Option Error
refused o =
    if is_empty o.name && not o.all
    then some (sentinel err_no_terminal_identifier)
    else if not (is_empty o.name) && o.all
    then some (
        wrap (sentinel err_invalid_flag)
          (message "--all cannot be combined with a positional terminal name"))
    else if not (positive o.timeout)
    then some (wrap (sentinel err_invalid_flag) (message "--timeout must be greater than zero"))
    else none

-- `resolveStopOpts` on the flags, which have no name.
unfoldable pub resolve_stop_opts : StopOpts → List String → StopOpts × Option Error
resolve_stop_opts flags args = let o = with_name args flags in (o, refused o)

-- The fields of `TerminalDoc` that the command reads.
pub record Target : Type 0 where
  pub exited : Bool
  pub pid : ℤ
  pub pid_start : ℕ
  pub child_pgid : ℤ
  pub socket_file : String

pub data StopResult : Type 0 where
  stopped already_exited failed : StopResult

-- The answers that one call of `stopOneTerminal` gets, in the order of its stages.
pub record Answers : Type 0 where
  pub at_start : Probe
  pub rpc : Option Error
  pub term_probe : Probe
  pub term_answer : Option Errno
  pub waits : List Round
  pub group_answer : Option Errno
  pub kill_probe : Probe
  pub kill_answer : Option Errno
  pub kill_waits : List Round

-- The result and the effects; `none` is a wait that still goes on.
abbrev pub Stopped : Type 0
Stopped = Option (StopResult × List Effect)

-- A stage that signals: it fails, or `next` goes on with the effects so far.
unfoldable pub stage : List Effect → Option Error × List Effect → (List Effect → Stopped) → Stopped
stage fx (some e, fx') next = some (failed, fx ++ fx')
stage fx (none, fx') next = next (fx ++ fx')

-- A wait: `left` when the process went, `late` when it did not.
unfoldable pub waited : Option Bool → Stopped → Stopped → Stopped
waited none left late = none
waited (some true) left late = left
waited (some false) left late = late

-- The SIGKILL stage of --force and of --kill-after: the child's group first, then the pid, then the
-- wait.
unfoldable pub kill_wait : Target → Answers → List Effect → Stopped
unfolding waited
kill_wait t a fx =
    waited (wait_for_exit t.pid t.pid_start a.kill_waits) (some (stopped, fx)) (some (failed, fx))

unfoldable pub kill_pid : Target → Answers → List Effect → Stopped
unfolding stage
kill_pid t a fx =
    stage fx (send_signal t.pid t.pid_start sigkill a.kill_probe a.kill_answer) (kill_wait t a)

unfoldable pub kill_stage : Target → Answers → List Effect → Stopped
unfolding stage
kill_stage t a fx = stage fx (send_pgroup_kill t.child_pgid a.group_answer) (kill_pid t a)

-- `stopViaRPC`, and SIGTERM when it fails; without a socket there is no call.
unfoldable pub asked : Target → Answers → Option Error × List Effect
asked t a =
    let term = send_signal t.pid t.pid_start sigterm a.term_probe a.term_answer in
    if is_empty t.socket_file then term else elim a.rpc [
      | none ↦ (none, rpc_stop t.socket_file ∷ [])
      | some e ↦ (term.0, rpc_stop t.socket_file ∷ term.1)
    ]

unfoldable pub escalate : Target → StopOpts → Answers → List Effect → Stopped
escalate t o a fx = if o.kill_after then kill_stage t a fx else some (failed, fx)

unfoldable pub grace_wait : Target → StopOpts → Answers → List Effect → Stopped
unfolding waited
grace_wait t o a fx =
    waited (wait_for_exit t.pid t.pid_start a.waits) (some (stopped, fx)) (escalate t o a fx)

unfoldable pub graceful : Target → StopOpts → Answers → Stopped
unfolding stage
graceful t o a = stage [] (asked t a) (grace_wait t o a)

-- `stopOneTerminal`.
unfoldable pub stop_one_terminal : Target → StopOpts → Answers → Stopped
unfolding kill_stage graceful
stop_one_terminal t o a =
    if t.exited || not (process_is_ours t.pid t.pid_start a.at_start)
    then some (already_exited, [])
    else if o.force
    then kill_stage t a []
    else graceful t o a

abbrev pub count : StopResult → List StopResult → ℕ
count r [] = 0
count stopped (stopped ∷ rs) = suc (count stopped rs)
count already_exited (already_exited ∷ rs) = suc (count already_exited rs)
count failed (failed ∷ rs) = suc (count failed rs)
count r (_ ∷ rs) = count r rs

abbrev pub joined :
    Stopped → Option (List StopResult × List Effect) → Option (List StopResult × List Effect)
joined none rest = none
joined (some r) none = none
joined (some (r, fx)) (some (rs, fxs)) = some (r ∷ rs, fx ++ fxs)

-- The outcomes of the targets in order; a wait that goes on holds up the rest.
unfoldable pub stop_all :
    StopOpts → List (Target × Answers) → Option (List StopResult × List Effect)
stop_all o [] = some ([], [])
stop_all o ((t, a) ∷ ts) = joined (stop_one_terminal t o a) (stop_all o ts)

-- The summary that is printed, when it is, and the error.
pub record Report : Type 0 where
  pub summary : Option (ℕ × ℕ × ℕ)
  pub error : Option Error

unfoldable pub report : StopOpts → List StopResult → Report
report o rs = record {
  summary =
      if o.all || ltb 1 (length rs)
      then some (count stopped rs, count already_exited rs, count failed rs)
      else none;
  error =
      if ltb 0 (count failed rs)
      then some (wrap (sentinel err_stop_terminal) (message "terminal(s) failed to stop"))
      else none;
}

abbrev pub reported :
    StopOpts → Option (List StopResult × List Effect) → Option (Report × List Effect)
reported o none = none
reported o (some (rs, fx)) = some (report o rs, fx)

-- `runStopTerminals` behind `resolveTargets`, which gives an error or the targets.
unfoldable pub run_stop_terminals :
    StopOpts → Error ⊎ List (Target × Answers) → Option (Report × List Effect)
unfolding stop_all report
run_stop_terminals o (inl e) =
    if is e err_terminal_not_found && o.ignore_not_found
    then some (record { summary = none; error = none }, [])
    else some (record { summary = none; error = some e }, [])
run_stop_terminals o (inr []) = some (record { summary = none; error = none }, [])
run_stop_terminals o (inr (t ∷ ts)) = reported o (stop_all o (t ∷ ts))
