-- ===== src/Stop/Tests.antt =====
-- `sb stop --kill-after` on a terminal that ignores the Stop call and goes on SIGKILL.
use sbsh.Base.{
  ℕ, suc, ◌+◌, ◌≡◌, ◌↔◌, refl, true, false, Option, none, some, List, [], ◌∷◌, inl, inr,
}
use sbsh.Errdefs.{message}
use sbsh.Process.{pos, Probe, esrch, match_instance, process_is_ours, process_alive}
use sbsh.Signals.{
  Effect, kill_group, signal, rpc_stop, sigkill, sigterm, send_signal, send_pgroup_kill,
  send_matched, wait_for_exit, wait_rounds,
}
use sbsh.Stop.{
  StopOpts, Target, Answers, StopResult, stopped, stop_one_terminal, stop_all, kill_stage, graceful,
  asked, grace_wait, escalate, stage, waited, kill_pid, kill_wait,
}
use sbsh.Stop.Careful.{Does, Allowed, stop_one_terminal-Allowed}
use sbsh.Stop.Gone.{stop_one_terminal-Returns}

abbrev alive : Probe
alive = record { found = none; signalled = none; start = 5; start_err = none }

abbrev recycled : Probe
recycled = record { found = none; signalled = none; start = 9; start_err = none }

abbrev target : Target
target = record {
  exited = false;
  pid = pos 41;
  pid_start = 5;
  child_pgid = pos 43;
  socket_file = "s";
}

abbrev opts : StopOpts
opts = record {
  name = "t";
  all = false;
  force = false;
  timeout = pos 10;
  kill_after = true;
  ignore_not_found = false;
}

abbrev answers : Answers
answers = record {
  at_start = alive;
  rpc = some (message "refused");
  term_probe = alive;
  term_answer = none;
  waits =
      record { probe = alive; late = false; ended = none }
      ∷ record { probe = alive; late = true; ended = none }
      ∷ [];
  group_answer = some esrch;
  kill_probe = alive;
  kill_answer = none;
  kill_waits = record { probe = recycled; late = true; ended = none } ∷ [];
}

stop_one_terminal_run :
    stop_one_terminal target opts answers
    ≡ some (
      stopped,
      rpc_stop "s" ∷ signal (pos 41) sigterm ∷ kill_group (pos 43) ∷ signal (pos 41) sigkill ∷ [],
    )
unfolding stop_one_terminal graceful asked grace_wait escalate kill_stage kill_pid kill_wait stage
    waited send_signal send_matched send_pgroup_kill wait_for_exit wait_rounds process_is_ours
    process_alive match_instance sbsh.Base.is_empty
stop_one_terminal_run = refl

stop_one_terminal-Allowed_example :
    Does (Allowed target opts answers) (stop_one_terminal target opts answers)
stop_one_terminal-Allowed_example = stop_one_terminal-Allowed target opts answers

stop_one_terminal-Returns_example :
    (x : StopResult × List Effect) × (stop_one_terminal target opts answers ≡ some x)
stop_one_terminal-Returns_example = stop_one_terminal-Returns target opts answers refl refl

abbrev effects : List Effect
effects =
    rpc_stop "s" ∷ signal (pos 41) sigterm ∷ kill_group (pos 43) ∷ signal (pos 41) sigkill ∷ []

stop_all_run : stop_all opts ((target, answers) ∷ []) ≡ some (stopped ∷ [], effects)
unfolding stop_all
stop_all_run = rw stop_one_terminal_run refl
