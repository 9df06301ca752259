-- ===== src/Terminal/Tests.antt =====
-- The terminal controller's theorems at inputs: a runner that counts its calls, and whose shell
-- cannot be set up.
use sbsh.Base.{ℕ, suc, ◌≡◌, refl, true, false, Option, none, some, [], ◌∷◌, arith, is_empty}
use sbsh.Errdefs.{Error, message, tag, err_close_req}
use sbsh.Outcome.{done}
use sbsh.Terminal.{TerminalSpec, TerminalRunner, Controller, new_terminal_controller}
use sbsh.Terminal.Run.{Event, ev_cmd_exited, ctx_done, event, run_start, loop}
use sbsh.Terminal.Run.Startup.{IsFresh, first_failure, stages, ending, run_start-stages}
use sbsh.Terminal.Run.Ending.{IsSound}
use sbsh.Terminal.Run.Loop.{by_ctx, loop-exit_reason}
use sbsh.Terminal.Closing.{Machine, cancels, call_close, advance, compare_and_swap, act}
use sbsh.Terminal.Closing.Progress.{Reach, start, next, left, Reach-winner_advances}

abbrev shell_error : Error
shell_error = message "no shell"

abbrev works : ℕ → ℕ × Option Error
works n = (suc n, none)

abbrev runner : TerminalRunner
runner = record {
  State = ℕ;
  new = λ _. 0;
  create_metadata = works;
  open_socket_ctrl = works;
  start_server = works;
  start_terminal = works;
  setup_shell = λ n. (suc n, some shell_error);
  on_init_shell = works;
  close = λ _ n. (suc n, none);
  attach = works;
  post_attach_shell = works;
  detach = works;
  subscribe = works;
  write_pty = λ _ n. (suc n, none);
}

abbrev spec : TerminalSpec
spec = record { command = "bash" }

abbrev serving : Controller ℕ
serving = record {
  sr = some 0;
  ctx_err = none;
  ctrl_ready_ch = false;
  close_req_ch = none;
  closing_ch = none;
  closed_ch = false;
  shutting_down = false;
}

serving-IsFresh : IsFresh serving
serving-IsFresh = record {
  running = refl;
  unclosing = refl;
  unrequested = refl;
  unclosed = refl;
  unready = refl;
}

serving-IsSound : IsSound serving
serving-IsSound = record { unused = λ _. (refl, refl, refl); over = λ p. cc }

spec_has_command : is_empty spec.command ≡ false
unfolding is_empty
spec_has_command = refl

run_start-stages_example :
    run_start runner spec serving
    ≡ done (ending runner serving (first_failure runner (stages runner) 0))
run_start-stages_example = run_start-stages runner spec serving serving-IsFresh spec_has_command

abbrev exit : Event
exit = record { type = ev_cmd_exited; err = some shell_error }

loop-exit_reason_example :
    (c' : Controller ℕ) × (loop runner (event exit ∷ event exit ∷ ctx_done ∷ []) serving
      ≡ done (c', some (tag err_close_req (some shell_error))))
    × (c'.shutting_down ≡ true)
    × (c'.sr ≡ some 1)
loop-exit_reason_example =
    loop-exit_reason runner exit (exit ∷ []) by_ctx [] serving (λ p. cc) serving-IsSound refl

-- A controller whose Close has passed the CompareAndSwap.
abbrev closing : Machine ℕ
closing = record {
  controller = record {
    sr = some 0;
    ctx_err = none;
    ctrl_ready_ch = false;
    close_req_ch = none;
    closing_ch = none;
    closed_ch = false;
    shutting_down = true;
  };
  pc = cancels none;
}

closing-Reach : Reach runner closing
unfolding act compare_and_swap new_terminal_controller
closing-Reach = next (call_close none) (start (some 0)) refl

Reach-winner_advances_example :
    (m' : Machine ℕ) × (act runner advance closing ≡ done m') × (suc (left m'.pc) ≡ 5)
Reach-winner_advances_example = Reach-winner_advances runner closing closing-Reach (omega arith)

second_call : act runner (call_close (some shell_error)) closing ≡ done closing
unfolding act compare_and_swap
second_call = refl
