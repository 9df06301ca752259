-- ===== src/Terminal/Run.antt =====
-- internal/terminal/controller.go: `Run`, its startup and its select loop, and `handleEvent`.
-- The startup runs alone. The loop is given the branches that the scheduler takes; a branch that is
-- not ready is `blocked`.
pub mod Startup
pub mod Ending
pub mod Loop
use sbsh.Base.{Bool, true, false, Option, none, some, List, [], ◌∷◌, String, is_empty}
use sbsh.Errdefs.{
  Error, Sentinel, sentinel, wrap, tag, err_spec_cmd_missing, err_write_metadata,
  err_open_socket_ctrl, err_start_rpc_server, err_start_terminal, err_setup_shell, err_init_shell,
  err_close_req, err_context_done, err_rpc_server_exited,
}
use sbsh.Outcome.{Outcome, done, blocked, panicked, receive, close_chan, ◌>>=◌}
use sbsh.Terminal.{TerminalSpec, TerminalRunner, Controller, close, with_close_error}

-- `terminalrunner.EventType`; `other` is any value that `handleEvent` does not know.
pub data EventType : Type 0 where
  ev_error ev_cmd_exited other : EventType

pub record Event : Type 0 where
  pub type : EventType
  pub err : Option Error

-- The branches of the select.
pub data Signal : Type 0 where
  ctx_done : Signal
  event : Event → Signal
  rpc_done : Option Error → Signal
  close_req : Signal

module _ (R : TerminalRunner) where
  open R use {
    State, new, create_metadata, open_socket_ctrl, start_server, start_terminal, setup_shell,
    on_init_shell,
  }

  -- A call of the runner by a goroutine that holds the runner `s`.
  abbrev pub Phase : Type 0
  Phase = State → State × Option Error

  abbrev pub Returned : Type 0
  Returned = Outcome (Controller State × Option Error)

  -- A phase has failed: close, and wrap the error in the phase's sentinel.
  unfoldable pub failed : Sentinel → Error → Controller State → Returned
  failed s e c = do
    closed ← close R (some e) c
    done (closed.0, some (wrap (sentinel s) (with_close_error e closed.1)))

  unfoldable pub checked :
      Sentinel
      → Option Error
      → State
      → Controller State
      → (State → Controller State → Returned)
      → Returned
  unfolding failed
  checked s none r c next = next r c
  checked s (some e) r c next = failed s e c

  unfoldable pub phase :
      Phase → Sentinel → State → Controller State → (State → Controller State → Returned) → Returned
  unfolding checked
  phase op s r c next = checked s (op r).1 (op r).0 (record c { sr = some (op r).0 }) next

  -- The RPC server's start: its failure returns without a Close.
  unfoldable pub served :
      Option Error → State → Controller State → (State → Controller State → Returned) → Returned
  served none r c next = next r c
  served (some e) r c next = done (c, some (wrap (sentinel err_start_rpc_server) e))

  unfoldable pub serve : State → Controller State → (State → Controller State → Returned) → Returned
  unfolding served
  serve r c next =
      served (start_server r).1 (start_server r).0 (record c { sr = some (start_server r).0 }) next

  -- `close(c.ctrlReadyCh)`; no error yet, the loop begins.
  unfoldable pub ready : State → Controller State → Returned
  ready r c = close_chan c.ctrl_ready_ch >>= λ b. done (record c { ctrl_ready_ch = b }, none)

  -- The phases of `Run` up to its loop, in order.
  unfoldable pub start : State → Controller State → Returned
  unfolding phase serve ready
  start r c = phase create_metadata err_write_metadata r c λ r c.
      phase open_socket_ctrl err_open_socket_ctrl r c λ r c. serve r c λ r c.
        phase start_terminal err_start_terminal r c λ r c.
          phase setup_shell err_setup_shell r c λ r c. phase on_init_shell err_init_shell r c ready

  unfoldable pub run_start : TerminalSpec → Controller State → Returned
  unfolding start
  run_start spec c =
      let c0 = record c { sr = some (new spec) } in
      elim (is_empty spec.command) [
        | true ↦ done (c0, some (sentinel err_spec_cmd_missing))
        | false ↦ start (new spec) c0
      ]

  unfoldable pub handle_event : Event → Controller State → Outcome (Controller State)
  handle_event ev c = elim ev.type [
    | ev_error ↦ close R ev.err c >>= λ r. done r.0
    | ev_cmd_exited ↦ close R ev.err c >>= λ r. done r.0
    | other ↦ done c
  ]

  -- `case <-c.ctx.Done()`, when the context's error is `e`: a queued close request is preferred.
  unfoldable pub on_ctx_done : Error → Controller State → Returned
  on_ctx_done e c = elim c.close_req_ch [
    | some reason ↦ done (record c { close_req_ch = none }, some (tag err_close_req reason))
    | none ↦ close R (some e) c >>= λ r.
        done
          (r.0, some (wrap (sentinel err_context_done) (elim r.1 [ none ↦ e | some x ↦ wrap e x ])))
  ]

  unfoldable pub on_rpc_done : Option Error → Controller State → Returned
  on_rpc_done none c = close R none c >>= λ r. done (r.0, some (tag err_rpc_server_exited r.1))
  on_rpc_done (some e) c = close R (some e) c >>= λ r.
      done (r.0, some (wrap (sentinel err_rpc_server_exited) (with_close_error e r.1)))

  -- One round of the loop; `none` goes on.
  unfoldable pub round : Signal → Controller State → Returned
  unfolding handle_event on_ctx_done on_rpc_done
  round ctx_done c = elim c.ctx_err [ none ↦ blocked | some e ↦ on_ctx_done e c ]
  round (event ev) c = handle_event ev c >>= λ c'. done (c', none)
  round (rpc_done e) c = on_rpc_done e c
  round close_req c = receive c.close_req_ch >>= λ reason.
      done (record c { close_req_ch = none }, some (tag err_close_req reason))

  -- The loop over the branches that the scheduler takes; `none` is a loop that still waits.
  unfoldable pub loop : List Signal → Controller State → Returned
  unfolding round
  loop [] c = done (c, none)
  loop (sig ∷ sigs) c =
      round sig c >>= λ r. elim r.1 [ none ↦ loop sigs r.0 | some e ↦ done (r.0, some e) ]
