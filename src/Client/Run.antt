-- ===== src/Client/Run.antt =====
-- internal/client/controller.go: `Run`, its startup and its select loop, and `handleEvent`.
pub mod Startup
pub mod Session
use sbsh.Base.{
  Bool, true, false, ◌||◌, ◌&&◌, not, Option, none, some, List, [], ◌∷◌, ◌⊎◌, inl, inr, is_empty,
  if◌then◌else◌,
}
use sbsh.Errdefs.{
  Error, Sentinel, sentinel, wrap, tag, is, err_on_close, err_write_metadata, err_open_socket_ctrl,
  err_start_rpc_server, err_start_terminal, err_start_cmd, err_attach, err_attach_no_terminal_spec,
  err_client_mode, err_no_terminal_spec, err_close_req, err_context_done, err_rpc_server_exited,
}
use sbsh.Outcome.{Outcome, done, blocked, receive, close_chan, ◌>>=◌}
use sbsh.Terminal.{with_close_error}
use sbsh.Client.{
  TerminalSpec, AttachedTerminal, ClientMode, run_new_terminal, attach_to_terminal, other_mode,
  ClientDoc, ClientRunner, Controller, Lookups, create_attach_terminal, create_run_new_terminal,
  close, detach, classify_session_end,
}

-- Which branch of the select on the server's start the scheduler takes.
pub data RpcStart : Type 0 where
  rpc_ready rpc_ctx_done : RpcStart

-- `clientrunner.EventType`; `other` is any value that `handleEvent` does not know.
pub data EventType : Type 0 where
  ev_cmd_exited ev_error ev_detach other : EventType

pub record Event : Type 0 where
  pub type : EventType
  pub err : Option Error

-- The branches of the select.
pub data Signal : Type 0 where
  ctx_done : Signal
  event : Event → Signal
  rpc_done : Option Error → Signal
  close_req : Signal

-- The error of a failed Close comes between the sentinel and the cause here.
abbrev pub after_close_error : Error → Option Error → Error
after_close_error e none = e
after_close_error e (some errC) = wrap (sentinel err_on_close) (wrap e errC)

-- A terminal that could not be created is ErrStartTerminal, if it is not a sentinel of its own.
abbrev pub start_error : Error → Error
start_error e =
    if not (is e err_no_terminal_spec) && not (is e err_start_cmd)
    then wrap (sentinel err_start_terminal) e
    else e

-- A spec that names a terminal in no way.
abbrev pub names_none : TerminalSpec → Bool
names_none s = is_empty s.id && is_empty s.name && is_empty s.socket_file

module _ (R : ClientRunner) where
  open R use {
    State, new, create_metadata, open_socket_ctrl, start_server, start_terminal_cmd, attach,
  }

  -- The startup returns an error, or `none` when the loop begins.
  abbrev pub Started : Type 0
  Started = Outcome (Controller State × Option Error)

  abbrev pub Next : Type 0
  Next = State → Controller State → Started

  -- A failure of the metadata: `ctrlReadyCh` stays open.
  unfoldable pub failed_metadata : Error → Controller State → Started
  failed_metadata e c = close R (some e) c >>= λ r.
      done (r.0, some (wrap (sentinel err_write_metadata) (with_close_error e r.1)))

  -- Any other failure: Close, `close(s.ctrlReadyCh)`, and the error that `f` makes.
  unfoldable pub failed : (Option Error → Error) → Error → Controller State → Started
  failed f e c = close R (some e) c >>= λ r.
      close_chan r.0.ctrl_ready_ch >>= λ b. done (record (r.0) { ctrl_ready_ch = b }, some (f r.1))

  -- A call of the runner: `f` makes the error of its failure.
  unfoldable pub checked :
      (Error → Option Error → Error) → Option Error → State → Controller State → Next → Started
  unfolding failed
  checked f none r c next = next r c
  checked f (some e) r c next = failed (f e) e c

  unfoldable pub checked_metadata : Option Error → State → Controller State → Next → Started
  unfolding failed_metadata
  checked_metadata none r c next = next r c
  checked_metadata (some e) r c next = failed_metadata e c

  abbrev pub ran : Controller State → State → Controller State
  ran c r = record c { sr = some r }

  unfoldable pub call :
      (State → State × Option Error)
      → (Error → Option Error → Error)
      → State
      → Controller State
      → Next
      → Started
  unfolding checked
  call op f r c next = checked f (op r).1 (op r).0 (ran c (op r).0) next

  abbrev pub in_sentinel : Sentinel → Error → Option Error → Error
  in_sentinel s e errC = wrap (sentinel s) (with_close_error e errC)

  -- The select on the server's start.
  unfoldable pub serve : RpcStart → State → Controller State → Next → Started
  unfolding call failed
  serve rpc_ready r c next = call start_server (in_sentinel err_start_rpc_server) r c next
  serve rpc_ctx_done r c next =
      let c' = ran c (start_server r).0 in
      elim c.ctx_err [
        | none ↦ blocked
        | some e ↦
            failed
              (λ errC.
                wrap (sentinel err_context_done) (elim errC [ none ↦ e | some x ↦ wrap e x ]))
              e c'
      ]

  -- `close(s.ctrlReadyCh)`; the loop begins.
  unfoldable pub ready : Next
  ready r c = close_chan c.ctrl_ready_ch >>= λ b. done (record c { ctrl_ready_ch = b }, none)

  unfoldable pub attach_to : AttachedTerminal → Next
  unfolding call ready
  attach_to t r c = call (attach t) (in_sentinel err_attach) r c ready

  unfoldable pub run_new : Error ⊎ AttachedTerminal → Next
  unfolding failed call attach_to
  run_new (inl e) r c = failed (λ errC. start_error (with_close_error e errC)) e c
  run_new (inr t) r c = call (start_terminal_cmd t) (in_sentinel err_start_cmd) r c (attach_to t)

  unfoldable pub attach_found : Error ⊎ AttachedTerminal → Next
  unfolding failed attach_to
  attach_found (inl e) r c = failed (in_sentinel err_attach e) e c
  attach_found (inr t) r c = attach_to t r c

  unfoldable pub no_attach_spec : Controller State → Started
  unfolding failed
  no_attach_spec c = let e = sentinel err_attach_no_terminal_spec in failed (with_close_error e) e c

  unfoldable pub attach_existing : Lookups → Option TerminalSpec → Next
  unfolding no_attach_spec attach_found
  attach_existing l none r c = no_attach_spec c
  attach_existing l (some s) r c =
      if names_none s then no_attach_spec c else attach_found (create_attach_terminal l s) r c

  -- The switch on the client's mode.
  unfoldable pub by_mode : Lookups → ClientMode → Option TerminalSpec → Next
  unfolding run_new attach_existing failed
  by_mode l run_new_terminal s r c = run_new (create_run_new_terminal l s) r c
  by_mode l attach_to_terminal s r c = attach_existing l s r c
  by_mode l other_mode s r c =
      failed (with_close_error (sentinel err_client_mode)) (sentinel err_client_mode) c

  unfoldable pub run_start : Lookups → RpcStart → ClientDoc → Controller State → Started
  unfolding checked_metadata call serve by_mode
  run_start l sel doc c =
      let m = create_metadata (new doc) in
      checked_metadata m.1 m.0 (ran c m.0) λ r c.
        call open_socket_ctrl
          (λ e errC. wrap (sentinel err_open_socket_ctrl) (after_close_error e errC)) r c
          λ r c. serve sel r c λ r c. by_mode l doc.client_mode doc.terminal_spec r c

  unfoldable pub handle_event : Event → Controller State → Outcome (Controller State)
  handle_event ev c = elim ev.type [
    | ev_cmd_exited ↦ close R ev.err c >>= λ r. done r.0
    | ev_error ↦ close R (some (classify_session_end R ev.err c)) c >>= λ r. done r.0
    | ev_detach ↦ detach R c >>= λ r. done r.0
    | other ↦ done c
  ]

  -- One round of the loop or the loop: `some` is a return, of an error that may be nil.
  abbrev pub Looped : Type 0
  Looped = Outcome (Controller State × Option (Option Error))

  -- A close request without a reason returns nil.
  abbrev pub requested : Option Error → Option Error
  requested none = none
  requested (some e) = some (wrap (sentinel err_close_req) e)

  unfoldable pub on_ctx_done : Error → Controller State → Looped
  on_ctx_done e c = elim c.close_req_ch [
    | some reason ↦ done (record c { close_req_ch = none }, some (requested reason))
    | none ↦ close R (some e) c >>= λ r. done (
      r.0,
      some (some (wrap (sentinel err_context_done) (elim r.1 [ none ↦ e | some x ↦ wrap e x ]))),
    )
  ]

  unfoldable pub on_rpc_done : Option Error → Controller State → Looped
  on_rpc_done none c =
      close R none c >>= λ r. done (r.0, some (some (tag err_rpc_server_exited r.1)))
  on_rpc_done (some e) c = close R (some e) c >>= λ r.
      done (r.0, some (some (wrap (sentinel err_rpc_server_exited) (with_close_error e r.1))))

  unfoldable pub round : Signal → Controller State → Looped
  unfolding handle_event on_ctx_done on_rpc_done
  round ctx_done c = elim c.ctx_err [ none ↦ blocked | some e ↦ on_ctx_done e c ]
  round (event ev) c = handle_event ev c >>= λ c'. done (c', none)
  round (rpc_done e) c = on_rpc_done e c
  round close_req c = receive c.close_req_ch >>= λ reason.
      done (record c { close_req_ch = none }, some (requested reason))

  -- The loop over the branches that the scheduler takes; `none` is a loop that still waits.
  unfoldable pub loop : List Signal → Controller State → Looped
  unfolding round
  loop [] c = done (c, none)
  loop (sig ∷ sigs) c =
      round sig c >>= λ r. elim r.1 [ none ↦ loop sigs r.0 | some e ↦ done (r.0, some e) ]
