-- ===== src/Terminal.antt =====
-- internal/terminal/controller.go: the controller of one terminal. Its runner is an interface, a
-- record of the operations that the controller calls; a channel is its contents.
pub mod Run
pub mod Calls
pub mod Closing
mod Tests
use sbsh.Base.{Bool, true, false, Option, none, some, String}
use sbsh.Errdefs.{Error, sentinel, message, wrap, err_on_close}
use sbsh.Outcome.{Outcome, done, Slot, send, close_chan, ◌>>=◌}

-- api.TerminalSpec, as far as the controller reads it.
pub record TerminalSpec : Type 0 where
  pub command : String

-- `terminalrunner.TerminalRunner`. `start_server` gives what the server sends on `rpcReadyCh`.
pub record TerminalRunner : Type 1 where
  pub State : Type 0
  pub new : TerminalSpec → State
  pub create_metadata : State → State × Option Error
  pub open_socket_ctrl : State → State × Option Error
  pub start_server : State → State × Option Error
  pub start_terminal : State → State × Option Error
  pub setup_shell : State → State × Option Error
  pub on_init_shell : State → State × Option Error
  pub close : Option Error → State → State × Option Error
  pub attach : State → State × Option Error
  pub post_attach_shell : State → State × Option Error
  pub detach : State → State × Option Error
  pub subscribe : State → State × Option Error
  pub write_pty : String → State → State × Option Error

-- The fields of `Controller`. `ctx_err` is `ctx.Err()`; a channel that is only ever closed is a Bool.
pub record Controller (S : Type 0) : Type 0 where
  pub sr : Option S
  pub ctx_err : Option Error
  pub ctrl_ready_ch : Bool
  pub close_req_ch : Slot
  pub closing_ch : Slot
  pub closed_ch : Bool
  pub shutting_down : Bool

unfoldable pub new_terminal_controller : {S : Type 0} → Controller S
new_terminal_controller = record {
  sr = none;
  ctx_err = none;
  ctrl_ready_ch = false;
  close_req_ch = none;
  closing_ch = none;
  closed_ch = false;
  shutting_down = false;
}

-- `ctx.Err()` of a context that this controller cancelled.
abbrev pub context_canceled : Error
context_canceled = message "context canceled"

-- `cancel(reason)`: a context that is done already keeps its error.
abbrev pub cancelled : Option Error → Option Error
cancelled none = some context_canceled
cancelled (some e) = some e

module _ (R : TerminalRunner) where
  open R use {State, close as close_runner}

  abbrev pub close_sr : Option Error → Option State → Option State
  close_sr reason none = none
  close_sr reason (some s) = some (close_runner reason s).0

  -- `Close` behind the CompareAndSwap, which only one caller ever passes.
  unfoldable pub shut_down : Option Error → Controller State → Outcome (Controller State)
  shut_down reason c = do
    closing ← send reason c.closing_ch
    request ← send reason c.close_req_ch
    closed ← close_chan c.closed_ch
    done (record {
      sr = close_sr reason c.sr;
      ctx_err = cancelled c.ctx_err;
      ctrl_ready_ch = c.ctrl_ready_ch;
      close_req_ch = request;
      closing_ch = closing;
      closed_ch = closed;
      shutting_down = true;
    })

  unfoldable pub close : Option Error → Controller State → Outcome (Controller State × Option Error)
  unfolding shut_down
  close reason c = elim c.shutting_down [
    | true ↦ done (c, none)
    | false ↦ shut_down reason c >>= λ c'. done (c', none)
  ]

-- `fmt.Errorf("%w: %w: %w", err, errdefs.ErrOnClose, errC)` when the Close failed too.
abbrev pub with_close_error : Error → Option Error → Error
with_close_error e none = e
with_close_error e (some errC) = wrap e (wrap (sentinel err_on_close) errC)
