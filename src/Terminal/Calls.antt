-- ===== src/Terminal/Calls.antt =====
-- internal/terminal/controller.go: the RPC handlers, each on the runner that `Run` has created.
use sbsh.Base.{true, false, Option, none, some, String, is_empty}
use sbsh.Errdefs.{Error, message, context}
use sbsh.Outcome.{Outcome}
use sbsh.Terminal.{TerminalRunner, Controller, close}
use text.Mathlib.Text.{◌==◌}

abbrev pub not_initialized : Error
not_initialized = message "terminal runner not initialized"

-- `Ping`: the reply, and the error for any other message.
unfoldable pub ping : String → String × Option Error
ping m = elim (m == "PING") [
  | true ↦ ("PONG", none)
  | false ↦ ("", some (context "unexpected ping message" (message m)))
]

module _ (R : TerminalRunner) where
  open R use {
    State, attach as attach_runner, post_attach_shell, detach as detach_runner,
    subscribe as subscribe_runner, write_pty,
  }

  abbrev pub Handled : Type 0
  Handled = Controller State × Option Error

  -- The new runner and the error of a call of it.
  abbrev pub with_sr : Controller State → State × Option Error → Handled
  with_sr c r = (record c { sr = some r.0 }, r.1)

  -- `PostAttachShell` is called only after an `Attach` that succeeded.
  abbrev pub post_attach : State × Option Error → State × Option Error
  post_attach (s, some e) = (s, some e)
  post_attach (s, none) = post_attach_shell s

  unfoldable pub attach : Controller State → Handled
  attach c = elim c.sr [
    | none ↦ (c, some not_initialized)
    | some s ↦ with_sr c (post_attach (attach_runner s))
  ]

  unfoldable pub detach : Controller State → Handled
  detach c = elim c.sr [ none ↦ (c, some not_initialized) | some s ↦ with_sr c (detach_runner s) ]

  unfoldable pub subscribe : Controller State → Handled
  subscribe c = elim c.sr [
    | none ↦ (c, some not_initialized)
    | some s ↦ with_sr c (subscribe_runner s)
  ]

  -- The request may be nil.
  abbrev pub write_request : Controller State → State → Option String → Handled
  write_request c s none = (c, none)
  write_request c s (some text) = elim (is_empty text) [
    | true ↦ (c, none)
    | false ↦ with_sr c (write_pty text s)
  ]

  unfoldable pub write : Option String → Controller State → Handled
  write req c = elim c.sr [ none ↦ (c, some not_initialized) | some s ↦ write_request c s req ]

  -- The reason that `Stop` closes with; the arguments may be nil.
  abbrev pub given_reason : Option String → String
  given_reason none = "stop requested"
  given_reason (some reason) = elim (is_empty reason) [ true ↦ "stop requested" | false ↦ reason ]

  -- `Stop` replies at once; this is the Close that it spawns.
  unfoldable pub stop : Option String → Controller State → Outcome Handled
  stop args c = close R (some (context "stop" (message (given_reason args)))) c
