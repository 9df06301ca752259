-- ===== src/Terminal/Closing.antt =====
-- internal/terminal/controller.go: `Close` as the steps that other goroutines interleave with.
-- Only one goroutine passes the CompareAndSwap, so one program counter stands for all callers.
pub mod Progress
use sbsh.Base.{Bool, true, false, Option, none, some}
use sbsh.Errdefs.{Error}
use sbsh.Outcome.{Outcome, done, blocked, Slot, send, receive, close_chan, ◌>>=◌}
use sbsh.Terminal.{TerminalRunner, Controller, cancelled, close_sr}

-- Where the goroutine that won the CompareAndSwap stands in `Close`, with its reason.
pub data Pc : Type 0 where
  idle : Pc
  cancels : Option Error → Pc
  sends_closing : Option Error → Pc
  closes_runner : Option Error → Pc
  sends_request : Option Error → Pc
  closes_closed : Option Error → Pc
  returned : Option Error → Pc

pub record Machine (S : Type 0) : Type 0 where
  pub controller : Controller S
  pub pc : Pc

-- What may happen next: a call of `Close`, the next statement of the winner, `WaitClose` taking the
-- reason, `Run` taking the request, the parent context being cancelled with an error.
pub data Action : Type 0 where
  call_close : Option Error → Action
  advance : Action
  wait_close : Action
  run_takes : Action
  parent_done : Error → Action

module _ (R : TerminalRunner) where
  open R use {State}

  -- The CompareAndSwap. A caller that loses it returns at once.
  unfoldable pub compare_and_swap : Option Error → Machine State → Machine State
  compare_and_swap reason m = elim m.controller.shutting_down [
    | true ↦ m
    | false ↦ record {
      controller = record (m.controller) { shutting_down = true };
      pc = cancels reason;
    }
  ]

  -- The statements behind it, one at a time.
  unfoldable pub statement : Pc → Controller State → Outcome (Machine State)
  statement idle c = blocked
  statement (cancels r) c =
      done
        (record { controller = record c { ctx_err = cancelled c.ctx_err }; pc = sends_closing r })
  statement (sends_closing r) c = send r c.closing_ch >>= λ q.
      done (record { controller = record c { closing_ch = q }; pc = closes_runner r })
  statement (closes_runner r) c =
      done (record { controller = record c { sr = close_sr R r c.sr }; pc = sends_request r })
  statement (sends_request r) c = send r c.close_req_ch >>= λ q.
      done (record { controller = record c { close_req_ch = q }; pc = closes_closed r })
  statement (closes_closed r) c = close_chan c.closed_ch >>= λ b.
      done (record { controller = record c { closed_ch = b }; pc = returned r })
  statement (returned r) c = blocked

  -- One action; `blocked` is one that is not possible now.
  unfoldable pub act : Action → Machine State → Outcome (Machine State)
  unfolding compare_and_swap statement
  act (call_close reason) m = done (compare_and_swap reason m)
  act advance m = statement m.pc m.controller
  act wait_close m = receive m.controller.closing_ch >>= λ _.
      done (record m { controller = record (m.controller) { closing_ch = none } })
  act run_takes m = receive m.controller.close_req_ch >>= λ _.
      done (record m { controller = record (m.controller) { close_req_ch = none } })
  act (parent_done e) m = done (record m {
    controller = record (m.controller) {
      ctx_err = elim m.controller.ctx_err [ none ↦ some e | some x ↦ some x ];
    };
  })
