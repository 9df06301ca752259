-- ===== src/Runner/Subscribe.antt =====
-- internal/terminal/terminalrunner/subscribe.go: a Subscribe that races with Close
-- (lifecycle.go). The statements of the call, of Close around `closeAllSubscribers`, and of the drain's
-- way out are steps that interleave in every way; what a mutex guards is one step. Other subscribers
-- share nothing with this one but the registry, of which only its own entry is kept.
pub mod Invariant
pub mod Steps
pub mod Released
mod Tests
use mathlib.Core.Bool.{decide}
use sbsh.Base.{◌≡◌, Bool, true, false, ◌&&◌, ◌||◌, Option, none, some, if◌then◌else◌}

-- `Subscribe`: with the socket pair, past the early check, registered, in the fan-out, with the drain
-- started, and returned.
pub data CallPc : Type 0 where
  entered admitted listed fanned running accepted rejected : CallPc

-- `Run` of the subscriber: not started, draining, and then out of the fan-out, out of the registry,
-- and with the connection closed.
pub data DrainPc : Type 0 where
  unborn draining removed unlisted ended : DrainPc

-- `Close`: before `ctxCancel`, after it, with the registry copied, and with each of the copy closed.
pub data ClosePc : Type 0 where
  calm cancelling copied finished : ClosePc

unfoldable pub CallPc-discrete : Discrete CallPc
CallPc-discrete = hlevel

unfoldable pub DrainPc-discrete : Discrete DrainPc
DrainPc-discrete = hlevel

unfoldable pub ClosePc-discrete : Discrete ClosePc
ClosePc-discrete = hlevel

-- `closed` is the subscriber's field; `in_copy` whether Close has copied the subscriber.
pub record Race : Type 0 where
  pub ctx_done : Bool
  pub registered : Bool
  pub in_fan_out : Bool
  pub in_copy : Bool
  pub closed : Bool
  pub conn_closed : Bool
  pub call : CallPc
  pub drain : DrainPc
  pub close : ClosePc

abbrev pub new_race : Race
new_race = record {
  ctx_done = false;
  registered = false;
  in_fan_out = false;
  in_copy = false;
  closed = false;
  conn_closed = false;
  call = entered;
  drain = unborn;
  close = calm;
}

-- `overflow` is a write to the ring that is full, `peer_gone` a failed write of the drain; both close
-- the subscriber.
pub data Act : Type 0 where
  not_running early_check add_subscriber add_to_fan_out go_run late_check : Act
  overflow peer_gone see_closed remove_subscriber close_conn : Act
  parent_cancels ctx_cancel copy_registry close_copied : Act

abbrev pub calls : CallPc → Race → Bool
calls pc s = decide (CallPc-discrete s.call pc)

abbrev pub drains : DrainPc → Race → Bool
drains pc s = decide (DrainPc-discrete s.drain pc)

abbrev pub closes : ClosePc → Race → Bool
closes pc s = decide (ClosePc-discrete s.close pc)

abbrev pub when : Bool → Race → Option Race
when b s = if b then some s else none

-- A call that is refused closes its connection.
abbrev pub refuse : Race → Race
refuse s = record s { call = rejected; conn_closed = true }

abbrev pub check_early : Race → Race
check_early s = if s.ctx_done then refuse s else record s { call = admitted }

-- A call that sees the shutdown late closes the subscriber, whose drain does the rest.
abbrev pub check_late : Race → Race
check_late s =
    if s.ctx_done then record s { call = rejected; closed = true } else record s { call = accepted }

-- The drain ends: `detach` takes the subscriber out of the fan-out first.
abbrev pub leave_fan_out : Race → Race
leave_fan_out s = record s { drain = removed; in_fan_out = false }

unfoldable pub act : Act → Race → Option Race
act not_running s = when (calls entered s) (refuse s)
act early_check s = when (calls entered s) (check_early s)
act add_subscriber s = when (calls admitted s) (record s { call = listed; registered = true })
act add_to_fan_out s = when (calls listed s) (record s { call = fanned; in_fan_out = true })
act go_run s = when (calls fanned s) (record s { call = running; drain = draining })
act late_check s = when (calls running s) (check_late s)
act overflow s = when s.in_fan_out (record s { closed = true })
act peer_gone s = when (drains draining s) (record s { closed = true })
act see_closed s = when (drains draining s && s.closed) (leave_fan_out s)
act remove_subscriber s =
    when (drains removed s) (record s { drain = unlisted; registered = false })
act close_conn s = when (drains unlisted s) (record s { drain = ended; conn_closed = true })
act parent_cancels s = some (record s { ctx_done = true })
act ctx_cancel s = when (closes calm s) (record s { close = cancelling; ctx_done = true })
act copy_registry s =
    when (closes cancelling s) (record s { close = copied; in_copy = s.registered })
act close_copied s =
    when (closes copied s) (record s { close = finished; closed = s.closed || s.in_copy })

pub data Reach : Race → Type 0 where
  begin : Reach new_race
  step : {s t : Race} → Reach s → (a : Act) → act a s ≡ some t → Reach t
