-- ===== src/Runner.antt =====
-- internal/terminal/terminalrunner: how a terminal's child starts and ends. The goroutines are
-- `StartTerminal` with `startPty` (lifecycle.go, terminal.go), `watchChildExit`, `waitOnTerminal`, and
-- `Close` with `shutdownChild` (lifecycle.go); each action of one of them, of the child and of the
-- parent context is a step, so that they interleave in every way. What a mutex guards is one step. A
-- timer may fire at any time.
pub mod Invariant
pub mod Swept
pub mod Published
pub mod Shell
pub mod Subscribe
mod Tests
use mathlib.Core.Bool.{decide}
use sbsh.Base.{
  ℕ, suc, ◌≡◌, Bool, true, false, not, ◌&&◌, ◌||◌, Option, none, some, List, [], ◌∷◌, ◌++◌,
  if◌then◌else◌,
}
use sbsh.Signals.{Sig, sigterm, sigkill}

-- The child: not forked, running, or exited.
pub data Child : Type 0 where
  absent alive gone : Child

-- `StartTerminal`: before the fork, between the fork and the start of `watchChildExit`, after it,
-- and returned, with an error or without one.
pub data StartPc : Type 0 where
  opening forked watched ended : StartPc

-- `watchChildExit`: not started, waiting for the child, sending on `closeReqCh`, and returned.
pub data WatchPc : Type 0 where
  unstarted waiting sending finished : WatchPc

-- `waitOnTerminal`: not started, waiting for the close request, with it, and returned.
pub data RelayPc : Type 0 where
  unborn receiving publishing returned : RelayPc

-- `Close`: not called, with `closing` set, with the child found, after SIGTERM, after SIGKILL, after
-- `shutdownChild`, and after `ctxCancel`.
pub data ClosePc : Type 0 where
  idle latched checking asked killed past cancelled : ClosePc

-- `parent_ends` is whether the parent context can be cancelled. `signals` are the calls of `kill` for
-- the child's group, in order, each with whether the kernel took it; `events` and `dropped` count the
-- EvCmdExited that `trySendEvent` has sent and has dropped.
pub record Exec : Type 0 where
  pub init_mode : Bool
  pub parent_ends : Bool
  pub closing : Bool
  pub child : Child
  pub child_done : Bool
  pub ctx_done : Bool
  pub signals : List (Sig × Bool)
  pub events : ℕ
  pub dropped : ℕ
  pub start : StartPc
  pub watch : WatchPc
  pub relay : RelayPc
  pub close : ClosePc

abbrev pub new_exec : Bool → Bool → Exec
new_exec init_mode parent_ends = record {
  init_mode = init_mode;
  parent_ends = parent_ends;
  closing = false;
  child = absent;
  child_done = false;
  ctx_done = false;
  signals = [];
  events = 0;
  dropped = 0;
  start = opening;
  watch = unstarted;
  relay = unborn;
  close = idle;
}

-- `fork b` is `startPty` up to `cmd.Start`, which succeeds if `b`. `ask b` and `grace_ends b` call
-- `kill`, which succeeds if `b`; a failure is logged. `publish b` is `trySendEvent`, when the channel
-- has room if `b`.
pub data Act : Type 0 where
  pty_fails : Act
  fork : Bool → Act
  setup_fails start_watch start_fails start_succeeds : Act
  child_exits wait_returns wait_escapes hand_over send_escapes receive_escapes : Act
  publish : Bool → Act
  parent_cancels : Act
  latch snapshot see_exit kill_wait_ends cancel : Act
  ask grace_ends : Bool → Act

unfoldable pub Child-discrete : Discrete Child
Child-discrete = hlevel

unfoldable pub StartPc-discrete : Discrete StartPc
StartPc-discrete = hlevel

unfoldable pub WatchPc-discrete : Discrete WatchPc
WatchPc-discrete = hlevel

unfoldable pub RelayPc-discrete : Discrete RelayPc
RelayPc-discrete = hlevel

unfoldable pub ClosePc-discrete : Discrete ClosePc
ClosePc-discrete = hlevel

-- Where a goroutine and the child stand.
abbrev pub starts : StartPc → Exec → Bool
starts pc s = decide (StartPc-discrete s.start pc)

abbrev pub watches : WatchPc → Exec → Bool
watches pc s = decide (WatchPc-discrete s.watch pc)

abbrev pub relays : RelayPc → Exec → Bool
relays pc s = decide (RelayPc-discrete s.relay pc)

abbrev pub closes : ClosePc → Exec → Bool
closes pc s = decide (ClosePc-discrete s.close pc)

abbrev pub child_is : Child → Exec → Bool
child_is c s = decide (Child-discrete s.child c)

-- An action that is possible when `b`.
abbrev pub when : Bool → Exec → Option Exec
when b s = if b then some s else none

-- The critical section of `startPty`.
abbrev pub fork_child : Bool → Exec → Exec
fork_child ok s =
    if s.closing
    then record s { start = ended }
    else if ok
    then record s { start = forked; child = alive }
    else record s { start = ended }

-- `shutdownChild`'s look at the command, and then at `childDoneCh`.
abbrev pub take_snapshot : Exec → Exec
take_snapshot s =
    if child_is absent s then record s { close = past } else record s { close = checking }

abbrev pub ask_child : Bool → Exec → Exec
ask_child ok s =
    if s.child_done
    then record s { close = past }
    else record s { close = asked; signals = s.signals ++ (sigterm, ok) ∷ [] }

-- The event is dropped when the channel is full.
abbrev pub try_send_event : Bool → Exec → Exec
try_send_event room s =
    if room
    then record s { relay = returned; events = suc s.events }
    else record s { relay = returned; dropped = suc s.dropped }

unfoldable pub act : Act → Exec → Option Exec
act pty_fails s = when (starts opening s) (record s { start = ended })
act (fork ok) s = when (starts opening s) (fork_child ok s)
act setup_fails s = when (starts forked s) (record s { start = ended })
act start_watch s = when (starts forked s) (record s { start = watched; watch = waiting })
act start_fails s = when (starts watched s) (record s { start = ended })
act start_succeeds s = when (starts watched s) (record s { start = ended; relay = receiving })
act child_exits s = when (child_is alive s) (record s { child = gone })
act wait_returns s =
    when (watches waiting s && child_is gone s) (record s { watch = sending; child_done = true })
act wait_escapes s =
    when (watches waiting s && (s.init_mode && s.ctx_done))
      (record s { watch = sending; child_done = true })
act hand_over s =
    when (watches sending s && relays receiving s)
      (record s { watch = finished; relay = publishing })
act (publish room) s = when (relays publishing s) (try_send_event room s)
act send_escapes s = when (watches sending s && s.ctx_done) (record s { watch = finished })
act receive_escapes s = when (relays receiving s && s.ctx_done) (record s { relay = returned })
act parent_cancels s = when s.parent_ends (record s { ctx_done = true })
act latch s = when (closes idle s) (record s { close = latched; closing = true })
act snapshot s = when (closes latched s) (take_snapshot s)
act (ask ok) s = when (closes checking s) (ask_child ok s)
act see_exit s =
    when ((closes asked s || closes killed s) && s.child_done) (record s { close = past })
act (grace_ends ok) s =
    when (closes asked s) (record s { close = killed; signals = s.signals ++ (sigkill, ok) ∷ [] })
act kill_wait_ends s = when (closes killed s) (record s { close = past })
act cancel s = when (closes past s) (record s { close = cancelled; ctx_done = true })

-- The states that a runner reaches.
pub data Reach (s0 : Exec) : Exec → Type 0 where
  begin : Reach s0 s0
  step : {s s' : Exec} → Reach s0 s → (a : Act) → act a s ≡ some s' → Reach s0 s'
