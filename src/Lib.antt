-- ===== src/Lib.antt =====
-- sbsh: terminals that run detached from their clients. This library models the parts of the program
-- that carry its own logic, and proves what makes each of them correct.
--
-- A terminal process (internal/terminal) runs a shell under a controller; its output goes through a
-- fan-out to a capture, which rotates, and to subscribers. A client process (internal/client) attaches
-- to a terminal over a socket and copies the user's keys to it through an escape filter. `sb` commands
-- find the processes by their metadata, mark those that are gone, and stop them.
--
-- Which file models which part:
--   Errdefs       internal/errdefs/errdefs.go: the sentinels; an error is a tree of wrapped errors.
--   Outcome       Go channels of capacity one: an operation is done, blocked, or panics.
--   Terminal      internal/terminal/controller.go: the Controller record and Close; Terminal/Run is Run
--                 and handleEvent, Terminal/Calls the RPC handlers, Terminal/Closing the statements of
--                 Close, which other goroutines interleave with.
--   Client        internal/client/controller.go: the client's Controller, Close, Detach and the ways to
--                 a terminal; Client/Run is Run and handleEvent.
--   Subscriber    internal/terminal/terminalrunner/subscriber.go: the bounded ring; Subscriber/Steps is
--                 its producer, its drain Run and its closers as steps.
--   MultiWriter   internal/terminal/terminalrunner/terminal_multiwriter.go: Write, Add, Remove.
--   Filter        internal/filter/escape.go: ClientEscapeFilter.Process.
--   Copier        internal/dualcopier/copier.go: readWriteBytes and runReadWriter.
--   Capture       internal/capture/capture.go: the files of a terminal's output and their readers;
--                 Capture/Compressing is CompressSegment, Capture/Live, Capture/Pruning and
--                 Capture/Writer are internal/terminal/terminalrunner/capture_writer.go.
--   Runner        internal/terminal/terminalrunner/lifecycle.go and terminal.go: the start of the child,
--                 the goroutines that watch it, and Close, as interleaved steps.
--                 Runner/Subscribe is subscribe.go: a Subscribe that races with Close. Runner/Shell is
--                 what lifecycle.go types into the shell.
--   Metadata      internal/shared/helpers.go: the writing of metadata.json; Metadata/Owned is
--                 internal/terminal/terminalrunner/metadata.go.
--   Reaper        internal/terminal/terminalrunner/reaper_linux.go: the reaper of a terminal as PID 1.
--   StdinPump     internal/client/clientrunner/stdin_pump.go: the reader of standard input that attach
--                 sessions share.
--   Validate      internal/profile/validate.go: the validation of profile documents.
--   Profile       pkg/api: profile documents and a terminal's specification. Profile/Load is
--                 pkg/discovery/profiles.go; Profile/Mode, Profile/Create, Profile/Params and
--                 Profile/Build are internal/profile/profile.go; Profile/Options and Profile/Builder are
--                 pkg/builder/terminal.go.
--   Sanitize      internal/discovery/sanitize.go: the escaping of control runes in a listing.
--   Caret         cmd/sb/write/caret.go: parseCaret.
--   Process       internal/pidutil/pidutil.go and the liveness tests of discovery and of `sb stop`.
--   Reconcile     internal/discovery/reconcile.go: ReconcileTerminals and ReconcileClients.
--   Scan          pkg/discovery: the scan of the metadata files and the lookups (scan.go, terminals.go,
--                 clients.go).
--   Prune         internal/discovery: the prune commands (terminals.go, clients.go, scan.go, orphans.go)
--                 and the checks that a name or an ID is free (terminals.go).
--   Stop          cmd/sb/stop/terminals.go: stopOneTerminal, runStopTerminals; Signals: what it sends and
--                 how it waits.
--   Base          shared names, Boolean tests, lists over the native numbers.
--
-- How state corresponds: a struct is a record of the fields that the code reads or writes, and a method
-- a function from the record to a new one with the method's result. A runner is a record of the
-- operations that a controller calls, a parameter of every theorem. A channel is its contents, and one
-- that is only ever closed is a Bool. A byte is a natural number. What the kernel, a connection or the
-- clock answers is an argument, so that a theorem holds for all answers. The select loops take the list
-- of branches that the scheduler chooses.
--
-- Bounds and fuel: the loops of readWriteBytes and of parseCaret take the length of their input as fuel,
-- one round for each byte at most. The poll of `sb stop` is the list of its rounds.
--
-- Not modelled: logging and printing; the client's runner; the terminal's PTY and sockets, and the attach
-- of interactive clients to it; the asciicast format; the scan of orphans; the tables of listings; the
-- processes that the embedding API starts; the command line; the encoding of RPC messages. Times are not
-- measured: the code's deadlines appear as whether they have passed.
pub mod Base
pub mod Capture
pub mod Caret
pub mod Client
pub mod Copier
pub mod Errdefs
pub mod Filter
pub mod Metadata
pub mod MultiWriter
pub mod Outcome
pub mod Process
pub mod Profile
pub mod Prune
pub mod Reaper
pub mod Reconcile
pub mod Runner
pub mod Sanitize
pub mod Scan
pub mod Signals
pub mod StdinPump
pub mod Stop
pub mod Subscriber
pub mod Terminal
pub mod Validate
