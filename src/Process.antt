-- ===== src/Process.antt =====
-- internal/pidutil/pidutil.go and the liveness tests of internal/discovery/reconcile.go and
-- cmd/sb/stop/terminals.go. What the kernel answers to a call is an argument.
pub mod Alive
mod Tests
use sbsh.Base.{
  ℕ, zero, suc, Bool, true, false, not, ◌&&◌, ◌||◌, Option, none, some, ◌==◌, if◌then◌else◌,
}

-- A Go int, over the native ℕ.
pub data ℤ : Type 0 where
  pos negsuc : ℕ → ℤ

-- `n > 0`.
abbrev pub positive : ℤ → Bool
positive (pos zero) = false
positive (pos (suc n)) = true
positive (negsuc n) = false

-- The errors that the callers tell apart: syscall.ESRCH, syscall.EPERM, os.ErrNotExist and
-- os.ErrProcessDone.
pub data Errno : Type 0 where
  esrch eperm err_not_exist err_process_done other : Errno

-- What the kernel answers about one pid: `os.FindProcess`, signal 0, and `readStartTime`.
pub record Probe : Type 0 where
  pub found : Option Errno
  pub signalled : Option Errno
  pub start : ℕ
  pub start_err : Option Errno

abbrev pub start_time : ℤ → Probe → ℕ × Option Errno
start_time pid p = if positive pid then (p.start, p.start_err) else (0, none)

abbrev pub compared : ℕ → ℕ × Option Errno → Bool × Option Errno
compared expected (got, some e) = (false, some e)
compared expected (got, none) = if got == 0 then (false, none) else (got == expected, none)

-- `pidutil.Match`.
unfoldable pub match_instance : ℤ → ℕ → Probe → Bool × Option Errno
match_instance pid expected p =
    if expected == 0 then (true, none) else compared expected (start_time pid p)

-- The answer to signal 0: ESRCH is a process that is gone, EPERM one of another user.
abbrev pub answers : Option Errno → Bool
answers none = true
answers (some eperm) = true
answers (some e) = false

abbrev pub found_and_answers : Probe → Bool
found_and_answers p = elim p.found [ some e ↦ false | none ↦ answers p.signalled ]

-- `isProcessAlive`: an unknown pid counts as alive.
unfoldable pub is_process_alive : ℤ → Probe → Bool
is_process_alive pid p = if positive pid then found_and_answers p else true

-- An error of `Match` in `isInstanceAlive`: only a vanished /proc entry is a process that is gone.
abbrev pub match_alive : Bool × Option Errno → Bool
match_alive (ok, none) = ok
match_alive (ok, some err_not_exist) = false
match_alive (ok, some e) = true

unfoldable pub is_instance_alive : ℤ → ℕ → Probe → Bool
unfolding is_process_alive match_instance
is_instance_alive pid start p =
    if not (is_process_alive pid p)
    then false
    else if start == 0
    then true
    else match_alive (match_instance pid start p)

-- `processAlive`: an unknown pid counts as gone.
unfoldable pub process_alive : ℤ → Probe → Bool
process_alive pid p = if positive pid then found_and_answers p else false

abbrev pub matched : Bool × Option Errno → Bool
matched (ok, some e) = false
matched (ok, none) = ok

unfoldable pub process_is_ours : ℤ → ℕ → Probe → Bool
unfolding process_alive match_instance
process_is_ours pid start p =
    if not (positive pid)
    then false
    else if not (start == 0) && not (matched (match_instance pid start p))
    then false
    else process_alive pid p

-- `isProcessGoneErr`.
abbrev pub is_process_gone_err : Errno → Bool
is_process_gone_err esrch = true
is_process_gone_err err_process_done = true
is_process_gone_err e = false
