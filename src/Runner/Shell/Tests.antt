-- ===== src/Runner/Shell/Tests.antt =====
-- A terminal with one step, on a PTY that takes every byte, and one whose last state is not written.
use sbsh.Base.{true, false, ℕ, ◌≡◌, refl, ◌⊎◌, inr, Option, none, some, List, [], ◌∷◌, String}
use sbsh.Errdefs.{Error, message}
use sbsh.Metadata.{Answers, Dir, atomic_write_file, write_metadata}
use sbsh.Metadata.Owned.{TerminalDoc, update_terminal_state}
use sbsh.Process.{pos}
use sbsh.Profile.{ExecStep, TerminalSpec}
use sbsh.Profile.Build.{inline_spec}
use sbsh.Profile.Builder.{params_from_config}
use sbsh.Profile.Options.{empty_config}
use sbsh.Reconcile.{TerminalStatusMode, ready, post_attach, starting}
use sbsh.Runner.Shell.{
  Pty, Shell, write, write_stage, setup_shell, on_init_shell, post_attach_shell, start_shell,
}
use Prim.Native.Char.{code}
use Prim.Native.String.{String}

abbrev bytes : String → List ℕ
bytes String.[] = []
bytes (String.◌∷◌ c s) = code c ∷ bytes s

abbrev quote : String → String
quote s = s

abbrev encode : TerminalDoc → Error ⊎ List ℕ
encode t = inr (1 ∷ [])

abbrev decode : List ℕ → Option TerminalDoc
decode b = none

abbrev succeeding : Answers
succeeding = record {
  create = none;
  chmod = none;
  write = none;
  short = 0;
  sync = none;
  close = none;
  rename = none;
  unlink = none;
}

abbrev failing : Answers
failing = record succeeding { rename = some (message "no space left on device") }

abbrev exec : ExecStep
exec = record { script = "ls"; env = [] }

abbrev spec : TerminalSpec
spec = record (inline_spec (params_from_config empty_config "/run")) {
  stages = record { on_init = exec ∷ []; post_attach = [] };
}

abbrev doc : TerminalStatusMode → TerminalDoc
doc m = record {
  spec = spec;
  status = record {
    pid = pos 7;
    pid_start = 5;
    state = m;
    base_run_path = "";
    terminal_run_path = "";
    log_file = "";
    log_level = "";
    capture_file = "";
    attachers = [];
  };
}

abbrev dir : Dir
dir = record { file = none; file_synced = true; tmp = none; tmp_synced = false }

abbrev pty : Pty
pty = record { answers = []; typed = [] }

abbrev shell : Shell
shell = ((doc starting, dir), pty)

typed :
    (start_shell encode decode bytes quote succeeding succeeding succeeding shell).0.1.typed
    ≡ 0x15 ∷ b'l' ∷ b's' ∷ 10 ∷ []
unfolding setup_shell on_init_shell write_stage write update_terminal_state write_metadata
    atomic_write_file
typed = refl

-- OnInitShell returns no error, and the terminal is not ready.
not_ready : (start_shell encode decode bytes quote succeeding succeeding failing shell).1 ≡ none
unfolding setup_shell on_init_shell write_stage write update_terminal_state write_metadata
    atomic_write_file
not_ready = refl

-- A terminal that was ready stays in the state of its stage.
stranded :
    (post_attach_shell encode decode bytes quote none succeeding failing
      ((doc ready, dir), pty)).0.0.0.status.state
    ≡ post_attach
unfolding post_attach_shell write_stage write update_terminal_state write_metadata atomic_write_file
stranded = refl
