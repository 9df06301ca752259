-- ===== src/Runner/Shell/Script.antt =====
-- The script that a terminal types into its shell when it starts.
use sbsh.Base.{ℕ, ◌⊎◌, Option, List, [], ◌∷◌, ◌++◌, String, if◌then◌else◌}
use sbsh.Errdefs.{Error}
use sbsh.Metadata.Owned.{TerminalDoc}
use sbsh.Profile.{ExecStep, TerminalSpec}
use sbsh.Reconcile.{on_init}
use sbsh.Runner.Shell.{◌then◌, Shell, command_line, resolved_prompt, prompt_line, set_prompt}

module _ (encode : TerminalDoc → Error ⊎ List ℕ) (decode : List ℕ → Option TerminalDoc)
    (bytes : String → List ℕ) (quote : String → String) where
  abbrev pub all_lines : List ExecStep → List ℕ
  all_lines [] = []
  all_lines (s ∷ ss) = command_line encode decode bytes quote s ++ all_lines ss

  abbrev prompt_script : TerminalSpec → List ℕ
  prompt_script s =
      if s.set_prompt
      then prompt_line encode decode bytes quote (resolved_prompt encode decode bytes quote s)
      else []

  -- What a start types: CTRL-U, the prompt when it is set, and the lines of the steps.
  abbrev pub start_script : TerminalSpec → List ℕ
  start_script s = (0x15 ∷ []) ++ (prompt_script s ++ all_lines s.stages.on_init)
