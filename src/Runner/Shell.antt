-- ===== src/Runner/Shell.antt =====
-- internal/terminal/terminalrunner/lifecycle.go: what the runner types into the shell: Write,
-- SetupShell, OnInitShell and PostAttachShell. The conversion of a text to bytes, `%q` and the
-- answers of the PTY are arguments. A short wait between two commands is left out.
pub mod Typed
pub mod Script
mod Tests
use sbsh.Base.{
  ℕ, Bool, true, false, ◌&&◌, ◌⊎◌, inl, inr, Option, none, some, List, [], ◌∷◌, ◌++◌, String,
  is_empty, if◌then◌else◌,
}
use sbsh.Errdefs.{Error, context}
use sbsh.Metadata.{Answers}
use sbsh.Metadata.Owned.{TerminalDoc, State, update_terminal_state}
use sbsh.Profile.{ExecStep, TerminalSpec}
use sbsh.Reconcile.{setting_up, on_init, ready, post_attach}
use Prim.Native.String.{◌++◌ as append}

-- What the PTY answers to each byte, and what was typed; it takes every byte after the answers.
pub record Pty : Type 0 where
  pub answers : List (Option Error)
  pub typed : List ℕ

abbrev pub next_answer : List (Option Error) → Option Error × List (Option Error)
next_answer [] = (none, [])
next_answer (o ∷ os) = (o, os)

abbrev pub type_byte : ℕ → Option Error × List (Option Error) → Pty → Pty × Option Error
type_byte b (some e, os) p = (record p { answers = os }, some e)
type_byte b (none, os) p = (record { answers = os; typed = p.typed ++ b ∷ [] }, none)

infixl 5 ◌then◌
-- The second action, unless the first has failed.
abbrev pub ◌then◌ {ℓ} : {A : Type ℓ} → A × Option Error → (A → A × Option Error) → A × Option Error
(a, some e) then f = (a, some e)
(a, none) then f = f a

-- `Write`, byte by byte.
unfoldable pub write : List ℕ → Pty → Pty × Option Error
write [] p = (p, none)
write (b ∷ bs) p = type_byte b (next_answer p.answers) p then write bs

abbrev pub labelled {ℓ} : {A : Type ℓ} → String → A × Option Error → A × Option Error
labelled msg (a, none) = (a, none)
labelled msg (a, some e) = (a, some (context msg e))

-- An error that is only logged.
abbrev pub logged {ℓ} : {A : Type ℓ} → A × Option Error → A × Option Error
logged (a, e) = (a, none)

-- A terminal's metadata and its PTY.
abbrev pub Shell : Type 0
Shell = State × Pty

abbrev pub on_pty : (Pty → Pty × Option Error) → Shell → Shell × Option Error
on_pty f (x, p) = let (q, e) = f p in ((x, q), e)

abbrev pub on_state : (State → State × Option Error) → Shell → Shell × Option Error
on_state f (x, p) = let (y, e) = f x in ((y, p), e)

module _ (encode : TerminalDoc → Error ⊎ List ℕ) (decode : List ℕ → Option TerminalDoc)
    (bytes : String → List ℕ) (quote : String → String) where
  -- The variables of a step, each before its script.
  abbrev pub env_prefix : List (String × String) → String
  env_prefix [] = ""
  env_prefix ((k, v) ∷ es) = append k (append "=" (append (quote v) (append " " (env_prefix es))))

  abbrev pub command_line : ExecStep → List ℕ
  command_line s = bytes (append (append (env_prefix s.env) s.script) "\n")

  -- `writeStage`.
  unfoldable pub write_stage : List ExecStep → Pty → Pty × Option Error
  unfolding write
  write_stage [] p = (p, none)
  write_stage (s ∷ ss) p =
      labelled "failed to write stage command to PTY" (write (command_line s) p) then write_stage ss

  -- The prompt that the terminal sets where it has none.
  abbrev pub resolved_prompt : TerminalSpec → String
  resolved_prompt s =
      if s.set_prompt && is_empty s.prompt then append "(sbsh-" (append s.id ")") else s.prompt

  abbrev pub with_prompt : TerminalSpec → TerminalSpec
  with_prompt s = record s { prompt = resolved_prompt s }

  abbrev pub resolve_prompt : Shell → Shell
  resolve_prompt ((t, d), p) = ((record t { spec = with_prompt t.spec }, d), p)

  abbrev pub prompt_line : String → List ℕ
  prompt_line prompt = bytes (append "export PS1=" (append prompt "\n"))

  abbrev pub set_prompt : Shell → Shell × Option Error
  set_prompt ((t, d), p) =
      if t.spec.set_prompt
      then on_pty (λ p. labelled "failed to set prompt" (write (prompt_line t.spec.prompt) p))
          ((t, d), p)
      else (((t, d), p), none)

  -- `SetupShell`.
  unfoldable pub setup_shell : Answers → Shell → Shell × Option Error
  unfolding write update_terminal_state
  setup_shell a s =
      labelled "failed to update terminal state on setting up"
        (on_state (update_terminal_state encode decode a setting_up) s)
      then (λ s. on_pty (λ p. labelled "failed to send CTRL-U" (write (0x15 ∷ []) p)) s)
      then (λ s. set_prompt (resolve_prompt s))

  abbrev pub write_init : Shell → Shell × Option Error
  write_init ((t, d), p) = on_pty (write_stage t.spec.stages.on_init) ((t, d), p)

  abbrev pub write_post_attach : Shell → Shell × Option Error
  write_post_attach ((t, d), p) = on_pty (write_stage t.spec.stages.post_attach) ((t, d), p)

  -- `OnInitShell`: that the terminal is ready is written last, and only logged when it fails.
  unfoldable pub on_init_shell : Answers → Answers → Shell → Shell × Option Error
  unfolding write_stage update_terminal_state
  on_init_shell a a2 s =
      labelled "failed to update terminal state on on init"
        (on_state (update_terminal_state encode decode a on_init) s)
      then write_init
      then (λ s. logged (on_state (update_terminal_state encode decode a2 ready) s))

  -- `PostAttachShell`, after its wait for a terminal that is ready, which ends with the context's
  -- error when that is done first.
  unfoldable pub post_attach_shell : Option Error → Answers → Answers → Shell → Shell × Option Error
  unfolding write_stage update_terminal_state
  post_attach_shell (some e) a a2 s = (s, some e)
  post_attach_shell none a a2 s =
      logged (on_state (update_terminal_state encode decode a post_attach) s)
      then write_post_attach
      then (λ s. logged (on_state (update_terminal_state encode decode a2 ready) s))

  -- What the controller's `Run` calls when the terminal has started.
  abbrev pub start_shell : Answers → Answers → Answers → Shell → Shell × Option Error
  start_shell a a2 a3 s = setup_shell a s then on_init_shell a2 a3
