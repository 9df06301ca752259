-- ===== src/Profile/Built/Chosen/Fields.antt =====
-- The fields of the accumulator after the options.
use sbsh.Base.{
  ◌≡◌, refl, sym, ap, ◌∙◌, inl, inr, Option, none, some, List, [], ◌∷◌, ◌++◌, append_assoc,
  append-nil, String, is_empty, Bool-cases,
}
use sbsh.Profile.Create.{env_entries}
use sbsh.Profile.Load.Unique.{or_else}
use sbsh.Profile.Options.{
  TerminalConfig, TerminalOption, with_command, with_env, set_command, apply_option, apply_options,
}
use sbsh.Profile.Built.Chosen.{
  from, last_of, sets_command, sets_id, sets_name, sets_cwd, sets_capture_file, sets_log_file,
  sets_log_level, sets_socket_file, sets_socket_mode, sets_socket_gid, sets_capture_mode,
  sets_capture_gid, sets_log_mode, sets_log_gid, sets_capture_format, sets_set_prompt_off,
  sets_prompt, sets_env_inherit, env_of,
}

from-or_else {ℓ} :
    {A : Type ℓ} (o o' : Option A) (a : A) → from o (from o' a) ≡ from (or_else o o') a
from-or_else none o' a = refl
from-or_else (some b) o' a = refl

-- A field that each option sets as `sets` says.
pub field-last {ℓ} :
    {A : Type ℓ} (get : TerminalConfig → A) (sets : TerminalOption → Option A)
    → ((o : TerminalOption) (c : TerminalConfig) → get (apply_option o c) ≡ from (sets o) (get c))
    → (os : List (Option TerminalOption)) (c : TerminalConfig)
    → get (apply_options os c) ≡ from (last_of sets os) (get c)
unfolding apply_options last_of
field-last get sets f [] c = refl
field-last get sets f (none ∷ os) c = field-last get sets f os c
field-last get sets f (some o ∷ os) c =
    field-last get sets f os (apply_option o c)
    ∙ ap (from (last_of sets os)) (f o c)
    ∙ from-or_else (last_of sets os) (sets o) (get c)

-- A command changes no other field.
module _ {A : Type 0} (get : TerminalConfig → A)
    (same : (c : TerminalConfig) (cmd : String) (args : List String)
      → get (record c { command = cmd; command_args = args }) ≡ get c) where
  kept : (argv : List String) (c : TerminalConfig) → get (set_command argv c) ≡ get c
  kept [] c = refl
  kept (cmd ∷ args) c = elim (Bool-cases (is_empty cmd)) [
    | inl h ↦ rw h refl
    | inr h ↦ rw h (same c cmd args)
  ]

command-set :
    (argv : List String) (c : TerminalConfig)
    → ((set_command argv c).command, (set_command argv c).command_args)
      ≡ from (sets_command (with_command argv)) (c.command, c.command_args)
command-set [] c = refl
command-set (cmd ∷ args) c = elim (Bool-cases (is_empty cmd)) [
  | inl h ↦ rw h refl
  | inr h ↦ rw h refl
]

pub command-option :
    (o : TerminalOption) (c : TerminalConfig)
    → ((apply_option o c).command, (apply_option o c).command_args)
      ≡ from (sets_command o) (c.command, c.command_args)
unfolding apply_option
command-option (with_command argv) c = command-set argv c
command-option o c = refl

pub env-option :
    (o : TerminalOption) (os : List (Option TerminalOption)) (c : TerminalConfig)
    → (apply_option o c).env_vars ++ env_of os ≡ c.env_vars ++ env_of (some o ∷ os)
unfolding apply_option
env-option (with_env m) os c = append_assoc c.env_vars (env_entries m) (env_of os)
env-option (with_command argv) os c =
    ap (λ e. e ++ env_of os) (kept (λ c. c.env_vars) (λ c cmd args. refl) argv c)
env-option o os c = refl

pub env-last :
    (os : List (Option TerminalOption)) (c : TerminalConfig)
    → (apply_options os c).env_vars ≡ c.env_vars ++ env_of os
unfolding apply_options
env-last [] c = sym (append-nil c.env_vars)
env-last (none ∷ os) c = env-last os c
env-last (some o ∷ os) c = env-last os (apply_option o c) ∙ env-option o os c

pub id-option :
    (o : TerminalOption) (c : TerminalConfig) → (apply_option o c).id ≡ from (sets_id o) c.id
unfolding apply_option
id-option (with_command argv) c = kept (λ c. c.id) (λ c cmd args. refl) argv c
id-option o c = refl

pub name-option :
    (o : TerminalOption) (c : TerminalConfig) → (apply_option o c).name ≡ from (sets_name o) c.name
unfolding apply_option
name-option (with_command argv) c = kept (λ c. c.name) (λ c cmd args. refl) argv c
name-option o c = refl

pub cwd-option :
    (o : TerminalOption) (c : TerminalConfig) → (apply_option o c).cwd ≡ from (sets_cwd o) c.cwd
unfolding apply_option
cwd-option (with_command argv) c = kept (λ c. c.cwd) (λ c cmd args. refl) argv c
cwd-option o c = refl

pub capture_file-option :
    (o : TerminalOption) (c : TerminalConfig)
    → (apply_option o c).capture_file ≡ from (sets_capture_file o) c.capture_file
unfolding apply_option
capture_file-option (with_command argv) c = kept (λ c. c.capture_file) (λ c cmd args. refl) argv c
capture_file-option o c = refl

pub log_file-option :
    (o : TerminalOption) (c : TerminalConfig)
    → (apply_option o c).log_file ≡ from (sets_log_file o) c.log_file
unfolding apply_option
log_file-option (with_command argv) c = kept (λ c. c.log_file) (λ c cmd args. refl) argv c
log_file-option o c = refl

pub log_level-option :
    (o : TerminalOption) (c : TerminalConfig)
    → (apply_option o c).log_level ≡ from (sets_log_level o) c.log_level
unfolding apply_option
log_level-option (with_command argv) c = kept (λ c. c.log_level) (λ c cmd args. refl) argv c
log_level-option o c = refl

pub socket_file-option :
    (o : TerminalOption) (c : TerminalConfig)
    → (apply_option o c).socket_file ≡ from (sets_socket_file o) c.socket_file
unfolding apply_option
socket_file-option (with_command argv) c = kept (λ c. c.socket_file) (λ c cmd args. refl) argv c
socket_file-option o c = refl

pub socket_mode-option :
    (o : TerminalOption) (c : TerminalConfig)
    → (apply_option o c).socket_perm.mode ≡ from (sets_socket_mode o) c.socket_perm.mode
unfolding apply_option
socket_mode-option (with_command argv) c =
    kept (λ c. c.socket_perm.mode) (λ c cmd args. refl) argv c
socket_mode-option o c = refl

pub socket_gid-option :
    (o : TerminalOption) (c : TerminalConfig)
    → (apply_option o c).socket_perm.gid ≡ from (sets_socket_gid o) c.socket_perm.gid
unfolding apply_option
socket_gid-option (with_command argv) c = kept (λ c. c.socket_perm.gid) (λ c cmd args. refl) argv c
socket_gid-option o c = refl

pub capture_mode-option :
    (o : TerminalOption) (c : TerminalConfig)
    → (apply_option o c).capture_perm.mode ≡ from (sets_capture_mode o) c.capture_perm.mode
unfolding apply_option
capture_mode-option (with_command argv) c =
    kept (λ c. c.capture_perm.mode) (λ c cmd args. refl) argv c
capture_mode-option o c = refl

pub capture_gid-option :
    (o : TerminalOption) (c : TerminalConfig)
    → (apply_option o c).capture_perm.gid ≡ from (sets_capture_gid o) c.capture_perm.gid
unfolding apply_option
capture_gid-option (with_command argv) c =
    kept (λ c. c.capture_perm.gid) (λ c cmd args. refl) argv c
capture_gid-option o c = refl

pub log_mode-option :
    (o : TerminalOption) (c : TerminalConfig)
    → (apply_option o c).log_file_perm.mode ≡ from (sets_log_mode o) c.log_file_perm.mode
unfolding apply_option
log_mode-option (with_command argv) c = kept (λ c. c.log_file_perm.mode) (λ c cmd args. refl) argv c
log_mode-option o c = refl

pub log_gid-option :
    (o : TerminalOption) (c : TerminalConfig)
    → (apply_option o c).log_file_perm.gid ≡ from (sets_log_gid o) c.log_file_perm.gid
unfolding apply_option
log_gid-option (with_command argv) c = kept (λ c. c.log_file_perm.gid) (λ c cmd args. refl) argv c
log_gid-option o c = refl

pub capture_format-option :
    (o : TerminalOption) (c : TerminalConfig)
    → (apply_option o c).capture_format ≡ from (sets_capture_format o) c.capture_format
unfolding apply_option
capture_format-option (with_command argv) c =
    kept (λ c. c.capture_format) (λ c cmd args. refl) argv c
capture_format-option o c = refl

pub set_prompt_off-option :
    (o : TerminalOption) (c : TerminalConfig)
    → (apply_option o c).disable_set_prompt ≡ from (sets_set_prompt_off o) c.disable_set_prompt
unfolding apply_option
set_prompt_off-option (with_command argv) c =
    kept (λ c. c.disable_set_prompt) (λ c cmd args. refl) argv c
set_prompt_off-option o c = refl

pub prompt-option :
    (o : TerminalOption) (c : TerminalConfig)
    → ((apply_option o c).prompt_set, (apply_option o c).prompt)
      ≡ from (sets_prompt o) (c.prompt_set, c.prompt)
unfolding apply_option
prompt-option (with_command argv) c =
    kept (λ c. (c.prompt_set, c.prompt)) (λ c cmd args. refl) argv c
prompt-option o c = refl

pub env_inherit-option :
    (o : TerminalOption) (c : TerminalConfig)
    → ((apply_option o c).env_inherit_set, (apply_option o c).env_inherit)
      ≡ from (sets_env_inherit o) (c.env_inherit_set, c.env_inherit)
unfolding apply_option
env_inherit-option (with_command argv) c =
    kept (λ c. (c.env_inherit_set, c.env_inherit)) (λ c cmd args. refl) argv c
env_inherit-option o c = refl
