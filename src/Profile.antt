-- ===== src/Profile.antt =====
-- pkg/api/profile.go and terminal.go: profile documents and the specification of a terminal, which
-- the child modules load, build and overlay. A map is the list of its entries in the order in which
-- a loop meets them, and the mode and the group of one artifact are one record.
pub mod Mode
pub mod Create
pub mod Params
pub mod Load
pub mod Build
pub mod Options
pub mod Builder
pub mod Valid
pub mod Built
pub mod Stages
mod Tests
use sbsh.Base.{ℕ, Bool, ◌⊎◌, inl, inr, Option, none, some, List, [], ◌∷◌, String}
use sbsh.Errdefs.{Error, Sentinel}
use sbsh.Process.{ℤ}

infixl 5 ◌>>=◌
abbrev pub ◌>>=◌ {ℓ κ μ} : {E : Type ℓ} {A : Type κ} {B : Type μ} → E ⊎ A → (A → E ⊎ B) → E ⊎ B
inl e >>= f = inl e
inr a >>= f = f a

pub record ExecStep : Type 0 where
  pub script : String
  pub env : List (String × String)

pub record StagesSpec : Type 0 where
  pub on_init : List ExecStep
  pub post_attach : List ExecStep

abbrev pub no_stages : StagesSpec
no_stages = record { on_init = []; post_attach = [] }

pub record ShellSpec : Type 0 where
  pub cwd : String
  pub cmd : String
  pub cmd_args : List String
  pub env : List (String × String)
  pub env_inherit : Bool
  pub prompt : String

-- A mode as it is written, empty when it is not set, and a group.
pub record FilePermSpec : Type 0 where
  pub mode : String
  pub gid : Option ℤ

-- The fields of a profile that a specification is made of, or that the loading checks.
pub record ProfileDoc : Type 0 where
  pub api_version : String
  pub kind : String
  pub name : String
  pub labels : List (String × String)
  pub run_target : String
  pub shell : ShellSpec
  pub stages : StagesSpec
  pub socket : Option FilePermSpec
  pub capture : Option FilePermSpec
  pub log_file : Option FilePermSpec
  pub capture_format : String

-- The mode and the group of an artifact: `SocketMode` and `SocketGID`, and those of the two others.
pub record Perm : Type 0 where
  pub mode : ℕ
  pub gid : Option ℤ

abbrev pub no_perm : Perm
no_perm = record { mode = 0; gid = none }

pub data TerminalKind : Type 0 where
  terminal_local terminal_ssh : TerminalKind

pub record TerminalSpec : Type 0 where
  pub id : String
  pub kind : TerminalKind
  pub name : String
  pub labels : List (String × String)
  pub cwd : String
  pub command : String
  pub command_args : List String
  pub env_inherit : Bool
  pub env : List String
  pub prompt : String
  pub set_prompt : Bool
  pub run_path : String
  pub capture_file : String
  pub log_file : String
  pub log_level : String
  pub socket_file : String
  pub metadata_dir : String
  pub socket_perm : Perm
  pub capture_perm : Perm
  pub log_file_perm : Perm
  pub capture_format : String
  pub profile_name : String
  pub stages : StagesSpec
  pub shutdown_grace : ℤ

-- The artifacts whose mode and group can be set.
pub data Artifact : Type 0 where
  socket capture log_file : Artifact

-- Why `parseFileMode` rejects a text: not an octal number, too large for 32 bits, or bits outside
-- the mask.
pub data ModeError : Type 0 where
  not_octal out_of_range : ModeError
  bits_outside : ℕ → ModeError

-- The errors, with the values that their texts name: those of a profile carry its name, and those of
-- a flag wrap `ErrInvalidFlag`.
pub data Failure : Type 0 where
  sentinel : Sentinel → Failure
  find_failed : Error → Failure
  nil_profile version_or_kind_missing name_missing : Failure
  invalid_kind cmd_missing invalid_capture_format : String → Failure
  invalid_profile_mode : Artifact → String → ModeError → Failure
  negative_profile_gid : Artifact → String → ℤ → Failure
  invalid_profile_format : String → Failure → Failure
  invalid_flag_mode : Artifact → String → ModeError → Failure
  invalid_flag_format : Failure → Failure
  invalid_option : String → Failure
