-- ===== src/Profile/Built/Chosen.antt =====
-- What the options of an embedder choose, each field from the last option that sets it.
pub mod Fields
pub mod Spec
use sbsh.Base.{
  ◌≡◌, refl, sym, ap, ◌∙◌, Bool, true, false, inl, inr, Option, none, some, List, [], ◌∷◌, ◌++◌,
  append_assoc, append-nil, String, is_empty, if◌then◌else◌, Bool-cases,
}
use mathlib.Core.Path.{subst}
use sbsh.Process.{ℤ, pos}
use sbsh.Profile.{TerminalSpec, no_stages}
use sbsh.Profile.Builder.{params_from_config, build_terminal_spec}
use sbsh.Profile.Built.{ParamsOk}
use sbsh.Profile.Built.Described.{described, of_command, laid-of_command}
use sbsh.Profile.Built.Lanes.{optioned, selects_profile, build_terminal_spec-Decides}
use sbsh.Profile.Create.{env_entries}
use sbsh.Profile.Load.Unique.{or_else}
use sbsh.Profile.Options.{
  TerminalConfig, empty_config, TerminalOption, with_command, with_env, with_id, with_name,
  with_cwd, with_capture_file, with_log_file, with_log_level, with_socket_file, with_socket_mode,
  with_socket_gid, with_capture_mode, with_capture_gid, with_log_file_mode, with_log_file_gid,
  with_capture_format, with_disable_set_prompt, with_prompt, with_env_inherit, set_command,
  apply_option, apply_options,
}
use sbsh.Profile.Params.{Params, Naming}
use sbsh.Profile.Stages.{stage_options, stages_of}
use sbsh.Profile.Stages.Later.{overlay_stages-stages_of}
use sbsh.Profile.Valid.{Decides}

abbrev pub from {ℓ} : {A : Type ℓ} → Option A → A → A
from none a = a
from (some b) a = b

-- What the last option sets that `sets` says to set it.
pub last_of {ℓ} :
    {A : Type ℓ} → (TerminalOption → Option A) → List (Option TerminalOption) → Option A
last_of sets [] = none
last_of sets (none ∷ os) = last_of sets os
last_of sets (some o ∷ os) = or_else (last_of sets os) (sets o)

-- A command that is not empty, with its arguments.
abbrev pub sets_command : TerminalOption → Option (String × List String)
sets_command (with_command (cmd ∷ args)) = if is_empty cmd then none else some (cmd, args)
sets_command o = none

abbrev pub sets_id : TerminalOption → Option (String)
sets_id (with_id s) = some (s)
sets_id o = none

abbrev pub sets_name : TerminalOption → Option (String)
sets_name (with_name s) = some (s)
sets_name o = none

abbrev pub sets_cwd : TerminalOption → Option (String)
sets_cwd (with_cwd s) = some (s)
sets_cwd o = none

abbrev pub sets_capture_file : TerminalOption → Option (String)
sets_capture_file (with_capture_file s) = some (s)
sets_capture_file o = none

abbrev pub sets_log_file : TerminalOption → Option (String)
sets_log_file (with_log_file s) = some (s)
sets_log_file o = none

abbrev pub sets_log_level : TerminalOption → Option (String)
sets_log_level (with_log_level s) = some (s)
sets_log_level o = none

abbrev pub sets_socket_file : TerminalOption → Option (String)
sets_socket_file (with_socket_file s) = some (s)
sets_socket_file o = none

abbrev pub sets_socket_mode : TerminalOption → Option (String)
sets_socket_mode (with_socket_mode s) = some (s)
sets_socket_mode o = none

abbrev pub sets_socket_gid : TerminalOption → Option (Option ℤ)
sets_socket_gid (with_socket_gid g) = some (some g)
sets_socket_gid o = none

abbrev pub sets_capture_mode : TerminalOption → Option (String)
sets_capture_mode (with_capture_mode s) = some (s)
sets_capture_mode o = none

abbrev pub sets_capture_gid : TerminalOption → Option (Option ℤ)
sets_capture_gid (with_capture_gid g) = some (some g)
sets_capture_gid o = none

abbrev pub sets_log_mode : TerminalOption → Option (String)
sets_log_mode (with_log_file_mode s) = some (s)
sets_log_mode o = none

abbrev pub sets_log_gid : TerminalOption → Option (Option ℤ)
sets_log_gid (with_log_file_gid g) = some (some g)
sets_log_gid o = none

abbrev pub sets_capture_format : TerminalOption → Option (String)
sets_capture_format (with_capture_format s) = some (s)
sets_capture_format o = none

abbrev pub sets_set_prompt_off : TerminalOption → Option (Bool)
sets_set_prompt_off (with_disable_set_prompt b) = some (b)
sets_set_prompt_off o = none

abbrev pub sets_prompt : TerminalOption → Option (Bool × String)
sets_prompt (with_prompt s) = some ((true, s))
sets_prompt o = none

abbrev pub sets_env_inherit : TerminalOption → Option (Bool × Bool)
sets_env_inherit (with_env_inherit b) = some ((true, b))
sets_env_inherit o = none

-- The variables of all the options, in their order.
abbrev pub env_of : List (Option TerminalOption) → List String
env_of [] = []
env_of (some (with_env m) ∷ os) = env_entries m ++ env_of os
env_of (some o ∷ os) = env_of os
env_of (none ∷ os) = env_of os

-- What the options make the parameters. The stages are those that they give over none.
abbrev pub params_of : List (Option TerminalOption) → String → Params
params_of os path = record {
  terminal_id = from (last_of sets_id os) "";
  terminal_name = from (last_of sets_name os) "";
  terminal_cmd = (from (last_of sets_command os) ("", [])).0;
  terminal_cmd_args = (from (last_of sets_command os) ("", [])).1;
  cwd = from (last_of sets_cwd os) "";
  capture_file = from (last_of sets_capture_file os) "";
  run_path = path;
  profiles_dir = "";
  profile_name = "";
  log_file = from (last_of sets_log_file os) "";
  log_level = from (last_of sets_log_level os) "";
  socket_file = from (last_of sets_socket_file os) "";
  socket_perm = record {
    mode = from (last_of sets_socket_mode os) "";
    gid = from (last_of sets_socket_gid os) none;
  };
  capture_perm = record {
    mode = from (last_of sets_capture_mode os) "";
    gid = from (last_of sets_capture_gid os) none;
  };
  log_file_perm = record {
    mode = from (last_of sets_log_mode os) "";
    gid = from (last_of sets_log_gid os) none;
  };
  capture_format = from (last_of sets_capture_format os) "";
  metadata_dir = "";
  env_vars = env_of os;
  disable_set_prompt = from (last_of sets_set_prompt_off os) false;
  shutdown_grace = pos 0;
  stages = stages_of (stage_options os) no_stages;
  stages_overlay = true;
  on_init_overlay = false;
  post_attach_overlay = false;
  prompt = (from (last_of sets_prompt os) (false, "")).1;
  prompt_set = (from (last_of sets_prompt os) (false, "")).0;
  env_inherit = (from (last_of sets_env_inherit os) (false, false)).1;
  env_inherit_set = (from (last_of sets_env_inherit os) (false, false)).0;
}
