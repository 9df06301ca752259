-- ===== src/Profile/Options.antt =====
-- pkg/builder/terminal.go: the options that an embedder passes, and the two builders over them.
use sbsh.Base.{
  Bool, true, false, Option, none, some, List, [], ◌∷◌, ◌++◌, String, is_empty, if◌then◌else◌,
}
use sbsh.Process.{ℤ}
use sbsh.Profile.{ExecStep, StagesSpec, no_stages, FilePermSpec}
use sbsh.Profile.Create.{env_entries}

-- `terminalConfig`; the modes and the groups are one record for each artifact.
pub record TerminalConfig : Type 0 where
  pub id : String
  pub name : String
  pub command : String
  pub command_args : List String
  pub env_vars : List String
  pub cwd : String
  pub capture_file : String
  pub capture_perm : FilePermSpec
  pub capture_format : String
  pub log_file : String
  pub log_file_perm : FilePermSpec
  pub log_level : String
  pub socket_file : String
  pub socket_perm : FilePermSpec
  pub profile_name : String
  pub profiles_dir : String
  pub profile_set : Bool
  pub profiles_dir_set : Bool
  pub disable_set_prompt : Bool
  pub stages : StagesSpec
  pub stages_overlay : Bool
  pub on_init_overlay : Bool
  pub post_attach_overlay : Bool
  pub prompt : String
  pub prompt_set : Bool
  pub env_inherit : Bool
  pub env_inherit_set : Bool

abbrev pub unset_perm : FilePermSpec
unset_perm = record { mode = ""; gid = none }

-- `terminalConfig{}`.
abbrev pub empty_config : TerminalConfig
empty_config = record {
  id = "";
  name = "";
  command = "";
  command_args = [];
  env_vars = [];
  cwd = "";
  capture_file = "";
  capture_perm = unset_perm;
  capture_format = "";
  log_file = "";
  log_file_perm = unset_perm;
  log_level = "";
  socket_file = "";
  socket_perm = unset_perm;
  profile_name = "";
  profiles_dir = "";
  profile_set = false;
  profiles_dir_set = false;
  disable_set_prompt = false;
  stages = no_stages;
  stages_overlay = false;
  on_init_overlay = false;
  post_attach_overlay = false;
  prompt = "";
  prompt_set = false;
  env_inherit = false;
  env_inherit_set = false;
}

-- One constructor for each of the `With` functions, in their order.
pub data TerminalOption : Type 0 where
  with_id with_name with_profile with_profiles_dir : String → TerminalOption
  with_command : List String → TerminalOption
  with_cwd : String → TerminalOption
  with_env : List (String × String) → TerminalOption
  with_capture_file with_log_file with_log_level with_socket_file : String → TerminalOption
  with_socket_mode : String → TerminalOption
  with_socket_gid : ℤ → TerminalOption
  with_capture_mode : String → TerminalOption
  with_capture_gid : ℤ → TerminalOption
  with_capture_format with_log_file_mode : String → TerminalOption
  with_log_file_gid : ℤ → TerminalOption
  with_disable_set_prompt : Bool → TerminalOption
  with_stages : StagesSpec → TerminalOption
  with_on_init with_post_attach : List ExecStep → TerminalOption
  with_prompt : String → TerminalOption
  with_env_inherit : Bool → TerminalOption

abbrev pub mode_to : String → FilePermSpec → FilePermSpec
mode_to m p = record p { mode = m }

abbrev pub gid_to : ℤ → FilePermSpec → FilePermSpec
gid_to g p = record p { gid = some g }

abbrev pub set_command : List String → TerminalConfig → TerminalConfig
set_command [] c = c
set_command (cmd ∷ args) c =
    if is_empty cmd then c else record c { command = cmd; command_args = args }

-- What an option does to the accumulator.
unfoldable pub apply_option : TerminalOption → TerminalConfig → TerminalConfig
unfolding env_entries
apply_option (with_id s) c = record c { id = s }
apply_option (with_name s) c = record c { name = s }
apply_option (with_profile s) c = record c { profile_name = s; profile_set = true }
apply_option (with_profiles_dir s) c = record c { profiles_dir = s; profiles_dir_set = true }
apply_option (with_command argv) c = set_command argv c
apply_option (with_cwd s) c = record c { cwd = s }
apply_option (with_env m) c = record c { env_vars = c.env_vars ++ env_entries m }
apply_option (with_capture_file s) c = record c { capture_file = s }
apply_option (with_log_file s) c = record c { log_file = s }
apply_option (with_log_level s) c = record c { log_level = s }
apply_option (with_socket_file s) c = record c { socket_file = s }
apply_option (with_socket_mode s) c = record c { socket_perm = mode_to s c.socket_perm }
apply_option (with_socket_gid g) c = record c { socket_perm = gid_to g c.socket_perm }
apply_option (with_capture_mode s) c = record c { capture_perm = mode_to s c.capture_perm }
apply_option (with_capture_gid g) c = record c { capture_perm = gid_to g c.capture_perm }
apply_option (with_capture_format s) c = record c { capture_format = s }
apply_option (with_log_file_mode s) c = record c { log_file_perm = mode_to s c.log_file_perm }
apply_option (with_log_file_gid g) c = record c { log_file_perm = gid_to g c.log_file_perm }
apply_option (with_disable_set_prompt b) c = record c { disable_set_prompt = b }
apply_option (with_stages s) c = record c {
  stages = s;
  stages_overlay = true;
  on_init_overlay = false;
  post_attach_overlay = false;
}
apply_option (with_on_init steps) c = record c {
  stages = record c.stages { on_init = steps };
  on_init_overlay = true;
  stages_overlay = false;
}
apply_option (with_post_attach steps) c = record c {
  stages = record c.stages { post_attach = steps };
  post_attach_overlay = true;
  stages_overlay = false;
}
apply_option (with_prompt s) c = record c { prompt = s; prompt_set = true }
apply_option (with_env_inherit b) c = record c { env_inherit = b; env_inherit_set = true }

-- The options in their order; a nil option is none.
unfoldable pub apply_options : List (Option TerminalOption) → TerminalConfig → TerminalConfig
unfolding apply_option
apply_options [] c = c
apply_options (none ∷ os) c = apply_options os c
apply_options (some o ∷ os) c = apply_options os (apply_option o c)
