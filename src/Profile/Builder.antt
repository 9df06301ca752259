-- ===== src/Profile/Builder.antt =====
-- pkg/builder/terminal.go: the two builders over the options.
use sbsh.Base.{◌⊎◌, inl, Option, List, String, is_empty, if◌then◌else◌}
use sbsh.Errdefs.{err_run_path_required}
use sbsh.Process.{pos}
use sbsh.Profile.{TerminalSpec, Failure, sentinel, invalid_option}
use sbsh.Profile.Build.{build_terminal_spec_from_profile, build_terminal_spec_inline}
use sbsh.Profile.Load.{FileSystem}
use sbsh.Profile.Options.{TerminalConfig, empty_config, TerminalOption, apply_options}
use sbsh.Profile.Params.{Params, Naming}

-- `paramsFromConfig`.
abbrev pub params_from_config : TerminalConfig → String → Params
params_from_config c path = record {
  terminal_id = c.id;
  terminal_name = c.name;
  terminal_cmd = c.command;
  terminal_cmd_args = c.command_args;
  cwd = c.cwd;
  capture_file = c.capture_file;
  run_path = path;
  profiles_dir = c.profiles_dir;
  profile_name = c.profile_name;
  log_file = c.log_file;
  log_level = c.log_level;
  socket_file = c.socket_file;
  socket_perm = c.socket_perm;
  capture_perm = c.capture_perm;
  log_file_perm = c.log_file_perm;
  capture_format = c.capture_format;
  metadata_dir = "";
  env_vars = c.env_vars;
  disable_set_prompt = c.disable_set_prompt;
  shutdown_grace = pos 0;
  stages = c.stages;
  stages_overlay = c.stages_overlay;
  on_init_overlay = c.on_init_overlay;
  post_attach_overlay = c.post_attach_overlay;
  prompt = c.prompt;
  prompt_set = c.prompt_set;
  env_inherit = c.env_inherit;
  env_inherit_set = c.env_inherit_set;
}

abbrev pub build_from_config : Naming → String → TerminalConfig → Failure ⊎ TerminalSpec
build_from_config n path c =
    if c.profile_set
    then inl (invalid_option "WithProfile")
    else if c.profiles_dir_set
    then inl (invalid_option "WithProfilesDir")
    else build_terminal_spec_inline n (params_from_config c path)

-- `BuildTerminalSpec`.
unfoldable pub build_terminal_spec :
    Naming → String → List (Option TerminalOption) → Failure ⊎ TerminalSpec
unfolding build_terminal_spec_inline apply_options
build_terminal_spec n path os =
    if is_empty path
    then inl (sentinel err_run_path_required)
    else build_from_config n path (apply_options os empty_config)

-- `BuildTerminalSpecFromProfile` of the builder.
unfoldable pub build_from_profile :
    FileSystem → Naming → String → List (Option TerminalOption) → Failure ⊎ TerminalSpec
unfolding build_terminal_spec_from_profile apply_options
build_from_profile fs n path os =
    if is_empty path
    then inl (sentinel err_run_path_required)
    else build_terminal_spec_from_profile fs n
        (params_from_config (apply_options os empty_config) path)
