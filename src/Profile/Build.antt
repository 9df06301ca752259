-- ===== src/Profile/Build.antt =====
-- internal/profile/profile.go: the two ways of building a specification, from a profile and inline.
-- Logging is left out, and so are the warnings of the load, which are only logged.
use sbsh.Base.{true, false, ◌⊎◌, inl, inr, none, some, [], String, is_empty, if◌then◌else◌}
use sbsh.Errdefs.{Error, err_run_path_required}
use sbsh.Process.{pos}
use sbsh.Profile.{
  ◌>>=◌, no_stages, ProfileDoc, no_perm, terminal_local, TerminalSpec, Failure, sentinel,
  find_failed,
}
use sbsh.Profile.Create.{create_terminal_from_profile}
use sbsh.Profile.Load.{FileSystem, find_profile_by_name_in_dir}
use sbsh.Profile.Params.{
  Params, Naming, or_default, apply_param_defaults, add_input_values_to_terminal,
  apply_perm_overrides, lay_over,
}
use sbsh.Validate.{api_version_v1beta1, kind_terminal_profile}
use text.Mathlib.Text.{◌==◌}

-- `GetDefaultHardcodedProfile`.
abbrev pub get_default_hardcoded_profile : Params → ProfileDoc
get_default_hardcoded_profile p = record {
  api_version = api_version_v1beta1;
  kind = kind_terminal_profile;
  name = "default";
  labels = [];
  run_target = "local";
  shell = record {
    cwd = "";
    cmd = p.terminal_cmd;
    cmd_args = p.terminal_cmd_args;
    env = [];
    env_inherit = true;
    prompt = "\"(sbsh-$SBSH_TERM_ID) $PS1\"";
  };
  stages = no_stages;
  socket = none;
  capture = none;
  log_file = none;
  capture_format = "";
}

-- The profile that was found, or the hardcoded one in place of a `default` that was not.
abbrev pub resolve_profile : Params → String → Error ⊎ ProfileDoc → Failure ⊎ ProfileDoc
resolve_profile p name (inr doc) = inr doc
resolve_profile p name (inl e) =
    if name == "default" then inr (get_default_hardcoded_profile p) else inl (find_failed e)

abbrev pub build_with_defaults : FileSystem → Params → Failure ⊎ TerminalSpec
build_with_defaults fs p =
    let name = or_default p.profile_name "default" in
    resolve_profile p name (find_profile_by_name_in_dir fs p.profiles_dir name) >>= λ doc.
    create_terminal_from_profile (some doc) >>= λ s. lay_over (record p { profile_name = name }) s

-- `BuildTerminalSpecFromProfile`.
unfoldable pub build_terminal_spec_from_profile :
    FileSystem → Naming → Params → Failure ⊎ TerminalSpec
unfolding create_terminal_from_profile find_profile_by_name_in_dir apply_param_defaults
    add_input_values_to_terminal apply_perm_overrides
build_terminal_spec_from_profile fs n p =
    if is_empty p.run_path
    then inl (sentinel err_run_path_required)
    else build_with_defaults fs (apply_param_defaults n p)

-- The specification that the inline way starts from.
abbrev pub inline_spec : Params → TerminalSpec
inline_spec p = record {
  id = "";
  kind = terminal_local;
  name = "";
  labels = [];
  cwd = "";
  command = p.terminal_cmd;
  command_args = p.terminal_cmd_args;
  env_inherit = false;
  env = [];
  prompt = "";
  set_prompt = false;
  run_path = "";
  capture_file = "";
  log_file = "";
  log_level = "";
  socket_file = "";
  metadata_dir = "";
  socket_perm = no_perm;
  capture_perm = no_perm;
  log_file_perm = no_perm;
  capture_format = "";
  profile_name = "";
  stages = no_stages;
  shutdown_grace = pos 0;
}

abbrev pub build_inline : Params → Failure ⊎ TerminalSpec
build_inline p = lay_over p (inline_spec p)

-- `BuildTerminalSpecInline`.
unfoldable pub build_terminal_spec_inline : Naming → Params → Failure ⊎ TerminalSpec
unfolding apply_param_defaults add_input_values_to_terminal apply_perm_overrides
build_terminal_spec_inline n p =
    if is_empty p.run_path
    then inl (sentinel err_run_path_required)
    else build_inline (apply_param_defaults n p)
