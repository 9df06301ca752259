-- ===== src/Profile/Params.antt =====
-- internal/profile/profile.go: the parameters of a specification, their defaults, and how they are
-- laid over the specification that a profile gave.
use sbsh.Base.{
  Bool, not, ◌&&◌, ◌⊎◌, inr, Option, none, some, List, [], ◌∷◌, ◌++◌, String, is_empty,
  if◌then◌else◌,
}
use sbsh.Process.{ℤ, positive}
use sbsh.Profile.{
  ◌>>=◌, FilePermSpec, StagesSpec, Perm, TerminalSpec, Artifact, socket, capture, log_file, Failure,
  invalid_flag_mode, invalid_flag_format,
}
use sbsh.Profile.Create.{apply_mode, apply_format}

-- `BuildTerminalSpecParams`; the modes and the groups are one record for each artifact.
pub record Params : Type 0 where
  pub terminal_id : String
  pub terminal_name : String
  pub terminal_cmd : String
  pub terminal_cmd_args : List String
  pub cwd : String
  pub capture_file : String
  pub run_path : String
  pub profiles_dir : String
  pub profile_name : String
  pub log_file : String
  pub log_level : String
  pub socket_file : String
  pub socket_perm : FilePermSpec
  pub capture_perm : FilePermSpec
  pub log_file_perm : FilePermSpec
  pub capture_format : String
  pub metadata_dir : String
  pub env_vars : List String
  pub disable_set_prompt : Bool
  pub shutdown_grace : ℤ
  pub stages : StagesSpec
  pub stages_overlay : Bool
  pub on_init_overlay : Bool
  pub post_attach_overlay : Bool
  pub prompt : String
  pub prompt_set : Bool
  pub env_inherit : Bool
  pub env_inherit_set : Bool

-- What the defaults are made of: the names that are drawn, and `filepath.Join` and `filepath.Dir`.
pub record Naming : Type 0 where
  pub random_id : String
  pub random_name : String
  pub join : List String → String
  pub dir : String → String

abbrev pub or_default : String → String → String
or_default s d = if is_empty s then d else s

-- A file of the terminal's directory under the run path.
abbrev pub artifact_path : Naming → String → String → String → String
artifact_path n run_path id file = n.join (run_path ∷ "terminals" ∷ id ∷ file ∷ [])

abbrev pub explicit_artifact_paths : Params → Bool
explicit_artifact_paths p =
    not (is_empty p.log_file) && (not (is_empty p.capture_file) && not (is_empty p.socket_file))

abbrev pub default_metadata_dir : Naming → Bool → String → String → String
default_metadata_dir n explicit metadata_dir log =
    if explicit && is_empty metadata_dir then n.dir log else metadata_dir

-- `applyParamDefaults`: the metadata directory is derived where the caller named all three files.
unfoldable pub apply_param_defaults : Naming → Params → Params
apply_param_defaults n p =
    let id = or_default p.terminal_id n.random_id in
    let log = or_default p.log_file (artifact_path n p.run_path id "log") in
    record p {
      terminal_id = id;
      terminal_name = or_default p.terminal_name n.random_name;
      profiles_dir = or_default p.profiles_dir (n.join (p.run_path ∷ ".sbsh" ∷ "profiles.d" ∷ []));
      terminal_cmd = or_default p.terminal_cmd "/bin/bash";
      terminal_cmd_args = if is_empty p.terminal_cmd then "-i" ∷ [] else p.terminal_cmd_args;
      log_file = log;
      log_level = or_default p.log_level "info";
      capture_file = or_default p.capture_file (artifact_path n p.run_path id "capture");
      socket_file = or_default p.socket_file (artifact_path n p.run_path id "socket");
      metadata_dir = default_metadata_dir n (explicit_artifact_paths p) p.metadata_dir log;
    }

-- The stages: all of them, or the parts that are overlaid.
abbrev pub overlay_stages : Params → StagesSpec → StagesSpec
overlay_stages p s = if p.stages_overlay then p.stages else record s {
  on_init = if p.on_init_overlay then p.stages.on_init else s.on_init;
  post_attach = if p.post_attach_overlay then p.stages.post_attach else s.post_attach;
}

-- `addInputValuesToTerminal`.
unfoldable pub add_input_values_to_terminal : Params → TerminalSpec → TerminalSpec
add_input_values_to_terminal p s = record s {
  id = p.terminal_id;
  name = p.terminal_name;
  run_path = p.run_path;
  capture_file = p.capture_file;
  log_file = p.log_file;
  log_level = p.log_level;
  socket_file = p.socket_file;
  metadata_dir = p.metadata_dir;
  cwd = or_default p.cwd s.cwd;
  env = s.env ++ p.env_vars;
  set_prompt = not p.disable_set_prompt;
  shutdown_grace = if positive p.shutdown_grace then p.shutdown_grace else s.shutdown_grace;
  stages = overlay_stages p s.stages;
  prompt = if p.prompt_set then p.prompt else s.prompt;
  env_inherit = if p.env_inherit_set then p.env_inherit else s.env_inherit;
}

abbrev pub override_gid : Option ℤ → Perm → Perm
override_gid none p = p
override_gid (some g) p = record p { gid = some g }

-- `applyOnePermOverride`.
abbrev pub apply_one_perm_override : FilePermSpec → Artifact → Perm → Failure ⊎ Perm
apply_one_perm_override raw a p =
    apply_mode (invalid_flag_mode a raw.mode) raw.mode p >>= λ q. inr (override_gid raw.gid q)

-- `applyPermOverrides`.
unfoldable pub apply_perm_overrides : Params → TerminalSpec → Failure ⊎ TerminalSpec
apply_perm_overrides p s = apply_one_perm_override p.socket_perm socket s.socket_perm >>= λ a.
    apply_one_perm_override p.capture_perm capture s.capture_perm >>= λ b.
    apply_one_perm_override p.log_file_perm log_file s.log_file_perm >>= λ c.
    inr (record s { socket_perm = a; capture_perm = b; log_file_perm = c })

-- `applyCaptureFormat`.
abbrev pub apply_capture_format : Params → TerminalSpec → Failure ⊎ TerminalSpec
apply_capture_format p s = apply_format invalid_flag_format p.capture_format s

-- What both ways of building lay over a specification, in their order.
abbrev pub lay_over : Params → TerminalSpec → Failure ⊎ TerminalSpec
lay_over p s =
    apply_perm_overrides p (add_input_values_to_terminal p s) >>= λ t. apply_capture_format p t
