-- ===== src/Profile/Built/Described.antt =====
-- The specifications that the builders give, field by field.
use sbsh.Base.{
  ◌≡◌, refl, ap, ◌∙◌, true, false, not, inl, inr, [], ◌∷◌, ◌++◌, String, is_empty, if◌then◌else◌,
  Bool-cases, if-elim,
}
use sbsh.Process.{positive, pos}
use sbsh.Profile.{
  no_stages, StagesSpec, ProfileDoc, no_perm, TerminalKind, terminal_local, TerminalSpec,
}
use sbsh.Profile.Build.{inline_spec}
use sbsh.Profile.Built.{laid, profile_spec}
use sbsh.Profile.Built.Lanes.{completed}
use sbsh.Profile.Create.{env_entries, kind_of}
use sbsh.Profile.Params.{Params, Naming, apply_param_defaults, add_input_values_to_terminal}
use sbsh.Profile.Valid.{resolved_perm, block_perm, resolved_format}

-- A string that is given, or else another.
abbrev pub given : String → String → String
given s other = if is_empty s then other else s

-- The ID that is given, or else the one that is drawn.
abbrev pub id_of : Naming → Params → String
id_of n p = given p.terminal_id n.random_id

-- The path of a file that is not given: in the directory of the ID under the run path.
abbrev pub path_in : Naming → Params → String → String
path_in n p file = n.join (p.run_path ∷ "terminals" ∷ id_of n p ∷ file ∷ [])

-- The metadata directory that is given, or else that of the log file where all three files are given.
abbrev pub metadata_place : Naming → Params → String
metadata_place n p =
    if is_empty p.log_file
    then p.metadata_dir
    else if is_empty p.capture_file
    then p.metadata_dir
    else if is_empty p.socket_file
    then p.metadata_dir
    else if is_empty p.metadata_dir
    then n.dir p.log_file
    else p.metadata_dir

-- All the stages, or the parts that are overlaid.
abbrev pub stages_over : Params → StagesSpec → StagesSpec
stages_over p s = if p.stages_overlay then p.stages else record {
  on_init = if p.on_init_overlay then p.stages.on_init else s.on_init;
  post_attach = if p.post_attach_overlay then p.stages.post_attach else s.post_attach;
}

-- The parameters over a specification `b`, with their defaults.
abbrev pub described : Naming → Params → TerminalSpec → TerminalSpec
described n p b = record {
  id = id_of n p;
  kind = b.kind;
  name = given p.terminal_name n.random_name;
  labels = b.labels;
  cwd = given p.cwd b.cwd;
  command = b.command;
  command_args = b.command_args;
  env_inherit = if p.env_inherit_set then p.env_inherit else b.env_inherit;
  env = b.env ++ p.env_vars;
  prompt = if p.prompt_set then p.prompt else b.prompt;
  set_prompt = not p.disable_set_prompt;
  run_path = p.run_path;
  capture_file = given p.capture_file (path_in n p "capture");
  log_file = given p.log_file (path_in n p "log");
  log_level = given p.log_level "info";
  socket_file = given p.socket_file (path_in n p "socket");
  metadata_dir = metadata_place n p;
  socket_perm = resolved_perm p.socket_perm b.socket_perm;
  capture_perm = resolved_perm p.capture_perm b.capture_perm;
  log_file_perm = resolved_perm p.log_file_perm b.log_file_perm;
  capture_format = resolved_format p.capture_format b.capture_format;
  profile_name = b.profile_name;
  stages = stages_over p b.stages;
  shutdown_grace = if positive p.shutdown_grace then p.shutdown_grace else b.shutdown_grace;
}

-- What a profile says.
abbrev pub of_profile : ProfileDoc → TerminalSpec
of_profile d = record {
  id = "";
  kind = terminal_local;
  name = "";
  labels = d.labels;
  cwd = d.shell.cwd;
  command = d.shell.cmd;
  command_args = d.shell.cmd_args;
  env_inherit = d.shell.env_inherit;
  env = env_entries d.shell.env;
  prompt = d.shell.prompt;
  set_prompt = true;
  run_path = "";
  capture_file = "";
  log_file = "";
  log_level = "";
  socket_file = "";
  metadata_dir = "";
  socket_perm = block_perm d.socket no_perm;
  capture_perm = block_perm d.capture no_perm;
  log_file_perm = block_perm d.log_file no_perm;
  capture_format = resolved_format d.capture_format "";
  profile_name = d.name;
  stages = d.stages;
  shutdown_grace = pos 0;
}

-- What the parameters say of the command, without a profile.
abbrev pub of_command : Params → TerminalSpec
of_command p = record {
  id = "";
  kind = terminal_local;
  name = "";
  labels = [];
  cwd = "";
  command = given p.terminal_cmd "/bin/bash";
  command_args = if is_empty p.terminal_cmd then "-i" ∷ [] else p.terminal_cmd_args;
  env_inherit = false;
  env = [];
  prompt = "";
  set_prompt = false;
  run_path = "";
  capture_file = "";
  log_file = "";
  log_level = "";
  socket_file = "";
  metadata_dir = "";
  socket_perm = no_perm;
  capture_perm = no_perm;
  log_file_perm = no_perm;
  capture_format = "";
  profile_name = "";
  stages = no_stages;
  shutdown_grace = pos 0;
}

kind_of-local : (rt : String) → kind_of rt ≡ terminal_local
kind_of-local rt = if-elim (λ k. k ≡ terminal_local) _ (λ _. refl) (λ _. refl)

metadata_dir-place :
    (n : Naming) (p : Params) → (apply_param_defaults n p).metadata_dir ≡ metadata_place n p
unfolding apply_param_defaults
metadata_dir-place n p = elim (Bool-cases (is_empty p.log_file)) [
  | inl a ↦ rw a refl
  | inr a ↦ elim (Bool-cases (is_empty p.capture_file)) [
    | inl b ↦ rw (a, b) refl
    | inr b ↦ elim (Bool-cases (is_empty p.socket_file)) [
      | inl c ↦ rw (a, b, c) refl
      | inr c ↦ elim (Bool-cases (is_empty p.metadata_dir)) [
        | inl d ↦ rw (a, b, c, d) refl
        | inr d ↦ rw (a, b, c, d) refl
      ]
    ]
  ]
]

with_metadata_dir : String → TerminalSpec → TerminalSpec
with_metadata_dir m s = record s { metadata_dir = m }

pub laid-of_profile :
    (n : Naming) (p : Params) (d : ProfileDoc)
    → laid (completed n p) (profile_spec d) ≡ described n p (of_profile d)
unfolding laid profile_spec add_input_values_to_terminal apply_param_defaults with_metadata_dir
laid-of_profile n p d =
    ap (λ k. with_kind k (laid (completed n p) (profile_spec d))) (kind_of-local d.run_target)
    ∙ ap (λ m. with_metadata_dir m (described n p (of_profile d))) (metadata_dir-place n p)
  where
    with_kind : TerminalKind → TerminalSpec → TerminalSpec
    with_kind k s = record s { kind = k }

pub laid-of_command :
    (n : Naming) (p : Params)
    → laid (apply_param_defaults n p) (inline_spec (apply_param_defaults n p))
      ≡ described n p (of_command p)
unfolding laid add_input_values_to_terminal apply_param_defaults with_metadata_dir
laid-of_command n p =
    ap (λ m. with_metadata_dir m (described n p (of_command p))) (metadata_dir-place n p)
