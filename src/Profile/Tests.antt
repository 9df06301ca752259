-- ===== src/Profile/Tests.antt =====
-- A directory with two files of profiles, and the specifications that are built from one and inline.
use sbsh.Base.{
  ◌≡◌, ◌↔◌, refl, true, ◌⊎◌, inl, inr, Option, none, some, List, [], ◌∷◌, String, is_empty, length,
  ◌+◌, if◌then◌else◌,
}
use sbsh.Errdefs.{Error, message}
use sbsh.Process.{pos}
use sbsh.Profile.{ProfileDoc, not_octal, out_of_range, bits_outside, no_stages, ExecStep}
use sbsh.Profile.Builder.{params_from_config}
use sbsh.Profile.Load.{
  Yaml, Entry, directory, regular, Stat, absent, walked, FileSystem, collect_entries,
  collect_yaml_files, load_files, load_profiles_from_dir, validate_required_fields,
  decode_documents, add_profiles, find_named, found, find_profile_by_name_in_dir,
}
use sbsh.Profile.Load.Counted.{all_contents, load_files-all_contents}
use sbsh.Profile.Load.Found.{documents, first_accepted, find_profile_by_name_in_dir-first_accepted}
use sbsh.Profile.Mode.{parse_digits, parse_uint, parse_file_mode}
use sbsh.Profile.Mode.Octal.{IsMode, parse_file_mode-IsMode}
use sbsh.Profile.Options.{
  TerminalOption, with_stages, with_on_init, with_socket_mode, empty_config, apply_option,
  apply_options,
}
use sbsh.Profile.Params.{Params, Naming, overlay_stages}
use sbsh.Profile.Stages.{stage_options, stages_of}
use sbsh.Profile.Stages.Later.{overlay_stages-stages_of}
use sbsh.Scan.{sort_stable, insert_stable}
use text.Mathlib.Text.{◌==◌}

octal : parse_file_mode "0660" ≡ inr 0o660
unfolding parse_file_mode parse_uint parse_digits
octal = refl

eight : parse_file_mode "0680" ≡ inl not_octal
unfolding parse_file_mode parse_uint parse_digits
eight = refl

too_many_bits : parse_file_mode "10000" ≡ inl (bits_outside 0o10000)
unfolding parse_file_mode parse_uint parse_digits
too_many_bits = refl

too_large : parse_file_mode "40000000000" ≡ inl out_of_range
unfolding parse_file_mode parse_uint parse_digits
too_large = refl

parse_file_mode-IsMode_example : (parse_file_mode "0660" ≡ inr 0o660) ↔ IsMode "0660" 0o660
parse_file_mode-IsMode_example = parse_file_mode-IsMode "0660" 0o660

abbrev dev : ProfileDoc
dev = record {
  api_version = "sbsh/v1beta1";
  kind = "TerminalProfile";
  name = "dev";
  labels = [];
  run_target = "local";
  shell = record {
    cwd = "/src";
    cmd = "bash";
    cmd_args = [];
    env = ("B", "2") ∷ ("A", "1") ∷ [];
    env_inherit = true;
    prompt = "";
  };
  stages = no_stages;
  socket = some (record { mode = "0660"; gid = some (pos 7) });
  capture = none;
  log_file = none;
  capture_format = "";
}

abbrev copy : ProfileDoc
copy = record dev { capture_format = "raw" }

abbrev nameless : ProfileDoc
nameless = record dev { name = "" }

abbrev read : String → Error ⊎ Yaml
read path =
    if path == "/p/a.yaml"
    then inr (record { docs = nameless ∷ dev ∷ []; broken = none })
    else if path == "/p/b.yml"
    then inr (record { docs = copy ∷ []; broken = some (message "mapping values") })
    else inl (message "no such file")

abbrev entries : List Entry
entries =
    directory "/p"
    ∷ regular "/p/b.yml" ".yml"
    ∷ regular "/p/README" ""
    ∷ regular "/p/a.yaml" ".yaml"
    ∷ []

abbrev stat : String → Stat
stat dir = if dir == "/p" then walked entries else absent

abbrev fs : FileSystem
fs = record { stat = stat; read = read }

dev_found : find_profile_by_name_in_dir fs "/p" "dev" ≡ inr dev
unfolding find_profile_by_name_in_dir load_profiles_from_dir collect_yaml_files collect_entries
    sort_stable insert_stable load_files add_profiles decode_documents validate_required_fields
    find_named is_empty
dev_found = refl

find_profile_by_name_in_dir-first_accepted_example :
    find_profile_by_name_in_dir fs "/p" "dev"
    ≡ found (first_accepted "dev" (documents read (collect_yaml_files entries).0))
unfolding is_empty
find_profile_by_name_in_dir-first_accepted_example =
    find_profile_by_name_in_dir-first_accepted fs "/p" "dev" entries refl refl

load_files-all_contents_example :
    let l =
      load_files read
        ("/p/a.yaml" ∷ "/p/b.yml" ∷ [])
        (record { seen = []; profiles = []; warnings = [] }) in
    length l.profiles + length l.warnings
    ≡ 0 + 0 + all_contents read ("/p/a.yaml" ∷ "/p/b.yml" ∷ [])
load_files-all_contents_example =
    load_files-all_contents read ("/p/a.yaml" ∷ "/p/b.yml" ∷ [])
      (record { seen = []; profiles = []; warnings = [] })

abbrev join : List String → String
join parts = "/run/terminals/t1/file"

abbrev dir_of : String → String
dir_of path = "/run/terminals/t1"

abbrev naming : Naming
naming = record { random_id = "t1"; random_name = "lucky_ada"; join = join; dir = dir_of }

abbrev params : Params
params =
    record (params_from_config (apply_options (some (with_socket_mode "0600") ∷ []) empty_config)
      "/run") { profile_name = "dev"; profiles_dir = "/p" }

abbrev exec : String → ExecStep
exec script = record { script = script; env = [] }

abbrev options : List (Option TerminalOption)
options =
    some (with_stages (record { on_init = []; post_attach = exec "echo hello" ∷ [] }))
    ∷ none
    ∷ some (with_on_init (exec "cd /src" ∷ []))
    ∷ []

-- `WithOnInit` after `WithStages` drops the steps after attaching.
post_attach_dropped :
    overlay_stages (params_from_config (apply_options options empty_config) "/run") no_stages
    ≡ record { on_init = exec "cd /src" ∷ []; post_attach = [] }
unfolding apply_options apply_option
post_attach_dropped = refl

overlay_stages-stages_of_example :
    overlay_stages (params_from_config (apply_options options empty_config) "/run") no_stages
    ≡ stages_of (stage_options options) no_stages
overlay_stages-stages_of_example = overlay_stages-stages_of options "/run" no_stages
