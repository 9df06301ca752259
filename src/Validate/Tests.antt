-- ===== src/Validate/Tests.antt =====
-- A file with a profile that is valid and one whose kind is missing and whose command is unknown.
use sbsh.Base.{
  ◌≡◌, ◌↔◌, refl, true, false, Option, none, some, String, [], ◌∷◌, is_empty, if◌then◌else◌,
}
use sbsh.Errdefs.{Error, message}
use sbsh.Validate.{
  parse_error, ProfileDoc, kind_required, cmd_not_found, decoded, Stream, validate_profile_doc,
  validate_profiles_from_reader, validate_profiles, validate_one_document,
}
use sbsh.Validate.Valid.{AllValid, all_ok, validate_profiles_from_reader-AllValid}
use text.Mathlib.Text.{◌==◌}

abbrev look_path : String → Option Error
look_path cmd = if cmd == "bash" then none else some (message "executable file not found in $PATH")

abbrev good : ProfileDoc
good = record {
  api_version = "sbsh/v1beta1";
  kind = "TerminalProfile";
  name = "dev";
  cmd = "bash";
  run_target = "local";
  restart_policy = "";
}

abbrev bad : ProfileDoc
bad = record {
  api_version = "sbsh/v1beta1";
  kind = "";
  name = "dev";
  cmd = "bsh";
  run_target = "";
  restart_policy = "exit";
}

abbrev file : Stream
file = record { nodes = decoded good none ∷ decoded bad none ∷ []; broken = none }

issues :
    validate_profile_doc look_path bad
    ≡ kind_required ∷ cmd_not_found "bsh" (message "executable file not found in $PATH") ∷ []
unfolding validate_profile_doc is_empty
issues = refl

failing : all_ok (validate_profiles_from_reader look_path file).0 ≡ false
unfolding validate_profiles_from_reader validate_profiles validate_one_document validate_profile_doc
    is_empty
failing = refl

validate_profiles_from_reader-AllValid_example :
    ((all_ok (validate_profiles_from_reader look_path file).0 ≡ true)
      ↔ (AllValid look_path file.nodes × (file.broken ≡ none)))
    × ((validate_profiles_from_reader look_path file).1 ≡ parse_error file.broken)
validate_profiles_from_reader-AllValid_example =
    validate_profiles_from_reader-AllValid look_path file
