-- ===== src/Validate.antt =====
-- internal/profile/validate.go: the validation of a file of profile documents. The YAML decoder and
-- the search of PATH are arguments: what they answer for each document. An error that the code
-- formats is a constructor with the values that it names.
pub mod Valid
mod Tests
use sbsh.Base.{
  ℕ, suc, ◌+◌, Bool, true, false, not, ◌&&◌, ◌||◌, Option, none, some, List, [], ◌∷◌, ◌++◌, String,
  if◌then◌else◌, is_empty,
}
use sbsh.Errdefs.{Error, context}
use text.Mathlib.Text.{◌==◌}

-- The fields of an `api.TerminalProfileDoc` that are validated.
pub record ProfileDoc : Type 0 where
  pub api_version : String
  pub kind : String
  pub name : String
  pub cmd : String
  pub run_target : String
  pub restart_policy : String

pub data Issue : Type 0 where
  undecoded strict : Error → Issue
  api_version_required kind_required name_required cmd_required : Issue
  api_version_unsupported kind_unsupported : String → Issue
  run_target_unknown restart_policy_unknown : String → Issue
  cmd_not_found : String → Error → Issue

abbrev pub api_version_v1beta1 : String
api_version_v1beta1 = "sbsh/v1beta1"

abbrev pub kind_terminal_profile : String
kind_terminal_profile = "TerminalProfile"

abbrev pub issue_if : Bool → Issue → List Issue
issue_if b i = if b then i ∷ [] else []

abbrev pub required : String → String → Issue → (String → Issue) → List Issue
required s want missing other =
    if is_empty s then missing ∷ [] else if s == want then [] else other s ∷ []

abbrev pub is_local_run_target : String → Bool
is_local_run_target rt = (rt == "local") || is_empty rt

abbrev pub validate_run_target : String → List Issue
validate_run_target rt = issue_if (not (is_local_run_target rt)) (run_target_unknown rt)

abbrev pub is_restart_policy : String → Bool
is_restart_policy rp =
    ((rp == "exit") || (rp == "restart-unlimited")) || ((rp == "restart-on-error") || is_empty rp)

abbrev pub validate_restart_policy : String → List Issue
validate_restart_policy rp = issue_if (not (is_restart_policy rp)) (restart_policy_unknown rp)

abbrev pub validate_cmd_in_path : Option Error → String → List Issue
validate_cmd_in_path none cmd = []
validate_cmd_in_path (some e) cmd = cmd_not_found cmd e ∷ []

-- The checks' issues, appended in their order.
abbrev pub append_all : List (List Issue) → List Issue
append_all [] = []
append_all (i ∷ is) = i ++ append_all is

abbrev pub validate_local_cmd : (String → Option Error) → String → String → List Issue
validate_local_cmd look_path cmd rt =
    if not (is_empty cmd) && is_local_run_target rt
    then validate_cmd_in_path (look_path cmd) cmd
    else []

-- The checks of a document, in order; `look_path` is `exec.LookPath`.
abbrev pub checks : (String → Option Error) → ProfileDoc → List (List Issue)
checks look_path p =
    required p.api_version api_version_v1beta1 api_version_required api_version_unsupported
    ∷ required p.kind kind_terminal_profile kind_required kind_unsupported
    ∷ issue_if (is_empty p.name) name_required
    ∷ issue_if (is_empty p.cmd) cmd_required
    ∷ validate_run_target p.run_target
    ∷ validate_restart_policy p.restart_policy
    ∷ validate_local_cmd look_path p.cmd p.run_target
    ∷ []

-- `validateProfileDoc`.
unfoldable pub validate_profile_doc : (String → Option Error) → ProfileDoc → List Issue
validate_profile_doc look_path p = append_all (checks look_path p)

-- A YAML document: one that no profile can be decoded from, or a profile with the error of the
-- strict decoding.
pub data Node : Type 0 where
  undecodable : Error → Node
  decoded : ProfileDoc → Option Error → Node

pub record ProfileValidationResult : Type 0 where
  pub doc_index : ℕ
  pub profile_name : String
  pub errors : List Issue

abbrev pub strict_issue : Option Error → List Issue
strict_issue none = []
strict_issue (some e) = strict e ∷ []

-- `validateOneDocument`.
unfoldable pub validate_one_document : (String → Option Error) → ℕ → Node → ProfileValidationResult
unfolding validate_profile_doc
validate_one_document look_path n (undecodable e) = record {
  doc_index = n;
  profile_name = "";
  errors = undecoded e ∷ [];
}
validate_one_document look_path n (decoded p s) = record {
  doc_index = n;
  profile_name = p.name;
  errors = strict_issue s ++ validate_profile_doc look_path p;
}

-- What the decoder answers: documents, and then the end or an error.
pub record Stream : Type 0 where
  pub nodes : List Node
  pub broken : Option Error

abbrev pub parse_error : Option Error → Option Error
parse_error none = none
parse_error (some e) = some (context "parse profile document" e)

-- The end of the documents, or a document that cannot be parsed.
abbrev pub stream_end : Option Error → ℕ → List ProfileValidationResult
stream_end none n = []
stream_end (some e) n =
    record { doc_index = suc n; profile_name = ""; errors = undecoded e ∷ [] } ∷ []

-- The loop of `ValidateProfilesFromReader`, after `n` documents: the results, and the error.
unfoldable pub validate_profiles :
    (String → Option Error)
    → Option Error
    → ℕ
    → List Node
    → List ProfileValidationResult × Option Error
unfolding validate_one_document
validate_profiles look_path o n [] = (stream_end o n, parse_error o)
validate_profiles look_path o n (d ∷ ds) =
    let (rs, e) = validate_profiles look_path o (suc n) ds in
    (validate_one_document look_path (suc n) d ∷ rs, e)

-- `ValidateProfilesFromReader`.
unfoldable pub validate_profiles_from_reader :
    (String → Option Error) → Stream → List ProfileValidationResult × Option Error
unfolding validate_profiles
validate_profiles_from_reader look_path s = validate_profiles look_path s.broken 0 s.nodes

abbrev pub is_nil : List Issue → Bool
is_nil [] = true
is_nil (i ∷ is) = false

-- `OK`.
abbrev pub ok : ProfileValidationResult → Bool
ok r = is_nil r.errors
