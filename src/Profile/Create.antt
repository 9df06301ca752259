-- ===== src/Profile/Create.antt =====
-- internal/profile/profile.go: CreateTerminalFromProfile, the permission blocks of a profile and the
-- capture format (pkg/api/terminal.go).
use sbsh.Base.{
  ℕ, Bool, true, false, not, ◌||◌, ◌⊎◌, inl, inr, Option, none, some, List, [], ◌∷◌, map, String,
  is_empty, if◌then◌else◌,
}
use sbsh.Process.{ℤ, pos, negsuc}
use sbsh.Profile.{
  ◌>>=◌, FilePermSpec, ProfileDoc, Perm, no_perm, TerminalKind, terminal_local, TerminalSpec,
  Artifact, socket, capture, log_file, ModeError, Failure, nil_profile, version_or_kind_missing,
  name_missing, invalid_kind, cmd_missing, invalid_capture_format, invalid_profile_mode,
  negative_profile_gid, invalid_profile_format,
}
use sbsh.Profile.Mode.{parse_file_mode}
use sbsh.Scan.{sort_stable}
use sbsh.Validate.{kind_terminal_profile}
use Prim.Native.String.{◌++◌ as append, compare}
use text.Mathlib.Text.{◌==◌, is_lt}

abbrev pub negative : ℤ → Bool
negative (pos n) = false
negative (negsuc n) = true

-- Go's order of strings, by their bytes.
abbrev pub less : String → String → Bool
less a b = is_lt (compare a b)

abbrev pub key_of : String → String
key_of k = k

-- `sort.Strings`.
abbrev pub sort_strings : List String → List String
sort_strings ks = sort_stable key_of key_of less ks

-- `m[k]`, which is empty for a key that is missing.
abbrev pub value_of : List (String × String) → String → String
value_of [] k = ""
value_of ((j, v) ∷ m) k = let rest = value_of m k in if j == k then v else rest

-- The variables of a map, as `KEY=VAL` by the order of the keys.
unfoldable pub env_entries : List (String × String) → List String
env_entries m = map (λ k. append k (append "=" (value_of m k))) (sort_strings (map (λ e. e.0) m))

-- The guards of a profile, in their order.
abbrev pub check_profile : ProfileDoc → Option Failure
check_profile p =
    if is_empty p.api_version || is_empty p.kind
    then some version_or_kind_missing
    else if not (p.kind == kind_terminal_profile)
    then some (invalid_kind p.kind)
    else if is_empty p.name
    then some name_missing
    else if is_empty p.shell.cmd
    then some (cmd_missing p.name)
    else none

-- Every target is run locally for now.
abbrev pub kind_of : String → TerminalKind
kind_of rt = if (rt == "local") || is_empty rt then terminal_local else terminal_local

abbrev pub set_mode : (ModeError → Failure) → Perm → ModeError ⊎ ℕ → Failure ⊎ Perm
set_mode err p (inl e) = inl (err e)
set_mode err p (inr m) = inr (record p { mode = m })

-- A mode that is not empty is parsed and replaces the one there.
abbrev pub apply_mode : (ModeError → Failure) → String → Perm → Failure ⊎ Perm
apply_mode err raw p = if is_empty raw then inr p else set_mode err p (parse_file_mode raw)

abbrev pub apply_profile_gid : Option ℤ → String → Artifact → Perm → Failure ⊎ Perm
apply_profile_gid none name a p = inr p
apply_profile_gid (some g) name a p =
    if negative g then inl (negative_profile_gid a name g) else inr (record p { gid = some g })

-- `applyProfilePermBlock`.
abbrev pub apply_profile_perm_block :
    Option FilePermSpec → String → Artifact → Perm → Failure ⊎ Perm
apply_profile_perm_block none name a p = inr p
apply_profile_perm_block (some b) name a p =
    apply_mode (invalid_profile_mode a name) b.mode p >>= λ q. apply_profile_gid b.gid name a q

-- `NormalizeCaptureFormat`.
abbrev pub normalize_capture_format : String → Failure ⊎ String
normalize_capture_format s =
    if is_empty s || (s == "raw")
    then inr "raw"
    else if s == "asciicast"
    then inr "asciicast"
    else inl (invalid_capture_format s)

abbrev pub set_format :
    (Failure → Failure) → TerminalSpec → Failure ⊎ String → Failure ⊎ TerminalSpec
set_format err spec (inl e) = inl (err e)
set_format err spec (inr f) = inr (record spec { capture_format = f })

-- A format that is not empty is checked and replaces the one there.
abbrev pub apply_format : (Failure → Failure) → String → TerminalSpec → Failure ⊎ TerminalSpec
apply_format err raw spec =
    if is_empty raw then inr spec else set_format err spec (normalize_capture_format raw)

-- What a profile fills of a specification, before the permissions and the format.
abbrev pub spec_of : ProfileDoc → TerminalSpec
spec_of p = record {
  id = "";
  kind = kind_of p.run_target;
  name = "";
  labels = p.labels;
  cwd = p.shell.cwd;
  command = p.shell.cmd;
  command_args = p.shell.cmd_args;
  env_inherit = p.shell.env_inherit;
  env = env_entries p.shell.env;
  prompt = p.shell.prompt;
  set_prompt = true;
  run_path = "";
  capture_file = "";
  log_file = "";
  log_level = "";
  socket_file = "";
  metadata_dir = "";
  socket_perm = no_perm;
  capture_perm = no_perm;
  log_file_perm = no_perm;
  capture_format = "";
  profile_name = p.name;
  stages = p.stages;
  shutdown_grace = pos 0;
}

abbrev pub apply_profile_perms : ProfileDoc → TerminalSpec → Failure ⊎ TerminalSpec
apply_profile_perms p s = apply_profile_perm_block p.socket p.name socket s.socket_perm >>= λ a.
    apply_profile_perm_block p.capture p.name capture s.capture_perm >>= λ b.
    apply_profile_perm_block p.log_file p.name log_file s.log_file_perm >>= λ c.
    inr (record s { socket_perm = a; capture_perm = b; log_file_perm = c })

abbrev pub create_checked : ProfileDoc → Option Failure → Failure ⊎ TerminalSpec
create_checked p (some e) = inl e
create_checked p none = apply_profile_perms p (spec_of p) >>= λ s.
    apply_format (invalid_profile_format p.name) p.capture_format s

-- `CreateTerminalFromProfile`.
unfoldable pub create_terminal_from_profile : Option ProfileDoc → Failure ⊎ TerminalSpec
unfolding env_entries
create_terminal_from_profile none = inl nil_profile
create_terminal_from_profile (some p) = create_checked p (check_profile p)
