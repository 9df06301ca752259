-- ===== src/Profile/Load.antt =====
-- pkg/discovery/profiles.go: the profiles of a directory. The walk of the directory, in the order
-- of its calls, and the documents that the YAML decoder reads of a file are arguments.
pub mod Unique
pub mod Found
pub mod Counted
use sbsh.Base.{
  ℕ, suc, Bool, true, false, not, ◌&&◌, ◌||◌, ◌⊎◌, inl, inr, Option, none, some, List, [], ◌∷◌,
  ◌++◌, String, is_empty, if◌then◌else◌,
}
use sbsh.Errdefs.{Error, context, message}
use sbsh.Profile.{ProfileDoc}
use sbsh.Profile.Create.{sort_strings}
use sbsh.Validate.{api_version_v1beta1, kind_terminal_profile}
use text.Mathlib.Text.{◌==◌}

-- Why a part of the directory is passed over.
pub data Reason : Type 0 where
  walk_failed open_failed malformed : Error → Reason
  missing_api_version missing_kind missing_name : Reason
  unsupported_api_version unsupported_kind : String → Reason
  duplicate_name : String → String → Reason

-- `ProfileWarning`: the index is 0 for a warning about the file.
pub record ProfileWarning : Type 0 where
  pub file : String
  pub doc_index : ℕ
  pub reason : Reason

-- What the decoder reads of a file: documents, and then the end or an error.
pub record Yaml : Type 0 where
  pub docs : List ProfileDoc
  pub broken : Option Error

-- A call of the walk: an entry that cannot be read, a directory, or a file with its extension in
-- lower case.
pub data Entry : Type 0 where
  unreadable : String → Error → Entry
  directory : String → Entry
  regular : String → String → Entry

pub data Stat : Type 0 where
  absent not_directory : Stat
  stat_failed : Error → Stat
  walked : List Entry → Stat

pub record FileSystem : Type 0 where
  pub stat : String → Stat
  pub read : String → Error ⊎ Yaml

abbrev pub is_yaml : String → Bool
is_yaml ext = (ext == ".yaml") || (ext == ".yml")

abbrev pub collected : Entry → List String × List ProfileWarning → List String × List ProfileWarning
collected (unreadable path e) (fs, ws) =
    (fs, record { file = path; doc_index = 0; reason = walk_failed e } ∷ ws)
collected (directory path) (fs, ws) = (fs, ws)
collected (regular path ext) (fs, ws) = if is_yaml ext then (path ∷ fs, ws) else (fs, ws)

unfoldable pub collect_entries : List Entry → List String × List ProfileWarning
collect_entries [] = ([], [])
collect_entries (e ∷ es) = collected e (collect_entries es)

-- `collectYAMLFiles`.
unfoldable pub collect_yaml_files : List Entry → List String × List ProfileWarning
unfolding collect_entries
collect_yaml_files es = let (fs, ws) = collect_entries es in (sort_strings fs, ws)

-- `validateRequiredFields`: the warning, when there is one.
unfoldable pub validate_required_fields : ProfileDoc → Option Reason
validate_required_fields p =
    if is_empty p.api_version
    then some missing_api_version
    else if not (p.api_version == api_version_v1beta1)
    then some (unsupported_api_version p.api_version)
    else if is_empty p.kind
    then some missing_kind
    else if not (p.kind == kind_terminal_profile)
    then some (unsupported_kind p.kind)
    else if is_empty p.name
    then some missing_name
    else none

abbrev pub is_blank : ProfileDoc → Bool
is_blank p = is_empty p.api_version && (is_empty p.kind && is_empty p.name)

abbrev pub Loaded : Type 0
Loaded = List ProfileDoc × List ProfileWarning

abbrev pub keep_valid : String → ℕ → ProfileDoc → Option Reason → Loaded → Loaded
keep_valid file n p (some r) (ps, ws) = (ps, record { file = file; doc_index = n; reason = r } ∷ ws)
keep_valid file n p none (ps, ws) = (p ∷ ps, ws)

abbrev pub stream_end : String → ℕ → Option Error → Loaded
stream_end file n none = ([], [])
stream_end file n (some e) =
    ([], record { file = file; doc_index = suc n; reason = malformed e } ∷ [])

-- The loop of `decodeProfileStream`, after `n` documents.
unfoldable pub decode_documents : String → ℕ → List ProfileDoc → Option Error → Loaded
unfolding validate_required_fields
decode_documents file n [] broken = stream_end file n broken
decode_documents file n (p ∷ ps) broken =
    let rest = decode_documents file (suc n) ps broken in
    if is_blank p then rest else keep_valid file (suc n) p (validate_required_fields p) rest

-- `decodeProfileStream`.
abbrev pub decode_profile_stream : String → Yaml → Loaded
decode_profile_stream file y = decode_documents file 0 y.docs y.broken

-- `loadProfilesFromFile`.
abbrev pub load_profiles_from_file : String → Error ⊎ Yaml → Loaded
load_profiles_from_file file (inl e) =
    ([], record { file = file; doc_index = 0; reason = open_failed e } ∷ [])
load_profiles_from_file file (inr y) = decode_profile_stream file y

-- `seen`: the names that are loaded, each with its file.
abbrev pub owner : String → List (String × String) → Option String
owner name [] = none
owner name ((n, f) ∷ seen) = let rest = owner name seen in if n == name then some f else rest

-- What the loops keep: the names seen, the profiles and the warnings.
pub record Loading : Type 0 where
  pub seen : List (String × String)
  pub profiles : List ProfileDoc
  pub warnings : List ProfileWarning

abbrev pub add_unseen : String → ProfileDoc → Option String → Loading → Loading
add_unseen file p (some other) l = record l {
  warnings =
      l.warnings
      ++ record { file = file; doc_index = 0; reason = duplicate_name p.name other } ∷ [];
}
add_unseen file p none l = record l {
  seen = (p.name, file) ∷ l.seen;
  profiles = l.profiles ++ p ∷ [];
}

unfoldable pub add_profiles : String → List ProfileDoc → Loading → Loading
add_profiles file [] l = l
add_profiles file (p ∷ ps) l = add_profiles file ps (add_unseen file p (owner p.name l.seen) l)

abbrev pub add_file : String → Loaded → Loading → Loading
add_file file (ps, ws) l = add_profiles file ps (record l { warnings = l.warnings ++ ws })

-- The loop of `LoadProfilesFromDir` over the files.
unfoldable pub load_files : (String → Error ⊎ Yaml) → List String → Loading → Loading
unfolding add_profiles decode_documents
load_files read [] l = l
load_files read (f ∷ fs) l = load_files read fs (add_file f (load_profiles_from_file f (read f)) l)

abbrev pub load_collected : (String → Error ⊎ Yaml) → List String × List ProfileWarning → Loaded
load_collected read (fs, ws) =
    let l = load_files read fs (record { seen = []; profiles = []; warnings = ws }) in
    (l.profiles, l.warnings)

abbrev pub load_stat : FileSystem → String → Stat → Error ⊎ Loaded
load_stat fs dir absent = inr ([], [])
load_stat fs dir (stat_failed e) = inl (context "stat profiles dir" e)
load_stat fs dir not_directory = inl (message "profiles path is not a directory")
load_stat fs dir (walked es) = inr (load_collected fs.read (collect_yaml_files es))

-- `LoadProfilesFromDir`.
unfoldable pub load_profiles_from_dir : FileSystem → String → Error ⊎ Loaded
unfolding load_files collect_yaml_files
load_profiles_from_dir fs dir =
    if is_empty dir then inr ([], []) else load_stat fs dir (fs.stat dir)

unfoldable pub find_named : String → List ProfileDoc → Option ProfileDoc
find_named name [] = none
find_named name (p ∷ ps) = let rest = find_named name ps in if p.name == name then some p else rest

abbrev pub found : Option ProfileDoc → Error ⊎ ProfileDoc
found none = inl (message "profile not found")
found (some p) = inr p

abbrev pub find_loaded : String → Error ⊎ Loaded → Error ⊎ ProfileDoc
find_loaded name (inl e) = inl e
find_loaded name (inr (ps, ws)) = found (find_named name ps)

-- `FindProfileByNameInDir`, without the warnings, which are those of the load.
unfoldable pub find_profile_by_name_in_dir : FileSystem → String → String → Error ⊎ ProfileDoc
unfolding load_profiles_from_dir find_named
find_profile_by_name_in_dir fs dir name = find_loaded name (load_profiles_from_dir fs dir)
