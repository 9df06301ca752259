-- ===== src/Profile/Load/Found.antt =====
-- The lookup of a profile by its name, against the documents that the files hold.
use sbsh.Base.{
  ℕ, suc, ◌≡◌, refl, sym, ◌∙◌, ap, Bool, true, false, not, ◌&&◌, ◌⊎◌, inl, inr, Option, none, some,
  List, [], ◌∷◌, ◌++◌, String, is_empty, if◌then◌else◌, Bool-cases,
}
use sbsh.Errdefs.{Error}
use sbsh.Profile.{ProfileDoc}
use sbsh.Profile.Load.{
  Yaml, Entry, walked, FileSystem, collect_yaml_files, validate_required_fields, is_blank,
  missing_api_version, Loaded, keep_valid, decode_documents, load_profiles_from_file,
  load_profiles_from_dir, find_named, found, find_profile_by_name_in_dir,
}
use sbsh.Profile.Load.Unique.{or_else, find_named-append, candidates, load_files-Distinct}
use sbsh.Validate.{api_version_v1beta1, kind_terminal_profile}
use sbsh.Validate.Valid.{empty_version, empty_kind}
use text.Mathlib.Text.{◌==◌}

-- The fields that a profile must have.
abbrev pub is_accepted : ProfileDoc → Bool
is_accepted p =
    (p.api_version == api_version_v1beta1)
    && ((p.kind == kind_terminal_profile) && not (is_empty p.name))

abbrev kept : ProfileDoc → Loaded → List ProfileDoc
kept p (ps, ws) = if is_accepted p then p ∷ ps else ps

keep_valid-kept :
    (p : ProfileDoc) (file : String) (n : ℕ) (rest : Loaded)
    → is_empty p.api_version ≡ false
    → (keep_valid file n p (validate_required_fields p) rest).0 ≡ kept p rest
unfolding validate_required_fields
keep_valid-kept p file n (ps, ws) a = elim (Bool-cases (p.api_version == api_version_v1beta1)) [
  | inr v ↦ rw (a, v) refl
  | inl v ↦ elim (Bool-cases (is_empty p.kind)) [
    | inl b ↦ rw (a, v, b, empty_kind p.kind b) refl
    | inr b ↦ elim (Bool-cases (p.kind == kind_terminal_profile)) [
      | inr k ↦ rw (a, v, b, k) refl
      | inl k ↦ elim (Bool-cases (is_empty p.name)) [
        | inl e ↦ rw (a, v, b, k, e) refl
        | inr e ↦ rw (a, v, b, k, e) refl
      ]
    ]
  ]
]

versionless :
    (p : ProfileDoc)
    → is_empty p.api_version ≡ true
    → validate_required_fields p ≡ some missing_api_version
unfolding validate_required_fields
versionless p h = rw h refl

-- One turn of the loop over the documents.
abbrev turn : String → ℕ → ProfileDoc → Loaded → Loaded
turn file n p rest =
    if is_blank p then rest else keep_valid file n p (validate_required_fields p) rest

turn-kept :
    (p : ProfileDoc) (file : String) (n : ℕ) (rest : Loaded) → (turn file n p rest).0 ≡ kept p rest
turn-kept p file n (ps, ws) = elim (Bool-cases (is_empty p.api_version)) [
  | inr a ↦ rw a (keep_valid-kept p file n (ps, ws) a)
  | inl a ↦ elim (Bool-cases (is_empty p.kind && is_empty p.name)) [
    | inl b ↦ rw (versionless p a, a, b, empty_version p.api_version a) refl
    | inr b ↦ rw (versionless p a, a, b, empty_version p.api_version a) refl
  ]
]

-- The first of the documents that has the name and the fields that a profile must have.
unfoldable pub first_accepted : String → List ProfileDoc → Option ProfileDoc
first_accepted name [] = none
first_accepted name (p ∷ ps) =
    let rest = first_accepted name ps in if is_accepted p && (p.name == name) then some p else rest

find_named-kept :
    (name : String) (p : ProfileDoc) (rest : Loaded) (o : Option ProfileDoc)
    → find_named name rest.0 ≡ o
    → find_named name (kept p rest) ≡ (if is_accepted p && (p.name == name) then some p else o)
unfolding find_named
find_named-kept name p (ps, ws) o h = elim (Bool-cases (is_accepted p)) [
  | inr a ↦ rw a h
  | inl a ↦ rw (a, h) refl
]

find_named-decode_documents :
    (name file : String) (n : ℕ) (ps : List ProfileDoc) (broken : Option Error)
    → find_named name (decode_documents file n ps broken).0 ≡ first_accepted name ps
unfolding decode_documents first_accepted find_named
find_named-decode_documents name file n [] none = refl
find_named-decode_documents name file n [] (some e) = refl
find_named-decode_documents name file n (p ∷ ps) broken =
    let rest = decode_documents file (suc n) ps broken in
    ap (find_named name) (turn-kept p file (suc n) rest)
    ∙ find_named-kept name p rest (first_accepted name ps)
        (find_named-decode_documents name file (suc n) ps broken)

abbrev pub docs_of : Error ⊎ Yaml → List ProfileDoc
docs_of (inl e) = []
docs_of (inr y) = y.docs

-- The documents of the files, in their order, up to what cannot be decoded in each.
abbrev pub documents : (String → Error ⊎ Yaml) → List String → List ProfileDoc
documents read [] = []
documents read (f ∷ fs) = docs_of (read f) ++ documents read fs

first_accepted-append :
    (n : String) (ps qs : List ProfileDoc)
    → first_accepted n (ps ++ qs) ≡ or_else (first_accepted n ps) (first_accepted n qs)
unfolding first_accepted
first_accepted-append n [] qs = refl
first_accepted-append n (p ∷ ps) qs = elim (Bool-cases (is_accepted p && (p.name == n))) [
  | inl h ↦ rw h refl
  | inr h ↦ rw h (first_accepted-append n ps qs)
]

find_named-file :
    (n file : String) (r : Error ⊎ Yaml)
    → find_named n (load_profiles_from_file file r).0 ≡ first_accepted n (docs_of r)
unfolding find_named first_accepted
find_named-file n file (inl e) = refl
find_named-file n file (inr y) = find_named-decode_documents n file 0 y.docs y.broken

find_named-candidates :
    (n : String) (read : String → Error ⊎ Yaml) (fs : List String)
    → find_named n (candidates read fs) ≡ first_accepted n (documents read fs)
unfolding find_named first_accepted
find_named-candidates n read [] = refl
find_named-candidates n read (f ∷ fs) =
    find_named-append n (load_profiles_from_file f (read f)).0 (candidates read fs)
    ∙ rw (find_named-file n f (read f), find_named-candidates n read fs) refl
    ∙ sym (first_accepted-append n (docs_of (read f)) (documents read fs))

-- In a directory that can be walked, `FindProfileByNameInDir` answers the first of all the documents
-- of the YAML files, taken in the order of their paths and up to what cannot be decoded in each,
-- that has the name and the fields that a profile must have, and an error when there is none.
pub find_profile_by_name_in_dir-first_accepted :
    (fs : FileSystem) (dir name : String) (es : List Entry)
    → is_empty dir ≡ false
    → fs.stat dir ≡ walked es
    → find_profile_by_name_in_dir fs dir name
      ≡ found (first_accepted name (documents fs.read (collect_yaml_files es).0))
unfolding find_profile_by_name_in_dir load_profiles_from_dir
find_profile_by_name_in_dir-first_accepted fs dir name es d w =
    let (paths, ws) = collect_yaml_files es in
    rw (d, w)
      (ap found
        ((load_files-Distinct fs.read paths ws).1 name ∙ find_named-candidates name fs.read paths))
