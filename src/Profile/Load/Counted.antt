-- ===== src/Profile/Load/Counted.antt =====
-- What the loading of profiles passes over leaves a warning.
use sbsh.Base.{
  ℕ, suc, ◌+◌, ◌≡◌, refl, ◌⊎◌, inl, inr, Option, none, some, List, [], ◌∷◌, ◌++◌, String,
  if◌then◌else◌, Bool-cases, arith, length, length-append,
}
use sbsh.Errdefs.{Error}
use sbsh.Profile.{ProfileDoc}
use sbsh.Profile.Load.{
  Reason, duplicate_name, Yaml, validate_required_fields, is_blank, Loaded, keep_valid,
  decode_documents, load_profiles_from_file, owner, Loading, add_unseen, add_profiles, add_file,
  load_files,
}

abbrev pub present : Option Error → ℕ
present none = 0
present (some e) = 1

-- The documents that are not blank.
unfoldable pub written : List ProfileDoc → ℕ
written [] = 0
written (p ∷ ps) = let rest = written ps in if is_blank p then rest else suc rest

-- What a file holds: its documents, and one for what cannot be decoded or opened.
abbrev pub contents : Error ⊎ Yaml → ℕ
contents (inl e) = 1
contents (inr y) = written y.docs + present y.broken

abbrev pub all_contents : (String → Error ⊎ Yaml) → List String → ℕ
all_contents read [] = 0
all_contents read (f ∷ fs) = contents (read f) + all_contents read fs

size : Loaded → ℕ
size (ps, ws) = length ps + length ws

size-keep_valid :
    (file : String) (n : ℕ) (p : ProfileDoc) (o : Option Reason) (rest : Loaded)
    → size (keep_valid file n p o rest) ≡ suc (size rest)
unfolding size
size-keep_valid file n p none (ps, ws) = omega arith
size-keep_valid file n p (some r) (ps, ws) = omega arith

size-decode_documents :
    (file : String) (n : ℕ) (ps : List ProfileDoc) (broken : Option Error)
    → size (decode_documents file n ps broken) ≡ written ps + present broken
unfolding decode_documents written size
size-decode_documents file n [] none = refl
size-decode_documents file n [] (some e) = refl
size-decode_documents file n (p ∷ ps) broken =
    let ih = size-decode_documents file (suc n) ps broken in
    let one =
      size-keep_valid file (suc n) p (validate_required_fields p)
        (decode_documents file (suc n) ps broken) in
    elim (Bool-cases (is_blank p)) [ inl h ↦ rw h ih | inr h ↦ rw h (omega (arith, ih, one)) ]

size-load_profiles_from_file :
    (file : String) (r : Error ⊎ Yaml) → size (load_profiles_from_file file r) ≡ contents r
unfolding size
size-load_profiles_from_file file (inl e) = refl
size-load_profiles_from_file file (inr y) = size-decode_documents file 0 y.docs y.broken

loaded_size : Loading → ℕ
loaded_size l = length l.profiles + length l.warnings

loaded_size-add_unseen :
    (file : String) (p : ProfileDoc) (o : Option String) (l : Loading)
    → loaded_size (add_unseen file p o l) ≡ suc (loaded_size l)
unfolding loaded_size
loaded_size-add_unseen file p none l = omega (arith, length-append l.profiles (p ∷ []))
loaded_size-add_unseen file p (some other) l = omega (
  arith,
  length-append l.warnings
      (record { file = file; doc_index = 0; reason = duplicate_name p.name other } ∷ []),
)

loaded_size-add_profiles :
    (file : String) (ps : List ProfileDoc) (l : Loading)
    → loaded_size (add_profiles file ps l) ≡ loaded_size l + length ps
unfolding add_profiles
loaded_size-add_profiles file [] l = omega arith
loaded_size-add_profiles file (p ∷ ps) l = omega (
  arith,
  loaded_size-add_profiles file ps (add_unseen file p (owner p.name l.seen) l),
  loaded_size-add_unseen file p (owner p.name l.seen) l,
)

loaded_size-add_file :
    (file : String) (r : Loaded) (l : Loading)
    → loaded_size (add_file file r l) ≡ loaded_size l + size r
unfolding loaded_size size
loaded_size-add_file file (ps, ws) l = omega (
  arith,
  loaded_size-add_profiles file ps (record l { warnings = l.warnings ++ ws }),
  length-append l.warnings ws,
)

added :
    (file : String) (r : Error ⊎ Yaml) (l : Loading)
    → let m = add_file file (load_profiles_from_file file r) l in
      length m.profiles + length m.warnings ≡ length l.profiles + length l.warnings + contents r
unfolding loaded_size
added file r l = omega (
  arith,
  loaded_size-add_file file (load_profiles_from_file file r) l,
  size-load_profiles_from_file file r,
)

-- Each document that is not blank, each file that cannot be opened and each part that cannot be
-- decoded gives either one profile that is loaded or one warning.
pub load_files-all_contents :
    (read : String → Error ⊎ Yaml) (fs : List String) (l : Loading)
    → length (load_files read fs l).profiles + length (load_files read fs l).warnings
      ≡ length l.profiles + length l.warnings + all_contents read fs
unfolding load_files
load_files-all_contents read [] l = omega arith
load_files-all_contents read (f ∷ fs) l =
    let r = load_profiles_from_file f (read f) in
    omega (arith, load_files-all_contents read fs (add_file f r l), added f (read f) l)
