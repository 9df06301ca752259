-- ===== src/Scan.antt =====
-- pkg/discovery/scan.go, terminals.go and clients.go: the scan of the metadata files and the lookups
-- by ID and by name. What the directory, the files and the decoder answer is an argument, as is Go's
-- order of strings.
pub mod Found
mod Tests
use sbsh.Base.{
  Bool, true, false, not, ◌&&◌, ◌||◌, ◌⊎◌, inl, inr, Option, none, some, List, [], ◌∷◌, ◌++◌,
  String, if◌then◌else◌,
}
use sbsh.Errdefs.{Error, context, message}
use text.Mathlib.Text.{◌==◌}

-- One metadata file: it cannot be read, cannot be decoded, or is loaded.
pub data File {ℓ} (T : Type ℓ) : Type ℓ where
  unreadable undecodable : Error → File T
  loaded : T → File T

module _ {ℓ} {T : Type ℓ} where
  abbrev pub kept : File T → Error ⊎ List T → Error ⊎ List T
  kept f (inl e) = inl e
  kept (unreadable e) (inr ts) = inr ts
  kept (undecodable e) (inr ts) = inr ts
  kept (loaded t) (inr ts) = inr (t ∷ ts)

  abbrev pub scan_file : Option Error → File T → Error ⊎ List T → Error ⊎ List T
  scan_file (some e) f rest = inl e
  scan_file none f rest = kept f rest

  -- The loop of `scanMetadataFiles`; each file comes with the context's error before it is read.
  unfoldable pub scan_files : List (Option Error × File T) → Error ⊎ List T
  scan_files [] = inr []
  scan_files ((o, f) ∷ fs) = scan_file o f (scan_files fs)

  -- `scanMetadataFiles`.
  abbrev pub scan_metadata_files : Error ⊎ List (Option Error × File T) → Error ⊎ List T
  scan_metadata_files (inl e) = inl (context "glob" e)
  scan_metadata_files (inr fs) = scan_files fs

  -- `findMetadataBy`.
  unfoldable pub find_metadata_by : (T → Bool) → String → List T → Error ⊎ T
  find_metadata_by predicate msg [] = inl (message msg)
  find_metadata_by predicate msg (t ∷ ts) =
      let rest = find_metadata_by predicate msg ts in if predicate t then inr t else rest

module _ {ℓ} {T : Type ℓ} (id name : T → String) (less : String → String → Bool) where
  -- Whether `b` comes strictly before `a`, by ID, and by name for equal IDs.
  abbrev pub after : T → T → Bool
  after a b =
      if less (id a) (id b)
      then false
      else if less (id b) (id a)
      then true
      else less (name b) (name a)

  -- `slices.SortStableFunc`, whose result is determined.
  unfoldable pub insert_stable : T → List T → List T
  insert_stable t [] = t ∷ []
  insert_stable t (u ∷ us) =
      let rest = insert_stable t us in if after t u then u ∷ rest else t ∷ u ∷ us

  unfoldable pub sort_stable : List T → List T
  unfolding insert_stable
  sort_stable [] = []
  sort_stable (t ∷ ts) = insert_stable t (sort_stable ts)

  abbrev pub sorted : Error ⊎ List T → Error ⊎ List T
  sorted (inl e) = inl e
  sorted (inr ts) = inr (sort_stable ts)

  -- `ScanTerminals` and `ScanClients`.
  unfoldable pub scan : Error ⊎ List (Option Error × File T) → Error ⊎ List T
  scan files = sorted (scan_metadata_files files)

  abbrev pub find_in : (T → Bool) → String → Error ⊎ List T → Error ⊎ T
  find_in predicate msg (inl e) = inl e
  find_in predicate msg (inr ts) = find_metadata_by predicate msg ts

  -- `FindTerminalByID` and `FindTerminalByName`, and those of clients: `get` is the field.
  unfoldable pub find_by :
      (T → String) → String → String → Error ⊎ List (Option Error × File T) → Error ⊎ T
  unfolding scan
  find_by get key msg files = find_in (λ t. get t == key) msg (scan files)
