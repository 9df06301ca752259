-- ===== src/Scan/Found.antt =====
-- What a lookup finds among the files.
use sbsh.Base.{
  ◌≡◌, refl, sym, ap, Bool, true, false, ◌⊎◌, inl, inr, Option, none, List, [], ◌∷◌, String,
  if-elim, map,
}
use mathlib.Core.Path.{subst}
use sbsh.Errdefs.{Error}
use sbsh.Scan.{
  File, unreadable, undecodable, loaded, kept, scan_files, find_metadata_by, after, insert_stable,
  sort_stable, sorted, scan, find_in, find_by,
}
use text.Mathlib.Text.{◌==◌}

module _ {T : Type 0} where
  -- `t` is one of `ts`.
  abbrev pub Among : T → List T → Type 0
  Among t [] = ⊥
  Among t (u ∷ us) = (t ≡ u) ⊎ Among t us

  -- The documents of the files that can be read and decoded.
  abbrev pub loaded_of : List (File T) → List T
  loaded_of [] = []
  loaded_of (unreadable e ∷ fs) = loaded_of fs
  loaded_of (undecodable e ∷ fs) = loaded_of fs
  loaded_of (loaded t ∷ fs) = t ∷ loaded_of fs

  -- The context is not done while they are read.
  abbrev pub undisturbed : List (File T) → List (Option Error × File T)
  undisturbed fs = map (λ f. (none, f)) fs

  -- A document that has the key, or none of them has it.
  abbrev pub NoneHas : (T → String) → String → List T → Type 0
  NoneHas get key [] = Unit
  NoneHas get key (t ∷ ts) = ((get t == key) ≡ false) × NoneHas get key ts

  abbrev pub Finds : (T → String) → String → List T → Error ⊎ T → Type 0
  Finds get key ts (inr t) = Among t ts × ((get t == key) ≡ true)
  Finds get key ts (inl e) = NoneHas get key ts

  scan_files-loaded_of : (fs : List (File T)) → scan_files (undisturbed fs) ≡ inr (loaded_of fs)
  unfolding scan_files
  scan_files-loaded_of [] = refl
  scan_files-loaded_of (unreadable e ∷ fs) = ap (kept (unreadable e)) (scan_files-loaded_of fs)
  scan_files-loaded_of (undecodable e ∷ fs) = ap (kept (undecodable e)) (scan_files-loaded_of fs)
  scan_files-loaded_of (loaded t ∷ fs) = ap (kept (loaded t)) (scan_files-loaded_of fs)

  module _ (get : T → String) (key : String) where
    Finds-later :
        (t : T) (ts : List T) (r : Error ⊎ T)
        → (get t == key) ≡ false
        → Finds get key ts r
        → Finds get key (t ∷ ts) r
    Finds-later t ts (inl e) h n = (h, n)
    Finds-later t ts (inr u) h (m, k) = (inr m, k)

    find_metadata_by-Finds :
        (msg : String) (ts : List T)
        → Finds get key ts (find_metadata_by (λ t. get t == key) msg ts)
    unfolding find_metadata_by
    find_metadata_by-Finds msg [] = tt
    find_metadata_by-Finds msg (t ∷ ts) =
        if-elim (Finds get key (t ∷ ts)) (get t == key) (λ h. (inl refl, h))
          (λ h. Finds-later t ts _ h (find_metadata_by-Finds msg ts))

  Among-second : (u t v : T) (vs : List T) → Among u (t ∷ vs) → Among u (t ∷ v ∷ vs)
  Among-second u t v vs (inl q) = inl q
  Among-second u t v vs (inr m) = inr (inr m)

  Among-past :
      (u t v : T) (vs rs : List T)
      → (Among u rs → Among u (t ∷ vs))
      → Among u (v ∷ rs)
      → Among u (t ∷ v ∷ vs)
  Among-past u t v vs rs f (inl q) = inr (inl q)
  Among-past u t v vs rs f (inr m) = Among-second u t v vs (f m)

  Among-later :
      (u t : T) (rs ts : List T) → (Among u rs → Among u ts) → Among u (t ∷ rs) → Among u (t ∷ ts)
  Among-later u t rs ts f (inl q) = inl q
  Among-later u t rs ts f (inr m) = inr (f m)

  module _ (id name : T → String) (less : String → String → Bool) where
    Among-insert_stable :
        (u t : T) (ts : List T) → Among u (insert_stable id name less t ts) → Among u (t ∷ ts)
    unfolding insert_stable
    Among-insert_stable u t [] = λ m. m
    Among-insert_stable u t (v ∷ vs) =
        if-elim (λ r. Among u r → Among u (t ∷ v ∷ vs)) (after id name less t v)
          (λ _ m.
            Among-past u t v vs (insert_stable id name less t vs) (Among-insert_stable u t vs) m)
          (λ _ m. m)

    Among-sort_stable : (u : T) (ts : List T) → Among u (sort_stable id name less ts) → Among u ts
    unfolding sort_stable
    Among-sort_stable u [] m = m
    Among-sort_stable u (t ∷ ts) m =
        Among-later u t (sort_stable id name less ts) ts (Among-sort_stable u ts)
          (Among-insert_stable u t (sort_stable id name less ts) m)

    module _ (get : T → String) (key : String) where
      NoneHas-insert_stable :
          (t : T) (ts : List T)
          → NoneHas get key (insert_stable id name less t ts)
          → NoneHas get key (t ∷ ts)
      unfolding insert_stable
      NoneHas-insert_stable t [] = λ n. n
      NoneHas-insert_stable t (v ∷ vs) =
          if-elim (λ r. NoneHas get key r → NoneHas get key (t ∷ v ∷ vs)) (after id name less t v)
            (λ _ (h, n). let (k, m) = NoneHas-insert_stable t vs n in (k, (h, m))) (λ _ n. n)

      NoneHas-sort_stable :
          (ts : List T) → NoneHas get key (sort_stable id name less ts) → NoneHas get key ts
      unfolding sort_stable
      NoneHas-sort_stable [] n = n
      NoneHas-sort_stable (t ∷ ts) n =
          let (h, m) = NoneHas-insert_stable t (sort_stable id name less ts) n in
          (h, NoneHas-sort_stable ts m)

      Finds-sort_stable :
          (ts : List T) (r : Error ⊎ T)
          → Finds get key (sort_stable id name less ts) r
          → Finds get key ts r
      Finds-sort_stable ts (inl e) n = NoneHas-sort_stable ts n
      Finds-sort_stable ts (inr u) (m, k) = (Among-sort_stable u ts m, k)

-- A lookup by ID or by name, of a terminal or a client, returns a document that was loaded and has
-- the key, or fails when no document that was loaded has it: files that cannot be read or decoded
-- hide no other, whatever the order of the files and of the strings. The directory is listed, and
-- the context is not done while the files are read.
pub find_by-Finds :
    {T : Type 0} (id name : T → String) (less : String → String → Bool) (get : T → String)
    (key msg : String) (fs : List (File T))
    → Finds get key (loaded_of fs) (find_by id name less get key msg (inr (undisturbed fs)))
unfolding find_by scan
find_by-Finds id name less get key msg fs =
    subst
      (λ r.
        Finds get key (loaded_of fs)
          (find_in id name less (λ t. get t == key) msg (sorted id name less r)))
      (sym (scan_files-loaded_of fs))
      (Finds-sort_stable id name less get key (loaded_of fs) _
        (find_metadata_by-Finds get key msg (sort_stable id name less (loaded_of fs))))
