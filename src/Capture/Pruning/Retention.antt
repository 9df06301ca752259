-- ===== src/Capture/Pruning/Retention.antt =====
-- What `prune` keeps, against a reference that drops one segment at a time.
use sbsh.Base.{
  ℕ, ◌≡◌, refl, ap, ◌∙◌, ◌-◌, Bool, true, false, ◌&&◌, ◌||◌, inl, inr, Option, none, some, List, [],
  ◌∷◌, ◌++◌, ltb, leb, ◌==◌, if◌then◌else◌, length, Bool-cases, if-elim, arith,
}
use sbsh.Errdefs.{Error}
use sbsh.Capture.{
  Entry, Disk, FilePath, segment, same, is_file, find_file, remove_file, path_of, collapse,
}
use sbsh.Capture.Files.{differs, find_file-remove_file, find_file-remove_other}
use sbsh.Capture.Live.{CaptureWriter, Os}
use sbsh.Capture.Pruning.{
  dropped, drop_oldest, drop_by_count, drop_by_bytes, total_size, prune_listed, prune,
}

-- A bound of 0 is no bound.
abbrev pub under : ℕ → ℕ → Bool
under n bound = (bound == 0) || leb n bound

abbrev pub fits : CaptureWriter → List Entry → Bool
fits w segs = under (length segs) w.retain_segments && under (total_size segs) w.retain_bytes

-- The segments that go, and those that stay: the oldest go until the others fit.
abbrev pub retained : CaptureWriter → List Entry → List Entry × List Entry
retained w [] = ([], [])
retained w (s ∷ ss) =
    let (dropped, kept) = retained w ss in
    if fits w (s ∷ ss) then ([], s ∷ ss) else (s ∷ dropped, kept)

abbrev pub drop_all : (FilePath → Option Error) → List Entry → Disk → Disk
drop_all remove [] d = d
drop_all remove (s ∷ ss) d = drop_all remove ss (drop_oldest remove d s)

module _ (w : CaptureWriter) where
  retained-append : (segs : List Entry) → (retained w segs).0 ++ (retained w segs).1 ≡ segs
  retained-append [] = refl
  retained-append (s ∷ ss) =
      if-elim (λ (r : List Entry × List Entry). r.0 ++ r.1 ≡ s ∷ ss) (fits w (s ∷ ss)) (λ _. refl)
        (λ _. ap (λ x. s ∷ x) (retained-append ss))

  retained-fits : (segs : List Entry) → fits w (retained w segs).1 ≡ true
  retained-fits [] = ground arith
  retained-fits (s ∷ ss) =
      if-elim (λ (r : List Entry × List Entry). fits w r.1 ≡ true) (fits w (s ∷ ss)) (λ f. f)
        (λ _. retained-fits ss)

module _ (remove : FilePath → Option Error) (w : CaptureWriter) where
  bytes_stage : List Entry → ℕ → Disk → Disk
  bytes_stage ss total d =
      if ltb 0 w.retain_bytes then drop_by_bytes remove w.retain_bytes total ss d else d

  drop_by_bytes-retained :
      (ss : List Entry) (d : Disk)
      → under (length ss) w.retain_segments ≡ true
      → bytes_stage ss (total_size ss) d ≡ drop_all remove (retained w ss).0 d
  unfolding bytes_stage drop_by_bytes
  drop_by_bytes-retained [] d h = ground arith
  drop_by_bytes-retained (s ∷ ss) d h = elim (Bool-cases (fits w (s ∷ ss))) [
    | inl f ↦ rw f (ground (arith, h, f))
    | inr f ↦
        let bounded : ltb 0 w.retain_bytes ≡ true = ground (arith, h, f) in
        let over : ltb w.retain_bytes (total_size (s ∷ ss)) ≡ true = ground (arith, h, f) in
        let same_total : total_size (s ∷ ss) - length s.content ≡ total_size ss = omega arith in
        let ih = drop_by_bytes-retained ss (drop_oldest remove d s) (ground (arith, h)) in
        rw (f, bounded, over, same_total) (rw bounded at ih)
  ]

  -- The second loop after the first.
  stages : List Entry × Disk → Disk
  stages (ss, d) = bytes_stage ss (total_size ss) d

  drop_by_count-retained :
      (segs : List Entry) (d : Disk)
      → ltb 0 w.retain_segments ≡ true
      → stages (drop_by_count remove w.retain_segments segs d)
        ≡ drop_all remove (retained w segs).0 d
  unfolding drop_by_count stages
  drop_by_count-retained [] d h = drop_by_bytes-retained [] d (ground arith)
  drop_by_count-retained (s ∷ ss) d h =
      elim (Bool-cases (ltb w.retain_segments (length (s ∷ ss)))) [
        | inl c ↦
            let f : fits w (s ∷ ss) ≡ false = ground (arith, h, c) in
            rw (c, f) (drop_by_count-retained ss (drop_oldest remove d s) h)
        | inr c ↦ rw c (drop_by_bytes-retained (s ∷ ss) d (ground (arith, c)))
      ]

  prune_listed-retained :
      (segs : List Entry) (d : Disk)
      → prune_listed remove w (inr segs) d ≡ drop_all remove (retained w segs).0 d
  unfolding stages bytes_stage
  prune_listed-retained segs d = elim (Bool-cases (ltb 0 w.retain_segments)) [
    | inl c ↦ rw c (drop_by_count-retained segs d c)
    | inr c ↦ rw c (drop_by_bytes-retained segs d (ground (arith, c)))
  ]

-- The removal of a file succeeds.
abbrev pub removable : Option Error → Bool
removable none = true
removable (some e) = false

-- Whether the file `segment n gz` is that of one of the segments, and can be removed.
abbrev pub goes : (FilePath → Option Error) → List Entry → ℕ → Bool → Bool
goes remove [] n gz = false
goes remove (s ∷ ss) n gz =
    (is_file n gz s && removable (remove (segment s.seq s.compressed))) || goes remove ss n gz

abbrev pub file_after : Bool → Option (List ℕ) → Option (List ℕ)
file_after true o = none
file_after false o = o

same_name : (m n : ℕ) (c gz : Bool) → ((m == n) && same c gz) ≡ true → (m ≡ n) × (c ≡ gz)
same_name m n true true h = (ground (arith, h), refl)
same_name m n false false h = (ground (arith, h), refl)
same_name m n true false h = absurd (ground (arith, h))
same_name m n false true h = absurd (ground (arith, h))

other_name : (m n : ℕ) (c gz : Bool) → ((m == n) && same c gz) ≡ false → differs n gz m c ≡ true
other_name m n true true h = ground (arith, h)
other_name m n false false h = ground (arith, h)
other_name m n true false h = ground (arith, h)
other_name m n false true h = ground (arith, h)

find_file-removed :
    (n : ℕ) (gz : Bool) (s : Entry) (es : List Entry)
    → find_file n gz (remove_file s.seq s.compressed es)
      ≡ file_after (is_file n gz s) (find_file n gz es)
find_file-removed n gz s es = elim (Bool-cases (is_file n gz s)) [
  | inl f ↦
      let (m, c) = same_name s.seq n s.compressed gz f in
      rw (f, m, c) (find_file-remove_file n gz es)
  | inr f ↦
      rw f
        (find_file-remove_other n gz s.seq s.compressed es (other_name s.seq n s.compressed gz f))
]

find_file-dropped :
    (n : ℕ) (gz : Bool) (o : Option Error) (d : Disk) (s : Entry)
    → find_file n gz (dropped o d s).entries
      ≡ file_after (is_file n gz s && removable o) (find_file n gz d.entries)
find_file-dropped n gz (some e) d s = elim (Bool-cases (is_file n gz s)) [
  | inl f ↦ rw f refl
  | inr f ↦ rw f refl
]
find_file-dropped n gz none d s = elim (Bool-cases (is_file n gz s)) [
  | inl f ↦ find_file-removed n gz s d.entries ∙ rw f refl
  | inr f ↦ find_file-removed n gz s d.entries ∙ rw f refl
]

file_after-or :
    (a b : Bool) (o : Option (List ℕ)) → file_after b (file_after a o) ≡ file_after (a || b) o
file_after-or true true o = refl
file_after-or true false o = refl
file_after-or false b o = refl

find_file-drop_all :
    (remove : FilePath → Option Error) (ss : List Entry) (d : Disk) (n : ℕ) (gz : Bool)
    → find_file n gz (drop_all remove ss d).entries
      ≡ file_after (goes remove ss n gz) (find_file n gz d.entries)
find_file-drop_all remove [] d n gz = refl
find_file-drop_all remove (s ∷ ss) d n gz =
    find_file-drop_all remove ss (drop_oldest remove d s) n gz
    ∙ ap (file_after (goes remove ss n gz)) (find_file-dropped n gz (remove (path_of s)) d s)
    ∙ file_after-or (is_file n gz s && removable (remove (path_of s))) (goes remove ss n gz)
        (find_file n gz d.entries)

dropped-live : (o : Option Error) (d : Disk) (s : Entry) → (dropped o d s).live ≡ d.live
dropped-live (some e) d s = refl
dropped-live none d s = refl

drop_all-live :
    (remove : FilePath → Option Error) (ss : List Entry) (d : Disk)
    → (drop_all remove ss d).live ≡ d.live
drop_all-live remove [] d = refl
drop_all-live remove (s ∷ ss) d =
    drop_all-live remove ss (drop_oldest remove d s) ∙ dropped-live (remove (path_of s)) d s

-- When the directory can be listed, `prune` removes the files of `dropped` whose removal succeeds,
-- and leaves every other file as it is, the live one too, where `dropped ++ kept` are the listed
-- segments, oldest first, and `kept` is the longest end of them that fits both bounds: at most
-- `retainSegments` of them and at most `retainBytes` bytes, a bound of 0 being none. The compressed
-- file of a dropped raw segment is another file, and stays.
pub prune-retained :
    (a : Os) (w : CaptureWriter) (d : Disk) (n : ℕ) (gz : Bool)
    → a.ls ≡ none
    → (find_file n gz (prune a w d).entries
        ≡ file_after
            (goes a.remove (retained w (collapse d.entries)).0 n gz)
            (find_file n gz d.entries))
      × ((prune a w d).live ≡ d.live)
      × ((retained w (collapse d.entries)).0 ++ (retained w (collapse d.entries)).1
          ≡ collapse d.entries)
      × (fits w (retained w (collapse d.entries)).1 ≡ true)
unfolding prune
prune-retained a w d n gz l =
    let gone = (retained w (collapse d.entries)).0 in
    let e = prune_listed-retained a.remove w (collapse d.entries) d in
    rw l (
      ap (λ (x : Disk). find_file n gz x.entries) e ∙ find_file-drop_all a.remove gone d n gz,
      ap (λ (x : Disk). x.live) e ∙ drop_all-live a.remove gone d,
      retained-append w (collapse d.entries),
      retained-fits w (collapse d.entries),
    )
