-- ===== src/Capture.antt =====
-- internal/capture/capture.go: the capture of a terminal's output on disk, a live file and closed
-- segments beside it, and its readers. A file's name is what the code's tests make of it: the live
-- file, or a segment with its sequence number, raw or gzip-compressed. Files of other names are
-- skipped by the code and are left out. gzip is a pair of functions: `gunzip` gives the error of
-- `gzip.NewReader`, or the bytes that reading returns and the error that ends it. `refuses` is the
-- error other than a missing file with which the kernel refuses to open one; a raw file that is open
-- is read to its end.
pub mod Order
pub mod Files
pub mod Next
pub mod Reading
pub mod Compressing
pub mod Live
pub mod Closing
pub mod Pruning
pub mod Writer
mod Tests
use sbsh.Base.{
  ℕ, suc, ◌+◌, ◌%◌, Bool, true, false, not, ◌&&◌, ◌||◌, ◌⊎◌, inl, inr, Option, none, some, List, [],
  ◌∷◌, ◌++◌, map, ◌==◌, ltb, if◌then◌else◌,
}
use sbsh.Errdefs.{Error, context, message}

-- A file beside the live one.
pub record Entry : Type 0 where
  pub seq : ℕ
  pub compressed : Bool
  pub content : List ℕ

-- `entries` is what `os.ReadDir` lists; `live` is the canonical file.
pub record Disk : Type 0 where
  pub live : Option (List ℕ)
  pub entries : List Entry

pub data FilePath : Type 0 where
  canonical : FilePath
  segment : ℕ → Bool → FilePath

abbrev pub same : Bool → Bool → Bool
same true b = b
same false b = not b

-- Whether `e` is the file `segment seq gz`.
abbrev pub is_file : ℕ → Bool → Entry → Bool
is_file seq gz e = (e.seq == seq) && same e.compressed gz

unfoldable pub find_file : ℕ → Bool → List Entry → Option (List ℕ)
find_file seq gz [] = none
find_file seq gz (e ∷ es) = if is_file seq gz e then some e.content else find_file seq gz es

unfoldable pub remove_file : ℕ → Bool → List Entry → List Entry
remove_file seq gz [] = []
remove_file seq gz (e ∷ es) =
    let rest = remove_file seq gz es in if is_file seq gz e then rest else e ∷ rest

-- A rename over an existing file replaces it.
abbrev pub put_file : Entry → List Entry → List Entry
put_file e es = e ∷ remove_file e.seq e.compressed es

-- One entry into the segments by sequence number, which the sort puts in ascending order. Of two
-- with one number the raw one stays.
unfoldable pub insert_segment : Entry → List Entry → List Entry
insert_segment e [] = e ∷ []
insert_segment e (s ∷ ss) =
    let rest = insert_segment e ss in
    if e.seq == s.seq
    then (if not s.compressed || e.compressed then s ∷ ss else e ∷ ss)
    else if ltb e.seq s.seq
    then e ∷ s ∷ ss
    else s ∷ rest

-- The loop over the directory's entries.
unfoldable pub gather : List Entry → List Entry → List Entry
unfolding insert_segment
gather segs [] = segs
gather segs (e ∷ es) = gather (insert_segment e segs) es

abbrev pub collapse : List Entry → List Entry
collapse es = gather [] es

-- `ClosedSegments`, when `os.ReadDir` answers `ls`. A missing directory is an empty one.
abbrev pub closed_segments : Option Error → Disk → Error ⊎ List Entry
closed_segments none d = inr (collapse d.entries)
closed_segments (some e) d = inl (context "read capture dir" e)

abbrev pub wrap64 : ℕ → ℕ
wrap64 n = n % 18446744073709551616

abbrev pub after_last : List Entry → ℕ
after_last [] = 0
after_last (s ∷ []) = wrap64 (s.seq + 1)
after_last (s ∷ t ∷ ss) = after_last (t ∷ ss)

abbrev pub next_of : Error ⊎ List Entry → Error ⊎ ℕ
next_of (inl e) = inl e
next_of (inr segs) = inr (after_last segs)

-- `NextSeq`.
abbrev pub next_seq : Option Error → Disk → Error ⊎ ℕ
next_seq ls d = next_of (closed_segments ls d)

abbrev pub path_of : Entry → FilePath
path_of s = segment s.seq s.compressed

-- The live file comes last, if it is there; `stat` is an error other than a missing file.
abbrev pub with_live : Option Error → Option (List ℕ) → List FilePath → Error ⊎ List FilePath
with_live (some e) live ps = inl (context "stat capture file" e)
with_live none none ps = inr ps
with_live none (some l) ps = inr (ps ++ canonical ∷ [])

abbrev pub ordered_of : Option Error → Disk → Error ⊎ List Entry → Error ⊎ List FilePath
ordered_of stat d (inl e) = inl e
ordered_of stat d (inr segs) = with_live stat d.live (map path_of segs)

-- `OrderedPaths`.
abbrev pub ordered_paths : Option Error → Option Error → Disk → Error ⊎ List FilePath
ordered_paths ls stat d = ordered_of stat d (closed_segments ls d)

abbrev pub file_at : FilePath → Disk → Option (List ℕ)
file_at canonical d = d.live
file_at (segment seq gz) d = find_file seq gz d.entries

-- `siblingPath`. That of the live file is a name that no file has.
abbrev pub sibling_path : FilePath → Option FilePath
sibling_path canonical = none
sibling_path (segment seq gz) = some (segment seq (not gz))

abbrev pub is_gz : FilePath → Bool
is_gz canonical = false
is_gz (segment seq gz) = gz

-- An open: the file and whether it is compressed, a missing file, or another error.
pub data Opened : Type 0 where
  file : List ℕ → Bool → Opened
  absent : Opened
  fault : Error → Opened

abbrev pub opened : Bool → Option (List ℕ) → Opened
opened gz none = absent
opened gz (some b) = file b gz

abbrev pub unpacked : Error ⊎ (List ℕ × Option Error) → Error ⊎ Option (List ℕ)
unpacked (inl e) = inl (context "open gzip segment" e)
unpacked (inr (b, some e)) = inl (context "read capture segment" e)
unpacked (inr (b, none)) = inr (some b)

abbrev pub after_read : Error ⊎ Option (List ℕ) → Error ⊎ List ℕ → Error ⊎ List ℕ
after_read (inl e) rest = inl e
after_read (inr none) rest = rest
after_read (inr (some b)) (inl e) = inl e
after_read (inr (some b)) (inr bs) = inr (b ++ bs)

abbrev pub copied : Error ⊎ (List ℕ × Option Error) → List ℕ × Option Error
copied (inl e) = ([], some (context "open gzip segment" e))
copied (inr (b, some e)) = (b, some (context "read capture segment" e))
copied (inr (b, none)) = (b, none)

abbrev pub after_dump : List ℕ × Option Error → List ℕ × Option Error → List ℕ × Option Error
after_dump (b, some e) rest = (b, some e)
after_dump (b, none) (bs, e) = (b ++ bs, e)

module _ (refuses : FilePath → Option Error) where
  -- `os.Open`.
  abbrev pub open_file : FilePath → Disk → Opened
  open_file p d = elim (refuses p) [ some e ↦ fault e | none ↦ opened (is_gz p) (file_at p d) ]

  abbrev pub open_sibling : Option FilePath → Disk → Opened
  open_sibling none d = absent
  open_sibling (some p) d = open_file p d

  -- The sibling is tried when the listed file is missing.
  abbrev pub or_sibling : FilePath → Disk → Opened → Opened
  or_sibling p d (file b gz) = file b gz
  or_sibling p d (fault e) = fault e
  or_sibling p d absent = open_sibling (sibling_path p) d

  unfoldable pub open_segment : FilePath → Disk → Opened
  open_segment p d = or_sibling p d (open_file p d)

module _ (gunzip : List ℕ → Error ⊎ (List ℕ × Option Error)) where
  abbrev pub read_opened : Opened → Error ⊎ Option (List ℕ)
  read_opened absent = inr none
  read_opened (fault e) = inl e
  read_opened (file b true) = unpacked (gunzip b)
  read_opened (file b false) = inr (some b)

  abbrev pub dump_opened : Opened → List ℕ × Option Error
  dump_opened absent = ([], none)
  dump_opened (fault e) = ([], some (context "open capture segment" e))
  dump_opened (file b true) = copied (gunzip b)
  dump_opened (file b false) = (b, none)

module _ (gunzip : List ℕ → Error ⊎ (List ℕ × Option Error))
    (refuses : FilePath → Option Error) where
  -- `readSegment`: `none` is a segment that is gone.
  unfoldable pub read_segment : FilePath → Disk → Error ⊎ Option (List ℕ)
  unfolding open_segment
  read_segment p d = read_opened gunzip (open_segment refuses p d)

  -- The loop of `ReadAll`; each path is opened on the disk as it is by then.
  unfoldable pub read_paths : List (FilePath × Disk) → Error ⊎ List ℕ
  unfolding read_segment
  read_paths [] = inr []
  read_paths ((p, d) ∷ ps) = after_read (read_segment p d) (read_paths ps)

  abbrev pub read_listed : Disk → Error ⊎ List FilePath → Error ⊎ List ℕ
  read_listed d (inl e) = inl e
  read_listed d (inr ps) = read_paths (map (λ p. (p, d)) ps)

  -- `ReadAll` while the disk does not change.
  unfoldable pub read_all : Option Error → Option Error → Disk → Error ⊎ List ℕ
  unfolding read_paths
  read_all ls stat d = read_listed d (ordered_paths ls stat d)

  -- `dumpOne`, to a writer that takes everything: what it writes, and its error.
  unfoldable pub dump_one : FilePath → Disk → List ℕ × Option Error
  unfolding open_segment
  dump_one p d = dump_opened gunzip (open_segment refuses p d)

  -- The loop of `Dump`.
  unfoldable pub dump_paths : List (FilePath × Disk) → List ℕ × Option Error
  unfolding dump_one
  dump_paths [] = ([], none)
  dump_paths ((p, d) ∷ ps) = after_dump (dump_one p d) (dump_paths ps)
