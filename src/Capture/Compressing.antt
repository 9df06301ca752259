-- ===== src/Capture/Compressing.antt =====
-- internal/capture/capture.go, `CompressSegment`. Its temporary file has a name that no reader takes
-- for a segment, and is left out. `gzip` is what the compressor writes.
use sbsh.Base.{
  ℕ, ◌≡◌, refl, true, false, ◌⊎◌, inl, inr, Option, none, some, List, [], ◌∷◌, String, arith, take,
}
use sbsh.Errdefs.{Error, context, message}
use sbsh.Capture.{
  Entry, Disk, FilePath, segment, find_file, remove_file, put_file, read_segment, open_segment,
}
use sbsh.Capture.Files.{zipped, find_file-remove_file, find_file-remove_other}

-- What each call of the kernel answers: nil, or an error; for the removal one other than a missing
-- file, which the code takes for a removal. After a failing copy, flush or close, only `short` bytes
-- of what the compressor writes are in the temporary file.
pub record Compression : Type 0 where
  pub open_raw : Option Error
  pub create : Option Error
  pub copy : Option Error
  pub flush : Option Error
  pub close_tmp : Option Error
  pub rename : Option Error
  pub remove : Option Error
  pub short : ℕ

-- The path and the error that are returned, and the disk.
pub record Compressed : Type 0 where
  pub path : Option FilePath
  pub failed : Option Error
  pub left : Disk

abbrev pub unchanged : Error → Disk → Compressed
unchanged e d = record { path = none; failed = some e; left = d }

abbrev pub with_entries : Disk → List Entry → Disk
with_entries d es = record { live = d.live; entries = es }

abbrev pub remove_raw : Option Error → ℕ → Disk → Compressed
remove_raw none n d = record {
  path = some (segment n true);
  failed = none;
  left = with_entries d (remove_file n false d.entries);
}
remove_raw (some e) n d = record {
  path = some (segment n true);
  failed = some (context "remove raw segment after compress" e);
  left = d;
}

-- `c` is what the temporary file holds.
abbrev pub renamed : Compression → ℕ → Disk → List ℕ → Compressed
renamed a n d c = remove_raw a.remove n (with_entries d (put_file (zipped n c) d.entries))

-- What is in a file after a call, of the bytes `c` that it was to write.
abbrev pub cut : Option Error → ℕ → List ℕ → List ℕ
cut none k c = c
cut (some e) k c = take k c

-- The content of the temporary file, when all of it would be `c`.
abbrev pub landed : Compression → List ℕ → List ℕ
landed a c = cut a.copy a.short (cut a.flush a.short (cut a.close_tmp a.short c))

-- The first call that fails, with what its error is wrapped in.
abbrev pub first_failed : List (String × Option Error) → Option Error
first_failed [] = none
first_failed ((msg, some e) ∷ cs) = some (context msg e)
first_failed ((msg, none) ∷ cs) = first_failed cs

abbrev pub calls : Compression → List (String × Option Error)
calls a =
    ("open raw segment", a.open_raw)
    ∷ ("create compressed segment", a.create)
    ∷ ("gzip segment", a.copy)
    ∷ ("flush gzip segment", a.flush)
    ∷ ("close compressed segment", a.close_tmp)
    ∷ ("rename compressed segment", a.rename)
    ∷ []

abbrev pub compress_called : Option Error → Compression → ℕ → Disk → List ℕ → Compressed
compress_called (some e) a n d c = unchanged e d
compress_called none a n d c = renamed a n d c

abbrev pub compress_found :
    (List ℕ → List ℕ) → Compression → ℕ → Disk → Option (List ℕ) → Compressed
compress_found gzip a n d none =
    unchanged (context "open raw segment" (message "file does not exist")) d
compress_found gzip a n d (some b) =
    compress_called (first_failed (calls a)) a n d (landed a (gzip b))

-- `CompressSegment` of the raw segment `n`.
unfoldable pub compress_segment : (List ℕ → List ℕ) → Compression → ℕ → Disk → Compressed
compress_segment gzip a n d = compress_found gzip a n d (find_file n false d.entries)

-- The bytes of a segment are there: raw, or else compressed.
abbrev pub Holds : ℕ → List ℕ → List ℕ → List Entry → Type 0
Holds n b c es =
    (find_file n false es ≡ some b)
    ⊎ ((find_file n false es ≡ none) × (find_file n true es ≡ some c))

failed-none :
    (msg : String) (o : Option Error) (cs : List (String × Option Error))
    → first_failed ((msg, o) ∷ cs) ≡ none
    → (o ≡ none) × (first_failed cs ≡ none)
failed-none msg none cs h = (refl, h)
failed-none msg (some e) cs h = cc

-- When no call fails, the temporary file holds all of the content.
pub landed_whole : (a : Compression) (c : List ℕ) → first_failed (calls a) ≡ none → landed a c ≡ c
landed_whole a c h =
    let (_, h1) = failed-none "open raw segment" a.open_raw _ h in
    let (_, h2) = failed-none "create compressed segment" a.create _ h1 in
    let (copied, h3) = failed-none "gzip segment" a.copy _ h2 in
    let (flushed, h4) = failed-none "flush gzip segment" a.flush _ h3 in
    let (closed, _) = failed-none "close compressed segment" a.close_tmp _ h4 in
    rw (copied, flushed, closed) refl

module _ (n : ℕ) (b c : List ℕ) (es : List Entry) (h : find_file n false es ≡ some b) where
  put_file-Holds : Holds n b c (put_file (zipped n c) es)
  unfolding find_file
  put_file-Holds = inl (ground (arith, h, find_file-remove_other n false n true es (ground arith)))

  remove_file-Holds : Holds n b c (remove_file n false (put_file (zipped n c) es))
  unfolding find_file remove_file
  remove_file-Holds = inr (find_file-remove_file n false (put_file (zipped n c) es), ground arith)

  remove_raw-Holds :
      (live : Option (List ℕ)) (r : Option Error)
      → Holds n b c
          (remove_raw r n (record { live = live; entries = put_file (zipped n c) es })).left.entries
  remove_raw-Holds live (some e) = put_file-Holds
  remove_raw-Holds live none = remove_file-Holds

  compress_called-Holds :
      (live : Option (List ℕ)) (o : Option Error) (a : Compression) (c' : List ℕ)
      → (o ≡ none → c' ≡ c)
      → Holds n b c (compress_called o a n (record { live = live; entries = es }) c').left.entries
  compress_called-Holds live (some e) a c' k = inl h
  compress_called-Holds live none a c' k = rw (k refl) (remove_raw-Holds live a.remove)

abbrev pub unrefused : FilePath → Option Error
unrefused p = none

read_segment-Holds :
    (gunzip : List ℕ → Error ⊎ (List ℕ × Option Error)) (n : ℕ) (b c : List ℕ) (d : Disk)
    → gunzip c ≡ inr (b, none)
    → Holds n b c d.entries
    → read_segment gunzip unrefused (segment n false) d ≡ inr (some b)
unfolding read_segment open_segment
read_segment-Holds gunzip n b c d g (inl h) = rw h refl
read_segment-Holds gunzip n b c d g (inr (h, k)) = rw (h, k) (rw g refl)

-- An outcome without an error leaves only the compressed file, and returns its path.
abbrev pub IsOutcome : ℕ → Compressed → Type 0
IsOutcome n r =
    ((r.failed ≡ none)
      × (find_file n false r.left.entries ≡ none)
      × (r.path ≡ some (segment n true)))
    ⊎ ((e : Error) × (r.failed ≡ some e))

remove_raw-IsOutcome :
    (n : ℕ) (d : Disk) (es : List Entry) (r : Option Error)
    → IsOutcome n (remove_raw r n (with_entries d es))
remove_raw-IsOutcome n d es (some e) = inr (_, refl)
remove_raw-IsOutcome n d es none = inl (refl, find_file-remove_file n false es, refl)

compress_called-IsOutcome :
    (o : Option Error) (a : Compression) (n : ℕ) (d : Disk) (c : List ℕ)
    → IsOutcome n (compress_called o a n d c)
compress_called-IsOutcome (some e) a n d c = inr (e, refl)
compress_called-IsOutcome none a n d c = remove_raw-IsOutcome n d _ a.remove

-- Whatever the calls of `CompressSegment` answer, a reader that took the raw path from a listing
-- made before reads the segment's bytes after it, from the raw file or from the compressed one. It
-- returns an error, or the raw file is gone and the path returned is the compressed one.
pub compress_segment-read_segment :
    (gzip : List ℕ → List ℕ) (gunzip : List ℕ → Error ⊎ (List ℕ × Option Error)) (a : Compression)
    (n : ℕ) (d : Disk) (b : List ℕ)
    → gunzip (gzip b) ≡ inr (b, none)
    → find_file n false d.entries ≡ some b
    → (read_segment gunzip unrefused (segment n false) (compress_segment gzip a n d).left
        ≡ inr (some b))
      × IsOutcome n (compress_segment gzip a n d)
unfolding compress_segment
compress_segment-read_segment gzip gunzip a n d b g h = rw h (
  read_segment-Holds gunzip n b (gzip b) _ g (
      compress_called-Holds n b (gzip b) d.entries h d.live (first_failed (calls a)) a
        (landed a (gzip b)) (landed_whole a (gzip b))),
  compress_called-IsOutcome (first_failed (calls a)) a n d (landed a (gzip b)),
)
