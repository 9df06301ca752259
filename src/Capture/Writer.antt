-- ===== src/Capture/Writer.antt =====
-- internal/terminal/terminalrunner/capture_writer.go: the writer of the live capture file, with its
-- rotation.
pub mod Rotation
pub mod Transcript
mod Numbers
pub mod Sound
pub mod Session
use sbsh.Base.{
  ℕ, ◌+◌, ◌-◌, Bool, true, false, not, ◌||◌, ◌&&◌, ◌⊎◌, inl, inr, Option, none, some, List, [], ◌∷◌,
  ◌++◌, ltb, leb, String, if◌then◌else◌, length, take,
}
use sbsh.Errdefs.{Error, context, message}
use sbsh.Capture.{
  Entry, Disk, FilePath, segment, file_at, find_file, remove_file, put_file, wrap64, collapse,
  closed_segments, path_of, next_seq,
}
use sbsh.Capture.Files.{raw}
use sbsh.Capture.Compressing.{Compression, Compressed, compress_segment, with_entries}
use sbsh.Capture.Live.{
  Handle, nil, live_file, stale, CaptureWriter, Os, append_live, accepted, with_size, with_handle,
  with_next_seq, created, on_segment_opened, reopen_canonical,
}
use sbsh.Capture.Pruning.{prune}

-- The rename of the live file over the path of segment `n`, which fails when there is none.
abbrev pub rename_file : Option Error → Option (List ℕ) → ℕ → List Entry → Error ⊎ Disk
rename_file (some e) l n es = inl e
rename_file none none n es = inl (message "no such file or directory")
rename_file none (some l) n es = inr (record { live = none; entries = put_file (raw n l) es })

abbrev pub rename_live : Option Error → ℕ → Disk → Error ⊎ Disk
rename_live o n d = rename_file o d.live n d.entries

abbrev pub after_reopen :
    Os → Option Error × (CaptureWriter × Disk) → Option Error × (CaptureWriter × Disk)
after_reopen a (some e, (w, d)) = (some e, (w, d))
after_reopen a (none, (w, d)) = (none, (w, prune a w d))

abbrev pub after_rename :
    (List ℕ → List ℕ)
    → Os
    → CaptureWriter
    → Disk
    → Error ⊎ Disk
    → Option Error × (CaptureWriter × Disk)
after_rename gzip a w d (inl e) =
    (some (context "rename live segment" e), (reopen_canonical a w d).1)
after_rename gzip a w d (inr d1) = after_reopen a (
    reopen_canonical a (with_next_seq (wrap64 (w.next_seq + 1)) w)
      (compress_segment gzip a.compression w.next_seq d1).left)

abbrev pub after_close :
    (List ℕ → List ℕ)
    → Option Error
    → Os
    → CaptureWriter
    → Disk
    → Option Error × (CaptureWriter × Disk)
after_close gzip (some e) a w d =
    (some (context "close live segment" e), (reopen_canonical a (with_handle stale w) d).1)
after_close gzip none a w d =
    after_rename gzip a (with_handle nil w) d (rename_live a.rename w.next_seq d)

-- `rotate`, with `w.f` the live file. It keeps the file that it could not close.
abbrev pub rotate :
    (List ℕ → List ℕ) → Os → CaptureWriter → Disk → Option Error × (CaptureWriter × Disk)
rotate gzip a w d = after_close gzip a.close a w d

-- `Write` after the bytes `rec` that stand for `p` went to the file.
abbrev pub after_write :
    (List ℕ → List ℕ)
    → Os
    → CaptureWriter
    → Disk
    → List ℕ
    → Option (ℕ × Error)
    → (ℕ × Option Error) × (CaptureWriter × Disk)
after_write gzip a w d p (some (n, e)) =
    ((if w.asciicast then 0 else length (take n p), some e), (w, d))
after_write gzip a w d p none = (
  (length p, none),
  if ltb 0 w.max_bytes && leb w.max_bytes w.size then (rotate gzip a w d).1 else (w, d),
)

abbrev pub write_record :
    (List ℕ → List ℕ)
    → Os
    → CaptureWriter
    → Disk
    → List ℕ
    → List ℕ
    → (ℕ × Option Error) × (CaptureWriter × Disk)
write_record gzip a w d p rec =
    after_write gzip a (with_size (w.size + length (accepted a.write rec)) w)
      (append_live (accepted a.write rec) d) p a.write

abbrev pub write_encoded :
    (List ℕ → List ℕ)
    → Os
    → CaptureWriter
    → Disk
    → List ℕ
    → Error ⊎ List ℕ
    → (ℕ × Option Error) × (CaptureWriter × Disk)
write_encoded gzip a w d p (inl e) = ((0, some e), (w, d))
write_encoded gzip a w d p (inr rec) = write_record gzip a w d p rec

abbrev pub write_stale :
    Error ⊎ List ℕ → CaptureWriter → Disk → (ℕ × Option Error) × (CaptureWriter × Disk)
write_stale (inl e) w d = ((0, some e), (w, d))
write_stale (inr rec) w d = ((0, some (message "file already closed")), (w, d))

-- A write to a file that is closed fails with `os.ErrClosed`.
abbrev pub write_handle :
    Handle
    → (List ℕ → List ℕ)
    → Os
    → CaptureWriter
    → Disk
    → List ℕ
    → (ℕ × Option Error) × (CaptureWriter × Disk)
write_handle live_file gzip a w d p =
    write_encoded gzip a w d p (if w.asciicast then a.event p else inr p)
write_handle nil gzip a w d p = ((0, some (message "file already closed")), (w, d))
write_handle stale gzip a w d p = write_stale (if w.asciicast then a.event p else inr p) w d

-- `Write` of `p`.
unfoldable pub write :
    (List ℕ → List ℕ)
    → Os
    → CaptureWriter
    → Disk
    → List ℕ
    → (ℕ × Option Error) × (CaptureWriter × Disk)
write gzip a w d p = write_handle w.handle gzip a w d p

-- `Close`: its error, and the writer.
abbrev pub close_handle : Handle → Option Error → CaptureWriter → Option Error × CaptureWriter
close_handle nil e w = (none, w)
close_handle live_file e w = (e, with_handle nil w)
close_handle stale e w = (some (message "file already closed"), with_handle nil w)

abbrev pub close : Option Error → CaptureWriter → Option Error × CaptureWriter
close e w = close_handle w.handle e w

-- The bounds of internal/defaults, and the format, of a new writer.
pub record Limits : Type 0 where
  pub max_bytes : ℕ
  pub retain_segments : ℕ
  pub retain_bytes : ℕ
  pub asciicast : Bool

abbrev pub writer_from : Limits → ℕ → CaptureWriter
writer_from l n = record {
  handle = live_file;
  size = 0;
  next_seq = n;
  max_bytes = l.max_bytes;
  retain_segments = l.retain_segments;
  retain_bytes = l.retain_bytes;
  asciicast = l.asciicast;
}

abbrev pub initialized : Option Error × (CaptureWriter × Disk) → (Error ⊎ CaptureWriter) × Disk
initialized (some e, (w, d)) = (inl e, d)
initialized (none, (w, d)) = (inr w, d)

abbrev pub seeded : Os → Limits → Disk → Error ⊎ ℕ → (Error ⊎ CaptureWriter) × Disk
seeded a l d (inl e) = (inl (context "seed capture sequence" e), d)
seeded a l d (inr n) = initialized (on_segment_opened a (writer_from l n) d)

abbrev pub permitted : Option Error → Os → Limits → Disk → (Error ⊎ CaptureWriter) × Disk
permitted (some e) a l d = (inl e, d)
permitted none a l d = seeded a l d (next_seq a.ls d)

abbrev pub first_opened :
    Option Error → Option Error → Os → Limits → Disk → (Error ⊎ CaptureWriter) × Disk
first_opened (some e) perms a l d = (inl (context "open capture file" e), d)
first_opened none perms a l d = permitted perms a l (created d)

-- `newCaptureWriter`; `perms` is what its callback answers, if it has one.
unfoldable pub new_capture_writer :
    Os → Option Error → Limits → Disk → (Error ⊎ CaptureWriter) × Disk
new_capture_writer a perms l d = first_opened a.reopen perms a l d
