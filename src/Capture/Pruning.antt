-- ===== src/Capture/Pruning.antt =====
-- internal/terminal/terminalrunner/capture_writer.go, `prune`: the oldest closed segments are dropped
-- until the bounds of retention hold.
pub mod Retention
use sbsh.Base.{
  ℕ, ◌+◌, ◌-◌, Bool, true, false, not, ◌||◌, ◌&&◌, ◌⊎◌, inl, inr, Option, none, some, List, [], ◌∷◌,
  ◌++◌, ltb, leb, String, if◌then◌else◌, length, take,
}
use sbsh.Errdefs.{Error, context, message}
use sbsh.Capture.{
  Entry, Disk, FilePath, segment, file_at, find_file, remove_file, put_file, wrap64, collapse,
  closed_segments, path_of, next_seq,
}
use sbsh.Capture.Files.{raw}
use sbsh.Capture.Compressing.{Compression, Compressed, compress_segment, with_entries}
use sbsh.Capture.Live.{
  Handle, nil, live_file, stale, CaptureWriter, Os, append_live, accepted, with_size, with_handle,
  with_next_seq, created, on_segment_opened, reopen_canonical,
}

-- `dropOldest` of the segment `s`, when the removal answers its first argument.
abbrev pub dropped : Option Error → Disk → Entry → Disk
dropped (some e) d s = d
dropped none d s = with_entries d (remove_file s.seq s.compressed d.entries)

abbrev pub drop_oldest : (FilePath → Option Error) → Disk → Entry → Disk
drop_oldest remove d s = dropped (remove (path_of s)) d s

-- The loop over the count.
unfoldable pub drop_by_count : (FilePath → Option Error) → ℕ → List Entry → Disk → List Entry × Disk
drop_by_count remove k [] d = ([], d)
drop_by_count remove k (s ∷ ss) d =
    let rest = drop_by_count remove k ss (drop_oldest remove d s) in
    if ltb k (length (s ∷ ss)) then rest else (s ∷ ss, d)

abbrev pub total_size : List Entry → ℕ
total_size [] = 0
total_size (s ∷ ss) = length s.content + total_size ss

-- The loop over the bytes, which are `total`.
unfoldable pub drop_by_bytes : (FilePath → Option Error) → ℕ → ℕ → List Entry → Disk → Disk
drop_by_bytes remove k total [] d = d
drop_by_bytes remove k total (s ∷ ss) d =
    let rest = drop_by_bytes remove k (total - length s.content) ss (drop_oldest remove d s) in
    if ltb k total then rest else d

abbrev pub prune_listed :
    (FilePath → Option Error) → CaptureWriter → Error ⊎ List Entry → Disk → Disk
prune_listed remove w (inl e) d = d
prune_listed remove w (inr segs) d =
    let (ss, d1) =
      (if ltb 0 w.retain_segments
        then drop_by_count remove w.retain_segments segs d
        else (segs, d)) in
    if ltb 0 w.retain_bytes then drop_by_bytes remove w.retain_bytes (total_size ss) ss d1 else d1

-- `prune`.
unfoldable pub prune : Os → CaptureWriter → Disk → Disk
unfolding drop_by_count drop_by_bytes
prune a w d = prune_listed a.remove w (closed_segments a.ls d) d
