-- ===== src/Capture/Tests.antt =====
-- A capture that rotates, on a disk with two closed segments.
use sbsh.Base.{
  ℕ, ◌≡◌, refl, true, false, ◌⊎◌, inl, inr, Option, none, some, List, [], ◌∷◌, ◌++◌, arith,
}
use sbsh.Errdefs.{Error, message}
use sbsh.Capture.{
  gather, insert_segment, remove_file, open_segment, Disk, segment, collapse, read_all, read_paths,
  read_segment, find_file,
}
use sbsh.Capture.Files.{raw, zipped}
use sbsh.Capture.Compressing.{
  Compression, compress_segment, IsOutcome, unrefused, compress_segment-read_segment,
}
use sbsh.Capture.Closing.{joined}
use sbsh.Capture.Live.{CaptureWriter, Os, live_file}
use sbsh.Capture.Pruning.{prune, drop_by_count, drop_by_bytes}
use sbsh.Capture.Pruning.Retention.{file_after, goes, retained, fits, prune-retained}
use sbsh.Capture.Writer.{Limits, write, new_capture_writer}
use sbsh.Capture.Writer.Sound.{IsMade, IsSound, new_capture_writer-IsMade, write-IsSound}
use sbsh.Capture.Writer.Session.{writes, writes-read_all}

-- A compressor that marks what it has packed.
abbrev gzip : List ℕ → List ℕ
gzip b = 31 ∷ b

abbrev gunzip : List ℕ → Error ⊎ (List ℕ × Option Error)
gunzip [] = inl (message "EOF")
gunzip (h ∷ b) = inr (b, none)

abbrev disk : Disk
disk = record {
  live = some (7 ∷ 8 ∷ []);
  entries = zipped 0 (31 ∷ 1 ∷ 2 ∷ []) ∷ zipped 1 (31 ∷ 3 ∷ []) ∷ raw 1 (3 ∷ []) ∷ [];
}

abbrev compression : Compression
compression = record {
  open_raw = none;
  create = none;
  copy = none;
  flush = none;
  close_tmp = none;
  rename = none;
  remove = none;
  short = 0;
}

abbrev os : Os
os = record {
  event = λ p. inr p;
  header = inr [];
  write = none;
  close = none;
  rename = none;
  compression = compression;
  reopen = none;
  stat = none;
  header_write = none;
  ls = none;
  remove = λ p. none;
}

-- A write of which the kernel takes one byte.
abbrev short : Os
short = record {
  event = λ p. inr p;
  header = inr [];
  write = some (1, message "no space left on device");
  close = none;
  rename = none;
  compression = compression;
  reopen = none;
  stat = none;
  header_write = none;
  ls = none;
  remove = λ p. none;
}

abbrev writer : CaptureWriter
writer = record {
  handle = live_file;
  size = 2;
  next_seq = 2;
  max_bytes = 4;
  retain_segments = 0;
  retain_bytes = 0;
  asciicast = false;
}

abbrev keeping_one : CaptureWriter
keeping_one = record {
  handle = live_file;
  size = 2;
  next_seq = 2;
  max_bytes = 4;
  retain_segments = 1;
  retain_bytes = 0;
  asciicast = false;
}

abbrev limits : Limits
limits = record { max_bytes = 4; retain_segments = 1; retain_bytes = 0; asciicast = false }

-- The second write crosses the limit and rotates; the third is short.
abbrev session : List (Os × List ℕ)
session = (os, 9 ∷ []) ∷ (os, 10 ∷ 11 ∷ []) ∷ (short, 12 ∷ 13 ∷ []) ∷ []

taken : (writes gzip session (writer, disk)).0 ≡ 9 ∷ 10 ∷ 11 ∷ 12 ∷ []
unfolding writes write compress_segment find_file
taken = refl

rotated : (writes gzip session (writer, disk)).1.1 ≡ record {
  live = some (12 ∷ []);
  entries = zipped 2 (31 ∷ 7 ∷ 8 ∷ 9 ∷ 10 ∷ 11 ∷ []) ∷ disk.entries;
}
unfolding writes write compress_segment find_file remove_file prune drop_by_count drop_by_bytes
rotated = refl

transcript : read_all gunzip unrefused none none disk ≡ inr (1 ∷ 2 ∷ 3 ∷ 7 ∷ 8 ∷ [])
unfolding read_all gather insert_segment read_paths read_segment open_segment find_file
transcript = refl

pruned : (prune os keeping_one disk).entries ≡ zipped 1 (31 ∷ 3 ∷ []) ∷ raw 1 (3 ∷ []) ∷ []
unfolding prune drop_by_count drop_by_bytes remove_file gather insert_segment
pruned = refl

-- A segment with both files: its compressed one is back after the prune, beyond the bound of one.
abbrev both : Disk
both = record {
  live = some [];
  entries = raw 0 (1 ∷ []) ∷ zipped 0 (31 ∷ 1 ∷ []) ∷ raw 1 (3 ∷ []) ∷ [];
}

left_over :
    collapse (prune os keeping_one both).entries ≡ zipped 0 (31 ∷ 1 ∷ []) ∷ raw 1 (3 ∷ []) ∷ []
unfolding prune drop_by_count drop_by_bytes remove_file gather insert_segment
left_over = refl

compress_segment-read_segment_example :
    (read_segment gunzip unrefused (segment 1 false) (compress_segment gzip compression 1 disk).left
      ≡ inr (some (3 ∷ [])))
    × IsOutcome 1 (compress_segment gzip compression 1 disk)
unfolding find_file
compress_segment-read_segment_example =
    compress_segment-read_segment gzip gunzip compression 1 disk (3 ∷ []) refl refl

prune-retained_example :
    (find_file 0 false (prune os keeping_one disk).entries
      ≡ file_after
          (goes os.remove (retained keeping_one (collapse disk.entries)).0 0 false)
          (find_file 0 false disk.entries))
    × ((prune os keeping_one disk).live ≡ disk.live)
    × ((retained keeping_one (collapse disk.entries)).0
          ++ (retained keeping_one (collapse disk.entries)).1
        ≡ collapse disk.entries)
    × (fits keeping_one (retained keeping_one (collapse disk.entries)).1 ≡ true)
prune-retained_example = prune-retained os keeping_one disk 0 false refl

writes-read_all_example :
    read_all gunzip unrefused none none (writes gzip session (writer, disk)).1.1
    ≡ joined (read_all gunzip unrefused none none disk) (inr (writes gzip session (writer, disk)).0)
writes-read_all_example =
    writes-read_all gzip gunzip session writer disk (λ b. refl) (refl, refl, refl) (omega arith)
      ((omega arith, (omega arith, (omega arith, tt))), tt)

write-IsSound_example : IsSound (write gzip os keeping_one disk (9 ∷ 10 ∷ [])).1
write-IsSound_example =
    write-IsSound gzip os keeping_one disk (9 ∷ 10 ∷ []) (omega arith)
      ((omega arith, (omega arith, (omega arith, tt))), tt)

new_capture_writer-IsMade_example : IsMade (new_capture_writer os none limits disk)
new_capture_writer-IsMade_example = new_capture_writer-IsMade os none limits disk (omega arith)
