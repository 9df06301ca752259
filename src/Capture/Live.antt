-- ===== src/Capture/Live.antt =====
-- internal/terminal/terminalrunner/capture_writer.go: the live capture file, and how it is opened. `Os` is what the kernel answers in one call, a `none` a call that
-- succeeds; the clock is in what `EncodeOutputEvent` and `EncodeHeader` return. Permissions are
-- applied by a callback whose errors only the log sees. A size is not bounded here, where it is an
-- int64 there.
use sbsh.Base.{
  ℕ, ◌+◌, Bool, not, ◌||◌, ◌⊎◌, inl, inr, Option, none, some, List, [], ◌++◌, ltb, String,
  if◌then◌else◌, length, take,
}
use sbsh.Errdefs.{Error, context}
use sbsh.Capture.{Disk, FilePath}
use sbsh.Capture.Compressing.{Compression}

-- `w.f`: nil, the live file, or a file whose Close failed.
pub data Handle : Type 0 where
  nil live_file stale : Handle

pub record CaptureWriter : Type 0 where
  pub handle : Handle
  pub size : ℕ
  pub next_seq : ℕ
  pub max_bytes : ℕ
  pub retain_segments : ℕ
  pub retain_bytes : ℕ
  pub asciicast : Bool

-- A write of less than everything comes with its error.
pub record Os : Type 0 where
  pub event : List ℕ → Error ⊎ List ℕ
  pub header : Error ⊎ List ℕ
  pub write : Option (ℕ × Error)
  pub close : Option Error
  pub rename : Option Error
  pub compression : Compression
  pub reopen : Option Error
  pub stat : Option Error
  pub header_write : Option (ℕ × Error)
  pub ls : Option Error
  pub remove : FilePath → Option Error

-- A live file that was unlinked takes the bytes nowhere.
abbrev pub appended : List ℕ → Option (List ℕ) → Option (List ℕ)
appended p none = none
appended p (some l) = some (l ++ p)

abbrev pub append_live : List ℕ → Disk → Disk
append_live p d = record { live = appended p d.live; entries = d.entries }

abbrev pub live_size : Option (List ℕ) → ℕ
live_size none = 0
live_size (some l) = length l

-- The bytes of `p` that a write takes, and its error.
abbrev pub accepted : Option (ℕ × Error) → List ℕ → List ℕ
accepted none p = p
accepted (some (n, e)) p = take n p

abbrev pub write_error : Option (ℕ × Error) → Option Error
write_error none = none
write_error (some (n, e)) = some e

abbrev pub with_size : ℕ → CaptureWriter → CaptureWriter
with_size n w = record {
  handle = w.handle;
  size = n;
  next_seq = w.next_seq;
  max_bytes = w.max_bytes;
  retain_segments = w.retain_segments;
  retain_bytes = w.retain_bytes;
  asciicast = w.asciicast;
}

abbrev pub with_handle : Handle → CaptureWriter → CaptureWriter
with_handle h w = record {
  handle = h;
  size = w.size;
  next_seq = w.next_seq;
  max_bytes = w.max_bytes;
  retain_segments = w.retain_segments;
  retain_bytes = w.retain_bytes;
  asciicast = w.asciicast;
}

abbrev pub with_next_seq : ℕ → CaptureWriter → CaptureWriter
with_next_seq n w = record {
  handle = w.handle;
  size = w.size;
  next_seq = n;
  max_bytes = w.max_bytes;
  retain_segments = w.retain_segments;
  retain_bytes = w.retain_bytes;
  asciicast = w.asciicast;
}

abbrev pub wrapped : String → Option Error → Option Error
wrapped msg none = none
wrapped msg (some e) = some (context msg e)

-- The header of a segment that is empty.
abbrev pub write_header :
    Error ⊎ List ℕ
    → Option (ℕ × Error)
    → CaptureWriter
    → Disk
    → Option Error × (CaptureWriter × Disk)
write_header (inl e) hw w d = (some e, (w, d))
write_header (inr hdr) hw w d = (
  wrapped "write asciicast header" (write_error hw),
  (with_size (w.size + length (accepted hw hdr)) w, append_live (accepted hw hdr) d),
)

abbrev pub with_header : Os → CaptureWriter → Disk → Option Error × (CaptureWriter × Disk)
with_header a w d =
    if not w.asciicast || ltb 0 w.size
    then (none, (w, d))
    else write_header a.header a.header_write w d

-- `onSegmentOpened`, when the Stat answers its first argument.
abbrev pub stat_opened :
    Option Error → Os → CaptureWriter → Disk → Option Error × (CaptureWriter × Disk)
stat_opened (some e) a w d = (some (context "stat capture file" e), (w, d))
stat_opened none a w d = with_header a (with_size (live_size d.live) w) d

abbrev pub on_segment_opened : Os → CaptureWriter → Disk → Option Error × (CaptureWriter × Disk)
on_segment_opened a w d = stat_opened a.stat a w d

-- The bytes at the canonical path.
abbrev pub present : Option (List ℕ) → List ℕ
present none = []
present (some l) = l

-- Opening with O_CREATE.
abbrev pub created : Disk → Disk
created d = record { live = some (present d.live); entries = d.entries }

-- `reopenCanonical`, when the open answers its first argument. The error of `onSegmentOpened` is
-- logged.
abbrev pub reopened :
    Option Error → Os → CaptureWriter → Disk → Option Error × (CaptureWriter × Disk)
reopened (some e) a w d = (some (context "reopen capture file" e), (w, d))
reopened none a w d = (none, (on_segment_opened a (with_handle live_file w) (created d)).1)

abbrev pub reopen_canonical : Os → CaptureWriter → Disk → Option Error × (CaptureWriter × Disk)
reopen_canonical a w d = reopened a.reopen a w d
