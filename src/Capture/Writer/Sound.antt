-- ===== src/Capture/Writer/Sound.antt =====
-- The invariant of the writer: its next number is above that of every closed segment, and the live
-- file is there when it holds it.
use sbsh.Base.{
  ℕ, ◌≡◌, refl, sym, ap, ◌∙◌, ◌<◌, ◌+◌, false, not, ◌||◌, ◌&&◌, ◌⊎◌, inl, inr, Option, none, some,
  List, ◌++◌, leb, ltb, if-elim, length, arith,
}
use mathlib.Core.Path.{subst}
use sbsh.Errdefs.{Error}
use sbsh.Capture.{Entry, Disk, next_seq, wrap64, find_file, put_file, closed_segments}
use sbsh.Capture.Order.{Below}
use sbsh.Capture.Next.{one_past, one_past-Below, next_seq-one_past}
use sbsh.Capture.Files.{raw}
use sbsh.Capture.Compressing.{compress_segment}
use sbsh.Capture.Live.{
  Handle, nil, live_file, stale, CaptureWriter, Os, present, accepted, with_size, with_handle,
  with_next_seq, stat_opened, write_header, reopened,
}
use sbsh.Capture.Pruning.{prune}
use sbsh.Capture.Writer.{
  after_reopen, after_rename, rename_file, after_close, after_write, write_encoded, write_stale,
  write_handle, write, Limits, new_capture_writer, permitted, first_opened, seeded, initialized,
  writer_from,
}
use sbsh.Capture.Writer.Transcript.{IsReady}
use sbsh.Capture.Writer.Numbers.{
  remove_file-Below_all, Below-suc, prune_listed-Bounded, compress_found-Below, wrap64-below,
  Below-wrap64,
}

-- The writer and its disk agree.
abbrev pub IsSound : CaptureWriter × Disk → Type 0
IsSound (w, d) = Below w.next_seq d.entries × IsReady w.handle d.live

IsReady-some : (h : Handle) (l : List ℕ) → IsReady h (some l)
IsReady-some nil l = tt
IsReady-some live_file l = tt
IsReady-some stale l = tt

write_header-IsSound :
    (r : Error ⊎ List ℕ) (hw : Option (ℕ × Error)) (w : CaptureWriter) (l : List ℕ)
    (es : List Entry)
    → Below w.next_seq es
    → IsSound (write_header r hw w (record { live = some l; entries = es })).1
write_header-IsSound (inl e) hw w l es b = (b, IsReady-some w.handle l)
write_header-IsSound (inr hdr) hw w l es b = (b, IsReady-some w.handle (l ++ accepted hw hdr))

stat_opened-IsSound :
    (o : Option Error) (a : Os) (w : CaptureWriter) (l : List ℕ) (es : List Entry)
    → Below w.next_seq es
    → IsSound (stat_opened o a w (record { live = some l; entries = es })).1
stat_opened-IsSound (some e) a w l es b = (b, IsReady-some w.handle l)
stat_opened-IsSound none a w l es b =
    if-elim (λ (r : Option Error × (CaptureWriter × Disk)). IsSound r.1)
      (not w.asciicast || ltb 0 (length l)) (λ _. (b, IsReady-some w.handle l))
      (λ _. write_header-IsSound a.header a.header_write (with_size (length l) w) l es b)

reopened-IsSound :
    (o : Option Error) (a : Os) (w : CaptureWriter) (d : Disk)
    → IsSound (w, d)
    → IsSound (reopened o a w d).1
reopened-IsSound (some e) a w d k = k
reopened-IsSound none a w d (b, r) =
    stat_opened-IsSound a.stat a (with_handle live_file w) (present d.live) d.entries b

after_reopen-IsSound :
    (a : Os) (r : Option Error × (CaptureWriter × Disk))
    → IsSound r.1
    → IsSound (after_reopen a r).1
unfolding prune
after_reopen-IsSound a (some e, (w, d)) k = k
after_reopen-IsSound a (none, (w, d)) (b, r) =
    let (b1, q) =
      prune_listed-Bounded w.next_seq d.live a.remove w (closed_segments a.ls d) d (b, refl) in
    (b1, subst (IsReady w.handle) (sym q) r)

after_rename-IsSound :
    (gzip : List ℕ → List ℕ) (o : Option Error) (a : Os) (w : CaptureWriter)
    (live : Option (List ℕ)) (es : List Entry)
    → w.next_seq + 1 < 18446744073709551616
    → Below w.next_seq es
    → IsSound
        (after_rename gzip a
          (with_handle nil w)
          (record { live = live; entries = es })
          (rename_file o live w.next_seq es)).1
unfolding compress_segment
after_rename-IsSound gzip (some e) a w live es h b =
    reopened-IsSound a.reopen a (with_handle nil w) _ (b, tt)
after_rename-IsSound gzip none a w none es h b =
    reopened-IsSound a.reopen a (with_handle nil w) _ (b, tt)
after_rename-IsSound gzip none a w (some l) es h b =
    let c =
      compress_found-Below (w.next_seq + 1) gzip a.compression w.next_seq
        (record { live = none; entries = put_file (raw w.next_seq l) es })
        (find_file w.next_seq false (put_file (raw w.next_seq l) es)) (omega arith)
        (
          omega arith,
          Below-suc w.next_seq _ (remove_file-Below_all w.next_seq w.next_seq false es b),
        ) in
    after_reopen-IsSound a _ (
      reopened-IsSound a.reopen a (with_next_seq (wrap64 (w.next_seq + 1)) (with_handle nil w)) _
        (Below-wrap64 (w.next_seq + 1) _ h c, tt))

after_close-IsSound :
    (gzip : List ℕ → List ℕ) (o : Option Error) (a : Os) (w : CaptureWriter)
    (live : Option (List ℕ)) (es : List Entry)
    → w.next_seq + 1 < 18446744073709551616
    → Below w.next_seq es
    → IsSound (after_close gzip o a w (record { live = live; entries = es })).1
after_close-IsSound gzip (some e) a w live es h b =
    reopened-IsSound a.reopen a (with_handle stale w) _ (b, tt)
after_close-IsSound gzip none a w live es h b = after_rename-IsSound gzip a.rename a w live es h b

after_write-IsSound :
    (gzip : List ℕ → List ℕ) (a : Os) (w : CaptureWriter) (l : List ℕ) (es : List Entry)
    (p : List ℕ) (o : Option (ℕ × Error))
    → w.next_seq + 1 < 18446744073709551616
    → Below w.next_seq es
    → IsSound (after_write gzip a w (record { live = some l; entries = es }) p o).1
after_write-IsSound gzip a w l es p (some (n, e)) h b = (b, IsReady-some w.handle l)
after_write-IsSound gzip a w l es p none h b =
    if-elim {A = CaptureWriter × Disk} IsSound (ltb 0 w.max_bytes && leb w.max_bytes w.size)
      (λ _. after_close-IsSound gzip a.close a w (some l) es h b)
      (λ _. (b, IsReady-some w.handle l))

write_encoded-IsSound :
    (gzip : List ℕ → List ℕ) (a : Os) (w : CaptureWriter) (l : List ℕ) (es : List Entry)
    (p : List ℕ) (r : Error ⊎ List ℕ)
    → w.next_seq + 1 < 18446744073709551616
    → Below w.next_seq es
    → IsSound (write_encoded gzip a w (record { live = some l; entries = es }) p r).1
write_encoded-IsSound gzip a w l es p (inl e) h b = (b, IsReady-some w.handle l)
write_encoded-IsSound gzip a w l es p (inr rec) h b =
    after_write-IsSound gzip a (with_size (w.size + length (accepted a.write rec)) w)
      (l ++ accepted a.write rec) es p a.write h b

write_stale-IsSound :
    (r : Error ⊎ List ℕ) (w : CaptureWriter) (d : Disk)
    → IsSound (w, d)
    → IsSound (write_stale r w d).1
write_stale-IsSound (inl e) w d k = k
write_stale-IsSound (inr rec) w d k = k

write_handle-IsSound :
    (x : Handle) (gzip : List ℕ → List ℕ) (a : Os) (w : CaptureWriter) (live : Option (List ℕ))
    (es : List Entry) (p : List ℕ)
    → w.next_seq + 1 < 18446744073709551616
    → Below w.next_seq es
    → x ≡ w.handle
    → IsReady x live
    → IsSound (write_handle x gzip a w (record { live = live; entries = es }) p).1
write_handle-IsSound nil gzip a w live es p h b q r = (b, subst (λ y. IsReady y live) q r)
write_handle-IsSound stale gzip a w live es p h b q r =
    write_stale-IsSound _ w _ (b, subst (λ y. IsReady y live) q r)
write_handle-IsSound live_file gzip a w none es p h b q r = absurd r
write_handle-IsSound live_file gzip a w (some l) es p h b q r =
    write_encoded-IsSound gzip a w l es p _ h b

-- The invariant that the next sequence number is above that of every closed segment, so that a
-- rotation never renames over one, and that the live file is there when the writer holds it, is kept
-- by every `Write`, whatever the kernel answers, in either format and with any retention, while the
-- next sequence number has not reached 2^64 - 1.
pub write-IsSound :
    (gzip : List ℕ → List ℕ) (a : Os) (w : CaptureWriter) (d : Disk) (p : List ℕ)
    → w.next_seq + 1 < 18446744073709551616
    → IsSound (w, d)
    → IsSound (write gzip a w d p).1
unfolding write
write-IsSound gzip a w d p h (b, r) =
    write_handle-IsSound w.handle gzip a w d.live d.entries p h b refl r

-- A writer that was made is sound.
abbrev pub IsMade : (Error ⊎ CaptureWriter) × Disk → Type 0
IsMade (inl e, d) = Unit
IsMade (inr w, d) = IsSound (w, d)

initialized-IsMade :
    (r : Option Error × (CaptureWriter × Disk)) → IsSound r.1 → IsMade (initialized r)
initialized-IsMade (some e, (w, d)) k = tt
initialized-IsMade (none, (w, d)) k = k

seeded-IsMade :
    (r : Error ⊎ ℕ) (a : Os) (l : Limits) (b : List ℕ) (es : List Entry) (n : ℕ)
    → r ≡ inr n
    → Below n es
    → IsMade (seeded a l (record { live = some b; entries = es }) r)
seeded-IsMade r a l b es n q h =
    rw q (initialized-IsMade _ (stat_opened-IsSound a.stat a (writer_from l n) b es h))

permitted-IsMade :
    (ls perms : Option Error) (a : Os) (l : Limits) (b : List ℕ) (es : List Entry)
    → a.ls ≡ ls
    → one_past es < 18446744073709551616
    → IsMade (permitted perms a l (record { live = some b; entries = es }))
permitted-IsMade ls (some e) a l b es q h = tt
permitted-IsMade (some e) none a l b es q h = rw q tt
permitted-IsMade none none a l b es q h =
    seeded-IsMade (next_seq a.ls (record { live = some b; entries = es })) a l b es (one_past es)
      (ap (λ o. next_seq o (record { live = some b; entries = es })) q
        ∙ next_seq-one_past (record { live = some b; entries = es })
        ∙ ap inr (wrap64-below (one_past es) h))
      (one_past-Below es (one_past es) (omega arith))

first_opened-IsMade :
    (o perms : Option Error) (a : Os) (l : Limits) (d : Disk)
    → one_past d.entries < 18446744073709551616
    → IsMade (first_opened o perms a l d)
first_opened-IsMade (some e) perms a l d h = tt
first_opened-IsMade none perms a l d h =
    permitted-IsMade a.ls perms a l (present d.live) d.entries refl h

-- `newCaptureWriter` fails, or makes a writer that resumes above every closed segment, raw or
-- compressed, that it finds on the disk, with the live file there: the invariant that every `Write`
-- keeps. No segment may have reached the number 2^64 - 1.
pub new_capture_writer-IsMade :
    (a : Os) (perms : Option Error) (l : Limits) (d : Disk)
    → one_past d.entries < 18446744073709551616
    → IsMade (new_capture_writer a perms l d)
unfolding new_capture_writer
new_capture_writer-IsMade a perms l d h = first_opened-IsMade a.reopen perms a l d h
