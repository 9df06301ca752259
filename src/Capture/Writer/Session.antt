-- ===== src/Capture/Writer/Session.antt =====
-- A writer from its making through any number of writes.
use sbsh.Base.{
  ℕ, ◌≡◌, refl, sym, ap, ◌∙◌, ◌<◌, ◌≤◌, ◌+◌, ◌&&◌, ◌⊎◌, inl, inr, Option, none, some, List, [], ◌∷◌,
  ◌++◌, leb, ltb, if-elim, length, take, arith,
}
use sbsh.Errdefs.{Error}
use sbsh.Capture.{Disk, wrap64, read_all}
use sbsh.Capture.Compressing.{compress_segment, unrefused}
use sbsh.Capture.Closing.{joined, joined-nil, joined_assoc}
use sbsh.Capture.Live.{
  Handle, nil, live_file, stale, CaptureWriter, Os, accepted, with_size, with_handle, with_next_seq,
  created, stat_opened, reopened,
}
use sbsh.Capture.Writer.{
  after_reopen, after_rename, rename_live, after_close, after_write, write_encoded, write_stale,
  write_handle, write,
}
use sbsh.Capture.Writer.Rotation.{IsPlain}
use sbsh.Capture.Writer.Transcript.{write-read_all}
use sbsh.Capture.Writer.Sound.{IsSound, write-IsSound}

-- The writes of `ps`, each with the answers that it gets: the bytes taken, and the end.
unfoldable pub writes :
    (List ℕ → List ℕ) → List (Os × List ℕ) → CaptureWriter × Disk → List ℕ × (CaptureWriter × Disk)
writes gzip [] s = ([], s)
writes gzip ((a, p) ∷ ps) (w, d) =
    let r = write gzip a w d p in let (t, s) = writes gzip ps r.1 in (take r.0.0 p ++ t, s)

-- Still plain, and at most one number on.
abbrev Advances : ℕ → CaptureWriter → Type 0
Advances n w = IsPlain w × (w.next_seq ≤ n)

stat_opened-Advances :
    (n : ℕ) (o : Option Error) (a : Os) (w : CaptureWriter) (d : Disk)
    → Advances n w
    → Advances n (stat_opened o a w d).1.0
stat_opened-Advances n (some e) a w d k = k
stat_opened-Advances n none a w d ((p, q, r), l) = rw p ((refl, q, r), l)

reopened-Advances :
    (n : ℕ) (o : Option Error) (a : Os) (w : CaptureWriter) (d : Disk)
    → Advances n w
    → Advances n (reopened o a w d).1.0
reopened-Advances n (some e) a w d k = k
reopened-Advances n none a w d k =
    stat_opened-Advances n a.stat a (with_handle live_file w) (created d) k

after_reopen-Advances :
    (n : ℕ) (a : Os) (r : Option Error × (CaptureWriter × Disk))
    → Advances n r.1.0
    → Advances n (after_reopen a r).1.0
after_reopen-Advances n a (some e, (w, d)) k = k
after_reopen-Advances n a (none, (w, d)) k = k

after_rename-Advances :
    (gzip : List ℕ → List ℕ) (a : Os) (w : CaptureWriter) (d : Disk) (r : Error ⊎ Disk)
    → IsPlain w
    → Advances (w.next_seq + 1) (after_rename gzip a w d r).1.0
after_rename-Advances gzip a w d (inl e) p =
    reopened-Advances (w.next_seq + 1) a.reopen a w d (p, omega arith)
after_rename-Advances gzip a w d (inr d1) p = after_reopen-Advances (w.next_seq + 1) a _ (
    reopened-Advances (w.next_seq + 1) a.reopen a (with_next_seq (wrap64 (w.next_seq + 1)) w)
      (compress_segment gzip a.compression w.next_seq d1).left (p, omega arith))

after_close-Advances :
    (gzip : List ℕ → List ℕ) (o : Option Error) (a : Os) (w : CaptureWriter) (d : Disk)
    → IsPlain w
    → Advances (w.next_seq + 1) (after_close gzip o a w d).1.0
after_close-Advances gzip (some e) a w d p =
    reopened-Advances (w.next_seq + 1) a.reopen a (with_handle stale w) d (p, omega arith)
after_close-Advances gzip none a w d p =
    after_rename-Advances gzip a (with_handle nil w) d (rename_live a.rename w.next_seq d) p

after_write-Advances :
    (gzip : List ℕ → List ℕ) (a : Os) (w : CaptureWriter) (d : Disk) (p : List ℕ)
    (o : Option (ℕ × Error))
    → IsPlain w
    → Advances (w.next_seq + 1) (after_write gzip a w d p o).1.0
after_write-Advances gzip a w d p (some (n, e)) q = (q, omega arith)
after_write-Advances gzip a w d p none q =
    if-elim {A = CaptureWriter × Disk} (λ r. Advances (w.next_seq + 1) r.0)
      (ltb 0 w.max_bytes && leb w.max_bytes w.size) (λ _. after_close-Advances gzip a.close a w d q)
      (λ _. (q, omega arith))

write_encoded-Advances :
    (gzip : List ℕ → List ℕ) (a : Os) (w : CaptureWriter) (d : Disk) (p : List ℕ)
    (r : Error ⊎ List ℕ)
    → IsPlain w
    → Advances (w.next_seq + 1) (write_encoded gzip a w d p r).1.0
write_encoded-Advances gzip a w d p (inl e) q = (q, omega arith)
write_encoded-Advances gzip a w d p (inr rec) q =
    after_write-Advances gzip a (with_size (w.size + length (accepted a.write rec)) w) _ p a.write q

write_stale-Advances :
    (r : Error ⊎ List ℕ) (w : CaptureWriter) (d : Disk)
    → IsPlain w
    → Advances (w.next_seq + 1) (write_stale r w d).1.0
write_stale-Advances (inl e) w d q = (q, omega arith)
write_stale-Advances (inr rec) w d q = (q, omega arith)

write_handle-Advances :
    (h : Handle) (gzip : List ℕ → List ℕ) (a : Os) (w : CaptureWriter) (d : Disk) (p : List ℕ)
    → IsPlain w
    → Advances (w.next_seq + 1) (write_handle h gzip a w d p).1.0
write_handle-Advances nil gzip a w d p q = (q, omega arith)
write_handle-Advances stale gzip a w d p q = write_stale-Advances _ w d q
write_handle-Advances live_file gzip a w d p q = write_encoded-Advances gzip a w d p _ q

write-Advances :
    (gzip : List ℕ → List ℕ) (a : Os) (w : CaptureWriter) (d : Disk) (p : List ℕ)
    → IsPlain w
    → Advances (w.next_seq + 1) (write gzip a w d p).1.0
unfolding write
write-Advances gzip a w d p q = write_handle-Advances w.handle gzip a w d p q

-- With raw bytes and no retention, after any writes and whatever the kernel answers to each of their
-- calls, `ReadAll` returns what it returned before them, followed by the bytes that the writes say
-- they took, in order. gzip is what `gunzip` undoes, the writer is sound at the start, and the
-- sequence numbers stay below 2^64.
pub writes-read_all :
    (gzip : List ℕ → List ℕ) (gunzip : List ℕ → Error ⊎ (List ℕ × Option Error))
    (ps : List (Os × List ℕ)) (w : CaptureWriter) (d : Disk)
    → ((b : List ℕ) → gunzip (gzip b) ≡ inr (b, none))
    → IsPlain w
    → w.next_seq + length ps < 18446744073709551616
    → IsSound (w, d)
    → read_all gunzip unrefused none none (writes gzip ps (w, d)).1.1
      ≡ joined (read_all gunzip unrefused none none d) (inr (writes gzip ps (w, d)).0)
unfolding writes
writes-read_all gzip gunzip [] w d g q h k = sym (joined-nil _)
writes-read_all gzip gunzip ((a, p) ∷ ps) w d g q h (b, r) =
    let (q1, l) = write-Advances gzip a w d p q in
    let k1 = write-IsSound gzip a w d p (omega (arith, h)) (b, r) in
    writes-read_all gzip gunzip ps _ _ g q1 (omega (arith, h, l)) k1
    ∙ ap (λ x. joined x (inr (writes gzip ps (write gzip a w d p).1).0))
        (write-read_all gzip gunzip a w d p g q b r)
    ∙ joined_assoc (read_all gunzip unrefused none none d) _ _
