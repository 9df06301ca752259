-- ===== src/Capture/Writer/Transcript.antt =====
-- What the readers return before and after a write.
use sbsh.Base.{
  zero, suc, ℕ, ◌≡◌, refl, sym, ap, ◌∙◌, ◌&&◌, ◌⊎◌, inr, Option, none, some, List, [], ◌∷◌, ◌++◌,
  ◌+◌, leb, ltb, if◌then◌else◌, if-elim, length, take, take-length,
}
use sbsh.Errdefs.{Error}
use sbsh.Capture.{Entry, Disk, read_all}
use sbsh.Capture.Order.{Below}
use sbsh.Capture.Compressing.{unrefused}
use sbsh.Capture.Closing.{joined, joined-nil, joined_assoc, closed}
use sbsh.Capture.Live.{
  Handle, nil, live_file, stale, CaptureWriter, Os, present, accepted, with_size,
}
use sbsh.Capture.Writer.{write, after_write, write_encoded, write_handle}
use sbsh.Capture.Writer.Rotation.{IsPlain, view, read_all-view, after_close-view}

-- The live file is there when the writer holds it.
abbrev pub IsReady : Handle → Option (List ℕ) → Type 0
IsReady live_file none = ⊥
IsReady live_file (some l) = Unit
IsReady nil o = Unit
IsReady stale o = Unit

take-taken : (n : ℕ) (p : List ℕ) → take (length (take n p)) p ≡ take n p
take-taken zero p = refl
take-taken (suc n) [] = refl
take-taken (suc n) (x ∷ p) = ap (λ r. x ∷ r) (take-taken n p)

module _ (gunzip : List ℕ → Error ⊎ (List ℕ × Option Error)) (gzip : List ℕ → List ℕ)
    (g : (b : List ℕ) → gunzip (gzip b) ≡ inr (b, none)) where
  view-append :
      (es : List Entry) (l p : List ℕ) → view gunzip es (l ++ p) ≡ joined (view gunzip es l) (inr p)
  unfolding view
  view-append es l p = sym (joined_assoc (closed gunzip (record { live = none; entries = es })) l p)

  view-append_all :
      (es : List Entry) (l p : List ℕ)
      → view gunzip es (l ++ p) ≡ joined (view gunzip es l) (inr (take (length p) p))
  view-append_all es l p =
      view-append es l p ∙ ap (λ x. joined (view gunzip es l) (inr x)) (sym (take-length p))

  -- The write of the bytes themselves to a live file that is there.
  write_record-view :
      (o : Option (ℕ × Error)) (a : Os) (w : CaptureWriter) (l : List ℕ) (es : List Entry)
      (p : List ℕ)
      → IsPlain w
      → Below w.next_seq es
      → view gunzip
          (after_write gzip a w
            (record { live = some (l ++ accepted o p); entries = es })
            p
            o).1.1.entries
          (present
            (after_write gzip a w
              (record { live = some (l ++ accepted o p); entries = es })
              p
              o).1.1.live)
        ≡ joined (view gunzip es l) (
            inr (
              take
                (after_write gzip a w
                  (record { live = some (l ++ accepted o p); entries = es })
                  p
                  o).0.0
                p))
  write_record-view (some (n, e)) a w l es p (q, k, z) b =
      view-append es l (take n p)
      ∙ rw q (ap (λ x. joined (view gunzip es l) (inr x)) (sym (take-taken n p)))
  write_record-view none a w l es p q b =
      if-elim {A = CaptureWriter × Disk}
        (λ r.
          view gunzip r.1.entries (present r.1.live)
          ≡ joined (view gunzip es l) (inr (take (length p) p)))
        (ltb 0 w.max_bytes && leb w.max_bytes w.size)
        (λ _.
          after_close-view gunzip gzip g a.close a w (some (l ++ p)) es q b
          ∙ view-append_all es l p)
        (λ _. view-append_all es l p)

  write_encoded-view :
      (r : Error ⊎ List ℕ) (a : Os) (w : CaptureWriter) (l : List ℕ) (es : List Entry) (p : List ℕ)
      → IsPlain w
      → Below w.next_seq es
      → r ≡ inr p
      → view gunzip
          (write_encoded gzip a w (record { live = some l; entries = es }) p r).1.1.entries
          (present (write_encoded gzip a w (record { live = some l; entries = es }) p r).1.1.live)
        ≡ joined
            (view gunzip es l)
            (inr (take (write_encoded gzip a w (record { live = some l; entries = es }) p r).0.0 p))
  write_encoded-view r a w l es p q b h =
      rw h (
        write_record-view a.write a (with_size (w.size + length (accepted a.write p)) w) l es p q b)

  write_handle-view :
      (h : Handle) (a : Os) (w : CaptureWriter) (live : Option (List ℕ)) (es : List Entry)
      (p : List ℕ)
      → IsPlain w
      → Below w.next_seq es
      → IsReady h live
      → view gunzip
          (write_handle h gzip a w (record { live = live; entries = es }) p).1.1.entries
          (present (write_handle h gzip a w (record { live = live; entries = es }) p).1.1.live)
        ≡ joined
            (view gunzip es (present live))
            (inr (take (write_handle h gzip a w (record { live = live; entries = es }) p).0.0 p))
  write_handle-view nil a w live es p q b r = sym (joined-nil (view gunzip es (present live)))
  write_handle-view stale a w live es p (q, k, z) b r =
      rw q (sym (joined-nil (view gunzip es (present live))))
  write_handle-view live_file a w none es p q b r = absurd r
  write_handle-view live_file a w (some l) es p (q, k, z) b r =
      write_encoded-view (if w.asciicast then a.event p else inr p) a w l es p (q, k, z) b
        (rw q refl)

-- With raw bytes and no retention, whatever the kernel answers to the calls of `Write`, short
-- writes and failures of the close, the rename, any step of the compression or the reopening
-- included, `ReadAll` afterwards returns what it returned before, followed by the bytes of `p` that
-- `Write` says it took: rotation loses nothing, repeats nothing and changes no order. gzip is what
-- `gunzip` undoes, each closed segment is numbered below the writer's next, and the live file is
-- there when the writer holds it.
pub write-read_all :
    (gzip : List ℕ → List ℕ) (gunzip : List ℕ → Error ⊎ (List ℕ × Option Error)) (a : Os)
    (w : CaptureWriter) (d : Disk) (p : List ℕ)
    → ((b : List ℕ) → gunzip (gzip b) ≡ inr (b, none))
    → IsPlain w
    → Below w.next_seq d.entries
    → IsReady w.handle d.live
    → read_all gunzip unrefused none none (write gzip a w d p).1.1
      ≡ joined (read_all gunzip unrefused none none d) (inr (take (write gzip a w d p).0.0 p))
unfolding write
write-read_all gzip gunzip a w d p g q b r =
    read_all-view gunzip (write_handle w.handle gzip a w d p).1.1
    ∙ write_handle-view gunzip gzip g w.handle a w d.live d.entries p q b r
    ∙ ap (λ x. joined x (inr (take (write_handle w.handle gzip a w d p).0.0 p)))
        (sym (read_all-view gunzip d))
