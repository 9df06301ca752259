-- ===== src/Capture/Writer/Rotation.antt =====
-- What the readers return before and after a rotation.
use sbsh.Base.{
  ==_self, ℕ, ◌≡◌, refl, sym, ap, ◌∙◌, false, ◌⊎◌, inl, inr, Option, none, some, List, ◌∷◌, ◌+◌,
}
use mathlib.Core.Path.{subst}
use sbsh.Errdefs.{Error}
use sbsh.Capture.{Entry, Disk, wrap64, collapse, find_file, read_all, closed_segments}
use sbsh.Capture.Order.{Below}
use sbsh.Capture.Files.{raw, remove_file-Below}
use sbsh.Capture.Compressing.{
  compress_segment, compress_called, landed, landed_whole, compress_found, first_failed, calls,
  unrefused,
}
use sbsh.Capture.Closing.{
  older-live, joined, joined-nil, closed, read_all-closed, compress_called-IsNewest,
  closed-IsNewest,
}
use sbsh.Capture.Live.{
  stat_opened, reopened, nil, live_file, stale, CaptureWriter, Os, present, created,
  reopen_canonical, with_handle, with_next_seq,
}
use sbsh.Capture.Pruning.{prune, prune_listed}
use sbsh.Capture.Writer.{after_reopen, after_rename, rename_file, after_close}

-- A writer with raw bytes that drops nothing.
abbrev pub IsPlain : CaptureWriter → Type 0
IsPlain w = (w.asciicast ≡ false) × (w.retain_segments ≡ 0) × (w.retain_bytes ≡ 0)

-- The same files, and the same bytes in the live one.
abbrev Same : Disk → Disk → Type 0
Same d d' = (d'.entries ≡ d.entries) × (present d'.live ≡ present d.live)

abbrev Keeps : Disk → Option Error × (CaptureWriter × Disk) → Type 0
Keeps d r = IsPlain r.1.0 × Same d r.1.1

stat_opened-Keeps :
    (o : Option Error) (a : Os) (w : CaptureWriter) (d : Disk)
    → IsPlain w
    → Keeps d (stat_opened o a w d)
stat_opened-Keeps (some e) a w d p = (p, (refl, refl))
stat_opened-Keeps none a w d (p, q, r) = rw p ((refl, q, r), (refl, refl))

reopened-Keeps :
    (o : Option Error) (a : Os) (w : CaptureWriter) (d : Disk)
    → IsPlain w
    → Keeps d (reopened o a w d)
reopened-Keeps (some e) a w d p = (p, (refl, refl))
reopened-Keeps none a w d p = stat_opened-Keeps a.stat a (with_handle live_file w) (created d) p

prune_listed-IsPlain :
    (a : Os) (w : CaptureWriter) (d : Disk) (r : Error ⊎ List Entry)
    → IsPlain w
    → prune_listed a.remove w r d ≡ d
prune_listed-IsPlain a w d (inl e) p = refl
prune_listed-IsPlain a w d (inr segs) (p, q, r) = rw (q, r) refl

after_reopen-Keeps :
    (a : Os) (d : Disk) (r : Option Error × (CaptureWriter × Disk))
    → Keeps d r
    → Keeps d (after_reopen a r)
unfolding prune
after_reopen-Keeps a d (some e, (w, d1)) k = k
after_reopen-Keeps a d (none, (w, d1)) (p, s) =
    (p, subst (Same d) (sym (prune_listed-IsPlain a w d1 (closed_segments a.ls d1) p)) s)

find_file-raw : (n : ℕ) (l : List ℕ) (es : List Entry) → find_file n false (raw n l ∷ es) ≡ some l
unfolding find_file
find_file-raw n l es = rw (==_self n) refl

module _ (gunzip : List ℕ → Error ⊎ (List ℕ × Option Error)) where
  -- The transcript of files and live bytes.
  unfoldable pub view : List Entry → List ℕ → Error ⊎ List ℕ
  view es b = joined (closed gunzip (record { live = none; entries = es })) (inr b)

  pub read_all-view :
      (d : Disk) → read_all gunzip unrefused none none d ≡ view d.entries (present d.live)
  unfolding view closed
  read_all-view d =
      read_all-closed gunzip d.live d.entries
      ∙ ap (λ x. joined x (inr (present d.live)))
          (older-live gunzip d.live none d.entries (collapse d.entries))

  view-Same :
      (d d' : Disk)
      → Same d d'
      → view d'.entries (present d'.live) ≡ view d.entries (present d.live)
  view-Same d d' (e, l) = ap (λ es. view es (present d'.live)) e ∙ ap (view d.entries) l

  module _ (gzip : List ℕ → List ℕ) (g : (b : List ℕ) → gunzip (gzip b) ≡ inr (b, none)) where
    -- The disk of a rotation after the compression of its segment.
    rotated : Os → ℕ → List ℕ → List Entry → Disk
    rotated a n l es =
        (compress_segment gzip a.compression n
          (record { live = none; entries = raw n l ∷ es })).left

    called : Os → ℕ → List ℕ → List Entry → Disk
    called a n l es =
        (compress_called (first_failed (calls a.compression)) a.compression n
          (record { live = none; entries = raw n l ∷ es }) (landed a.compression (gzip l))).left

    rotated-called :
        (a : Os) (n : ℕ) (l : List ℕ) (es : List Entry) → rotated a n l es ≡ called a n l es
    unfolding compress_segment rotated called
    rotated-called a n l es =
        ap
          (λ o.
            (compress_found gzip a.compression n (record { live = none; entries = raw n l ∷ es })
              o).left)
          (find_file-raw n l es)

    called-view :
        (a : Os) (n : ℕ) (l : List ℕ) (es : List Entry)
        → Below n es
        → view (called a n l es).entries (present (called a n l es).live) ≡ view es l
    unfolding view called
    called-view a n l es b =
        let (newest, gone) =
          compress_called-IsNewest n l (gzip l) es b none (first_failed (calls a.compression))
            a.compression (landed a.compression (gzip l)) (landed_whole a.compression (gzip l)) in
        ap (λ o. view (called a n l es).entries (present o)) gone
        ∙ joined-nil (closed gunzip (record { live = none; entries = (called a n l es).entries }))
        ∙ closed-IsNewest n l (gzip l) es b gunzip (g l) none none (called a n l es).entries newest

    rotated-view :
        (a : Os) (w : CaptureWriter) (n : ℕ) (l : List ℕ) (es : List Entry) (r : Disk)
        → Below n es
        → Same (rotated a n l es) r
        → view r.entries (present r.live) ≡ view es l
    rotated-view a w n l es r b k =
        view-Same (rotated a n l es) r k
        ∙ ap (λ (d : Disk). view d.entries (present d.live)) (rotated-called a n l es)
        ∙ called-view a n l es b

    after_rename-view :
        (o : Option Error) (a : Os) (w : CaptureWriter) (live : Option (List ℕ)) (es : List Entry)
        → IsPlain w
        → Below w.next_seq es
        → view
            (after_rename gzip a w
              (record { live = live; entries = es })
              (rename_file o live w.next_seq es)).1.1.entries
            (present
              (after_rename gzip a w
                (record { live = live; entries = es })
                (rename_file o live w.next_seq es)).1.1.live)
          ≡ view es (present live)
    unfolding rotated
    after_rename-view (some e) a w live es p b =
        view-Same (record { live = live; entries = es })
          (reopen_canonical a w (record { live = live; entries = es })).1.1
          (reopened-Keeps a.reopen a w (record { live = live; entries = es }) p).1
    after_rename-view none a w none es p b =
        view-Same (record { live = none; entries = es })
          (reopen_canonical a w (record { live = none; entries = es })).1.1
          (reopened-Keeps a.reopen a w (record { live = none; entries = es }) p).1
    after_rename-view none a w (some l) es p b = rw (remove_file-Below w.next_seq false es b) (
        rotated-view a w w.next_seq l es
          (after_reopen a (
            reopen_canonical a (with_next_seq (wrap64 (w.next_seq + 1)) w)
              (rotated a w.next_seq l es))).1.1
          b
          (after_reopen-Keeps a (rotated a w.next_seq l es) _ (
            reopened-Keeps a.reopen a (with_next_seq (wrap64 (w.next_seq + 1)) w)
              (rotated a w.next_seq l es) p)).1)

    pub after_close-view :
        (o : Option Error) (a : Os) (w : CaptureWriter) (live : Option (List ℕ)) (es : List Entry)
        → IsPlain w
        → Below w.next_seq es
        → view
            (after_close gzip o a w (record { live = live; entries = es })).1.1.entries
            (present (after_close gzip o a w (record { live = live; entries = es })).1.1.live)
          ≡ view es (present live)
    after_close-view (some e) a w live es p b =
        view-Same (record { live = live; entries = es })
          (reopen_canonical a (with_handle stale w) (record { live = live; entries = es })).1.1
          (reopened-Keeps a.reopen a (with_handle stale w) (record { live = live; entries = es })
            p).1
    after_close-view none a w live es p b =
        after_rename-view a.rename a (with_handle nil w) live es p b
