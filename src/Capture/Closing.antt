-- ===== src/Capture/Closing.antt =====
-- What the readers see of a segment that has just been closed, before and after its compression.
use sbsh.Base.{
  ==_self, ℕ, ◌≡◌, refl, sym, ap, ◌∙◌, ◌<◌, Bool, true, false, not, ◌⊎◌, inl, inr, Option, none,
  some, List, [], ◌∷◌, ◌++◌, map, append-nil, append_assoc, arith,
}
use mathlib.Core.List.{map-append}
use sbsh.Errdefs.{Error}
use sbsh.Capture.{
  gather, insert_segment, Opened, file, or_sibling, opened, Entry, Disk, FilePath, canonical,
  segment, path_of, find_file, remove_file, put_file, collapse, read_opened, open_segment,
  read_segment, read_paths, read_all, after_read,
}
use sbsh.Capture.Order.{Below}
use sbsh.Capture.Next.{collapse-last, gather-Below}
use sbsh.Capture.Files.{raw, zipped, remove_file-Below}
use sbsh.Capture.Compressing.{Compression, compress_called, remove_raw, unrefused}
use sbsh.Capture.Live.{present}

-- One read after another.
abbrev pub joined : Error ⊎ List ℕ → Error ⊎ List ℕ → Error ⊎ List ℕ
joined (inl e) r = inl e
joined (inr a) (inl e) = inl e
joined (inr a) (inr b) = inr (a ++ b)

abbrev pub on_disk : Disk → List FilePath → List (FilePath × Disk)
on_disk d ps = map (λ p. (p, d)) ps

joined-after_read :
    (o : Error ⊎ Option (List ℕ)) (r s : Error ⊎ List ℕ)
    → joined (after_read o r) s ≡ after_read o (joined r s)
joined-after_read (inl e) r s = refl
joined-after_read (inr none) r s = refl
joined-after_read (inr (some b)) (inl e) s = refl
joined-after_read (inr (some b)) (inr c) (inl e) = refl
joined-after_read (inr (some b)) (inr c) (inr x) = ap inr (append_assoc b c x)

pub joined-nil : (r : Error ⊎ List ℕ) → joined r (inr []) ≡ r
joined-nil (inl e) = refl
joined-nil (inr b) = ap inr (append-nil b)

nil-joined : (r : Error ⊎ List ℕ) → r ≡ joined (inr []) r
nil-joined (inl e) = refl
nil-joined (inr b) = refl

pub joined_assoc :
    (r : Error ⊎ List ℕ) (b c : List ℕ)
    → joined (joined r (inr b)) (inr c) ≡ joined r (inr (b ++ c))
joined_assoc (inl e) b c = refl
joined_assoc (inr a) b c = ap inr (append_assoc a b c)

-- What is opened for a path, from its file and its sibling.
abbrev seen : Bool → Option (List ℕ) → Option (List ℕ) → Opened
seen c none o = opened (not c) o
seen c (some b) o = file b c

module _ (gunzip : List ℕ → Error ⊎ (List ℕ × Option Error)) where
  -- The transcript in the closed segments.
  abbrev pub older : Disk → List Entry → Error ⊎ List ℕ
  older d segs = read_paths gunzip unrefused (on_disk d (map path_of segs))

  unfoldable pub closed : Disk → Error ⊎ List ℕ
  closed d = older d (collapse d.entries)

  read_paths-append :
      (d : Disk) (ps qs : List FilePath)
      → read_paths gunzip unrefused (on_disk d (ps ++ qs))
        ≡ joined
            (read_paths gunzip unrefused (on_disk d ps))
            (read_paths gunzip unrefused (on_disk d qs))
  unfolding read_paths
  read_paths-append d [] qs = nil-joined (read_paths gunzip unrefused (on_disk d qs))
  read_paths-append d (p ∷ ps) qs =
      ap (after_read (read_segment gunzip unrefused p d)) (read_paths-append d ps qs)
      ∙ sym (joined-after_read (read_segment gunzip unrefused p d) _ _)

  pub read_all-closed :
      (live : Option (List ℕ)) (es : List Entry)
      → read_all gunzip unrefused none none (record { live = live; entries = es })
        ≡ joined (closed (record { live = live; entries = es })) (inr (present live))
  unfolding read_all closed read_paths read_segment open_segment
  read_all-closed none es = sym (joined-nil _)
  read_all-closed (some l) es =
      read_paths-append (record { live = some l; entries = es }) (map path_of (collapse es))
        (canonical ∷ [])
      ∙ ap (λ x. joined (closed (record { live = some l; entries = es })) (inr x)) (append-nil l)

  or_sibling-seen :
      (m : ℕ) (c : Bool) (d : Disk) (o : Option (List ℕ))
      → or_sibling unrefused (segment m c) d (opened c o) ≡ seen c o (find_file m (not c) d.entries)
  or_sibling-seen m c d none = refl
  or_sibling-seen m c d (some b) = refl

  read_segment-same :
      (m : ℕ) (c : Bool) (d d' : Disk)
      → find_file m c d.entries ≡ find_file m c d'.entries
      → find_file m (not c) d.entries ≡ find_file m (not c) d'.entries
      → read_segment gunzip unrefused (segment m c) d
        ≡ read_segment gunzip unrefused (segment m c) d'
  unfolding read_segment open_segment
  read_segment-same m c d d' f g = ap (read_opened gunzip) (
      or_sibling-seen m c d (find_file m c d.entries)
      ∙ ap (λ o. seen c o (find_file m (not c) d.entries)) f
      ∙ ap (seen c (find_file m c d'.entries)) g
      ∙ sym (or_sibling-seen m c d' (find_file m c d'.entries)))

  -- The live file is no part of it.
  pub older-live :
      (live old : Option (List ℕ)) (es segs : List Entry)
      → older (record { live = live; entries = es }) segs
        ≡ older (record { live = old; entries = es }) segs
  unfolding read_paths
  older-live live old es [] = refl
  older-live live old es (s ∷ ss) =
      ap (λ r. after_read r (older (record { live = live; entries = es }) ss))
        (read_segment-same s.seq s.compressed (record { live = live; entries = es })
          (record { live = old; entries = es }) refl refl)
      ∙ ap
          (after_read
            (read_segment gunzip unrefused (path_of s) (record { live = old; entries = es })))
          (older-live live old es ss)

  -- Two disks with the same files numbered below `n` have the same older transcript.
  pub older-Below :
      (n : ℕ) (d d' : Disk) (segs : List Entry)
      → ((m : ℕ) (c : Bool) → m < n → find_file m c d.entries ≡ find_file m c d'.entries)
      → Below n segs
      → older d segs ≡ older d' segs
  unfolding read_paths
  older-Below n d d' [] f b = refl
  older-Below n d d' (s ∷ ss) f (h, b) =
      ap (λ r. after_read r (older d ss))
        (read_segment-same s.seq s.compressed d d' (f s.seq s.compressed h)
          (f s.seq (not s.compressed) h))
      ∙ ap (after_read (read_segment gunzip unrefused (path_of s) d')) (older-Below n d d' ss f b)

-- The files that stand for segment `n`, which are newer than all others.
abbrev pub IsNewest : ℕ → List ℕ → List ℕ → List Entry → List Entry → Type 0
IsNewest n b c es xs =
    (xs ≡ raw n b ∷ es) ⊎ ((xs ≡ zipped n c ∷ raw n b ∷ es) ⊎ (xs ≡ zipped n c ∷ es))

module _ (n : ℕ) (b c : List ℕ) (es : List Entry) (below : Below n es) where
  remove_raw-IsNewest :
      (live : Option (List ℕ)) (r : Option Error)
      → (IsNewest n b c es
          (remove_raw r n
            (record { live = live; entries = zipped n c ∷ raw n b ∷ es })).left.entries)
        × ((remove_raw r n (record { live = live; entries = zipped n c ∷ raw n b ∷ es })).left.live
            ≡ live)
  unfolding remove_file
  remove_raw-IsNewest live (some e) = (inr (inl refl), refl)
  remove_raw-IsNewest live none =
      (inr (inr (rw (remove_file-Below n false es below) (ground arith))), refl)

  put_zipped : put_file (zipped n c) (raw n b ∷ es) ≡ zipped n c ∷ raw n b ∷ es
  unfolding remove_file
  put_zipped = rw (remove_file-Below n true es below) (ground arith)

  pub compress_called-IsNewest :
      (live : Option (List ℕ)) (o : Option Error) (a : Compression) (c' : List ℕ)
      → (o ≡ none → c' ≡ c)
      → (IsNewest n b c es
          (compress_called o a n (record { live = live; entries = raw n b ∷ es }) c').left.entries)
        × ((compress_called o a n (record { live = live; entries = raw n b ∷ es }) c').left.live
            ≡ live)
  compress_called-IsNewest live (some e) a c' k = (inl refl, refl)
  compress_called-IsNewest live none a c' k =
      rw (k refl) (rw put_zipped (remove_raw-IsNewest live a.remove))

  collapse-both : collapse (zipped n c ∷ raw n b ∷ es) ≡ collapse es ++ raw n b ∷ []
  unfolding gather insert_segment
  collapse-both = ap (λ segs. gather segs es) (ground arith) ∙ collapse-last (raw n b) es below

  module _ (gunzip : List ℕ → Error ⊎ (List ℕ × Option Error)) (g : gunzip c ≡ inr (b, none)) where
    -- A disk on which one segment follows the older ones.
    closed-last :
        (live old : Option (List ℕ)) (xs : List Entry) (s : Entry)
        → collapse xs ≡ collapse es ++ s ∷ []
        → ((m : ℕ) (z : Bool) → m < n → find_file m z xs ≡ find_file m z es)
        → read_segment gunzip unrefused (path_of s) (record { live = live; entries = xs })
          ≡ inr (some b)
        → closed gunzip (record { live = live; entries = xs })
          ≡ joined (closed gunzip (record { live = old; entries = es })) (inr b)
    unfolding closed read_paths
    closed-last live old xs s k f r =
        ap (λ segs. older gunzip (record { live = live; entries = xs }) segs) k
        ∙ ap (λ ps. read_paths gunzip unrefused (on_disk (record { live = live; entries = xs }) ps))
            (map-append path_of (collapse es) (s ∷ []))
        ∙ read_paths-append gunzip (record { live = live; entries = xs })
            (map path_of (collapse es)) (path_of s ∷ [])
        ∙ rw r (
            ap
              (λ x.
                joined (older gunzip (record { live = live; entries = xs }) (collapse es)) (inr x))
              (append-nil b))
        ∙ ap (λ x. joined x (inr b))
            (older-Below gunzip n (record { live = live; entries = xs })
              (record { live = old; entries = es }) (collapse es) f (gather-Below n es [] tt below))

    pub closed-IsNewest :
        (live old : Option (List ℕ)) (xs : List Entry)
        → IsNewest n b c es xs
        → closed gunzip (record { live = live; entries = xs })
          ≡ joined (closed gunzip (record { live = old; entries = es })) (inr b)
    unfolding find_file read_segment open_segment
    closed-IsNewest live old xs (inl q) =
        closed-last live old xs (raw n b) (ap collapse q ∙ collapse-last (raw n b) es below)
          (λ m z h. rw q (ground (arith, h))) (rw q (rw (==_self n) refl))
    closed-IsNewest live old xs (inr (inl q)) =
        closed-last live old xs (raw n b) (ap collapse q ∙ collapse-both)
          (λ m z h. rw q (ground (arith, h))) (rw q (rw (==_self n) refl))
    closed-IsNewest live old xs (inr (inr q)) =
        closed-last live old xs (zipped n c) (ap collapse q ∙ collapse-last (zipped n c) es below)
          (λ m z h. rw q (ground (arith, h))) (rw q (rw (==_self n) (rw g refl)))
