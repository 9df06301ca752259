-- ===== src/Capture/Writer/Numbers.antt =====
-- What `prune`, `CompressSegment` and a rename do to the numbers of the segments.
use sbsh.Base.{
  ℕ, ◌≡◌, sym, ◌<◌, ◌+◌, ◌-◌, Bool, true, false, ◌⊎◌, inl, inr, Option, none, some, List, [], ◌∷◌,
  ltb, if-elim, length, arith,
}
use mathlib.Core.Path.{subst}
use sbsh.Errdefs.{Error}
use sbsh.Capture.{Entry, Disk, FilePath, wrap64, remove_file, is_file, path_of}
use sbsh.Capture.Order.{Below}
use sbsh.Capture.Compressing.{
  Compression, compress_called, landed, compress_found, remove_raw, first_failed, calls,
}
use sbsh.Capture.Live.{CaptureWriter}
use sbsh.Capture.Pruning.{dropped, drop_oldest, drop_by_count, drop_by_bytes, prune_listed}

pub remove_file-Below_all :
    (n m : ℕ) (gz : Bool) (es : List Entry) → Below n es → Below n (remove_file m gz es)
unfolding remove_file
remove_file-Below_all n m gz [] b = tt
remove_file-Below_all n m gz (e ∷ es) (h, b) =
    if-elim (Below n) (is_file m gz e) (λ _. remove_file-Below_all n m gz es b)
      (λ _. (h, remove_file-Below_all n m gz es b))

pub Below-suc : (n : ℕ) (es : List Entry) → Below n es → Below (n + 1) es
Below-suc n [] b = tt
Below-suc n (e ∷ es) (h, b) = (omega (arith, h), Below-suc n es b)

-- The segments are numbered below `n`, and the live file is `l`.
abbrev pub Bounded : ℕ → Option (List ℕ) → Disk → Type 0
Bounded n l d = Below n d.entries × (d.live ≡ l)

module _ (n : ℕ) (l : Option (List ℕ)) (remove : FilePath → Option Error) where
  dropped-Bounded :
      (o : Option Error) (d : Disk) (s : Entry) → Bounded n l d → Bounded n l (dropped o d s)
  dropped-Bounded (some e) d s k = k
  dropped-Bounded none d s (b, q) = (remove_file-Below_all n s.seq s.compressed d.entries b, q)

  drop_by_bytes-Bounded :
      (k total : ℕ) (ss : List Entry) (d : Disk)
      → Bounded n l d
      → Bounded n l (drop_by_bytes remove k total ss d)
  unfolding drop_by_bytes
  drop_by_bytes-Bounded k total [] d b = b
  drop_by_bytes-Bounded k total (s ∷ ss) d b =
      if-elim (Bounded n l) (ltb k total)
        (λ _.
          drop_by_bytes-Bounded k (total - length s.content) ss (drop_oldest remove d s)
            (dropped-Bounded (remove (path_of s)) d s b))
        (λ _. b)

  drop_by_count-Bounded :
      (k : ℕ) (ss : List Entry) (d : Disk)
      → Bounded n l d
      → Bounded n l (drop_by_count remove k ss d).1
  unfolding drop_by_count
  drop_by_count-Bounded k [] d b = b
  drop_by_count-Bounded k (s ∷ ss) d b =
      if-elim (λ (r : List Entry × Disk). Bounded n l r.1) (ltb k (length (s ∷ ss)))
        (λ _.
          drop_by_count-Bounded k ss (drop_oldest remove d s)
            (dropped-Bounded (remove (path_of s)) d s b))
        (λ _. b)

  pub prune_listed-Bounded :
      (w : CaptureWriter) (r : Error ⊎ List Entry) (d : Disk)
      → Bounded n l d
      → Bounded n l (prune_listed remove w r d)
  prune_listed-Bounded w (inl e) d b = b
  prune_listed-Bounded w (inr segs) d b =
      let counted =
        if-elim (λ (r : List Entry × Disk). Bounded n l r.1) (ltb 0 w.retain_segments)
          (λ _. drop_by_count-Bounded w.retain_segments segs d b) (λ _. b) in
      if-elim (Bounded n l) (ltb 0 w.retain_bytes)
        (λ _. drop_by_bytes-Bounded w.retain_bytes _ _ _ counted) (λ _. counted)

-- Compression adds no number.
module _ (n : ℕ) (gzip : List ℕ → List ℕ) where
  remove_raw-Below :
      (m : ℕ) (r : Option Error) (d : Disk)
      → Below n d.entries
      → Below n (remove_raw r m d).left.entries
  remove_raw-Below m (some e) d b = b
  remove_raw-Below m none d b = remove_file-Below_all n m false d.entries b

  compress_called-Below :
      (o : Option Error) (a : Compression) (m : ℕ) (d : Disk) (c : List ℕ)
      → m < n
      → Below n d.entries
      → Below n (compress_called o a m d c).left.entries
  compress_called-Below (some e) a m d c h b = b
  compress_called-Below none a m d c h b =
      remove_raw-Below m a.remove _ (h, remove_file-Below_all n m true d.entries b)

  pub compress_found-Below :
      (a : Compression) (m : ℕ) (d : Disk) (o : Option (List ℕ))
      → m < n
      → Below n d.entries
      → Below n (compress_found gzip a m d o).left.entries
  compress_found-Below a m d none h b = b
  compress_found-Below a m d (some c) h b =
      compress_called-Below (first_failed (calls a)) a m d (landed a (gzip c)) h b

pub wrap64-below : (n : ℕ) → n < 18446744073709551616 → wrap64 n ≡ n
wrap64-below n h = omega (arith, h)

pub Below-wrap64 :
    (n : ℕ) (es : List Entry) → n < 18446744073709551616 → Below n es → Below (wrap64 n) es
Below-wrap64 n es h b = subst (λ m. Below m es) (sym (wrap64-below n h)) b
