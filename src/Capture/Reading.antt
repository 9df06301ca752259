-- ===== src/Capture/Reading.antt =====
-- `Dump` beside `ReadAll`.
use sbsh.Base.{
  ◌≡◌, refl, ap, ℕ, true, false, ◌⊎◌, inl, inr, Option, none, some, List, [], ◌∷◌, ◌++◌,
}
use sbsh.Errdefs.{Error}
use sbsh.Capture.{
  FilePath, Disk, Opened, file, absent, fault, read_opened, dump_opened, open_segment, read_segment,
  dump_one, unpacked, copied, after_read, after_dump, read_paths, dump_paths,
}

-- A dump that wrote what a read returned, or failed as the read did.
abbrev pub Agree : Error ⊎ List ℕ → List ℕ × Option Error → Type 0
Agree (inl e) (bs, f) = (g : Error) × (f ≡ some g)
Agree (inr b) (bs, f) = (bs ≡ b) × (f ≡ none)

Agree-unpacked :
    (u : Error ⊎ (List ℕ × Option Error)) (r : Error ⊎ List ℕ) (w : List ℕ × Option Error)
    → Agree r w
    → Agree (after_read (unpacked u) r) (after_dump (copied u) w)
Agree-unpacked (inl e) r w a = (_, refl)
Agree-unpacked (inr (b, some e)) r w a = (_, refl)
Agree-unpacked (inr (b, none)) (inl e) (bs, f) (g, q) = (g, q)
Agree-unpacked (inr (b, none)) (inr c) (bs, f) (p, q) = (ap (λ x. b ++ x) p, q)

Agree-opened :
    (gunzip : List ℕ → Error ⊎ (List ℕ × Option Error)) (o : Opened) (r : Error ⊎ List ℕ)
    (w : List ℕ × Option Error)
    → Agree r w
    → Agree (after_read (read_opened gunzip o) r) (after_dump (dump_opened gunzip o) w)
Agree-opened gunzip absent r w a = a
Agree-opened gunzip (fault e) r w a = (_, refl)
Agree-opened gunzip (file b true) r w a = Agree-unpacked (gunzip b) r w a
Agree-opened gunzip (file b false) (inl e) (bs, f) (g, q) = (g, q)
Agree-opened gunzip (file b false) (inr c) (bs, f) (p, q) = (ap (λ x. b ++ x) p, q)

-- `Dump` writes exactly the bytes that `ReadAll` returns, without an error, or fails when `ReadAll`
-- fails: for any listing, when each listed path is opened on any disk, whatever became of the
-- directory by then.
pub dump_paths-Agree :
    (gunzip : List ℕ → Error ⊎ (List ℕ × Option Error)) (refuses : FilePath → Option Error)
    (ps : List (FilePath × Disk))
    → Agree (read_paths gunzip refuses ps) (dump_paths gunzip refuses ps)
unfolding read_paths dump_paths read_segment dump_one
dump_paths-Agree gunzip refuses [] = (refl, refl)
dump_paths-Agree gunzip refuses ((p, d) ∷ ps) =
    Agree-opened gunzip (open_segment refuses p d) _ _ (dump_paths-Agree gunzip refuses ps)
