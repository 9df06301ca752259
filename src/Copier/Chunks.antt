-- ===== src/Copier/Chunks.antt =====
-- A stream that arrives in any number of reads, through the escape filter.
use sbsh.Base.{
  ℕ, ◌≡◌, refl, sym, ap, ◌∙◌, false, true, none, some, List, [], ◌∷◌, ◌++◌, map, append_assoc,
  arith,
}
use sbsh.Errdefs.{Error, context}
use sbsh.Filter.{ClientEscapeFilter}
use sbsh.Filter.Stream.{scan, scan_byte, scan-append}
use sbsh.Copier.{Writer, Round, ended, copied, run_read_writer}
use sbsh.Copier.Escaped.{escape_filter, IsReliable, read_write_bytes-scan}

scan-paste_aware :
    (e : ClientEscapeFilter) (s : List ℕ) → e.paste_aware ≡ false → (scan e s).0.paste_aware ≡ false
unfolding scan
scan-paste_aware e [] h = h
scan-paste_aware e (b ∷ s) h = scan-paste_aware (scan_byte e b).0 s (ground (arith, h))

-- A read without an error while the context is not done, and the read that ends the stream.
abbrev pub reads : List ℕ → Round
reads p = record { ctx_err = none; bytes = p; read_err = none }

abbrev pub last_read : List ℕ → Error → Round
last_read p e = record { ctx_err = none; bytes = p; read_err = some e }

abbrev pub joined : List (List ℕ) → List ℕ → List ℕ
joined [] q = q
joined (p ∷ ps) q = p ++ joined ps q

module _ {W : Type 0} (write : Writer W) (seen : W → List ℕ) (ok : IsReliable write seen) where
  -- With the escape filter outside paste awareness, and a writer that fails at nothing,
  -- `runReadWriter` delivers what the byte-by-byte policy makes of the whole stream, however the
  -- stream is cut into reads, bytes that come with the final error included. It then returns that
  -- error, and has called `errFunc`.
  pub run_read_writer-scan :
      (f : ClientEscapeFilter) (w : W) (ps : List (List ℕ)) (q : List ℕ) (e : Error)
      → f.paste_aware ≡ false
      → (w' : W) × (run_read_writer write
            (some escape_filter)
            (map reads ps ++ last_read q e ∷ [])
            f
            w
          ≡ some
              ((scan f (joined ps q)).0, w', ended (context "could not read stdin->socket" e) true))
        × (seen w' ≡ seen w ++ (scan f (joined ps q)).1)
  unfolding run_read_writer copied
  run_read_writer-scan f w [] q e a =
      let (w', h, s) = read_write_bytes-scan write seen ok f w q (some e) a in (w', rw h refl, s)
  run_read_writer-scan f w (p ∷ ps) q e a =
      let (w1, h, s) = read_write_bytes-scan write seen ok f w p none a in
      let (w2, h', s') = run_read_writer-scan (scan f p).0 w1 ps q e (scan-paste_aware f p a) in
      let both = scan-append f p (joined ps q) in
      (
        w2,
        ap
              (λ r.
                copied r
                  (run_read_writer write (some escape_filter) (map reads ps ++ last_read q e ∷ [])))
              h
            ∙ h'
            ∙ ap (λ x. some (x.0, w2, ended (context "could not read stdin->socket" e) true))
                (sym both),
        s'
            ∙ ap (λ t. t ++ (scan (scan f p).0 (joined ps q)).1) s
            ∙ append_assoc (seen w) (scan f p).1 (scan (scan f p).0 (joined ps q)).1
            ∙ ap (λ x. seen w ++ x.1) (sym both),
      )
