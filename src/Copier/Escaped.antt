-- ===== src/Copier/Escaped.antt =====
-- `readWriteBytes` with the escape filter, on a writer that fails at nothing.
use sbsh.Base.{
  ℕ, zero, suc, ◌≤◌, ◌<◌, ◌≡◌, refl, sym, ap, ◌∙◌, false, Option, none, some, List, [], ◌∷◌, ◌++◌,
  append-nil, append_assoc, ◌==◌, arith, length, length-drop, take, drop, take-append-drop,
}
use sbsh.Errdefs.{Error}
use sbsh.Filter.{Chunk, ClientEscapeFilter, process_window}
use sbsh.Filter.Progress.{IsFair, process_window-IsFair}
use sbsh.Filter.Stream.{payload, scan, process_window-Agrees, process_window-paste_aware}
use sbsh.Copier.{
  Writer, Filter, Copied, wrote, write_all, filtered, copy_loop, read_write_bytes, progress,
  to_write, finish, read_error,
}

unfoldable pub escape_filter : Filter ClientEscapeFilter
escape_filter e p = let (e', c) = process_window e p in (e', c, none)

-- A writer that takes part of what it is given, at least a byte, and reports no error; `seen` is
-- what has arrived.
pub record IsReliable {W : Type 0} (write : Writer W) (seen : W → List ℕ) : Type 0 where
  pub no_error : (w : W) (p : List ℕ) → (write w p).2 ≡ none
  pub moves : (w : W) (b : ℕ) (p : List ℕ) → 0 < (write w (b ∷ p)).1
  pub arrives : (w : W) (p : List ℕ) → seen (write w p).0 ≡ seen w ++ take (write w p).1 p

to_write-payload :
    (c : Chunk) (p : List ℕ) → IsFair (length p) c → to_write c p ≡ some (payload c p)
to_write-payload c p h = ground arith

progress_fair : (b n : ℕ) (c : Chunk) → IsFair n c → progress b c ≡ c
progress_fair b n c h = ground arith

module _ {W : Type 0} (write : Writer W) (seen : W → List ℕ) (ok : IsReliable write seen) where
  write_all-seen :
      (fuel : ℕ) (w : W) (p : List ℕ)
      → length p ≤ fuel
      → (w' : W) × (write_all write fuel w p ≡ some (w', none)) × (seen w' ≡ seen w ++ p)
  unfolding write_all wrote
  write_all-seen fuel w [] h = (w, refl, sym (append-nil (seen w)))
  write_all-seen zero w (b ∷ p) h = absurd (omega arith)
  write_all-seen (suc fuel) w (b ∷ p) h =
      let (w', e, s) =
        write_all-seen fuel (write w (b ∷ p)).0 (drop (write w (b ∷ p)).1 (b ∷ p))
          (omega (arith, length-drop (write w (b ∷ p)).1 (b ∷ p), ok.moves w b p)) in
      (w', ground (arith, ok.no_error w (b ∷ p), ok.moves w b p, e), joined _ s)
    where
      joined :
          (x : List ℕ)
          → x ≡ seen (write w (b ∷ p)).0 ++ drop (write w (b ∷ p)).1 (b ∷ p)
          → x ≡ seen w ++ b ∷ p
      joined x q =
          q
          ∙ ap (λ t. t ++ drop (write w (b ∷ p)).1 (b ∷ p)) (ok.arrives w (b ∷ p))
          ∙ append_assoc (seen w) (take (write w (b ∷ p)).1 (b ∷ p))
              (drop (write w (b ∷ p)).1 (b ∷ p))
          ∙ ap (λ t. seen w ++ t) (take-append-drop (write w (b ∷ p)).1 (b ∷ p))

  -- A fair chunk is written whole, and the loop goes on.
  filtered_fair :
      {S : Type 0} (s : S) (w : W) (p : List ℕ) (c : Chunk) (next : W → Copied S W)
      → IsFair (length p) c
      → (w' : W) × (filtered write s w p c none next ≡ next w') × (seen w' ≡ seen w ++ payload c p)
  unfolding filtered
  filtered_fair s w p c next f =
      let (w', e, q) = write_all-seen (length (payload c p)) w (payload c p) (omega arith) in
      let busy : (c.nwrite == 0) ≡ false = ground arith in
      (w', rw (busy, to_write-payload c p f, e), q)

  -- One round of the loop: it writes the chunk and goes on behind it.
  copy_round :
      (fuel : ℕ) (f : ClientEscapeFilter) (w : W) (b : ℕ) (p : List ℕ)
      → let (f', c) = process_window f (b ∷ p) in
        (w' : W) × (copy_loop write (some escape_filter) (suc fuel) f w (b ∷ p)
          ≡ copy_loop write (some escape_filter) fuel f' w' (drop c.ncons (b ∷ p)))
        × (seen w' ≡ seen w ++ payload c (b ∷ p))
  unfolding copy_loop escape_filter
  copy_round fuel f w b p =
      let (f', c) = process_window f (b ∷ p) in
      let fair : IsFair (length (b ∷ p)) c = process_window-IsFair f b p in
      let next = λ (c : Chunk) (w' : W).
        copy_loop write (some escape_filter) fuel f' w' (drop c.ncons (b ∷ p)) in
      let (w', e, q) = filtered_fair f' w (b ∷ p) c (next c) fair in
      (
        w',
        ap (λ x. filtered write f' w (b ∷ p) x none (next x))
              (progress_fair b (length (b ∷ p)) c fair)
            ∙ e,
        q,
      )

  copy_loop-scan :
      (fuel : ℕ) (f : ClientEscapeFilter) (w : W) (p : List ℕ)
      → f.paste_aware ≡ false
      → length p ≤ fuel
      → (w' : W) × (copy_loop write (some escape_filter) fuel f w p ≡ some ((scan f p).0, w', none))
        × (seen w' ≡ seen w ++ (scan f p).1)
  unfolding copy_loop scan
  copy_loop-scan fuel f w [] a h = (w, refl, sym (append-nil (seen w)))
  copy_loop-scan zero f w (b ∷ p) a h = absurd (omega arith)
  copy_loop-scan (suc fuel) f w (b ∷ p) a h =
      let (f', c) = process_window f (b ∷ p) in
      let (w1, e, q) = copy_round fuel f w b p in
      let (w2, e', q') =
        copy_loop-scan fuel f' w1 (drop c.ncons (b ∷ p)) (process_window-paste_aware f (b ∷ p) a)
          (omega (arith, length-drop c.ncons (b ∷ p), process_window-IsFair f b p)) in
      let agrees = process_window-Agrees f b p a in
      (
        w2,
        e ∙ e' ∙ ap (λ x. some (x.0, w2, none)) (sym agrees),
        q'
            ∙ ap (λ t. t ++ (scan f' (drop c.ncons (b ∷ p))).1) q
            ∙ append_assoc (seen w) (payload c (b ∷ p)) (scan f' (drop c.ncons (b ∷ p))).1
            ∙ ap (λ x. seen w ++ x.1) (sym agrees),
      )

  -- With the escape filter outside paste awareness, and a writer that fails at nothing, one call of
  -- `readWriteBytes` delivers exactly what the byte-by-byte policy makes of the bytes read, in
  -- order, leaves the filter in the policy's state, and reports only the error of the read.
  pub read_write_bytes-scan :
      (f : ClientEscapeFilter) (w : W) (p : List ℕ) (rerr : Option Error)
      → f.paste_aware ≡ false
      → (w' : W) × (read_write_bytes write (some escape_filter) f w p rerr
          ≡ some ((scan f p).0, w', read_error rerr))
        × (seen w' ≡ seen w ++ (scan f p).1)
  unfolding read_write_bytes
  read_write_bytes-scan f w p rerr a =
      let (w', e, q) = copy_loop-scan (length p) f w p a (omega arith) in
      (w', ap (finish rerr) e, q)
