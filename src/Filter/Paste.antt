-- ===== src/Filter/Paste.antt =====
-- Bracketed paste: what a paste-aware filter does between the two markers.
use sbsh.Base.{ℕ, ◌≡◌, refl, true, Option, none, some, List, ◌∷◌, ◌↔◌, arith, take}
use sbsh.Filter.Bytes.{index}
use sbsh.Filter.{ClientEscapeFilter, Chunk, paste_end, process_window, pasting}
use sbsh.Filter.Stream.{payload}

-- What one call makes of the window `p` inside a paste.
pub record IsPasting (e : ClientEscapeFilter) (p : List ℕ) (r : ClientEscapeFilter × Chunk)
    : Type 0 where
  pub verbatim : payload r.1 p ≡ take r.1.ncons p
  pub undetached : r.0.detached ≡ e.detached
  pub still_aware : r.0.paste_aware ≡ true
  pub leaves : (r.0.paste_mode ≡ true) ↔ (index p paste_end ≡ none)

pasting_lem :
    (e : ClientEscapeFilter) (p : List ℕ) (r : Option ℕ)
    → e.paste_aware ≡ true
    → e.paste_mode ≡ true
    → index p paste_end ≡ r
    → IsPasting e p (pasting e p r)
unfolding pasting
pasting_lem e p none a m h = ground arith
pasting_lem e p (some j) a m h = ground arith

-- In paste mode a call forwards the bytes that it consumes as they are, escape bytes included,
-- never detaches, and stays in paste mode exactly when the window holds no end marker.
pub process_window-IsPasting :
    (e : ClientEscapeFilter) (b : ℕ) (s : List ℕ)
    → e.paste_aware ≡ true
    → e.paste_mode ≡ true
    → IsPasting e (b ∷ s) (process_window e (b ∷ s))
unfolding process_window
process_window-IsPasting e b s a m = ground (arith, pasting_lem e (b ∷ s) _ a m refl)
