-- ===== src/Filter/Progress.antt =====
-- `Process` always consumes part of its window, and writes only what the caller may read.
use sbsh.Base.{
  ℕ, zero, suc, ◌≤◌, ◌<◌, ◌≡◌, refl, Option, none, some, List, [], ◌∷◌, arith, length, length-take,
  take,
}
use mathlib.Core.Path.{subst}
use sbsh.Filter.Bytes.{index_byte, index, index_byte-lt, index-fits}
use sbsh.Filter.{
  ClientEscapeFilter, Chunk, default_esc, paste_start, paste_end, process_window, process, escapes,
  pasting, starting, adjacent,
}

abbrev pub available : Chunk → ℕ → ℕ
available c n = elim c.out [ none ↦ n | some o ↦ length o ]

-- The contract of `Process` that its callers rely on.
pub record IsFair (n : ℕ) (c : Chunk) : Type 0 where
  pub consumes : 0 < c.ncons
  pub in_window : c.ncons ≤ n
  pub writes : c.nwrite ≡ c.ncons
  pub in_out : c.nwrite ≤ available c n

adjacent-IsFair :
    (e : ClientEscapeFilter) (esc b : ℕ) (rest : List ℕ) (r : Option ℕ)
    → index_byte (b ∷ rest) esc ≡ r
    → IsFair (length (b ∷ rest)) (adjacent e esc (b ∷ rest) r).1
unfolding adjacent
adjacent-IsFair e esc b rest none h = ground arith
adjacent-IsFair e esc b rest (some i) h = ground (arith, index_byte-lt (b ∷ rest) esc i h)

escapes-IsFair :
    (e : ClientEscapeFilter) (esc b : ℕ) (rest : List ℕ)
    → IsFair (length (b ∷ rest)) (escapes e esc (b ∷ rest)).1
unfolding escapes
escapes-IsFair e esc b rest = adjacent-IsFair _ esc b rest _ refl

starting-IsFair :
    (e : ClientEscapeFilter) (esc b : ℕ) (rest : List ℕ) (r : Option ℕ)
    → index (b ∷ rest) paste_start ≡ r
    → IsFair (length (b ∷ rest)) (starting e esc (b ∷ rest) r).1
unfolding starting
starting-IsFair e esc b rest none h = escapes-IsFair e esc b rest
starting-IsFair e esc b rest (some j) h =
    ground (arith, index-fits (b ∷ rest) paste_start j h, escapes-IsFair e esc b rest)

pasting-IsFair :
    (e : ClientEscapeFilter) (b : ℕ) (rest : List ℕ) (r : Option ℕ)
    → index (b ∷ rest) paste_end ≡ r
    → IsFair (length (b ∷ rest)) (pasting e (b ∷ rest) r).1
unfolding pasting
pasting-IsFair e b rest none h = ground arith
pasting-IsFair e b rest (some j) h = ground (arith, index-fits (b ∷ rest) paste_end j h)

pub process_window-IsFair :
    (e : ClientEscapeFilter) (b : ℕ) (rest : List ℕ)
    → IsFair (length (b ∷ rest)) (process_window e (b ∷ rest)).1
unfolding process_window
process_window-IsFair e b rest = ground (
  arith,
  pasting-IsFair e b rest _ refl,
  starting-IsFair e (default_esc e.esc) b rest _ refl,
  escapes-IsFair e (default_esc e.esc) b rest,
)

-- On a window that holds at least one byte, `Process` consumes at least one byte and no more than
-- the window, writes exactly as many bytes as it consumes, and has them in its output slice.
pub process-IsFair :
    (e : ClientEscapeFilter) (buf : List ℕ) (n : ℕ)
    → 0 < n
    → n ≤ length buf
    → IsFair n (process e buf n).1
unfolding process
process-IsFair e buf zero h k = elim h [ ]
process-IsFair e [] (suc n) h k = elim k [ ]
process-IsFair e (b ∷ rest) (suc n) h k =
    subst (λ m. IsFair m (process_window e (b ∷ take n rest)).1) window
      (process_window-IsFair e b (take n rest))
  where
    window : length (b ∷ take n rest) ≡ suc n
    window = omega (arith, length-take n rest)
