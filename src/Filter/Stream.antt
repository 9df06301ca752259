-- ===== src/Filter/Stream.antt =====
-- What the filter does to a whole stream, when it is not paste-aware: a byte at a time.
use sbsh.Base.{
  ℕ, zero, suc, ◌≡◌, refl, sym, ap, ◌∙◌, true, false, inl, inr, Option, none, some, List, [], ◌∷◌,
  ◌++◌, append-nil, take-length, drop-length, arith, Option-cases, ◌==◌, if◌then◌else◌, take, drop,
}
use mathlib.Core.Logic.{◌⊎◌}
use mathlib.Core.Path.{subst}
use sbsh.Filter.Bytes.{index_byte, shift}
use sbsh.Filter.{
  ClientEscapeFilter, Chunk, default_esc, call_on_detach, bel, process_window, escapes, adjacent,
  clear_pending,
}

-- The policy in the comment on `ClientEscapeFilter`, for one byte: a lone escape is forwarded, the
-- second of two adjacent ones becomes a BEL and detaches, any other byte passes.
abbrev pub scan_byte : ClientEscapeFilter → ℕ → ClientEscapeFilter × ℕ
scan_byte e b =
    if b == default_esc e.esc
    then (if e.saw_esc
        then (call_on_detach (record e { saw_esc = false }), bel)
        else (record e { saw_esc = true }, b))
    else (record e { saw_esc = false }, b)

abbrev pub prepend {ℓ} : {S : Type ℓ} → List ℕ → S × List ℕ → S × List ℕ
prepend o r = (r.0, o ++ r.1)

unfoldable pub scan : ClientEscapeFilter → List ℕ → ClientEscapeFilter × List ℕ
scan e [] = (e, [])
scan e (b ∷ s) = prepend ((scan_byte e b).1 ∷ []) (scan (scan_byte e b).0 s)

-- The bytes that the caller writes for a chunk: `out`, or the window itself.
abbrev pub payload : Chunk → List ℕ → List ℕ
payload c p = elim c.out [ none ↦ take c.nwrite p | some o ↦ take c.nwrite o ]

quiet : (e : ClientEscapeFilter) → e.saw_esc ≡ false → record e { saw_esc = false } ≡ e
quiet e h = ground arith

module _ (e : ClientEscapeFilter) (b : ℕ) (s : List ℕ) where
  scan_other :
      (b == default_esc e.esc) ≡ false
      → scan e (b ∷ s) ≡ prepend (b ∷ []) (scan (record e { saw_esc = false }) s)
  unfolding scan
  scan_other h = rw h

  scan_quiet :
      e.saw_esc ≡ false
      → (b == default_esc e.esc) ≡ false
      → scan e (b ∷ s) ≡ prepend (b ∷ []) (scan e s)
  scan_quiet q h = scan_other h ∙ ap (λ x. prepend (b ∷ []) (scan x s)) (quiet e q)

index_byte-first :
    (b : ℕ) (s : List ℕ) (c : ℕ)
    → ((b == c) ≡ true) × (index_byte (b ∷ s) c ≡ some 0)
      ⊎ ((b == c) ≡ false) × (index_byte (b ∷ s) c ≡ shift (index_byte s c))
unfolding index_byte
index_byte-first b s c = ground arith

scan_plain :
    (e : ClientEscapeFilter) (s : List ℕ)
    → e.saw_esc ≡ false
    → index_byte s (default_esc e.esc) ≡ none
    → scan e s ≡ (e, s)
unfolding scan
scan_plain e [] q h = refl
scan_plain e (b ∷ s) q h = elim (index_byte-first b s (default_esc e.esc)) [
  | inl (_, f) ↦ cc
  | inr (ne, f) ↦
      scan_quiet e b s q ne ∙ ap (prepend (b ∷ [])) (scan_plain e s q (ground (arith, f)))
]

scan_prefix :
    (e : ClientEscapeFilter) (s : List ℕ) (i : ℕ)
    → e.saw_esc ≡ false
    → index_byte s (default_esc e.esc) ≡ some i
    → scan e s ≡ prepend (take i s) (scan e (drop i s))
unfolding index_byte
scan_prefix e [] i q h = cc
scan_prefix e (b ∷ s) zero q h = refl
scan_prefix e (b ∷ s) (suc i) q h = elim (index_byte-first b s (default_esc e.esc)) [
  | inl (_, f) ↦ ground (arith, f)
  | inr (ne, f) ↦
      scan_quiet e b s q ne ∙ ap (prepend (b ∷ [])) (scan_prefix e s i q (ground (arith, f)))
]

-- One call of `Process` does to its window what the policy does to the bytes that it consumes.
abbrev Agrees : ClientEscapeFilter → List ℕ → ClientEscapeFilter × Chunk → Type 0
Agrees e p r = scan e p ≡ prepend (payload r.1 p) (scan r.0 (drop r.1.ncons p))

scan-nil : (e : ClientEscapeFilter) → scan e [] ≡ (e, [])
unfolding scan
scan-nil e = refl

module _ (e : ClientEscapeFilter) (b : ℕ) (s : List ℕ) where
  on_esc :
      (b == default_esc e.esc) ≡ true
      → Agrees e (b ∷ s) (
          adjacent
            (clear_pending e (default_esc e.esc) (b ∷ s))
            (default_esc e.esc)
            (b ∷ s)
            (some 0))
  unfolding adjacent scan
  on_esc h = ground arith

  cleared :
      (b == default_esc e.esc) ≡ false
      → clear_pending e (default_esc e.esc) (b ∷ s) ≡ record e { saw_esc = false }
  cleared h = ground arith

  on_other :
      (r : Option ℕ)
      → (b == default_esc e.esc) ≡ false
      → index_byte s (default_esc e.esc) ≡ r
      → Agrees e
          (b ∷ s)
          (adjacent (record e { saw_esc = false }) (default_esc e.esc) (b ∷ s) (shift r))
  unfolding adjacent
  on_other none ne h =
      rw (take-length s, drop-length s, scan-nil, append-nil)
        (scan_other e b s ne
          ∙ ap (prepend (b ∷ [])) (scan_plain (record e { saw_esc = false }) s refl h))
  on_other (some i) ne h =
      let later : (suc i == 0) ≡ false = ground arith in
      rw later (
        scan_other e b s ne
        ∙ ap (prepend (b ∷ [])) (scan_prefix (record e { saw_esc = false }) s i refl h))

  escapes-Agrees : Agrees e (b ∷ s) (escapes e (default_esc e.esc) (b ∷ s))
  unfolding escapes
  escapes-Agrees = elim (index_byte-first b s (default_esc e.esc)) [
    | inl (eq, f) ↦ rw f (on_esc eq)
    | inr (ne, f) ↦ rw (f, cleared ne) (on_other _ ne refl)
  ]

  not_pasting :
      e.paste_aware ≡ false → process_window e (b ∷ s) ≡ escapes e (default_esc e.esc) (b ∷ s)
  unfolding process_window
  not_pasting h = ground arith

  pub process_window-Agrees : e.paste_aware ≡ false → Agrees e (b ∷ s) (process_window e (b ∷ s))
  process_window-Agrees h = subst (Agrees e (b ∷ s)) (sym (not_pasting h)) escapes-Agrees

pub scan-append :
    (e : ClientEscapeFilter) (s t : List ℕ)
    → scan e (s ++ t) ≡ prepend (scan e s).1 (scan (scan e s).0 t)
unfolding scan
scan-append e [] t = refl
scan-append e (b ∷ s) t = ap (prepend ((scan_byte e b).1 ∷ [])) (scan-append (scan_byte e b).0 s t)

-- A call never changes whether the filter is paste-aware.
pub process_window-paste_aware :
    (e : ClientEscapeFilter) (p : List ℕ)
    → e.paste_aware ≡ false
    → (process_window e p).0.paste_aware ≡ false
unfolding process_window adjacent
process_window-paste_aware e [] h = h
process_window-paste_aware e (b ∷ p) h =
    elim (Option-cases (index_byte (b ∷ p) (default_esc e.esc))) [
      | inl x ↦ ground (arith, x)
      | inr (i, x) ↦ ground (arith, x)
    ]
