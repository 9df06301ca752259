-- ===== src/Sanitize/Printable.antt =====
-- A sanitized field has no control rune, and can be read back.
use sbsh.Base.{
  ℕ, ◌+◌, ◌-◌, ◌*◌, ◌/◌, ◌%◌, ◌≡◌, ◌<◌, refl, ◌∙◌, ap, true, false, inl, inr, List, [], ◌∷◌, ltb,
  ◌==◌, if◌then◌else◌, if-elim, Bool-cases, arith,
}
use sbsh.Sanitize.{is_control_rune, hex, needs_sanitize, sanitize_runes, sanitize_field}

-- The text has no control rune.
abbrev pub Printable : List ℕ → Type 0
Printable [] = Unit
Printable (r ∷ s) = (is_control_rune r ≡ false) × Printable s

-- The text has no backslash.
abbrev pub Plain : List ℕ → Type 0
Plain [] = Unit
Plain (r ∷ s) = ((r == b'\\') ≡ false) × Plain s

abbrev pub digit : ℕ → ℕ
digit c = if ltb c b'a' then c - b'0' else c - b'a' + 10

-- Reading a text back: a backslash and the three runes after it are one rune.
unfoldable pub unescape : List ℕ → List ℕ
unescape (c ∷ x ∷ h ∷ l ∷ s) =
    let short = unescape s in
    let long = unescape (x ∷ h ∷ l ∷ s) in
    if c == b'\\' then (digit h * 16 + digit l) ∷ short else c ∷ long
unescape s = s

hex-printable : (n : ℕ) → n < 16 → is_control_rune (hex n) ≡ false
hex-printable n h = ground arith

digit-hex : (n : ℕ) → n < 16 → digit (hex n) ≡ n
digit-hex n h = ground arith

control_small : (r : ℕ) → is_control_rune r ≡ true → r < 256
control_small r h = ground (arith, h)

sanitize_runes-Printable : (s : List ℕ) → Printable (sanitize_runes s)
unfolding sanitize_runes
sanitize_runes-Printable [] = tt
sanitize_runes-Printable (r ∷ s) =
    let rest = sanitize_runes-Printable s in
    if-elim Printable (is_control_rune r)
      (λ h.
        let high = hex-printable (r % 256 / 16) (omega arith) in
        let low = hex-printable (r % 256 % 16) (omega arith) in (refl, (refl, (high, (low, rest)))))
      (λ h. (h, rest))

clean-Printable : (s : List ℕ) → needs_sanitize s ≡ false → Printable s
unfolding needs_sanitize
clean-Printable [] h = tt
clean-Printable (r ∷ s) h = elim (Bool-cases (is_control_rune r)) [
  | inl e ↦ absurd (ground (arith, h, e))
  | inr e ↦ (e, clean-Printable s (rw e at h))
]

unescape-plain : (r : ℕ) (s : List ℕ) → (r == b'\\') ≡ false → unescape (r ∷ s) ≡ r ∷ unescape s
unfolding unescape
unescape-plain r [] h = refl
unescape-plain r (a ∷ []) h = refl
unescape-plain r (a ∷ b ∷ []) h = refl
unescape-plain r (a ∷ b ∷ c ∷ s) h = rw h refl

read_back :
    (r : ℕ)
    → is_control_rune r ≡ true
    → digit (hex (r % 256 / 16)) * 16 + digit (hex (r % 256 % 16)) ≡ r
read_back r h = omega (
  arith,
  control_small r h,
  digit-hex (r % 256 / 16) (omega arith),
  digit-hex (r % 256 % 16) (omega arith),
)

unescape-sanitize_runes : (s : List ℕ) → Plain s → unescape (sanitize_runes s) ≡ s
unfolding sanitize_runes unescape
unescape-sanitize_runes [] p = refl
unescape-sanitize_runes (r ∷ s) (p, ps) =
    if-elim (λ t. unescape t ≡ r ∷ s) (is_control_rune r)
      (λ h. rw (read_back r h) (ap (λ t. r ∷ t) (unescape-sanitize_runes s ps)))
      (λ h. unescape-plain r (sanitize_runes s) p ∙ ap (λ t. r ∷ t) (unescape-sanitize_runes s ps))

unescape-Plain : (s : List ℕ) → Plain s → unescape s ≡ s
unfolding unescape
unescape-Plain [] p = refl
unescape-Plain (r ∷ s) (p, ps) = unescape-plain r s p ∙ ap (λ t. r ∷ t) (unescape-Plain s ps)

-- What `sanitizeField` answers for a text of any runes has no control rune.
pub sanitize_field-Printable : (s : List ℕ) → Printable (sanitize_field s)
unfolding sanitize_field
sanitize_field-Printable s =
    if-elim Printable (needs_sanitize s) (λ h. sanitize_runes-Printable s) (clean-Printable s)

-- A text without a backslash can be read back from what `sanitizeField` answers for it: two such
-- names never look alike in a listing.
pub unescape-sanitize_field : (s : List ℕ) → Plain s → unescape (sanitize_field s) ≡ s
unfolding sanitize_field
unescape-sanitize_field s p =
    if-elim (λ t. unescape t ≡ s) (needs_sanitize s) (λ h. unescape-sanitize_runes s p)
      (λ h. unescape-Plain s p)
