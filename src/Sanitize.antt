-- ===== src/Sanitize.antt =====
-- internal/discovery/sanitize.go: the escaping of control runes in a listing. A text is the list of
-- the runes that a `range` loop decodes of it.
pub mod Printable
mod Tests
use sbsh.Base.{
  ℕ, ◌+◌, ◌-◌, ◌/◌, ◌%◌, Bool, true, false, ◌&&◌, ◌||◌, List, [], ◌∷◌, ◌++◌, ltb, leb, ◌==◌,
  if◌then◌else◌,
}

-- `isControlRune`.
abbrev pub is_control_rune : ℕ → Bool
is_control_rune r = ltb r 0x20 || ((r == 0x7f) || (leb 0x80 r && leb r 0x9f))

-- `hex[n]`, for an index below 16.
abbrev pub hex : ℕ → ℕ
hex n = if ltb n 10 then b'0' + n else b'a' + (n - 10)

-- `\xNN`, of the byte of a rune.
abbrev pub escaped : ℕ → List ℕ
escaped r = b'\\' ∷ b'x' ∷ hex (r % 256 / 16) ∷ hex (r % 256 % 16) ∷ []

-- `needsSanitize`.
unfoldable pub needs_sanitize : List ℕ → Bool
needs_sanitize [] = false
needs_sanitize (r ∷ s) = let rest = needs_sanitize s in if is_control_rune r then true else rest

-- The loop of `sanitizeField`.
unfoldable pub sanitize_runes : List ℕ → List ℕ
sanitize_runes [] = []
sanitize_runes (r ∷ s) =
    let rest = sanitize_runes s in if is_control_rune r then escaped r ++ rest else r ∷ rest

-- `sanitizeField`.
unfoldable pub sanitize_field : List ℕ → List ℕ
unfolding needs_sanitize sanitize_runes
sanitize_field s = if needs_sanitize s then sanitize_runes s else s
