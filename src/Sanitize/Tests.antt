-- ===== src/Sanitize/Tests.antt =====
-- A name with an escape and a newline.
use sbsh.Base.{ℕ, ◌≡◌, refl, List, [], ◌∷◌}
use sbsh.Sanitize.{needs_sanitize, sanitize_runes, sanitize_field}
use sbsh.Sanitize.Printable.{Printable, unescape, sanitize_field-Printable, unescape-sanitize_field}

abbrev name : List ℕ
name = b'a' ∷ 0x1b ∷ b'[' ∷ 10 ∷ []

sanitized :
    sanitize_field name ≡ b'a' ∷ b'\\' ∷ b'x' ∷ b'1' ∷ b'b' ∷ b'[' ∷ b'\\' ∷ b'x' ∷ b'0' ∷ b'a' ∷ []
unfolding sanitize_field needs_sanitize sanitize_runes
sanitized = refl

sanitize_field-Printable_example : Printable (sanitize_field name)
sanitize_field-Printable_example = sanitize_field-Printable name

unescape-sanitize_field_example : unescape (sanitize_field name) ≡ name
unescape-sanitize_field_example = unescape-sanitize_field name (refl, (refl, (refl, (refl, tt))))
