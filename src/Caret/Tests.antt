-- ===== src/Caret/Tests.antt =====
-- Runs of `parseCaret`, and its theorems at inputs.
use sbsh.Base.{ℕ, ◌≡◌, refl, List, [], ◌∷◌, ◌++◌, arith}
use sbsh.Caret.{ok, err, unsupported_caret, parse_caret, caret_byte, hex_nibble, parse, decode_one}
use sbsh.Caret.Escapes.{hex_escaped, parse_caret-hex_escaped}

abbrev word : List ℕ
word = b'o' ∷ b'k' ∷ []

parse_caret_run : parse_caret (b'^' ∷ b'c' ∷ b'\\' ∷ b'x' ∷ b'F' ∷ b'f' ∷ []) ≡ ok (3 ∷ 255 ∷ [])
unfolding parse_caret parse decode_one caret_byte hex_nibble
parse_caret_run = refl

parse_caret-hex_escaped_example : parse_caret (hex_escaped (0 ∷ 255 ∷ [])) ≡ ok (0 ∷ 255 ∷ [])
parse_caret-hex_escaped_example =
    parse_caret-hex_escaped (0 ∷ 255 ∷ []) (omega arith, (omega arith, tt))

-- A caret before a byte with no control code is refused, with its offset.
parse_caret_refused : parse_caret (word ++ b'^' ∷ b'!' ∷ word) ≡ err (unsupported_caret b'!' 2)
unfolding parse_caret parse decode_one caret_byte
parse_caret_refused = refl
