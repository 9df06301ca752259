-- ===== src/Caret.antt =====
-- cmd/sb/write/caret.go: the caret and hex escapes that `sb write` expands into raw bytes.
-- A byte is a number. The loop over the offset `i` takes fuel, and the bytes from `i` on.
pub mod Sound
pub mod Escapes
mod Tests
use sbsh.Base.{
  ℕ, zero, suc, ◌+◌, ◌-◌, ◌*◌, Bool, true, false, ◌&&◌, ◌||◌, Option, none, some, List, [], ◌∷◌,
  ◌==◌, leb, if◌then◌else◌, length, drop,
}

-- The errors of `parseCaret`, each with its offset.
pub data CaretError : Type 0 where
  dangling_caret : ℕ → CaretError
  unsupported_caret : ℕ → ℕ → CaretError
  dangling_backslash : ℕ → CaretError
  incomplete_hex : ℕ → CaretError
  invalid_hex : ℕ → CaretError
  unsupported_backslash : ℕ → ℕ → CaretError
  out_of_fuel : CaretError

pub data Result {ℓ} (A : Type ℓ) : Type ℓ where
  ok : A → Result A
  err : CaretError → Result A

infixl 5 ◌>>=◌
abbrev pub ◌>>=◌ {ℓ κ} : {A : Type ℓ} {B : Type κ} → Result A → (A → Result B) → Result B
ok a >>= f = f a
err e >>= f = err e

abbrev pub between : ℕ → ℕ → ℕ → Bool
between lo hi c = leb lo c && leb c hi

unfoldable pub caret_byte : ℕ → Option ℕ
caret_byte c =
    if c == b'?'
    then some 0x7f
    else if between b'@' b'_' c
    then some (c - b'@')
    else if between b'a' b'z' c
    then some (c - b'a' + 1)
    else none

unfoldable pub hex_nibble : ℕ → Option ℕ
hex_nibble c =
    if between b'0' b'9' c
    then some (c - b'0')
    else if between b'a' b'f' c
    then some (c - b'a' + 10)
    else if between b'A' b'F' c
    then some (c - b'A' + 10)
    else none

-- `hi<<4|lo`: the bits of the two nibbles are disjoint.
abbrev pub join_nibbles : Option ℕ → Option ℕ → ℕ → Result (ℕ × ℕ)
join_nibbles (some hi) (some lo) i = ok (hi * 16 + lo, 4)
join_nibbles (some hi) none i = err (invalid_hex i)
join_nibbles none lo i = err (invalid_hex i)

-- `\xHH`, from the `x` on.
abbrev pub hex_escape : ℕ → List ℕ → Result (ℕ × ℕ)
hex_escape i (h ∷ l ∷ rest) = join_nibbles (hex_nibble h) (hex_nibble l) i
hex_escape i (h ∷ []) = err (incomplete_hex i)
hex_escape i [] = err (incomplete_hex i)

abbrev pub backslash : ℕ → List ℕ → Result (ℕ × ℕ)
backslash i [] = err (dangling_backslash i)
backslash i (c ∷ rest) =
    if c == b'\\'
    then ok (b'\\', 2)
    else if c == b'x' || c == b'X'
    then hex_escape i rest
    else err (unsupported_backslash c i)

abbrev pub controlled : ℕ → ℕ → Option ℕ → Result (ℕ × ℕ)
controlled i c (some decoded) = ok (decoded, 2)
controlled i c none = err (unsupported_caret c i)

abbrev pub caret : ℕ → List ℕ → Result (ℕ × ℕ)
caret i [] = err (dangling_caret i)
caret i (c ∷ rest) = controlled i c (caret_byte c)

-- One round of the loop: the byte that it appends, and by how much `i` grows.
unfoldable pub decode_one : ℕ → ℕ → List ℕ → Result (ℕ × ℕ)
decode_one i b rest =
    if b == b'^' then caret i rest else if b == b'\\' then backslash i rest else ok (b, 1)

unfoldable pub parse : ℕ → ℕ → List ℕ → Result (List ℕ)
parse fuel i [] = ok []
parse zero i (b ∷ rest) = err out_of_fuel
parse (suc fuel) i (b ∷ rest) = do
  one ← decode_one i b rest
  out ← parse fuel (i + one.1) (drop one.1 (b ∷ rest))
  ok (one.0 ∷ out)

unfoldable pub parse_caret : List ℕ → Result (List ℕ)
unfolding parse
parse_caret input = parse (length input) 0 input
