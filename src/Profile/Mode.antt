-- ===== src/Profile/Mode.antt =====
-- internal/profile/profile.go: parseFileMode, with the loop of `strconv.ParseUint(s, 8, 32)` that it
-- calls. In the loop a number is below 2^32 before each digit, so its product with 8 stays in 64
-- bits.
pub mod Octal
use sbsh.Base.{
  ℕ, ◌+◌, ◌-◌, ◌*◌, ◌%◌, Bool, true, false, ◌⊎◌, inl, inr, Option, none, some, String, ltb, leb,
  ◌==◌, ◌&&◌, if◌then◌else◌,
}
use sbsh.Profile.{ModeError, not_octal, out_of_range, bits_outside, ◌>>=◌}
use Prim.Native.Char.{Char, code}
use Prim.Native.String.{String}

-- A digit of a base up to 36, from its character.
abbrev pub digit_of : ℕ → Option ℕ
digit_of c =
    if leb b'0' c && leb c b'9'
    then some (c - b'0')
    else if leb b'a' c && leb c b'z'
    then some (c - b'a' + 10)
    else if leb b'A' c && leb c b'Z'
    then some (c - b'A' + 10)
    else none

-- The digit in base 8.
abbrev pub below_base : Option ℕ → ModeError ⊎ ℕ
below_base none = inl not_octal
below_base (some d) = if ltb d 8 then inr d else inl not_octal

abbrev pub max_uint32 : ℕ
max_uint32 = 0xffffffff

abbrev pub in_range : ℕ → ModeError ⊎ ℕ
in_range n = if ltb max_uint32 n then inl out_of_range else inr n

-- One turn of the loop, after the number `n`.
abbrev pub parse_digit : ℕ → Char → ModeError ⊎ ℕ
parse_digit n c = below_base (digit_of (code c)) >>= λ d. in_range (n * 8 + d)

unfoldable pub parse_digits : ℕ → String → ModeError ⊎ ℕ
parse_digits n String.[] = inr n
parse_digits n (String.◌∷◌ c s) = parse_digit n c >>= λ m. parse_digits m s

unfoldable pub parse_uint : String → ModeError ⊎ ℕ
unfolding parse_digits
parse_uint String.[] = inl not_octal
parse_uint (String.◌∷◌ c s) = parse_digits 0 (String.◌∷◌ c s)

-- `n & ^chmodMask`, where the mask is the twelve lowest bits.
abbrev pub outside_mask : ℕ → ℕ
outside_mask n = n - n % 0x1000

abbrev pub masked : ℕ → ModeError ⊎ ℕ
masked n = if outside_mask n == 0 then inr n else inl (bits_outside n)

-- `parseFileMode`.
unfoldable pub parse_file_mode : String → ModeError ⊎ ℕ
unfolding parse_uint
parse_file_mode s = parse_uint s >>= masked
