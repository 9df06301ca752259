-- ===== src/Profile/Mode/Octal.antt =====
-- The numbers that octal digits write.
use sbsh.Base.{
  ℕ, ◌+◌, ◌-◌, ◌*◌, ◌≤◌, ◌≡◌, ◌↔◌, refl, ap, false, ◌⊎◌, inl, inr, String, is_empty, arith,
}
use sbsh.Profile.{ModeError, ◌>>=◌}
use sbsh.Profile.Mode.{
  max_uint32, parse_digit, parse_digits, parse_uint, outside_mask, masked, parse_file_mode,
}
use Prim.Native.Char.{Char, code}
use Prim.Native.String.{String}
use native.Mathlib.Nat.{le-mul_of_pos_right}

-- Every character is an octal digit.
abbrev pub IsOctal : String → Type 0
IsOctal String.[] = Unit
IsOctal (String.◌∷◌ c s) = (b'0' ≤ code c) × (code c ≤ b'7') × IsOctal s

-- Eight to the number of the digits.
abbrev pub weight : String → ℕ
weight String.[] = 1
weight (String.◌∷◌ c s) = 8 * weight s

-- The number that the digits write: each counts by its place.
abbrev pub octal_value : String → ℕ
octal_value String.[] = 0
octal_value (String.◌∷◌ c s) = (code c - b'0') * weight s + octal_value s

-- The text is a mode, of this number.
abbrev pub IsMode : String → ℕ → Type 0
IsMode s m = (is_empty s ≡ false) × IsOctal s × (octal_value s ≡ m) × (m ≤ 0o7777)

weight_pos : (s : String) → 1 ≤ weight s
weight_pos String.[] = omega arith
weight_pos (String.◌∷◌ c s) = omega (arith, weight_pos s)

-- What a character contributes.
abbrev Digit : ℕ → Char → ModeError ⊎ ℕ → Type 0
Digit n c (inl e) =
    ((m : ℕ) → n * 8 + (code c - b'0') ≤ m → m ≤ max_uint32 → (b'0' ≤ code c) × (code c ≤ b'7') → ⊥)
Digit n c (inr m) =
    (b'0' ≤ code c) × (code c ≤ b'7') × (m ≡ n * 8 + (code c - b'0')) × (m ≤ max_uint32)

parse_digit-Digit : (n : ℕ) (c : Char) → Digit n c (parse_digit n c)
parse_digit-Digit n c = ground arith

-- Digits after a number write that number shifted, and their own.
abbrev Writes : ℕ → String → ℕ → Type 0
Writes n s m = IsOctal s × (n * weight s + octal_value s ≡ m) × (m ≤ max_uint32)

first_fails :
    (n m : ℕ) (c : Char) (s : String) (e : ModeError)
    → Digit n c (inl e)
    → Writes n (String.◌∷◌ c s) m
    → ⊥
first_fails n m c s e h ((lo, hi, o), v, b) =
    let grows = le-mul_of_pos_right {m = weight s} (n * 8 + (code c - b'0')) (weight_pos s) in
    h m (omega (arith, v, grows)) b (lo, hi)

parse_digits_after :
    (n m : ℕ) (c : Char) (s : String) (r : ModeError ⊎ ℕ)
    → Digit n c r
    → ((k : ℕ) → k ≤ max_uint32 → (parse_digits k s ≡ inr m) ↔ Writes k s m)
    → ((r >>= λ k. parse_digits k s) ≡ inr m) ↔ Writes n (String.◌∷◌ c s) m
parse_digits_after n m c s (inl e) d ih =
    (λ h. absurd (ground (arith, h)), λ w. absurd (first_fails n m c s e d w))
parse_digits_after n m c s (inr k) (lo, hi, v, b) ih =
    let shifted = ap (λ j. j * weight s) v in
    (
      λ h. let (o, w, x) = (ih k b).0 h in ((lo, hi, o), omega (arith, shifted, w), x),
      λ ((p, q, o), w, x). (ih k b).1 (o, omega (arith, shifted, w), x),
    )

parse_digits-Writes :
    (s : String) (n m : ℕ) → n ≤ max_uint32 → (parse_digits n s ≡ inr m) ↔ Writes n s m
unfolding parse_digits
parse_digits-Writes String.[] n m h =
    (λ e. (tt, ground (arith, e), ground (arith, e)), λ (o, w, x). ap inr (omega (arith, w)))
parse_digits-Writes (String.◌∷◌ c s) n m h =
    parse_digits_after n m c s (parse_digit n c) (parse_digit-Digit n c)
      (λ k b. parse_digits-Writes s k m b)

inside_mask : (n : ℕ) → (outside_mask n ≡ 0) ↔ (n ≤ 0o7777)
inside_mask n = (λ h. omega (arith, h), λ h. omega (arith, h))

-- A result of the two steps comes from a number within the mask.
masked_lem : (r : ModeError ⊎ ℕ) (m : ℕ) → ((r >>= masked) ≡ inr m) ↔ ((r ≡ inr m) × (m ≤ 0o7777))
masked_lem (inl e) m = (λ h. absurd (ground (arith, h)), λ h. absurd (ground (arith, h)))
masked_lem (inr n) m = ground (arith, inside_mask n)

-- `parseFileMode` answers a mode just where the text is not empty, every character of it is an octal
-- digit, and the number that the digits write is that mode and has no bit outside the mask.
pub parse_file_mode-IsMode : (s : String) (m : ℕ) → (parse_file_mode s ≡ inr m) ↔ IsMode s m
unfolding parse_file_mode parse_uint is_empty
parse_file_mode-IsMode String.[] m =
    (λ h. absurd (ground (arith, h)), λ h. absurd (ground (arith, h.0)))
parse_file_mode-IsMode (String.◌∷◌ c s) m =
    let digits = parse_digits-Writes (String.◌∷◌ c s) 0 m (omega arith) in
    let mask = masked_lem (parse_digits 0 (String.◌∷◌ c s)) m in
    (
      λ h. let (o, v, b) = digits.0 (mask.0 h).0 in (refl, o, omega (arith, v), (mask.0 h).1),
      λ (e, o, v, b). mask.1 (digits.1 (o, omega (arith, v), omega (arith, b)), b),
    )
