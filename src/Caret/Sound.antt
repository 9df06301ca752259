-- ===== src/Caret/Sound.antt =====
-- What holds of `parseCaret` on every input: it ends, and its output is no longer than its input.
use sbsh.Base.{
  ℕ, zero, suc, ◌+◌, ◌≤◌, ◌<◌, ◌≡◌, ◌≢◌, refl, ◌||◌, Option, none, some, List, [], ◌∷◌, arith, ◌==◌,
  length, drop, length-drop, inl, inr, ◌⊎◌, Bool-cases,
}
use sbsh.Caret.{
  controlled, CaretError, Result, ok, err, out_of_fuel, caret_byte, hex_nibble, caret, backslash,
  hex_escape, join_nibbles, decode_one, parse, parse_caret, ◌>>=◌,
}
use sbsh.Caret.Escapes.{AllBytes}

pub Result-cases {ℓ} :
    {A : Type ℓ} (r : Result A) → ((a : A) × (r ≡ ok a)) ⊎ ((e : CaretError) × (r ≡ err e))
Result-cases (ok a) = inl (a, refl)
Result-cases (err e) = inr (e, refl)

-- One round consumes at least a byte and appends a byte.
abbrev Fits : ℕ → Result (ℕ × ℕ) → Type 0
Fits n (ok (v, k)) = (0 < k) × (k ≤ n) × (v < 256)
Fits n (err e) = e ≢ out_of_fuel

hex_nibble-lt : (c n : ℕ) → hex_nibble c ≡ some n → n < 16
unfolding hex_nibble
hex_nibble-lt c n h = ground arith

caret_byte-lt : (c n : ℕ) → caret_byte c ≡ some n → n < 128
unfolding caret_byte
caret_byte-lt c n h = ground arith

join-Fits :
    (n i h l : ℕ) (a b : Option ℕ)
    → hex_nibble h ≡ a
    → hex_nibble l ≡ b
    → Fits (suc (suc (suc (suc n)))) (join_nibbles a b i)
join-Fits n i h l (some x) (some y) p q = omega (arith, hex_nibble-lt h x p, hex_nibble-lt l y q)
join-Fits n i h l (some x) none p q = λ e. cc
join-Fits n i h l none b p q = λ e. cc

hex-Fits : (i : ℕ) (rest : List ℕ) → Fits (suc (suc (length rest))) (hex_escape i rest)
hex-Fits i [] = λ e. cc
hex-Fits i (h ∷ []) = λ e. cc
hex-Fits i (h ∷ l ∷ rest) = join-Fits (length rest) i h l _ _ refl refl

backslash-Fits : (i : ℕ) (rest : List ℕ) → Fits (suc (length rest)) (backslash i rest)
backslash-Fits i [] = λ e. cc
backslash-Fits i (c ∷ rest) = elim (Bool-cases (c == b'\\')) [
  | inl y ↦ rw y (omega arith)
  | inr n ↦ elim (Bool-cases ((c == b'x') || (c == b'X'))) [
    | inl x ↦ rw (n, x) (hex-Fits i rest)
    | inr x ↦ rw (n, x) (λ e. cc)
  ]
]

controlled-Fits :
    (n i c : ℕ) (r : Option ℕ) → caret_byte c ≡ r → Fits (suc (suc n)) (controlled i c r)
controlled-Fits n i c none h = λ e. cc
controlled-Fits n i c (some v) h = omega (arith, caret_byte-lt c v h)

caret-Fits : (i : ℕ) (rest : List ℕ) → Fits (suc (length rest)) (caret i rest)
caret-Fits i [] = λ e. cc
caret-Fits i (c ∷ rest) = controlled-Fits (length rest) i c _ refl

decode-Fits : (i b : ℕ) (rest : List ℕ) → b < 256 → Fits (length (b ∷ rest)) (decode_one i b rest)
unfolding decode_one
decode-Fits i b rest h = elim (Bool-cases (b == b'^')) [
  | inl y ↦ rw y (caret-Fits i rest)
  | inr n ↦ elim (Bool-cases (b == b'\\')) [
    | inl y ↦ rw (n, y) (backslash-Fits i rest)
    | inr m ↦ rw (n, m) (omega arith)
  ]
]

AllBytes-drop : (k : ℕ) (bs : List ℕ) → AllBytes bs → AllBytes (drop k bs)
AllBytes-drop zero bs h = h
AllBytes-drop (suc k) [] h = h
AllBytes-drop (suc k) (b ∷ bs) h = AllBytes-drop k bs h.1

-- What is promised of the result for an input of `n` bytes.
abbrev pub Sound : ℕ → Result (List ℕ) → Type 0
Sound n (ok out) = (length out ≤ n) × AllBytes out
Sound n (err e) = e ≢ out_of_fuel

Sound-cons :
    (n m v : ℕ) (r : Result (List ℕ))
    → v < 256
    → suc n ≤ m
    → Sound n r
    → Sound m (r >>= λ out. ok (v ∷ out))
Sound-cons n m v (ok out) h k s = (omega arith, (h, s.1))
Sound-cons n m v (err e) h k s = s

parse-bind :
    (fuel i b : ℕ) (rest : List ℕ) (r : Result (ℕ × ℕ))
    → decode_one i b rest ≡ r
    → Fits (length (b ∷ rest)) r
    → ((k j : ℕ) → 0 < k → Sound (length (drop k (b ∷ rest))) (parse fuel j (drop k (b ∷ rest))))
    → Sound (length (b ∷ rest)) (parse (suc fuel) i (b ∷ rest))
unfolding parse
parse-bind fuel i b rest (ok (v, k)) e f ih = rw e (
    Sound-cons (length (drop k (b ∷ rest))) _ v (parse fuel (i + k) (drop k (b ∷ rest))) f.2
      (omega (arith, f, length-drop k (b ∷ rest))) (ih k (i + k) f.0))
parse-bind fuel i b rest (err x) e f ih = rw e f

parse-Sound :
    (fuel i : ℕ) (bs : List ℕ)
    → AllBytes bs
    → length bs ≤ fuel
    → Sound (length bs) (parse fuel i bs)
unfolding parse
parse-Sound fuel i [] h k = (omega arith, tt)
parse-Sound zero i (b ∷ bs) h k = absurd (omega arith)
parse-Sound (suc fuel) i (b ∷ bs) h k =
    parse-bind fuel i b bs _ refl (decode-Fits i b bs h.0) λ n j pos.
      parse-Sound fuel j (drop n (b ∷ bs)) (AllBytes-drop n (b ∷ bs) h)
        (omega (arith, length-drop n (b ∷ bs)))

-- On every input of bytes `parseCaret` ends, and a success has only bytes, no more than the input.
pub parse_caret-Sound : (bs : List ℕ) → AllBytes bs → Sound (length bs) (parse_caret bs)
unfolding parse_caret
parse_caret-Sound bs h = parse-Sound (length bs) 0 bs h (omega arith)
