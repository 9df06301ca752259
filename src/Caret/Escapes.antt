-- ===== src/Caret/Escapes.antt =====
-- What `parseCaret` makes of input that is written for it.
use sbsh.Base.{
  ℕ, zero, suc, ◌+◌, ◌-◌, ◌*◌, ◌/◌, ◌%◌, ◌≤◌, ◌<◌, ◌≡◌, refl, sym, ap, append-nil, ◌∙◌, false, ◌||◌,
  some, List, [], ◌∷◌, ◌++◌, arith, ◌==◌, ltb, if◌then◌else◌, length,
}
use sbsh.Caret.{Result, ok, err, hex_nibble, decode_one, parse, parse_caret, ◌>>=◌}

abbrev pub AllBytes : List ℕ → Type 0
AllBytes [] = Unit
AllBytes (b ∷ bs) = (b < 256) × AllBytes bs

abbrev pub hex_digit : ℕ → ℕ
hex_digit n = if ltb n 10 then n + b'0' else n - 10 + b'a'

-- Every byte as `\xHH`.
abbrev pub hex_escaped : List ℕ → List ℕ
hex_escaped [] = []
hex_escaped (b ∷ bs) = b'\\' ∷ b'x' ∷ hex_digit (b / 16) ∷ hex_digit (b % 16) ∷ hex_escaped bs

hex_nibble-hex_digit : (n : ℕ) → n < 16 → hex_nibble (hex_digit n) ≡ some n
unfolding hex_nibble
hex_nibble-hex_digit n h = ground arith

decode-escaped :
    (i b : ℕ) (rest : List ℕ)
    → b < 256
    → decode_one i b'\\' (b'x' ∷ hex_digit (b / 16) ∷ hex_digit (b % 16) ∷ rest) ≡ ok (b, 4)
unfolding decode_one
decode-escaped i b rest h =
    rw (hex_nibble-hex_digit (b / 16) (omega arith), hex_nibble-hex_digit (b % 16) (omega arith))
      (ap (λ t. ok (t, 4)) whole)
  where
    whole : b / 16 * 16 + b % 16 ≡ b
    whole = omega arith

parse-escaped :
    (fuel i : ℕ) (bs : List ℕ)
    → AllBytes bs
    → length bs ≤ fuel
    → parse fuel i (hex_escaped bs) ≡ ok bs
unfolding parse
parse-escaped fuel i [] h k = refl
parse-escaped zero i (b ∷ bs) h k = absurd (omega arith)
parse-escaped (suc fuel) i (b ∷ bs) h k =
    rw (decode-escaped i b (hex_escaped bs) h.0, parse-escaped fuel (i + 4) bs h.1 (omega arith))

length-hex_escaped : (bs : List ℕ) → length bs ≤ length (hex_escaped bs)
length-hex_escaped [] = omega arith
length-hex_escaped (b ∷ bs) = omega (arith, length-hex_escaped bs)

-- Every sequence of bytes can be written: escaped byte for byte as `\xHH`, it parses back to itself.
pub parse_caret-hex_escaped : (bs : List ℕ) → AllBytes bs → parse_caret (hex_escaped bs) ≡ ok bs
unfolding parse_caret
parse_caret-hex_escaped bs h =
    parse-escaped (length (hex_escaped bs)) 0 bs h (length-hex_escaped bs)

-- Bytes that begin no escape.
abbrev pub IsPlain : List ℕ → Type 0
IsPlain [] = Unit
IsPlain (b ∷ bs) = (((b == b'^') || (b == b'\\')) ≡ false) × IsPlain bs

decode-plain :
    (i b : ℕ) (rest : List ℕ)
    → ((b == b'^') || (b == b'\\')) ≡ false
    → decode_one i b rest ≡ ok (b, 1)
unfolding decode_one
decode-plain i b rest h = ground arith

abbrev pub after {ℓ} : {A : Type ℓ} → List A → Result (List A) → Result (List A)
after pre (ok out) = ok (pre ++ out)
after pre (err e) = err e

after-cons :
    (b : ℕ) (pre : List ℕ) (r : Result (List ℕ))
    → after (b ∷ pre) r ≡ (after pre r >>= λ out. ok (b ∷ out))
after-cons b pre (ok out) = refl
after-cons b pre (err e) = refl

after-nil : (r : Result (List ℕ)) → r ≡ after [] r
after-nil (ok out) = refl
after-nil (err e) = refl

parse-next :
    (fuel i b : ℕ) (rest : List ℕ)
    → ((b == b'^') || (b == b'\\')) ≡ false
    → parse (suc fuel) i (b ∷ rest) ≡ (parse fuel (i + 1) rest >>= λ out. ok (b ∷ out))
unfolding parse
parse-next fuel i b rest h = rw (decode-plain i b rest h)

-- A plain prefix is copied, and the rest is read at its offset.
parse-plain :
    (total fuel i j : ℕ) (pre rest : List ℕ)
    → IsPlain pre
    → total ≡ length pre + fuel
    → i + length pre ≡ j
    → parse total i (pre ++ rest) ≡ after pre (parse fuel j rest)
parse-plain total fuel i j [] rest h t k =
    ap (λ n. parse n i rest) here
    ∙ ap (λ n. parse fuel n rest) there
    ∙ after-nil (parse fuel j rest)
  where
    here : total ≡ fuel
    here = omega arith

    there : i ≡ j
    there = omega arith
parse-plain zero fuel i j (b ∷ pre) rest h t k = absurd (omega arith)
parse-plain (suc total) fuel i j (b ∷ pre) rest h t k =
    parse-next total i b (pre ++ rest) h.0
    ∙ ap (λ r. r >>= λ out. ok (b ∷ out))
        (parse-plain total fuel (i + 1) j pre rest h.1 (omega arith) (omega arith))
    ∙ sym (after-cons b pre (parse fuel j rest))

-- Input with no escape in it is passed through as it is.
pub parse_caret-plain : (bs : List ℕ) → IsPlain bs → parse_caret bs ≡ ok bs
unfolding parse_caret parse
parse_caret-plain bs h =
    ap (parse (length bs) 0) (sym (append-nil bs))
    ∙ parse-plain (length bs) 0 0 (length bs) bs [] h (omega arith) (omega arith)
    ∙ ap ok (append-nil bs)
