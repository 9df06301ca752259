-- ===== src/Filter/Bytes.antt =====
-- Go's `bytes.IndexByte` and `bytes.Index` over lists of byte values.
use sbsh.Base.{
  ℕ, suc, ◌+◌, ◌≤◌, ◌<◌, ◌≡◌, Bool, true, false, ◌&&◌, Option, none, some, List, [], ◌∷◌, arith,
  inl, inr, Option-cases, ◌==◌, if◌then◌else◌, length,
}

abbrev pub shift : Option ℕ → Option ℕ
shift none = none
shift (some i) = some (suc i)

-- The position of the first byte equal to `c`; `none` is -1.
unfoldable pub index_byte : List ℕ → ℕ → Option ℕ
index_byte [] c = none
index_byte (b ∷ s) c = if b == c then some 0 else shift (index_byte s c)

unfoldable pub has_prefix : List ℕ → List ℕ → Bool
has_prefix s [] = true
has_prefix [] (p ∷ ps) = false
has_prefix (b ∷ s) (p ∷ ps) = b == p && has_prefix s ps

-- The position of the first occurrence of `pat`; `none` is -1.
unfoldable pub index : List ℕ → List ℕ → Option ℕ
unfolding has_prefix
index [] pat = if has_prefix [] pat then some 0 else none
index (b ∷ s) pat = if has_prefix (b ∷ s) pat then some 0 else shift (index s pat)

pub has_prefix-length : (s pat : List ℕ) → has_prefix s pat ≡ true → length pat ≤ length s
unfolding has_prefix
has_prefix-length s [] h = omega arith
has_prefix-length [] (p ∷ ps) h = ground arith
has_prefix-length (b ∷ s) (p ∷ ps) h = ground (arith, has_prefix-length s ps)

-- A match lies inside the searched bytes.
pub index-fits : (s pat : List ℕ) (j : ℕ) → index s pat ≡ some j → j + length pat ≤ length s
unfolding index
index-fits [] pat j h = ground (arith, has_prefix-length [] pat)
index-fits (b ∷ s) pat j h = elim (Option-cases (index s pat)) [
  | inl e ↦ ground (arith, e, has_prefix-length (b ∷ s) pat)
  | inr (i, e) ↦ ground (arith, e, has_prefix-length (b ∷ s) pat, index-fits s pat i e)
]

pub index_byte-lt : (s : List ℕ) (c i : ℕ) → index_byte s c ≡ some i → i < length s
unfolding index_byte
index_byte-lt [] c i h = ground arith
index_byte-lt (b ∷ s) c i h = elim (Option-cases (index_byte s c)) [
  | inl e ↦ ground (arith, e)
  | inr (k, e) ↦ ground (arith, e, index_byte-lt s c k e)
]
