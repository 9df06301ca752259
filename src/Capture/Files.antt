-- ===== src/Capture/Files.antt =====
-- Files that are put and removed, as the lookups see them.
use sbsh.Base.{
  ℕ, ◌≡◌, refl, Bool, true, false, not, ◌&&◌, none, List, [], ◌∷◌, ◌==◌, Bool-cases, arith, inl,
  inr,
}
use sbsh.Capture.{Entry, same, is_file, find_file, remove_file}
use sbsh.Capture.Order.{Below}

abbrev pub raw : ℕ → List ℕ → Entry
raw n b = record { seq = n; compressed = false; content = b }

abbrev pub zipped : ℕ → List ℕ → Entry
zipped n b = record { seq = n; compressed = true; content = b }

pub find_file-remove_file :
    (n : ℕ) (gz : Bool) (es : List Entry) → find_file n gz (remove_file n gz es) ≡ none
unfolding find_file remove_file
find_file-remove_file n gz [] = refl
find_file-remove_file n gz (e ∷ es) = elim (Bool-cases (is_file n gz e)) [
  | inl f ↦ rw f (find_file-remove_file n gz es)
  | inr f ↦ rw (f, f) (find_file-remove_file n gz es)
]

-- Whether the two names differ.
abbrev pub differs : ℕ → Bool → ℕ → Bool → Bool
differs m c n gz = not ((m == n) && same c gz)

is_file-both :
    (m : ℕ) (c : Bool) (n : ℕ) (gz : Bool) (e : Entry)
    → differs m c n gz ≡ true
    → is_file n gz e ≡ true
    → is_file m c e ≡ true
    → ⊥
is_file-both m true n true e = ground arith
is_file-both m true n false e = ground arith
is_file-both m false n true e = ground arith
is_file-both m false n false e = ground arith

pub find_file-remove_other :
    (m : ℕ) (c : Bool) (n : ℕ) (gz : Bool) (es : List Entry)
    → differs m c n gz ≡ true
    → find_file m c (remove_file n gz es) ≡ find_file m c es
unfolding find_file remove_file
find_file-remove_other m c n gz [] h = refl
find_file-remove_other m c n gz (e ∷ es) h = elim (Bool-cases (is_file n gz e)) [
  | inl f ↦ elim (Bool-cases (is_file m c e)) [
    | inl g ↦ absurd (is_file-both m c n gz e h f g)
    | inr g ↦ rw (f, g) (find_file-remove_other m c n gz es h)
  ]
  | inr f ↦ elim (Bool-cases (is_file m c e)) [
    | inl g ↦ rw (f, g) refl
    | inr g ↦ rw (f, g) (find_file-remove_other m c n gz es h)
  ]
]

pub find_file-Below : (n : ℕ) (gz : Bool) (es : List Entry) → Below n es → find_file n gz es ≡ none
unfolding find_file
find_file-Below n gz [] b = refl
find_file-Below n gz (e ∷ es) (h, b) = ground (arith, h, find_file-Below n gz es b)

pub remove_file-Below :
    (n : ℕ) (gz : Bool) (es : List Entry) → Below n es → remove_file n gz es ≡ es
unfolding remove_file
remove_file-Below n gz [] b = refl
remove_file-Below n gz (e ∷ es) (h, b) = ground (arith, h, remove_file-Below n gz es b)
