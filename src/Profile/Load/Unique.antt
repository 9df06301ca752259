-- ===== src/Profile/Load/Unique.antt =====
-- The profiles that a directory loads: one for each name, the first.
use sbsh.Base.{
  ◌≡◌, ◌↔◌, refl, sym, ◌∙◌, ap, true, false, ◌⊎◌, inl, inr, Option, none, some, List, [], ◌∷◌, ◌++◌,
  append-nil, append_assoc, String, Bool-cases, arith,
}
use sbsh.Errdefs.{Error}
use sbsh.Profile.{ProfileDoc}
use sbsh.Profile.Load.{
  ProfileWarning, Yaml, load_profiles_from_file, owner, Loading, add_unseen, add_profiles, add_file,
  load_files, find_named,
}
use text.Mathlib.Text.{◌==◌}
use text.Mathlib.TextEquality.{eq_iff}
use mathlib.Core.Path.{subst}

abbrev pub or_else {ℓ} : {A : Type ℓ} → Option A → Option A → Option A
or_else none o = o
or_else (some a) o = some a

or_else-none {ℓ} : {A : Type ℓ} (o : Option A) → or_else o none ≡ o
or_else-none none = refl
or_else-none (some a) = refl

or_else_assoc {ℓ} :
    {A : Type ℓ} (a b c : Option A) → or_else (or_else a b) c ≡ or_else a (or_else b c)
or_else_assoc none b c = refl
or_else_assoc (some a) b c = refl

pub find_named-append :
    (n : String) (ps qs : List ProfileDoc)
    → find_named n (ps ++ qs) ≡ or_else (find_named n ps) (find_named n qs)
unfolding find_named
find_named-append n [] qs = refl
find_named-append n (p ∷ ps) qs = elim (Bool-cases (p.name == n)) [
  | inl h ↦ rw h refl
  | inr h ↦ rw h (find_named-append n ps qs)
]

or_else-some {ℓ} : {A : Type ℓ} (o : Option A) (a : A) → (or_else o (some a) ≡ none) → ⊥
or_else-some none a h = ground (arith, h)
or_else-some (some b) a h = ground (arith, h)

absorbs {ℓ} : {A : Type ℓ} (a b : Option A) → (a ≡ none → ⊥) → a ≡ or_else a b
absorbs none b h = absurd (h refl)
absorbs (some a) b h = refl

-- No two profiles have one name.
abbrev pub Distinct : List ProfileDoc → Type 0
Distinct [] = Unit
Distinct (p ∷ ps) = (find_named p.name ps ≡ none) × Distinct ps

-- The names seen are those of the profiles.
abbrev Tracks : List (String × String) → List ProfileDoc → Type 0
Tracks seen ps = (n : String) → (owner n seen ≡ none) ↔ (find_named n ps ≡ none)

-- The lookups of `ps` are those of `before`, and then of `qs`.
abbrev Finds : List ProfileDoc → List ProfileDoc → List ProfileDoc → Type 0
Finds before qs ps =
    (n : String) → find_named n ps ≡ or_else (find_named n before) (find_named n qs)

abbrev Holds : List ProfileDoc → List ProfileDoc → List (String × String) → List ProfileDoc → Type 0
Holds before qs seen ps = Tracks seen ps × Distinct ps × Finds before qs ps

finds_itself : (p : ProfileDoc) (n : String) → (p.name == n) ≡ true → find_named n (p ∷ []) ≡ some p
unfolding find_named
finds_itself p n h = rw h refl

misses :
    (p : ProfileDoc) (n : String) (ps : List ProfileDoc)
    → (p.name == n) ≡ false
    → find_named n (ps ++ p ∷ []) ≡ find_named n ps
unfolding find_named
misses p n ps h = find_named-append n ps (p ∷ []) ∙ rw h refl ∙ or_else-none (find_named n ps)

Distinct-append_one :
    (p : ProfileDoc) (ps : List ProfileDoc)
    → find_named p.name ps ≡ none
    → Distinct ps
    → Distinct (ps ++ p ∷ [])
unfolding find_named
Distinct-append_one p [] h d = (refl, tt)
Distinct-append_one p (q ∷ ps) h d = elim (Bool-cases (q.name == p.name)) [
  | inl e ↦ absurd (ground (arith, h, e))
  | inr e ↦ elim (Bool-cases (p.name == q.name)) [
    | inl f ↦
        absurd (ground (arith, e, (eq_iff q.name p.name).1 (sym ((eq_iff p.name q.name).0 f))))
    | inr f ↦ (
      find_named-append q.name ps (p ∷ []) ∙ rw (d.0, f) refl,
      Distinct-append_one p ps (rw e at h) d.1,
    )
  ]
]

Tracks-add :
    (p : ProfileDoc) (file : String) (seen : List (String × String)) (ps : List ProfileDoc)
    → Tracks seen ps
    → Tracks ((p.name, file) ∷ seen) (ps ++ p ∷ [])
unfolding find_named
Tracks-add p file seen ps t n = elim (Bool-cases (p.name == n)) [
  | inl e ↦
      rw (e, find_named-append n ps (p ∷ []))
        (
          λ h. absurd (ground (arith, h)),
          λ h. absurd (
              or_else-some (find_named n ps) p
                (subst (λ o. or_else (find_named n ps) o ≡ none) (finds_itself p n e) h)),
        )
  | inr e ↦ rw (e, misses p n ps e) (t n)
]

-- A profile whose name is seen changes no lookup.
known_changes_nothing :
    (p : ProfileDoc) (other : String) (seen : List (String × String)) (ps : List ProfileDoc)
    → Tracks seen ps
    → owner p.name seen ≡ some other
    → Finds ps (p ∷ []) ps
unfolding find_named
known_changes_nothing p other seen ps t h n = elim (Bool-cases (p.name == n)) [
  | inl e ↦ absorbs (find_named n ps) (find_named n (p ∷ [])) (λ z. ground (
    arith,
    h,
    (t p.name).1 (subst (λ m. find_named m ps ≡ none) (sym ((eq_iff p.name n).0 e)) z),
  ))
  | inr e ↦ rw e (sym (or_else-none (find_named n ps)))
]

-- One turn of the inner loop.
Holds-add_unseen :
    (file : String) (p : ProfileDoc) (before qs : List ProfileDoc) (l : Loading) (o : Option String)
    → owner p.name l.seen ≡ o
    → Holds before qs l.seen l.profiles
    → Holds before (qs ++ p ∷ []) (add_unseen file p o l).seen (add_unseen file p o l).profiles
Holds-add_unseen file p before qs l (some other) h (t, d, f) = (
  t,
  d,
  λ n.
      known_changes_nothing p other l.seen l.profiles t h n
      ∙ ap (λ o. or_else o (find_named n (p ∷ []))) (f n)
      ∙ or_else_assoc (find_named n before) (find_named n qs) (find_named n (p ∷ []))
      ∙ ap (or_else (find_named n before)) (sym (find_named-append n qs (p ∷ []))),
)
Holds-add_unseen file p before qs l none h (t, d, f) = (
  Tracks-add p file l.seen l.profiles t,
  Distinct-append_one p l.profiles ((t p.name).0 h) d,
  λ n.
      find_named-append n l.profiles (p ∷ [])
      ∙ ap (λ o. or_else o (find_named n (p ∷ []))) (f n)
      ∙ or_else_assoc (find_named n before) (find_named n qs) (find_named n (p ∷ []))
      ∙ ap (or_else (find_named n before)) (sym (find_named-append n qs (p ∷ []))),
)

Holds-add_profiles :
    (file : String) (ps before qs : List ProfileDoc) (l : Loading)
    → Holds before qs l.seen l.profiles
    → Holds before (qs ++ ps) (add_profiles file ps l).seen (add_profiles file ps l).profiles
unfolding add_profiles
Holds-add_profiles file [] before qs l h =
    subst (λ rs. Holds before rs l.seen l.profiles) (sym (append-nil qs)) h
Holds-add_profiles file (p ∷ ps) before qs l h =
    let l1 = add_unseen file p (owner p.name l.seen) l in
    subst (λ rs. Holds before rs (add_profiles file ps l1).seen (add_profiles file ps l1).profiles)
      (append_assoc qs (p ∷ []) ps)
      (Holds-add_profiles file ps before (qs ++ p ∷ []) l1
        (Holds-add_unseen file p before qs l (owner p.name l.seen) refl h))

-- Every profile that the files hold, in the order of the files.
abbrev pub candidates : (String → Error ⊎ Yaml) → List String → List ProfileDoc
candidates read [] = []
candidates read (f ∷ fs) = (load_profiles_from_file f (read f)).0 ++ candidates read fs

Holds-load_files :
    (read : String → Error ⊎ Yaml) (fs : List String) (before qs : List ProfileDoc) (l : Loading)
    → Holds before qs l.seen l.profiles
    → Holds before
        (qs ++ candidates read fs)
        (load_files read fs l).seen
        (load_files read fs l).profiles
unfolding load_files
Holds-load_files read [] before qs l h =
    subst (λ rs. Holds before rs l.seen l.profiles) (sym (append-nil qs)) h
Holds-load_files read (f ∷ fs) before qs l h =
    let (ps, ws) = load_profiles_from_file f (read f) in
    let l1 = add_file f (ps, ws) l in
    subst (λ rs. Holds before rs (load_files read fs l1).seen (load_files read fs l1).profiles)
      (append_assoc qs ps (candidates read fs))
      (Holds-load_files read fs before (qs ++ ps) l1
        (Holds-add_profiles f ps before qs (record l { warnings = l.warnings ++ ws }) h))

-- The files give distinct profiles, and a lookup by a name finds the first of all the profiles that
-- the files hold.
pub load_files-Distinct :
    (read : String → Error ⊎ Yaml) (fs : List String) (ws : List ProfileWarning)
    → let ps = (load_files read fs (record { seen = []; profiles = []; warnings = ws })).profiles in
      Distinct ps × ((n : String) → find_named n ps ≡ find_named n (candidates read fs))
unfolding find_named
load_files-Distinct read fs ws =
    let (t, d, f) =
      Holds-load_files read fs [] [] (record { seen = []; profiles = []; warnings = ws })
        (λ n. (λ h. refl, λ h. refl), tt, λ n. refl) in
    (d, f)
