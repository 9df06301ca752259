-- ===== src/Profile/Valid.antt =====
-- What the building of a specification decides: the inputs that are valid, and what becomes of the
-- modes, the groups and the format.
use sbsh.Base.{
  ℕ, ◌≡◌, refl, sym, ◌∙◌, ap, Bool, true, false, ◌||◌, ◌⊎◌, inl, inr, Option, none, some, String,
  is_empty, if◌then◌else◌, arith,
}
use sbsh.Process.{ℤ, pos, negsuc}
use sbsh.Profile.{
  ◌>>=◌, FilePermSpec, Perm, TerminalSpec, Artifact, ModeError, Failure, invalid_profile_mode,
  invalid_flag_mode, invalid_capture_format,
}
use sbsh.Profile.Create.{
  negative, set_mode, apply_mode, apply_profile_gid, apply_profile_perm_block,
  normalize_capture_format, set_format, apply_format,
}
use sbsh.Profile.Load.Unique.{or_else}
use sbsh.Profile.Mode.{parse_file_mode}
use sbsh.Profile.Mode.Octal.{IsMode, octal_value, parse_file_mode-IsMode}
use sbsh.Profile.Params.{override_gid, apply_one_perm_override}
use mathlib.Core.Path.{subst}
use text.Mathlib.Text.{◌==◌}
use text.Mathlib.TextEquality.{eq_iff}

-- A result that is there just where `V` holds, and is then `x`.
abbrev pub Decides : {A : Type 0} → Type 0 → A → Failure ⊎ A → Type 0
Decides V x (inl e) = ¬ V
Decides V x (inr a) = V × (a ≡ x)

weaken :
    {B : Type 0} (V W : Type 0) (y : B) (r : Failure ⊎ B) → V → Decides W y r → Decides (V × W) y r
weaken V W y (inl e) v d = λ vw. d vw.1
weaken V W y (inr b) v (w, e) = ((v, w), e)

pub Decides-bind :
    {A B : Type 0} (V W : Type 0) (x : A) (y : B) (f : A → Failure ⊎ B) (r : Failure ⊎ A)
    → Decides V x r
    → Decides W y (f x)
    → Decides (V × W) y (r >>= f)
Decides-bind V W x y f (inl e) d k = λ vw. d vw.0
Decides-bind V W x y f (inr a) (v, e) k =
    subst (λ b. Decides (V × W) y (f b)) (sym e) (weaken V W y (f x) v k)

-- A mode is not given, or is one.
abbrev pub ModeOk : String → Type 0
ModeOk raw = (is_empty raw ≡ true) ⊎ ((m : ℕ) × IsMode raw m)

abbrev pub resolved_mode : String → ℕ → ℕ
resolved_mode raw m = if is_empty raw then m else octal_value raw

-- What a mode and a group that are given make of those there.
abbrev pub resolved_perm : FilePermSpec → Perm → Perm
resolved_perm raw p = record { mode = resolved_mode raw.mode p.mode; gid = or_else raw.gid p.gid }

set_mode-Decides :
    (err : ModeError → Failure) (raw : String) (p : Perm) (r : ModeError ⊎ ℕ)
    → is_empty raw ≡ false
    → parse_file_mode raw ≡ r
    → Decides (ModeOk raw) (record p { mode = octal_value raw }) (set_mode err p r)
set_mode-Decides err raw p (inl e) h q = λ ok. elim ok [
  | inl z ↦ ground (arith, h, z)
  | inr k ↦ ground (arith, q, (parse_file_mode-IsMode raw k.0).1 k.1)
]
set_mode-Decides err raw p (inr m) h q =
    let k = (parse_file_mode-IsMode raw m).0 q in
    (inr (m, k), ap (λ (n : ℕ). record p { mode = n }) (sym k.2))

chosen_mode-Decides :
    (err : ModeError → Failure) (raw : String) (p : Perm) (b : Bool)
    → is_empty raw ≡ b
    → Decides
        (ModeOk raw)
        (record p { mode = if b then p.mode else octal_value raw })
        (if b then inr p else set_mode err p (parse_file_mode raw))
chosen_mode-Decides err raw p true h = (inl h, refl)
chosen_mode-Decides err raw p false h = set_mode-Decides err raw p (parse_file_mode raw) h refl

apply_mode-Decides :
    (err : ModeError → Failure) (raw : String) (p : Perm)
    → Decides (ModeOk raw) (record p { mode = resolved_mode raw p.mode }) (apply_mode err raw p)
apply_mode-Decides err raw p = chosen_mode-Decides err raw p (is_empty raw) refl

override_gid_lem :
    (g : Option ℤ) (m : ℕ) (p : Perm)
    → override_gid g (record p { mode = m }) ≡ record p { mode = m; gid = or_else g p.gid }
override_gid_lem none m p = refl
override_gid_lem (some g) m p = refl

overridden :
    (raw : FilePermSpec) (p : Perm) (r : Failure ⊎ Perm)
    → Decides (ModeOk raw.mode) (record p { mode = resolved_mode raw.mode p.mode }) r
    → Decides (ModeOk raw.mode) (resolved_perm raw p) (r >>= λ q. inr (override_gid raw.gid q))
overridden raw p (inl e) d = d
overridden raw p (inr q) (v, e) =
    (v, ap (override_gid raw.gid) e ∙ override_gid_lem raw.gid (resolved_mode raw.mode p.mode) p)

-- `applyOnePermOverride`: a mode that is given is one.
pub apply_one_perm_override-Decides :
    (raw : FilePermSpec) (a : Artifact) (p : Perm)
    → Decides (ModeOk raw.mode) (resolved_perm raw p) (apply_one_perm_override raw a p)
apply_one_perm_override-Decides raw a p =
    overridden raw p (apply_mode (invalid_flag_mode a raw.mode) raw.mode p)
      (apply_mode-Decides (invalid_flag_mode a raw.mode) raw.mode p)

-- A group in a profile is not negative.
abbrev pub GidOk : Option ℤ → Type 0
GidOk none = Unit
GidOk (some g) = negative g ≡ false

-- A block of a profile is not there, or has a mode and a group that are valid.
abbrev pub BlockOk : Option FilePermSpec → Type 0
BlockOk none = Unit
BlockOk (some b) = ModeOk b.mode × GidOk b.gid

abbrev pub block_perm : Option FilePermSpec → Perm → Perm
block_perm none p = p
block_perm (some b) p = resolved_perm b p

apply_profile_gid-Decides :
    (g : Option ℤ) (name : String) (a : Artifact) (p : Perm)
    → Decides (GidOk g) (record p { gid = or_else g p.gid }) (apply_profile_gid g name a p)
apply_profile_gid-Decides none name a p = (tt, refl)
apply_profile_gid-Decides (some (pos n)) name a p = (refl, refl)
apply_profile_gid-Decides (some (negsuc n)) name a p = λ h. ground (arith, h)

-- `applyProfilePermBlock`.
pub apply_profile_perm_block-Decides :
    (o : Option FilePermSpec) (name : String) (a : Artifact) (p : Perm)
    → Decides (BlockOk o) (block_perm o p) (apply_profile_perm_block o name a p)
apply_profile_perm_block-Decides none name a p = (tt, refl)
apply_profile_perm_block-Decides (some b) name a p =
    Decides-bind (ModeOk b.mode) (GidOk b.gid) (record p { mode = resolved_mode b.mode p.mode })
      (resolved_perm b p) (λ q. apply_profile_gid b.gid name a q)
      (apply_mode (invalid_profile_mode a name) b.mode p)
      (apply_mode-Decides (invalid_profile_mode a name) b.mode p)
      (apply_profile_gid-Decides b.gid name a (record p { mode = resolved_mode b.mode p.mode }))

-- The capture formats.
abbrev pub FormatOk : String → Type 0
FormatOk raw = (is_empty raw ≡ true) ⊎ ((raw ≡ "raw") ⊎ (raw ≡ "asciicast"))

abbrev pub resolved_format : String → String → String
resolved_format raw f = if is_empty raw then f else raw

format_cases :
    (err : Failure → Failure) (raw : String) (s : TerminalSpec) (b c : Bool)
    → is_empty raw ≡ false
    → (raw == "raw") ≡ b
    → (raw == "asciicast") ≡ c
    → Decides
        (FormatOk raw)
        (record s { capture_format = raw })
        (set_format err s (
          if b then inr "raw" else if c then inr "asciicast" else inl (invalid_capture_format raw)))
format_cases err raw s true c h p q =
    let e = (eq_iff raw "raw").0 p in
    (inr (inl e), ap (λ (f : String). record s { capture_format = f }) (sym e))
format_cases err raw s false true h p q =
    let e = (eq_iff raw "asciicast").0 q in
    (inr (inr e), ap (λ (f : String). record s { capture_format = f }) (sym e))
format_cases err raw s false false h p q = λ ok. elim ok [
  | inl e ↦ ground (arith, h, e)
  | inr r ↦ elim r [
    | inl e ↦ ground (arith, p, (eq_iff raw "raw").1 e)
    | inr e ↦ ground (arith, q, (eq_iff raw "asciicast").1 e)
  ]
]

chosen_format-Decides :
    (err : Failure → Failure) (raw : String) (s : TerminalSpec) (b : Bool)
    → is_empty raw ≡ b
    → Decides
        (FormatOk raw)
        (record s { capture_format = if b then s.capture_format else raw })
        (if b then inr s else set_format err s (normalize_capture_format raw))
chosen_format-Decides err raw s true h = (inl h, refl)
chosen_format-Decides err raw s false h =
    subst
      (λ b.
        Decides (FormatOk raw) (record s { capture_format = raw })
          (set_format err s (
            if b || (raw == "raw")
            then inr "raw"
            else if raw == "asciicast"
            then inr "asciicast"
            else inl (invalid_capture_format raw))))
      (sym h) (format_cases err raw s (raw == "raw") (raw == "asciicast") h refl refl)

pub apply_format-Decides :
    (err : Failure → Failure) (raw : String) (s : TerminalSpec)
    → Decides
        (FormatOk raw)
        (record s { capture_format = resolved_format raw s.capture_format })
        (apply_format err raw s)
apply_format-Decides err raw s = chosen_format-Decides err raw s (is_empty raw) refl
