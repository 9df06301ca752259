-- ===== src/Profile/Built/Lanes.antt =====
-- What the ways of building a specification decide.
use sbsh.Base.{
  ◌≡◌, refl, sym, ◌∙◌, Bool, true, false, ◌||◌, inl, inr, Option, none, some, List, [], ◌∷◌, String,
  is_empty, Bool-cases, if-elim, arith,
}
use sbsh.Profile.{ProfileDoc, TerminalSpec}
use sbsh.Profile.Build.{
  resolve_profile, build_terminal_spec_from_profile, inline_spec, build_terminal_spec_inline,
}
use sbsh.Profile.Builder.{params_from_config, build_from_config, build_terminal_spec}
use sbsh.Profile.Create.{create_terminal_from_profile}
use sbsh.Profile.Load.{FileSystem, find_profile_by_name_in_dir}
use sbsh.Profile.Options.{
  TerminalConfig, empty_config, TerminalOption, with_profile, with_profiles_dir, with_command,
  set_command, apply_option, apply_options,
}
use sbsh.Profile.Params.{Params, Naming, or_default, apply_param_defaults, lay_over}
use sbsh.Profile.Valid.{Decides, Decides-bind}
use sbsh.Profile.Built.{
  Decides-iff, ParamsOk, laid, lay_over-Decides, DocOk, profile_spec,
  create_terminal_from_profile-Decides,
}

-- The parameters with their defaults, and the name of the profile.
abbrev pub completed : Naming → Params → Params
completed n p =
    let q = apply_param_defaults n p in
    record q { profile_name = or_default q.profile_name "default" }

-- With a profile that is resolved, `BuildTerminalSpecFromProfile` gives a specification just where
-- the run path is not empty, the profile is complete, and the modes, the groups of the profile and
-- the formats are valid. It is then the profile's with the parameters laid over: a mode or a group
-- that is given as a parameter wins over the profile's, and that over none.
pub build_terminal_spec_from_profile-Decides :
    (fs : FileSystem) (n : Naming) (p : Params) (doc : ProfileDoc)
    → resolve_profile
        (apply_param_defaults n p)
        (completed n p).profile_name
        (find_profile_by_name_in_dir fs (completed n p).profiles_dir (completed n p).profile_name)
      ≡ inr doc
    → Decides
        ((is_empty p.run_path ≡ false) × DocOk doc × ParamsOk p)
        (laid (completed n p) (profile_spec doc))
        (build_terminal_spec_from_profile fs n p)
unfolding build_terminal_spec_from_profile apply_param_defaults
build_terminal_spec_from_profile-Decides fs n p doc h =
    if-elim
      (Decides ((is_empty p.run_path ≡ false) × DocOk doc × ParamsOk p)
        (laid (completed n p) (profile_spec doc)))
      (is_empty p.run_path) (λ e (r, d, o). ground (arith, e, r))
      (λ e. rw h (
        Decides-iff _ _ (laid (completed n p) (profile_spec doc)) _ (λ (d, o). (e, d, o))
          (λ (r, d, o). (d, o))
          (Decides-bind (DocOk doc) (ParamsOk p) _ _ (lay_over (completed n p))
            (create_terminal_from_profile (some doc)) (create_terminal_from_profile-Decides doc)
            (lay_over-Decides (completed n p) (profile_spec doc)))))

build_terminal_spec_inline-Decides :
    (n : Naming) (p : Params)
    → Decides
        ((is_empty p.run_path ≡ false) × ParamsOk p)
        (laid (apply_param_defaults n p) (inline_spec (apply_param_defaults n p)))
        (build_terminal_spec_inline n p)
unfolding build_terminal_spec_inline apply_param_defaults
build_terminal_spec_inline-Decides n p =
    let q = apply_param_defaults n p in
    if-elim (Decides ((is_empty p.run_path ≡ false) × ParamsOk p) (laid q (inline_spec q)))
      (is_empty p.run_path) (λ e (r, o). ground (arith, e, r))
      (λ e.
        Decides-iff (ParamsOk p) _ (laid q (inline_spec q)) _ (λ o. (e, o)) (λ (r, o). o)
          (lay_over-Decides q (inline_spec q)))

-- Whether an option selects a profile or a directory of profiles.
abbrev pub selects : Option TerminalOption → Bool
selects none = false
selects (some (with_profile s)) = true
selects (some (with_profiles_dir s)) = true
selects (some o) = false

unfoldable pub selects_profile : List (Option TerminalOption) → Bool
selects_profile [] = false
selects_profile (o ∷ os) = let rest = selects_profile os in selects o || rest

abbrev is_set : TerminalConfig → Bool
is_set c = c.profile_set || c.profiles_dir_set

is_set-set_command :
    (argv : List String) (c : TerminalConfig) → is_set (set_command argv c) ≡ is_set c
is_set-set_command [] c = refl
is_set-set_command (cmd ∷ args) c = elim (Bool-cases (is_empty cmd)) [
  | inl h ↦ rw h refl
  | inr h ↦ rw h refl
]

or-false : (b : Bool) → (b || false) ≡ b
or-false true = refl
or-false false = refl

or-true : (b : Bool) → (b || true) ≡ true
or-true true = refl
or-true false = refl

is_set-apply_option :
    (o : TerminalOption) (c : TerminalConfig)
    → is_set (apply_option o c) ≡ (selects (some o) || is_set c)
unfolding apply_option
is_set-apply_option (with_command argv) c = is_set-set_command argv c
is_set-apply_option (with_profile s) c = refl
is_set-apply_option (with_profiles_dir s) c = or-true c.profile_set
is_set-apply_option o c = refl

or_swap : (a b c : Bool) → (a || (b || c)) ≡ ((b || a) || c)
or_swap true true c = refl
or_swap true false c = refl
or_swap false true c = refl
or_swap false false c = refl

is_set-apply_options :
    (os : List (Option TerminalOption)) (c : TerminalConfig)
    → is_set (apply_options os c) ≡ (selects_profile os || is_set c)
unfolding apply_options selects_profile
is_set-apply_options [] c = refl
is_set-apply_options (none ∷ os) c = is_set-apply_options os c
is_set-apply_options (some o ∷ os) c =
    is_set-apply_options os (apply_option o c)
    ∙ rw (is_set-apply_option o c) (or_swap (selects_profile os) (selects (some o)) (is_set c))

-- What the options make a specification from.
abbrev pub optioned : Naming → String → TerminalConfig → TerminalSpec
optioned n path c =
    let q = apply_param_defaults n (params_from_config c path) in laid q (inline_spec q)

build_from_config-Decides :
    (n : Naming) (path : String) (c : TerminalConfig)
    → Decides
        ((is_set c ≡ false) × (is_empty path ≡ false) × ParamsOk (params_from_config c path))
        (optioned n path c)
        (build_from_config n path c)
build_from_config-Decides n path c =
    let V = (is_set c ≡ false) × (is_empty path ≡ false) × ParamsOk (params_from_config c path) in
    if-elim (Decides V (optioned n path c)) c.profile_set (λ h (s, e, o). ground (arith, h, s))
      (λ h.
        if-elim (Decides V (optioned n path c)) c.profiles_dir_set
          (λ k (s, e, o). ground (arith, h, k, s))
          (λ k.
            Decides-iff _ V (optioned n path c) _ (λ (e, o). (ground (arith, h, k), e, o))
              (λ (s, e, o). (e, o))
              (build_terminal_spec_inline-Decides n (params_from_config c path))))

-- `BuildTerminalSpec` gives a specification just where the run path is not empty, no option selects
-- a profile or a directory of profiles, and the modes and the format that the options give are
-- valid. It is then the empty one with the options laid over.
pub build_terminal_spec-Decides :
    (n : Naming) (path : String) (os : List (Option TerminalOption))
    → Decides
        ((is_empty path ≡ false)
          × (selects_profile os ≡ false)
          × ParamsOk (params_from_config (apply_options os empty_config) path))
        (optioned n path (apply_options os empty_config))
        (build_terminal_spec n path os)
unfolding build_terminal_spec selects_profile
build_terminal_spec-Decides n path os =
    let c = apply_options os empty_config in
    let V =
      (is_empty path ≡ false)
      × (selects_profile os ≡ false)
      × ParamsOk (params_from_config c path) in
    let k = is_set-apply_options os empty_config in
    if-elim (Decides V (optioned n path c)) (is_empty path) (λ h (e, s, o). ground (arith, h, e))
      (λ h.
        Decides-iff _ V (optioned n path c) (build_from_config n path c)
          (λ (s, e, o). (e, sym (or-false (selects_profile os)) ∙ sym k ∙ s, o))
          (λ (e, s, o). (k ∙ or-false (selects_profile os) ∙ s, e, o))
          (build_from_config-Decides n path c))
