-- ===== src/Profile/Built.antt =====
-- The specifications that the builders give, and the inputs for which they give one.
pub mod Lanes
pub mod Described
pub mod Chosen
use sbsh.Base.{
  ◌≡◌, refl, Bool, true, false, not, ◌&&◌, ◌||◌, ◌⊎◌, inl, inr, Option, none, some, List, [], ◌∷◌,
  String, is_empty, if◌then◌else◌, Bool-cases, if-elim, arith,
}
use sbsh.Errdefs.{Error}
use sbsh.Profile.{
  ◌>>=◌, ProfileDoc, Perm, no_perm, TerminalSpec, socket, capture, log_file, Failure, nil_profile,
  invalid_profile_format, invalid_flag_format,
}
use sbsh.Profile.Build.{
  resolve_profile, build_with_defaults, build_terminal_spec_from_profile, inline_spec,
  build_terminal_spec_inline,
}
use sbsh.Profile.Builder.{params_from_config, build_from_config, build_terminal_spec}
use sbsh.Profile.Create.{
  check_profile, apply_profile_perm_block, apply_format, spec_of, apply_profile_perms,
  create_checked, create_terminal_from_profile,
}
use sbsh.Profile.Load.{FileSystem, find_profile_by_name_in_dir}
use sbsh.Profile.Options.{TerminalConfig, empty_config, TerminalOption, apply_options}
use sbsh.Profile.Params.{
  Params, Naming, or_default, apply_param_defaults, add_input_values_to_terminal,
  apply_one_perm_override, apply_perm_overrides, apply_capture_format, lay_over,
}
use sbsh.Profile.Valid.{
  Decides, Decides-bind, ModeOk, resolved_perm, apply_one_perm_override-Decides, BlockOk,
  block_perm, apply_profile_perm_block-Decides, FormatOk, resolved_format, apply_format-Decides,
}
use sbsh.Validate.{kind_terminal_profile}
use sbsh.Validate.Valid.{empty_kind}
use text.Mathlib.Text.{◌==◌}

pub Decides-iff :
    {A : Type 0} (V W : Type 0) (x : A) (r : Failure ⊎ A)
    → (V → W)
    → (W → V)
    → Decides V x r
    → Decides W x r
Decides-iff V W x (inl e) f g d = λ w. d (g w)
Decides-iff V W x (inr a) f g (v, e) = (f v, e)

-- The modes and the format of the parameters are valid.
abbrev pub ParamsOk : Params → Type 0
ParamsOk p =
    ModeOk p.socket_perm.mode
    × ModeOk p.capture_perm.mode
    × ModeOk p.log_file_perm.mode
    × FormatOk p.capture_format

-- The permissions of the parameters over those of a specification.
abbrev with_perms : Params → TerminalSpec → TerminalSpec
with_perms p s = record s {
  socket_perm = resolved_perm p.socket_perm s.socket_perm;
  capture_perm = resolved_perm p.capture_perm s.capture_perm;
  log_file_perm = resolved_perm p.log_file_perm s.log_file_perm;
}

-- The parameters over a specification.
unfoldable pub laid : Params → TerminalSpec → TerminalSpec
laid p s =
    let t = with_perms p (add_input_values_to_terminal p s) in
    record t { capture_format = resolved_format p.capture_format t.capture_format }

-- Three permissions, each decided.
three_perms-Decides :
    (U V W : Type 0) (a b c : Perm) (s : TerminalSpec) (ra rb rc : Failure ⊎ Perm)
    → Decides U a ra
    → Decides V b rb
    → Decides W c rc
    → Decides
        (U × (V × (W × Unit)))
        (record s { socket_perm = a; capture_perm = b; log_file_perm = c })
        (ra >>= λ x. rb >>= λ y.
          rc >>= λ z. inr (record s { socket_perm = x; capture_perm = y; log_file_perm = z }))
three_perms-Decides U V W a b c s ra rb rc da db dc =
    let all = record s { socket_perm = a; capture_perm = b; log_file_perm = c } in
    let last : Perm → Perm → Perm → Failure ⊎ TerminalSpec =
      λ x y z. inr (record s { socket_perm = x; capture_perm = y; log_file_perm = z }) in
    Decides-bind U (V × (W × Unit)) a all (λ x. rb >>= λ y. rc >>= last x y) ra da
      (Decides-bind V (W × Unit) b all (λ y. rc >>= last a y) rb db
        (Decides-bind W Unit c all (last a b) rc dc (tt, refl)))

apply_perm_overrides-Decides :
    (p : Params) (s : TerminalSpec)
    → Decides
        (ModeOk p.socket_perm.mode
          × (ModeOk p.capture_perm.mode × (ModeOk p.log_file_perm.mode × Unit)))
        (with_perms p s)
        (apply_perm_overrides p s)
unfolding apply_perm_overrides
apply_perm_overrides-Decides p s =
    three_perms-Decides _ _ _ _ _ _ s _ _ _
      (apply_one_perm_override-Decides p.socket_perm socket s.socket_perm)
      (apply_one_perm_override-Decides p.capture_perm capture s.capture_perm)
      (apply_one_perm_override-Decides p.log_file_perm log_file s.log_file_perm)

pub lay_over-Decides :
    (p : Params) (s : TerminalSpec) → Decides (ParamsOk p) (laid p s) (lay_over p s)
unfolding laid
lay_over-Decides p s =
    let t = add_input_values_to_terminal p s in
    Decides-iff _ (ParamsOk p) (laid p s) _ (λ ((a, (b, (c, u))), f). (a, b, c, f))
      (λ (a, b, c, f). ((a, (b, (c, tt))), f))
      (Decides-bind _ _ (with_perms p t) (laid p s) (apply_capture_format p)
        (apply_perm_overrides p t) (apply_perm_overrides-Decides p t)
        (apply_format-Decides invalid_flag_format p.capture_format (with_perms p t)))

-- The fields that a profile must have.
abbrev pub Complete : ProfileDoc → Type 0
Complete p =
    (is_empty p.api_version ≡ false)
    × ((p.kind == kind_terminal_profile) ≡ true)
    × (is_empty p.name ≡ false)
    × (is_empty p.shell.cmd ≡ false)

-- A profile that is complete, with valid blocks and a valid format.
abbrev pub DocOk : ProfileDoc → Type 0
DocOk p =
    Complete p
    × BlockOk p.socket
    × BlockOk p.capture
    × BlockOk p.log_file
    × FormatOk p.capture_format

-- What a profile makes a specification.
unfoldable pub profile_spec : ProfileDoc → TerminalSpec
profile_spec p = record (spec_of p) {
  socket_perm = block_perm p.socket no_perm;
  capture_perm = block_perm p.capture no_perm;
  log_file_perm = block_perm p.log_file no_perm;
  capture_format = resolved_format p.capture_format "";
}

apply_profile_perms-Decides :
    (p : ProfileDoc)
    → Decides
        (BlockOk p.socket × (BlockOk p.capture × (BlockOk p.log_file × Unit)))
        (record (spec_of p) {
          socket_perm = block_perm p.socket no_perm;
          capture_perm = block_perm p.capture no_perm;
          log_file_perm = block_perm p.log_file no_perm;
        })
        (apply_profile_perms p (spec_of p))
apply_profile_perms-Decides p =
    three_perms-Decides _ _ _ _ _ _ (spec_of p) _ _ _
      (apply_profile_perm_block-Decides p.socket p.name socket no_perm)
      (apply_profile_perm_block-Decides p.capture p.name capture no_perm)
      (apply_profile_perm_block-Decides p.log_file p.name log_file no_perm)

abbrev Checks : ProfileDoc → Option Failure → Type 0
Checks p none = Complete p
Checks p (some e) = ¬ Complete p

check_profile-Checks : (p : ProfileDoc) → Checks p (check_profile p)
check_profile-Checks p =
    if-elim (Checks p) (is_empty p.api_version || is_empty p.kind)
      (λ h (v, k, n, c). elim (Bool-cases (is_empty p.kind)) [
        | inl e ↦ ground (arith, k, empty_kind p.kind e)
        | inr e ↦ ground (arith, h, v, e)
      ])
      (λ h.
        if-elim (Checks p) (not (p.kind == kind_terminal_profile))
          (λ h2 (v, k, n, c). ground (arith, h2, k))
          (λ h2.
            if-elim (Checks p) (is_empty p.name) (λ h3 (v, k, n, c). ground (arith, h3, n))
              (λ h3.
                if-elim (Checks p) (is_empty p.shell.cmd) (λ h4 (v, k, n, c). ground (arith, h4, c))
                  (λ h4. (ground (arith, h), ground (arith, h2), h3, h4)))))

create_checked-Decides :
    (p : ProfileDoc) (o : Option Failure)
    → Checks p o
    → Decides (DocOk p) (profile_spec p) (create_checked p o)
unfolding profile_spec
create_checked-Decides p (some e) h = λ ok. h ok.0
create_checked-Decides p none h =
    Decides-iff _ (DocOk p) (profile_spec p) _ (λ ((a, (b, (c, u))), f). (h, a, b, c, f))
      (λ (k, a, b, c, f). ((a, (b, (c, tt))), f))
      (Decides-bind _ _ _ (profile_spec p)
        (λ s. apply_format (invalid_profile_format p.name) p.capture_format s)
        (apply_profile_perms p (spec_of p)) (apply_profile_perms-Decides p)
        (apply_format-Decides (invalid_profile_format p.name) p.capture_format _))

pub create_terminal_from_profile-Decides :
    (p : ProfileDoc) → Decides (DocOk p) (profile_spec p) (create_terminal_from_profile (some p))
unfolding create_terminal_from_profile
create_terminal_from_profile-Decides p =
    create_checked-Decides p (check_profile p) (check_profile-Checks p)
