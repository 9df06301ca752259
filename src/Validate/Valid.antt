-- ===== src/Validate/Valid.antt =====
-- The documents without an issue.
use sbsh.Base.{
  ℕ, suc, ◌≡◌, ◌↔◌, refl, Bool, true, false, not, ◌&&◌, inl, inr, Option, none, some, List, [], ◌∷◌,
  ◌++◌, String, is_empty, Bool-cases, arith,
}
use Prim.Native.String.{String}
use sbsh.Errdefs.{Error}
use sbsh.Validate.{
  is_nil, stream_end, parse_error, checks, append_all, ProfileDoc, Issue, api_version_required,
  api_version_unsupported, kind_required, kind_unsupported, name_required, cmd_required,
  run_target_unknown, restart_policy_unknown, api_version_v1beta1, kind_terminal_profile, issue_if,
  required, is_local_run_target, is_restart_policy, validate_cmd_in_path, validate_profile_doc,
  Node, undecodable, decoded, ProfileValidationResult, Stream, validate_one_document,
  validate_profiles, validate_profiles_from_reader, ok, strict_issue,
}
use text.Mathlib.Text.{◌==◌}

-- Each field is as it must be.
abbrev pub IsValid : (String → Option Error) → ProfileDoc → Type 0
IsValid look_path p =
    ((p.api_version == api_version_v1beta1) ≡ true)
    × ((p.kind == kind_terminal_profile) ≡ true)
    × (is_empty p.name ≡ false)
    × (is_empty p.cmd ≡ false)
    × (is_local_run_target p.run_target ≡ true)
    × (is_restart_policy p.restart_policy ≡ true)
    × (look_path p.cmd ≡ none)

append-empty : (xs ys : List Issue) → (xs ++ ys ≡ []) ↔ ((xs ≡ []) × (ys ≡ []))
append-empty [] ys = (λ h. (refl, h), λ h. h.1)
append-empty (x ∷ xs) ys = (λ h. absurd (ground (arith, h)), λ h. absurd (ground (arith, h)))

pub empty_version : (s : String) → is_empty s ≡ true → (s == api_version_v1beta1) ≡ false
unfolding is_empty
empty_version String.[] h = refl
empty_version (String.◌∷◌ c s) h = absurd (ground (arith, h))

pub empty_kind : (s : String) → is_empty s ≡ true → (s == kind_terminal_profile) ≡ false
unfolding is_empty
empty_kind String.[] h = refl
empty_kind (String.◌∷◌ c s) h = absurd (ground (arith, h))

required-empty :
    (s want : String) (i : Issue) (f : String → Issue)
    → (is_empty s ≡ true → (s == want) ≡ false)
    → (required s want i f ≡ []) ↔ ((s == want) ≡ true)
required-empty s want i f e = elim (Bool-cases (is_empty s)) [
  | inl a ↦ rw a (λ h. absurd (ground (arith, h)), λ h. absurd (ground (arith, h, e a)))
  | inr a ↦ elim (Bool-cases (s == want)) [
    | inl b ↦ rw (a, b) (λ h. refl, λ h. refl)
    | inr b ↦ rw (a, b) (λ h. absurd (ground (arith, h)), λ h. absurd (ground (arith, h)))
  ]
]

issue_if-empty : (b : Bool) (i : Issue) → (issue_if b i ≡ []) ↔ (b ≡ false)
issue_if-empty true i = (λ h. absurd (ground (arith, h)), λ h. absurd (ground (arith, h)))
issue_if-empty false i = (λ h. refl, λ h. refl)

not-false : (b : Bool) → (not b ≡ false) ↔ (b ≡ true)
not-false true = (λ h. refl, λ h. refl)
not-false false = (λ h. absurd (ground (arith, h)), λ h. absurd (ground (arith, h)))

validate_cmd_in_path-empty :
    (o : Option Error) (cmd : String) → (validate_cmd_in_path o cmd ≡ []) ↔ (o ≡ none)
validate_cmd_in_path-empty none cmd = (λ h. refl, λ h. refl)
validate_cmd_in_path-empty (some e) cmd =
    (λ h. absurd (ground (arith, h)), λ h. absurd (ground (arith, h)))

-- Every list is empty.
abbrev AllEmpty : List (List Issue) → Type 0
AllEmpty [] = Unit
AllEmpty (is ∷ iss) = (is ≡ []) × AllEmpty iss

append_all-empty : (iss : List (List Issue)) → (append_all iss ≡ []) ↔ AllEmpty iss
append_all-empty [] = (λ h. tt, λ h. refl)
append_all-empty (is ∷ iss) =
    let rest = append_all-empty iss in
    (
      λ h. let (a, b) = (append-empty is (append_all iss)).0 h in (a, rest.0 b),
      λ k. (append-empty is (append_all iss)).1 (k.0, rest.1 k.1),
    )

fields_of_no_issue :
    (look_path : String → Option Error) (p : ProfileDoc)
    → validate_profile_doc look_path p ≡ []
    → IsValid look_path p
unfolding validate_profile_doc
fields_of_no_issue look_path p h =
    let (a, (b, (c, (d, (e, (f, (g, u))))))) = (append_all-empty (checks look_path p)).0 h in
    let cmd = (issue_if-empty (is_empty p.cmd) cmd_required).0 d in
    let target = (not-false _).0 ((issue_if-empty _ (run_target_unknown p.run_target)).0 e) in
    (
      (required-empty p.api_version api_version_v1beta1 api_version_required api_version_unsupported
            (empty_version p.api_version)).0
          a,
      (required-empty p.kind kind_terminal_profile kind_required kind_unsupported
            (empty_kind p.kind)).0
          b,
      (issue_if-empty (is_empty p.name) name_required).0 c,
      cmd,
      target,
      (not-false _).0 ((issue_if-empty _ (restart_policy_unknown p.restart_policy)).0 f),
      (validate_cmd_in_path-empty (look_path p.cmd) p.cmd).0 (rw (cmd, target) at g),
    )

no_issue_of_fields :
    (look_path : String → Option Error) (p : ProfileDoc)
    → IsValid look_path p
    → validate_profile_doc look_path p ≡ []
unfolding validate_profile_doc
no_issue_of_fields look_path p (a, b, c, d, e, f, g) = (append_all-empty (checks look_path p)).1 (
  (required-empty p.api_version api_version_v1beta1 api_version_required api_version_unsupported
        (empty_version p.api_version)).1
      a,
  (
    (required-empty p.kind kind_terminal_profile kind_required kind_unsupported
          (empty_kind p.kind)).1
        b,
    rw (c, d, e, f, g) (refl, (refl, (refl, (refl, (refl, tt))))),
  ),
)

-- A profile document has no issue exactly when its version and its kind are the supported ones, it
-- has a name and a command, its run target and its restart policy are known, and its command is
-- found in PATH.
pub validate_profile_doc-IsValid :
    (look_path : String → Option Error) (p : ProfileDoc)
    → (validate_profile_doc look_path p ≡ []) ↔ IsValid look_path p
unfolding validate_profile_doc
validate_profile_doc-IsValid look_path p =
    (fields_of_no_issue look_path p, no_issue_of_fields look_path p)

abbrev pub all_ok : List ProfileValidationResult → Bool
all_ok [] = true
all_ok (r ∷ rs) = ok r && all_ok rs

-- Every document is decoded, strictly too, and is valid.
abbrev pub AllValid : (String → Option Error) → List Node → Type 0
AllValid look_path [] = Unit
AllValid look_path (undecodable e ∷ ds) = ⊥
AllValid look_path (decoded p s ∷ ds) = ((s ≡ none) × IsValid look_path p) × AllValid look_path ds

is_nil-empty : (is : List Issue) → (is_nil is ≡ true) ↔ (is ≡ [])
is_nil-empty [] = (λ h. refl, λ h. refl)
is_nil-empty (i ∷ is) = (λ h. absurd (ground (arith, h)), λ h. absurd (ground (arith, h)))

and-true : (a b : Bool) → ((a && b) ≡ true) ↔ ((a ≡ true) × (b ≡ true))
and-true a b = (λ h. (ground (arith, h), ground (arith, h)), λ (h, k). ground (arith, h, k))

strict_issue-empty : (s : Option Error) → (strict_issue s ≡ []) ↔ (s ≡ none)
strict_issue-empty none = (λ h. refl, λ h. refl)
strict_issue-empty (some e) = (λ h. absurd (ground (arith, h)), λ h. absurd (ground (arith, h)))

decoded_ok :
    (look_path : String → Option Error) (n : ℕ) (p : ProfileDoc) (s : Option Error)
    → (ok (validate_one_document look_path n (decoded p s)) ≡ true)
      ↔ ((s ≡ none) × IsValid look_path p)
unfolding validate_one_document
decoded_ok look_path n p s =
    let nil = is_nil-empty (strict_issue s ++ validate_profile_doc look_path p) in
    let both = append-empty (strict_issue s) (validate_profile_doc look_path p) in
    let doc = validate_profile_doc-IsValid look_path p in
    (
      λ h. let (a, b) = both.0 (nil.0 h) in ((strict_issue-empty s).0 a, doc.0 b),
      λ k. nil.1 (both.1 ((strict_issue-empty s).1 k.0, doc.1 k.1)),
    )

undecodable-ok :
    (look_path : String → Option Error) (n : ℕ) (e : Error)
    → ok (validate_one_document look_path n (undecodable e)) ≡ false
unfolding validate_one_document
undecodable-ok look_path n e = refl

stream_end-ok :
    (look_path : String → Option Error) (o : Option Error) (n : ℕ)
    → (all_ok (stream_end o n) ≡ true) ↔ (AllValid look_path [] × (o ≡ none))
stream_end-ok look_path none n = (λ h. (tt, refl), λ h. refl)
stream_end-ok look_path (some e) n =
    (λ h. absurd (ground (arith, h)), λ k. absurd (ground (arith, k.1)))

validate_profiles-AllValid :
    (look_path : String → Option Error) (o : Option Error) (n : ℕ) (ds : List Node)
    → ((all_ok (validate_profiles look_path o n ds).0 ≡ true)
        ↔ (AllValid look_path ds × (o ≡ none)))
      × ((validate_profiles look_path o n ds).1 ≡ parse_error o)
unfolding validate_profiles
validate_profiles-AllValid look_path o n [] = (stream_end-ok look_path o n, refl)
validate_profiles-AllValid look_path o n (undecodable e ∷ ds) = (
  (λ h. absurd (ground (arith, h, undecodable-ok look_path (suc n) e)), λ k. absurd k.0),
  (validate_profiles-AllValid look_path o (suc n) ds).1,
)
validate_profiles-AllValid look_path o n (decoded p s ∷ ds) =
    let (rest, err) = validate_profiles-AllValid look_path o (suc n) ds in
    let doc = decoded_ok look_path (suc n) p s in
    let both =
      and-true (ok (validate_one_document look_path (suc n) (decoded p s)))
        (all_ok (validate_profiles look_path o (suc n) ds).0) in
    (
      (
        λ h. let (a, b) = both.0 h in let (c, e) = rest.0 b in ((doc.0 a, c), e),
        λ k. both.1 (doc.1 k.0.0, rest.1 (k.0.1, k.1)),
      ),
      err,
    )

-- A file of profiles passes, with every result OK, exactly when the YAML stream is not broken and
-- each of its documents decodes, strictly too, and is valid; the error returned is that of the stream.
pub validate_profiles_from_reader-AllValid :
    (look_path : String → Option Error) (s : Stream)
    → ((all_ok (validate_profiles_from_reader look_path s).0 ≡ true)
        ↔ (AllValid look_path s.nodes × (s.broken ≡ none)))
      × ((validate_profiles_from_reader look_path s).1 ≡ parse_error s.broken)
unfolding validate_profiles_from_reader
validate_profiles_from_reader-AllValid look_path s =
    validate_profiles-AllValid look_path s.broken 0 s.nodes
