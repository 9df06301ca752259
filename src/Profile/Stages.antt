-- ===== src/Profile/Stages.antt =====
-- The stages that the options of an embedder give, read from the last option back.
pub mod Later
use sbsh.Base.{
  ◌≡◌, refl, sym, ◌∙◌, ap, Bool, true, false, ◌||◌, ◌⊎◌, inl, inr, Option, none, some, List, [],
  ◌∷◌, if◌then◌else◌, Bool-cases, Option-cases, is_empty, arith, String,
}
use sbsh.Profile.{ExecStep, StagesSpec}
use sbsh.Profile.Builder.{params_from_config}
use sbsh.Profile.Load.Unique.{or_else}
use sbsh.Profile.Options.{
  TerminalConfig, TerminalOption, with_stages, with_on_init, with_post_attach, with_command,
  empty_config, set_command, apply_option, apply_options,
}
use sbsh.Profile.Params.{overlay_stages}

-- What an option is for the stages.
pub data StageOption : Type 0 where
  whole : StagesSpec → StageOption
  init post : List ExecStep → StageOption
  unrelated : StageOption

abbrev pub stage_option : Option TerminalOption → StageOption
stage_option none = unrelated
stage_option (some (with_stages s)) = whole s
stage_option (some (with_on_init steps)) = init steps
stage_option (some (with_post_attach steps)) = post steps
stage_option (some o) = unrelated

abbrev pub stage_options : List (Option TerminalOption) → List StageOption
stage_options [] = []
stage_options (o ∷ os) = stage_option o ∷ stage_options os

-- Whether an option concerns the stages, and whether one replaces them all.
abbrev pub touched : List StageOption → Bool
touched [] = false
touched (unrelated ∷ os) = touched os
touched (whole s ∷ os) = true
touched (init steps ∷ os) = true
touched (post steps ∷ os) = true

abbrev pub has_whole : List StageOption → Bool
has_whole [] = false
has_whole (unrelated ∷ os) = has_whole os
has_whole (whole s ∷ os) = true
has_whole (init steps ∷ os) = has_whole os
has_whole (post steps ∷ os) = has_whole os

-- All the stages, when the last option that concerns them replaces them all.
unfoldable pub last_whole : List StageOption → Option StagesSpec
last_whole [] = none
last_whole (unrelated ∷ os) = last_whole os
last_whole (whole s ∷ os) = let rest = last_whole os in if touched os then rest else some s
last_whole (init steps ∷ os) = last_whole os
last_whole (post steps ∷ os) = last_whole os

-- The last steps of one kind, unless all the stages are replaced after them.
unfoldable pub last_init : List StageOption → Option (List ExecStep)
last_init [] = none
last_init (unrelated ∷ os) = last_init os
last_init (whole s ∷ os) = last_init os
last_init (init steps ∷ os) = or_else (last_init os) (if has_whole os then none else some steps)
last_init (post steps ∷ os) = last_init os

unfoldable pub last_post : List StageOption → Option (List ExecStep)
last_post [] = none
last_post (unrelated ∷ os) = last_post os
last_post (whole s ∷ os) = last_post os
last_post (init steps ∷ os) = last_post os
last_post (post steps ∷ os) = or_else (last_post os) (if has_whole os then none else some steps)

abbrev pub given : Option (List ExecStep) → List ExecStep → List ExecStep
given none steps = steps
given (some other) steps = other

abbrev pub chosen_stages : Option StagesSpec → List StageOption → StagesSpec → StagesSpec
chosen_stages (some s) os base = s
chosen_stages none os base = record {
  on_init = given (last_init os) base.on_init;
  post_attach = given (last_post os) base.post_attach;
}

-- The stages that the options make of those there.
unfoldable pub stages_of : List StageOption → StagesSpec → StagesSpec
unfolding last_whole last_init last_post
stages_of os base = chosen_stages (last_whole os) os base

-- The fields of the accumulator that the options of the stages set.
pub record Fields : Type 0 where
  pub stages : StagesSpec
  pub all : Bool
  pub initial : Bool
  pub attached : Bool

abbrev pub fields_of : TerminalConfig → Fields
fields_of c = record {
  stages = c.stages;
  all = c.stages_overlay;
  initial = c.on_init_overlay;
  attached = c.post_attach_overlay;
}

abbrev pub step : StageOption → Fields → Fields
step unrelated f = f
step (whole s) f = record { stages = s; all = true; initial = false; attached = false }
step (init steps) f = record {
  stages = record f.stages { on_init = steps };
  all = false;
  initial = true;
  attached = f.attached;
}
step (post steps) f = record {
  stages = record f.stages { post_attach = steps };
  all = false;
  initial = f.initial;
  attached = true;
}

fields_of-set_command :
    (argv : List String) (c : TerminalConfig) → fields_of (set_command argv c) ≡ fields_of c
fields_of-set_command [] c = refl
fields_of-set_command (cmd ∷ args) c = elim (Bool-cases (is_empty cmd)) [
  | inl h ↦ rw h refl
  | inr h ↦ rw h refl
]

pub fields_of-apply_option :
    (o : TerminalOption) (c : TerminalConfig)
    → fields_of (apply_option o c) ≡ step (stage_option (some o)) (fields_of c)
unfolding apply_option
fields_of-apply_option (with_command argv) c = fields_of-set_command argv c
fields_of-apply_option o c = refl
