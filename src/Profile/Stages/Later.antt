-- ===== src/Profile/Stages/Later.antt =====
-- The builder's stages are those of the last options.
use sbsh.Base.{
  ◌≡◌, refl, ◌∙◌, ap, Bool, true, false, Option, none, some, List, [], ◌∷◌, if◌then◌else◌,
  Bool-cases, inl, inr, String, arith,
}
use sbsh.Profile.{ExecStep, StagesSpec}
use sbsh.Profile.Builder.{params_from_config}
use sbsh.Profile.Load.Unique.{or_else}
use sbsh.Profile.Options.{TerminalConfig, TerminalOption, empty_config, apply_option, apply_options}
use sbsh.Profile.Params.{overlay_stages}
use sbsh.Profile.Stages.{
  StageOption, whole, init, post, unrelated, stage_options, stage_option, touched, has_whole,
  last_whole, last_init, last_post, given, chosen_stages, stages_of, Fields, fields_of, step,
  fields_of-apply_option,
}

abbrev staged : Fields → StagesSpec → StagesSpec
staged f base = if f.all then f.stages else record {
  on_init = if f.initial then f.stages.on_init else base.on_init;
  post_attach = if f.attached then f.stages.post_attach else base.post_attach;
}

-- The parts that are not overlaid after the options, which an option that replaces all resets.
abbrev left_over : Bool → Bool → List ExecStep → List ExecStep → List ExecStep
left_over replaced set mine base = if replaced then base else if set then mine else base

abbrev combined : Option StagesSpec → Bool → List StageOption → Fields → StagesSpec → StagesSpec
combined (some s) b os f base = s
combined none false os f base = staged f base
combined none true os f base = record {
  on_init = given (last_init os) (left_over (has_whole os) f.initial f.stages.on_init base.on_init);
  post_attach =
      given (last_post os)
        (left_over (has_whole os) f.attached f.stages.post_attach base.post_attach);
}

-- Options that do not concern the stages.
Untouched : List StageOption → Type 0
Untouched os =
    (last_whole os ≡ none) × (last_init os ≡ none) × (last_post os ≡ none) × (has_whole os ≡ false)

touched-Untouched : (os : List StageOption) → touched os ≡ false → Untouched os
unfolding Untouched last_whole last_init last_post
touched-Untouched [] h = (refl, refl, refl, refl)
touched-Untouched (unrelated ∷ os) h = touched-Untouched os h
touched-Untouched (whole s ∷ os) h = absurd (ground (arith, h))
touched-Untouched (init steps ∷ os) h = absurd (ground (arith, h))
touched-Untouched (post steps ∷ os) h = absurd (ground (arith, h))

given_later :
    (o : Option (List ExecStep)) (b set : Bool) (steps mine base : List ExecStep)
    → given o (left_over b true steps base)
      ≡ given (or_else o (if b then none else some steps)) (left_over b set mine base)
given_later none true set steps mine base = refl
given_later none false set steps mine base = refl
given_later (some t) b set steps mine base = refl

abbrev after : List StageOption → Fields → StagesSpec → StagesSpec
after os f base = combined (last_whole os) (touched os) os f base

combined-init :
    (o : Option StagesSpec) (steps : List ExecStep) (os : List StageOption) (f : Fields)
    (base : StagesSpec)
    → combined o true os (step (init steps) f) base ≡ combined o true (init steps ∷ os) f base
unfolding last_init last_post
combined-init (some s) steps os f base = refl
combined-init none steps os f base =
    ap
      (λ (xs : List ExecStep). record {
        on_init = xs;
        post_attach =
            given (last_post os)
              (left_over (has_whole os) f.attached f.stages.post_attach base.post_attach);
      })
      (given_later (last_init os) (has_whole os) f.initial steps f.stages.on_init base.on_init)

combined-post :
    (o : Option StagesSpec) (steps : List ExecStep) (os : List StageOption) (f : Fields)
    (base : StagesSpec)
    → combined o true os (step (post steps) f) base ≡ combined o true (post steps ∷ os) f base
unfolding last_init last_post
combined-post (some s) steps os f base = refl
combined-post none steps os f base =
    ap
      (λ (xs : List ExecStep). record {
        on_init =
            given (last_init os) (left_over (has_whole os) f.initial f.stages.on_init base.on_init);
        post_attach = xs;
      })
      (given_later (last_post os) (has_whole os) f.attached steps f.stages.post_attach
        base.post_attach)

combined-whole :
    (o : Option StagesSpec) (t : StagesSpec) (os : List StageOption) (f : Fields)
    (base : StagesSpec)
    → combined o true os (step (whole t) f) base ≡ combined o true (whole t ∷ os) f base
unfolding last_init last_post
combined-whole (some s) t os f base = refl
combined-whole none t os f base = elim (Bool-cases (has_whole os)) [
  | inl h ↦ rw h refl
  | inr h ↦ rw h refl
]

combined-unrelated :
    (o : Option StagesSpec) (b : Bool) (os : List StageOption) (f : Fields) (base : StagesSpec)
    → combined o b os f base ≡ combined o b (unrelated ∷ os) f base
unfolding last_init last_post
combined-unrelated (some s) b os f base = refl
combined-unrelated none true os f base = refl
combined-unrelated none false os f base = refl

after-step :
    (o : StageOption) (os : List StageOption) (f : Fields) (base : StagesSpec) (b : Bool)
    → touched os ≡ b
    → after os (step o f) base ≡ after (o ∷ os) f base
unfolding last_whole last_init last_post Untouched
after-step unrelated os f base b h = combined-unrelated (last_whole os) (touched os) os f base
after-step (init steps) os f base false h =
    let (w, i, p, r) = touched-Untouched os h in rw (h, w, i, p, r) refl
after-step (init steps) os f base true h = rw h (combined-init (last_whole os) steps os f base)
after-step (post steps) os f base false h =
    let (w, i, p, r) = touched-Untouched os h in rw (h, w, i, p, r) refl
after-step (post steps) os f base true h = rw h (combined-post (last_whole os) steps os f base)
after-step (whole t) os f base false h = let (w, i, p, r) = touched-Untouched os h in rw (h, w) refl
after-step (whole t) os f base true h = rw h (combined-whole (last_whole os) t os f base)

staged-apply_options :
    (os : List (Option TerminalOption)) (c : TerminalConfig) (base : StagesSpec)
    → staged (fields_of (apply_options os c)) base ≡ after (stage_options os) (fields_of c) base
unfolding apply_options last_whole
staged-apply_options [] c base = refl
staged-apply_options (none ∷ os) c base =
    staged-apply_options os c base
    ∙ combined-unrelated (last_whole (stage_options os)) (touched (stage_options os))
        (stage_options os) (fields_of c) base
staged-apply_options (some o ∷ os) c base =
    staged-apply_options os (apply_option o c) base
    ∙ ap (λ f. after (stage_options os) f base) (fields_of-apply_option o c)
    ∙ after-step (stage_option (some o)) (stage_options os) (fields_of c) base
        (touched (stage_options os)) refl

nothing_set :
    (o : Option StagesSpec) (os : List StageOption) (base : StagesSpec) (b : Bool)
    → touched os ≡ b
    → combined o b os (fields_of empty_config) base ≡ chosen_stages o os base
unfolding last_whole Untouched
nothing_set (some s) os base b h = refl
nothing_set none os base false h = let (w, i, p, r) = touched-Untouched os h in rw (i, p) refl
nothing_set none os base true h = elim (Bool-cases (has_whole os)) [
  | inl e ↦ rw e refl
  | inr e ↦ rw e refl
]

-- The stages that the options of the builder give over those there, for any options in any order:
-- those of `WithStages` when it is the last of the options that concern the stages. Otherwise the
-- steps of each kind are those of the last option for that kind, and the ones there when there is
-- no such option or `WithStages` comes after it.
pub overlay_stages-stages_of :
    (os : List (Option TerminalOption)) (path : String) (base : StagesSpec)
    → overlay_stages (params_from_config (apply_options os empty_config) path) base
      ≡ stages_of (stage_options os) base
unfolding stages_of last_whole
overlay_stages-stages_of os path base =
    staged-apply_options os empty_config base
    ∙ nothing_set (last_whole (stage_options os)) (stage_options os) base
        (touched (stage_options os)) refl
