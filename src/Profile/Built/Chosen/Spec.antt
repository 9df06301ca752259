-- ===== src/Profile/Built/Chosen/Spec.antt =====
-- The specification that the options give.
use sbsh.Base.{Option, List, String}
use sbsh.Profile.Builder.{params_from_config}
use sbsh.Profile.Options.{TerminalConfig, empty_config, TerminalOption, apply_options}
use sbsh.Profile.Params.{Params}

module _ (os : List (Option TerminalOption)) (path : String) where
  abbrev config : TerminalConfig
  config = apply_options os empty_config

  abbrev made : Params
  made = params_from_config config path
