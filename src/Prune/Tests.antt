-- ===== src/Prune/Tests.antt =====
-- Pruning a terminal whose process is gone beside one that runs, and an orphan.
use sbsh.Base.{◌≡◌, refl, false, Bool, Option, none, some, String, List, [], ◌∷◌, is_empty}
use sbsh.Errdefs.{Error}
use sbsh.Process.{pos, Probe, esrch, err_not_exist}
use sbsh.Reconcile.{Doc, TerminalStatusMode, ready}

abbrev gone : Probe
gone = record { found = none; signalled = some esrch; start = 0; start_err = some err_not_exist }

abbrev running : Probe
running = record { found = none; signalled = none; start = 6; start_err = none }

abbrev doc : String → Doc TerminalStatusMode
doc id = record { id = id; name = id; state = ready; pid = pos 41; pid_start = 6; run_dir = id }

abbrev docs : List (Doc TerminalStatusMode × Probe)
docs = (doc "a", gone) ∷ (doc "b", running) ∷ []

abbrev remove : String → Option Error
remove _ = none

abbrev live : String → Bool
live _ = false

abbrev joined : String → String
joined id = id

nonempty : (is_empty "run" ≡ false) × (is_empty "a" ≡ false)
unfolding is_empty
nonempty = (refl, refl)
