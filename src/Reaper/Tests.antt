-- ===== src/Reaper/Tests.antt =====
-- A child that exits before its pid is registered, among orphans.
use sbsh.Base.{◌≡◌, refl, List, [], ◌∷◌, ◌++◌, arith}
use sbsh.Reaper.{
  new_reaper, handle_reaped, register_child, drain_once, Waited, reaped, none_ready, interrupted,
  exited, signaled, Event, sweep, register, run,
}
use sbsh.Reaper.Sweeps.{exits, sweeps}
use sbsh.Reaper.Exits.{run-exits}

abbrev early : List (List Waited)
early = (reaped 70 (exited 0) ∷ interrupted ∷ reaped 42 (signaled 9) ∷ none_ready ∷ []) ∷ []

abbrev later : List Event
later = sweep (reaped 71 (exited 3) ∷ none_ready ∷ []) ∷ register 71 ∷ []

killed : (run (sweeps early ++ register 42 ∷ later) new_reaper).exit_ch ≡ 137 ∷ []
unfolding run drain_once handle_reaped register_child
killed = refl

run-exits_example :
    (run (sweeps early ++ register 42 ∷ later) new_reaper).exit_ch
    ≡ exits 42 (sweeps early ++ register 42 ∷ later)
run-exits_example = run-exits 42 early later refl (omega arith)
