-- ===== src/Runner/Subscribe/Tests.antt =====
-- A Subscribe that passes the early check and registers after Close has copied the registry.
use mathlib.Core.Bool.{decide}
use sbsh.Base.{refl, ◌⊎◌, inr, Option, none, some}
use sbsh.Runner.Subscribe.{
  Race, new_race, Act, early_check, add_subscriber, add_to_fan_out, go_run, late_check, ctx_cancel,
  copy_registry, close_copied, act, Reach, begin, step, CallPc-discrete, DrainPc-discrete,
  ClosePc-discrete,
}
use sbsh.Runner.Subscribe.Released.{Released, Advances, Reach-Released}

-- The state after an action that is possible.
abbrev or_stay : Race → Option Race → Race
or_stay s none = s
or_stay s (some s') = s'

go : Act → Race → Race
unfolding act
go a s = or_stay s (act a s)

abbrev shut : Race
shut = go close_copied (go copy_registry (go ctx_cancel (go early_check new_race)))

abbrev late : Race
late = go late_check (go go_run (go add_to_fan_out (go add_subscriber shut)))

late-Reach : Reach late
unfolding go act decide CallPc-discrete DrainPc-discrete ClosePc-discrete
late-Reach =
    step
      (step
        (step
          (step
            (step (step (step (step begin early_check refl) ctx_cancel refl) copy_registry refl)
              close_copied refl)
            add_subscriber refl)
          add_to_fan_out refl)
        go_run refl)
      late_check refl

Reach-Released_example : Released late ⊎ Advances late
unfolding go act decide CallPc-discrete DrainPc-discrete ClosePc-discrete
Reach-Released_example = Reach-Released late late-Reach refl (inr refl)
