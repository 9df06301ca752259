-- ===== src/Runner/Tests.antt =====
-- A shell that exits when it is asked to, a Close before the fork, and an init whose parent context
-- is cancelled first.
use mathlib.Core.Bool.{decide}
use sbsh.Base.{◌≡◌, refl, true, false, ◌⊎◌, inl, Option, none, some, []}
use sbsh.Runner.{
  absent, alive, past, Exec, new_exec, Act, fork, start_watch, start_succeeds, child_exits,
  wait_returns, wait_escapes, hand_over, publish, parent_cancels, latch, snapshot, ask, see_exit,
  act, Reach, begin, step, Child-discrete, StartPc-discrete, WatchPc-discrete, RelayPc-discrete,
  ClosePc-discrete,
}
use sbsh.Runner.Invariant.{IsSwept}
use sbsh.Runner.Swept.{Reach-IsSwept}
use sbsh.Runner.Published.{IsPublished, IsUnpublished, Reach-IsPublished}

-- The state after an action that is possible.
abbrev or_stay : Exec → Option Exec → Exec
or_stay s none = s
or_stay s (some s') = s'

go : Act → Exec → Exec
unfolding act
go a s = or_stay s (act a s)

abbrev started : Exec
started = go start_succeeds (go start_watch (go (fork true) (new_exec false true)))

abbrev asked_to_exit : Exec
asked_to_exit = go (ask true) (go snapshot (go latch started))

abbrev exited : Exec
exited = go wait_returns (go child_exits asked_to_exit)

abbrev reported : Exec
reported = go see_exit (go (publish true) (go hand_over exited))

reported-Reach : Reach (new_exec false true) reported
unfolding go act decide Child-discrete StartPc-discrete WatchPc-discrete RelayPc-discrete
    ClosePc-discrete
reported-Reach =
    step
      (step
        (step
          (step
            (step
              (step
                (step
                  (step
                    (step (step (step begin (fork true) refl) start_watch refl) start_succeeds refl)
                    latch refl)
                  snapshot refl)
                (ask true) refl)
              child_exits refl)
            wait_returns refl)
          hand_over refl)
        (publish true) refl)
      see_exit refl

Reach-IsSwept_example : IsSwept reported.child reported.signals
unfolding go act decide Child-discrete StartPc-discrete WatchPc-discrete RelayPc-discrete
    ClosePc-discrete
Reach-IsSwept_example = Reach-IsSwept true reported reported-Reach (inl refl)

Reach-IsPublished_example : IsPublished reported ⊎ IsUnpublished reported
unfolding go act decide Child-discrete StartPc-discrete WatchPc-discrete RelayPc-discrete
    ClosePc-discrete
Reach-IsPublished_example = Reach-IsPublished false true reported reported-Reach refl

-- A Close that begins before the fork: the fork does not happen.
abbrev closed_early : Exec
closed_early = go (fork true) (go latch (new_exec false false))

unforked : closed_early.child ≡ absent
unfolding go act decide Child-discrete StartPc-discrete WatchPc-discrete RelayPc-discrete
    ClosePc-discrete
unforked = refl

-- An init whose parent context is cancelled: `childDoneCh` is closed while the child runs, and Close
-- sends it nothing.
abbrev cancelled_init : Exec
cancelled_init = go (ask true) (
    go snapshot (
      go latch (
        go wait_escapes (
          go parent_cancels
            (go start_succeeds (go start_watch (go (fork true) (new_exec true true))))))))

left_running :
    (cancelled_init.child ≡ alive) × (cancelled_init.close ≡ past) × (cancelled_init.signals ≡ [])
unfolding go act decide Child-discrete StartPc-discrete WatchPc-discrete RelayPc-discrete
    ClosePc-discrete
left_running = (refl, refl, refl)
