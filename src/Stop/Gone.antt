-- ===== src/Stop/Gone.antt =====
-- What `sb stop` reports: a stopped terminal has been seen to be gone, and a wait with a deadline ends.
use sbsh.Base.{
  ℕ, ◌≡◌, refl, Bool, true, false, not, ◌||◌, Option, none, some, List, [], ◌∷◌, ◌++◌, arith,
  if-elim,
}
use sbsh.Errdefs.{Error}
use sbsh.Process.{ℤ, positive, Probe, process_is_ours}
use sbsh.Signals.{Effect, Round, wait_rounds, wait_for_exit, send_pgroup_kill, send_signal, sigkill}
use sbsh.Stop.{
  StopOpts, Target, StopResult, stopped, failed, Answers, Stopped, stage, waited, kill_wait,
  kill_pid, kill_stage, escalate, grace_wait, graceful, stop_one_terminal, asked,
}

-- A round of the wait in which the process was not ours any more.
pub data SeenGone (pid : ℤ) (start : ℕ) : List Round → Type 0 where
  at_probe :
      (r : Round) (rs : List Round)
      → process_is_ours pid start r.probe ≡ false
      → SeenGone pid start (r ∷ rs)
  at_end :
      (r : Round) (rs : List Round) (p : Probe)
      → r.ended ≡ some p
      → process_is_ours pid start p ≡ false
      → SeenGone pid start (r ∷ rs)
  later : (r : Round) (rs : List Round) → SeenGone pid start rs → SeenGone pid start (r ∷ rs)

-- A round after the deadline.
abbrev pub has_deadline : List Round → Bool
has_deadline [] = false
has_deadline (r ∷ rs) = r.late || has_deadline rs

module _ (pid : ℤ) (start : ℕ) where
  ended-SeenGone :
      (r : Round) (rs : List Round) (e : Option Probe)
      → r.ended ≡ e
      → (wait_rounds pid start rs ≡ some true → SeenGone pid start rs)
      → elim e as (λ _. Option Bool) [
        | some p ↦ some (not (process_is_ours pid start p))
        | none ↦ wait_rounds pid start rs
      ]
        ≡ some true
      → SeenGone pid start (r ∷ rs)
  ended-SeenGone r rs none q ih h = later r rs (ih h)
  ended-SeenGone r rs (some p) q ih h = at_end r rs p q (ground (arith, h))

  wait_rounds-SeenGone :
      (rs : List Round) → wait_rounds pid start rs ≡ some true → SeenGone pid start rs
  unfolding wait_rounds
  wait_rounds-SeenGone [] = λ h. cc
  wait_rounds-SeenGone (r ∷ rs) =
      if-elim (λ x. x ≡ some true → SeenGone pid start (r ∷ rs))
        (not (process_is_ours pid start r.probe)) (λ g h. at_probe r rs (ground (arith, g)))
        λ g.
          if-elim (λ x. x ≡ some true → SeenGone pid start (r ∷ rs)) r.late
            (λ l h. absurd (ground (arith, h)))
            λ l. ended-SeenGone r rs r.ended refl (wait_rounds-SeenGone rs)

  -- A wait that has a round after its deadline ends.
  wait_rounds-Ends :
      (rs : List Round) → has_deadline rs ≡ true → (b : Bool) × (wait_rounds pid start rs ≡ some b)
  unfolding wait_rounds
  wait_rounds-Ends [] h = cc
  wait_rounds-Ends (r ∷ rs) h =
      if-elim (λ x. (b : Bool) × (x ≡ some b)) (not (process_is_ours pid start r.probe))
        (λ g. (_, refl))
        λ g.
          if-elim (λ x. (b : Bool) × (x ≡ some b)) r.late (λ l. (_, refl))
            λ l. ended r.ended (wait_rounds-Ends rs (ground (arith, h, l)))
    where
      ended :
          (e : Option Probe)
          → (b : Bool) × (wait_rounds pid start rs ≡ some b)
          → (b : Bool) × (elim e as (λ _. Option Bool) [
            | some p ↦ some (not (process_is_ours pid start p))
            | none ↦ wait_rounds pid start rs
          ]
              ≡ some b)
      ended none ih = ih
      ended (some p) ih = (_, refl)

  pub wait_for_exit-Ends :
      (rs : List Round)
      → has_deadline rs ≡ true
      → (b : Bool) × (wait_for_exit pid start rs ≡ some b)
  unfolding wait_for_exit
  wait_for_exit-Ends rs h =
      if-elim (λ x. (b : Bool) × (x ≡ some b)) (positive pid) (λ g. wait_rounds-Ends rs h)
        (λ g. (_, refl))

  pub wait_for_exit-SeenGone :
      positive pid ≡ true
      → (rs : List Round) → wait_for_exit pid start rs ≡ some true
      → SeenGone pid start rs
  unfolding wait_for_exit
  wait_for_exit-SeenGone g rs h = wait_rounds-SeenGone rs (ground (arith, g, h))

abbrev Returns : Stopped → Type 0
Returns r = (x : StopResult × List Effect) × (r ≡ some x)

stage-Returns :
    (fx : List Effect) (r : Option Error × List Effect) (next : List Effect → Stopped)
    → ((fx : List Effect) → Returns (next fx))
    → Returns (stage fx r next)
unfolding stage
stage-Returns fx (some e, fx') next h = (_, refl)
stage-Returns fx (none, fx') next h = h (fx ++ fx')

waited-Returns :
    (w : Option Bool) (left late : Stopped)
    → (b : Bool) × (w ≡ some b)
    → Returns left
    → Returns late
    → Returns (waited w left late)
unfolding waited
waited-Returns none left late (b, e) x y = cc
waited-Returns (some true) left late e x y = x
waited-Returns (some false) left late e x y = y

module _ (t : Target) (o : StopOpts) (a : Answers) where
  kill_stage-Returns :
      (fx : List Effect) → has_deadline a.kill_waits ≡ true → Returns (kill_stage t a fx)
  unfolding kill_stage kill_pid kill_wait
  kill_stage-Returns fx d =
      stage-Returns fx (send_pgroup_kill t.child_pgid a.group_answer) (kill_pid t a) λ fx.
        stage-Returns fx (send_signal t.pid t.pid_start sigkill a.kill_probe a.kill_answer)
          (kill_wait t a)
          λ fx.
            waited-Returns (wait_for_exit t.pid t.pid_start a.kill_waits) (some (stopped, fx))
              (some (failed, fx)) (wait_for_exit-Ends t.pid t.pid_start a.kill_waits d) (_, refl)
              (_, refl)

  graceful-Returns :
      has_deadline a.waits ≡ true → has_deadline a.kill_waits ≡ true → Returns (graceful t o a)
  unfolding graceful grace_wait escalate
  graceful-Returns d d' = stage-Returns [] (asked t a) (grace_wait t o a) λ fx.
      waited-Returns (wait_for_exit t.pid t.pid_start a.waits) (some (stopped, fx))
        (escalate t o a fx) (wait_for_exit-Ends t.pid t.pid_start a.waits d) (_, refl)
        (if-elim Returns o.kill_after (λ _. kill_stage-Returns fx d') (λ _. (_, refl)))

  -- `stopOneTerminal` returns on every target and all answers of the kernel and the terminal, when
  -- the polls of both waits run up to their deadlines.
  pub stop_one_terminal-Returns :
      has_deadline a.waits ≡ true
      → has_deadline a.kill_waits ≡ true
      → (x : StopResult × List Effect) × (stop_one_terminal t o a ≡ some x)
  unfolding stop_one_terminal
  stop_one_terminal-Returns d d' =
      if-elim Returns (t.exited || not (process_is_ours t.pid t.pid_start a.at_start))
        (λ _. (_, refl))
        λ _. if-elim Returns o.force (λ _. kill_stage-Returns [] d') (λ _. graceful-Returns d d')
