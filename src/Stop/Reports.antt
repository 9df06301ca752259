-- ===== src/Stop/Reports.antt =====
-- What `sb stop` reports.
use sbsh.Base.{
  ℕ, suc, ◌+◌, ◌≡◌, ◌⊎◌, refl, ap, Bool, true, false, not, ◌||◌, Option, none, some, List, [], ◌∷◌,
  ◌++◌, arith, if-elim, inl, inr, length, ◌↔◌,
}
use sbsh.Errdefs.{Error}
use sbsh.Process.{ℤ, positive, process_is_ours}
use sbsh.Signals.{Effect, wait_for_exit, sigkill, send_pgroup_kill, send_signal}
use sbsh.Stop.{
  StopOpts, Target, StopResult, stopped, already_exited, failed, Answers, Stopped, stage, waited,
  kill_wait, kill_pid, kill_stage, escalate, grace_wait, graceful, stop_one_terminal, asked, count,
  Report, report, run_stop_terminals, stop_all, joined,
}
use sbsh.Stop.Gone.{SeenGone, wait_for_exit-SeenGone}

-- What a result of `stopped` shows.
abbrev pub Shows : Type 0 → Stopped → Type 0
Shows P none = Unit
Shows P (some (stopped, fx)) = P
Shows P (some (_, fx)) = Unit

stage-Shows :
    (P : Type 0) (fx : List Effect) (r : Option Error × List Effect) (next : List Effect → Stopped)
    → ((fx : List Effect) → Shows P (next fx))
    → Shows P (stage fx r next)
unfolding stage
stage-Shows P fx (some e, fx') next h = tt
stage-Shows P fx (none, fx') next h = h (fx ++ fx')

waited-Shows :
    (P : Type 0) (w : Option Bool) (left late : Stopped)
    → (w ≡ some true → Shows P left)
    → Shows P late
    → Shows P (waited w left late)
unfolding waited
waited-Shows P none left late x y = tt
waited-Shows P (some true) left late x y = x refl
waited-Shows P (some false) left late x y = y

process_is_ours-positive :
    (pid : ℤ) (start : ℕ) (p : sbsh.Process.Probe)
    → process_is_ours pid start p ≡ true
    → positive pid ≡ true
unfolding process_is_ours
process_is_ours-positive pid start p h = ground (arith, h)

module _ (t : Target) (o : StopOpts) (a : Answers) where
  abbrev pub Seen : Type 0
  Seen = SeenGone t.pid t.pid_start a.waits ⊎ SeenGone t.pid t.pid_start a.kill_waits

  module _ (g : positive t.pid ≡ true) where
    kill_stage-Shows : (fx : List Effect) → Shows Seen (kill_stage t a fx)
    unfolding kill_stage kill_pid kill_wait
    kill_stage-Shows fx =
        stage-Shows Seen fx (send_pgroup_kill t.child_pgid a.group_answer) (kill_pid t a) λ fx.
          stage-Shows Seen fx (send_signal t.pid t.pid_start sigkill a.kill_probe a.kill_answer)
            (kill_wait t a)
            λ fx.
              waited-Shows Seen (wait_for_exit t.pid t.pid_start a.kill_waits) (some (stopped, fx))
                (some (failed, fx))
                (λ e. inr (wait_for_exit-SeenGone t.pid t.pid_start g a.kill_waits e)) tt

    graceful-Shows : Shows Seen (graceful t o a)
    unfolding graceful grace_wait escalate
    graceful-Shows = stage-Shows Seen [] (asked t a) (grace_wait t o a) λ fx.
        waited-Shows Seen (wait_for_exit t.pid t.pid_start a.waits) (some (stopped, fx))
          (escalate t o a fx) (λ e. inl (wait_for_exit-SeenGone t.pid t.pid_start g a.waits e))
          (if-elim (Shows Seen) o.kill_after (λ _. kill_stage-Shows fx) (λ _. tt))

  -- `stopOneTerminal` reports a terminal as stopped only after one of its waits has seen that the
  -- process is not the recorded one any more.
  pub stop_one_terminal-Seen : Shows Seen (stop_one_terminal t o a)
  unfolding stop_one_terminal
  stop_one_terminal-Seen =
      if-elim (Shows Seen) (t.exited || not (process_is_ours t.pid t.pid_start a.at_start))
        (λ _. tt)
        λ h.
          let g : positive t.pid ≡ true =
            process_is_ours-positive t.pid t.pid_start a.at_start (ground (arith, h)) in
          if-elim (Shows Seen) o.force (λ _. kill_stage-Shows g []) (λ _. graceful-Shows g)

count_all :
    (rs : List StopResult)
    → count stopped rs + count already_exited rs + count failed rs ≡ length rs
count_all [] = omega arith
count_all (stopped ∷ rs) = omega (arith, count_all rs)
count_all (already_exited ∷ rs) = omega (arith, count_all rs)
count_all (failed ∷ rs) = omega (arith, count_all rs)

abbrev results : Option (List StopResult × List Effect) → ℕ
results none = 0
results (some (rs, fx)) = length rs

stop_all-length :
    (o : StopOpts) (ts : List (Target × Answers)) (rs : List StopResult) (fx : List Effect)
    → stop_all o ts ≡ some (rs, fx)
    → length rs ≡ length ts
unfolding stop_all
stop_all-length o [] rs fx e = ground (arith, e)
stop_all-length o ((t, a) ∷ ts) rs fx e =
    each (stop_all-length o ts) (stop_one_terminal t o a) (stop_all o ts) refl e
  where
    each :
        ((rs : List StopResult) (fx : List Effect)
          → stop_all o ts ≡ some (rs, fx)
          → length rs ≡ length ts)
        → (x : Stopped) (rest : Option (List StopResult × List Effect)) → stop_all o ts ≡ rest
        → joined x rest ≡ some (rs, fx)
        → length rs ≡ suc (length ts)
    each ih none rest q e = cc
    each ih (some r) none q e = cc
    each ih (some (r, f)) (some (qs, fs)) q e = omega (arith, ih qs fs q, ap results e)

-- On targets whose stops all end, `sb stop` reports an error exactly when one of them failed, does
-- to the processes what the stops do, in order, and the three counts of its summary add up to the
-- number of targets.
pub run_stop_terminals-count :
    (o : StopOpts) (t : Target × Answers) (ts : List (Target × Answers)) (rs : List StopResult)
    (fx : List Effect)
    → stop_all o (t ∷ ts) ≡ some (rs, fx)
    → (r : Report) × (run_stop_terminals o (inr (t ∷ ts)) ≡ some (r, fx))
      × ((r.error ≡ none) ↔ (count failed rs ≡ 0))
      × (count stopped rs + count already_exited rs + count failed rs ≡ suc (length ts))
unfolding run_stop_terminals report
run_stop_terminals-count o t ts rs fx e = (
  report o rs,
  rw e refl,
  ground arith,
  omega (arith, count_all rs, stop_all-length o (t ∷ ts) rs fx e),
)
