-- ===== src/Stop/Careful.antt =====
-- What `sb stop` does to processes, and when.
use sbsh.Base.{
  ℕ, ◌≡◌, refl, Bool, true, false, not, ◌||◌, Option, none, some, List, [], ◌∷◌, ◌++◌, arith,
  Bool-cases, if-elim, inl, inr, is_empty,
}
use sbsh.Errdefs.{Error}
use sbsh.Process.{
  ℤ, positive, Errno, err_not_exist, Probe, match_instance, matched, process_is_ours,
}
use sbsh.Signals.{
  Sig, sigterm, sigkill, Effect, kill_group, signal, rpc_stop, send_pgroup_kill, send_matched,
  send_signal, wait_for_exit,
}
use sbsh.Stop.{
  StopOpts, Target, failed, stopped, Answers, Stopped, stage, waited, kill_wait, kill_pid,
  kill_stage, asked, escalate, grace_wait, graceful, stop_one_terminal,
}

abbrev pub All : {A : Type 0} → (A → Type 0) → List A → Type 0
All P [] = Unit
All P (x ∷ xs) = P x × All P xs

All-append : {A : Type 0} (P : A → Type 0) (xs ys : List A) → All P xs → All P ys → All P (xs ++ ys)
All-append P [] ys a b = b
All-append P (x ∷ xs) ys (p, a) b = (p, All-append P xs ys a b)

-- Every effect has the property, if the stop ends at all.
abbrev pub Does : (Effect → Type 0) → Stopped → Type 0
Does P none = Unit
Does P (some (r, fx)) = All P fx

module _ (P : Effect → Type 0) where
  stage-Does :
      (fx : List Effect) (r : Option Error × List Effect) (next : List Effect → Stopped)
      → All P fx
      → All P r.1
      → ((fx : List Effect) → All P fx → Does P (next fx))
      → Does P (stage fx r next)
  unfolding stage
  stage-Does fx (some e, fx') next a b h = All-append P fx fx' a b
  stage-Does fx (none, fx') next a b h = h (fx ++ fx') (All-append P fx fx' a b)

  waited-Does :
      (w : Option Bool) (left late : Stopped)
      → Does P left
      → Does P late
      → Does P (waited w left late)
  unfolding waited
  waited-Does none left late a b = tt
  waited-Does (some true) left late a b = a
  waited-Does (some false) left late a b = b

  send_pgroup_kill-All :
      (pgid : ℤ) (x : Option Errno)
      → (positive pgid ≡ true → P (kill_group pgid))
      → All P (send_pgroup_kill pgid x).1
  unfolding send_pgroup_kill
  send_pgroup_kill-All pgid x h = elim (Bool-cases (positive pgid)) [
    | inl e ↦ rw e (h e, tt)
    | inr e ↦ rw e tt
  ]

  send_matched-All :
      (pid : ℤ) (sig : Sig) (p : Probe) (x found : Option Errno) (m : Bool × Option Errno)
      → p.found ≡ found
      → (matched m ≡ true → P (signal pid sig))
      → All P (send_matched pid sig p x m).1
  unfolding send_matched
  send_matched-All pid sig p x f (ok, some err_not_exist) q h = tt
  send_matched-All pid sig p x f (ok, some e) q h = tt
  send_matched-All pid sig p x f (false, none) q h = tt
  send_matched-All pid sig p x none (true, none) q h = rw q (h refl, tt)
  send_matched-All pid sig p x (some e) (true, none) q h = rw q tt

  send_signal-All :
      (pid : ℤ) (start : ℕ) (sig : Sig) (p : Probe) (x : Option Errno)
      → (matched (match_instance pid start p) ≡ true → P (signal pid sig))
      → All P (send_signal pid start sig p x).1
  unfolding send_signal
  send_signal-All pid start sig p x h = elim (Bool-cases (positive pid)) [
    | inl e ↦ rw e (send_matched-All pid sig p x _ (match_instance pid start p) refl h)
    | inr e ↦ rw e tt
  ]

module _ (t : Target) (o : StopOpts) (a : Answers) where
  abbrev pub Fits : Effect → Type 0
  Fits (kill_group g) = (g ≡ t.child_pgid) × (positive g ≡ true) × (o.force || o.kill_after ≡ true)
  Fits (signal pid sigkill) =
      (pid ≡ t.pid)
      × (matched (match_instance t.pid t.pid_start a.kill_probe) ≡ true)
      × (o.force || o.kill_after ≡ true)
  Fits (signal pid sigterm) =
      (pid ≡ t.pid)
      × (matched (match_instance t.pid t.pid_start a.term_probe) ≡ true)
      × (o.force ≡ false)
  Fits (rpc_stop s) = (s ≡ t.socket_file) × (o.force ≡ false)

  -- When an effect is allowed: the target is not exited and its process was ours at the start;
  -- a kill needs --force or --kill-after and a recorded group or a match just before it; SIGTERM
  -- needs a match just before it; SIGTERM and the RPC are not sent with --force.
  abbrev pub Allowed : Effect → Type 0
  Allowed x = (t.exited ≡ false) × (process_is_ours t.pid t.pid_start a.at_start ≡ true) × Fits x

  module _ (awake : t.exited ≡ false)
      (ours : process_is_ours t.pid t.pid_start a.at_start ≡ true) where
    kill_wait-Does : (fx : List Effect) → All Allowed fx → Does Allowed (kill_wait t a fx)
    unfolding kill_wait
    kill_wait-Does fx h =
        waited-Does Allowed (wait_for_exit t.pid t.pid_start a.kill_waits) (some (stopped, fx))
          (some (failed, fx)) h h

    kill_pid-Does :
        (o.force || o.kill_after) ≡ true
        → (fx : List Effect) → All Allowed fx
        → Does Allowed (kill_pid t a fx)
    unfolding kill_pid
    kill_pid-Does k fx h =
        stage-Does Allowed fx (send_signal t.pid t.pid_start sigkill a.kill_probe a.kill_answer)
          (kill_wait t a) h
          (send_signal-All Allowed t.pid t.pid_start sigkill a.kill_probe a.kill_answer
            λ m. (awake, ours, (refl, m, k)))
          kill_wait-Does

    kill_stage-Does :
        (o.force || o.kill_after) ≡ true
        → (fx : List Effect) → All Allowed fx
        → Does Allowed (kill_stage t a fx)
    unfolding kill_stage
    kill_stage-Does k fx h =
        stage-Does Allowed fx (send_pgroup_kill t.child_pgid a.group_answer) (kill_pid t a) h
          (send_pgroup_kill-All Allowed t.child_pgid a.group_answer
            λ g. (awake, ours, (refl, g, k)))
          (kill_pid-Does k)

    asked-All : o.force ≡ false → All Allowed (asked t a).1
    unfolding asked
    asked-All f =
        if-elim {A = Option Error × List Effect} (λ r. All Allowed r.1) (is_empty t.socket_file)
          (λ e. term) (λ e. called a.rpc)
      where
        term : All Allowed (send_signal t.pid t.pid_start sigterm a.term_probe a.term_answer).1
        term =
            send_signal-All Allowed t.pid t.pid_start sigterm a.term_probe a.term_answer
              λ m. (awake, ours, (refl, m, f))

        called :
            (x : Option Error)
            → All Allowed (
                (elim x as (λ _. Option Error × List Effect) [
                  | none ↦ (none, rpc_stop t.socket_file ∷ [])
                  | some e ↦ (
                    (send_signal t.pid t.pid_start sigterm a.term_probe a.term_answer).0,
                    rpc_stop t.socket_file
                        ∷ (send_signal t.pid t.pid_start sigterm a.term_probe a.term_answer).1,
                  )
                ]).1)
        called none = ((awake, ours, (refl, f)), tt)
        called (some e) = ((awake, ours, (refl, f)), term)

    escalate-Does : (fx : List Effect) → All Allowed fx → Does Allowed (escalate t o a fx)
    unfolding escalate
    escalate-Does fx h =
        if-elim (Does Allowed) o.kill_after (λ e. kill_stage-Does (ground (arith, e)) fx h) (λ e. h)

    grace_wait-Does : (fx : List Effect) → All Allowed fx → Does Allowed (grace_wait t o a fx)
    unfolding grace_wait
    grace_wait-Does fx h =
        waited-Does Allowed (wait_for_exit t.pid t.pid_start a.waits) (some (stopped, fx))
          (escalate t o a fx) h (escalate-Does fx h)

    graceful-Does : o.force ≡ false → Does Allowed (graceful t o a)
    unfolding graceful
    graceful-Does f =
        stage-Does Allowed [] (asked t a) (grace_wait t o a) tt (asked-All f) grace_wait-Does

  -- Whatever the kernel and the terminal answer, `stopOneTerminal` signals only a target that is
  -- not exited and whose process was ours at the start: SIGTERM and the RPC never with --force, a
  -- kill only with --force or --kill-after, a pid only after a match of its recorded instance just
  -- before, and no group but a recorded positive one.
  pub stop_one_terminal-Allowed : Does Allowed (stop_one_terminal t o a)
  unfolding stop_one_terminal
  stop_one_terminal-Allowed =
      if-elim (Does Allowed) (t.exited || not (process_is_ours t.pid t.pid_start a.at_start))
        (λ h. tt)
        λ h.
          let awake : t.exited ≡ false = ground (arith, h) in
          let ours : process_is_ours t.pid t.pid_start a.at_start ≡ true = ground (arith, h) in
          if-elim (Does Allowed) o.force (λ f. kill_stage-Does awake ours (ground (arith, f)) [] tt)
            (λ f. graceful-Does awake ours f)
