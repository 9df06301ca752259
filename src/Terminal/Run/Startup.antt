-- ===== src/Terminal/Run/Startup.antt =====
-- The startup of `Run` against a plain description: the first phase that fails decides.
use sbsh.Base.{
  ◌≡◌, refl, ap, ◌∙◌, Bool, true, false, Option, none, some, List, [], ◌∷◌, is_empty, arith,
}
use sbsh.Errdefs.{
  Error, Sentinel, sentinel, wrap, err_write_metadata, err_open_socket_ctrl, err_start_rpc_server,
  err_start_terminal, err_setup_shell, err_init_shell,
}
use sbsh.Outcome.{done}
use sbsh.Terminal.{TerminalSpec, TerminalRunner, Controller, close, shut_down, cancelled}
use sbsh.Terminal.Run.{Phase, Returned, checked, phase, served, serve, ready, start, run_start}

-- A controller that has served nothing yet.
pub record IsFresh {S : Type 0} (c : Controller S) : Type 0 where
  pub running : c.shutting_down ≡ false
  pub unclosing : c.closing_ch ≡ none
  pub unrequested : c.close_req_ch ≡ none
  pub unclosed : c.closed_ch ≡ false
  pub unready : c.ctrl_ready_ch ≡ false

module _ (R : TerminalRunner) where
  open R use {
    State, new, create_metadata, open_socket_ctrl, start_server, start_terminal, setup_shell,
    on_init_shell, close as close_runner,
  }

  -- A phase, the sentinel of its failure, and whether its failure closes the controller.
  pub record Stage : Type 0 where
    pub op : Phase R
    pub on_error : Sentinel
    pub closes : Bool

  abbrev pub Failure : Type 0
  Failure = Sentinel × Error × Bool

  abbrev pub attempted :
      State × Option Error → Sentinel → Bool → State × Option Failure → State × Option Failure
  attempted (r, none) s b rest = rest
  attempted (r, some e) s b rest = (r, some (s, e, b))

  -- The runner after the stages that succeed and the first that fails.
  pub first_failure : List Stage → State → State × Option Failure
  first_failure [] r = (r, none)
  first_failure (st ∷ sts) r =
      attempted (st.op r) st.on_error st.closes (first_failure sts (st.op r).0)

  abbrev pub closing : Phase R → Sentinel → Stage
  closing op s = record { op = op; on_error = s; closes = true }

  abbrev pub stages : List Stage
  stages =
      closing create_metadata err_write_metadata
      ∷ closing open_socket_ctrl err_open_socket_ctrl
      ∷ record { op = start_server; on_error = err_start_rpc_server; closes = false }
      ∷ closing start_terminal err_start_terminal
      ∷ closing setup_shell err_setup_shell
      ∷ closing on_init_shell err_init_shell
      ∷ []

  -- What `Run` makes of it: ready, or the error in its sentinel, with or without a Close.
  abbrev pub ending : Controller State → State × Option Failure → Controller State × Option Error
  ending c (r, none) = (record c { sr = some r; ctrl_ready_ch = true }, none)
  ending c (r, some (s, e, false)) = (record c { sr = some r }, some (wrap (sentinel s) e))
  ending c (r, some (s, e, true)) = (
    record c {
      sr = some (close_runner (some e) r).0;
      ctx_err = cancelled c.ctx_err;
      close_req_ch = some (some e);
      closing_ch = some (some e);
      closed_ch = true;
      shutting_down = true;
    },
    some (wrap (sentinel s) e),
  )

  -- The runner that `ending` forgets.
  ending-sr :
      (c : Controller State) (s : Option State) (x : State × Option Failure)
      → ending (record c { sr = s }) x ≡ ending c x
  ending-sr c s (r, none) = refl
  ending-sr c s (r, some (t, e, false)) = refl
  ending-sr c s (r, some (t, e, true)) = refl

  IsFresh-sr : {c : Controller State} {s : Option State} → IsFresh c → IsFresh (record c { sr = s })
  IsFresh-sr f = record {
    running = f.running;
    unclosing = f.unclosing;
    unrequested = f.unrequested;
    unclosed = f.unclosed;
    unready = f.unready;
  }

  abbrev Continues : (State → Controller State → Returned R) → List Stage → Type 0
  Continues next sts =
      (r : State) (c : Controller State)
      → IsFresh c
      → c.sr ≡ some r
      → next r c ≡ done (ending c (first_failure sts r))

  checked_lem :
      (s : Sentinel) (o : State × Option Error) (c : Controller State) (sts : List Stage)
      (next : State → Controller State → Returned R)
      → Continues next sts
      → IsFresh c
      → checked R s o.1 o.0 (record c { sr = some o.0 }) next
        ≡ done (ending c (attempted o s true (first_failure sts o.0)))
  unfolding checked close shut_down
  checked_lem s (r, none) c sts next k f =
      k r _ (IsFresh-sr f) refl ∙ ap done (ending-sr c (some r) _)
  checked_lem s (r, some e) c sts next k f = ground arith

  served_lem :
      (o : State × Option Error) (c : Controller State) (sts : List Stage)
      (next : State → Controller State → Returned R)
      → Continues next sts
      → IsFresh c
      → served R o.1 o.0 (record c { sr = some o.0 }) next
        ≡ done (ending c (attempted o err_start_rpc_server false (first_failure sts o.0)))
  unfolding served
  served_lem (r, none) c sts next k f = k r _ (IsFresh-sr f) refl ∙ ap done (ending-sr c (some r) _)
  served_lem (r, some e) c sts next k f = refl

  ready_lem : Continues (ready R) []
  unfolding ready first_failure
  ready_lem r c f h = ground arith

  phase_lem :
      (op : Phase R) (s : Sentinel) (sts : List Stage)
      (next : State → Controller State → Returned R)
      → Continues next sts
      → Continues (λ r c. phase R op s r c next) (closing op s ∷ sts)
  unfolding phase first_failure
  phase_lem op s sts next k r c f _ = checked_lem s (op r) c sts next k f

  serve_lem :
      (sts : List Stage) (next : State → Controller State → Returned R)
      → Continues next sts
      → Continues
          (λ r c. serve R r c next)
          (record { op = start_server; on_error = err_start_rpc_server; closes = false } ∷ sts)
  unfolding serve first_failure
  serve_lem sts next k r c f _ = served_lem (start_server r) c sts next k f

  start_lem : Continues (start R) stages
  unfolding start
  start_lem = phase_lem create_metadata err_write_metadata _ _ (
      phase_lem open_socket_ctrl err_open_socket_ctrl _ _ (
        serve_lem _ _ (
          phase_lem start_terminal err_start_terminal _ _ (
            phase_lem setup_shell err_setup_shell _ _
              (phase_lem on_init_shell err_init_shell _ _ ready_lem)))))

  -- On a fresh controller and a spec with a command, the startup of `Run` never blocks or panics.
  -- It runs its six phases in order up to the first that fails. With no failure the controller is
  -- ready and not closed. A failure is returned in the phase's sentinel, with the controller and
  -- its runner closed for that reason and a close request queued, except that a failure of the RPC
  -- server's start closes nothing.
  pub run_start-stages :
      (spec : TerminalSpec) (c : Controller State)
      → IsFresh c
      → is_empty spec.command ≡ false
      → run_start R spec c ≡ done (ending c (first_failure stages (new spec)))
  unfolding run_start
  run_start-stages spec c f h =
      rw (h, run_start)
        (start_lem (new spec) _ (IsFresh-sr f) refl
          ∙ ap done (ending-sr c (some (new spec)) (first_failure stages (new spec))))
