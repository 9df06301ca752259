-- ===== src/Client/Run/Startup.antt =====
-- How the client's startup ends.
use sbsh.Base.{◌≡◌, ◌≢◌, ◌⊎◌, refl, inl, inr, Bool, true, false, Option, none, some, arith, if-elim}
use sbsh.Errdefs.{Error, sentinel, is, err_write_metadata, wrap, Sentinel-discrete}
use sbsh.Outcome.{done, blocked}
use sbsh.Client.{
  TerminalSpec, AttachedTerminal, ClientMode, run_new_terminal, attach_to_terminal, other_mode,
  ClientDoc, ClientRunner, Controller, Lookups, create_attach_terminal, create_run_new_terminal,
  close, shut_down,
}
use sbsh.Client.Run.{
  RpcStart, rpc_ready, rpc_ctx_done, Started, Next, failed_metadata, failed, checked,
  checked_metadata, call, serve, ready, attach_to, run_new, attach_found, no_attach_spec,
  attach_existing, by_mode, run_start, names_none,
}

-- A controller that has served nothing yet, and a select branch that is ready when taken.
pub record IsFresh {S : Type 0} (sel : RpcStart) (c : Controller S) : Type 0 where
  pub running : c.shutting_down ≡ false
  pub unrequested : c.close_req_ch ≡ none
  pub unclosed : c.closed_ch ≡ false
  pub unready : c.ctrl_ready_ch ≡ false
  pub selected : (sel ≡ rpc_ready) ⊎ (c.ctx_err ≢ none)

module _ (R : ClientRunner) where
  open R use {
    State, new, create_metadata, open_socket_ctrl, start_server, start_terminal_cmd, attach,
  }

  -- The controller after a startup that returned `e`; `none` is one whose loop begins.
  abbrev pub Verdict : Controller State → Option Error → Type 0
  Verdict c none =
      (c.ctrl_ready_ch ≡ true)
      × (c.shutting_down ≡ false)
      × (c.closed_ch ≡ false)
      × (c.close_req_ch ≡ none)
  Verdict c (some e) =
      (c.shutting_down ≡ true)
      × (c.closed_ch ≡ true)
      × ((reason : Error) × (c.close_req_ch ≡ some (some reason)))
      × ((c.ctrl_ready_ch ≡ true) ⊎ ((c.ctrl_ready_ch ≡ false) × (is e err_write_metadata ≡ true)))

  abbrev pub Decides : Started R → Type 0
  Decides o = (c : Controller State) × (e : Option Error) × (o ≡ done (c, e)) × Verdict c e

  module _ (sel : RpcStart) where
    IsFresh-sr :
        {c : Controller State} {s : Option State}
        → IsFresh sel c
        → IsFresh sel (record c { sr = s })
    IsFresh-sr f = record {
      running = f.running;
      unrequested = f.unrequested;
      unclosed = f.unclosed;
      unready = f.unready;
      selected = f.selected;
    }

    abbrev Good : Next R → Type 0
    Good next =
        (r : State) (c : Controller State) → IsFresh sel c → c.sr ≡ some r → Decides (next r c)

    abbrev shut : Bool → Error → State → Controller State → Controller State
    shut b e r c = record c {
      sr = some (R.close (some e) r);
      close_req_ch = some (some e);
      closed_ch = true;
      shutting_down = true;
      ctrl_ready_ch = b;
    }

    failed-Decides :
        (f : Option Error → Error) (e : Error) (r : State) (c : Controller State)
        → IsFresh sel c
        → c.sr ≡ some r
        → Decides (failed R f e c)
    unfolding failed close shut_down
    failed-Decides f e r c h s =
        (shut true e r c, some (f none), ground arith, (refl, refl, (e, refl), inl refl))

    failed_metadata-Decides :
        (e : Error) (r : State) (c : Controller State)
        → IsFresh sel c
        → c.sr ≡ some r
        → Decides (failed_metadata R e c)
    unfolding failed_metadata close shut_down is Sentinel-discrete mathlib.Core.Bool.decide
    failed_metadata-Decides e r c h s = (
      shut false e r c,
      some (wrap (sentinel err_write_metadata) e),
      ground arith,
      (refl, refl, (e, refl), inr (refl, refl)),
    )

    checked-Decides :
        (f : Error → Option Error → Error) (o : State × Option Error) (c : Controller State)
        (next : Next R)
        → Good next
        → IsFresh sel c
        → Decides (checked R f o.1 o.0 (record c { sr = some o.0 }) next)
    unfolding checked
    checked-Decides f (r, none) c next g h = g r _ (IsFresh-sr h) refl
    checked-Decides f (r, some e) c next g h = failed-Decides (f e) e r _ (IsFresh-sr h) refl

    call-Good :
        (op : State → State × Option Error) (f : Error → Option Error → Error) (next : Next R)
        → Good next
        → Good (λ r c. call R op f r c next)
    unfolding call
    call-Good op f next g r c h s = checked-Decides f (op r) c next g h

    checked_metadata-Decides :
        (o : State × Option Error) (c : Controller State) (next : Next R)
        → Good next
        → IsFresh sel c
        → Decides (checked_metadata R o.1 o.0 (record c { sr = some o.0 }) next)
    unfolding checked_metadata
    checked_metadata-Decides (r, none) c next g h = g r _ (IsFresh-sr h) refl
    checked_metadata-Decides (r, some e) c next g h =
        failed_metadata-Decides e r _ (IsFresh-sr h) refl

    ready-Good : Good (ready R)
    unfolding ready
    ready-Good r c h s = (
      record c { ctrl_ready_ch = true },
      none,
      ground arith,
      (refl, h.running, h.unclosed, h.unrequested),
    )

    attach_to-Good : (t : AttachedTerminal) → Good (attach_to R t)
    unfolding attach_to
    attach_to-Good t = call-Good (attach t) _ (ready R) ready-Good

    run_new-Good : (t : Error ⊎ AttachedTerminal) → Good (run_new R t)
    unfolding run_new
    run_new-Good (inl e) r c h s = failed-Decides _ e r c h s
    run_new-Good (inr t) r c h s =
        call-Good (start_terminal_cmd t) _ (attach_to R t) (attach_to-Good t) r c h s

    no_attach_spec-Decides :
        (r : State) (c : Controller State)
        → IsFresh sel c
        → c.sr ≡ some r
        → Decides (no_attach_spec R c)
    unfolding no_attach_spec
    no_attach_spec-Decides r c h s = failed-Decides _ _ r c h s

    attach_found-Good : (t : Error ⊎ AttachedTerminal) → Good (attach_found R t)
    unfolding attach_found
    attach_found-Good (inl e) r c h s = failed-Decides _ e r c h s
    attach_found-Good (inr t) r c h s = attach_to-Good t r c h s

    attach_existing-Good : (l : Lookups) (s : Option TerminalSpec) → Good (attach_existing R l s)
    unfolding attach_existing
    attach_existing-Good l none r c h q = no_attach_spec-Decides r c h q
    attach_existing-Good l (some s) r c h q =
        if-elim Decides (names_none s) (λ _. no_attach_spec-Decides r c h q)
          (λ _. attach_found-Good (create_attach_terminal l s) r c h q)

    by_mode-Good : (l : Lookups) (m : ClientMode) (s : Option TerminalSpec) → Good (by_mode R l m s)
    unfolding by_mode
    by_mode-Good l run_new_terminal s r c h q = run_new-Good (create_run_new_terminal l s) r c h q
    by_mode-Good l attach_to_terminal s r c h q = attach_existing-Good l s r c h q
    by_mode-Good l other_mode s r c h q = failed-Decides _ _ r c h q

  ctx_done_branch :
      (c : Controller State) (r : State) (x : Option Error)
      → IsFresh rpc_ctx_done c
      → c.sr ≡ some r
      → c.ctx_err ≡ x
      → (f : Error → Option Error → Error)
      → Decides (elim x as (λ _. Started R) [ none ↦ blocked | some e ↦ failed R (f e) e c ])
  ctx_done_branch c r none h s q f = elim h.selected [ inl e ↦ cc | inr n ↦ absurd (n q) ]
  ctx_done_branch c r (some e) h s q f = failed-Decides rpc_ctx_done (f e) e r c h s

  serve-Good :
      (sel : RpcStart) (next : Next R) → Good sel next → Good sel (λ r c. serve R sel r c next)
  unfolding serve
  serve-Good rpc_ready next g r c h s = call-Good rpc_ready start_server _ next g r c h s
  serve-Good rpc_ctx_done next g r c h s =
      ctx_done_branch (record c { sr = some (start_server r).0 }) (start_server r).0 c.ctx_err
        (IsFresh-sr rpc_ctx_done h) refl refl _

  -- On a fresh client controller, and whichever ready branch the select on the server's start
  -- takes, the startup of `Run` never blocks or panics. Either its loop begins, ready and not
  -- closed, or it returns an error with the controller closed and the reason queued; then
  -- `ctrlReadyCh` is closed too, except after a failure of the metadata, which leaves it open.
  pub run_start-Decides :
      (l : Lookups) (sel : RpcStart) (doc : ClientDoc) (c : Controller State)
      → IsFresh sel c
      → Decides (run_start R l sel doc c)
  unfolding run_start
  run_start-Decides l sel doc c h =
      checked_metadata-Decides sel (create_metadata (new doc)) c _
        (call-Good sel open_socket_ctrl _ _
          (serve-Good sel _ (by_mode-Good sel l doc.client_mode doc.terminal_spec)))
        h
