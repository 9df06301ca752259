-- ===== src/Terminal/Run/Loop.antt =====
-- The select loop of `Run`: what it returns, and that its Close calls end.
use sbsh.Base.{
  ◌≡◌, ◌≢◌, refl, ◌∙◌, inl, inr, true, false, Option, none, some, List, [], ◌∷◌, ◌++◌, map, arith,
  Bool-cases, Option-cases,
}
use mathlib.Core.Path.{subst}
use sbsh.Errdefs.{
  Error, sentinel, wrap, tag, err_close_req, err_context_done, err_rpc_server_exited,
}
use sbsh.Outcome.{Slot, done, ◌>>=◌}
use sbsh.Terminal.{TerminalRunner, Controller, close, cancelled, close_sr}
use sbsh.Terminal.Run.{
  Event, EventType, ev_error, ev_cmd_exited, other, Signal, ctx_done, event, rpc_done, close_req,
  on_ctx_done, on_rpc_done, round, loop,
}
use sbsh.Terminal.Run.Ending.{
  IsSound, closed_by, close_again, close_first, close-Closes, Leaves, Keeps,
}

module _ (R : TerminalRunner) where
  open R use {State}

  requested_down :
      (c : Controller State) (x : Option Error)
      → IsSound c
      → c.close_req_ch ≡ some x
      → c.shutting_down ≡ true
  requested_down c x s q = elim (Bool-cases c.shutting_down) [
    | inl d ↦ d
    | inr r ↦ let (_, e, _) = s.unused r in cc
  ]

  taken-IsSound :
      (c : Controller State)
      → IsSound c
      → c.shutting_down ≡ true
      → IsSound (record c { close_req_ch = none })
  taken-IsSound c s d = record { unused = λ r. cc; over = s.over }

  closing_event :
      (err : Option Error) (c : Controller State)
      → IsSound c
      → Keeps R (close R err c >>= (λ r. done r.0) >>= λ c'. done (c', none))
  closing_event err c s =
      let (c', e, cl) = close-Closes R err c s in inr (c', none, rw e, cl.sound, tt)

  event-Keeps :
      (t : EventType) (err : Option Error) (c : Controller State)
      → IsSound c
      → Keeps R (round R (event (record { type = t; err = err })) c)
  unfolding round
  event-Keeps ev_error err c s = closing_event err c s
  event-Keeps ev_cmd_exited err c s = closing_event err c s
  event-Keeps other err c s = inr (c, none, refl, s, tt)

  ctx_done-Keeps :
      (e : Error) (c : Controller State) (q : Slot)
      → IsSound c
      → c.close_req_ch ≡ q
      → Keeps R (on_ctx_done R e c)
  unfolding on_ctx_done
  ctx_done-Keeps e c (some x) s q =
      let d = requested_down c x s q in
      inr (
        record c { close_req_ch = none },
        some (tag err_close_req x),
        ground arith,
        taken-IsSound c s d,
        (d, inl (x, refl)),
      )
  ctx_done-Keeps e c none s q =
      let (c', p, cl) = close-Closes R (some e) c s in
      inr (
        c',
        some (wrap (sentinel err_context_done) e),
        ground (arith, p),
        cl.sound,
        (cl.down, inr (inl (e, refl))),
      )

  close_req-Keeps :
      (c : Controller State) (q : Slot)
      → IsSound c
      → c.close_req_ch ≡ q
      → Keeps R (round R close_req c)
  unfolding round
  close_req-Keeps c none s q = inl (ground arith)
  close_req-Keeps c (some x) s q =
      let d = requested_down c x s q in
      inr (
        record c { close_req_ch = none },
        some (tag err_close_req x),
        ground arith,
        taken-IsSound c s d,
        (d, inl (x, refl)),
      )

  rpc_done-Keeps :
      (e : Option Error) (c : Controller State) → IsSound c → Keeps R (on_rpc_done R e c)
  unfolding on_rpc_done
  rpc_done-Keeps none c s =
      let (c', p, cl) = close-Closes R none c s in
      inr (
        c',
        some (tag err_rpc_server_exited none),
        rw p,
        cl.sound,
        (cl.down, inr (inr (none, refl))),
      )
  rpc_done-Keeps (some e) c s =
      let (c', p, cl) = close-Closes R (some e) c s in
      inr (
        c',
        some (tag err_rpc_server_exited (some e)),
        rw p,
        cl.sound,
        (cl.down, inr (inr (some e, refl))),
      )

  -- One round on a sound controller.
  round-Keeps : (sig : Signal) (c : Controller State) → IsSound c → Keeps R (round R sig c)
  unfolding round
  round-Keeps ctx_done c s = elim (Option-cases c.ctx_err) [
    | inl live ↦ inl (ground arith)
    | inr (e, p) ↦ subst (Keeps R) (ground arith) (ctx_done-Keeps e c c.close_req_ch s refl)
  ]
  round-Keeps (event ev) c s = event-Keeps ev.type ev.err c s
  round-Keeps (rpc_done e) c s = rpc_done-Keeps e c s
  round-Keeps close_req c s = close_req-Keeps c c.close_req_ch s refl

  going_on :
      (sigs : List Signal) (c : Controller State) (e : Option Error)
      → IsSound c
      → Leaves R c e
      → ((c : Controller State) → IsSound c → Keeps R (loop R sigs c))
      → Keeps R (elim e [ none ↦ loop R sigs c | some x ↦ done (c, some x) ])
  going_on sigs c none s l ih = ih c s
  going_on sigs c (some x) s l ih = inr (c, some x, refl, s, l)

  -- On a sound controller, whatever branches the scheduler takes, `Run`'s loop never panics and no
  -- Close in it blocks: it goes on, waits on a branch that is not ready, or returns a close
  -- request, a done context or the end of the RPC server, and then the controller is shut down.
  loop-Keeps : (sigs : List Signal) (c : Controller State) → IsSound c → Keeps R (loop R sigs c)
  unfolding loop
  loop-Keeps [] c s = inr (c, none, refl, s, tt)
  loop-Keeps (sig ∷ sigs) c s = elim (round-Keeps sig c s) [
    | inl b ↦ inl (rw b)
    | inr (c', e, p, s', l) ↦
        subst (Keeps R) (rw p) (going_on sigs c' e s' l (λ c s. loop-Keeps sigs c s))
  ]

  -- The branch on which the loop ends, once a close request is queued.
  pub data Last : Type 0 where
    by_ctx by_request : Last
    by_rpc : Option Error → Last

  abbrev pub signal_of : Last → Signal
  signal_of by_ctx = ctx_done
  signal_of by_request = close_req
  signal_of (by_rpc e) = rpc_done e

  -- The error that `Run` then returns, when the queued request has this reason.
  abbrev pub exit_error : Option Error → Last → Error
  exit_error reason by_ctx = tag err_close_req reason
  exit_error reason by_request = tag err_close_req reason
  exit_error reason (by_rpc none) = tag err_rpc_server_exited none
  exit_error reason (by_rpc (some e)) = wrap (sentinel err_rpc_server_exited) e

  -- A queued request that is taken is gone.
  abbrev pub after_last : Last → Controller State → Controller State
  after_last by_ctx c = record c { close_req_ch = none }
  after_last by_request c = record c { close_req_ch = none }
  after_last (by_rpc e) c = c

  -- What the loop does to a controller that is closed, with a queued request.
  taken :
      (l : Last) (c : Controller State) (e : Error) (reason : Option Error) (sigs : List Signal)
      → c.shutting_down ≡ true
      → c.ctx_err ≡ some e
      → c.close_req_ch ≡ some reason
      → loop R (signal_of l ∷ sigs) c ≡ done (after_last l c, some (exit_error reason l))
  unfolding loop
  taken by_ctx c e reason sigs d h q = ground arith
  taken by_request c e reason sigs d h q = ground arith
  taken (by_rpc none) c e reason sigs d h q = rw (close_again R none c d) refl
  taken (by_rpc (some x)) c e reason sigs d h q = rw (close_again R (some x) c d) refl

  cancelled-some : (e : Option Error) → (x : Error) × (cancelled e ≡ some x)
  cancelled-some none = (_, refl)
  cancelled-some (some e) = (e, refl)

  late_event :
      (t : EventType) (err : Option Error) (c : Controller State) (sigs : List Signal)
      → c.shutting_down ≡ true
      → loop R (event (record { type = t; err = err }) ∷ sigs) c ≡ loop R sigs c
  unfolding loop
  late_event ev_error err c sigs d = rw (close_again R err c d)
  late_event ev_cmd_exited err c sigs d = rw (close_again R err c d)
  late_event other err c sigs d = refl

  late_events :
      (evs : List Event) (c : Controller State) (sigs : List Signal)
      → c.shutting_down ≡ true
      → loop R (map event evs ++ sigs) c ≡ loop R sigs c
  late_events [] c sigs d = refl
  late_events (ev ∷ evs) c sigs d =
      late_event ev.type ev.err c (map event evs ++ sigs) d ∙ late_events evs c sigs d

  fatal_event :
      (t : EventType) (err : Option Error) (c : Controller State) (sigs : List Signal)
      → t ≢ other
      → IsSound c
      → c.shutting_down ≡ false
      → loop R (event (record { type = t; err = err }) ∷ sigs) c ≡ loop R sigs (closed_by R err c)
  unfolding loop
  fatal_event ev_error err c sigs n s d = rw (close_first R err c s d)
  fatal_event ev_cmd_exited err c sigs n s d = rw (close_first R err c s d)
  fatal_event other err c sigs n s d = absurd (n refl)

  after_last-down :
      (l : Last) (c : Controller State)
      → ((after_last l c).shutting_down ≡ c.shutting_down) × ((after_last l c).sr ≡ c.sr)
  after_last-down by_ctx c = (refl, refl)
  after_last-down by_request c = (refl, refl)
  after_last-down (by_rpc e) c = (refl, refl)

  -- When the terminal fails or its command exits on a controller that is not shutting down, and `Run`
  -- then takes further events and at last another branch, it returns: a close request with the
  -- first event's error if that branch is the queued request or the done context, and the error of
  -- the RPC server if it is the end of that server. Further events change nothing, and a done context
  -- does not win over the queued reason. The controller is then shut down, and its runner has been
  -- closed once, with the first event's error.
  pub loop-exit_reason :
      (ev : Event) (evs : List Event) (l : Last) (sigs : List Signal) (c : Controller State)
      → ev.type ≢ other
      → IsSound c
      → c.shutting_down ≡ false
      → (c' : Controller State) × (loop R (event ev ∷ map event evs ++ signal_of l ∷ sigs) c
          ≡ done (c', some (exit_error ev.err l)))
        × (c'.shutting_down ≡ true)
        × (c'.sr ≡ close_sr R ev.err c.sr)
  loop-exit_reason ev evs l sigs c n s d =
      let (x, e) = cancelled-some c.ctx_err in
      let c1 = closed_by R ev.err c in
      let (down, runner) = after_last-down l c1 in
      (
        after_last l c1,
        fatal_event ev.type ev.err c (map event evs ++ signal_of l ∷ sigs) n s d
            ∙ late_events evs c1 (signal_of l ∷ sigs) refl
            ∙ taken l c1 x ev.err sigs refl e refl,
        down,
        runner,
      )
