-- ===== src/Client/Run/Session.antt =====
-- The end of a client's session: a detach is told from a hangup.
use sbsh.Base.{
  ◌≡◌, refl, ap, ◌∙◌, Bool, true, false, ◌||◌, Option, none, some, List, [], ◌∷◌, ◌++◌, map, arith,
}
use mathlib.Core.Bool.{or_assoc}
use sbsh.Errdefs.{
  Error, Sentinel, sentinel, wrap, tag, err_client_detached, err_peer_closed, err_close_req,
}
use sbsh.Outcome.{done}
use sbsh.Client.{ClientRunner, Controller, close, shut_down, detach, detached, classify_session_end}
use sbsh.Client.Run.{
  Event, EventType, ev_cmd_exited, ev_error, ev_detach, other, event, close_req, Signal, loop,
}

-- An event that does not end the session.
abbrev pub quiet : EventType → Bool
quiet ev_detach = true
quiet other = true
quiet _ = false

abbrev pub all_quiet : List Event → Bool
all_quiet [] = true
all_quiet (ev ∷ evs) = elim (quiet ev.type) [ true ↦ all_quiet evs | false ↦ false ]

abbrev pub is_detach : EventType → Bool
is_detach ev_detach = true
is_detach _ = false

abbrev pub has_detach : List Event → Bool
has_detach [] = false
has_detach (ev ∷ evs) = is_detach ev.type || has_detach evs

abbrev pub end_sentinel : Bool → Sentinel
end_sentinel true = err_client_detached
end_sentinel false = err_peer_closed

-- A controller that serves a session.
pub record IsServing {S : Type 0} (c : Controller S) : Type 0 where
  pub runner : S
  pub running_on : c.sr ≡ some runner
  pub running : c.shutting_down ≡ false
  pub unrequested : c.close_req_ch ≡ none
  pub unclosed : c.closed_ch ≡ false

module _ (R : ClientRunner) where
  open R use {State}

  -- A detach, whatever the runner answers.
  after_detach :
      (o : State × Option Error) (c : Controller State)
      → IsServing c
      → IsServing (detached R c o).0 × ((detached R c o).0.detach_requested ≡ true)
  after_detach (r, none) c s = (
    record {
      runner = r;
      running_on = refl;
      running = s.running;
      unrequested = s.unrequested;
      unclosed = s.unclosed;
    },
    refl,
  )
  after_detach (r, some e) c s = (
    record {
      runner = r;
      running_on = refl;
      running = s.running;
      unrequested = s.unrequested;
      unclosed = s.unclosed;
    },
    refl,
  )

  detach_on :
      (s : State) (c : Controller State)
      → c.sr ≡ some s
      → detach R c ≡ done (detached R c (R.detach s))
  unfolding detach
  detach_on s c e = ground arith

  abbrev shut_on : State → Option Error → Controller State → Controller State
  shut_on s reason c = record c {
    sr = some (R.close reason s);
    close_req_ch = some reason;
    closed_ch = true;
    shutting_down = true;
  }

  close_on :
      (reason : Option Error) (c : Controller State) (s : IsServing c)
      → close R reason c ≡ done (shut_on s.runner reason c, none)
  unfolding close shut_down
  close_on reason c s = ground arith

  classify_by :
      (cause : Option Error) (c : Controller State) (b : Bool)
      → c.detach_requested ≡ b
      → classify_session_end R cause c ≡ tag (end_sentinel (b || false)) cause
  unfolding classify_session_end
  classify_by cause c true e = ground arith
  classify_by cause c false e = ground arith

  -- A quiet event goes on with a controller that serves, and only a detach marks it.
  quiet_event :
      (t : EventType) (err : Option Error) (c : Controller State)
      → quiet t ≡ true
      → IsServing c
      → (c' : Controller State) × IsServing c'
        × (c'.detach_requested ≡ (c.detach_requested || is_detach t))
        × ((sigs : List Signal)
            → loop R (event (record { type = t; err = err }) ∷ sigs) c ≡ loop R sigs c')
  unfolding loop
  quiet_event ev_cmd_exited err c q s = cc
  quiet_event ev_error err c q s = cc
  quiet_event other err c q s = (c, s, ground arith, λ sigs. refl)
  quiet_event ev_detach err c q s =
      let (s', d) = after_detach (R.detach s.runner) c s in
      (
        (detached R c (R.detach s.runner)).0,
        s',
        ground arith,
        λ sigs. rw (detach_on s.runner c s.running_on) refl,
      )

  -- When the session's connection fails on a serving controller, `Run` returns a close request that
  -- carries the detach sentinel if a detach was requested before, by an event or by a call, and the
  -- hangup sentinel if not, with the failure's error, which may be nil.
  pub loop-end_sentinel :
      (evs : List Event) (cause : Option Error) (sigs : List Signal) (c : Controller State)
      → all_quiet evs ≡ true
      → IsServing c
      → (c' : Controller State) × (loop R
            (map event evs ++ event (record { type = ev_error; err = cause }) ∷ close_req ∷ sigs)
            c
          ≡ done (
            c',
            some (
                some (
                  wrap
                    (sentinel err_close_req)
                    (tag (end_sentinel (c.detach_requested || has_detach evs)) cause))),
          ))
        × (c'.shutting_down ≡ true)
        × (c'.closed_ch ≡ true)
  unfolding loop
  loop-end_sentinel [] cause sigs c q s = (
    record (shut_on s.runner (some (classify_session_end R cause c)) c) { close_req_ch = none },
    rw
        (
          close_on (some (classify_session_end R cause c)) c s,
          classify_by cause c c.detach_requested refl,
        )
        refl,
    refl,
    refl,
  )
  loop-end_sentinel (ev ∷ evs) cause sigs c q s =
      let (c1, s1, d, step) = quiet_event ev.type ev.err c (ground (arith, q)) s in
      let (c2, e, down, closed) = loop-end_sentinel evs cause sigs c1 (ground (arith, q)) s1 in
      (
        c2,
        step (map event evs ++ event (record { type = ev_error; err = cause }) ∷ close_req ∷ sigs)
            ∙ e
            ∙ ap
                (λ b.
                  done
                    (c2, some (some (wrap (sentinel err_close_req) (tag (end_sentinel b) cause)))))
                (ap (λ b. b || has_detach evs) d
                  ∙ or_assoc c.detach_requested (is_detach ev.type) (has_detach evs)),
        down,
        closed,
      )
