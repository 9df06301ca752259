-- ===== src/Terminal/Run/Ending.antt =====
-- What `Close` makes of a controller that is sound.
use sbsh.Base.{◌≡◌, ◌≢◌, ◌⊎◌, refl, inl, inr, true, false, Option, none, some, arith, Bool-cases}
use sbsh.Errdefs.{
  Error, sentinel, wrap, tag, err_close_req, err_context_done, err_rpc_server_exited,
}
use sbsh.Outcome.{Outcome, done, blocked}
use sbsh.Terminal.{TerminalRunner, Controller, close, cancelled, close_sr, new_terminal_controller}

-- Before the shutdown the one-shot channels are unused; from then on the context is done.
pub record IsSound {S : Type 0} (c : Controller S) : Type 0 where
  pub unused :
      c.shutting_down ≡ false
      → (c.closing_ch ≡ none) × (c.close_req_ch ≡ none) × (c.closed_ch ≡ false)
  pub over : c.shutting_down ≡ true → (c.ctx_err ≢ none) × (c.closed_ch ≡ true)

-- A new controller is sound.
new-IsSound : {S : Type 0} → IsSound (new_terminal_controller {S = S})
unfolding new_terminal_controller
new-IsSound = ground arith

module _ (R : TerminalRunner) where
  open R use {State}

  -- What `Close` leaves: a closed controller, with the reason of the first Close queued.
  pub record Closes (reason : Option Error) (c c' : Controller State) : Type 0 where
    pub sound : IsSound c'
    pub down : c'.shutting_down ≡ true
    pub repeated : c.shutting_down ≡ true → c' ≡ c
    pub first :
        c.shutting_down ≡ false → (c'.close_req_ch ≡ some reason) × (c'.closing_ch ≡ some reason)

  abbrev pub closed_by : Option Error → Controller State → Controller State
  closed_by reason c = record {
    sr = close_sr R reason c.sr;
    ctx_err = cancelled c.ctx_err;
    ctrl_ready_ch = c.ctrl_ready_ch;
    close_req_ch = some reason;
    closing_ch = some reason;
    closed_ch = true;
    shutting_down = true;
  }

  cancelled-ne-none : (e : Option Error) → cancelled e ≢ none
  cancelled-ne-none none = λ p. cc
  cancelled-ne-none (some e) = λ p. cc

  pub close_again :
      (reason : Option Error) (c : Controller State)
      → c.shutting_down ≡ true
      → close R reason c ≡ done (c, none)
  unfolding close
  close_again reason c e = ground arith

  pub close_first :
      (reason : Option Error) (c : Controller State)
      → IsSound c
      → c.shutting_down ≡ false
      → close R reason c ≡ done (closed_by reason c, none)
  unfolding close
  close_first reason c s e = ground arith

  -- On a sound controller `Close` neither blocks nor panics, and returns nil. The first call marks
  -- the controller closed and leaves its reason for `Run` and `WaitClose`; any later call changes
  -- nothing.
  pub close-Closes :
      (reason : Option Error) (c : Controller State)
      → IsSound c
      → (c' : Controller State) × (close R reason c ≡ done (c', none)) × Closes reason c c'
  close-Closes reason c s = elim (Bool-cases c.shutting_down) [
    | inl e ↦ (
      c,
      close_again reason c e,
      record { sound = s; down = e; repeated = λ _. refl; first = λ f. cc },
    )
    | inr e ↦ (
      closed_by reason c,
      close_first reason c s e,
      record {
        sound = record { unused = λ p. cc; over = λ _. (cancelled-ne-none c.ctx_err, refl) };
        down = refl;
        repeated = λ p. cc;
        first = λ _. (refl, refl);
      },
    )
  ]

  -- The three errors that the loop returns.
  abbrev Exit : Error → Type 0
  Exit e =
      ((reason : Option Error) × (e ≡ tag err_close_req reason))
      ⊎ ((cause : Error) × (e ≡ wrap (sentinel err_context_done) cause))
      ⊎ ((cause : Option Error) × (e ≡ tag err_rpc_server_exited cause))

  -- What a return says of the controller; `none` is a loop that goes on.
  abbrev pub Leaves : Controller State → Option Error → Type 0
  Leaves c none = Unit
  Leaves c (some e) = (c.shutting_down ≡ true) × Exit e

  -- An outcome of the loop: it waits on a branch that is not ready, or keeps the controller sound.
  abbrev pub Keeps : Outcome (Controller State × Option Error) → Type 0
  Keeps o =
      (o ≡ blocked)
      ⊎ ((c : Controller State) × (e : Option Error) × (o ≡ done (c, e)) × IsSound c × Leaves c e)
