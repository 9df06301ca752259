-- ===== src/Terminal/Closing/Progress.antt =====
-- `Close` under every interleaving: the caller that wins always gets through.
use sbsh.Base.{ℕ, zero, suc, ◌<◌, ◌≡◌, ◌≢◌, refl, true, false, Option, none, some, arith}
use mathlib.Core.Path.{subst}
use sbsh.Errdefs.{Error}
use sbsh.Outcome.{Outcome, done, blocked, panicked, Slot, ◌>>=◌}
use sbsh.Terminal.{TerminalRunner, Controller, close, new_terminal_controller}
use sbsh.Terminal.Closing.{
  Pc, idle, cancels, sends_closing, closes_runner, sends_request, closes_closed, returned, Machine,
  Action, call_close, advance, wait_close, run_takes, parent_done, compare_and_swap, statement, act,
}

-- What the winner has not done yet.
abbrev Pending : {S : Type 0} → Pc → Controller S → Type 0
Pending idle c =
    (c.shutting_down ≡ false)
    × (c.closing_ch ≡ none)
    × (c.close_req_ch ≡ none)
    × (c.closed_ch ≡ false)
Pending (cancels r) c =
    (c.shutting_down ≡ true)
    × (c.closing_ch ≡ none)
    × (c.close_req_ch ≡ none)
    × (c.closed_ch ≡ false)
Pending (sends_closing r) c =
    (c.shutting_down ≡ true)
    × (c.closing_ch ≡ none)
    × (c.close_req_ch ≡ none)
    × (c.closed_ch ≡ false)
Pending (closes_runner r) c =
    (c.shutting_down ≡ true) × (c.close_req_ch ≡ none) × (c.closed_ch ≡ false)
Pending (sends_request r) c =
    (c.shutting_down ≡ true) × (c.close_req_ch ≡ none) × (c.closed_ch ≡ false)
Pending (closes_closed r) c = (c.shutting_down ≡ true) × (c.closed_ch ≡ false)
Pending (returned r) c = (c.shutting_down ≡ true) × (c.closed_ch ≡ true)

-- The statements that are left to the winner.
abbrev pub left : Pc → ℕ
left idle = 0
left (cancels r) = 5
left (sends_closing r) = 4
left (closes_runner r) = 3
left (sends_request r) = 2
left (closes_closed r) = 1
left (returned r) = 0

-- An action that is possible keeps what is pending, and none panics.
abbrev Safe : {S : Type 0} → Outcome (Machine S) → Type 0
Safe (done m) = Pending m.pc m.controller
Safe blocked = Unit
Safe panicked = ⊥

module _ (R : TerminalRunner) where
  open R use {State}

  -- The machines that some interleaving of the actions leads to, from a new controller on which `Run`
  -- has set a runner, or not.
  pub data Reach : Machine State → Type 0 where
    start :
        (sr : Option State)
        → Reach (record { controller = record new_terminal_controller { sr = sr }; pc = idle })
    next : {m m' : Machine State} (a : Action) → Reach m → act R a m ≡ done m' → Reach m'

  statement-Safe : (pc : Pc) (c : Controller State) → Pending pc c → Safe (statement R pc c)
  unfolding statement
  statement-Safe idle c p = tt
  statement-Safe (cancels r) c p = p
  statement-Safe (sends_closing r) c p = ground arith
  statement-Safe (closes_runner r) c p = p
  statement-Safe (sends_request r) c p = ground arith
  statement-Safe (closes_closed r) c p = ground arith
  statement-Safe (returned r) c p = tt

  call-Safe :
      (reason : Option Error) (pc : Pc) (c : Controller State)
      → Pending pc c
      → Safe (act R (call_close reason) (record { controller = c; pc = pc }))
  unfolding act
  call-Safe reason idle c p = ground arith
  call-Safe reason pc c p = ground arith

  wait-Safe :
      (pc : Pc) (c : Controller State) (q : Slot)
      → Pending pc c
      → c.closing_ch ≡ q
      → Safe (act R wait_close (record { controller = c; pc = pc }))
  unfolding act
  wait-Safe idle c q p e = ground arith
  wait-Safe pc c q p e = ground arith

  run-Safe :
      (pc : Pc) (c : Controller State) (q : Slot)
      → Pending pc c
      → c.close_req_ch ≡ q
      → Safe (act R run_takes (record { controller = c; pc = pc }))
  unfolding act
  run-Safe idle c q p e = ground arith
  run-Safe pc c q p e = ground arith

  parent-Safe :
      (x : Error) (pc : Pc) (c : Controller State)
      → Pending pc c
      → Safe (act R (parent_done x) (record { controller = c; pc = pc }))
  unfolding act
  parent-Safe x idle c p = p
  parent-Safe x pc c p = p

  act-Safe : (a : Action) (m : Machine State) → Pending m.pc m.controller → Safe (act R a m)
  act-Safe (call_close r) m p = call-Safe r m.pc m.controller p
  act-Safe advance m p = unfold act in statement-Safe m.pc m.controller p
  act-Safe wait_close m p = wait-Safe m.pc m.controller _ p refl
  act-Safe run_takes m p = run-Safe m.pc m.controller _ p refl
  act-Safe (parent_done x) m p = parent-Safe x m.pc m.controller p

  Reach-Pending : {m : Machine State} → Reach m → Pending m.pc m.controller
  Reach-Pending (start sr) = unfold new_terminal_controller in (refl, refl, refl, refl)
  Reach-Pending (next {m} a r e) = subst Safe e (act-Safe a m (Reach-Pending r))

  -- Under every interleaving of Close calls, of `WaitClose`, of `Run` and of the parent context, no
  -- send, receive or close of a channel panics.
  pub Reach-ne-panicked : (m : Machine State) (a : Action) → Reach m → act R a m ≢ panicked
  Reach-ne-panicked m a r e = subst Safe e (act-Safe a m (Reach-Pending r))

  statement-left :
      (pc : Pc) (c : Controller State)
      → Pending pc c
      → 0 < left pc
      → (m : Machine State) × (statement R pc c ≡ done m) × (suc (left m.pc) ≡ left pc)
  unfolding statement
  statement-left idle c p h = elim h [ ]
  statement-left (cancels r) c p h = (_, refl, refl)
  statement-left (sends_closing r) c p h = (
    record { controller = record c { closing_ch = some r }; pc = closes_runner r },
    ground arith,
    refl,
  )
  statement-left (closes_runner r) c p h = (_, refl, refl)
  statement-left (sends_request r) c p h = (
    record { controller = record c { close_req_ch = some r }; pc = closes_closed r },
    ground arith,
    refl,
  )
  statement-left (closes_closed r) c p h =
      (record { controller = record c { closed_ch = true }; pc = returned r }, ground arith, refl)
  statement-left (returned r) c p h = elim h [ ]

  swap_lost :
      (reason : Option Error) (pc : Pc) (c : Controller State)
      → Pending pc c
      → 0 < left pc
      → compare_and_swap R reason (record { controller = c; pc = pc })
        ≡ record { controller = c; pc = pc }
  unfolding compare_and_swap
  swap_lost reason idle c p h = elim h [ ]
  swap_lost reason pc c p h = ground arith

  others_keep :
      (a : Action) (m m' : Machine State)
      → a ≢ advance
      → Pending m.pc m.controller
      → 0 < left m.pc
      → act R a m ≡ done m'
      → m'.pc ≡ m.pc
  unfolding act
  others_keep (call_close r) m m' n p h e = cc (swap_lost r m.pc m.controller p h)
  others_keep advance m m' n p h e = absurd (n refl)
  others_keep wait_close m m' n p h e = ground arith
  others_keep run_takes m m' n p h e = ground arith
  others_keep (parent_done x) m m' n p h e = ground arith

  -- Under every interleaving, with a runner or without one, the goroutine that won the CompareAndSwap
  -- is never held up at a channel of `Close`: while it has statements left, its next one is possible
  -- and leaves one less. The runner's own Close is taken to return.
  pub Reach-winner_advances :
      (m : Machine State)
      → Reach m
      → 0 < left m.pc
      → (m' : Machine State) × (act R advance m ≡ done m') × (suc (left m'.pc) ≡ left m.pc)
  Reach-winner_advances m r h = unfold act in statement-left m.pc m.controller (Reach-Pending r) h

  -- Under every interleaving, nothing that others do while a winner is in `Close` changes its place
  -- there: no other caller enters `Close`.
  pub Reach-others_keep :
      (a : Action) (m m' : Machine State)
      → Reach m
      → 0 < left m.pc
      → a ≢ advance
      → act R a m ≡ done m'
      → m'.pc ≡ m.pc
  Reach-others_keep a m m' r h n e = others_keep a m m' n (Reach-Pending r) h e

  -- `n` statements of the winner with nothing in between.
  pub statements : ℕ → Machine State → Outcome (Machine State)
  statements zero m = done m
  statements (suc n) m = act R advance m >>= λ m'. statements n m'

  -- `Close` in one piece is the CompareAndSwap and five statements with nothing in between, on a
  -- controller that is not shutting down, whatever its channels hold.
  pub close-statements :
      (reason : Option Error) (c : Controller State)
      → c.shutting_down ≡ false
      → statements 5 (compare_and_swap R reason (record { controller = c; pc = idle }))
        ≡ (close R reason c >>= λ r. done (record { controller = r.0; pc = returned reason }))
  unfolding statements act close
  close-statements reason c h = ground arith
