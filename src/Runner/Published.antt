-- ===== src/Runner/Published.antt =====
-- The event of the child's exit.
use sbsh.Base.{ℕ, suc, ◌≡◌, refl, sym, ap, ◌∙◌, Bool, true, ◌⊎◌, inl, inr, if-elim, arith}
use mathlib.Core.Path.{subst}
use mathlib.Core.Bool.{decide_iff}
use sbsh.Runner.{
  absent, alive, gone, StartPc, opening, forked, watched, ended, RelayPc, unborn, receiving,
  publishing, returned, WatchPc, unstarted, waiting, sending, finished, Exec, new_exec, Act,
  pty_fails, fork, setup_fails, start_watch, start_fails, start_succeeds, child_exits, wait_returns,
  wait_escapes, hand_over, publish, send_escapes, receive_escapes, parent_cancels, latch, snapshot,
  ask, see_exit, grace_ends, kill_wait_ends, cancel, child_is, watches, WatchPc-discrete, relays,
  RelayPc-discrete, try_send_event, fork_child, take_snapshot, ask_child, act, Reach, begin, step,
}
use sbsh.Runner.Invariant.{
  Next, when-Next, is-child, DoneOk, DoneOk-gone, DoneOk-forked, DoneOk-ctx, StartAt, StartAt-alive,
}
use sbsh.Runner.Swept.{is-starts}

-- `waitOnTerminal` has taken the close request.
abbrev IsHanded : RelayPc → Type 0
IsHanded unborn = ⊥
IsHanded receiving = ⊥
IsHanded publishing = Unit
IsHanded returned = Unit

-- By where `watchChildExit` stands: whether `childDoneCh` is closed, and that its request was taken
-- or the context is done.
abbrev Watched : WatchPc → RelayPc → Bool → Bool → Type 0
Watched unstarted r done ctx = Unit
Watched waiting r done ctx = Unit
Watched sending r done ctx = done ≡ true
Watched finished r done ctx = (done ≡ true) × (IsHanded r ⊎ (ctx ≡ true))

-- By where `waitOnTerminal` stands: the events sent and dropped.
abbrev Relayed : RelayPc → ℕ → ℕ → Bool → Bool → Type 0
Relayed unborn n k done ctx = (n ≡ 0) × (k ≡ 0)
Relayed receiving n k done ctx = (n ≡ 0) × (k ≡ 0)
Relayed publishing n k done ctx = (n ≡ 0) × (k ≡ 0) × (done ≡ true)
Relayed returned n k done ctx =
    ((((n ≡ 1) × (k ≡ 0)) ⊎ ((n ≡ 0) × (k ≡ 1))) × (done ≡ true))
    ⊎ ((n ≡ 0) × (k ≡ 0) × (ctx ≡ true))

-- The goroutines start after the fork, `waitOnTerminal` last.
abbrev Early : StartPc → WatchPc → RelayPc → Type 0
Early opening w r = (w ≡ unstarted) × (r ≡ unborn)
Early forked w r = (w ≡ unstarted) × (r ≡ unborn)
Early watched w r = r ≡ unborn
Early ended w r = Unit

abbrev Counted : Exec → Type 0
Counted s =
    Watched s.watch s.relay s.child_done s.ctx_done
    × Relayed s.relay s.events s.dropped s.child_done s.ctx_done
    × Early s.start s.watch s.relay
    × DoneOk s.child_done s.child s.init_mode s.ctx_done
    × StartAt s.start s.child

Watched-ctx :
    (w : WatchPc) (r : RelayPc) (done ctx : Bool) → Watched w r done ctx → Watched w r done true
Watched-ctx unstarted r done ctx h = tt
Watched-ctx waiting r done ctx h = tt
Watched-ctx sending r done ctx h = h
Watched-ctx finished r done ctx (h, inl k) = (h, inl k)
Watched-ctx finished r done ctx (h, inr k) = (h, inr refl)

Watched-relay :
    (w : WatchPc) (r r' : RelayPc) (done ctx : Bool)
    → (IsHanded r → IsHanded r')
    → Watched w r done ctx
    → Watched w r' done ctx
Watched-relay unstarted r r' done ctx f h = tt
Watched-relay waiting r r' done ctx f h = tt
Watched-relay sending r r' done ctx f h = h
Watched-relay finished r r' done ctx f (h, inl k) = (h, inl (f k))
Watched-relay finished r r' done ctx f (h, inr k) = (h, inr k)

Relayed-done :
    (r : RelayPc) (n k : ℕ) (done ctx : Bool) → Relayed r n k done ctx → Relayed r n k true ctx
Relayed-done unborn n k done ctx h = h
Relayed-done receiving n k done ctx h = h
Relayed-done publishing n k done ctx (h, g, d) = (h, g, refl)
Relayed-done returned n k done ctx (inl (h, d)) = inl (h, refl)
Relayed-done returned n k done ctx (inr h) = inr h

Relayed-ctx :
    (r : RelayPc) (n k : ℕ) (done ctx : Bool) → Relayed r n k done ctx → Relayed r n k done true
Relayed-ctx unborn n k done ctx h = h
Relayed-ctx receiving n k done ctx h = h
Relayed-ctx publishing n k done ctx h = h
Relayed-ctx returned n k done ctx (inl h) = inl h
Relayed-ctx returned n k done ctx (inr (h, g, c)) = inr (h, g, refl)

-- A step of `watchChildExit`, and one of `waitOnTerminal`, is later.
Early-watch :
    (pc : StartPc) (w w' : WatchPc) (r : RelayPc)
    → (w ≡ unstarted → ⊥)
    → Early pc w r
    → Early pc w' r
Early-watch opening w w' r n h = absurd (n h.0)
Early-watch forked w w' r n h = absurd (n h.0)
Early-watch watched w w' r n h = h
Early-watch ended w w' r n h = tt

Early-relay :
    (pc : StartPc) (w w' : WatchPc) (r r' : RelayPc)
    → (r ≡ unborn → ⊥)
    → Early pc w r
    → Early pc w' r'
Early-relay opening w w' r r' n h = absurd (n h.1)
Early-relay forked w w' r r' n h = absurd (n h.1)
Early-relay watched w w' r r' n h = absurd (n h)
Early-relay ended w w' r r' n h = tt

is-watches : (pc : WatchPc) (s : Exec) → watches pc s ≡ true → s.watch ≡ pc
is-watches pc s h = (decide_iff (WatchPc-discrete s.watch pc)).0 h

is-relays : (pc : RelayPc) (s : Exec) → relays pc s ≡ true → s.relay ≡ pc
is-relays pc s h = (decide_iff (RelayPc-discrete s.relay pc)).0 h

-- A step of `watchChildExit` from `pc`, and of `waitOnTerminal` from `pc`.
watch_moved :
    (pc : WatchPc) (s : Exec) (w' : WatchPc)
    → s.watch ≡ pc
    → (pc ≡ unstarted → ⊥)
    → Early s.start s.watch s.relay
    → Early s.start w' s.relay
watch_moved pc s w' e n u = Early-watch s.start s.watch w' s.relay (λ x. n (sym e ∙ x)) u

relay_moved :
    (pc : RelayPc) (s : Exec) (w' : WatchPc) (r' : RelayPc)
    → s.relay ≡ pc
    → (pc ≡ unborn → ⊥)
    → Early s.start s.watch s.relay
    → Early s.start w' r'
relay_moved pc s w' r' e n u = Early-relay s.start s.watch w' s.relay r' (λ x. n (sym e ∙ x)) u

-- What is known of `waitOnTerminal` at `pc`.
at_relay :
    (pc : RelayPc) (s : Exec)
    → s.relay ≡ pc
    → Counted s
    → Relayed pc s.events s.dropped s.child_done s.ctx_done
at_relay pc s e (w, r, u, d, o) =
    subst (λ x. Relayed x s.events s.dropped s.child_done s.ctx_done) e r

fork_child-Counted :
    (ok : Bool) (s : Exec) → s.start ≡ opening → Counted s → Counted (fork_child ok s)
fork_child-Counted ok s e (w, r, u, d, o) =
    if-elim Counted s.closing (λ _. (w, r, tt, d, tt))
      (λ h.
        if-elim Counted ok
          (λ _. (
            w,
            r,
            subst (λ pc. Early pc s.watch s.relay) e u,
            DoneOk-forked s.child_done s.child s.init_mode s.ctx_done
                (subst (λ pc. StartAt pc s.child) e o) d,
            tt,
          ))
          (λ _. (w, r, tt, d, tt)))

take_snapshot-Counted : (s : Exec) → Counted s → Counted (take_snapshot s)
take_snapshot-Counted s i = if-elim Counted (child_is absent s) (λ _. i) (λ _. i)

ask_child-Counted : (ok : Bool) (s : Exec) → Counted s → Counted (ask_child ok s)
ask_child-Counted ok s i = if-elim Counted s.child_done (λ _. i) (λ _. i)

try_send_event-Counted :
    (room : Bool) (s : Exec) → s.relay ≡ publishing → Counted s → Counted (try_send_event room s)
try_send_event-Counted room s e (w, r, u, d, o) =
    let (n, k, x) = at_relay publishing s e (w, r, u, d, o) in
    let w' = Watched-relay s.watch s.relay returned s.child_done s.ctx_done (λ _. tt) w in
    let u' = relay_moved publishing s s.watch returned e (λ p. ground (arith, p)) u in
    if-elim Counted room (λ _. (w', inl (inl (ap suc n, k), x), u', d, o))
      (λ _. (w', inl (inr (n, ap suc k), x), u', d, o))

-- A context that is done.
done-Counted : (s : Exec) → Counted s → Counted (record s { ctx_done = true })
done-Counted s (w, r, u, d, o) = (
  Watched-ctx s.watch s.relay s.child_done s.ctx_done w,
  Relayed-ctx s.relay s.events s.dropped s.child_done s.ctx_done r,
  u,
  DoneOk-ctx s.child_done s.child s.init_mode s.ctx_done d,
  o,
)

-- `watchChildExit` is past its wait.
waited-Counted :
    (s : Exec)
    → s.watch ≡ waiting
    → (s.child ≡ gone) ⊎ ((s.init_mode ≡ true) × (s.ctx_done ≡ true))
    → Counted s
    → Counted (record s { watch = sending; child_done = true })
waited-Counted s e x (w, r, u, d, o) = (
  refl,
  Relayed-done s.relay s.events s.dropped s.child_done s.ctx_done r,
  watch_moved waiting s sending e (λ p. ground (arith, p)) u,
  inr x,
  o,
)

-- `waitOnTerminal` starts.
relay_starts-Counted :
    (s : Exec)
    → s.start ≡ watched
    → Counted s
    → Counted (record s { start = ended; relay = receiving })
relay_starts-Counted s e (w, r, u, d, o) =
    let fresh : s.relay ≡ unborn = subst (λ pc. Early pc s.watch s.relay) e u in
    (
      Watched-relay s.watch s.relay receiving s.child_done s.ctx_done (λ x. subst IsHanded fresh x)
          w,
      at_relay unborn s fresh (w, r, u, d, o),
      tt,
      d,
      tt,
    )

hand_over-Counted :
    (s : Exec)
    → s.watch ≡ sending
    → s.relay ≡ receiving
    → Counted s
    → Counted (record s { watch = finished; relay = publishing })
hand_over-Counted s e f (w, r, u, d, o) =
    let x = subst (λ pc. Watched pc s.relay s.child_done s.ctx_done) e w in
    let (n, k) = at_relay receiving s f (w, r, u, d, o) in
    (
      (x, inl tt),
      (n, k, x),
      relay_moved receiving s finished publishing f (λ p. ground (arith, p)) u,
      d,
      o,
    )

act-Counted : (a : Act) (s : Exec) → Counted s → Next Counted (act a s)
unfolding act
act-Counted pty_fails s (w, r, u, d, o) = when-Next Counted _ _ λ h. (w, r, tt, d, tt)
act-Counted (fork ok) s i =
    when-Next Counted _ _ λ h. fork_child-Counted ok s (is-starts opening s h) i
act-Counted setup_fails s (w, r, u, d, o) = when-Next Counted _ _ λ h. (w, r, tt, d, tt)
act-Counted start_watch s (w, r, u, d, o) = when-Next Counted _ _ λ h.
    let fresh = subst (λ pc. Early pc s.watch s.relay) (is-starts forked s h) u in
    (tt, r, fresh.1, d, tt)
act-Counted start_fails s (w, r, u, d, o) = when-Next Counted _ _ λ h. (w, r, tt, d, tt)
act-Counted start_succeeds s i =
    when-Next Counted _ _ λ h. relay_starts-Counted s (is-starts watched s h) i
act-Counted child_exits s (w, r, u, d, o) = when-Next Counted _ _ λ h. (
  w,
  r,
  u,
  DoneOk-gone s.child_done s.child s.init_mode s.ctx_done d,
  StartAt-alive s.start s.child gone (is-child alive s h) o,
)
act-Counted wait_returns s i = when-Next Counted _ _ λ h.
    waited-Counted s (is-watches waiting s (ground (arith, h)))
      (inl (is-child gone s (ground (arith, h)))) i
act-Counted wait_escapes s i = when-Next Counted _ _ λ h.
    waited-Counted s (is-watches waiting s (ground (arith, h)))
      (inr (ground (arith, h), ground (arith, h))) i
act-Counted hand_over s i = when-Next Counted _ _ λ h.
    hand_over-Counted s (is-watches sending s (ground (arith, h)))
      (is-relays receiving s (ground (arith, h))) i
act-Counted (publish room) s i =
    when-Next Counted _ _ λ h. try_send_event-Counted room s (is-relays publishing s h) i
act-Counted send_escapes s (w, r, u, d, o) = when-Next Counted _ _ λ h.
    let e = is-watches sending s (ground (arith, h)) in
    (
      (subst (λ pc. Watched pc s.relay s.child_done s.ctx_done) e w, inr (ground (arith, h))),
      r,
      watch_moved sending s finished e (λ p. ground (arith, p)) u,
      d,
      o,
    )
act-Counted receive_escapes s (w, r, u, d, o) = when-Next Counted _ _ λ h.
    let e = is-relays receiving s (ground (arith, h)) in
    let (n, k) = at_relay receiving s e (w, r, u, d, o) in
    (
      Watched-relay s.watch s.relay returned s.child_done s.ctx_done (λ _. tt) w,
      inr (n, k, ground (arith, h)),
      relay_moved receiving s s.watch returned e (λ p. ground (arith, p)) u,
      d,
      o,
    )
act-Counted parent_cancels s i = when-Next Counted _ _ λ h. done-Counted s i
act-Counted latch s i = when-Next Counted _ _ λ h. i
act-Counted snapshot s i = when-Next Counted _ _ λ h. take_snapshot-Counted s i
act-Counted (ask ok) s i = when-Next Counted _ _ λ h. ask_child-Counted ok s i
act-Counted see_exit s i = when-Next Counted _ _ λ h. i
act-Counted (grace_ends ok) s i = when-Next Counted _ _ λ h. i
act-Counted kill_wait_ends s i = when-Next Counted _ _ λ h. i
act-Counted cancel s i = when-Next Counted _ _ λ h. done-Counted s i

Reach-Counted : (s0 s : Exec) → Counted s0 → Reach s0 s → Counted s
Reach-Counted s0 s i begin = i
Reach-Counted s0 s' i (step {s = s} r a e) =
    subst (Next Counted) e (act-Counted a s (Reach-Counted s0 s i r))

-- One event, sent or dropped, for a child that has exited, or for an init whose context is done.
abbrev pub IsPublished : Exec → Type 0
IsPublished s =
    (((s.events ≡ 1) × (s.dropped ≡ 0)) ⊎ ((s.events ≡ 0) × (s.dropped ≡ 1)))
    × ((s.child ≡ gone) ⊎ ((s.init_mode ≡ true) × (s.ctx_done ≡ true)))

-- None, while `waitOnTerminal` is about to send it, or else because the context is done.
abbrev pub IsUnpublished : Exec → Type 0
IsUnpublished s = (s.events ≡ 0) × (s.dropped ≡ 0) × ((s.relay ≡ publishing) ⊎ (s.ctx_done ≡ true))

exited_of :
    (s : Exec)
    → DoneOk s.child_done s.child s.init_mode s.ctx_done
    → s.child_done ≡ true
    → (s.child ≡ gone) ⊎ ((s.init_mode ≡ true) × (s.ctx_done ≡ true))
exited_of s (inl d) k = absurd (ground (arith, d, k))
exited_of s (inr d) k = d

published :
    (s : Exec) (pc : RelayPc)
    → s.relay ≡ pc
    → DoneOk s.child_done s.child s.init_mode s.ctx_done
    → IsHanded pc ⊎ (s.ctx_done ≡ true)
    → Relayed pc s.events s.dropped s.child_done s.ctx_done
    → IsPublished s ⊎ IsUnpublished s
published s unborn e d (inl x) (n, k) = absurd x
published s unborn e d (inr c) (n, k) = inr (n, k, inr c)
published s receiving e d (inl x) (n, k) = absurd x
published s receiving e d (inr c) (n, k) = inr (n, k, inr c)
published s publishing e d x (n, k, f) = inr (n, k, inl e)
published s returned e d x (inl (n, f)) = inl (n, exited_of s d f)
published s returned e d x (inr (n, k, c)) = inr (n, k, inr c)

-- When `watchChildExit` has returned, either `trySendEvent` was called exactly once with EvCmdExited,
-- which it sent or, on a full channel, dropped, and the child has exited or the runner is an init
-- whose context is done; or it was not called, and `waitOnTerminal` is about to call it or the context
-- is done. While the context is not done no exit is passed over, and none is ever reported twice.
pub Reach-IsPublished :
    (init_mode parent_ends : Bool) (s : Exec)
    → Reach (new_exec init_mode parent_ends) s
    → s.watch ≡ finished
    → IsPublished s ⊎ IsUnpublished s
Reach-IsPublished init_mode parent_ends s r e =
    let (w, n, u, d, o) =
      Reach-Counted (new_exec init_mode parent_ends) s
        (tt, (refl, refl), (refl, refl), inl refl, refl) r in
    published s s.relay refl d (subst (λ pc. Watched pc s.relay s.child_done s.ctx_done) e w).1 n
