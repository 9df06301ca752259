-- ===== src/Runner/Swept.antt =====
-- No child is left behind by `Close`.
use sbsh.Base.{
  ◌≡◌, refl, sym, ap, ◌∙◌, [], ◌∷◌, ◌++◌, Bool, true, false, ◌&&◌, ◌||◌, ◌⊎◌, inl, inr, if-elim,
  Bool-cases, arith,
}
use mathlib.Core.Path.{subst}
use mathlib.Core.Bool.{decide_iff}
use sbsh.Runner.{
  absent, alive, gone, StartPc, opening, ClosePc, idle, latched, checking, asked, killed, past,
  cancelled, Exec, new_exec, Act, pty_fails, fork, setup_fails, start_watch, start_fails,
  start_succeeds, child_exits, wait_returns, wait_escapes, hand_over, publish, send_escapes,
  receive_escapes, parent_cancels, latch, snapshot, ask, see_exit, grace_ends, kill_wait_ends,
  cancel, starts, StartPc-discrete, closes, child_is, take_snapshot, ask_child, act, Reach, begin,
  step,
}
use sbsh.Signals.{sigterm, sigkill}
use sbsh.Runner.Invariant.{
  Next, when-Next, Latched, IsSwept, SweptAt, CtxOk, Inv, is-closes, is-child, SweptAt-gone,
  StartAt-alive, DoneOk-gone, DoneOk-ctx, CtxOk-pc, fork_child-Inv,
}

-- The channel says that the child has exited, while `Close` waits for it.
exit_seen :
    (s : Exec) (pc : ClosePc)
    → s.close ≡ pc
    → (pc ≡ cancelled → ⊥)
    → s.child_done ≡ true
    → Inv s
    → s.child ≡ gone
exit_seen s pc e n h (l, w, inl d, c, q, o) = absurd (ground (arith, h, d))
exit_seen s pc e n h (l, w, inr (inl d), c, q, o) = d
exit_seen s pc e n h (l, w, inr (inr (i, x)), inl c, q, o) = absurd (ground (arith, x, c))
exit_seen s pc e n h (l, w, inr (inr (i, x)), inr (inl c), q, o) = absurd (ground (arith, i, c, q))
exit_seen s pc e n h (l, w, inr (inr (i, x)), inr (inr c), q, o) = absurd (n (sym e ∙ c))

take_snapshot-Inv : (s : Exec) → s.close ≡ latched → Inv s → Inv (take_snapshot s)
take_snapshot-Inv s e (l, w, d, c, q, o) =
    let closing = subst (λ pc. Latched pc s.closing) e l in
    let ctx : (pc : ClosePc) → CtxOk s.ctx_done s.parent_ends pc =
      λ pc. CtxOk-pc s.ctx_done s.parent_ends s.close pc c λ x. ground (arith, e, x) in
    if-elim Inv (child_is absent s) (λ h. (closing, inl (is-child absent s h), d, ctx past, q, o))
      (λ _. (closing, subst (λ pc. SweptAt pc s.child s.signals) e w, d, ctx checking, q, o))

ask_child-Inv : (ok : Bool) (s : Exec) → s.close ≡ checking → Inv s → Inv (ask_child ok s)
ask_child-Inv ok s e (l, w, d, c, q, o) =
    let closing = subst (λ pc. Latched pc s.closing) e l in
    let ctx : (pc : ClosePc) → CtxOk s.ctx_done s.parent_ends pc =
      λ pc. CtxOk-pc s.ctx_done s.parent_ends s.close pc c λ x. ground (arith, e, x) in
    if-elim Inv s.child_done
      (λ h. (
        closing,
        inr (inl (exit_seen s checking e (λ x. ground (arith, x)) h (l, w, d, c, q, o))),
        d,
        ctx past,
        q,
        o,
      ))
      (λ _. (
        closing,
        (ok, ap (λ ss. ss ++ (sigterm, ok) ∷ []) (subst (λ pc. SweptAt pc s.child s.signals) e w)),
        d,
        ctx asked,
        q,
        o,
      ))

pub is-starts : (pc : StartPc) (s : Exec) → starts pc s ≡ true → s.start ≡ pc
is-starts pc s h = (decide_iff (StartPc-discrete s.start pc)).0 h

CtxOk-from :
    (s : Exec) (pc pc' : ClosePc)
    → closes pc s ≡ true
    → (pc ≡ cancelled → ⊥)
    → CtxOk s.ctx_done s.parent_ends s.close
    → CtxOk s.ctx_done s.parent_ends pc'
CtxOk-from s pc pc' h n c =
    CtxOk-pc s.ctx_done s.parent_ends s.close pc' c λ x. n (sym (is-closes pc s h) ∙ x)

see_exit_from :
    (pc : ClosePc) (s : Exec)
    → closes pc s ≡ true
    → (pc ≡ cancelled → ⊥)
    → s.closing ≡ true
    → s.child_done ≡ true
    → Inv s
    → Inv (record s { close = past })
see_exit_from pc s h n k f (l, w, d, c, q, o) =
    let e = is-closes pc s h in
    (k, inr (inl (exit_seen s pc e n f (l, w, d, c, q, o))), d, CtxOk-from s pc past h n c, q, o)

see_exit-Inv :
    (s : Exec)
    → ((closes asked s || closes killed s) && s.child_done) ≡ true
    → Inv s
    → Inv (record s { close = past })
see_exit-Inv s h i = elim (Bool-cases (closes asked s)) [
  | inl a ↦
      see_exit_from asked s a (λ x. ground (arith, x))
        (subst (λ pc. Latched pc s.closing) (is-closes asked s a) i.0) (ground (arith, h)) i
  | inr a ↦
      let k : closes killed s ≡ true = ground (arith, h, a) in
      see_exit_from killed s k (λ x. ground (arith, x))
        (subst (λ pc. Latched pc s.closing) (is-closes killed s k) i.0) (ground (arith, h)) i
]

act-Inv : (a : Act) (s : Exec) → Inv s → Next Inv (act a s)
unfolding act
act-Inv pty_fails s (l, w, d, c, q, o) = when-Next Inv _ _ λ h. (l, w, d, c, q, tt)
act-Inv (fork ok) s i = when-Next Inv _ _ λ h. fork_child-Inv ok s (is-starts opening s h) i
act-Inv setup_fails s (l, w, d, c, q, o) = when-Next Inv _ _ λ h. (l, w, d, c, q, tt)
act-Inv start_watch s (l, w, d, c, q, o) = when-Next Inv _ _ λ h. (l, w, d, c, q, tt)
act-Inv start_fails s (l, w, d, c, q, o) = when-Next Inv _ _ λ h. (l, w, d, c, q, tt)
act-Inv start_succeeds s (l, w, d, c, q, o) = when-Next Inv _ _ λ h. (l, w, d, c, q, tt)
act-Inv child_exits s (l, w, d, c, q, o) = when-Next Inv _ _ λ h. (
  l,
  SweptAt-gone s.close s.child s.signals w,
  DoneOk-gone s.child_done s.child s.init_mode s.ctx_done d,
  c,
  q,
  StartAt-alive s.start s.child gone (is-child alive s h) o,
)
act-Inv wait_returns s (l, w, d, c, q, o) =
    when-Next Inv _ _ λ h. (l, w, inr (inl (is-child gone s (ground (arith, h)))), c, q, o)
act-Inv wait_escapes s (l, w, d, c, q, o) =
    when-Next Inv _ _ λ h. (l, w, inr (inr (ground (arith, h), ground (arith, h))), c, q, o)
act-Inv hand_over s i = when-Next Inv _ _ λ h. i
act-Inv (publish room) s i = when-Next Inv _ _ λ h. if-elim Inv room (λ _. i) (λ _. i)
act-Inv send_escapes s i = when-Next Inv _ _ λ h. i
act-Inv receive_escapes s i = when-Next Inv _ _ λ h. i
act-Inv parent_cancels s (l, w, d, c, q, o) =
    when-Next Inv _ _
      λ h. (l, w, DoneOk-ctx s.child_done s.child s.init_mode s.ctx_done d, inr (inl h), q, o)
act-Inv latch s (l, w, d, c, q, o) = when-Next Inv _ _ λ h. (
  refl,
  subst (λ pc. SweptAt pc s.child s.signals) (is-closes idle s h) w,
  d,
  CtxOk-from s idle latched h (λ x. ground (arith, x)) c,
  q,
  o,
)
act-Inv snapshot s i = when-Next Inv _ _ λ h. take_snapshot-Inv s (is-closes latched s h) i
act-Inv (ask ok) s i = when-Next Inv _ _ λ h. ask_child-Inv ok s (is-closes checking s h) i
act-Inv see_exit s i = when-Next Inv _ _ λ h. see_exit-Inv s h i
act-Inv (grace_ends ok) s (l, w, d, c, q, o) = when-Next Inv _ _ λ h.
    let e = is-closes asked s h in
    let w0 = subst (λ pc. SweptAt pc s.child s.signals) e w in
    (
      subst (λ pc. Latched pc s.closing) e l,
      (w0.0, (ok, ap (λ ss. ss ++ (sigkill, ok) ∷ []) w0.1)),
      d,
      CtxOk-from s asked killed h (λ x. ground (arith, x)) c,
      q,
      o,
    )
act-Inv kill_wait_ends s (l, w, d, c, q, o) = when-Next Inv _ _ λ h.
    let e = is-closes killed s h in
    (
      subst (λ pc. Latched pc s.closing) e l,
      inr (inr (subst (λ pc. SweptAt pc s.child s.signals) e w)),
      d,
      CtxOk-from s killed past h (λ x. ground (arith, x)) c,
      q,
      o,
    )
act-Inv cancel s (l, w, d, c, q, o) = when-Next Inv _ _ λ h.
    let e = is-closes past s h in
    (
      subst (λ pc. Latched pc s.closing) e l,
      subst (λ pc. SweptAt pc s.child s.signals) e w,
      DoneOk-ctx s.child_done s.child s.init_mode s.ctx_done d,
      inr (inr refl),
      q,
      o,
    )

Reach-Inv : (s0 s : Exec) → Inv s0 → Reach s0 s → Inv s
Reach-Inv s0 s i begin = i
Reach-Inv s0 s' i (step {s = s} r a e) = subst (Next Inv) e (act-Inv a s (Reach-Inv s0 s i r))

-- Outside PID-1 init mode, when `Close` is past `shutdownChild`, no child of the terminal is left
-- behind, however the startup, the child, the goroutines that watch it and `Close` interleave: either
-- none was forked, or it has exited, or `kill` was called for its process group with SIGTERM and then
-- with SIGKILL, and with nothing else, whatever the kernel answered.
pub Reach-IsSwept :
    (parent_ends : Bool) (s : Exec)
    → Reach (new_exec false parent_ends) s
    → (s.close ≡ past) ⊎ (s.close ≡ cancelled)
    → IsSwept s.child s.signals
Reach-IsSwept parent_ends s r p =
    let (l, w, d, c, q', o) =
      Reach-Inv (new_exec false parent_ends) s (tt, refl, inl refl, inl refl, refl, refl) r in
    elim p [
      | inl e ↦ subst (λ pc. SweptAt pc s.child s.signals) e w
      | inr e ↦ subst (λ pc. SweptAt pc s.child s.signals) e w
    ]
