-- ===== src/Runner/Subscribe/Steps.antt =====
-- Every step keeps the invariant.
use sbsh.Base.{◌≡◌, refl, sym, Bool, true, false, ◌&&◌, ◌||◌, inl, inr, if-elim, arith}
use mathlib.Core.Path.{subst}
use sbsh.Runner.Subscribe.{
  CallPc, entered, admitted, listed, fanned, running, accepted, rejected, DrainPc, unborn, draining,
  removed, unlisted, ended, ClosePc, calm, cancelling, copied, finished, Race, Act, not_running,
  early_check, add_subscriber, add_to_fan_out, go_run, late_check, overflow, peer_gone, see_closed,
  remove_subscriber, close_conn, parent_cancels, ctx_cancel, copy_registry, close_copied, calls,
  drains, closes, refuse, check_early, check_late, leave_fan_out, act, Reach, begin, step,
}
use sbsh.Runner.Subscribe.Invariant.{
  Next, when-Next, CtxAt, ListedAt, CallAt, DrainAt, ShutAt, Inv, is-calls, is-drains, is-closes,
  at_call, DrainAt-closed, closed-Inv, CtxAt-done,
}

unborn_drain : (d : DrainPc) (fan conn closed : Bool) → d ≡ unborn → DrainAt d fan conn closed
unborn_drain d fan conn closed u = subst (λ k. DrainAt k fan conn closed) (sym u) tt

refuse-Inv : (s : Race) → s.call ≡ entered → Inv s → Inv (refuse s)
refuse-Inv s e (x, c, d, h) =
    let t = at_call s entered e (x, c, d, h) in
    (x, inl (t, refl), unborn_drain s.drain s.in_fan_out true s.closed t.0, tt)

check_early-Inv : (s : Race) → s.call ≡ entered → Inv s → Inv (check_early s)
check_early-Inv s e (x, c, d, h) =
    if-elim Inv s.ctx_done (λ _. refuse-Inv s e (x, c, d, h))
      (λ _. (x, at_call s entered e (x, c, d, h), d, tt))

-- Before Close has cancelled the context, it has closed nothing.
ShutAt-early :
    (p : ClosePc) (ctx closed copy : Bool)
    → ctx ≡ false
    → CtxAt p ctx
    → ShutAt accepted p closed copy
ShutAt-early calm ctx closed copy e x = tt
ShutAt-early cancelling ctx closed copy e x = tt
ShutAt-early copied ctx closed copy e x = absurd (ground (arith, e, x))
ShutAt-early finished ctx closed copy e x = absurd (ground (arith, e, x))

check_late-Inv : (s : Race) → s.call ≡ running → Inv s → Inv (check_late s)
check_late-Inv s e (x, c, d, h) =
    let t = at_call s running e (x, c, d, h) in
    if-elim Inv s.ctx_done
      (λ _. (x, inr (refl, t), DrainAt-closed s.drain s.in_fan_out s.conn_closed s.closed d, tt))
      (λ k. (x, t, d, ShutAt-early s.close s.ctx_done s.closed s.in_copy k x))

-- The drain goes on: the call has started it.
CallAt-moves :
    (pc : CallPc) (d d' : DrainPc) (r r' fan fan' conn conn' closed : Bool)
    → (d ≡ unborn → ⊥)
    → (ListedAt d r → ListedAt d' r')
    → CallAt pc d r fan conn closed
    → CallAt pc d' r' fan' conn' closed
CallAt-moves entered d d' r r' fan fan' conn conn' closed n f c = absurd (n c.0)
CallAt-moves admitted d d' r r' fan fan' conn conn' closed n f c = absurd (n c.0)
CallAt-moves listed d d' r r' fan fan' conn conn' closed n f c = absurd (n c.0)
CallAt-moves fanned d d' r r' fan fan' conn conn' closed n f c = absurd (n c.0)
CallAt-moves running d d' r r' fan fan' conn conn' closed n f c = f c
CallAt-moves accepted d d' r r' fan fan' conn conn' closed n f c = f c
CallAt-moves rejected d d' r r' fan fan' conn conn' closed n f (inl c) = absurd (n c.0.0)
CallAt-moves rejected d d' r r' fan fan' conn conn' closed n f (inr (e, c)) = inr (e, f c)

leave_fan_out-Inv :
    (s : Race) → s.drain ≡ draining → s.closed ≡ true → Inv s → Inv (leave_fan_out s)
leave_fan_out-Inv s e k (x, c, d, h) = (
  x,
  CallAt-moves s.call s.drain removed s.registered s.registered s.in_fan_out false s.conn_closed
      s.conn_closed s.closed (λ u. ground (arith, u, e))
      (λ l. subst (λ k. ListedAt k s.registered) e l) c,
  (refl, k),
  h,
)

remove_subscriber-Inv :
    (s : Race) → s.drain ≡ removed → Inv s → Inv (record s { drain = unlisted; registered = false })
remove_subscriber-Inv s e (x, c, d, h) = (
  x,
  CallAt-moves s.call s.drain unlisted s.registered false s.in_fan_out s.in_fan_out s.conn_closed
      s.conn_closed s.closed (λ u. ground (arith, u, e)) (λ l. refl) c,
  subst (λ k. DrainAt k s.in_fan_out s.conn_closed s.closed) e d,
  h,
)

close_conn-Inv :
    (s : Race) → s.drain ≡ unlisted → Inv s → Inv (record s { drain = ended; conn_closed = true })
close_conn-Inv s e (x, c, d, h) =
    let (f, k) = subst (λ k. DrainAt k s.in_fan_out s.conn_closed s.closed) e d in
    (
      x,
      CallAt-moves s.call s.drain ended s.registered s.registered s.in_fan_out s.in_fan_out
          s.conn_closed true s.closed (λ u. ground (arith, u, e))
          (λ l. subst (λ k. ListedAt k s.registered) e l) c,
      (f, k, refl),
      h,
    )

ShutAt-cancelling : (c : CallPc) (closed copy : Bool) → ShutAt c cancelling closed copy
ShutAt-cancelling accepted closed copy = tt
ShutAt-cancelling c closed copy = tt

ShutAt-copied :
    (c : CallPc) (d : DrainPc) (r fan conn closed : Bool)
    → CallAt c d r fan conn closed
    → DrainAt d fan conn closed
    → ShutAt c copied closed r
ShutAt-copied accepted unborn r fan conn closed l t = absurd l
ShutAt-copied accepted draining r fan conn closed l t = inl l
ShutAt-copied accepted removed r fan conn closed l t = inl l
ShutAt-copied accepted unlisted r fan conn closed l t = inr t.1
ShutAt-copied accepted ended r fan conn closed l t = inr t.1
ShutAt-copied c d r fan conn closed l t = tt

ShutAt-finished :
    (c : CallPc) (closed copy : Bool)
    → ShutAt c copied closed copy
    → ShutAt c finished (closed || copy) copy
ShutAt-finished accepted closed copy h = ground (arith, h)
ShutAt-finished c closed copy h = tt

or-elim : (P : Bool → Type 0) (a b : Bool) → P a → P true → P (a || b)
or-elim P true b h k = h
or-elim P false true h k = k
or-elim P false false h k = h

close_copied-Inv :
    (s : Race)
    → s.close ≡ copied
    → Inv s
    → Inv (record s { close = finished; closed = s.closed || s.in_copy })
close_copied-Inv s e (x, c, d, h) =
    let (x2, c2, d2, h2) =
      or-elim (λ k. Inv (record s { closed = k })) s.closed s.in_copy (x, c, d, h)
        (closed-Inv s (x, c, d, h)) in
    (
      subst (λ p. CtxAt p s.ctx_done) e x,
      c2,
      d2,
      ShutAt-finished s.call s.closed s.in_copy
          (subst (λ p. ShutAt s.call p s.closed s.in_copy) e h),
    )

act-Inv : (a : Act) (s : Race) → Inv s → Next Inv (act a s)
unfolding act
act-Inv not_running s i =
    when-Next Inv (calls entered s) (refuse s) (λ h. refuse-Inv s (is-calls entered s h) i)
act-Inv early_check s i =
    when-Next Inv (calls entered s) (check_early s)
      (λ h. check_early-Inv s (is-calls entered s h) i)
act-Inv add_subscriber s (x, c, d, h) =
    when-Next Inv (calls admitted s) (record s { call = listed; registered = true })
      (λ k.
        let (u, r, f) = at_call s admitted (is-calls admitted s k) (x, c, d, h) in
        (x, (u, refl, f), d, tt))
act-Inv add_to_fan_out s (x, c, d, h) =
    when-Next Inv (calls listed s) (record s { call = fanned; in_fan_out = true })
      (λ k.
        let (u, r, f) = at_call s listed (is-calls listed s k) (x, c, d, h) in
        (x, (u, r), unborn_drain s.drain true s.conn_closed s.closed u, tt))
act-Inv go_run s (x, c, d, h) =
    when-Next Inv (calls fanned s) (record s { call = running; drain = draining })
      (λ k. (x, (at_call s fanned (is-calls fanned s k) (x, c, d, h)).1, tt, tt))
act-Inv late_check s i =
    when-Next Inv (calls running s) (check_late s) (λ h. check_late-Inv s (is-calls running s h) i)
act-Inv overflow s i = when-Next Inv s.in_fan_out (record s { closed = true }) (λ h. closed-Inv s i)
act-Inv peer_gone s i =
    when-Next Inv (drains draining s) (record s { closed = true }) (λ h. closed-Inv s i)
act-Inv see_closed s i =
    when-Next Inv (drains draining s && s.closed) (leave_fan_out s)
      (λ h. leave_fan_out-Inv s (is-drains draining s (ground (arith, h))) (ground (arith, h)) i)
act-Inv remove_subscriber s i =
    when-Next Inv (drains removed s) (record s { drain = unlisted; registered = false })
      (λ h. remove_subscriber-Inv s (is-drains removed s h) i)
act-Inv close_conn s i =
    when-Next Inv (drains unlisted s) (record s { drain = ended; conn_closed = true })
      (λ h. close_conn-Inv s (is-drains unlisted s h) i)
act-Inv parent_cancels s (x, c, d, h) = (CtxAt-done s.close, c, d, h)
act-Inv ctx_cancel s (x, c, d, h) =
    when-Next Inv (closes calm s) (record s { close = cancelling; ctx_done = true })
      (λ k. (refl, c, d, ShutAt-cancelling s.call s.closed s.in_copy))
act-Inv copy_registry s (x, c, d, h) =
    when-Next Inv (closes cancelling s) (record s { close = copied; in_copy = s.registered })
      (λ k. (
        subst (λ p. CtxAt p s.ctx_done) (is-closes cancelling s k) x,
        c,
        d,
        ShutAt-copied s.call s.drain s.registered s.in_fan_out s.conn_closed s.closed c d,
      ))
act-Inv close_copied s i =
    when-Next Inv (closes copied s) (record s { close = finished; closed = s.closed || s.in_copy })
      (λ k. close_copied-Inv s (is-closes copied s k) i)

pub Reach-Inv : (s : Race) → Reach s → Inv s
Reach-Inv s begin = (tt, (refl, refl, refl), tt, tt)
Reach-Inv s (step {s = r} h a e) = subst (Next Inv) e (act-Inv a r (Reach-Inv r h))
