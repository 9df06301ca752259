-- ===== src/Runner/Subscribe/Released.antt =====
-- No subscriber is left behind by `Close`.
use sbsh.Base.{ℕ, ◌<◌, ◌≡◌, refl, sym, ap, Bool, true, false, ◌&&◌, ◌⊎◌, inl, inr, some, arith}
use mathlib.Core.Path.{subst}
use mathlib.Core.Bool.{decide_iff}
use sbsh.Runner.Subscribe.{
  CallPc, entered, admitted, listed, fanned, running, accepted, rejected, DrainPc, unborn, draining,
  removed, unlisted, ended, finished, DrainPc-discrete, Race, Act, see_closed, remove_subscriber,
  close_conn, drains, when, leave_fan_out, act, Reach,
}
use sbsh.Runner.Subscribe.Invariant.{ListedAt, CallAt, DrainAt, ShutAt}
use sbsh.Runner.Subscribe.Steps.{Reach-Inv}

-- How far the drain is from its end.
abbrev pub rank : DrainPc → ℕ
rank unborn = 4
rank draining = 3
rank removed = 2
rank unlisted = 1
rank ended = 0

-- Nothing of the subscriber is left: it is in neither the registry nor the fan-out, and its
-- connection is closed.
abbrev pub Released : Race → Type 0
Released s = (s.registered ≡ false) × (s.in_fan_out ≡ false) × (s.conn_closed ≡ true)

-- The drain can take a step that brings it nearer to its end.
abbrev pub Advances : Race → Type 0
Advances s = (a : Act) × ((t : Race) × ((act a s ≡ some t) × (rank t.drain < rank s.drain)))

-- The call has returned.
abbrev pub Returned : CallPc → Type 0
Returned c = (c ≡ accepted) ⊎ (c ≡ rejected)

drains_at : (s : Race) (pc : DrainPc) → s.drain ≡ pc → drains pc s ≡ true
drains_at s pc e = (decide_iff (DrainPc-discrete s.drain pc)).1 e

and-true : (a b : Bool) → a ≡ true → b ≡ true → (a && b) ≡ true
and-true a b h k = ground (arith, h, k)

nearer : (s : Race) (pc : DrainPc) (n : ℕ) → s.drain ≡ pc → n < rank pc → n < rank s.drain
nearer s pc n e h = subst (λ d. n < rank d) (sym e) h

settled :
    (s : Race) (d : DrainPc)
    → s.drain ≡ d
    → s.closed ≡ true
    → ListedAt d s.registered
    → DrainAt d s.in_fan_out s.conn_closed s.closed
    → Released s ⊎ Advances s
unfolding act
settled s unborn e k l h = absurd l
settled s draining e k l h = inr (
  see_closed,
  (
    leave_fan_out s,
    (
      ap (λ b. when b (leave_fan_out s))
          (and-true (drains draining s) s.closed (drains_at s draining e) k),
      nearer s draining 2 e (omega arith),
    ),
  ),
)
settled s removed e k l h =
    let t = record s { drain = unlisted; registered = false } in
    inr (
      remove_subscriber,
      (t, (ap (λ b. when b t) (drains_at s removed e), nearer s removed 1 e (omega arith))),
    )
settled s unlisted e k l h =
    let t = record s { drain = ended; conn_closed = true } in
    inr (
      close_conn,
      (t, (ap (λ b. when b t) (drains_at s unlisted e), nearer s unlisted 0 e (omega arith))),
    )
settled s ended e k l (f, c, n) = inl (l, f, n)

returned :
    (s : Race) (pc : CallPc)
    → s.call ≡ pc
    → CallAt pc s.drain s.registered s.in_fan_out s.conn_closed s.closed
    → DrainAt s.drain s.in_fan_out s.conn_closed s.closed
    → ShutAt pc finished s.closed s.in_copy
    → Returned pc
    → Released s ⊎ Advances s
returned s accepted e c d h r = settled s s.drain refl h c d
returned s rejected e (inl ((u, l, f), n)) d h r = inl (l, f, n)
returned s rejected e (inr (k, c)) d h r = settled s s.drain refl k c d
returned s entered e c d h r = absurd (ground (arith, r))
returned s admitted e c d h r = absurd (ground (arith, r))
returned s listed e c d h r = absurd (ground (arith, r))
returned s fanned e c d h r = absurd (ground (arith, r))
returned s running e c d h r = absurd (ground (arith, r))

-- When Close has closed the subscribers that it copied and the Subscribe has returned, in whatever
-- way their steps interleaved, then nothing of the subscriber is left in the registry or the fan-out
-- and its connection is closed, or the subscriber's drain can take a step nearer to its end.
pub Reach-Released :
    (s : Race) → Reach s → s.close ≡ finished → Returned s.call → Released s ⊎ Advances s
Reach-Released s h e r =
    let (x, c, d, t) = Reach-Inv s h in
    returned s s.call refl c d (subst (λ p. ShutAt s.call p s.closed s.in_copy) e t) r
