-- ===== src/Runner/Subscribe/Invariant.antt =====
-- The invariant of a Subscribe that races with Close.
use sbsh.Base.{◌≡◌, refl, Bool, true, false, ◌⊎◌, inl, inr, Option, none, some}
use mathlib.Core.Path.{subst}
use mathlib.Core.Bool.{decide_iff}
use sbsh.Runner.Subscribe.{
  CallPc, entered, admitted, listed, fanned, running, accepted, rejected, DrainPc, unborn, draining,
  removed, unlisted, ended, ClosePc, calm, cancelling, copied, finished, CallPc-discrete,
  DrainPc-discrete, ClosePc-discrete, Race, calls, drains, closes, when,
}

abbrev pub Next : (Race → Type 0) → Option Race → Type 0
Next P none = Unit
Next P (some s) = P s

pub when-Next : (P : Race → Type 0) (b : Bool) (s : Race) → (b ≡ true → P s) → Next P (when b s)
when-Next P true s h = h refl
when-Next P false s h = tt

-- The context is done once Close has begun to cancel it.
abbrev pub CtxAt : ClosePc → Bool → Type 0
CtxAt calm ctx = Unit
CtxAt cancelling ctx = ctx ≡ true
CtxAt copied ctx = ctx ≡ true
CtxAt finished ctx = ctx ≡ true

-- Whether the subscriber is registered, while its drain is there.
abbrev pub ListedAt : DrainPc → Bool → Type 0
ListedAt unborn r = ⊥
ListedAt draining r = r ≡ true
ListedAt removed r = r ≡ true
ListedAt unlisted r = r ≡ false
ListedAt ended r = r ≡ false

-- Nothing of the subscriber is there but the connection.
abbrev pub Untaken : DrainPc → Bool → Bool → Type 0
Untaken d r fan = (d ≡ unborn) × (r ≡ false) × (fan ≡ false)

-- What the call has done to the registry, the fan-out and the drain.
abbrev pub CallAt : CallPc → DrainPc → Bool → Bool → Bool → Bool → Type 0
CallAt entered d r fan conn closed = Untaken d r fan
CallAt admitted d r fan conn closed = Untaken d r fan
CallAt listed d r fan conn closed = (d ≡ unborn) × (r ≡ true) × (fan ≡ false)
CallAt fanned d r fan conn closed = (d ≡ unborn) × (r ≡ true)
CallAt running d r fan conn closed = ListedAt d r
CallAt accepted d r fan conn closed = ListedAt d r
CallAt rejected d r fan conn closed =
    (Untaken d r fan × (conn ≡ true)) ⊎ ((closed ≡ true) × ListedAt d r)

-- What the drain has undone.
abbrev pub DrainAt : DrainPc → Bool → Bool → Bool → Type 0
DrainAt unborn fan conn closed = Unit
DrainAt draining fan conn closed = Unit
DrainAt removed fan conn closed = (fan ≡ false) × (closed ≡ true)
DrainAt unlisted fan conn closed = (fan ≡ false) × (closed ≡ true)
DrainAt ended fan conn closed = (fan ≡ false) × (closed ≡ true) × (conn ≡ true)

-- What Close has done to a subscriber whose call was accepted.
abbrev pub ShutAt : CallPc → ClosePc → Bool → Bool → Type 0
ShutAt accepted copied closed copy = (copy ≡ true) ⊎ (closed ≡ true)
ShutAt accepted finished closed copy = closed ≡ true
ShutAt c p closed copy = Unit

abbrev pub Inv : Race → Type 0
Inv s =
    CtxAt s.close s.ctx_done
    × CallAt s.call s.drain s.registered s.in_fan_out s.conn_closed s.closed
    × DrainAt s.drain s.in_fan_out s.conn_closed s.closed
    × ShutAt s.call s.close s.closed s.in_copy

pub is-calls : (pc : CallPc) (s : Race) → calls pc s ≡ true → s.call ≡ pc
is-calls pc s h = (decide_iff (CallPc-discrete s.call pc)).0 h

pub is-drains : (pc : DrainPc) (s : Race) → drains pc s ≡ true → s.drain ≡ pc
is-drains pc s h = (decide_iff (DrainPc-discrete s.drain pc)).0 h

pub is-closes : (pc : ClosePc) (s : Race) → closes pc s ≡ true → s.close ≡ pc
is-closes pc s h = (decide_iff (ClosePc-discrete s.close pc)).0 h

-- The facts at a call that has come to `pc`.
pub at_call :
    (s : Race) (pc : CallPc)
    → s.call ≡ pc
    → Inv s
    → CallAt pc s.drain s.registered s.in_fan_out s.conn_closed s.closed
at_call s pc e (x, c, d, h) =
    subst (λ k. CallAt k s.drain s.registered s.in_fan_out s.conn_closed s.closed) e c

-- The subscriber may be closed at any time.
pub CallAt-closed :
    (pc : CallPc) (d : DrainPc) (r fan conn closed : Bool)
    → CallAt pc d r fan conn closed
    → CallAt pc d r fan conn true
CallAt-closed entered d r fan conn closed c = c
CallAt-closed admitted d r fan conn closed c = c
CallAt-closed listed d r fan conn closed c = c
CallAt-closed fanned d r fan conn closed c = c
CallAt-closed running d r fan conn closed c = c
CallAt-closed accepted d r fan conn closed c = c
CallAt-closed rejected d r fan conn closed (inl c) = inl c
CallAt-closed rejected d r fan conn closed (inr (h, c)) = inr (refl, c)

pub DrainAt-closed :
    (d : DrainPc) (fan conn closed : Bool) → DrainAt d fan conn closed → DrainAt d fan conn true
DrainAt-closed unborn fan conn closed h = tt
DrainAt-closed draining fan conn closed h = tt
DrainAt-closed removed fan conn closed h = (h.0, refl)
DrainAt-closed unlisted fan conn closed h = (h.0, refl)
DrainAt-closed ended fan conn closed (f, c, n) = (f, refl, n)

pub ShutAt-closed : (c : CallPc) (p : ClosePc) (copy : Bool) → ShutAt c p true copy
ShutAt-closed accepted calm copy = tt
ShutAt-closed accepted cancelling copy = tt
ShutAt-closed accepted copied copy = inr refl
ShutAt-closed accepted finished copy = refl
ShutAt-closed c p copy = tt

pub closed-Inv : (s : Race) → Inv s → Inv (record s { closed = true })
closed-Inv s (x, c, d, h) = (
  x,
  CallAt-closed s.call s.drain s.registered s.in_fan_out s.conn_closed s.closed c,
  DrainAt-closed s.drain s.in_fan_out s.conn_closed s.closed d,
  ShutAt-closed s.call s.close s.in_copy,
)

pub CtxAt-done : (p : ClosePc) → CtxAt p true
CtxAt-done calm = tt
CtxAt-done cancelling = refl
CtxAt-done copied = refl
CtxAt-done finished = refl
