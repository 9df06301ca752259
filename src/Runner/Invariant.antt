-- ===== src/Runner/Invariant.antt =====
-- The invariant of a runner that starts and closes, and what it says of single fields.
use sbsh.Base.{
  ◌≡◌, refl, Bool, true, false, ◌&&◌, ◌⊎◌, inl, inr, Option, none, some, List, [], ◌∷◌, if-elim,
  arith,
}
use sbsh.Signals.{Sig, sigterm, sigkill}
use mathlib.Core.Path.{subst}
use mathlib.Core.Bool.{decide_iff}
use sbsh.Runner.{
  Child, absent, alive, gone, StartPc, opening, forked, watched, ended, ClosePc, idle, latched,
  checking, asked, killed, past, cancelled, Exec, Child-discrete, ClosePc-discrete, closes,
  child_is, when, fork_child,
}

-- Every state that an action leads to.
abbrev pub Next : (Exec → Type 0) → Option Exec → Type 0
Next P none = Unit
Next P (some s) = P s

pub when-Next : (P : Exec → Type 0) (b : Bool) (s : Exec) → (b ≡ true → P s) → Next P (when b s)
when-Next P true s h = h refl
when-Next P false s h = tt

-- `closing` is set once Close has begun.
abbrev pub Latched : ClosePc → Bool → Type 0
Latched idle closing = Unit
Latched latched closing = closing ≡ true
Latched checking closing = closing ≡ true
Latched asked closing = closing ≡ true
Latched killed closing = closing ≡ true
Latched past closing = closing ≡ true
Latched cancelled closing = closing ≡ true

abbrev pub IsAsked : List (Sig × Bool) → Type 0
IsAsked ss = (a : Bool) × (ss ≡ (sigterm, a) ∷ [])

abbrev pub IsKilled : List (Sig × Bool) → Type 0
IsKilled ss = (a : Bool) × ((b : Bool) × (ss ≡ (sigterm, a) ∷ (sigkill, b) ∷ []))

-- No child was forked, or it has exited, or `kill` was called for its group with SIGTERM and then with
-- SIGKILL, and nothing else.
abbrev pub IsSwept : Child → List (Sig × Bool) → Type 0
IsSwept c ss = (c ≡ absent) ⊎ ((c ≡ gone) ⊎ IsKilled ss)

abbrev pub SweptAt : ClosePc → Child → List (Sig × Bool) → Type 0
SweptAt idle c ss = ss ≡ []
SweptAt latched c ss = ss ≡ []
SweptAt checking c ss = ss ≡ []
SweptAt asked c ss = IsAsked ss
SweptAt killed c ss = IsKilled ss
SweptAt past c ss = IsSwept c ss
SweptAt cancelled c ss = IsSwept c ss

-- `childDoneCh` is closed by an exit, or else by the escape of an init whose context is done.
abbrev pub DoneOk : Bool → Child → Bool → Bool → Type 0
DoneOk done c init_mode ctx = (done ≡ false) ⊎ ((c ≡ gone) ⊎ ((init_mode ≡ true) × (ctx ≡ true)))

abbrev pub CtxOk : Bool → Bool → ClosePc → Type 0
CtxOk ctx parent_ends pc = (ctx ≡ false) ⊎ ((parent_ends ≡ true) ⊎ (pc ≡ cancelled))

-- Nothing is forked before the fork.
abbrev pub StartAt : StartPc → Child → Type 0
StartAt opening c = c ≡ absent
StartAt forked c = Unit
StartAt watched c = Unit
StartAt ended c = Unit

abbrev pub Inv : Exec → Type 0
Inv s =
    Latched s.close s.closing
    × SweptAt s.close s.child s.signals
    × DoneOk s.child_done s.child s.init_mode s.ctx_done
    × CtxOk s.ctx_done s.parent_ends s.close
    × ((s.init_mode && s.parent_ends) ≡ false)
    × StartAt s.start s.child

pub is-closes : (pc : ClosePc) (s : Exec) → closes pc s ≡ true → s.close ≡ pc
is-closes pc s h = (decide_iff (ClosePc-discrete s.close pc)).0 h

pub is-child : (c : Child) (s : Exec) → child_is c s ≡ true → s.child ≡ c
is-child c s h = (decide_iff (Child-discrete s.child c)).0 h

pub SweptAt-gone :
    (pc : ClosePc) (c : Child) (ss : List (Sig × Bool)) → SweptAt pc c ss → SweptAt pc gone ss
SweptAt-gone idle c ss w = w
SweptAt-gone latched c ss w = w
SweptAt-gone checking c ss w = w
SweptAt-gone asked c ss w = w
SweptAt-gone killed c ss w = w
SweptAt-gone past c ss w = inr (inl refl)
SweptAt-gone cancelled c ss w = inr (inl refl)

pub SweptAt-forked :
    (pc : ClosePc) (closing : Bool) (c : Child) (ss : List (Sig × Bool))
    → closing ≡ false
    → Latched pc closing
    → SweptAt pc c ss
    → SweptAt pc alive ss
SweptAt-forked idle x c ss h l w = w
SweptAt-forked latched x c ss h l w = w
SweptAt-forked checking x c ss h l w = w
SweptAt-forked asked x c ss h l w = absurd (ground (arith, h, l))
SweptAt-forked killed x c ss h l w = absurd (ground (arith, h, l))
SweptAt-forked past x c ss h l w = absurd (ground (arith, h, l))
SweptAt-forked cancelled x c ss h l w = absurd (ground (arith, h, l))

pub StartAt-alive : (pc : StartPc) (c c' : Child) → c ≡ alive → StartAt pc c → StartAt pc c'
StartAt-alive opening c c' h a = absurd (ground (arith, h, a))
StartAt-alive forked c c' h a = tt
StartAt-alive watched c c' h a = tt
StartAt-alive ended c c' h a = tt

pub DoneOk-gone : (done : Bool) (c : Child) (i x : Bool) → DoneOk done c i x → DoneOk done gone i x
DoneOk-gone done c i x (inl h) = inl h
DoneOk-gone done c i x (inr (inl h)) = inr (inl refl)
DoneOk-gone done c i x (inr (inr h)) = inr (inr h)

pub DoneOk-forked :
    (done : Bool) (c : Child) (i x : Bool) → c ≡ absent → DoneOk done c i x → DoneOk done alive i x
DoneOk-forked done c i x a (inl h) = inl h
DoneOk-forked done c i x a (inr (inl h)) = absurd (ground (arith, a, h))
DoneOk-forked done c i x a (inr (inr h)) = inr (inr h)

pub DoneOk-ctx : (done : Bool) (c : Child) (i x : Bool) → DoneOk done c i x → DoneOk done c i true
DoneOk-ctx done c i x (inl h) = inl h
DoneOk-ctx done c i x (inr (inl h)) = inr (inl h)
DoneOk-ctx done c i x (inr (inr (h, k))) = inr (inr (h, refl))

pub CtxOk-pc : (x p : Bool) (pc pc' : ClosePc) → CtxOk x p pc → (pc ≡ cancelled → ⊥) → CtxOk x p pc'
CtxOk-pc x p pc pc' (inl h) k = inl h
CtxOk-pc x p pc pc' (inr (inl h)) k = inr (inl h)
CtxOk-pc x p pc pc' (inr (inr h)) k = absurd (k h)

pub fork_child-Inv : (ok : Bool) (s : Exec) → s.start ≡ opening → Inv s → Inv (fork_child ok s)
fork_child-Inv ok s e (l, w, d, c, q, o) =
    if-elim Inv s.closing (λ _. (l, w, d, c, q, tt))
      (λ h.
        if-elim Inv ok
          (λ _. (
            l,
            SweptAt-forked s.close s.closing s.child s.signals h l w,
            DoneOk-forked s.child_done s.child s.init_mode s.ctx_done
                (subst (λ pc. StartAt pc s.child) e o) d,
            c,
            q,
            tt,
          ))
          (λ _. (l, w, d, c, q, tt)))
