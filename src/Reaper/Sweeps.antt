-- ===== src/Reaper/Sweeps.antt =====
-- What one sweep does to a reaper: before its registration, while it watches, and after.
use sbsh.Base.{
  ℕ, ◌≡◌, refl, ap, true, false, inl, inr, List, [], ◌∷◌, ◌++◌, ◌==◌, if◌then◌else◌, Bool-cases,
  arith,
}
use sbsh.Reaper.{
  Status, record_exit, Reaper, exit_code, handle_reaped, Waited, reaped, none_ready, no_child,
  interrupted, wait_error, drain_once, Event, sweep, register,
}

-- The exit codes of a pid in the answers that a sweep reads, in order.
abbrev pub swept : ℕ → List Waited → List ℕ
swept pid [] = []
swept pid (reaped p st ∷ ws) =
    let rest = swept pid ws in if p == pid then exit_code st ∷ rest else rest
swept pid (interrupted ∷ ws) = swept pid ws
swept pid (none_ready ∷ ws) = []
swept pid (no_child ∷ ws) = []
swept pid (wait_error ∷ ws) = []

abbrev pub exits : ℕ → List Event → List ℕ
exits pid [] = []
exits pid (sweep ws ∷ es) = swept pid ws ++ exits pid es
exits pid (register p ∷ es) = exits pid es

-- Sweeps, before the registration.
abbrev pub sweeps : List (List Waited) → List Event
sweeps [] = []
sweeps (ws ∷ wss) = sweep ws ∷ sweeps wss

-- Nothing is delivered yet, and `codes` are the pending exits of the child, the last one first.
abbrev pub codes_of : ℕ → List (ℕ × ℕ) → List ℕ
codes_of pid [] = []
codes_of pid ((p, code) ∷ ps) = let rest = codes_of pid ps in if p == pid then code ∷ rest else rest

abbrev pub rev_onto : List ℕ → List ℕ → List ℕ
rev_onto [] acc = acc
rev_onto (x ∷ xs) acc = rev_onto xs (x ∷ acc)

-- A reaper that waits for a registration, or for the child's exit, or has delivered it.
abbrev pub Idle : ℕ → List ℕ → Reaper → Type 0
Idle pid codes r =
    (r.tracked_pid ≡ 0)
    × (r.tracked_once ≡ false)
    × (r.tracked_stopped ≡ false)
    × (r.exit_ch ≡ [])
    × (codes_of pid r.pending_exits ≡ codes)

abbrev pub Watching : ℕ → Reaper → Type 0
Watching pid r =
    (r.tracked_pid ≡ pid)
    × (r.tracked_once ≡ false)
    × (r.tracked_stopped ≡ false)
    × (r.exit_ch ≡ [])

abbrev pub Delivered : ℕ → ℕ → Reaper → Type 0
Delivered pid code r =
    (r.tracked_pid ≡ pid)
    × (r.tracked_once ≡ true)
    × (r.tracked_stopped ≡ true)
    × (r.exit_ch ≡ code ∷ [])
    × (r.exit_ch_closed ≡ true)

handle_reaped-untracked :
    (p : ℕ) (st : Status) (r : Reaper)
    → r.tracked_pid ≡ 0
    → handle_reaped p st r ≡ record_exit p (exit_code st) r
unfolding handle_reaped
handle_reaped-untracked p st r t = ground (arith, t)

pub drain_once-Idle :
    (pid : ℕ) (ws : List Waited) (codes : List ℕ) (r : Reaper)
    → Idle pid codes r
    → Idle pid (rev_onto (swept pid ws) codes) (drain_once ws r).1
unfolding drain_once
drain_once-Idle pid [] codes r k = k
drain_once-Idle pid (reaped p st ∷ ws) codes r (t, o, s, e, c) =
    rw (handle_reaped-untracked p st r t) (elim (Bool-cases (p == pid)) [
      | inl q ↦ rw q (
          drain_once-Idle pid ws (exit_code st ∷ codes) (record_exit p (exit_code st) r)
            (t, o, s, e, rw q (ap (λ x. exit_code st ∷ x) c)))
      | inr q ↦
          rw q (drain_once-Idle pid ws codes (record_exit p (exit_code st) r) (t, o, s, e, rw q c))
    ])
drain_once-Idle pid (interrupted ∷ ws) codes r k = drain_once-Idle pid ws codes r k
drain_once-Idle pid (none_ready ∷ ws) codes r k = k
drain_once-Idle pid (no_child ∷ ws) codes r k = k
drain_once-Idle pid (wait_error ∷ ws) codes r k = k

handle_reaped-Delivered :
    (pid code p : ℕ) (st : Status) (r : Reaper)
    → (pid == 0) ≡ false
    → Delivered pid code r
    → handle_reaped p st r ≡ r
unfolding handle_reaped
handle_reaped-Delivered pid code p st r z (t, o, s, e, c) = ground (arith, z, t, s)

pub drain_once-Delivered :
    (pid code : ℕ) (ws : List Waited) (r : Reaper)
    → (pid == 0) ≡ false
    → Delivered pid code r
    → (drain_once ws r).1 ≡ r
unfolding drain_once
drain_once-Delivered pid code [] r z k = refl
drain_once-Delivered pid code (reaped p st ∷ ws) r z k =
    rw (handle_reaped-Delivered pid code p st r z k) (drain_once-Delivered pid code ws r z k)
drain_once-Delivered pid code (interrupted ∷ ws) r z k = drain_once-Delivered pid code ws r z k
drain_once-Delivered pid code (none_ready ∷ ws) r z k = refl
drain_once-Delivered pid code (no_child ∷ ws) r z k = refl
drain_once-Delivered pid code (wait_error ∷ ws) r z k = refl

-- Watching, or the first of `codes` has been delivered.
abbrev pub After : ℕ → List ℕ → Reaper → Type 0
After pid [] r = Watching pid r
After pid (code ∷ codes) r = Delivered pid code r

handle_reaped-other :
    (pid p : ℕ) (st : Status) (r : Reaper)
    → (pid == 0) ≡ false
    → (p == pid) ≡ false
    → r.tracked_pid ≡ pid
    → handle_reaped p st r ≡ r
unfolding handle_reaped
handle_reaped-other pid p st r z q t = ground (arith, z, t, q)

handle_reaped-watched :
    (pid p : ℕ) (st : Status) (r : Reaper)
    → (pid == 0) ≡ false
    → (p == pid) ≡ true
    → Watching pid r
    → Delivered pid (exit_code st) (handle_reaped p st r)
unfolding handle_reaped
handle_reaped-watched pid p st r z q (t, o, s, e) = ground (arith, z, t, q, o, s, e)

pub drain_once-Watching :
    (pid : ℕ) (ws : List Waited) (r : Reaper)
    → (pid == 0) ≡ false
    → Watching pid r
    → After pid (swept pid ws) (drain_once ws r).1
unfolding drain_once
drain_once-Watching pid [] r z k = k
drain_once-Watching pid (reaped p st ∷ ws) r z k = elim (Bool-cases (p == pid)) [
  | inl q ↦
      let d = handle_reaped-watched pid p st r z q k in
      rw (q, drain_once-Delivered pid (exit_code st) ws (handle_reaped p st r) z d) d
  | inr q ↦ rw (q, handle_reaped-other pid p st r z q k.0) (drain_once-Watching pid ws r z k)
]
drain_once-Watching pid (interrupted ∷ ws) r z k = drain_once-Watching pid ws r z k
drain_once-Watching pid (none_ready ∷ ws) r z k = k
drain_once-Watching pid (no_child ∷ ws) r z k = k
drain_once-Watching pid (wait_error ∷ ws) r z k = k
