-- ===== src/Reaper/Exits.antt =====
-- The tracked child's exit, whenever it is reaped.
use sbsh.Base.{
  ℕ, ◌≡◌, refl, sym, ap, ◌∙◌, ◌≤◌, false, inl, inr, Option, none, some, List, [], ◌∷◌, ◌++◌, ◌==◌,
  Bool-cases, length, length-append, append_assoc, append-nil, arith,
}
use mathlib.Core.Path.{subst}
use sbsh.Reaper.{
  Reaper, new_reaper, pending_exit, register_child, Waited, drain_once, Event, sweep, register, run,
}
use sbsh.Reaper.Sweeps.{
  swept, exits, sweeps, rev_onto, codes_of, Idle, After, drain_once-Idle, drain_once-Delivered,
  drain_once-Watching,
}

abbrev first_of : List ℕ → Option ℕ
first_of [] = none
first_of (x ∷ xs) = some x

pending_exit-codes_of :
    (pid : ℕ) (ps : List (ℕ × ℕ)) → pending_exit pid ps ≡ first_of (codes_of pid ps)
pending_exit-codes_of pid [] = refl
pending_exit-codes_of pid ((p, code) ∷ ps) = elim (Bool-cases (p == pid)) [
  | inl q ↦ rw q refl
  | inr q ↦ rw q (pending_exit-codes_of pid ps)
]

register_child-After :
    (pid : ℕ) (codes : List ℕ) (r : Reaper)
    → Idle pid codes r
    → After pid codes (register_child pid r)
unfolding register_child
register_child-After pid [] r (t, o, s, e, c) =
    rw t (rw (pending_exit-codes_of pid r.pending_exits) (rw c (refl, o, s, e)))
register_child-After pid (code ∷ codes) r (t, o, s, e, c) = rw t (
    rw (pending_exit-codes_of pid r.pending_exits)
      (rw c (rw s (rw o (refl, refl, refl, ap (λ x. x ++ code ∷ []) e, refl)))))

register_child-tracked :
    (p pid : ℕ) (r : Reaper) → (pid == 0) ≡ false → r.tracked_pid ≡ pid → register_child p r ≡ r
unfolding register_child
register_child-tracked p pid r z t = ground (arith, z, t)

tracked-After : (pid : ℕ) (codes : List ℕ) (r : Reaper) → After pid codes r → r.tracked_pid ≡ pid
tracked-After pid [] r k = k.0
tracked-After pid (code ∷ codes) r k = k.0

drain_once-After :
    (pid : ℕ) (codes : List ℕ) (ws : List Waited) (r : Reaper)
    → (pid == 0) ≡ false
    → After pid codes r
    → After pid (codes ++ swept pid ws) (drain_once ws r).1
drain_once-After pid [] ws r z k = drain_once-Watching pid ws r z k
drain_once-After pid (code ∷ codes) ws r z k = rw (drain_once-Delivered pid code ws r z k) k

run-After :
    (pid : ℕ) (codes : List ℕ) (es : List Event) (r : Reaper)
    → (pid == 0) ≡ false
    → After pid codes r
    → After pid (codes ++ exits pid es) (run es r)
unfolding run
run-After pid codes [] r z k = subst (λ x. After pid x r) (sym (append-nil codes)) k
run-After pid codes (sweep ws ∷ es) r z k =
    subst (λ x. After pid x (run es (drain_once ws r).1))
      (append_assoc codes (swept pid ws) (exits pid es))
      (run-After pid (codes ++ swept pid ws) es (drain_once ws r).1 z
        (drain_once-After pid codes ws r z k))
run-After pid codes (register p ∷ es) r z k =
    rw (register_child-tracked p pid r z (tracked-After pid codes r k))
      (run-After pid codes es r z k)

rev_onto-append : (xs ys acc : List ℕ) → rev_onto (xs ++ ys) acc ≡ rev_onto ys (rev_onto xs acc)
rev_onto-append [] ys acc = refl
rev_onto-append (x ∷ xs) ys acc = rev_onto-append xs ys (x ∷ acc)

run-Idle :
    (pid : ℕ) (codes : List ℕ) (wss : List (List Waited)) (es : List Event) (r : Reaper)
    → (pid == 0) ≡ false
    → Idle pid codes r
    → After pid
        (rev_onto (exits pid (sweeps wss)) codes ++ exits pid es)
        (run (sweeps wss ++ register pid ∷ es) r)
unfolding run
run-Idle pid codes [] es r z k =
    run-After pid codes es (register_child pid r) z (register_child-After pid codes r k)
run-Idle pid codes (ws ∷ wss) es r z k =
    subst
      (λ x.
        After pid (x ++ exits pid es) (run (sweeps wss ++ register pid ∷ es) (drain_once ws r).1))
      (sym (rev_onto-append (swept pid ws) (exits pid (sweeps wss)) codes))
      (run-Idle pid (rev_onto (swept pid ws) codes) wss es (drain_once ws r).1 z
        (drain_once-Idle pid ws codes r k))

rev_onto-one : (xs : List ℕ) → length xs ≤ 1 → rev_onto xs [] ≡ xs
rev_onto-one [] h = refl
rev_onto-one (x ∷ []) h = refl
rev_onto-one (x ∷ y ∷ xs) h = absurd (omega (arith, h))

exits-append : (pid : ℕ) (es fs : List Event) → exits pid (es ++ fs) ≡ exits pid es ++ exits pid fs
exits-append pid [] fs = refl
exits-append pid (sweep ws ∷ es) fs =
    ap (λ x. swept pid ws ++ x) (exits-append pid es fs)
    ∙ sym (append_assoc (swept pid ws) (exits pid es) (exits pid fs))
exits-append pid (register p ∷ es) fs = exits-append pid es fs

After-exit_ch :
    (pid : ℕ) (codes : List ℕ) (r : Reaper)
    → length codes ≤ 1
    → After pid codes r
    → r.exit_ch ≡ codes
After-exit_ch pid [] r h (t, o, s, e) = e
After-exit_ch pid (code ∷ []) r h (t, o, s, e, c) = e
After-exit_ch pid (x ∷ y ∷ xs) r h k = absurd (omega (arith, h))

-- The channel of the tracked child's exit carries exactly the exit codes of that child, so that
-- nothing is lost and nothing sent twice: whether the child is reaped before RegisterChild has told
-- its pid, or after, in any sweeps, among any other children, and with any further registrations. A
-- pid is not 0, and the child is reaped at most once.
pub run-exits :
    (pid : ℕ) (wss : List (List Waited)) (es : List Event)
    → (pid == 0) ≡ false
    → length (exits pid (sweeps wss ++ register pid ∷ es)) ≤ 1
    → (run (sweeps wss ++ register pid ∷ es) new_reaper).exit_ch
      ≡ exits pid (sweeps wss ++ register pid ∷ es)
run-exits pid wss es z h =
    let split = exits-append pid (sweeps wss) (register pid ∷ es) in
    let few = rw (split, length-append (exits pid (sweeps wss)) (exits pid es)) at h in
    let one = rev_onto-one (exits pid (sweeps wss)) (omega (arith, few)) in
    let k = run-Idle pid [] wss es new_reaper z (refl, refl, refl, refl, refl) in
    rw split (
      After-exit_ch pid (exits pid (sweeps wss) ++ exits pid es) _
        (omega (arith, few, length-append (exits pid (sweeps wss)) (exits pid es))) (rw one at k))
