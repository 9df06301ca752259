-- ===== src/Runner/Shell/Typed.antt =====
-- What a terminal types into its shell when it starts.
use sbsh.Base.{
  ℕ, ◌≡◌, refl, sym, ◌∙◌, ap, Option, none, some, List, [], ◌∷◌, ◌++◌, append-nil, append_assoc,
  String, if◌then◌else◌,
}
use sbsh.Errdefs.{Error}
use sbsh.Metadata.Owned.{State}
use sbsh.Profile.{TerminalSpec}
use sbsh.Runner.Shell.{Pty, next_answer, type_byte, ◌then◌, write, labelled, Shell, on_pty}

-- All of the script was typed, or with an error some of it.
abbrev pub Types : List ℕ → List ℕ → List ℕ × Option Error → Type 0
Types script before (now, none) = now ≡ before ++ script
Types script before (now, some e) = (rest : List ℕ) × (now ++ rest ≡ before ++ script)

Types-from :
    (two mid script before : List ℕ) (r : List ℕ × Option Error)
    → mid ++ two ≡ before ++ script
    → Types two mid r
    → Types script before r
Types-from two mid script before (now, none) e h = h ∙ e
Types-from two mid script before (now, some x) e (rest, h) = (rest, h ∙ e)

joined : (before one mid two : List ℕ) → mid ≡ before ++ one → mid ++ two ≡ before ++ (one ++ two)
joined before one mid two h = ap (λ l. l ++ two) h ∙ append_assoc before one two

more_left :
    (before one two now rest : List ℕ)
    → now ++ rest ≡ before ++ one
    → now ++ (rest ++ two) ≡ before ++ (one ++ two)
more_left before one two now rest h =
    sym (append_assoc now rest two) ∙ ap (λ l. l ++ two) h ∙ append_assoc before one two

abbrev pub typed_of : Pty × Option Error → List ℕ × Option Error
typed_of (p, e) = (p.typed, e)

pub Types-then :
    (one two before : List ℕ) (r : Pty × Option Error) (f : Pty → Pty × Option Error)
    → Types one before (typed_of r)
    → ((q : Pty) → Types two q.typed (typed_of (f q)))
    → Types (one ++ two) before (typed_of (r then f))
Types-then one two before (q, some e) f (rest, h) k =
    (rest ++ two, more_left before one two q.typed rest h)
Types-then one two before (q, none) f h k =
    Types-from two q.typed (one ++ two) before (typed_of (f q)) (joined before one q.typed two h)
      (k q)

pub Types-labelled :
    (script before : List ℕ) (msg : String) (r : Pty × Option Error)
    → Types script before (typed_of r)
    → Types script before (typed_of (labelled msg r))
Types-labelled script before msg (p, none) h = h
Types-labelled script before msg (p, some e) h = h

type_byte-Types :
    (b : ℕ) (o : Option Error × List (Option Error)) (p : Pty)
    → Types (b ∷ []) p.typed (typed_of (type_byte b o p))
type_byte-Types b (none, os) p = refl
type_byte-Types b (some e, os) p = (b ∷ [], refl)

pub write-Types : (bs : List ℕ) (p : Pty) → Types bs p.typed (typed_of (write bs p))
unfolding write
write-Types [] p = sym (append-nil p.typed)
write-Types (b ∷ bs) p =
    Types-then (b ∷ []) bs p.typed (type_byte b (next_answer p.answers) p) (write bs)
      (type_byte-Types b (next_answer p.answers) p) (write-Types bs)

-- The script was typed and the specification is this one, or with an error some of it was typed.
abbrev pub Ran : List ℕ → TerminalSpec → List ℕ → Shell × Option Error → Type 0
Ran script spec before (s, none) = (s.1.typed ≡ before ++ script) × (s.0.0.spec ≡ spec)
Ran script spec before (s, some e) = (rest : List ℕ) × (s.1.typed ++ rest ≡ before ++ script)

Ran-from :
    (two mid script before : List ℕ) (spec : TerminalSpec) (r : Shell × Option Error)
    → mid ++ two ≡ before ++ script
    → Ran two spec mid r
    → Ran script spec before r
Ran-from two mid script before spec (s, none) e (h, k) = (h ∙ e, k)
Ran-from two mid script before spec (s, some x) e (rest, h) = (rest, h ∙ e)

pub Ran-then :
    (one two before : List ℕ) (first last : TerminalSpec) (r : Shell × Option Error)
    (f : Shell → Shell × Option Error)
    → Ran one first before r
    → ((s : Shell) → s.0.0.spec ≡ first → Ran two last s.1.typed (f s))
    → Ran (one ++ two) last before (r then f)
Ran-then one two before first last (s, some e) f (rest, h) k =
    (rest ++ two, more_left before one two s.1.typed rest h)
Ran-then one two before first last (s, none) f (h, e) k =
    Ran-from two s.1.typed (one ++ two) before last (f s) (joined before one s.1.typed two h)
      (k s e)

pub Ran-labelled :
    (script before : List ℕ) (spec : TerminalSpec) (msg : String) (r : Shell × Option Error)
    → Ran script spec before r
    → Ran script spec before (labelled msg r)
Ran-labelled script before spec msg (s, none) h = h
Ran-labelled script before spec msg (s, some e) h = h

pub on_pty-Ran :
    (script : List ℕ) (f : Pty → Pty × Option Error) (x : State) (p : Pty) (r : Pty × Option Error)
    → f p ≡ r
    → Types script p.typed (typed_of r)
    → Ran script (x.0.spec) p.typed (on_pty f (x, p))
on_pty-Ran script f x p (q, none) e h = rw e (h, refl)
on_pty-Ran script f x p (q, some k) e h = rw e h
