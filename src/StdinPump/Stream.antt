-- ===== src/StdinPump/Stream.antt =====
-- The bytes of the descriptor, through the pump.
use sbsh.Base.{
  ℕ, ◌≡◌, refl, sym, ap, ◌∙◌, true, ◌||◌, Option, none, some, List, [], ◌∷◌, ◌++◌, if-elim, take,
  drop, take-append-drop, append_assoc, arith,
}
use sbsh.Errdefs.{Error}
use sbsh.StdinPump.{
  PumpResult, data_of, err_of, SourceRead, with_data, with_err, run, StdinPump, new_stdin_pump,
  Call, Answer, receive, wait, after_leftover, read_from, read, reads,
}

abbrev pub bytes_of : List PumpResult → List ℕ
bytes_of [] = []
bytes_of (data_of d ∷ rs) = d ++ bytes_of rs
bytes_of (err_of e ∷ rs) = bytes_of rs

abbrev pub all_of : List (List ℕ) → List ℕ
all_of [] = []
all_of (t ∷ ts) = t ++ all_of ts

abbrev until_error : Option Error → List ℕ → List ℕ
until_error none bs = bs
until_error (some e) bs = []

-- The bytes of a source until its first error, those of the failing read included.
abbrev pub source_bytes : List SourceRead → List ℕ
source_bytes [] = []
source_bytes (s ∷ ss) = s.bytes ++ until_error s.err (source_bytes ss)

-- The bytes that the pump holds and those that come.
abbrev pub held : StdinPump → List PumpResult → List ℕ
held p rs = p.leftover ++ bytes_of rs

abbrev Keeps : StdinPump → List PumpResult → Answer → Type 0
Keeps p rs a = a.taken ++ held a.pump a.rest ≡ held p rs

receive-Keeps :
    (c : Call) (p : StdinPump) (rs : List PumpResult)
    → p.leftover ≡ []
    → Keeps p rs (receive c p rs)
receive-Keeps c p [] e = refl
receive-Keeps c p (err_of x ∷ rs) e = refl
receive-Keeps c p (data_of d ∷ rs) e =
    if-elim (Keeps p (data_of d ∷ rs)) c.done_after (λ _. append_assoc p.leftover d (bytes_of rs))
      (λ _. rw e (
        sym (append_assoc (take c.room d) (drop c.room d) (bytes_of rs))
        ∙ ap (λ x. x ++ bytes_of rs) (take-append-drop c.room d)))

wait-Keeps :
    (c : Call) (p : StdinPump) (rs : List PumpResult) → p.leftover ≡ [] → Keeps p rs (wait c p rs)
wait-Keeps c p rs e =
    if-elim (Keeps p rs) c.done_before (λ _. refl)
      (λ _. if-elim (Keeps p rs) c.receives (λ _. receive-Keeps c p rs e) (λ _. refl))

after_leftover-Keeps :
    (o : Option Error) (c : Call) (p : StdinPump) (rs : List PumpResult)
    → p.leftover ≡ []
    → Keeps p rs (after_leftover o c p rs)
after_leftover-Keeps (some x) c p rs e = refl
after_leftover-Keeps none c p rs e = wait-Keeps c p rs e

read_from-Keeps :
    (l : List ℕ) (c : Call) (p : StdinPump) (rs : List PumpResult)
    → p.leftover ≡ l
    → Keeps p rs (read_from l c p rs)
read_from-Keeps [] c p rs e = after_leftover-Keeps p.read_err c p rs e
read_from-Keeps (b ∷ bs) c p rs e = rw e (
    sym (append_assoc (take c.room (b ∷ bs)) (drop c.room (b ∷ bs)) (bytes_of rs))
    ∙ ap (λ x. x ++ bytes_of rs) (take-append-drop c.room (b ∷ bs)))

reads-held :
    (cs : List Call) (p : StdinPump) (rs : List PumpResult)
    → all_of (reads cs p rs).0 ++ held (reads cs p rs).1.0 (reads cs p rs).1.1 ≡ held p rs
unfolding reads read
reads-held [] p rs = refl
reads-held (c ∷ cs) p rs =
    let a = read_from p.leftover c p rs in
    append_assoc a.taken (all_of (reads cs a.pump a.rest).0) _
    ∙ ap (λ x. a.taken ++ x) (reads-held cs a.pump a.rest)
    ∙ read_from-Keeps p.leftover c p rs refl

with_data-bytes : (d : List ℕ) (rs : List PumpResult) → bytes_of (with_data d rs) ≡ d ++ bytes_of rs
with_data-bytes [] rs = refl
with_data-bytes (b ∷ bs) rs = refl

with_err-bytes :
    (o : Option Error) (rs : List PumpResult)
    → bytes_of (with_err o rs) ≡ until_error o (bytes_of rs)
with_err-bytes none rs = refl
with_err-bytes (some e) rs = refl

run-source_bytes : (ss : List SourceRead) → bytes_of (run ss) ≡ source_bytes ss
unfolding run
run-source_bytes [] = refl
run-source_bytes (s ∷ ss) =
    with_data-bytes s.bytes (with_err s.err (run ss))
    ∙ ap (λ x. s.bytes ++ x)
        (with_err-bytes s.err (run ss) ∙ ap (until_error s.err) (run-source_bytes ss))

-- Whatever the sessions' calls of `read` are, their buffers and the moments at which their contexts
-- are cancelled, the bytes that they took, in order, followed by what the pump holds back and by
-- what its reader has still to send, are the bytes of the descriptor up to its first error: a
-- session that ends loses no byte, and no byte is delivered twice or out of order.
pub reads-source_bytes :
    (ss : List SourceRead) (cs : List Call)
    → all_of (reads cs new_stdin_pump (run ss)).0
        ++ held (reads cs new_stdin_pump (run ss)).1.0 (reads cs new_stdin_pump (run ss)).1.1
      ≡ source_bytes ss
reads-source_bytes ss cs = reads-held cs new_stdin_pump (run ss) ∙ run-source_bytes ss

receive-cancelled :
    (c : Call) (p : StdinPump) (rs : List PumpResult)
    → c.done_after ≡ true
    → (receive c p rs).taken ≡ []
receive-cancelled c p [] h = refl
receive-cancelled c p (err_of e ∷ rs) h = refl
receive-cancelled c p (data_of d ∷ rs) h = rw h refl

after_leftover-cancelled :
    (o : Option Error) (c : Call) (p : StdinPump) (rs : List PumpResult)
    → (c.done_before || c.done_after) ≡ true
    → (after_leftover o c p rs).taken ≡ []
after_leftover-cancelled (some e) c p rs h = refl
after_leftover-cancelled none c p rs h =
    if-elim (λ (a : Answer). a.taken ≡ []) c.done_before (λ _. refl)
      (λ b.
        if-elim (λ (a : Answer). a.taken ≡ []) c.receives
          (λ _. receive-cancelled c p rs (ground (arith, h, b))) (λ _. refl))

-- A call of `read` whose context is done before its second select, or is done after its receive,
-- takes no byte, when the pump holds nothing back.
pub read-cancelled :
    (c : Call) (p : StdinPump) (rs : List PumpResult)
    → p.leftover ≡ []
    → (c.done_before || c.done_after) ≡ true
    → (read c p rs).taken ≡ []
unfolding read
read-cancelled c p rs e h =
    ap (λ l. (read_from l c p rs).taken) e ∙ after_leftover-cancelled p.read_err c p rs h
