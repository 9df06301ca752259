-- ===== src/Metadata/Owned/Refused.antt =====
-- The metadata of a terminal that lives is not overwritten by another start.
use sbsh.Base.{
  ℕ, ◌≡◌, refl, ◌∙◌, ap, Bool, true, false, ◌⊎◌, inl, inr, Option, none, some, List, [], ◌∷◌, ◌++◌,
  String, is_empty,
}
use sbsh.Errdefs.{Error, sentinel, err_terminal_id_in_use}
use sbsh.Metadata.{Dir, Answers, atomic_write_file, tag_write, write_metadata}
use sbsh.Metadata.Atomic.{Settled, write-Settled}
use sbsh.Metadata.Owned.{
  dir_of, Start, TerminalDoc, with_state, with_attachers, started, State, Update, to_state,
  to_attachers, live_metadata_owner, kept, created, create_unowned, create_metadata, committed,
  update_terminal_state, update_terminal_attachers, update, updates,
}
use sbsh.Process.{ℤ, Probe, is_instance_alive}
use sbsh.Reconcile.{TerminalStatusMode, is_exited}
use mathlib.Core.Path.{subst}

-- A write replaces the file by the document with a newline, or fails and leaves it.
abbrev pub Wrote : Error ⊎ List ℕ → Dir → Dir × Option Error → Type 0
Wrote e old (d, none) = (b : List ℕ) × ((e ≡ inr b) × (d.file ≡ some (b ++ 10 ∷ [])))
Wrote e old (d, some x) = d.file ≡ old.file

tag_write-Wrote :
    (b : List ℕ) (old : Dir) (r : Dir × Option Error)
    → Settled old (b ++ 10 ∷ []) r
    → Wrote (inr b) old (tag_write r)
tag_write-Wrote b old (d, none) (f, t) = (b, (refl, f))
tag_write-Wrote b old (d, some x) (f, t) = f

pub write_metadata-Wrote :
    (a : Answers) (e : Error ⊎ List ℕ) (d : Dir) → Wrote e d (write_metadata a e d)
unfolding write_metadata
write_metadata-Wrote a (inl x) d = refl
write_metadata-Wrote a (inr b) d =
    tag_write-Wrote b d (atomic_write_file a (b ++ 10 ∷ []) d).1 (write-Settled a (b ++ 10 ∷ []) d)

-- The document is of this process, which has not exited.
abbrev pub IsOf : ℤ → ℕ → TerminalDoc → Type 0
IsOf pid start t =
    (t.status.pid ≡ pid) × (t.status.pid_start ≡ start) × (is_exited t.status.state ≡ false)

-- The updates do not say that the terminal has exited.
abbrev pub NoneExits : List Update → Type 0
NoneExits [] = Unit
NoneExits (to_state a m ∷ us) = (is_exited m ≡ false) × NoneExits us
NoneExits (to_attachers a ids ∷ us) = NoneExits us

-- What the bytes decode to has the process and the state of a document.
abbrev pub ReadsBack : (List ℕ → Option TerminalDoc) → TerminalDoc → List ℕ → Type 0
ReadsBack decode t b =
    (u : TerminalDoc) × ((decode b ≡ some u)
      × ((u.status.pid ≡ t.status.pid)
          × (u.status.pid_start ≡ t.status.pid_start)
          × (u.status.state ≡ t.status.state)))

module _ (encode : TerminalDoc → Error ⊎ List ℕ) (decode : List ℕ → Option TerminalDoc)
    (decode-encode : (t : TerminalDoc) (b : List ℕ)
      → encode t ≡ inr b
      → ReadsBack decode t (b ++ 10 ∷ [])) where
  -- The file decodes to a document of the process.
  abbrev pub FileOf : ℤ → ℕ → Dir → Type 0
  FileOf pid start d =
      (b : List ℕ) × ((t : TerminalDoc) × ((d.file ≡ some b)
          × ((decode b ≡ some t) × IsOf pid start t)))

  abbrev pub Owns : ℤ → ℕ → State → Type 0
  Owns pid start (t, d) = IsOf pid start t × FileOf pid start d

  FileOf-read :
      (pid : ℤ) (start : ℕ) (t : TerminalDoc) (b : List ℕ) (d : Dir)
      → encode t ≡ inr b
      → d.file ≡ some (b ++ 10 ∷ [])
      → IsOf pid start t
      → FileOf pid start d
  FileOf-read pid start t b d e f (p, s, x) =
      let (u, (g, (p2, s2, m))) = decode-encode t b e in
      (b ++ 10 ∷ [], (u, (f, (g, (p2 ∙ p, s2 ∙ s, ap is_exited m ∙ x)))))

  -- A document that is written is read back.
  FileOf-write :
      (pid : ℤ) (start : ℕ) (t : TerminalDoc) (old : Dir) (r : Dir × Option Error)
      → Wrote (encode t) old r
      → IsOf pid start t
      → FileOf pid start old
      → FileOf pid start r.0
  FileOf-write pid start t old (d, none) (b, (e, f)) i o = FileOf-read pid start t b d e f i
  FileOf-write pid start t old (d, some x) f i (b, (u, (g, rest))) = (b, (u, (f ∙ g, rest)))

  committed-Owns :
      (pid : ℤ) (start : ℕ) (m : TerminalStatusMode) (t : TerminalDoc) (r : Dir × Option Error)
      → is_exited m ≡ false
      → IsOf pid start t
      → FileOf pid start r.0
      → Owns pid start (committed encode decode m t r).0
  committed-Owns pid start m t (d, none) h (p, s, x) f = ((p, s, h), f)
  committed-Owns pid start m t (d, some e) h i f = (i, f)

  update-Owns :
      (pid : ℤ) (start : ℕ) (u : Update) (us : List Update) (x : State)
      → NoneExits (u ∷ us)
      → Owns pid start x
      → Owns pid start (update encode decode u x).0
  unfolding update_terminal_state update_terminal_attachers
  update-Owns pid start (to_state a m) us (t, d) (h, n) ((p, s, e), f) =
      let r = write_metadata a (encode (with_state m t)) d in
      committed-Owns pid start m t r h (p, s, e)
        (FileOf-write pid start (with_state m t) d r
          (write_metadata-Wrote a (encode (with_state m t)) d) (p, s, h) f)
  update-Owns pid start (to_attachers a ids) us (t, d) n (i, f) =
      let v = with_attachers ids t in
      let r = write_metadata a (encode v) d in
      (i, FileOf-write pid start v d r (write_metadata-Wrote a (encode v) d) i f)

  NoneExits-tail : (u : Update) (us : List Update) → NoneExits (u ∷ us) → NoneExits us
  NoneExits-tail (to_state a m) us h = h.1
  NoneExits-tail (to_attachers a ids) us h = h

  updates-Owns :
      (pid : ℤ) (start : ℕ) (us : List Update) (x : State)
      → NoneExits us
      → Owns pid start x
      → Owns pid start (updates encode decode us x)
  unfolding updates
  updates-Owns pid start [] x n o = o
  updates-Owns pid start (u ∷ us) x n o =
      updates-Owns pid start us (update encode decode u x).0 (NoneExits-tail u us n)
        (update-Owns pid start u us x n o)

  -- A start that succeeds owns the file.
  abbrev pub Created : ℤ → ℕ → State × Option Error → Type 0
  Created pid start (x, none) = Owns pid start x
  Created pid start (x, some e) = Unit

  kept-Created :
      (pid : ℤ) (start : ℕ) (t : TerminalDoc) (old : Dir) (r : Dir × Option Error)
      → Wrote (encode t) old r
      → IsOf pid start t
      → Created pid start (kept encode decode t r)
  kept-Created pid start t old (d, none) (b, (e, f)) i = (i, FileOf-read pid start t b d e f i)
  kept-Created pid start t old (d, some x) w i = tt

  created-Created :
      (a : Answers) (s : Start) (path : String) (t : TerminalDoc) (d : Dir) (o : Option Error)
      → Created s.pid s.pid_start (created encode decode a s path (t, d) o)
  created-Created a s path t d (some e) = tt
  created-Created a s path t d none =
      let v = started s path t in
      kept-Created s.pid s.pid_start v d (write_metadata a (encode v) d)
        (write_metadata-Wrote a (encode v) d) (refl, refl, refl)

  create_unowned-Created :
      (a : Answers) (s : Start) (path : String × Bool) (t : TerminalDoc) (d : Dir)
      (o : Option TerminalDoc)
      → Created s.pid s.pid_start (create_unowned encode decode a s path (t, d) o)
  create_unowned-Created a s path t d (some u) = tt
  create_unowned-Created a s (path, true) t d none = created-Created a s path t d none
  create_unowned-Created a s (path, false) t d none = created-Created a s path t d s.mkdir

  create_metadata-Created :
      (join : List String → String) (a : Answers) (s : Start) (probe : Probe) (t : TerminalDoc)
      (d : Dir)
      → Created s.pid s.pid_start (create_metadata encode decode join a s probe (t, d))
  unfolding create_metadata
  create_metadata-Created join a s probe t d =
      create_unowned-Created a s (dir_of join t) t d
        (live_metadata_owner encode decode (dir_of join t).0 d probe)

  live_owner :
      (pid : ℤ) (start : ℕ) (probe : Probe) (path : String) (d : Dir)
      → is_empty path ≡ false
      → is_instance_alive pid start probe ≡ true
      → FileOf pid start d
      → (t : TerminalDoc) × (live_metadata_owner encode decode path d probe ≡ some t)
  unfolding live_metadata_owner
  live_owner pid start probe path d h alive (b, (t, (f, (g, (p, s, e))))) =
      (t, rw (h, f, g, e, p, s, alive) refl)

  -- Once a start has written its metadata and gone on with updates that do not say that the terminal
  -- has exited, each of which may fail at any point, another start in the same directory is refused
  -- with ErrTerminalIDInUse and changes nothing, as long as the first process is found alive.
  pub create_metadata-refused :
      (join : List String → String) (a a2 : Answers) (s s2 : Start) (probe probe2 : Probe)
      (t t2 : TerminalDoc) (d : Dir) (x : State) (us : List Update)
      → create_metadata encode decode join a s probe (t, d) ≡ (x, none)
      → NoneExits us
      → is_empty (dir_of join t2).0 ≡ false
      → is_instance_alive s.pid s.pid_start probe2 ≡ true
      → create_metadata encode decode join a2 s2 probe2 (t2, (updates encode decode us x).1)
        ≡ ((t2, (updates encode decode us x).1), some (sentinel err_terminal_id_in_use))
  unfolding create_metadata
  create_metadata-refused join a a2 s s2 probe probe2 t t2 d x us first n path alive =
      let owned : Owns s.pid s.pid_start x =
        subst (Created s.pid s.pid_start) first (create_metadata-Created join a s probe t d) in
      let (i, f) = updates-Owns s.pid s.pid_start us x n owned in
      let found =
        live_owner s.pid s.pid_start probe2 (dir_of join t2).0 (updates encode decode us x).1 path
          alive f in
      ap (create_unowned encode decode a2 s2 (dir_of join t2) (t2, (updates encode decode us x).1))
        found.1
