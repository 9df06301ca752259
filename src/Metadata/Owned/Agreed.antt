-- ===== src/Metadata/Owned/Agreed.antt =====
-- The state in memory is the state on disk.
use sbsh.Base.{
  ℕ, ◌≡◌, ◌∙◌, ◌⊎◌, inr, Option, none, some, List, [], ◌∷◌, ◌++◌, String, Bool, true, false,
}
use sbsh.Errdefs.{Error}
use sbsh.Metadata.{Dir, Answers, write_metadata}
use sbsh.Metadata.Owned.{
  dir_of, Start, TerminalDoc, with_state, with_attachers, started, State, Update, to_state,
  to_attachers, live_metadata_owner, kept, created, create_unowned, create_metadata, committed,
  update_terminal_state, update_terminal_attachers, update, updates,
}
use sbsh.Metadata.Owned.Refused.{Wrote, ReadsBack, write_metadata-Wrote}
use sbsh.Process.{Probe}
use sbsh.Reconcile.{TerminalStatusMode}
use mathlib.Core.Path.{subst}

module _ (encode : TerminalDoc → Error ⊎ List ℕ) (decode : List ℕ → Option TerminalDoc)
    (decode-encode : (t : TerminalDoc) (b : List ℕ)
      → encode t ≡ inr b
      → ReadsBack decode t (b ++ 10 ∷ [])) where
  -- The file decodes to a document in this state.
  abbrev pub FileIn : TerminalStatusMode → Dir → Type 0
  FileIn m d =
      (b : List ℕ) × ((t : TerminalDoc) × ((d.file ≡ some b)
          × ((decode b ≡ some t) × (t.status.state ≡ m))))

  -- The file and the memory are in one state.
  abbrev pub Agrees : State → Type 0
  Agrees (t, d) = FileIn t.status.state d

  FileIn-written :
      (t : TerminalDoc) (b : List ℕ) (d : Dir)
      → encode t ≡ inr b
      → d.file ≡ some (b ++ 10 ∷ [])
      → FileIn t.status.state d
  FileIn-written t b d e f =
      let (u, (g, (p, s, m))) = decode-encode t b e in (b ++ 10 ∷ [], (u, (f, (g, m))))

  FileIn-left :
      (m : TerminalStatusMode) (old d : Dir) → d.file ≡ old.file → FileIn m old → FileIn m d
  FileIn-left m old d h (b, (u, (g, rest))) = (b, (u, (h ∙ g, rest)))

  committed-Agrees :
      (m : TerminalStatusMode) (t : TerminalDoc) (old : Dir) (r : Dir × Option Error)
      → Wrote (encode (with_state m t)) old r
      → FileIn t.status.state old
      → Agrees (committed encode decode m t r).0
  committed-Agrees m t old (d, none) (b, (e, f)) i = FileIn-written (with_state m t) b d e f
  committed-Agrees m t old (d, some x) f i = FileIn-left t.status.state old d f i

  kept-Agrees :
      (t : TerminalDoc) (old : Dir) (r : Dir × Option Error)
      → Wrote (encode t) old r
      → FileIn t.status.state old
      → Agrees (kept encode decode t r).0
  kept-Agrees t old (d, none) (b, (e, f)) i = FileIn-written t b d e f
  kept-Agrees t old (d, some x) f i = FileIn-left t.status.state old d f i

  update-Agrees : (u : Update) (x : State) → Agrees x → Agrees (update encode decode u x).0
  unfolding update_terminal_state update_terminal_attachers
  update-Agrees (to_state a m) (t, d) f =
      let e = encode (with_state m t) in
      committed-Agrees m t d (write_metadata a e d) (write_metadata-Wrote a e d) f
  update-Agrees (to_attachers a ids) (t, d) f =
      let v = with_attachers ids t in
      kept-Agrees v d (write_metadata a (encode v) d) (write_metadata-Wrote a (encode v) d) f

  pub updates-Agrees :
      (us : List Update) (x : State) → Agrees x → Agrees (updates encode decode us x)
  unfolding updates
  updates-Agrees [] x h = h
  updates-Agrees (u ∷ us) x h = updates-Agrees us (update encode decode u x).0 (update-Agrees u x h)

  -- After a start that succeeds, the two agree.
  abbrev Starts : State × Option Error → Type 0
  Starts (x, none) = Agrees x
  Starts (x, some e) = Unit

  kept-Starts :
      (t : TerminalDoc) (old : Dir) (r : Dir × Option Error)
      → Wrote (encode t) old r
      → Starts (kept encode decode t r)
  kept-Starts t old (d, none) (b, (e, f)) = FileIn-written t b d e f
  kept-Starts t old (d, some x) w = tt

  created-Starts :
      (a : Answers) (s : Start) (path : String) (t : TerminalDoc) (d : Dir) (o : Option Error)
      → Starts (created encode decode a s path (t, d) o)
  created-Starts a s path t d (some e) = tt
  created-Starts a s path t d none =
      let v = started s path t in
      kept-Starts v d (write_metadata a (encode v) d) (write_metadata-Wrote a (encode v) d)

  create_unowned-Starts :
      (a : Answers) (s : Start) (path : String × Bool) (t : TerminalDoc) (d : Dir)
      (o : Option TerminalDoc)
      → Starts (create_unowned encode decode a s path (t, d) o)
  create_unowned-Starts a s path t d (some u) = tt
  create_unowned-Starts a s (path, true) t d none = created-Starts a s path t d none
  create_unowned-Starts a s (path, false) t d none = created-Starts a s path t d s.mkdir

  create_metadata-Starts :
      (join : List String → String) (a : Answers) (s : Start) (probe : Probe) (t : TerminalDoc)
      (d : Dir)
      → Starts (create_metadata encode decode join a s probe (t, d))
  unfolding create_metadata
  create_metadata-Starts join a s probe t d =
      create_unowned-Starts a s (dir_of join t) t d
        (live_metadata_owner encode decode (dir_of join t).0 d probe)

  -- Once a start has written its metadata, after any updates one after the other, each of which may
  -- fail at any point, the file can be decoded and its state is the one in memory.
  pub create_metadata-FileIn :
      (join : List String → String) (a : Answers) (s : Start) (probe : Probe) (t : TerminalDoc)
      (d : Dir) (x : State) (us : List Update)
      → create_metadata encode decode join a s probe (t, d) ≡ (x, none)
      → FileIn (updates encode decode us x).0.status.state (updates encode decode us x).1
  create_metadata-FileIn join a s probe t d x us first =
      updates-Agrees us x (subst Starts first (create_metadata-Starts join a s probe t d))
