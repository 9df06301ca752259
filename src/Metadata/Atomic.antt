-- ===== src/Metadata/Atomic.antt =====
-- A metadata file is replaced as a whole.
use sbsh.Base.{
  ℕ, ◌≡◌, refl, ◌⊎◌, inl, inr, Option, none, some, List, [], ◌∷◌, String, ap, arith, true,
}
use sbsh.Errdefs.{Error}
use sbsh.Metadata.{
  Dir, Answers, Written, unlinked, after, renamed, written, atomic_write_created,
  atomic_write_opened, atomic_write_file,
}

-- The file is as it was, or holds all of the content, synced.
abbrev pub Whole : Dir → List ℕ → Dir → Type 0
Whole old content d =
    ((d.file ≡ old.file) × (d.file_synced ≡ old.file_synced))
    ⊎ ((d.file ≡ some content) × (d.file_synced ≡ true))

abbrev pub AllWhole : Dir → List ℕ → List Dir → Type 0
AllWhole old content [] = Unit
AllWhole old content (d ∷ ds) = Whole old content d × AllWhole old content ds

-- The last state: the new file when there is no error, and otherwise the old one.
abbrev pub Settled : Dir → List ℕ → Dir × Option Error → Type 0
Settled old content (d, none) = (d.file ≡ some content) × (d.file_synced ≡ true)
Settled old content (d, some e) = (d.file ≡ old.file) × (d.file_synced ≡ old.file_synced)

abbrev pub Replaces : Dir → List ℕ → Written → Type 0
Replaces old content (ds, r) = AllWhole old content ds × Settled old content r

-- The file is the old one.
abbrev pub IsLeft : Dir → Dir → Type 0
IsLeft old d = (d.file ≡ old.file) × (d.file_synced ≡ old.file_synced)

unlinked-IsLeft : (old d : Dir) (u : Option Error) → IsLeft old d → IsLeft old (unlinked u d)
unlinked-IsLeft old d (some e) h = h
unlinked-IsLeft old d none h = h

-- The file is still the old one: a failing call leaves it, and a succeeding one goes on.
after-Replaces :
    (old : Dir) (content : List ℕ) (u o : Option Error) (msg : String) (d : Dir) (k : Dir → Written)
    → IsLeft old d
    → (o ≡ none → Replaces old content (k d))
    → Replaces old content (after u o msg d k)
after-Replaces old content u (some e) msg d k h f = ((inl h, tt), unlinked-IsLeft old d u h)
after-Replaces old content u none msg d k h f = let (a, s) = f refl in ((inl h, a), s)

renamed-Replaces :
    (old : Dir) (content : List ℕ) (u o : Option Error) (d : Dir)
    → IsLeft old d
    → d.tmp ≡ some content
    → d.tmp_synced ≡ true
    → Replaces old content (renamed u o d)
renamed-Replaces old content u (some e) d h t s = ((inl h, tt), unlinked-IsLeft old d u h)
renamed-Replaces old content u none d h t s = ((inr (t, s), tt), (t, s))

written_all :
    (o : Option Error) (n : ℕ) (content : List ℕ) → o ≡ none → written o n content ≡ content
written_all none n content h = refl
written_all (some e) n content h = absurd (ground (arith, h))

created-Replaces :
    (a : Answers) (content : List ℕ) (d : Dir)
    → Replaces d content (atomic_write_created a content d)
created-Replaces a content d =
    after-Replaces d content a.unlink a.chmod "chmod" _ _ (refl, refl)
      λ c.
        after-Replaces d content a.unlink a.write "write" _ _ (refl, refl)
          λ w.
            after-Replaces d content a.unlink a.sync "fsync" _ _ (refl, refl)
              λ s.
                after-Replaces d content a.unlink a.close "close" _ _ (refl, refl)
                  λ l.
                    renamed-Replaces d content a.unlink a.rename _ (refl, refl)
                      (ap some (written_all a.write a.short content w)) refl

opened-Replaces :
    (o : Option Error) (a : Answers) (content : List ℕ) (d : Dir)
    → Replaces d content (atomic_write_opened o a content d)
opened-Replaces (some e) a content d = (tt, (refl, refl))
opened-Replaces none a content d = created-Replaces a content d

pub write-Settled :
    (a : Answers) (content : List ℕ) (d : Dir) → Settled d content (atomic_write_file a content d).1
unfolding atomic_write_file
write-Settled a content d = (opened-Replaces a.create a content d).1

-- No temporary file is there, or its removal failed.
abbrev pub IsTidy : Option Error → Dir → Type 0
IsTidy u d = (d.tmp ≡ none) ⊎ ((x : Error) × (u ≡ some x))

leave-IsTidy : (u : Option Error) (d : Dir) → IsTidy u (unlinked u d)
leave-IsTidy (some e) d = inr (e, refl)
leave-IsTidy none d = inl refl

after-IsTidy :
    (u o : Option Error) (msg : String) (d : Dir) (k : Dir → Written)
    → IsTidy u (k d).1.0
    → IsTidy u (after u o msg d k).1.0
after-IsTidy u (some e) msg d k h = leave-IsTidy u d
after-IsTidy u none msg d k h = h

renamed-IsTidy : (u o : Option Error) (d : Dir) → IsTidy u (renamed u o d).1.0
renamed-IsTidy u (some e) d = leave-IsTidy u d
renamed-IsTidy u none d = inl refl

opened-IsTidy :
    (o : Option Error) (a : Answers) (content : List ℕ) (d : Dir)
    → d.tmp ≡ none
    → IsTidy a.unlink (atomic_write_opened o a content d).1.0
opened-IsTidy (some e) a content d h = inl h
opened-IsTidy none a content d h = after-IsTidy a.unlink a.chmod "chmod" _ _ (
    after-IsTidy a.unlink a.write "write" _ _ (
      after-IsTidy a.unlink a.sync "fsync" _ _
        (after-IsTidy a.unlink a.close "close" _ _ (renamed-IsTidy a.unlink a.rename _))))

-- Whatever the calls answer, in every state of the directory that a reader or a crash can meet while
-- `atomicWriteFile` runs the file is the old one, as durable as it was, or has all of the new
-- content, synced to the disk. In the end it is the new one just where there is no error, and no
-- temporary file is left unless its removal fails.
pub atomic_write_file-Replaces :
    (a : Answers) (content : List ℕ) (d : Dir)
    → d.tmp ≡ none
    → Replaces d content (atomic_write_file a content d)
      × IsTidy a.unlink (atomic_write_file a content d).1.0
unfolding atomic_write_file
atomic_write_file-Replaces a content d h =
    (opened-Replaces a.create a content d, opened-IsTidy a.create a content d h)
