-- ===== src/Metadata.antt =====
-- internal/shared/helpers.go: the writing of a metadata file, and the metadata of a terminal
-- (internal/terminal/terminalrunner/metadata.go) over it, in the child module Owned. What the system
-- calls answer is an argument, and so are the JSON encoder and decoder.
pub mod Atomic
pub mod Owned
mod Tests
use sbsh.Base.{
  ℕ, Bool, true, false, ◌⊎◌, inl, inr, Option, none, some, List, [], ◌∷◌, ◌++◌, String, take,
}
use sbsh.Errdefs.{Error, context}

-- A directory's metadata.json and the temporary file of a write beside it, each with whether its
-- content is synced: what a crash keeps. `os.CreateTemp` takes a name that no file has.
pub record Dir : Type 0 where
  pub file : Option (List ℕ)
  pub file_synced : Bool
  pub tmp : Option (List ℕ)
  pub tmp_synced : Bool

-- What the calls answer, in their order; a failing write has written `short` bytes.
pub record Answers : Type 0 where
  pub create : Option Error
  pub chmod : Option Error
  pub write : Option Error
  pub short : ℕ
  pub sync : Option Error
  pub close : Option Error
  pub rename : Option Error
  pub unlink : Option Error

-- The states of the directory that a reader or a crash can meet, and the last with the error.
abbrev pub Written : Type 0
Written = List Dir × (Dir × Option Error)

abbrev pub seen : Dir → Written → Written
seen d (ds, r) = (d ∷ ds, r)

-- The deferred removal of the temporary file, whose answer the code drops.
abbrev pub unlinked : Option Error → Dir → Dir
unlinked (some e) d = d
unlinked none d = record d { tmp = none }

abbrev pub leave : Option Error → Dir → Option Error → Written
leave unlink d e = (d ∷ [], (unlinked unlink d, e))

-- A call that fails ends the function.
abbrev pub after : Option Error → Option Error → String → Dir → (Dir → Written) → Written
after unlink (some e) msg d k = leave unlink d (some (context msg e))
after unlink none msg d k = seen d (k d)

-- Behind a rename the temporary file is gone, and its removal finds none.
abbrev pub renamed : Option Error → Option Error → Dir → Written
renamed unlink (some e) d = leave unlink d (some (context "rename" e))
renamed unlink none d =
    leave none (record { file = d.tmp; file_synced = d.tmp_synced; tmp = none; tmp_synced = false })
      none

-- The bytes that a write has written.
abbrev pub written : Option Error → ℕ → List ℕ → List ℕ
written none n content = content
written (some e) n content = take n content

abbrev pub atomic_write_created : Answers → List ℕ → Dir → Written
atomic_write_created a content d =
    after a.unlink a.chmod "chmod" (record d { tmp = some []; tmp_synced = false })
      λ d.
        after a.unlink a.write "write" (record d { tmp = some (written a.write a.short content) })
          λ d. after a.unlink a.sync "fsync" d λ d.
            after a.unlink a.close "close" (record d { tmp_synced = true })
              λ d. renamed a.unlink a.rename d

abbrev pub atomic_write_opened : Option Error → Answers → List ℕ → Dir → Written
atomic_write_opened (some e) a content d = ([], (d, some e))
atomic_write_opened none a content d = atomic_write_created a content d

-- `atomicWriteFile`; the directory's own sync after the rename, whose answer
-- is dropped, changes no content.
unfoldable pub atomic_write_file : Answers → List ℕ → Dir → Written
atomic_write_file a content d = atomic_write_opened a.create a content d

abbrev pub tag_write : Dir × Option Error → Dir × Option Error
tag_write (d, none) = (d, none)
tag_write (d, some e) = (d, some (context "write" e))

-- `WriteMetadata`, of the document that the encoder gives.
unfoldable pub write_metadata : Answers → Error ⊎ List ℕ → Dir → Dir × Option Error
unfolding atomic_write_file
write_metadata a (inl e) d = (d, some (context "marshal" e))
write_metadata a (inr content) d = tag_write (atomic_write_file a (content ++ 10 ∷ []) d).1
