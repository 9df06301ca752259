-- ===== src/Copier.antt =====
-- internal/dualcopier/copier.go: `readWriteBytes`, the copy of one read through a filter to a writer.
-- The reader's result is an argument, the writer a function on a state of its own, and the filter a
-- function on its state. The two loops take fuel; `none` is a loop that runs for ever.
pub mod Total
pub mod Escaped
pub mod Chunks
mod Tests
use sbsh.Base.{
  ℕ, zero, suc, ◌≡◌, Bool, true, false, ◌&&◌, Option, none, some, List, [], ◌∷◌, ◌==◌, ltb,
  if◌then◌else◌, length, take, drop,
}
use sbsh.Errdefs.{Error, message, context}
use sbsh.Filter.{Chunk}

-- `io.Writer.Write`: the new state, the count of bytes taken and the error.
abbrev pub Writer : Type 0 → Type 0
Writer W = W → List ℕ → W × ℕ × Option Error

-- `filter.Filter.Process` on the window that it may read.
abbrev pub Filter : Type 0 → Type 0
Filter S = S → List ℕ → S × Chunk × Option Error

-- One round of the loop over short writes; `rest` is the loop after it.
unfoldable pub wrote :
    {W : Type 0} → W → ℕ → Option Error → Option (W × Option Error) → Option (W × Option Error)
wrote w m (some e) rest = some (w, some (context "could not write stdin->socket" e))
wrote w m none rest =
    if m == 0 then some (w, some (message "short write with no progress")) else rest

module _ {W : Type 0} (write : Writer W) where
  -- The loop `for total < len(toWrite)`.
  unfoldable pub write_all : ℕ → W → List ℕ → Option (W × Option Error)
  unfolding wrote
  write_all fuel w [] = some (w, none)
  write_all zero w (b ∷ p) = none
  write_all (suc fuel) w (b ∷ p) =
      let (w', m, werr) = write w (b ∷ p) in wrote w' m werr (write_all fuel w' (drop m (b ∷ p)))

-- Without a filter the remainder is written in one go.
abbrev pub unfiltered : List ℕ → Chunk
unfiltered p = record { out = some p; nwrite = length p; ncons = length p }

abbrev pub call_filter : {S : Type 0} → Option (Filter S) → Filter S
call_filter (some f) s p = f s p
call_filter none s p = (s, unfiltered p, none)

-- The fallback that forwards one byte when the filter consumes and writes nothing.
abbrev pub progress : ℕ → Chunk → Chunk
progress b c =
    if c.ncons == 0 && c.nwrite == 0
    then record { out = some (b ∷ []); nwrite = 1; ncons = 1 }
    else c

-- The slice to write, or the error when `nwrite` runs past it.
abbrev pub to_write : Chunk → List ℕ → Option (List ℕ)
to_write c p = elim c.out [
  | some o ↦ if ltb (length o) c.nwrite then none else some (take c.nwrite o)
  | none ↦ if ltb (length p) c.nwrite then none else some (take c.nwrite p)
]

abbrev pub bad_nwrite : Chunk → Error
bad_nwrite c = elim c.out [
  | some o ↦ message "filter nwrite exceeds out length"
  | none ↦ message "filter nwrite exceeds available input"
]

-- The error of the read is reported only after the bytes that came with it are copied.
abbrev pub read_error : Option Error → Option Error
read_error none = none
read_error (some e) = some (context "could not read stdin->socket" e)

abbrev pub finish :
    {A B : Type 0} → Option Error → Option (A × B × Option Error) → Option (A × B × Option Error)
finish rerr none = none
finish rerr (some (s, w, some e)) = some (s, w, some e)
finish rerr (some (s, w, none)) = some (s, w, read_error rerr)

-- What `readWriteBytes` returns: the states of the filter and of the writer, and the error.
abbrev pub Copied : Type 0 → Type 0 → Type 0
Copied S W = Option (S × W × Option Error)

module _ {W S : Type 0} where
  -- The writes of one chunk are done; `next` goes on with the bytes that are left.
  unfoldable pub delivered : S → Option (W × Option Error) → (W → Copied S W) → Copied S W
  delivered s none next = none
  delivered s (some (w, some e)) next = some (s, w, some e)
  delivered s (some (w, none)) next = next w

  unfoldable pub deliver :
      Writer W → S → W → Error → Option (List ℕ) → (W → Copied S W) → Copied S W
  unfolding delivered
  deliver write s w bad none next = some (s, w, some bad)
  deliver write s w bad (some out) next = delivered s (write_all write (length out) w out) next

  -- The chunk `c` of the bytes `p`. Where nothing is to be written the loop just advances.
  unfoldable pub filtered :
      Writer W → S → W → List ℕ → Chunk → Option Error → (W → Copied S W) → Copied S W
  unfolding deliver
  filtered write s w p c (some e) next = some (s, w, some e)
  filtered write s w p c none next =
      if c.nwrite == 0 then next w else deliver write s w (bad_nwrite c) (to_write c p) next

module _ {W S : Type 0} (write : Writer W) (filter : Option (Filter S)) where
  -- The loop `for written < n`, on the bytes `buf[written:n]` that are left.
  unfoldable pub copy_loop : ℕ → S → W → List ℕ → Copied S W
  unfolding filtered
  copy_loop fuel s w [] = some (s, w, none)
  copy_loop zero s w (b ∷ p) = none
  copy_loop (suc fuel) s w (b ∷ p) =
      let (s', c0, ferr) = call_filter filter s (b ∷ p) in
      let c = progress b c0 in
      filtered write s' w (b ∷ p) c ferr (λ w'. copy_loop fuel s' w' (drop c.ncons (b ∷ p)))

  -- `readWriteBytes` on what one `Read` returned.
  unfoldable pub read_write_bytes : S → W → List ℕ → Option Error → Copied S W
  unfolding copy_loop
  read_write_bytes s w p rerr = finish rerr (copy_loop (length p) s w p)

-- One round of the loop of `runReadWriter`: the context's error when it is done, else what the
-- `Read` returned.
pub record Round : Type 0 where
  pub ctx_err : Option Error
  pub bytes : List ℕ
  pub read_err : Option Error

-- How `runReadWriter` stands: still in its loop, or returned with an error, with a call of
-- `errFunc` or without.
pub data Ran : Type 0 where
  running : Ran
  ended : Error → Bool → Ran

module _ {W S : Type 0} where
  -- A round that copied: its error ends the loop, else `next` goes on.
  unfoldable pub copied : Copied S W → (S → W → Option (S × W × Ran)) → Option (S × W × Ran)
  copied none next = none
  copied (some (s, w, some e)) next = some (s, w, ended e true)
  copied (some (s, w, none)) next = next s w

module _ {W S : Type 0} (write : Writer W) (filter : Option (Filter S)) where
  unfoldable pub run_read_writer : List Round → S → W → Option (S × W × Ran)
  unfolding copied
  run_read_writer [] s w = some (s, w, running)
  run_read_writer (r ∷ rs) s w = elim r.ctx_err [
    | some e ↦ some (s, w, ended e false)
    | none ↦ copied (read_write_bytes write filter s w r.bytes r.read_err) (run_read_writer rs)
  ]
