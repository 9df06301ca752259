-- ===== src/Filter.antt =====
-- internal/filter/escape.go: the detach filter on the stdin stream, `ClientEscapeFilter`.
-- A byte is a number. The `OnDetach` callback is optional; a call of it is counted.
pub mod Bytes
pub mod Progress
pub mod Stream
pub mod Paste
mod Tests
use sbsh.Base.{
  ℕ, ◌+◌, Bool, true, false, ◌&&◌, not, Option, none, some, List, [], ◌∷◌, ◌==◌, leb, if◌then◌else◌,
  length, take,
}
use sbsh.Filter.Bytes.{index_byte, index}

-- `on_detach` says whether a callback is set; `detached` counts its calls.
pub record ClientEscapeFilter : Type 0 where
  pub esc : ℕ
  pub paste_aware : Bool
  pub on_detach : Bool
  pub saw_esc : Bool
  pub paste_mode : Bool
  pub detached : ℕ

-- The results of `Process` other than its always nil error.
pub record Chunk : Type 0 where
  pub out : Option (List ℕ)
  pub nwrite : ℕ
  pub ncons : ℕ

abbrev pub ctrl_rbracket : ℕ
ctrl_rbracket = 0x1d

abbrev pub bel : ℕ
bel = 0x07

abbrev pub default_esc : ℕ → ℕ
default_esc esc = if esc == 0 then ctrl_rbracket else esc

unfoldable pub new_client_escape_filter : ℕ → Bool → Bool → ClientEscapeFilter
new_client_escape_filter esc paste_aware on_detach = record {
  esc = default_esc esc;
  paste_aware = paste_aware;
  on_detach = on_detach;
  saw_esc = false;
  paste_mode = false;
  detached = 0;
}

-- ESC [ 2 0 0 ~ and ESC [ 2 0 1 ~
abbrev pub paste_start : List ℕ
paste_start = 0x1b ∷ b'[' ∷ b'2' ∷ b'0' ∷ b'0' ∷ b'~' ∷ []

abbrev pub paste_end : List ℕ
paste_end = 0x1b ∷ b'[' ∷ b'2' ∷ b'0' ∷ b'1' ∷ b'~' ∷ []

abbrev pub index_of : List ℕ → List ℕ → Option ℕ
index_of s [] = some 0
index_of s (p ∷ ps) = index s (p ∷ ps)

-- `return nil, n, n, nil`
abbrev pub through : ℕ → Chunk
through n = record { out = none; nwrite = n; ncons = n }

abbrev pub emit : ℕ → Chunk
emit b = record { out = some (b ∷ []); nwrite = 1; ncons = 1 }

-- `iEsc < 0 || jStart <= iEsc`
abbrev pub not_after : ℕ → Option ℕ → Bool
not_after j none = true
not_after j (some i) = leb j i

abbrev pub call_on_detach : ClientEscapeFilter → ClientEscapeFilter
call_on_detach e = if e.on_detach then record e { detached = e.detached + 1 } else e

-- `buf[0] == esc` holds of a position 0 found by `IndexByte`.
at_esc : ClientEscapeFilter → List ℕ → ClientEscapeFilter × Chunk
at_esc e buf =
    if e.saw_esc
    then (call_on_detach (record e { saw_esc = false }), emit bel)
    else (record e { saw_esc = true }, record { out = some (take 1 buf); nwrite = 1; ncons = 1 })

abbrev clear_pending : ClientEscapeFilter → ℕ → List ℕ → ClientEscapeFilter
clear_pending e esc [] = e
clear_pending e esc (b ∷ rest) =
    if e.saw_esc && not (b == esc) then record e { saw_esc = false } else e

adjacent : ClientEscapeFilter → ℕ → List ℕ → Option ℕ → ClientEscapeFilter × Chunk
unfolding at_esc
adjacent e esc buf none = (e, through (length buf))
adjacent e esc buf (some i) = if i == 0 then at_esc e buf else (e, through i)

-- The adjacency part of `Process`, from the pending check on.
escapes : ClientEscapeFilter → ℕ → List ℕ → ClientEscapeFilter × Chunk
unfolding adjacent
escapes e esc buf = adjacent (clear_pending e esc buf) esc buf (index_byte buf esc)

-- While in paste mode.
pasting : ClientEscapeFilter → List ℕ → Option ℕ → ClientEscapeFilter × Chunk
pasting e buf none = (e, through (length buf))
pasting e buf (some j) =
    (record e { paste_mode = false; saw_esc = false }, through (j + length paste_end))

-- Not in paste mode: enter it when the start marker stands before any escape byte.
starting : ClientEscapeFilter → ℕ → List ℕ → Option ℕ → ClientEscapeFilter × Chunk
unfolding escapes
starting e esc buf none = escapes e esc buf
starting e esc buf (some j) =
    if not_after j (index_byte buf esc)
    then (record e { paste_mode = true; saw_esc = false }, through (j + length paste_start))
    else escapes e esc buf

-- `Process` on the window `buf[:n]`, which it never looks beyond.
pub process_window : ClientEscapeFilter → List ℕ → ClientEscapeFilter × Chunk
unfolding pasting starting escapes
process_window e [] = (e, through 0)
process_window e (b ∷ rest) =
    let buf = b ∷ rest in
    let esc = default_esc e.esc in
    if e.paste_aware
    then (if e.paste_mode
        then pasting e buf (index_of buf paste_end)
        else starting e esc buf (index_of buf paste_start))
    else escapes e esc buf

unfoldable pub process : ClientEscapeFilter → List ℕ → ℕ → ClientEscapeFilter × Chunk
unfolding process_window
process e buf n = process_window e (take n buf)
