-- ===== src/Filter/Tests.antt =====
-- Runs of the escape filter, and its theorems at inputs.
use sbsh.Base.{true, List, [], ◌∷◌, arith}
use sbsh.Filter.{ClientEscapeFilter, new_client_escape_filter, process}
use sbsh.Filter.Progress.{IsFair, process-IsFair}

abbrev keystrokes : List Prim.Native.Nat.ℕ
keystrokes = b'l' ∷ b's' ∷ 0x1d ∷ []

abbrev fresh : ClientEscapeFilter
fresh = new_client_escape_filter 0 true true

process-IsFair_example : IsFair 3 (process fresh keystrokes 3).1
process-IsFair_example = process-IsFair fresh keystrokes 3 (omega arith) (omega arith)
