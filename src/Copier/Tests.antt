-- ===== src/Copier/Tests.antt =====
-- The copy loop's theorems at inputs, with a writer that takes two bytes at a time.
use sbsh.Base.{ℕ, Option, none, some, List, [], ◌∷◌, ◌++◌, take}
use sbsh.Errdefs.{message}
use sbsh.Copier.{Writer, Filter, read_write_bytes}
use sbsh.Copier.Total.{Returns, read_write_bytes-Returns}

abbrev two_at_a_time : Writer (List ℕ)
two_at_a_time w p = (w ++ take 2 p, 2, none)

abbrev typed : List ℕ
typed = b'l' ∷ 0x1d ∷ 0x1d ∷ b's' ∷ []

abbrev no_filter : Option (Filter ℕ)
no_filter = none

read_write_bytes-Returns_example :
    Returns (read_write_bytes two_at_a_time no_filter 0 [] typed (some (message "EOF")))
read_write_bytes-Returns_example =
    read_write_bytes-Returns two_at_a_time no_filter 0 [] typed (some (message "EOF")) tt
