-- ===== src/Base/Text.antt =====
-- Go's `s == ""`.
use Prim.Native.String.{String}
use mathlib.Core.Bool.{Bool, true, false}

unfoldable pub is_empty : String → Bool
is_empty String.[] = true
is_empty (String.◌∷◌ c s) = false
