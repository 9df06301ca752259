-- ===== src/Scan/Tests.antt =====
-- Two documents and a file that cannot be decoded.
use sbsh.Base.{◌≡◌, refl, Bool, inr, String, List, [], ◌∷◌, ◌&&◌, not}
use sbsh.Errdefs.{message}
use sbsh.Scan.{File, undecodable, loaded, scan_files, insert_stable, sort_stable, scan, find_by}
use sbsh.Scan.Found.{Finds, loaded_of, undisturbed, find_by-Finds}
use text.Mathlib.Text.{◌==◌}

record Named : Type 0 where
  id : String
  name : String

abbrev ids : Named → String
ids d = d.id

abbrev names : Named → String
names d = d.name

-- The order of the strings that the test uses.
abbrev less : String → String → Bool
less a b = (a == "a") && not (b == "a")

abbrev files : List (File Named)
files =
    loaded (record { id = "b"; name = "two" })
    ∷ undecodable (message "unexpected end of JSON input")
    ∷ loaded (record { id = "a"; name = "one" })
    ∷ []

scanned :
    scan ids names less (inr (undisturbed files))
    ≡ inr (record { id = "a"; name = "one" } ∷ record { id = "b"; name = "two" } ∷ [])
unfolding scan scan_files sort_stable insert_stable
scanned = refl

find_by-Finds_example :
    Finds names "two"
      (loaded_of files)
      (find_by ids names less names "two" "not found" (inr (undisturbed files)))
find_by-Finds_example = find_by-Finds ids names less names "two" "not found" files
