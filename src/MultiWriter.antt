-- ===== src/MultiWriter.antt =====
-- internal/terminal/terminalrunner/terminal_multiwriter.go: the fan-out of the terminal's output.
-- A writer is a number, its identity; `put` is `w.Write` on the state of all writers.
pub mod FanOut
mod Tests
use sbsh.Base.{
  ℕ, Bool, true, false, not, ◌&&◌, Option, none, some, List, [], ◌∷◌, ◌++◌, ◌==◌, ltb, length,
  if◌then◌else◌,
}
use sbsh.Errdefs.{Error, message}

abbrev pub err_all_writers_failed : Error
err_all_writers_failed = message "all writers failed"

-- `Add`, and `Remove`, which drops every entry of the writer.
unfoldable pub add : ℕ → List ℕ → List ℕ
add w ws = ws ++ w ∷ []

unfoldable pub remove : ℕ → List ℕ → List ℕ
remove w [] = []
remove w (x ∷ ws) = let rest = remove w ws in if not (x == w) then x ∷ rest else rest

abbrev pub remove_all : List ℕ → List ℕ → List ℕ
remove_all [] ws = ws
remove_all (w ∷ failed) ws = remove_all failed (remove w ws)

module _ {S : Type 0} (put : ℕ → S → List ℕ → S × ℕ × Option Error) where
  abbrev pub noted : ℕ → Option Error → S × List ℕ → S × List ℕ
  noted w none r = r
  noted w (some e) (s, failed) = (s, w ∷ failed)

  -- The loop over the snapshot: the state of the writers and those that failed, in order. A short
  -- write is only logged.
  unfoldable pub write_each : List ℕ → S → List ℕ → S × List ℕ
  write_each [] s p = (s, [])
  write_each (w ∷ ws) s p = let (s', n, e) = put w s p in noted w e (write_each ws s' p)

  -- What `Write` leaves and returns.
  pub record Written : Type 0 where
    pub writers : List ℕ
    pub store : S
    pub n : ℕ
    pub error : Option Error

  unfoldable pub write : List ℕ → S → List ℕ → Written
  unfolding write_each
  write ws s p =
      let (s', failed) = write_each ws s p in
      let all = ltb 0 (length ws) && length failed == length ws in
      record {
        writers = remove_all failed ws;
        store = s';
        n = if all then 0 else length p;
        error = if all then some err_all_writers_failed else none;
      }
