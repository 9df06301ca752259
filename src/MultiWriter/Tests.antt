-- ===== src/MultiWriter/Tests.antt =====
-- A fan-out to three writers of which the second fails.
use sbsh.Base.{
  ℕ, suc, ◌<◌, ◌≡◌, ◌↔◌, ◌==◌, Option, none, some, List, [], ◌∷◌, length, if◌then◌else◌,
}
use sbsh.Errdefs.{Error, message}
use sbsh.MultiWriter.{err_all_writers_failed, write}
use sbsh.MultiWriter.FanOut.{put_all, failures, failing, without, write-fans_out}

abbrev put : ℕ → ℕ → List ℕ → ℕ × ℕ × Option Error
put w s p = if w == 2 then (s, 0, some (message "gone")) else (suc s, length p, none)

abbrev writers : List ℕ
writers = 1 ∷ 2 ∷ 3 ∷ []

abbrev failed : List ℕ
failed = failing put writers (failures put writers 0 (7 ∷ []))

write-fans_out_example :
    ((write put writers 0 (7 ∷ [])).store ≡ put_all put writers 0 (7 ∷ []))
    × ((write put writers 0 (7 ∷ [])).writers ≡ without failed writers)
    × (((write put writers 0 (7 ∷ [])).error ≡ some err_all_writers_failed)
        ↔ (0 < length writers × (length failed ≡ length writers)))
write-fans_out_example = write-fans_out put writers 0 (7 ∷ [])
