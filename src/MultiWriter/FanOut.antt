-- ===== src/MultiWriter/FanOut.antt =====
-- What one Write of the fan-out does.
use sbsh.Base.{
  ℕ, ◌<◌, ◌≡◌, ◌↔◌, refl, sym, ap, ◌∙◌, Bool, true, false, ◌||◌, Option, none, some, List, [], ◌∷◌,
  ◌==◌, length, arith, Bool-cases, inl, inr,
}
use sbsh.Errdefs.{Error}
use sbsh.MultiWriter.{err_all_writers_failed, remove, remove_all, noted, write_each, write}

abbrev pub elem : ℕ → List ℕ → Bool
elem w [] = false
elem w (x ∷ xs) = w == x || elem w xs

-- The writers that are in no other list.
pub without : List ℕ → List ℕ → List ℕ
without failed [] = []
without failed (w ∷ ws) = elim (elem w failed) [
  | true ↦ without failed ws
  | false ↦ w ∷ without failed ws
]

without-nil : (ws : List ℕ) → without [] ws ≡ ws
unfolding without
without-nil [] = refl
without-nil (w ∷ ws) = rw (without-nil ws)

without-remove :
    (w : ℕ) (failed ws : List ℕ) → without failed (remove w ws) ≡ without (w ∷ failed) ws
unfolding without remove
without-remove w failed [] = refl
without-remove w failed (x ∷ ws) = elim (Bool-cases (x == w)) [
  | inl e ↦ rw (e, without) (without-remove w failed ws)
  | inr e ↦ rw (e, without) (kept (elem x failed) (without-remove w failed ws))
]
  where
    kept :
        (b : Bool)
        → without failed (remove w ws) ≡ without (w ∷ failed) ws
        → elim b as (λ _. List ℕ) [
          | true ↦ without failed (remove w ws)
          | false ↦ x ∷ without failed (remove w ws)
        ]
          ≡ elim b as (λ _. List ℕ) [
            | true ↦ without (w ∷ failed) ws
            | false ↦ x ∷ without (w ∷ failed) ws
          ]
    kept true h = h
    kept false h = ap (λ t. x ∷ t) h

remove_all-without : (failed ws : List ℕ) → remove_all failed ws ≡ without failed ws
remove_all-without [] ws = sym (without-nil ws)
remove_all-without (w ∷ failed) ws =
    remove_all-without failed (remove w ws) ∙ without-remove w failed ws

module _ {S : Type 0} (put : ℕ → S → List ℕ → S × ℕ × Option Error) where
  -- Every writer gets the bytes in turn.
  pub put_all : List ℕ → S → List ℕ → S
  put_all [] s p = s
  put_all (w ∷ ws) s p = put_all ws (put w s p).0 p

  -- Whether each writer takes them.
  pub failures : List ℕ → S → List ℕ → List (Option Error)
  failures [] s p = []
  failures (w ∷ ws) s p = (put w s p).2 ∷ failures ws (put w s p).0 p

  -- The writers with a failure beside them.
  pub failing : List ℕ → List (Option Error) → List ℕ
  failing (w ∷ ws) (none ∷ es) = failing ws es
  failing (w ∷ ws) (some e ∷ es) = w ∷ failing ws es
  failing _ _ = []

  noted_lem :
      (w : ℕ) (o : Option Error) (ws : List ℕ) (es : List (Option Error)) (s : S) (r : S × List ℕ)
      → r ≡ (s, failing ws es)
      → noted put w o r ≡ (s, failing (w ∷ ws) (o ∷ es))
  unfolding failing
  noted_lem w none ws es s r h = h
  noted_lem w (some e) ws es s r h = ap (λ (x : S × List ℕ). (x.0, w ∷ x.1)) h

  write_each_lem :
      (ws : List ℕ) (s : S) (p : List ℕ)
      → write_each put ws s p ≡ (put_all ws s p, failing ws (failures ws s p))
  unfolding write_each put_all failures failing
  write_each_lem [] s p = refl
  write_each_lem (w ∷ ws) s p =
      noted_lem w (put w s p).2 ws (failures ws (put w s p).0 p) _ _
        (write_each_lem ws (put w s p).0 p)

  -- A Write offers the bytes to every registered writer in turn, whichever of them fail. It keeps
  -- the writers that did not fail, in order, and reports ErrAllWritersFailed exactly when there was
  -- a writer and none took the bytes.
  pub write-fans_out :
      (ws : List ℕ) (s : S) (p : List ℕ)
      → let r = write put ws s p in
        let failed = failing ws (failures ws s p) in
        (r.store ≡ put_all ws s p)
        × (r.writers ≡ without failed ws)
        × ((r.error ≡ some err_all_writers_failed) ↔ (0 < length ws × (length failed ≡ length ws)))
  unfolding write
  write-fans_out ws s p =
      let each = write_each_lem ws s p in
      let count : length (write_each put ws s p).1 ≡ length (failing ws (failures ws s p)) =
        ap (λ (x : S × List ℕ). length x.1) each in
      (
        ap (λ (x : S × List ℕ). x.0) each,
        remove_all-without (write_each put ws s p).1 ws
            ∙ ap (λ (x : S × List ℕ). without x.1 ws) each,
        (λ h. ground (arith, h, count), λ h. ground (arith, h, count)),
      )
