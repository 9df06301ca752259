-- ===== src/Prune/Free.antt =====
-- When a terminal's name or ID is free.
use sbsh.Base.{
  ◌≡◌, ◌↔◌, refl, ap, true, false, ◌⊎◌, inl, inr, none, String, List, [], ◌∷◌, is_empty, Bool-cases,
  map, arith,
}
use sbsh.Errdefs.{Sentinel, err_terminal_name_in_use, err_terminal_id_in_use}
use sbsh.Process.{Probe}
use sbsh.Reconcile.{Doc, TerminalStatusMode, is_exited, exited}
use sbsh.Reconcile.Pass.{marked, reconcile_terminals-stale}
use sbsh.Prune.{
  first_active, verify_scanned, verify_terminal_name_available, verify_terminal_id_available,
}
use text.Mathlib.Text.{◌==◌}

-- No document that is active has the key.
abbrev pub AllFree :
    (Doc TerminalStatusMode → String) → String → List (Doc TerminalStatusMode) → Type 0
AllFree get key [] = Unit
AllFree get key (d ∷ ds) =
    ((is_exited d.state ≡ true) ⊎ ((get d == key) ≡ false)) × AllFree get key ds

module _ (get : Doc TerminalStatusMode → String) (s : Sentinel) (key : String) where
  active_free :
      (ds : List (Doc TerminalStatusMode)) → first_active get s key ds ≡ none → AllFree get key ds
  unfolding first_active
  active_free [] h = tt
  active_free (d ∷ ds) h = elim (Bool-cases (is_exited d.state)) [
    | inl e ↦ (inl e, active_free ds (ground (arith, h, e)))
    | inr e ↦ elim (Bool-cases (get d == key)) [
      | inl k ↦ absurd (ground (arith, h, e, k))
      | inr k ↦ (inr k, active_free ds (ground (arith, h, e, k)))
    ]
  ]

  free_active :
      (ds : List (Doc TerminalStatusMode)) → AllFree get key ds → first_active get s key ds ≡ none
  unfolding first_active
  free_active [] h = refl
  free_active (d ∷ ds) (inl e, h) = ground (arith, e, free_active ds h)
  free_active (d ∷ ds) (inr k, h) = ground (arith, k, free_active ds h)

  scanned_free :
      (joined : String → String) (ts : List (Doc TerminalStatusMode × Probe))
      → (verify_scanned joined get s key (inr ts) ≡ none)
        ↔ AllFree get key (map (marked is_exited exited joined) ts)
  scanned_free joined ts =
      rw (ap (λ x. x.0) (reconcile_terminals-stale joined ts []).0) (active_free _, free_active _)

-- With a run path, a name or an ID that is not empty is reported as free exactly when no terminal
-- that has it is active: neither recorded as exited nor with its process gone.
pub verify_terminal_name_available-AllFree :
    (joined : String → String) (run_path name id : String)
    (ts : List (Doc TerminalStatusMode × Probe))
    → is_empty run_path ≡ false
    → is_empty name ≡ false
    → is_empty id ≡ false
    → ((verify_terminal_name_available joined run_path name (inr ts) ≡ none)
        ↔ AllFree (λ d. d.name) name (map (marked is_exited exited joined) ts))
      × ((verify_terminal_id_available joined run_path id (inr ts) ≡ none)
          ↔ AllFree (λ d. d.id) id (map (marked is_exited exited joined) ts))
unfolding verify_terminal_name_available verify_terminal_id_available
verify_terminal_name_available-AllFree joined run_path name id ts r n i =
    rw (r, n, i)
      (
        scanned_free (λ d. d.name) err_terminal_name_in_use name joined ts,
        scanned_free (λ d. d.id) err_terminal_id_in_use id joined ts,
      )
