-- ===== src/Prune.antt =====
-- internal/discovery: pruning the directories of exited terminals and clients and of orphans
-- (terminals.go, clients.go, scan.go, orphans.go), and whether a name or an ID is free
-- (terminals.go). What the scans find, what `os.RemoveAll` answers for a directory and whether a
-- socket in it accepts a connection are arguments.
pub mod Removed
pub mod Free
mod Tests
use sbsh.Base.{
  Bool, true, false, not, ◌||◌, ◌⊎◌, inl, inr, Option, none, some, String, List, [], ◌∷◌, ◌++◌,
  is_empty, if◌then◌else◌,
}
use sbsh.Errdefs.{
  Error, sentinel, message, context, wrap, Sentinel, err_terminal_name_in_use,
  err_terminal_id_in_use,
}
use sbsh.Process.{Probe}
use sbsh.Reconcile.{
  Doc, TerminalStatusMode, is_exited, exited, ClientStatusMode, is_client_exited, client_exited,
  reconcile_all, reconcile_terminals, reconcile_clients,
}
use text.Mathlib.Text.{◌==◌}

-- The directories that `os.RemoveAll` was called on, in order, and the error.
abbrev pub Pruned : Type 0
Pruned = List String × Option Error

-- A call of `os.RemoveAll`: its failure ends the pruning, else the rest goes on.
abbrev pub removing : String → Option Error → Pruned → Pruned
removing dir (some e) rest = (dir ∷ [], some (context "prune" e))
removing dir none (dirs, e) = (dir ∷ dirs, e)

abbrev pub then_prune : Pruned → Pruned → Pruned
then_prune (dirs, some e) rest = (dirs, some e)
then_prune (dirs, none) (dirs', e) = (dirs ++ dirs', e)

-- `remove` is the answer of `os.RemoveAll`, `has_live_socket` the probe of a directory.
module _ (remove : String → Option Error) (has_live_socket : String → Bool) where
  -- `scanAndPruneMetadata` with `PruneTerminal` or `PruneClient`; `over` is its predicate.
  unfoldable pub scan_and_prune_metadata : {S : Type 0} → (S → Bool) → List (Doc S) → Pruned
  scan_and_prune_metadata over [] = ([], none)
  scan_and_prune_metadata over (d ∷ ds) =
      let rest = scan_and_prune_metadata over ds in
      if over d.state then removing d.run_dir (remove d.run_dir) rest else rest

  unfoldable pub prune_orphan_dirs : List String → Pruned
  prune_orphan_dirs [] = ([], none)
  prune_orphan_dirs (dir ∷ dirs) =
      let rest = prune_orphan_dirs dirs in
      if has_live_socket dir then rest else removing dir (remove dir) rest

  abbrev pub prune_orphans : Error ⊎ List String → Pruned
  prune_orphans (inl e) = ([], some e)
  prune_orphans (inr dirs) = prune_orphan_dirs dirs

  -- `ScanAndPruneTerminals` and `ScanAndPruneClients` on what the two scans find.
  unfoldable pub scan_and_prune_terminals :
      (String → String)
      → Error ⊎ List (Doc TerminalStatusMode × Probe)
      → Error ⊎ List String
      → Pruned
  unfolding scan_and_prune_metadata
  scan_and_prune_terminals joined (inl e) orphans = ([], some e)
  scan_and_prune_terminals joined (inr ts) orphans =
      then_prune (scan_and_prune_metadata is_exited (reconcile_terminals joined ts).0)
        (prune_orphans orphans)

  unfoldable pub scan_and_prune_clients :
      (String → String) → Error ⊎ List (Doc ClientStatusMode × Probe) → Error ⊎ List String → Pruned
  unfolding scan_and_prune_metadata
  scan_and_prune_clients joined (inl e) orphans = ([], some e)
  scan_and_prune_clients joined (inr cs) orphans =
      then_prune (scan_and_prune_metadata is_client_exited (reconcile_clients joined cs).0)
        (prune_orphans orphans)

-- The loops of `VerifyTerminalNameAvailable` and `VerifyTerminalIDAvailable` after the
-- reconciliation; `get` is the name or the ID.
unfoldable pub first_active :
    (Doc TerminalStatusMode → String)
    → Sentinel
    → String
    → List (Doc TerminalStatusMode)
    → Option Error
first_active get s key [] = none
first_active get s key (d ∷ ds) =
    let rest = first_active get s key ds in
    if is_exited d.state
    then rest
    else if not (get d == key)
    then rest
    else some (wrap (sentinel s) (message key))

abbrev pub verify_scanned :
    (String → String)
    → (Doc TerminalStatusMode → String)
    → Sentinel
    → String
    → Error ⊎ List (Doc TerminalStatusMode × Probe)
    → Option Error
verify_scanned joined get s key (inl e) = some e
verify_scanned joined get s key (inr ts) = first_active get s key (reconcile_terminals joined ts).0

unfoldable pub verify_terminal_name_available :
    (String → String)
    → String
    → String
    → Error ⊎ List (Doc TerminalStatusMode × Probe)
    → Option Error
verify_terminal_name_available joined run_path name scan =
    if is_empty name || is_empty run_path
    then none
    else verify_scanned joined (λ d. d.name) err_terminal_name_in_use name scan

unfoldable pub verify_terminal_id_available :
    (String → String)
    → String
    → String
    → Error ⊎ List (Doc TerminalStatusMode × Probe)
    → Option Error
verify_terminal_id_available joined run_path id scan =
    if is_empty id || is_empty run_path
    then none
    else verify_scanned joined (λ d. d.id) err_terminal_id_in_use id scan
