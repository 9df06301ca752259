-- ===== src/Prune/Removed.antt =====
-- Which directories pruning removes, and when a name or an ID is free.
use sbsh.Base.{
  ◌≡◌, ◌≢◌, true, false, Bool, ◌⊎◌, none, some, String, List, [], ◌∷◌, ◌++◌, if◌then◌else◌,
}
use sbsh.Errdefs.{Error}
use sbsh.Process.{Probe, is_instance_alive}
use sbsh.Reconcile.{Doc, TerminalStatusMode, exited}
use sbsh.Prune.{Pruned}

-- All that was wanted was removed, in order, or an error ended the removals on the way.
abbrev pub Carries : List String → Pruned → Type 0
Carries wanted (dirs, e) =
    ((e ≡ none) × (dirs ≡ wanted))
    ⊎ ((x : Error) × (e ≡ some x) × (left : List String) × (dirs ++ left ≡ wanted))

-- The directories of the documents in a final state.
pub finished_dirs : {S : Type 0} → (S → Bool) → List (Doc S) → List String
finished_dirs over [] = []
finished_dirs over (d ∷ ds) =
    if over d.state then d.run_dir ∷ finished_dirs over ds else finished_dirs over ds

pub quiet_dirs : (String → Bool) → List String → List String
quiet_dirs live [] = []
quiet_dirs live (dir ∷ dirs) = if live dir then quiet_dirs live dirs else dir ∷ quiet_dirs live dirs

-- The run paths of the terminals that are recorded as exited, or whose process is gone.
abbrev pub AreOver : List (Doc TerminalStatusMode × Probe) → List String → Type 0
AreOver [] dirs = dirs ≡ []
AreOver ((t, p) ∷ ts) dirs =
    (rest : List String) × AreOver ts rest
    × ((((t.state ≡ exited) ⊎ (is_instance_alive t.pid t.pid_start p ≡ false))
          × (dirs ≡ t.run_dir ∷ rest))
        ⊎ (((t.state ≢ exited) × (is_instance_alive t.pid t.pid_start p ≡ true)) × (dirs ≡ rest)))
