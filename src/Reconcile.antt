-- ===== src/Reconcile.antt =====
-- internal/discovery/reconcile.go: marking the documents of dead processes as exited. The kernel's
-- answers come with each document, `write_metadata` is an argument. The terminals' and the clients'
-- functions differ in the type of the state alone, so one definition, over the state, stands for both.
pub mod Pass
pub mod Exited
mod Tests
use sbsh.Base.{
  ℕ, Bool, true, false, Option, none, some, String, List, [], ◌∷◌, ◌++◌, is_empty, if◌then◌else◌,
}
use sbsh.Errdefs.{Error}
use sbsh.Process.{ℤ, Probe, is_instance_alive}

pub data TerminalStatusMode : Type 0 where
  initializing starting setting_up on_init ready post_attach exited : TerminalStatusMode

abbrev pub is_exited : TerminalStatusMode → Bool
is_exited exited = true
is_exited _ = false

pub data ClientStatusMode : Type 0 where
  client_initializing client_ready client_attached client_exiting client_exited : ClientStatusMode

abbrev pub is_client_exited : ClientStatusMode → Bool
is_client_exited client_exited = true
is_client_exited _ = false

-- The fields of `TerminalDoc` and of `ClientDoc` that a reconciliation reads or writes. `run_dir` is
-- `Status.TerminalRunPath` or `Status.ClientRunPath`.
pub record Doc (S : Type 0) : Type 0 where
  pub id : String
  pub name : String
  pub state : S
  pub pid : ℤ
  pub pid_start : ℕ
  pub run_dir : String

-- A persisted document and its directory.
abbrev pub Write : Type 0 → Type 0
Write S = Doc S × String

-- `over` is the comparison with the state `last` of an exited process, `joined` the directory that is
-- derived from the run path and the ID.
module _ {S : Type 0} (over : S → Bool) (last : S) (joined : String → String) where
  abbrev pub directory : Doc S → String
  directory t = if is_empty t.run_dir then joined t.id else t.run_dir

  abbrev pub mark : Doc S → Doc S
  mark t = record t { state = last }

  -- The new document, and what is written; a failing write is only logged.
  unfoldable pub reconcile : Doc S → Probe → Doc S × Option (Write S)
  reconcile t p = elim (over t.state) [
    | true ↦ (t, none)
    | false ↦ elim (is_instance_alive t.pid t.pid_start p) [
      | true ↦ (t, none)
      | false ↦ (mark t, some (mark t, directory t))
    ]
  ]

  abbrev pub logged : Option (Write S) → List (Write S) → List (Write S)
  logged none ws = ws
  logged (some w) ws = w ∷ ws

  -- Every document in turn, each with the kernel's answers about its pid at that time.
  unfoldable pub reconcile_all : List (Doc S × Probe) → List (Doc S) × List (Write S)
  unfolding reconcile
  reconcile_all [] = ([], [])
  reconcile_all ((t, p) ∷ rest) =
      let (t', w) = reconcile t p in let (ts, ws) = reconcile_all rest in (t' ∷ ts, logged w ws)

-- `reconcileTerminal` and `ReconcileTerminals`, `reconcileClient` and `ReconcileClients`.
unfoldable pub reconcile_terminal :
    (String → String)
    → Doc TerminalStatusMode
    → Probe
    → Doc TerminalStatusMode × Option (Write TerminalStatusMode)
reconcile_terminal = reconcile is_exited exited

unfoldable pub reconcile_terminals :
    (String → String)
    → List (Doc TerminalStatusMode × Probe)
    → List (Doc TerminalStatusMode) × List (Write TerminalStatusMode)
reconcile_terminals = reconcile_all is_exited exited

unfoldable pub reconcile_client :
    (String → String)
    → Doc ClientStatusMode
    → Probe
    → Doc ClientStatusMode × Option (Write ClientStatusMode)
reconcile_client = reconcile is_client_exited client_exited

unfoldable pub reconcile_clients :
    (String → String)
    → List (Doc ClientStatusMode × Probe)
    → List (Doc ClientStatusMode) × List (Write ClientStatusMode)
reconcile_clients = reconcile_all is_client_exited client_exited
