-- ===== src/Reconcile/Tests.antt =====
-- A pass over a terminal whose process is gone and a client that has exited already.
use sbsh.Base.{none, some, String, [], ◌∷◌}
use sbsh.Process.{pos, Probe, esrch, err_not_exist}
use sbsh.Reconcile.{
  Doc, TerminalStatusMode, ready, exited, ClientStatusMode, client_exited, reconcile_terminals,
  reconcile_clients,
}
use sbsh.Reconcile.Exited.{Passes, reconcile_terminals-Passes}

abbrev gone : Probe
gone = record { found = none; signalled = some esrch; start = 0; start_err = some err_not_exist }

abbrev terminal : Doc TerminalStatusMode
terminal = record {
  id = "t1";
  name = "work";
  state = ready;
  pid = pos 41;
  pid_start = 5;
  run_dir = "";
}

abbrev client : Doc ClientStatusMode
client = record {
  id = "c1";
  name = "mine";
  state = client_exited;
  pid = pos 42;
  pid_start = 6;
  run_dir = "/run/c1";
}

abbrev joined : String → String
joined id = id

reconcile_terminals-Passes_example :
    Passes exited joined
      ((terminal, gone) ∷ [])
      (reconcile_terminals joined ((terminal, gone) ∷ []))
    × Passes client_exited joined
        ((client, gone) ∷ [])
        (reconcile_clients joined ((client, gone) ∷ []))
reconcile_terminals-Passes_example =
    reconcile_terminals-Passes joined ((terminal, gone) ∷ []) ((client, gone) ∷ [])
