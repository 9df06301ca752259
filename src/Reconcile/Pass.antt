-- ===== src/Reconcile/Pass.antt =====
-- What one pass over the documents does.
use sbsh.Base.{
  ◌≡◌, refl, Bool, true, false, none, some, String, List, [], ◌∷◌, arith, Bool-cases, inl, inr, map,
}
use sbsh.Process.{Probe, is_instance_alive}
use sbsh.Reconcile.{
  Doc, Write, directory, mark, reconcile, reconcile_all, TerminalStatusMode, exited, is_exited,
  ClientStatusMode, client_exited, is_client_exited, reconcile_terminals, reconcile_clients,
}

module _ {S : Type 0} (over : S → Bool) (last : S) (joined : String → String) where
  -- A document that the pass has to mark: not exited, and its process gone.
  abbrev pub stale : Doc S × Probe → Bool
  stale (t, p) = elim (over t.state) [
    | true ↦ false
    | false ↦ elim (is_instance_alive t.pid t.pid_start p) [ true ↦ false | false ↦ true ]
  ]

  abbrev pub marked : Doc S × Probe → Doc S
  marked d = elim (stale d) [ true ↦ mark over last joined d.0 | false ↦ d.0 ]

  -- The stale documents, marked, each with its directory.
  pub stale_writes : List (Doc S × Probe) → List (Write S)
  stale_writes [] = []
  stale_writes (d ∷ ds) = elim (stale d) [
    | true ↦ (mark over last joined d.0, directory over last joined d.0) ∷ stale_writes ds
    | false ↦ stale_writes ds
  ]

  reconcile-stale :
      (t : Doc S) (p : Probe)
      → reconcile over last joined t p ≡ (
        marked (t, p),
        elim (stale (t, p)) [
          | true ↦ some (mark over last joined t, directory over last joined t)
          | false ↦ none
        ],
      )
  unfolding reconcile
  reconcile-stale t p = ground arith

  -- One pass marks as exited, and writes to its directory, exactly each document that is not exited
  -- and whose process is gone, in order; every other document it returns as it is.
  pub reconcile_all-stale :
      (ds : List (Doc S × Probe))
      → reconcile_all over last joined ds ≡ (map marked ds, stale_writes ds)
  unfolding reconcile_all stale_writes
  reconcile_all-stale [] = refl
  reconcile_all-stale ((t, p) ∷ ds) = elim (Bool-cases (stale (t, p))) [
    | inl e ↦ rw (reconcile-stale t p, reconcile_all-stale ds, stale_writes, e) refl
    | inr e ↦ rw (reconcile-stale t p, reconcile_all-stale ds, stale_writes, e) refl
  ]

-- `ReconcileTerminals` and `ReconcileClients` mark as exited, and write to its directory, exactly
-- each document that is not exited yet and whose process is gone, in order; every other document
-- stays as it is and is not written.
pub reconcile_terminals-stale :
    (joined : String → String) (ts : List (Doc TerminalStatusMode × Probe))
    (cs : List (Doc ClientStatusMode × Probe))
    → (reconcile_terminals joined ts
        ≡ (map (marked is_exited exited joined) ts, stale_writes is_exited exited joined ts))
      × (reconcile_clients joined cs ≡ (
        map (marked is_client_exited client_exited joined) cs,
        stale_writes is_client_exited client_exited joined cs,
      ))
unfolding reconcile_terminals reconcile_clients
reconcile_terminals-stale joined ts cs = (
  reconcile_all-stale is_exited exited joined ts,
  reconcile_all-stale is_client_exited client_exited joined cs,
)
