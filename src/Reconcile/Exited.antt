-- ===== src/Reconcile/Exited.antt =====
-- One pass over the documents, against a description of the document that it leaves for each and of
-- what it writes.
use sbsh.Base.{
  ◌≡◌, ◌≢◌, refl, ap, Bool, true, false, ◌⊎◌, none, some, Option, String, List, [], ◌∷◌, Bool-cases,
  inl, inr, is_empty, if◌then◌else◌,
}
use sbsh.Process.{Probe, is_instance_alive}
use sbsh.Reconcile.{
  Doc, Write, reconcile, reconcile_all, logged, TerminalStatusMode, initializing, starting,
  setting_up, on_init, ready, post_attach, exited, is_exited, ClientStatusMode, client_initializing,
  client_ready, client_attached, client_exiting, client_exited, is_client_exited,
  reconcile_terminals, reconcile_clients,
}

-- `over` tells the state `last`.
abbrev pub Tells : {S : Type 0} → S → (S → Bool) → S → Type 0
Tells last over s = ((over s ≡ true) × (s ≡ last)) ⊎ ((over s ≡ false) × (s ≢ last))

pub is_exited-Tells : (s : TerminalStatusMode) → Tells exited is_exited s
is_exited-Tells initializing = inr (refl, λ p. cc)
is_exited-Tells starting = inr (refl, λ p. cc)
is_exited-Tells setting_up = inr (refl, λ p. cc)
is_exited-Tells on_init = inr (refl, λ p. cc)
is_exited-Tells ready = inr (refl, λ p. cc)
is_exited-Tells post_attach = inr (refl, λ p. cc)
is_exited-Tells exited = inl (refl, refl)

is_client_exited-Tells : (s : ClientStatusMode) → Tells client_exited is_client_exited s
is_client_exited-Tells client_initializing = inr (refl, λ p. cc)
is_client_exited-Tells client_ready = inr (refl, λ p. cc)
is_client_exited-Tells client_attached = inr (refl, λ p. cc)
is_client_exited-Tells client_exiting = inr (refl, λ p. cc)
is_client_exited-Tells client_exited = inl (refl, refl)

module _ {S : Type 0} (last : S) (joined : String → String) where
  -- Not recorded as ended, and the process gone.
  abbrev pub IsStale : Doc S × Probe → Type 0
  IsStale (t, p) = (t.state ≢ last) × (is_instance_alive t.pid t.pid_start p ≡ false)

  abbrev pub IsCurrent : Doc S × Probe → Type 0
  IsCurrent (t, p) = (t.state ≡ last) ⊎ (is_instance_alive t.pid t.pid_start p ≡ true)

  -- The document with its state alone changed.
  abbrev pub ended : Doc S → Doc S
  ended t = record {
    id = t.id;
    name = t.name;
    state = last;
    pid = t.pid;
    pid_start = t.pid_start;
    run_dir = t.run_dir;
  }

  -- The recorded directory, or the one that the ID gives.
  abbrev pub place : Doc S → String
  place t = if is_empty t.run_dir then joined t.id else t.run_dir

  -- What is left of the documents, and what is written, in order.
  abbrev pub Passes : List (Doc S × Probe) → List (Doc S) × List (Write S) → Type 0
  Passes [] r = r ≡ ([], [])
  Passes (d ∷ ds) r =
      (ts : List (Doc S)) × (ws : List (Write S)) × Passes ds (ts, ws)
      × ((IsStale d × (r ≡ (ended d.0 ∷ ts, (ended d.0, place d.0) ∷ ws)))
          ⊎ (IsCurrent d × (r ≡ (d.0 ∷ ts, ws))))

  abbrev One : Doc S × Probe → Doc S × Option (Write S) → Type 0
  One d r =
      (IsStale d × (r ≡ (ended d.0, some (ended d.0, place d.0))))
      ⊎ (IsCurrent d × (r ≡ (d.0, none)))

  module _ (over : S → Bool) (tells : (s : S) → Tells last over s) where
    reconcile-One : (t : Doc S) (p : Probe) → One (t, p) (reconcile over last joined t p)
    unfolding reconcile
    reconcile-One t p = elim (tells t.state) [
      | inl (o, e) ↦ inr (inl e, rw (reconcile, o) refl)
      | inr (o, n) ↦ elim (Bool-cases (is_instance_alive t.pid t.pid_start p)) [
        | inl a ↦ inr (inr a, rw (reconcile, o, a) refl)
        | inr a ↦ inl ((n, a), rw (reconcile, o, a) refl)
      ]
    ]

    pub reconcile_all-Passes :
        (ds : List (Doc S × Probe)) → Passes ds (reconcile_all over last joined ds)
    unfolding reconcile_all
    reconcile_all-Passes [] = refl
    reconcile_all-Passes ((t, p) ∷ ds) =
        let rest = reconcile_all over last joined ds in
        let add : Doc S × Option (Write S) → List (Doc S) × List (Write S) =
          λ r. (r.0 ∷ rest.0, logged over last joined r.1 rest.1) in
        (
          rest.0,
          rest.1,
          reconcile_all-Passes ds,
          elim (reconcile-One t p) [
            | inl (s, e) ↦ inl (s, ap add e)
            | inr (s, e) ↦ inr (s, ap add e)
          ],
        )

-- `ReconcileTerminals` and `ReconcileClients` leave, for each document that is not recorded as exited
-- and whose process is gone, the document with the state exited and nothing else changed, and write it
-- to its run path, or to the directory of its ID when that is empty; every other document stays as it
-- is and is not written. Documents and writes keep the order.
pub reconcile_terminals-Passes :
    (joined : String → String) (ts : List (Doc TerminalStatusMode × Probe))
    (cs : List (Doc ClientStatusMode × Probe))
    → Passes exited joined ts (reconcile_terminals joined ts)
      × Passes client_exited joined cs (reconcile_clients joined cs)
unfolding reconcile_terminals reconcile_clients
reconcile_terminals-Passes joined ts cs = (
  reconcile_all-Passes exited joined is_exited is_exited-Tells ts,
  reconcile_all-Passes client_exited joined is_client_exited is_client_exited-Tells cs,
)
