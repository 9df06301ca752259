-- ===== src/Client/Tests.antt =====
-- The client controller's theorems at inputs: a runner that counts its calls, with a terminal that
-- detaches.
use sbsh.Base.{ℕ, suc, ◌≡◌, refl, inl, inr, true, false, Option, none, some, [], ◌∷◌}
use sbsh.Errdefs.{Error, message, sentinel, wrap, tag, err_close_req, err_client_detached}
use sbsh.Outcome.{done}
use sbsh.Client.{TerminalSpec, ClientDoc, run_new_terminal, ClientRunner, Controller, Lookups}
use sbsh.Client.Run.{rpc_ready, Event, ev_detach, ev_error, event, close_req, run_start, loop}
use sbsh.Client.Run.Startup.{Decides, run_start-Decides}
use sbsh.Client.Run.Session.{loop-end_sentinel}

abbrev works : ℕ → ℕ × Option Error
works n = (suc n, none)

abbrev runner : ClientRunner
runner = record {
  State = ℕ;
  new = λ _. 0;
  create_metadata = works;
  open_socket_ctrl = works;
  start_server = works;
  start_terminal_cmd = λ _. works;
  attach = λ _ n. (suc n, some (message "refused"));
  detach = works;
  close = λ _ n. suc n;
}

abbrev spec : TerminalSpec
spec = record { id = "t1"; name = ""; socket_file = ""; command = "bash"; command_args = [] }

abbrev lookups : Lookups
lookups = record {
  find_by_id = λ _. inr (some spec);
  find_by_name = λ _. inr none;
  random_id = "r1";
  executable = inr "/usr/bin/sbsh";
}

abbrev serving : Controller ℕ
serving = record {
  sr = some 0;
  ctx_err = none;
  ctrl_ready_ch = false;
  close_req_ch = none;
  closed_ch = false;
  shutting_down = false;
  detach_requested = false;
}

abbrev doc : ClientDoc
doc = record { client_mode = run_new_terminal; terminal_spec = some spec }

run_start-Decides_example : Decides runner (run_start runner lookups rpc_ready doc serving)
run_start-Decides_example = run_start-Decides runner lookups rpc_ready doc serving (record {
  running = refl;
  unrequested = refl;
  unclosed = refl;
  unready = refl;
  selected = inl refl;
})

abbrev detach_event : Event
detach_event = record { type = ev_detach; err = none }

abbrev hangup : Event
hangup = record { type = ev_error; err = some (message "read/write routines exited") }

loop-end_sentinel_example :
    (c' : Controller ℕ) × (loop runner (event detach_event ∷ event hangup ∷ close_req ∷ []) serving
      ≡ done (c', some (some (wrap (sentinel err_close_req) (tag err_client_detached hangup.err)))))
    × (c'.shutting_down ≡ true)
    × (c'.closed_ch ≡ true)
loop-end_sentinel_example =
    loop-end_sentinel runner (detach_event ∷ []) hangup.err [] serving refl (record {
      runner = 0;
      running_on = refl;
      running = refl;
      unrequested = refl;
      unclosed = refl;
    })
