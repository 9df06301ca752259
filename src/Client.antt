-- ===== src/Client.antt =====
-- internal/client/controller.go: the controller of one client. Its runner is an interface; the
-- discovery of terminals, the executable's path and the random IDs are arguments.
pub mod Run
pub mod Resolve
mod Tests
use sbsh.Base.{
  Bool, true, false, Option, none, some, String, List, [], ◌∷◌, ◌⊎◌, inl, inr, is_empty,
}
use sbsh.Errdefs.{
  Error, sentinel, message, context, wrap, tag, err_no_terminal_spec, err_start_cmd,
  err_terminal_not_found_by_id, err_terminal_not_found_by_name, err_terminal_metadata_not_found,
  err_detach_terminal, err_client_detached, err_peer_closed,
}
use sbsh.Outcome.{Outcome, done, panicked, Slot, send, close_chan, ◌>>=◌}
use text.Mathlib.Text.{◌==◌}

-- api.TerminalSpec, as far as the client reads it.
pub record TerminalSpec : Type 0 where
  pub id : String
  pub name : String
  pub socket_file : String
  pub command : String
  pub command_args : List String

pub record AttachedTerminal : Type 0 where
  pub spec : TerminalSpec
  pub command : String
  pub command_args : List String

-- `other_mode` is any value that `Run` does not know.
pub data ClientMode : Type 0 where
  run_new_terminal attach_to_terminal other_mode : ClientMode

pub record ClientDoc : Type 0 where
  pub client_mode : ClientMode
  pub terminal_spec : Option TerminalSpec

-- `clientrunner.ClientRunner`. `start_server` gives what the server sends on `rpcReadyCh`.
pub record ClientRunner : Type 1 where
  pub State : Type 0
  pub new : ClientDoc → State
  pub create_metadata : State → State × Option Error
  pub open_socket_ctrl : State → State × Option Error
  pub start_server : State → State × Option Error
  pub start_terminal_cmd : AttachedTerminal → State → State × Option Error
  pub attach : AttachedTerminal → State → State × Option Error
  pub detach : State → State × Option Error
  pub close : Option Error → State → State

pub record Controller (S : Type 0) : Type 0 where
  pub sr : Option S
  pub ctx_err : Option Error
  pub ctrl_ready_ch : Bool
  pub close_req_ch : Slot
  pub closed_ch : Bool
  pub shutting_down : Bool
  pub detach_requested : Bool

unfoldable pub new_client_controller : {S : Type 0} → Controller S
new_client_controller = record {
  sr = none;
  ctx_err = none;
  ctrl_ready_ch = false;
  close_req_ch = none;
  closed_ch = false;
  shutting_down = false;
  detach_requested = false;
}

-- `newSupervisedTerminal`.
abbrev pub new_supervised_terminal : TerminalSpec → AttachedTerminal
new_supervised_terminal s = record { spec = s; command = s.command; command_args = s.command_args }

-- What the calls outside the controller answer; a lookup may find nothing without an error.
pub record Lookups : Type 0 where
  pub find_by_id : String → Error ⊎ Option TerminalSpec
  pub find_by_name : String → Error ⊎ Option TerminalSpec
  pub random_id : String
  pub executable : Error ⊎ String

abbrev pub with_id : String → TerminalSpec → TerminalSpec
with_id new s = elim (is_empty s.id) [ true ↦ record s { id = new } | false ↦ s ]

abbrev pub resolved : (Error → Error) → Error ⊎ Option TerminalSpec → Error ⊎ AttachedTerminal
resolved f (inl e) = inl (f e)
resolved f (inr none) = inl (sentinel err_terminal_metadata_not_found)
resolved f (inr (some s)) = inr (new_supervised_terminal s)

-- `createAttachTerminal`: the socket, else the ID, else the name.
unfoldable pub create_attach_terminal : Lookups → TerminalSpec → Error ⊎ AttachedTerminal
create_attach_terminal l s = elim (is_empty s.socket_file) [
  | false ↦ inr (new_supervised_terminal (with_id l.random_id s))
  | true ↦ elim (is_empty s.id) [
    | false ↦ resolved (wrap (sentinel err_terminal_not_found_by_id)) (l.find_by_id s.id)
    | true ↦ elim (is_empty s.name) [
      | false ↦ resolved (wrap (sentinel err_terminal_not_found_by_name)) (l.find_by_name s.name)
      | true ↦ inl (sentinel err_terminal_metadata_not_found)
    ]
  ]
]

abbrev pub run_by : TerminalSpec → Error ⊎ String → Error ⊎ AttachedTerminal
run_by s (inl e) = inl (wrap (sentinel err_start_cmd) e)
run_by s (inr path) =
    inr (record { spec = s; command = path; command_args = "terminal" ∷ "-" ∷ [] })

unfoldable pub create_run_new_terminal : Lookups → Option TerminalSpec → Error ⊎ AttachedTerminal
create_run_new_terminal l none = inl (sentinel err_no_terminal_spec)
create_run_new_terminal l (some s) = run_by s l.executable

-- `Ping`; the message may be nil.
unfoldable pub ping : Option String → String × Option Error
ping none = ("", some (context "unexpected ping message" (message "")))
ping (some m) = elim (m == "PING") [
  | true ↦ ("PONG", none)
  | false ↦ ("", some (context "unexpected ping message" (message m)))
]

module _ (R : ClientRunner) where
  open R use {State, close as close_runner, detach as detach_runner}

  -- `s.sr.Close(reason)`, on a runner that may be nil.
  abbrev pub close_sr : Option Error → Option State → Outcome (Option State)
  close_sr reason none = panicked
  close_sr reason (some s) = done (some (close_runner reason s))

  -- `Close` behind the CompareAndSwap. The context is not cancelled here.
  unfoldable pub shut_down : Option Error → Controller State → Outcome (Controller State)
  shut_down reason c = do
    sr ← close_sr reason c.sr
    request ← send reason c.close_req_ch
    closed ← close_chan c.closed_ch
    done (record c { sr = sr; close_req_ch = request; closed_ch = closed; shutting_down = true })

  unfoldable pub close : Option Error → Controller State → Outcome (Controller State × Option Error)
  unfolding shut_down
  close reason c = elim c.shutting_down [
    | true ↦ done (c, none)
    | false ↦ shut_down reason c >>= λ c'. done (c', none)
  ]

  abbrev pub detached : Controller State → State × Option Error → Controller State × Option Error
  detached c (s, none) = (record c { sr = some s; detach_requested = true }, none)
  detached c (s, some e) = (
    record c { sr = some s; detach_requested = true },
    some (wrap (sentinel err_detach_terminal) e),
  )

  -- `Detach` marks the request before the call.
  unfoldable pub detach : Controller State → Outcome (Controller State × Option Error)
  detach c = elim c.sr [ none ↦ panicked | some s ↦ done (detached c (detach_runner s)) ]

  unfoldable pub classify_session_end : Option Error → Controller State → Error
  classify_session_end cause c = elim c.detach_requested [
    | true ↦ tag err_client_detached cause
    | false ↦ tag err_peer_closed cause
  ]
