-- ===== src/Errdefs.antt =====
-- internal/errdefs/errdefs.go: the error sentinels, and Go's error chains over them.
-- An `error` that may be nil is an `Option Error`.
use sbsh.Base.{Bool, false, ◌||◌, Option, none, some, String}
use mathlib.Core.Bool.{decide}

-- One constructor for each `errors.New` of the file, in its order.
pub data Sentinel : Type 0 where
  err_func_not_set err_context_done err_wait_on_ready err_wait_on_close err_child_exit
        err_spec_cmd_missing err_open_socket_ctrl err_start_rpc_server err_start_terminal err_attach
        err_client_mode err_rpc_server_exited err_on_close err_close_req err_terminal_cmd_start
        err_write_metadata err_start_cmd err_detach_terminal err_setup_shell err_init_shell
        err_program_exited err_no_spec_defined err_attach_no_terminal_spec
        err_terminal_not_found_by_id err_terminal_not_found_by_name err_terminal_name_in_use
        err_terminal_id_in_use err_terminal_metadata_not_found err_no_terminal_spec err_config
        err_logger_not_found err_invalid_flag err_invalid_option err_stdin_stat err_stdin_empty
        err_invalid_argument err_open_spec_file err_invalid_json_spec err_terminal_spec_not_found
        err_build_terminal_spec err_no_terminal_identifier err_too_many_arguments
        err_create_client_dir err_resolve_terminal_name err_no_terminal_identification
        err_no_client_identifier err_conflicting_flags err_build_socket_path err_determine_run_path
        err_run_path_required err_no_client_identification err_positional_with_flags
        err_invalid_output_format err_get_run_path err_no_terminals_found err_no_clients_found
        err_terminal_not_found err_client_not_found err_stop_terminal err_stop_timeout
        err_signal_process err_terminal_stdin_closed err_subscriber_lagged err_invalid_profiles
        err_client_detached err_peer_closed :
      Sentinel

unfoldable pub Sentinel-discrete : Discrete Sentinel
Sentinel-discrete = hlevel

-- `message` is an error made by `errors.New` or `fmt.Errorf` with no `%w`; `wrap a b` is
-- `fmt.Errorf("%w: %w", a, b)`, and `"%w: %w: %w"` is nested to the right.
pub data Error : Type 0 where
  sentinel : Sentinel → Error
  message : String → Error
  context : String → Error → Error
  wrap : Error → Error → Error

-- `fmt.Errorf("%w: %w", s, err)` where `err` may be nil: `%w` of nil wraps nothing.
abbrev pub tag : Sentinel → Option Error → Error
tag s none = sentinel s
tag s (some e) = wrap (sentinel s) e

-- `errors.Is(err, s)`.
unfoldable pub is : Error → Sentinel → Bool
is (sentinel t) s = decide (Sentinel-discrete t s)
is (message m) s = false
is (context m e) s = is e s
is (wrap a b) s = is a s || is b s
