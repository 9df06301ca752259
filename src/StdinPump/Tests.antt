-- ===== src/StdinPump/Tests.antt =====
-- A session that is cancelled while a line is received, and the next one.
use sbsh.Base.{◌≡◌, refl, true, false, none, some, List, [], ◌∷◌, ◌++◌}
use sbsh.Errdefs.{message}
use sbsh.StdinPump.{SourceRead, run, new_stdin_pump, Call, read, reads}
use sbsh.StdinPump.Stream.{all_of, held, source_bytes, reads-source_bytes}

abbrev cancelled_late : Call
cancelled_late = record {
  room = 4;
  ctx_err = message "context canceled";
  done_before = false;
  receives = true;
  done_after = true;
}

abbrev cancelled_early : Call
cancelled_early = record {
  room = 4;
  ctx_err = message "context canceled";
  done_before = true;
  receives = true;
  done_after = true;
}

abbrev open_call : Call
open_call = record {
  room = 2;
  ctx_err = message "context canceled";
  done_before = false;
  receives = true;
  done_after = false;
}

abbrev typed : List SourceRead
typed =
    record { bytes = 1 ∷ 2 ∷ 3 ∷ []; err = none }
    ∷ record { bytes = 4 ∷ []; err = some (message "EOF") }
    ∷ []

abbrev session : List Call
session = cancelled_late ∷ open_call ∷ open_call ∷ open_call ∷ []

taken : (reads session new_stdin_pump (run typed)).0 ≡ [] ∷ (1 ∷ 2 ∷ []) ∷ (3 ∷ []) ∷ (4 ∷ []) ∷ []
unfolding reads read run
taken = refl

-- A call whose context is done takes what the pump held back, all the same.
taken_when_cancelled :
    (read cancelled_early (record { leftover = 9 ∷ []; read_err = none }) []).taken ≡ 9 ∷ []
unfolding read
taken_when_cancelled = refl

reads-source_bytes_example :
    all_of (reads session new_stdin_pump (run typed)).0
      ++ held
          (reads session new_stdin_pump (run typed)).1.0
          (reads session new_stdin_pump (run typed)).1.1
    ≡ source_bytes typed
reads-source_bytes_example = reads-source_bytes typed session
