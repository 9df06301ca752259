-- ===== src/StdinPump.antt =====
-- internal/client/clientrunner/stdin_pump.go: the one reader of a descriptor that attach sessions
-- share, one after another. The channel is not buffered: what the reader will send is a list, from
-- which a receive takes the first result. What a call finds of its context is an argument.
pub mod Stream
mod Tests
use sbsh.Base.{
  ℕ, Bool, true, false, Option, none, some, List, [], ◌∷◌, ◌++◌, if◌then◌else◌, take, drop,
}
use sbsh.Errdefs.{Error}

pub data PumpResult : Type 0 where
  data_of : List ℕ → PumpResult
  err_of : Error → PumpResult

-- One `src.Read`: its bytes, and its error.
pub record SourceRead : Type 0 where
  pub bytes : List ℕ
  pub err : Option Error

abbrev pub with_data : List ℕ → List PumpResult → List PumpResult
with_data [] rs = rs
with_data (b ∷ bs) rs = data_of (b ∷ bs) ∷ rs

abbrev pub with_err : Option Error → List PumpResult → List PumpResult
with_err none rs = rs
with_err (some e) rs = err_of e ∷ []

-- `run`: what it sends. It returns after the first error.
unfoldable pub run : List SourceRead → List PumpResult
run [] = []
run (s ∷ ss) = with_data s.bytes (with_err s.err (run ss))

pub record StdinPump : Type 0 where
  pub leftover : List ℕ
  pub read_err : Option Error

abbrev pub new_stdin_pump : StdinPump
new_stdin_pump = record { leftover = []; read_err = none }

-- A call of `read`: the size of its buffer, whether its context is done before the second select and
-- after the receive, and the arm that the second select takes.
pub record Call : Type 0 where
  pub room : ℕ
  pub ctx_err : Error
  pub done_before : Bool
  pub receives : Bool
  pub done_after : Bool

-- What a call returns, if it does not block, the pump, and what the reader has still to send.
pub record Answer : Type 0 where
  pub taken : List ℕ
  pub returned : Bool
  pub err : Option Error
  pub pump : StdinPump
  pub rest : List PumpResult

abbrev pub failed : Error → StdinPump → List PumpResult → Answer
failed e p rs = record { taken = []; returned = true; err = some e; pump = p; rest = rs }

abbrev pub stash : List ℕ → StdinPump → StdinPump
stash d p = record { leftover = p.leftover ++ d; read_err = p.read_err }

-- The receive of the second select.
abbrev pub receive : Call → StdinPump → List PumpResult → Answer
receive c p [] = record { taken = []; returned = false; err = none; pump = p; rest = [] }
receive c p (err_of e ∷ rs) = failed e (record { leftover = p.leftover; read_err = some e }) rs
receive c p (data_of d ∷ rs) = if c.done_after then failed c.ctx_err (stash d p) rs else record {
  taken = take c.room d;
  returned = true;
  err = none;
  pump = stash (drop c.room d) p;
  rest = rs;
}

abbrev pub wait : Call → StdinPump → List PumpResult → Answer
wait c p rs =
    if c.done_before
    then failed c.ctx_err p rs
    else if c.receives
    then receive c p rs
    else failed c.ctx_err p rs

abbrev pub after_leftover : Option Error → Call → StdinPump → List PumpResult → Answer
after_leftover (some e) c p rs = failed e p rs
after_leftover none c p rs = wait c p rs

abbrev pub read_from : List ℕ → Call → StdinPump → List PumpResult → Answer
read_from [] c p rs = after_leftover p.read_err c p rs
read_from (b ∷ bs) c p rs = record {
  taken = take c.room (b ∷ bs);
  returned = true;
  err = none;
  pump = record { leftover = drop c.room (b ∷ bs); read_err = p.read_err };
  rest = rs;
}

-- `read`.
unfoldable pub read : Call → StdinPump → List PumpResult → Answer
read c p rs = read_from p.leftover c p rs

-- Calls in any sessions, one after another: the bytes of each, the pump, and what is still to come.
unfoldable pub reads :
    List Call → StdinPump → List PumpResult → List (List ℕ) × (StdinPump × List PumpResult)
unfolding read
reads [] p rs = ([], (p, rs))
reads (c ∷ cs) p rs =
    let a = read c p rs in let (ts, end) = reads cs a.pump a.rest in (a.taken ∷ ts, end)
