-- ===== src/Subscriber/Steps.antt =====
-- internal/terminal/terminalrunner/subscriber.go: the producer, the drain `Run`, and closers as
-- interleaved steps.
use sbsh.Base.{ℕ, Bool, Option, none, some, List, ◌++◌, take}
use sbsh.Subscriber.{
  SubscriberWriter, queued, discarded, lags, waits, Wrote, wait_for_room, write, close, Found,
  nothing, end, chunk, drain,
}

-- Where the drain stands: at the head of its loop, in `conn.Write`, or returned, with or without a
-- failed write of a chunk. On its return `onDetach` has run and the connection is closed.
pub data Pc : Type 0 where
  at_head : Pc
  writing : List ℕ → Pc
  finished broken : Pc

-- `pending` is the payload of a producer that waits, `sent` the ring's bytes that the connection
-- took, `noticed` whether the lagged notice was sent after them. `accepted` is a record of the bytes
-- that entered the ring.
pub record Machine : Type 0 where
  pub writer : SubscriberWriter
  pub pending : Option (List ℕ)
  pub pc : Pc
  pub sent : List ℕ
  pub noticed : Bool
  pub accepted : List ℕ

-- A Write, a wake-up of the waiting producer, a Close, the drain taking the ring, the end of its
-- `conn.Write`: all went out, or an error after the first `n` bytes.
pub data Action : Type 0 where
  writes : Bool → List ℕ → Action
  wakes : Bool → Action
  closes drains write_ends : Action
  write_fails : ℕ → Action

abbrev pub wrote : List ℕ → Wrote → Machine → Machine
wrote p (s, queued) m = record m { writer = s; pending = none; accepted = m.accepted ++ p }
wrote p (s, discarded) m = record m { writer = s; pending = none }
wrote p (s, lags) m = record m { writer = s; pending = none }
wrote p (s, waits) m = record m { writer = s; pending = some p }

abbrev pub drained : SubscriberWriter × Found → Machine → Machine
drained (s, nothing) m = m
drained (s, end lagged) m = record m { pc = finished; noticed = lagged }
drained (s, chunk p) m = record m { writer = s; pc = writing p }

-- The drain's part of a step, by where it stands.
abbrev pub drain_step : Pc → Machine → Option Machine
drain_step at_head m = some (drained (drain m.writer) m)
drain_step _ m = none

abbrev pub write_end : Pc → Machine → Option Machine
write_end (writing p) m = some (record m { pc = at_head; sent = m.sent ++ p })
write_end _ m = none

abbrev pub write_fail : ℕ → Pc → Machine → Option Machine
write_fail n (writing p) m =
    some (record m { writer = close m.writer; pc = broken; sent = m.sent ++ take n p })
write_fail n _ m = none

-- One step; `none` is one that is not possible now. The producer is one goroutine.
unfoldable pub act : Action → Machine → Option Machine
act (writes expired p) m = elim m.pending [
  | none ↦ some (wrote p (write expired p m.writer) m)
  | some q ↦ none
]
act (wakes expired) m = elim m.pending [
  | none ↦ none
  | some p ↦ some (wrote p (wait_for_room expired p m.writer) m)
]
act closes m = some (record m { writer = close m.writer })
act drains m = drain_step m.pc m
act write_ends m = write_end m.pc m
act (write_fails n) m = write_fail n m.pc m
