-- ===== src/Subscriber.antt =====
-- internal/terminal/terminalrunner/subscriber.go: the bounded ring between the terminal's output and
-- one connection. A method that holds the mutex is one function; where `cond.Wait` gives it up, the
-- method ends, and a wake-up is a call of its own.
pub mod Steps
pub mod Ordered
pub mod Delivery
pub mod Policy
mod Tests
use sbsh.Base.{
  ℕ, suc, ◌+◌, Bool, true, false, not, ◌&&◌, List, [], ◌∷◌, ◌++◌, length, leb, if◌then◌else◌,
  Option, none, some,
}
use sbsh.Process.{ℤ, pos, negsuc}

pub record SubscriberWriter : Type 0 where
  pub buf : List ℕ
  pub max_bytes : ℕ
  pub closed : Bool
  pub lagged : Bool
  pub backpressure : Bool

-- 1 MiB.
abbrev pub default_subscriber_buffer_bytes : ℕ
default_subscriber_buffer_bytes = 1048576

abbrev pub bound : ℤ → ℕ
bound (pos ℕ.zero) = default_subscriber_buffer_bytes
bound (pos (suc n)) = suc n
bound (negsuc n) = default_subscriber_buffer_bytes

unfoldable pub new_subscriber_writer : ℤ → SubscriberWriter
new_subscriber_writer max = record {
  buf = [];
  max_bytes = bound max;
  closed = false;
  lagged = false;
  backpressure = false;
}

abbrev pub enable_backpressure : SubscriberWriter → SubscriberWriter
enable_backpressure s = record s { backpressure = true }

-- An empty replay changes nothing here, as the early return does.
unfoldable pub seed_replay : List ℕ → SubscriberWriter → SubscriberWriter
seed_replay b s = record s { buf = s.buf ++ b; max_bytes = s.max_bytes + length b }

-- The way that `Write` took: it queued the bytes, dropped them, dropped them and the subscriber, or
-- waits for room. Its result is success each time that it returns.
pub data Way : Type 0 where
  queued discarded lags waits : Way

abbrev pub Wrote : Type 0
Wrote = SubscriberWriter × Way

abbrev pub enqueue : List ℕ → SubscriberWriter → SubscriberWriter
enqueue p s = record s { buf = s.buf ++ p }

abbrev pub drop_lagging : SubscriberWriter → SubscriberWriter
drop_lagging s = record s { lagged = true; closed = true }

abbrev pub has_room : List ℕ → SubscriberWriter → Bool
has_room p s = leb (length s.buf + length p) s.max_bytes

-- The loop of `waitForRoom` from its head, with what `Write` does on its result; `expired` is
-- whether the stall budget is over.
unfoldable pub wait_for_room : Bool → List ℕ → SubscriberWriter → Wrote
wait_for_room expired p s =
    if s.closed
    then (s, discarded)
    else if has_room p s
    then (enqueue p s, queued)
    else if expired
    then (drop_lagging s, lags)
    else (s, waits)

unfoldable pub write : Bool → List ℕ → SubscriberWriter → Wrote
unfolding wait_for_room
write expired p s =
    if s.closed
    then (s, discarded)
    else if has_room p s
    then (enqueue p s, queued)
    else if s.backpressure
    then wait_for_room expired p s
    else (drop_lagging s, lags)

abbrev pub close : SubscriberWriter → SubscriberWriter
close s = record s { closed = true }

-- What the drain finds when it has the mutex: nothing yet, the end, or a chunk.
pub data Found : Type 0 where
  nothing : Found
  end : Bool → Found
  chunk : List ℕ → Found

abbrev pub found : List ℕ → SubscriberWriter → Found
found [] s = if s.closed then end s.lagged else nothing
found (b ∷ p) s = chunk (b ∷ p)

-- The drain's part under the mutex: the whole ring is taken.
unfoldable pub drain : SubscriberWriter → SubscriberWriter × Found
drain s = (record s { buf = [] }, found s.buf s)
