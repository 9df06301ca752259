-- ===== src/Subscriber/Ordered.antt =====
-- The bytes of a subscriber in their order, and the writes of its producer.
use sbsh.Base.{
  ℕ, ◌+◌, ◌≤◌, ◌≡◌, refl, sym, ap, ◌∙◌, Bool, true, false, Option, none, some, List, [], ◌++◌,
  append_assoc, arith, length, length-append, if-elim,
}
use sbsh.Subscriber.{
  SubscriberWriter, queued, discarded, lags, waits, Wrote, wait_for_room, write, close, has_room,
  enqueue, drop_lagging,
}
use sbsh.Subscriber.Steps.{Pc, at_head, writing, finished, broken, Machine, Action, wrote, act}

-- Where the accepted bytes are.
abbrev pub Placed : Pc → Machine → Type 0
Placed at_head m = m.sent ++ m.writer.buf ≡ m.accepted
Placed (writing p) m = m.sent ++ p ++ m.writer.buf ≡ m.accepted
Placed finished m =
    (m.sent ≡ m.accepted)
    × (m.writer.buf ≡ [])
    × (m.writer.closed ≡ true)
    × (m.noticed ≡ m.writer.lagged)
Placed broken m = ((lost : List ℕ) × (m.sent ++ lost ≡ m.accepted)) × (m.writer.closed ≡ true)

pub record IsOrdered (m : Machine) : Type 0 where
  pub placed : Placed m.pc m
  pub bounded : length m.writer.buf ≤ m.writer.max_bytes
  pub lag_closes : m.writer.lagged ≡ true → m.writer.closed ≡ true

-- A writer before its drain starts, whose ring holds what was accepted.
pub data Reach (s : SubscriberWriter) : Machine → Type 0 where
  start : Reach s (record {
    writer = s;
    pending = none;
    pc = at_head;
    sent = [];
    noticed = false;
    accepted = s.buf;
  })
  next : {m m' : Machine} (a : Action) → Reach s m → act a m ≡ some m' → Reach s m'

-- What a write or a wake-up does to the ring, by its way.
abbrev Took : List ℕ → SubscriberWriter → Wrote → Type 0
Took p s (s', queued) = (s.closed ≡ false) × (has_room p s ≡ true) × (s' ≡ enqueue p s)
Took p s (s', discarded) = (s.closed ≡ true) × (s' ≡ s)
Took p s (s', lags) = (s.closed ≡ false) × (has_room p s ≡ false) × (s' ≡ drop_lagging s)
Took p s (s', waits) = (s.closed ≡ false) × (has_room p s ≡ false) × (s' ≡ s)

pub wait_for_room-Took :
    (expired : Bool) (p : List ℕ) (s : SubscriberWriter) → Took p s (wait_for_room expired p s)
unfolding wait_for_room
wait_for_room-Took expired p s =
    if-elim (Took p s) s.closed (λ c. (c, refl))
      λ c.
        if-elim (Took p s) (has_room p s) (λ r. (c, r, refl))
          λ r. if-elim (Took p s) expired (λ _. (c, r, refl)) (λ _. (c, r, refl))

pub write-Took : (expired : Bool) (p : List ℕ) (s : SubscriberWriter) → Took p s (write expired p s)
unfolding write
write-Took expired p s =
    if-elim (Took p s) s.closed (λ c. (c, refl))
      λ c.
        if-elim (Took p s) (has_room p s) (λ r. (c, r, refl))
          λ r.
            if-elim (Took p s) s.backpressure (λ _. wait_for_room-Took expired p s)
              (λ _. (c, r, refl))

queued-Placed :
    (pc : Pc) (m : Machine) (p : List ℕ)
    → Placed pc m
    → m.writer.closed ≡ false
    → Placed pc
        (record m { writer = enqueue p m.writer; pending = none; accepted = m.accepted ++ p })
queued-Placed at_head m p h c = sym (append_assoc m.sent m.writer.buf p) ∙ ap (λ x. x ++ p) h
queued-Placed (writing q) m p h c =
    sym (append_assoc (m.sent ++ q) m.writer.buf p) ∙ ap (λ x. x ++ p) h
queued-Placed finished m p h c = cc
queued-Placed broken m p h c = cc

lagged-Placed :
    (pc : Pc) (m : Machine)
    → Placed pc m
    → m.writer.closed ≡ false
    → Placed pc (record m { writer = drop_lagging m.writer; pending = none })
lagged-Placed at_head m h c = h
lagged-Placed (writing q) m h c = h
lagged-Placed finished m h c = cc
lagged-Placed broken m h c = cc

pending-Placed :
    (pc : Pc) (m : Machine) (q : Option (List ℕ))
    → Placed pc m
    → Placed pc (record m { pending = q })
pending-Placed at_head m q h = h
pending-Placed (writing p) m q h = h
pending-Placed finished m q h = h
pending-Placed broken m q h = h

pub closed-Placed :
    (pc : Pc) (m : Machine) → Placed pc m → Placed pc (record m { writer = close m.writer })
closed-Placed at_head m h = h
closed-Placed (writing p) m h = h
closed-Placed finished m (s, b, c, n) = (s, b, refl, n)
closed-Placed broken m (l, c) = (l, refl)

abbrev pub from : Machine → Option Machine → Machine
from m none = m
from m (some m') = m'

pub wrote-IsOrdered :
    (p : List ℕ) (r : Wrote) (m : Machine)
    → Took p m.writer r
    → IsOrdered m
    → IsOrdered (wrote p r m)
wrote-IsOrdered p (s, queued) m (c, r, e) h = rw e (record {
  placed = queued-Placed m.pc m p h.placed c;
  bounded = omega (arith, length-append m.writer.buf p, fits r);
  lag_closes = h.lag_closes;
})
  where
    fits : has_room p m.writer ≡ true → length m.writer.buf + length p ≤ m.writer.max_bytes
    fits r = ground arith
wrote-IsOrdered p (s, discarded) m (c, e) h = rw e (record {
  placed = pending-Placed m.pc m none h.placed;
  bounded = h.bounded;
  lag_closes = h.lag_closes;
})
wrote-IsOrdered p (s, lags) m (c, r, e) h = rw e (record {
  placed = lagged-Placed m.pc m h.placed c;
  bounded = h.bounded;
  lag_closes = λ _. refl;
})
wrote-IsOrdered p (s, waits) m (c, r, e) h = rw e (record {
  placed = pending-Placed m.pc m (some p) h.placed;
  bounded = h.bounded;
  lag_closes = h.lag_closes;
})
