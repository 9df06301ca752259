-- ===== src/Subscriber/Tests.antt =====
-- The subscriber's theorems at inputs.
use sbsh.Base.{refl, true, false, none, [], ◌∷◌, arith}
use sbsh.Subscriber.{SubscriberWriter, write}
use sbsh.Subscriber.Steps.{Machine, at_head, writes, act}
use sbsh.Subscriber.Ordered.{IsOrdered, Reach, start, next}
use sbsh.Subscriber.Delivery.{Reach-IsOrdered}

abbrev small : SubscriberWriter
small = record { buf = 1 ∷ []; max_bytes = 2; closed = false; lagged = false; backpressure = false }

-- A write of two bytes has overflowed the ring.
abbrev overflown : Machine
overflown = record {
  writer = record {
    buf = 1 ∷ [];
    max_bytes = 2;
    closed = true;
    lagged = true;
    backpressure = false;
  };
  pending = none;
  pc = at_head;
  sent = [];
  noticed = false;
  accepted = 1 ∷ [];
}

overflown-Reach : Reach small overflown
unfolding act write
overflown-Reach = next (writes false (2 ∷ 3 ∷ [])) start refl

Reach-IsOrdered_example : IsOrdered overflown
Reach-IsOrdered_example =
    Reach-IsOrdered small (record { open_yet = refl; unlagged = refl; fits = omega arith })
      overflown overflown-Reach
