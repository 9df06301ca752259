-- ===== src/Subscriber/Policy.antt =====
-- The two fan-out policies of a subscriber, and the seeded replay.
use sbsh.Base.{
  ℕ, ◌+◌, ◌≤◌, ◌≡◌, ◌≢◌, refl, ap, Bool, true, false, Option, none, some, List, [], ◌∷◌, ◌++◌,
  arith, length, if-elim, Bool-cases, ◌⊎◌, inl, inr,
}
use mathlib.Core.Path.{subst}
use sbsh.Process.{ℤ}
use sbsh.Subscriber.{
  SubscriberWriter, queued, waits, wait_for_room, write, close, has_room, drain, found, bound,
  new_subscriber_writer, seed_replay, enqueue,
}
use sbsh.Subscriber.Steps.{
  Pc, at_head, writing, finished, broken, Machine, Action, writes, wakes, closes, drains,
  write_ends, write_fails, wrote, drained, act, drain_step, write_end, write_fail,
}
use sbsh.Subscriber.Ordered.{Reach, start, next}

abbrev from : Machine → Option Machine → Machine
from m none = m
from m (some m') = m'

-- A property of the writer's policy and of the waiting producer that every step keeps, if a write
-- and a wake-up do.
module _ (Q : Option (List ℕ) → SubscriberWriter → Type 0)
    (on_write : (x : Bool) (p : List ℕ) (m : Machine)
      → Q none m.writer
      → Q (wrote p (write x p m.writer) m).pending (wrote p (write x p m.writer) m).writer)
    (on_wake : (x : Bool) (p : List ℕ) (m : Machine)
      → Q (some p) m.writer
      → Q
          (wrote p (wait_for_room x p m.writer) m).pending
          (wrote p (wait_for_room x p m.writer) m).writer)
    (on_close : (q : Option (List ℕ)) (s : SubscriberWriter) → Q q s → Q q (close s))
    (on_take : (q : Option (List ℕ)) (s : SubscriberWriter)
      → Q q s
      → Q q (record s { buf = [] })) where
  abbrev Good : Machine → Type 0
  Good m = Q m.pending m.writer

  write_step :
      (x : Bool) (p : List ℕ) (o : Option (List ℕ)) (m m' : Machine)
      → m.pending ≡ o
      → Good m
      → elim o as (λ _. Option Machine) [
        | none ↦ some (wrote p (write x p m.writer) m)
        | some q ↦ none
      ]
        ≡ some m'
      → Good m'
  write_step x p none m m' q h e =
      subst Good (ap (from m) e) (on_write x p m (subst (λ o. Q o m.writer) q h))
  write_step x p (some r) m m' q h e = cc

  wake_step :
      (x : Bool) (o : Option (List ℕ)) (m m' : Machine)
      → m.pending ≡ o
      → Good m
      → elim o as (λ _. Option Machine) [
        | none ↦ none
        | some p ↦ some (wrote p (wait_for_room x p m.writer) m)
      ]
        ≡ some m'
      → Good m'
  wake_step x none m m' q h e = cc
  wake_step x (some p) m m' q h e =
      subst Good (ap (from m) e) (on_wake x p m (subst (λ o. Q o m.writer) q h))

  taken :
      (b : List ℕ) (m : Machine)
      → Good m
      → Good (drained (record (m.writer) { buf = [] }, found b m.writer) m)
  taken [] m h =
      if-elim (λ x. Good (drained (record (m.writer) { buf = [] }, x) m)) m.writer.closed (λ _. h)
        (λ _. h)
  taken (x ∷ b) m h = on_take m.pending m.writer h

  drain-Good : (pc : Pc) (m m' : Machine) → Good m → drain_step pc m ≡ some m' → Good m'
  unfolding drain
  drain-Good at_head m m' h e = subst Good (ap (from m) e) (taken m.writer.buf m h)
  drain-Good (writing p) m m' h e = cc
  drain-Good finished m m' h e = cc
  drain-Good broken m m' h e = cc

  end-Good : (pc : Pc) (m m' : Machine) → Good m → write_end pc m ≡ some m' → Good m'
  end-Good (writing p) m m' h e = subst Good (ap (from m) e) h
  end-Good at_head m m' h e = cc
  end-Good finished m m' h e = cc
  end-Good broken m m' h e = cc

  fail-Good : (n : ℕ) (pc : Pc) (m m' : Machine) → Good m → write_fail n pc m ≡ some m' → Good m'
  fail-Good n (writing p) m m' h e = subst Good (ap (from m) e) (on_close m.pending m.writer h)
  fail-Good n at_head m m' h e = cc
  fail-Good n finished m m' h e = cc
  fail-Good n broken m m' h e = cc

  act-Good : (a : Action) (m m' : Machine) → Good m → act a m ≡ some m' → Good m'
  unfolding act
  act-Good (writes x p) m m' h e = write_step x p m.pending m m' refl h e
  act-Good (wakes x) m m' h e = wake_step x m.pending m m' refl h e
  act-Good closes m m' h e = subst Good (ap (from m) e) (on_close m.pending m.writer h)
  act-Good drains m m' h e = drain-Good m.pc m m' h e
  act-Good write_ends m m' h e = end-Good m.pc m m' h e
  act-Good (write_fails n) m m' h e = fail-Good n m.pc m m' h e

-- A passive writer has no producer that waits.
abbrev IsPassive : Option (List ℕ) → SubscriberWriter → Type 0
IsPassive q s = (q ≡ none) × (s.backpressure ≡ false)

IsPassive-write :
    (x : Bool) (p : List ℕ) (m : Machine)
    → IsPassive none m.writer
    → IsPassive (wrote p (write x p m.writer) m).pending (wrote p (write x p m.writer) m).writer
unfolding write
IsPassive-write x p m (_, b) = ground arith

-- Under every interleaving, the producer never waits for a passive writer, however slow its
-- connection is.
pub Reach-passive :
    (s : SubscriberWriter) (m : Machine) → s.backpressure ≡ false → Reach s m → m.pending ≡ none
Reach-passive s m b r = (kept m r).0
  where
    kept : (m : Machine) → Reach s m → IsPassive m.pending m.writer
    kept m start = (refl, b)
    kept m (next {m = m0} a r e) =
        act-Good IsPassive IsPassive-write (λ x p m h. cc) (λ q s h. h) (λ q s h. h) a m0 m
          (kept m0 r) e

-- On an open writer with backpressure, a Write and a wake-up never lag the subscriber within the
-- stall budget, so that the bytes are queued or still wait, and never wait beyond it.
pub write-backpressure :
    (p : List ℕ) (s : SubscriberWriter)
    → s.backpressure ≡ true
    → s.closed ≡ false
    → ((write false p s ≡ (enqueue p s, queued)) ⊎ (write false p s ≡ (s, waits)))
      × ((wait_for_room false p s ≡ (enqueue p s, queued)) ⊎ (wait_for_room false p s ≡ (s, waits)))
      × ((write true p s).1 ≢ waits)
      × ((wait_for_room true p s).1 ≢ waits)
unfolding write wait_for_room
write-backpressure p s b c = elim (Bool-cases (has_room p s)) [
  | inl r ↦ (
    inl (ground (arith, b, c, r)),
    inl (ground (arith, c, r)),
    ground (arith, b, c, r),
    ground (arith, c, r),
  )
  | inr r ↦ (
    inr (ground (arith, b, c, r)),
    inr (ground (arith, c, r)),
    ground (arith, b, c, r),
    ground (arith, c, r),
  )
]

-- A replay that is seeded into a new writer stands at the head of the ring, and leaves the room of
-- the whole bound for live output: a first write that fits the bound is queued behind it.
pub seed_replay-queued :
    (max : ℤ) (b p : List ℕ) (expired : Bool)
    → length p ≤ bound max
    → write expired p (seed_replay b (new_subscriber_writer max)) ≡ (
      record {
        buf = b ++ p;
        max_bytes = bound max + length b;
        closed = false;
        lagged = false;
        backpressure = false;
      },
      queued,
    )
unfolding write seed_replay new_subscriber_writer
seed_replay-queued max b p expired h = ground arith
