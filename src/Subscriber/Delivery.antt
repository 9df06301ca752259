-- ===== src/Subscriber/Delivery.antt =====
-- What a subscriber's connection gets, under every interleaving.
use sbsh.Base.{
  ℕ, ◌≤◌, ◌≡◌, refl, sym, ap, ◌∙◌, Bool, false, Option, none, some, List, [], ◌∷◌, ◌++◌, append-nil,
  append_assoc, arith, length, take, drop, take-append-drop, if-elim,
}
use mathlib.Core.Path.{subst}
use sbsh.Subscriber.{SubscriberWriter, wait_for_room, write, drain, found}
use sbsh.Subscriber.Steps.{
  Pc, at_head, writing, finished, broken, Machine, Action, writes, wakes, closes, drains,
  write_ends, write_fails, wrote, drained, act, drain_step, write_end, write_fail,
}
use sbsh.Subscriber.Ordered.{
  Placed, IsOrdered, Reach, start, next, wait_for_room-Took, write-Took, closed-Placed, from,
  wrote-IsOrdered, start, next,
}

-- The drain takes the mutex at the head of its loop.
found-IsOrdered :
    (b : List ℕ) (m : Machine)
    → m.writer.buf ≡ b
    → m.sent ++ b ≡ m.accepted
    → m.pc ≡ at_head
    → IsOrdered m
    → IsOrdered (drained (record (m.writer) { buf = [] }, found b m.writer) m)
found-IsOrdered [] m e k q h =
    if-elim (λ x. IsOrdered (drained (record (m.writer) { buf = [] }, x) m)) m.writer.closed
      (λ c. record {
        placed = (sym (append-nil m.sent) ∙ k, e, c, refl);
        bounded = h.bounded;
        lag_closes = h.lag_closes;
      })
      (λ c. h)
found-IsOrdered (x ∷ b) m e k q h = record {
  placed = append-nil (m.sent ++ x ∷ b) ∙ k;
  bounded = omega arith;
  lag_closes = h.lag_closes;
}

drain_step-IsOrdered :
    (pc : Pc) (m m' : Machine) → m.pc ≡ pc → IsOrdered m → drain_step pc m ≡ some m' → IsOrdered m'
unfolding drain
drain_step-IsOrdered at_head m m' q h e =
    subst IsOrdered (ap (from m) e)
      (found-IsOrdered m.writer.buf m refl (subst (λ pc. Placed pc m) q h.placed) q h)
drain_step-IsOrdered (writing p) m m' q h e = cc
drain_step-IsOrdered finished m m' q h e = cc
drain_step-IsOrdered broken m m' q h e = cc

write_end-IsOrdered :
    (pc : Pc) (m m' : Machine) → m.pc ≡ pc → IsOrdered m → write_end pc m ≡ some m' → IsOrdered m'
write_end-IsOrdered (writing p) m m' q h e = subst IsOrdered (ap (from m) e) (record {
  placed = subst (λ pc. Placed pc m) q h.placed;
  bounded = h.bounded;
  lag_closes = h.lag_closes;
})
write_end-IsOrdered at_head m m' q h e = cc
write_end-IsOrdered finished m m' q h e = cc
write_end-IsOrdered broken m m' q h e = cc

lost_tail :
    (n : ℕ) (sent p buf acc : List ℕ)
    → sent ++ p ++ buf ≡ acc
    → sent ++ take n p ++ (drop n p ++ buf) ≡ acc
lost_tail n sent p buf acc h =
    append_assoc sent (take n p) (drop n p ++ buf)
    ∙ ap (λ x. sent ++ x) (sym (append_assoc (take n p) (drop n p) buf))
    ∙ ap (λ x. sent ++ (x ++ buf)) (take-append-drop n p)
    ∙ sym (append_assoc sent p buf)
    ∙ h

write_fail-IsOrdered :
    (n : ℕ) (pc : Pc) (m m' : Machine)
    → m.pc ≡ pc
    → IsOrdered m
    → write_fail n pc m ≡ some m'
    → IsOrdered m'
write_fail-IsOrdered n (writing p) m m' q h e = subst IsOrdered (ap (from m) e) (record {
  placed = (
    (
      drop n p ++ m.writer.buf,
      lost_tail n m.sent p m.writer.buf m.accepted (subst (λ pc. Placed pc m) q h.placed),
    ),
    refl,
  );
  bounded = h.bounded;
  lag_closes = λ _. refl;
})
write_fail-IsOrdered n at_head m m' q h e = cc
write_fail-IsOrdered n finished m m' q h e = cc
write_fail-IsOrdered n broken m m' q h e = cc

writes-IsOrdered :
    (x : Bool) (p : List ℕ) (o : Option (List ℕ)) (m m' : Machine)
    → IsOrdered m
    → elim o as (λ _. Option Machine) [
      | none ↦ some (wrote p (write x p m.writer) m)
      | some q ↦ none
    ]
      ≡ some m'
    → IsOrdered m'
writes-IsOrdered x p none m m' h e =
    subst IsOrdered (ap (from m) e)
      (wrote-IsOrdered p (write x p m.writer) m (write-Took x p m.writer) h)
writes-IsOrdered x p (some q) m m' h e = cc

wakes-IsOrdered :
    (x : Bool) (o : Option (List ℕ)) (m m' : Machine)
    → IsOrdered m
    → elim o as (λ _. Option Machine) [
      | none ↦ none
      | some p ↦ some (wrote p (wait_for_room x p m.writer) m)
    ]
      ≡ some m'
    → IsOrdered m'
wakes-IsOrdered x none m m' h e = cc
wakes-IsOrdered x (some p) m m' h e =
    subst IsOrdered (ap (from m) e)
      (wrote-IsOrdered p (wait_for_room x p m.writer) m (wait_for_room-Took x p m.writer) h)

act-IsOrdered : (a : Action) (m m' : Machine) → IsOrdered m → act a m ≡ some m' → IsOrdered m'
unfolding act
act-IsOrdered (writes x p) m m' h e = writes-IsOrdered x p m.pending m m' h e
act-IsOrdered (wakes x) m m' h e = wakes-IsOrdered x m.pending m m' h e
act-IsOrdered closes m m' h e =
    subst IsOrdered (ap (from m) e) (record {
      placed = closed-Placed m.pc m h.placed;
      bounded = h.bounded;
      lag_closes = λ _. refl;
    })
act-IsOrdered drains m m' h e = drain_step-IsOrdered m.pc m m' refl h e
act-IsOrdered write_ends m m' h e = write_end-IsOrdered m.pc m m' refl h e
act-IsOrdered (write_fails n) m m' h e = write_fail-IsOrdered n m.pc m m' refl h e

-- A writer that is open and holds no more than its bound.
pub record IsReady (s : SubscriberWriter) : Type 0 where
  pub open_yet : s.closed ≡ false
  pub unlagged : s.lagged ≡ false
  pub fits : length s.buf ≤ s.max_bytes

-- Under every interleaving of the producer, the drain and closers, from a ready writer: the
-- connection has taken a prefix of the bytes that entered the ring, in order, and the rest of them
-- stands in the drain's chunk and the ring; only a failed write of the connection loses them, and
-- that closes the writer. The ring never exceeds its bound. A drain that finished with no failed
-- write has sent them all, and the lagged notice after them exactly if the writer lagged.
pub Reach-IsOrdered : (s : SubscriberWriter) → IsReady s → (m : Machine) → Reach s m → IsOrdered m
Reach-IsOrdered s r m start = record {
  placed = refl;
  bounded = r.fits;
  lag_closes = λ l. absurd (ground (arith, l, r.unlagged));
}
Reach-IsOrdered s r m (next {m = m0} a h e) = act-IsOrdered a m0 m (Reach-IsOrdered s r m0 h) e
