-- ===== src/Capture/Next.antt =====
-- The sequence number that a rotation assigns, and the place of the segment that takes it.
use Prim.Native.Nat.{max}
use sbsh.Base.{
  ℕ, suc, ◌≡◌, refl, ap, ◌∙◌, ◌<◌, ◌≤◌, not, ◌||◌, none, inr, List, [], ◌∷◌, ◌++◌, ◌==◌, ltb,
  if-elim, arith,
}
use sbsh.Capture.{Entry, Disk, insert_segment, gather, collapse, wrap64, after_last, next_seq}
use sbsh.Capture.Order.{Below, Ascending, collapse-segment_of}

-- One past the highest number, or 0.
abbrev pub one_past : List Entry → ℕ
one_past [] = 0
one_past (e ∷ es) = max (suc e.seq) (one_past es)

after_last-one_past :
    (segs : List Entry) → Ascending segs → after_last segs ≡ wrap64 (one_past segs)
after_last-one_past [] a = refl
after_last-one_past (s ∷ []) a = ap wrap64 (omega arith)
after_last-one_past (s ∷ t ∷ ss) ((x, b), a) =
    after_last-one_past (t ∷ ss) a ∙ ap wrap64 (omega (arith, x))

one_past-insert_segment :
    (e : Entry) (segs : List Entry)
    → one_past (insert_segment e segs) ≡ max (suc e.seq) (one_past segs)
unfolding insert_segment
one_past-insert_segment e [] = refl
one_past-insert_segment e (s ∷ ss) =
    if-elim (λ r. one_past r ≡ max (suc e.seq) (one_past (s ∷ ss))) (e.seq == s.seq)
      (λ q.
        if-elim (λ r. one_past r ≡ max (suc e.seq) (one_past (s ∷ ss)))
          (not s.compressed || e.compressed) (λ _. ground (arith, q)) (λ _. ground (arith, q)))
      (λ q.
        if-elim (λ r. one_past r ≡ max (suc e.seq) (one_past (s ∷ ss))) (ltb e.seq s.seq)
          (λ l. ground (arith, q, l)) (λ l. ground (arith, q, l, one_past-insert_segment e ss)))

one_past-gather :
    (es segs : List Entry) → one_past (gather segs es) ≡ max (one_past segs) (one_past es)
unfolding gather
one_past-gather [] segs = omega arith
one_past-gather (e ∷ es) segs =
    omega (arith, one_past-gather es (insert_segment e segs), one_past-insert_segment e segs)

-- `NextSeq` is one past the highest number of any file beside the live one, raw or compressed, and 0
-- when there is none; it wraps after 2^64 - 1.
pub next_seq-one_past : (d : Disk) → next_seq none d ≡ inr (wrap64 (one_past d.entries))
next_seq-one_past d = ap inr (
    after_last-one_past (collapse d.entries) (collapse-segment_of d.entries 0).0
    ∙ ap wrap64 (one_past-gather d.entries [] ∙ omega arith))

pub one_past-Below : (es : List Entry) (n : ℕ) → one_past es ≤ n → Below n es
one_past-Below [] n h = tt
one_past-Below (e ∷ es) n h = (omega (arith, h), one_past-Below es n (omega (arith, h)))

insert_segment-snoc :
    (x e : Entry) (segs : List Entry)
    → x.seq < e.seq
    → insert_segment x (segs ++ e ∷ []) ≡ insert_segment x segs ++ e ∷ []
unfolding insert_segment
insert_segment-snoc x e [] h = ground (arith, h)
insert_segment-snoc x e (s ∷ ss) h = ground (arith, insert_segment-snoc x e ss h)

gather-snoc :
    (e : Entry) (es segs : List Entry)
    → Below e.seq es
    → gather (segs ++ e ∷ []) es ≡ gather segs es ++ e ∷ []
unfolding gather
gather-snoc e [] segs b = refl
gather-snoc e (x ∷ es) segs (h, b) =
    ap (λ r. gather r es) (insert_segment-snoc x e segs h)
    ∙ gather-snoc e es (insert_segment x segs) b

-- A segment numbered above all others comes last.
pub collapse-last :
    (e : Entry) (es : List Entry) → Below e.seq es → collapse (e ∷ es) ≡ collapse es ++ e ∷ []
unfolding gather insert_segment
collapse-last e es b = gather-snoc e es [] b

insert_segment-Below :
    (n : ℕ) (e : Entry) (segs : List Entry)
    → e.seq < n
    → Below n segs
    → Below n (insert_segment e segs)
unfolding insert_segment
insert_segment-Below n e [] h b = (h, tt)
insert_segment-Below n e (s ∷ ss) h (x, b) =
    if-elim (Below n) (e.seq == s.seq)
      (λ _. if-elim (Below n) (not s.compressed || e.compressed) (λ _. (x, b)) (λ _. (h, b)))
      (λ _.
        if-elim (Below n) (ltb e.seq s.seq) (λ _. (h, (x, b)))
          (λ _. (x, insert_segment-Below n e ss h b)))

pub gather-Below :
    (n : ℕ) (es segs : List Entry) → Below n segs → Below n es → Below n (gather segs es)
unfolding gather
gather-Below n [] segs a b = a
gather-Below n (e ∷ es) segs a (h, b) =
    gather-Below n es (insert_segment e segs) (insert_segment-Below n e segs h a) b
