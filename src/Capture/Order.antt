-- ===== src/Capture/Order.antt =====
-- The order of a capture's segments, and the sequence number that comes next.
use sbsh.Base.{
  ℕ, ◌≡◌, refl, ap, ◌∙◌, ◌<◌, ◌≤◌, Bool, true, false, not, ◌||◌, ◌&&◌, Option, none, some, List, [],
  ◌∷◌, ◌==◌, ltb, if◌then◌else◌, Bool-cases, if-elim, arith, inl, inr,
}
use sbsh.Capture.{Entry, insert_segment, gather, collapse, is_file}

-- Every entry is numbered below `n`, and above.
abbrev pub Below : ℕ → List Entry → Type 0
Below n [] = Unit
Below n (e ∷ es) = (e.seq < n) × Below n es

abbrev pub Above : ℕ → List Entry → Type 0
Above n [] = Unit
Above n (e ∷ es) = (n < e.seq) × Above n es

abbrev pub Ascending : List Entry → Type 0
Ascending [] = Unit
Ascending (e ∷ es) = Above e.seq es × Ascending es

-- The entry that stands for a number.
abbrev pub segment_of : ℕ → List Entry → Option Entry
segment_of n [] = none
segment_of n (e ∷ es) = let rest = segment_of n es in if e.seq == n then some e else rest

-- The first file of one kind.
abbrev pub first_file : ℕ → Bool → List Entry → Option Entry
first_file n gz [] = none
first_file n gz (e ∷ es) = let rest = first_file n gz es in if is_file n gz e then some e else rest

abbrev pub or_else : Option Entry → Option Entry → Option Entry
or_else none b = b
or_else (some e) b = some e

-- The raw file, or else the compressed one.
abbrev pub preferred : ℕ → List Entry → Option Entry
preferred n es = or_else (first_file n false es) (first_file n true es)

-- What the loop makes of the entry it holds for a number, at one entry and at all of them.
abbrev pub replaced : ℕ → Option Entry → Entry → Option Entry
replaced n none e = if e.seq == n then some e else none
replaced n (some s) e = if e.seq == n && (s.compressed && not e.compressed) then some e else some s

abbrev pub kept : ℕ → Option Entry → List Entry → Option Entry
kept n o [] = o
kept n o (e ∷ es) = kept n (replaced n o e) es

Above-mono : (m n : ℕ) (es : List Entry) → m ≤ n → Above n es → Above m es
Above-mono m n [] h a = tt
Above-mono m n (e ∷ es) h (x, a) = (omega (arith, h, x), Above-mono m n es h a)

segment_of-Above : (n m : ℕ) (es : List Entry) → n ≤ m → Above m es → segment_of n es ≡ none
segment_of-Above n m [] h a = refl
segment_of-Above n m (e ∷ es) h (x, a) = ground (arith, h, x, segment_of-Above n m es h a)

insert_segment-Above :
    (m : ℕ) (e : Entry) (segs : List Entry)
    → m < e.seq
    → Above m segs
    → Above m (insert_segment e segs)
unfolding insert_segment
insert_segment-Above m e [] h a = (h, tt)
insert_segment-Above m e (s ∷ ss) h (x, a) =
    if-elim (Above m) (e.seq == s.seq)
      (λ _. if-elim (Above m) (not s.compressed || e.compressed) (λ _. (x, a)) (λ _. (h, a)))
      (λ _.
        if-elim (Above m) (ltb e.seq s.seq) (λ _. (h, (x, a)))
          (λ _. (x, insert_segment-Above m e ss h a)))

insert_segment-Ascending :
    (e : Entry) (segs : List Entry) → Ascending segs → Ascending (insert_segment e segs)
unfolding insert_segment
insert_segment-Ascending e [] a = (tt, tt)
insert_segment-Ascending e (s ∷ ss) (x, a) =
    if-elim Ascending (e.seq == s.seq)
      (λ q.
        if-elim Ascending (not s.compressed || e.compressed) (λ _. (x, a))
          (λ _. (Above-mono e.seq s.seq ss (ground (arith, q)) x, a)))
      (λ q.
        if-elim Ascending (ltb e.seq s.seq)
          (λ l.
            let under : e.seq < s.seq = ground (arith, l) in
            ((under, Above-mono e.seq s.seq ss (omega (arith, under)) x), (x, a)))
          (λ l. (
            insert_segment-Above s.seq e ss (ground (arith, q, l)) x,
            insert_segment-Ascending e ss a,
          )))

segment_of-insert_segment :
    (n : ℕ) (e : Entry) (segs : List Entry)
    → Ascending segs
    → segment_of n (insert_segment e segs) ≡ replaced n (segment_of n segs) e
unfolding insert_segment
segment_of-insert_segment n e [] a = refl
segment_of-insert_segment n e (s ∷ ss) (x, a) =
    let ih = segment_of-insert_segment n e ss a in
    elim (Bool-cases (e.seq == s.seq)) [
      | inl q ↦ ground (arith, q)
      | inr q ↦ elim (Bool-cases (ltb e.seq s.seq)) [
        | inl l ↦ ground (arith, q, l, segment_of-Above n s.seq ss)
        | inr l ↦ ground (arith, q, l, ih)
      ]
    ]

segment_of-gather :
    (n : ℕ) (es segs : List Entry)
    → Ascending segs
    → Ascending (gather segs es) × (segment_of n (gather segs es) ≡ kept n (segment_of n segs) es)
unfolding gather
segment_of-gather n [] segs a = (a, refl)
segment_of-gather n (e ∷ es) segs a =
    let (up, same_kept) =
      segment_of-gather n es (insert_segment e segs) (insert_segment-Ascending e segs a) in
    (up, same_kept ∙ ap (λ o. kept n o es) (segment_of-insert_segment n e segs a))

-- What a held entry becomes over the files that follow.
abbrev held : ℕ → Option Entry → List Entry → Option Entry
held n none es = preferred n es
held n (some s) es = if s.compressed then or_else (first_file n false es) (some s) else some s

kept-held : (n : ℕ) (o : Option Entry) (es : List Entry) → kept n o es ≡ held n o es
kept-held n none [] = refl
kept-held n (some s) [] = ground arith
kept-held n none (e ∷ es) = elim (Bool-cases (e.seq == n)) [
  | inl q ↦ elim (Bool-cases e.compressed) [
    | inl c ↦ ground (arith, q, c, kept-held n (some e) es)
    | inr c ↦ ground (arith, q, c, kept-held n (some e) es)
  ]
  | inr q ↦ ground (arith, q, kept-held n none es)
]
kept-held n (some s) (e ∷ es) = elim (Bool-cases (e.seq == n)) [
  | inl q ↦ elim (Bool-cases e.compressed) [
    | inl c ↦ ground (arith, q, c, kept-held n (some s) es)
    | inr c ↦ ground (arith, q, c, kept-held n (some s) es, kept-held n (some e) es)
  ]
  | inr q ↦ ground (arith, q, kept-held n (some s) es)
]

-- The closed segments come in strictly ascending order of their numbers, and the one of each number
-- is the first raw file of that number, or, when there is no raw one, the first compressed one: none
-- when there is no file of that number. The order of the listing decides nothing else.
pub collapse-segment_of :
    (es : List Entry) (n : ℕ)
    → Ascending (collapse es) × (segment_of n (collapse es) ≡ preferred n es)
collapse-segment_of es n =
    let (up, same_kept) = segment_of-gather n es [] tt in (up, same_kept ∙ kept-held n none es)
