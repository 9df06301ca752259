-- ===== src/Copier/Total.antt =====
-- The loops of `readWriteBytes` end, whatever the writer and the filter do.
use sbsh.Base.{
  ℕ, zero, suc, ◌≤◌, ◌<◌, ◌≡◌, refl, inl, inr, Option, none, some, List, [], ◌∷◌, ◌==◌, arith,
  length, length-drop, drop, Bool-cases,
}
use sbsh.Errdefs.{Error}
use sbsh.Filter.{Chunk}
use sbsh.Copier.{
  Writer, Filter, Copied, wrote, write_all, delivered, deliver, filtered, copy_loop,
  read_write_bytes, call_filter, progress, finish,
}

abbrev pub Returns {ℓ} : {A : Type ℓ} → Option A → Type ℓ
Returns {A} r = (a : A) × (r ≡ some a)

wrote-Returns :
    {W : Type 0} (w : W) (m : ℕ) (e : Option Error) (rest : Option (W × Option Error))
    → (0 < m → Returns rest)
    → Returns (wrote w m e rest)
unfolding wrote
wrote-Returns w m (some e) rest h = (_, refl)
wrote-Returns w zero none rest h = (_, refl)
wrote-Returns w (suc m) none rest h = let (a, e) = h (omega arith) in (a, ground (arith, e))

module _ {W : Type 0} (write : Writer W) where
  -- The loop over short writes ends after at most one round for each byte.
  pub write_all-Returns :
      (fuel : ℕ) (w : W) (p : List ℕ) → length p ≤ fuel → Returns (write_all write fuel w p)
  unfolding write_all
  write_all-Returns fuel w [] h = (_, refl)
  write_all-Returns zero w (b ∷ p) h = absurd (omega arith)
  write_all-Returns (suc fuel) w (b ∷ p) h =
      let (w', m, e) = write w (b ∷ p) in
      wrote-Returns w' m e _
        λ pos. write_all-Returns fuel w' (drop m (b ∷ p)) (omega (arith, length-drop m (b ∷ p)))

module _ {W S : Type 0} (write : Writer W) where
  delivered-Returns :
      (s : S) (r : Option (W × Option Error)) (next : W → Copied S W)
      → Returns r
      → ((w : W) → Returns (next w))
      → Returns (delivered s r next)
  unfolding delivered
  delivered-Returns s none next (a, e) h = cc
  delivered-Returns s (some (w, some x)) next r h = (_, refl)
  delivered-Returns s (some (w, none)) next r h = h w

  deliver-Returns :
      (s : S) (w : W) (bad : Error) (o : Option (List ℕ)) (next : W → Copied S W)
      → ((w : W) → Returns (next w))
      → Returns (deliver write s w bad o next)
  unfolding deliver
  deliver-Returns s w bad none next h = (_, refl)
  deliver-Returns s w bad (some o) next h =
      delivered-Returns s _ next (write_all-Returns write (length o) w o (omega arith)) h

  filtered-Returns :
      (s : S) (w : W) (p : List ℕ) (c : Chunk) (e : Option Error) (next : W → Copied S W)
      → ((w : W) → Returns (next w))
      → Returns (filtered write s w p c e next)
  unfolding filtered
  filtered-Returns s w p c (some e) next h = (_, refl)
  filtered-Returns s w p c none next h = elim (Bool-cases (c.nwrite == 0)) [
    | inl z ↦ rw z (h w)
    | inr n ↦ rw n (deliver-Returns s w _ _ next h)
  ]

-- A filter that writes only when it consumes, as `Process` documents.
abbrev pub IsLively : {S : Type 0} → Filter S → Type 0
IsLively {S} f = (s : S) (p : List ℕ) → (f s p).1.ncons ≡ 0 → (f s p).1.nwrite ≡ 0

progress-pos : (b : ℕ) (c : Chunk) → (c.ncons ≡ 0 → c.nwrite ≡ 0) → 0 < (progress b c).ncons
progress-pos b c h = ground arith

abbrev pub AllLively : {S : Type 0} → Option (Filter S) → Type 0
AllLively none = Unit
AllLively (some f) = IsLively f

call_filter-pos :
    {S : Type 0} (filter : Option (Filter S)) (s : S) (b : ℕ) (p : List ℕ)
    → AllLively filter
    → 0 < (progress b (call_filter filter s (b ∷ p)).1).ncons
call_filter-pos (some f) s b p h = progress-pos b _ (h s (b ∷ p))
call_filter-pos none s b p h =
    progress-pos b (call_filter none s (b ∷ p)).1 (λ e. absurd (omega arith))

module _ {W S : Type 0} (write : Writer W) (filter : Option (Filter S)) where
  copy_loop-Returns :
      (fuel : ℕ) (s : S) (w : W) (p : List ℕ)
      → AllLively filter
      → length p ≤ fuel
      → Returns (copy_loop write filter fuel s w p)
  unfolding copy_loop
  copy_loop-Returns fuel s w [] l h = (_, refl)
  copy_loop-Returns zero s w (b ∷ p) l h = absurd (omega arith)
  copy_loop-Returns (suc fuel) s w (b ∷ p) l h =
      let (s', c0, e) = call_filter filter s (b ∷ p) in
      filtered-Returns write s' w (b ∷ p) (progress b c0) e _ λ w'.
        copy_loop-Returns fuel s' w' (drop (progress b c0).ncons (b ∷ p)) l
          (omega (arith, length-drop (progress b c0).ncons (b ∷ p), call_filter-pos filter s b p l))

finish-Returns :
    {S W : Type 0} (rerr : Option Error) (r : Copied S W) → Returns r → Returns (finish rerr r)
finish-Returns rerr none (a, e) = cc
finish-Returns rerr (some (s, w, some e)) h = (_, refl)
finish-Returns rerr (some (s, w, none)) h = (_, refl)

-- `readWriteBytes` returns on every writer and every read, with no filter or with one that consumes
-- a byte whenever it writes one: neither of its loops runs for ever.
pub read_write_bytes-Returns :
    {W S : Type 0} (write : Writer W) (filter : Option (Filter S)) (s : S) (w : W) (p : List ℕ)
    (rerr : Option Error)
    → AllLively filter
    → Returns (read_write_bytes write filter s w p rerr)
unfolding read_write_bytes
read_write_bytes-Returns write filter s w p rerr l =
    finish-Returns rerr _ (copy_loop-Returns write filter (length p) s w p l (omega arith))
