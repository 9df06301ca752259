-- ===== src/Outcome.antt =====
-- Go's channels of capacity one and closed channels, for the two controllers.
use sbsh.Base.{◌≡◌, Bool, true, false, Option, none, some}
use sbsh.Errdefs.{Error}

-- `blocked` is a send or a receive that cannot go on, `panicked` a `close` of a closed channel.
pub data Outcome {ℓ} (A : Type ℓ) : Type ℓ where
  done : A → Outcome A
  blocked : Outcome A
  panicked : Outcome A

infixl 5 ◌>>=◌
abbrev pub ◌>>=◌ {ℓ κ} : {A : Type ℓ} {B : Type κ} → Outcome A → (A → Outcome B) → Outcome B
done a >>= f = f a
blocked >>= f = blocked
panicked >>= f = panicked

-- A `chan error` of capacity one: empty, or holding an error that may be nil.
abbrev pub Slot : Type 0
Slot = Option (Option Error)

abbrev pub send : Option Error → Slot → Outcome Slot
send e none = done (some e)
send e (some x) = blocked

abbrev pub receive : Slot → Outcome (Option Error)
receive none = blocked
receive (some e) = done e

-- `close(ch)`, where `true` is a closed channel.
abbrev pub close_chan : Bool → Outcome Bool
close_chan false = done true
close_chan true = panicked

-- The operation ends: it neither waits for ever nor panics.
abbrev pub Ends {ℓ} : {A : Type ℓ} → Outcome A → Type ℓ
Ends {A} o = (a : A) × (o ≡ done a)
