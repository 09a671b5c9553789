-- ===== src/Base/Panic.antt =====
-- What a call of kernel code ends in: a value, or a stop of the whole machine by `panic`.
use Prim.Native.String.{String}

pub data Outcome {ℓ} (A : Type ℓ) : Type ℓ where
  returned : A → Outcome A
  panicked : String → Outcome A

infixl 5 ◌>>=◌
-- The code after a call runs unless the call stopped the machine.
abbrev pub ◌>>=◌ {ℓ κ} : {A : Type ℓ} {B : Type κ} → Outcome A → (A → Outcome B) → Outcome B
returned v >>= rest = rest v
panicked why >>= rest = panicked why
