-- ===== src/Storage/Ensures.antt =====
-- Outcomes of a run: it returns with a postcondition, or the power fails and the disk has a property.
-- A panic is neither.
use os_exp.Base.{◌≡◌, refl, subst}
use mathlib.Core.Path.{subst₂}
use os_exp.Block.{Disk}
use os_exp.Storage.{Store, Run, done, crash, M, and_then}

pub data Ensures {A : Type 0} (Q : A → Store → Type 0) (C : Disk → Type 0) : Run A → Type 0 where
  returns : {a : A} {s : Store} → Q a s → Ensures Q C (done a s)
  crashes : {d : Disk} → C d → Ensures Q C (crash d)

module _ {A : Type 0} {P : A → Store → Type 0} {C : Disk → Type 0} where
  pub bind :
      {B : Type 0} {Q : B → Store → Type 0} {r : Run A} {k : A → M B}
      → Ensures P C r
      → ((a : A) (s : Store) → P a s → Ensures Q C (k a s))
      → Ensures Q C (and_then r k)
  bind (returns p) next = next _ _ p
  bind (crashes c) next = crashes c

  pub mono :
      {Q : A → Store → Type 0} {D : Disk → Type 0} {r : Run A}
      → Ensures P C r
      → ((a : A) (s : Store) → P a s → Q a s)
      → ((d : Disk) → C d → D d)
      → Ensures Q D r
  mono (returns p) f g = returns (f _ _ p)
  mono (crashes c) f g = crashes (g _ c)

module _ {A : Type 0} {Q : A → Store → Type 0} {C : Disk → Type 0} where
  -- What is known of the disk of a run that was seen to fail.
  pub of_crash : {r : Run A} {d : Disk} → Ensures Q C r → r ≡ crash d → C d
  of_crash (returns q) e = cc
  of_crash (crashes c) e = let e' : _ ≡ _ = cc in subst C e' c

  -- A run that cannot fail returns.
  pub of_no_crash :
      {r : Run A}
      → Ensures Q C r
      → ((d : Disk) → C d → ⊥)
      → (a : A) × (s : Store) × (r ≡ done a s) × Q a s
  of_no_crash (returns q) h = (_, _, refl, q)
  of_no_crash (crashes c) h = absurd (h _ c)

  -- What is known of a run that returned.
  pub of_done : {r : Run A} {a : A} {s : Store} → Ensures Q C r → r ≡ done a s → Q a s
  of_done (returns {a = b} {s = t} q) e =
      let ea : b ≡ _ = cc in let es : t ≡ _ = cc in subst₂ Q ea es q
  of_done (crashes c) e = cc
