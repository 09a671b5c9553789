-- ===== src/Storage.antt =====
-- What kernel/bio.c promises the layers above it, for the one device of the machine: `bread` yields
-- the current contents of a block, `bwrite` puts them on the disk, `bpin` and `bunpin` keep a
-- block in memory. The power may fail at any write to the disk: then only the disk is left.
pub mod Ensures
use os_exp.Base.{ℕ, ◌+◌, ◌-◌, arith, update, ◌==◌, if◌then◌else◌}
use os_exp.Block.{Block, Disk}
use Prim.Native.String.{String}

pub record Store : Type 0 where
  pub disk : Disk
  -- what `bread` yields: the cached buffer if there is one, else the disk's block
  pub cache : Disk
  pub pins : ℕ → ℕ
  -- how many writes the disk still makes before the power fails
  pub power : ℕ

pub data Run (A : Type 0) : Type 0 where
  done : A → Store → Run A
  crash : Disk → Run A
  panic : String → Run A

abbrev pub M : Type 0 → Type 0
M A = Store → Run A

abbrev pub pure : {A : Type 0} → A → M A
pure = done

module _ {A B : Type 0} where
  abbrev pub and_then : Run A → (A → M B) → Run B
  and_then (done a s) k = k a s
  and_then (crash d) k = crash d
  and_then (panic m) k = panic m

  infixl 5 ◌>>=◌ ◌>>◌
  abbrev pub ◌>>=◌ : M A → (A → M B) → M B
  m >>= k = λ s. and_then (m s) k

  abbrev pub ◌>>◌ : M A → M B → M B
  m >> n = m >>= λ _. n

abbrev pub bread : ℕ → M Block
bread b s = done (s.cache b) s

-- the caller's change of `b->data`, `b` held
abbrev pub set_data : ℕ → Block → M (Unit {0})
set_data b x s = done tt (record s { cache = update s.cache b x })

abbrev pub bwrite : ℕ → M (Unit {0})
bwrite b s =
    if s.power == 0
    then crash s.disk
    else done tt (record s { disk = update s.disk b (s.cache b); power = s.power - 1 })

abbrev pub bpin : ℕ → M (Unit {0})
bpin b s = done tt (record s { pins = update s.pins b (s.pins b + 1) })

abbrev pub bunpin : ℕ → M (Unit {0})
bunpin b s = done tt (record s { pins = update s.pins b (s.pins b - 1) })

-- the machine after a restart: nothing but the disk
abbrev pub boot : Disk → ℕ → Store
boot d p = record { disk = d; cache = d; pins = λ _. 0; power = p }
