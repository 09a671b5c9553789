-- ===== src/Fs.antt =====
-- The file system, kernel/fs.c, above the log: blocks as the current transaction sees them.
pub mod Bits
pub mod Bitmap
pub mod Alloc
pub mod Inode
pub mod File
pub mod Write
pub mod Read
pub mod RoundTrip
pub mod Trunc
pub mod Path
mod Tests
use os_exp.Base.{
  ℕ, zero, suc, ◌+◌, ◌-◌, ◌*◌, ◌/◌, ◌%◌, ◌^◌, ◌≤◌, ◌<◌, min, ◌≡◌, refl, sym, ap, ◌∙◌, subst,
  fun_ext, ◌≢◌, ◌↔◌, ◌⊎◌, inl, inr, Bool, true, false, not, ◌&&◌, ◌||◌, Option, none, some, List,
  [], ◌∷◌, ◌++◌, map, append-nil, append_assoc, arith, ltb, leb, ◌==◌, if◌then◌else◌, ==_iff,
  Bool-cases, Option-cases, length, length-append, get_elem?, set, take, drop, All, elem, Distinct,
  update, update_self, update_ne, Outcome, returned, panicked, ◌>>=◌,
}
use Prim.Native.Nat.{bit_and, bit_or}
use os_exp.Block.{Block, Disk, bsize}

-- The current contents of the blocks, and which of them `log_write` was called for.
pub record Blocks : Type 0 where
  pub contents : Disk
  pub logged : ℕ → Bool

-- `b` is changed to `x` and logged.
abbrev pub change : ℕ → Block → Blocks → Blocks
change b x s = record { contents = update s.contents b x; logged = update s.logged b true }

pub record Superblock : Type 0 where
  pub size : ℕ
  pub ninodes : ℕ
  pub inodestart : ℕ
  pub bmapstart : ℕ

-- BPB and BBLOCK
abbrev pub bpb : ℕ
bpb = bsize * 8

abbrev pub bblock : ℕ → Superblock → ℕ
bblock b sb = b / bpb + sb.bmapstart

pub bzero : ℕ → Blocks → Blocks
bzero bno s = change bno (λ _. 0) s

-- `bp->data[bi/8] & m`, `|= m` and `&= ~m` for `m = 1 << (bi % 8)`
abbrev pub is_free : Block → ℕ → Bool
is_free x bi = bit_and (x (bi / 8)) (2 ^ (bi % 8)) == 0

abbrev pub mark : Block → ℕ → Block
mark x bi = update x (bi / 8) (bit_or (x (bi / 8)) (2 ^ (bi % 8)))

abbrev pub unmark : Block → ℕ → Block
unmark x bi = update x (bi / 8) (bit_and (x (bi / 8)) (255 - 2 ^ (bi % 8)))

-- The inner loop of `balloc`: the first free bit of the block, with `k` rounds left.
pub find_free : Block → ℕ → ℕ → Option ℕ
find_free x zero bi = none
find_free x (suc k) bi = let rest = find_free x k (bi + 1) in if is_free x bi then some bi else rest

module _ (sb : Superblock) where
  -- Marking and zeroing the block that was found.
  abbrev pub claim : (b bi : ℕ) → Blocks → ℕ × Blocks
  claim b bi s =
      let s' = change (bblock b sb) (mark (s.contents (bblock b sb)) bi) s in
      (b + bi, bzero (b + bi) s')

  abbrev pub after : ℕ → Blocks → ℕ × Blocks → Option ℕ → ℕ × Blocks
  after b s rest (some bi) = claim b bi s
  after b s rest none = rest

  -- The outer loop of `balloc`, with fuel; 0 means that no block is free.
  pub balloc_loop : ℕ → ℕ → Blocks → ℕ × Blocks
  unfolding find_free
  balloc_loop zero b s = (0, s)
  balloc_loop (suc fuel) b s =
      let rest = balloc_loop fuel (b + bpb) s in
      if ltb b sb.size
      then after b s rest (find_free (s.contents (bblock b sb)) (min bpb (sb.size - b)) 0)
      else (0, s)

  pub balloc : Blocks → ℕ × Blocks
  unfolding balloc_loop
  balloc s = balloc_loop (sb.size / bpb + 1) 0 s

  pub bfree : ℕ → Blocks → Outcome Blocks
  bfree b s =
      let x = s.contents (bblock b sb) in
      let bi = b % bpb in
      if is_free x bi
      then panicked "freeing free block"
      else returned (change (bblock b sb) (unmark x bi) s)
