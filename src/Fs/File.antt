-- ===== src/Fs/File.antt =====
-- The blocks of a file, kernel/fs.c: `bmap` of an inode that the caller has locked.
pub mod Mapping
pub mod Kept
pub mod Slot
pub mod Entry
pub mod Found
pub mod Bmap
mod Tests
use os_exp.Base.{
  ℕ, zero, suc, ◌+◌, ◌-◌, ◌*◌, ◌/◌, ◌%◌, ◌^◌, ◌≤◌, ◌<◌, min, ◌≡◌, refl, sym, ap, ◌∙◌, subst,
  fun_ext, ◌≢◌, ◌↔◌, ◌⊎◌, inl, inr, Bool, true, false, not, ◌&&◌, ◌||◌, Option, none, some, List,
  [], ◌∷◌, ◌++◌, map, append-nil, append_assoc, arith, ltb, leb, ◌==◌, if◌then◌else◌, ==_iff,
  Bool-cases, Option-cases, length, length-append, get_elem?, set, take, drop, All, elem, Distinct,
  update, update_self, update_ne, Outcome, returned, panicked, ◌>>=◌,
}
use os_exp.Base.Word.{u32, u32_mod}
use os_exp.Block.{Block, Disk, bsize, get_uint, put_uint}
use os_exp.Fs.{Blocks, Superblock, change, balloc}
use os_exp.Fs.Inode.{Inode, ndirect, iupdate}

-- NINDIRECT and MAXFILE
abbrev pub nindirect : ℕ
nindirect = bsize / 4

abbrev pub maxfile : ℕ
maxfile = ndirect + nindirect

abbrev pub Mapped : Type 0
Mapped = ℕ × Inode × Blocks

module _ (sb : Superblock) where
  -- `ip->addrs[k]`, with a new block if there is none.
  abbrev pub keep_addr : Inode → ℕ → ℕ × Blocks → Mapped
  keep_addr ip k (r, s) = (r, if r == 0 then ip else record ip { addrs = update ip.addrs k r }, s)

  unfoldable pub slot : Inode → ℕ → Blocks → Mapped
  slot ip k s = if ip.addrs k == 0 then keep_addr ip k (balloc sb s) else (ip.addrs k, ip, s)

  -- The entry `i` of the indirect block `a`.
  abbrev pub keep_entry : Inode → (a i : ℕ) → ℕ × Blocks → Mapped
  keep_entry ip a i (r, s) = (r, ip, if r == 0 then s else change a (put_uint (s.contents a) i r) s)

  abbrev pub entry : (a i : ℕ) → Inode → Blocks → Mapped
  entry a i ip s =
      if get_uint (s.contents a) i == 0
      then keep_entry ip a i (balloc sb s)
      else (get_uint (s.contents a) i, ip, s)

  abbrev pub indirect : ℕ → Mapped → Mapped
  indirect i (a, ip, s) = if a == 0 then (0, ip, s) else entry a i ip s

  unfoldable pub bmap : Inode → ℕ → Blocks → Outcome Mapped
  unfolding slot
  bmap ip bn s =
      if ltb bn ndirect
      then returned (slot ip bn s)
      else if ltb (bn - ndirect) nindirect
      then returned (indirect (bn - ndirect) (slot ip ndirect s))
      else panicked "bmap: out of range"
