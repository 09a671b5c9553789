-- ===== src/Fs/Inode.antt =====
-- Inodes, kernel/fs.c and kernel/file.h: the table of those in memory, and their place on the disk.
-- `itable.lock` makes each section that it guards one step.
pub mod Fields
pub mod Store
pub mod RoundTrip
pub mod Table
pub mod Get
mod Tests
use os_exp.Base.{
  ℕ, zero, suc, ◌+◌, ◌-◌, ◌*◌, ◌/◌, ◌%◌, ◌^◌, ◌≤◌, ◌<◌, min, ◌≡◌, refl, sym, ap, ◌∙◌, subst,
  fun_ext, ◌≢◌, ◌↔◌, ◌⊎◌, inl, inr, Bool, true, false, not, ◌&&◌, ◌||◌, Option, none, some, List,
  [], ◌∷◌, ◌++◌, map, append-nil, append_assoc, arith, ltb, leb, ◌==◌, if◌then◌else◌, ==_iff,
  Bool-cases, Option-cases, length, length-append, get_elem?, set, take, drop, All, elem, Distinct,
  update, update_self, update_ne, Outcome, returned, panicked, ◌>>=◌,
}
use os_exp.Base.Word.{u32_mod}
use os_exp.Block.{Block, Disk, bsize, get_uint, put_uint}
use os_exp.Fs.{Blocks, Superblock, change}

abbrev pub ndirect : ℕ
ndirect = 12

-- NINODE
abbrev pub ninode : ℕ
ninode = 50

-- A `short` is its bit pattern, below 2^16.
pub record Inode : Type 0 where
  pub dev : ℕ
  pub inum : ℕ
  pub ref : ℕ
  -- whether the sleep lock is held
  pub locked : Bool
  pub valid : Bool
  pub itype : ℕ
  pub major : ℕ
  pub minor : ℕ
  pub nlink : ℕ
  pub size : ℕ
  pub addrs : ℕ → ℕ

-- IPB and IBLOCK: `sizeof(struct dinode)` is 64.
abbrev pub ipb : ℕ
ipb = bsize / 64

abbrev pub iblock : ℕ → Superblock → ℕ
iblock i sb = i / ipb + sb.inodestart

-- The 16-bit numbers of a block.
unfoldable pub get_short : Block → ℕ → ℕ
get_short x i = x (2 * i) + 256 * x (2 * i + 1)

unfoldable pub put_short : Block → ℕ → ℕ → Block
put_short x i v k = if k / 2 == i then (if k % 2 == 0 then v % 256 else v / 256 % 256) else x k

-- `memmove(dip->addrs, ip->addrs, sizeof(ip->addrs))`, with `k` addresses left and `w` the word.
unfoldable pub put_addrs : (ℕ → ℕ) → ℕ → ℕ → ℕ → Block → Block
put_addrs addrs zero i w x = x
put_addrs addrs (suc k) i w x = put_addrs addrs k (i + 1) (w + 1) (put_uint x w (addrs i))

-- `dip` is at the number `inum % IPB`: 32 shorts, or 16 words, each.
abbrev pub with_meta : Inode → ℕ → Block → Block
with_meta ip n x =
    put_short
      (put_short (put_short (put_short x (32 * n) ip.itype) (32 * n + 1) ip.major) (32 * n + 2)
        ip.minor)
      (32 * n + 3) ip.nlink

abbrev pub with_inode : Inode → ℕ → Block → Block
with_inode ip n x =
    put_addrs ip.addrs (ndirect + 1) 0 (16 * n + 3)
      (put_uint (with_meta ip n x) (16 * n + 2) ip.size)

unfoldable pub iupdate : Superblock → Inode → Blocks → Blocks
unfolding put_addrs
iupdate sb ip s =
    change (iblock ip.inum sb) (with_inode ip (ip.inum % ipb) (s.contents (iblock ip.inum sb))) s

-- The part of `ilock` that reads the inode.
abbrev pub load : Block → ℕ → Inode → Inode
load x n ip = record ip {
  itype = get_short x (32 * n);
  major = get_short x (32 * n + 1);
  minor = get_short x (32 * n + 2);
  nlink = get_short x (32 * n + 3);
  size = get_uint x (16 * n + 2);
  addrs = λ k. get_uint x (16 * n + 3 + k);
  valid = true;
}

-- `ilock`: `none` where the caller sleeps on the lock.
pub ilock : Superblock → Inode → Blocks → Outcome (Option Inode)
ilock sb ip s =
    if ltb ip.ref 1
    then panicked "ilock"
    else if ip.locked
    then returned none
    else if ip.valid
    then returned (some (record ip { locked = true }))
    else let ip' =
        load (s.contents (iblock ip.inum sb)) (ip.inum % ipb) (record ip { locked = true }) in
      if ip'.itype == 0 then panicked "ilock: no type" else returned (some ip')

pub iunlock : Inode → Outcome Inode
iunlock ip =
    if not ip.locked || ltb ip.ref 1
    then panicked "iunlock"
    else returned (record ip { locked = false })

-- The table, and the loop of `iget` with `k` entries left: the entry of the inode, or the first entry
-- that is not in use.
abbrev pub Table : Type 0
Table = ℕ → Inode

pub data Slot : Type 0 where
  present : ℕ → Slot
  vacant : Option ℕ → Slot

abbrev pub remember : Option ℕ → ℕ → Inode → Option ℕ
remember (some e) i ip = some e
remember none i ip = if ip.ref == 0 then some i else none

pub iget_loop : (dev inum : ℕ) → ℕ → ℕ → Option ℕ → Table → Slot
iget_loop dev inum zero i empty t = vacant empty
iget_loop dev inum (suc k) i empty t =
    let rest = iget_loop dev inum k (i + 1) (remember empty i (t i)) t in
    if ltb 0 (t i).ref && ((t i).dev == dev) && ((t i).inum == inum) then present i else rest

abbrev pub iget_slot : (dev inum : ℕ) → Slot → Table → Outcome (ℕ × Table)
iget_slot dev inum (present i) t = returned (i, update t i (record (t i) { ref = (t i).ref + 1 }))
iget_slot dev inum (vacant (some i)) t =
    returned (i, update t i (record (t i) { dev = dev; inum = inum; ref = 1; valid = false }))
iget_slot dev inum (vacant none) t = panicked "iget: no inodes"

pub iget : (dev inum : ℕ) → Table → Outcome (ℕ × Table)
unfolding iget_loop
iget dev inum t = iget_slot dev inum (iget_loop dev inum ninode 0 none t) t

pub idup : ℕ → Table → Table
idup i t = update t i (record (t i) { ref = (t i).ref + 1 })
