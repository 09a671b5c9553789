-- ===== src/Fs/Inode/Tests.antt =====
-- A file of two blocks with the inode number 5, written and read again.
use os_exp.Base.{
  ℕ, ◌^◌, ◌<◌, ◌≡◌, refl, Bool, true, false, Option, none, some, arith, ◌==◌, if◌then◌else◌,
  Outcome, returned, panicked,
}
use os_exp.Fs.{Blocks, Superblock}
use os_exp.Fs.Inode.{Inode, Table, iupdate, ilock, iget, iget_loop}
use os_exp.Fs.Inode.Store.{Fits, SameFields}
use os_exp.Fs.Inode.RoundTrip.{iupdate-ilock}
use os_exp.Fs.Inode.Table.{IsTable}
use os_exp.Fs.Inode.Get.{IgetResult, iget_lem}

abbrev sb : Superblock
sb = record { size = 100; ninodes = 40; inodestart = 4; bmapstart = 7 }

abbrev two_blocks : Inode
two_blocks = record {
  dev = 1;
  inum = 5;
  ref = 1;
  locked = true;
  valid = true;
  itype = 2;
  major = 0;
  minor = 0;
  nlink = 1;
  size = 1500;
  addrs = λ k. if k == 0 then 50 else if k == 1 then 51 else 0;
}

abbrev stale : Inode
stale = record two_blocks {
  locked = false;
  valid = false;
  itype = 0;
  nlink = 0;
  size = 0;
  addrs = λ k. 0;
}

abbrev blank : Blocks
blank = record { contents = λ b i. 0; logged = λ b. false }

addr-bound : (a b : Bool) → (if a then 50 else if b then 51 else 0) < 2 ^ 32
addr-bound true b = omega arith
addr-bound false true = omega arith
addr-bound false false = omega arith

two_blocks-Fits : Fits two_blocks
two_blocks-Fits = record {
  itype = omega arith;
  major = omega arith;
  minor = omega arith;
  nlink = omega arith;
  size = omega arith;
  addrs = λ k h. addr-bound _ _;
}

iupdate-ilock_example :
    (ip' : Inode) × (ilock sb stale (iupdate sb two_blocks blank) ≡ returned (some ip'))
    × SameFields two_blocks ip'
    × (ip'.valid ≡ true)
    × (ip'.locked ≡ true)
iupdate-ilock_example =
    iupdate-ilock sb two_blocks stale blank two_blocks-Fits refl (omega arith) refl refl λ e. cc

-- Entry 0 is in use, all others are not.
abbrev one_open : Table
one_open i = record stale { ref = if i == 0 then 1 else 0 }

ref-zero : (c : Bool) → 0 < (if c then 1 else 0) → c ≡ true
ref-zero true h = refl
ref-zero false h = absurd (omega arith)

one_open-IsTable : IsTable one_open
one_open-IsTable i j hi hj pos n = ground (arith, ref-zero (i == 0) pos, ref-zero (j == 0) n.0)

iget_lem_example : IgetResult 1 9 one_open (iget 1 9 one_open)
iget_lem_example = iget_lem 1 9 one_open one_open-IsTable

abbrev entry_of : Outcome (ℕ × Table) → Option ℕ
entry_of (returned (i, t)) = some i
entry_of (panicked why) = none

-- The inode that is open already, and one that is not.
finds_entry_0 : entry_of (iget 1 5 one_open) ≡ some 0
unfolding iget iget_loop
finds_entry_0 = refl

takes_entry_1 : entry_of (iget 1 9 one_open) ≡ some 1
unfolding iget iget_loop
takes_entry_1 = refl
