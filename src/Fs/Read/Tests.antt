-- ===== src/Fs/Read/Tests.antt =====
-- A file of 1500 bytes without blocks, on a disk of ten blocks with the inodes in block 1, the bitmap in
-- block 2 and blocks 0 to 2 in use.
use os_exp.Base.{
  ℕ, ◌/◌, ◌<◌, ◌≡◌, refl, inl, inr, Bool, true, false, ◌&&◌, arith, ltb, ◌==◌, if◌then◌else◌,
  Bool-cases, returned,
}
use os_exp.Fs.{Blocks, Superblock, bpb}
use os_exp.Fs.Alloc.{IsBitmap}
use os_exp.Fs.Inode.{Inode}
use os_exp.Fs.File.Mapping.{block_of, IsFile}
use os_exp.Fs.Read.{Reading, readi}
use os_exp.Fs.Read.Loop.{WasRead}
use os_exp.Fs.Read.Result.{wanted, readi_lem}

abbrev sb : Superblock
sb = record { size = 10; ninodes = 8; inodestart = 1; bmapstart = 2 }

abbrev formatted : Blocks
formatted = record { contents = λ b i. if (b == 2) && (i == 0) then 7 else 0; logged = λ b. false }

byte-bound : (c : Bool) → (if c then 7 else 0) < 256
byte-bound true = omega arith
byte-bound false = omega arith

formatted-IsBitmap : IsBitmap sb formatted
formatted-IsBitmap = record {
  bytes = λ b h i. byte-bound _;
  own = λ b h. let first : b / bpb ≡ 0 = omega arith in rw first (omega arith, refl);
  boot = refl;
}

abbrev holes : Inode
holes = record {
  dev = 1;
  inum = 3;
  ref = 1;
  locked = true;
  valid = true;
  itype = 2;
  major = 0;
  minor = 0;
  nlink = 1;
  size = 1500;
  addrs = λ k. 0;
}

none_there : (n : ℕ) → block_of holes formatted n ≡ 0
none_there n = elim (Bool-cases (ltb n 12)) [ inl y ↦ rw y refl | inr o ↦ rw o refl ]

holes-IsFile : IsFile sb formatted holes
holes-IsFile = record {
  bitmap = formatted-IsBitmap;
  mapping = record {
    in_use = λ n h e. absurd (e (none_there n));
    ind_in_use = λ e. absurd (e refl);
    apart = λ n h e. absurd (e (none_there n));
    distinct = λ m n hm hn e. absurd (e (none_there m));
  };
}

abbrev target : ℕ → ℕ
target i = 9

-- 500 bytes are left from the offset 1000 on.
readi_lem_example :
    (p : Reading) × (readi sb 600 1000 600 target holes formatted ≡ returned p)
    × WasRead sb 600 1000 (wanted 1500 1000 600) 0 target holes formatted p
readi_lem_example =
    readi_lem sb 600 1000 600 (omega arith) target holes formatted holes-IsFile (omega arith)
      (omega arith) (omega arith) (omega arith)
