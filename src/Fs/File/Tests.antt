-- ===== src/Fs/File/Tests.antt =====
-- An empty file on a disk of ten blocks, the bitmap in block 2 and blocks 0 and 2 in use.
use os_exp.Base.{
  ℕ, ◌/◌, ◌<◌, ◌≡◌, refl, inl, inr, Bool, true, false, ◌&&◌, Option, none, some, arith, ltb, ◌==◌,
  if◌then◌else◌, Bool-cases, Outcome, returned, panicked,
}
use os_exp.Fs.{Blocks, Superblock, bpb, balloc, balloc_loop, find_free, bzero}
use os_exp.Fs.Alloc.{IsBitmap}
use os_exp.Fs.Inode.{Inode}
use os_exp.Fs.File.{Mapped, bmap, slot}
use os_exp.Fs.File.Mapping.{block_of, IsFile}
use os_exp.Fs.File.Found.{Found}
use os_exp.Fs.File.Bmap.{bmap-Found}

abbrev sb : Superblock
sb = record { size = 10; ninodes = 8; inodestart = 1; bmapstart = 2 }

abbrev formatted : Blocks
formatted = record { contents = λ b i. if (b == 2) && (i == 0) then 5 else 0; logged = λ b. false }

byte-bound : (c : Bool) → (if c then 5 else 0) < 256
byte-bound true = omega arith
byte-bound false = omega arith

formatted-IsBitmap : IsBitmap sb formatted
formatted-IsBitmap = record {
  bytes = λ b h i. byte-bound _;
  own = λ b h. let first : b / bpb ≡ 0 = omega arith in rw first (omega arith, refl);
  boot = refl;
}

abbrev no_blocks : Inode
no_blocks = record {
  dev = 1;
  inum = 3;
  ref = 1;
  locked = true;
  valid = true;
  itype = 2;
  major = 0;
  minor = 0;
  nlink = 1;
  size = 0;
  addrs = λ k. 0;
}

no_blocks-IsFile : IsFile sb formatted no_blocks
no_blocks-IsFile = record {
  bitmap = formatted-IsBitmap;
  mapping = record {
    in_use = λ n h e. absurd (e (none_there n));
    ind_in_use = λ e. absurd (e refl);
    apart = λ n h e. absurd (e (none_there n));
    distinct = λ m n hm hn e. absurd (e (none_there m));
  };
}
  where
    none_there : (n : ℕ) → block_of no_blocks formatted n ≡ 0
    none_there n = elim (Bool-cases (ltb n 12)) [ inl y ↦ rw y refl | inr o ↦ rw o refl ]

abbrev number_of : Outcome Mapped → Option ℕ
number_of (returned (r, ip, s)) = some r
number_of (panicked why) = none

-- The indirect block becomes block 1, and the block of the file block 3.
gives_3 : number_of (bmap sb no_blocks 20 formatted) ≡ some 3
unfolding bmap slot balloc balloc_loop find_free bzero os_exp.Block.get_uint
gives_3 = refl

bmap-Found_example :
    (m : Mapped) × (bmap sb no_blocks 20 formatted ≡ returned m) × Found sb formatted no_blocks 20 m
bmap-Found_example =
    bmap-Found sb (omega arith) formatted no_blocks 20 no_blocks-IsFile (omega arith)
