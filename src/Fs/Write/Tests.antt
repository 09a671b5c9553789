-- ===== src/Fs/Write/Tests.antt =====
-- Five bytes are written to an empty file on a disk of ten blocks, with the inodes in block 1, the bitmap
-- in block 2 and blocks 0 to 2 in use.
use os_exp.Base.{
  ℕ, ◌+◌, ◌/◌, ◌≤◌, ◌<◌, ◌≡◌, refl, sym, subst, inl, inr, Bool, true, false, ◌&&◌, Option, none,
  some, arith, ltb, ◌==◌, if◌then◌else◌, Bool-cases, Outcome, returned, panicked,
}
use os_exp.Fs.Trunc.{itrunc}
use os_exp.Fs.Trunc.Result.{Truncated, itrunc-Truncated}
use os_exp.Fs.Read.{Reading, readi}
use os_exp.Fs.RoundTrip.{writei-readi}
use os_exp.Fs.{Blocks, Superblock, bpb, balloc, balloc_loop, find_free, bzero}
use os_exp.Fs.Alloc.{IsBitmap}
use os_exp.Fs.Inode.{Inode, iupdate, put_addrs}
use os_exp.Fs.File.{bmap, slot}
use os_exp.Fs.File.Mapping.{block_of, byte, IsFile}
use os_exp.Fs.Write.{log_full, count_logged, Source, writei, write_loop}
use os_exp.Fs.Write.Result.{IsStored, WriteiResult, writei_lem}

abbrev sb : Superblock
sb = record { size = 10; ninodes = 8; inodestart = 1; bmapstart = 2 }

abbrev formatted : Blocks
formatted = record { contents = λ b i. if (b == 2) && (i == 0) then 7 else 0; logged = λ b. false }

byte-bound : (c : Bool) → (if c then 7 else 0) < 256
byte-bound true = omega arith
byte-bound false = omega arith

formatted-IsBitmap : IsBitmap sb formatted
formatted-IsBitmap = record {
  bytes = λ b h i. byte-bound _;
  own = λ b h. let first : b / bpb ≡ 0 = omega arith in rw first (omega arith, refl);
  boot = refl;
}

abbrev no_blocks : Inode
no_blocks = record {
  dev = 1;
  inum = 3;
  ref = 1;
  locked = true;
  valid = true;
  itype = 2;
  major = 0;
  minor = 0;
  nlink = 1;
  size = 0;
  addrs = λ k. 0;
}

none_there : (n : ℕ) → block_of no_blocks formatted n ≡ 0
none_there n = elim (Bool-cases (ltb n 12)) [ inl y ↦ rw y refl | inr o ↦ rw o refl ]

no_blocks-IsFile : IsFile sb formatted no_blocks
no_blocks-IsFile = record {
  bitmap = formatted-IsBitmap;
  mapping = record {
    in_use = λ n h e. absurd (e (none_there n));
    ind_in_use = λ e. absurd (e refl);
    apart = λ n h e. absurd (e (none_there n));
    distinct = λ m n hm hn e. absurd (e (none_there m));
  };
}

no_blocks-IsStored : IsStored sb formatted no_blocks
no_blocks-IsStored = record {
  data_block = (omega arith, omega arith, λ c h. omega arith);
  in_use = refl;
  apart = ((λ n h e. cc (sym (none_there n), e)), λ e. cc);
}

abbrev hello : Source
hello = record { bytes = λ k. 65 + k; readable = 5 }

writei_lem_example :
    WriteiResult sb hello 0 5 no_blocks formatted (writei sb hello 0 5 no_blocks formatted)
writei_lem_example =
    writei_lem sb hello 0 5 (omega arith) no_blocks formatted no_blocks-IsFile no_blocks-IsStored
      (omega arith) (omega arith) (omega arith)

-- The byte at an offset after the call.
abbrev byte_after : ℕ → Outcome (Option ℕ × Inode × Blocks) → Option ℕ
byte_after o (returned (tot, ip, s)) = some (byte ip s o)
byte_after o (panicked why) = none

third_byte : byte_after 2 (writei sb hello 0 5 no_blocks formatted) ≡ some 67
unfolding writei write_loop log_full count_logged bmap slot balloc balloc_loop find_free bzero
    iupdate put_addrs os_exp.Block.get_uint os_exp.Block.put_uint
third_byte = refl

abbrev wrote : Outcome (Option ℕ × Inode × Blocks) → Inode × Blocks
wrote (returned (tot, ip, s)) = (ip, s)
wrote (panicked why) = (no_blocks, formatted)

abbrev after_hello : Inode × Blocks
after_hello = wrote (writei sb hello 0 5 no_blocks formatted)

writes_5 : writei sb hello 0 5 no_blocks formatted ≡ returned (some 5, after_hello.0, after_hello.1)
unfolding writei write_loop log_full count_logged bmap slot balloc balloc_loop find_free bzero
    iupdate put_addrs os_exp.Block.get_uint os_exp.Block.put_uint
writes_5 = refl

writei-readi_example :
    (p : Reading) × (readi sb 5 0 5 (λ i. 0) after_hello.0 after_hello.1 ≡ returned p)
    × (p.0 ≡ some 5)
    × ((i : ℕ) → i < 5 → p.1 i ≡ 65 + i)
    × ((i : ℕ) → 5 ≤ i → p.1 i ≡ 0)
writei-readi_example =
    writei-readi sb hello 0 5 5 5 (omega arith) (λ i. 0) no_blocks after_hello.0 formatted
      after_hello.1 no_blocks-IsFile no_blocks-IsStored (omega arith) (omega arith) (omega arith)
      (omega arith) (omega arith) writes_5

hello-Done :
    WriteiResult sb hello 0 5 no_blocks formatted (returned (some 5, after_hello.0, after_hello.1))
hello-Done = subst (WriteiResult sb hello 0 5 no_blocks formatted) writes_5 (
    writei_lem sb hello 0 5 (omega arith) no_blocks formatted no_blocks-IsFile no_blocks-IsStored
      (omega arith) (omega arith) (omega arith))

itrunc-Truncated_example :
    (ip' : Inode) × (s' : Blocks) × (itrunc sb after_hello.0 after_hello.1 ≡ returned (ip', s'))
    × Truncated sb after_hello.1 after_hello.0 ip' s'
itrunc-Truncated_example =
    itrunc-Truncated sb after_hello.1 after_hello.0 hello-Done.valid hello-Done.stored
