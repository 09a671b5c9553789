-- ===== src/Fs/Read.antt =====
-- `readi` of kernel/fs.c, on an inode that the caller has locked.
pub mod Loop
pub mod Result
mod Tests
use os_exp.Base.{
  ℕ, zero, suc, ◌+◌, ◌-◌, ◌*◌, ◌/◌, ◌%◌, ◌^◌, ◌≤◌, ◌<◌, min, ◌≡◌, refl, sym, ap, ◌∙◌, subst,
  fun_ext, ◌≢◌, ◌↔◌, ◌⊎◌, inl, inr, Bool, true, false, not, ◌&&◌, ◌||◌, Option, none, some, List,
  [], ◌∷◌, ◌++◌, map, append-nil, append_assoc, arith, ltb, leb, ◌==◌, if◌then◌else◌, ==_iff,
  Bool-cases, Option-cases, length, length-append, get_elem?, set, take, drop, All, elem, Distinct,
  update, update_self, update_ne, Outcome, returned, panicked, ◌>>=◌,
}
use os_exp.Base.Word.{u32}
use os_exp.Block.{Block, bsize}
use os_exp.Fs.{Blocks, Superblock}
use os_exp.Fs.Inode.{Inode}
use os_exp.Fs.File.{Mapped, bmap}
use os_exp.Fs.Write.{round_size}

-- The bytes from `dst` on after a copy of `m` bytes of the block, from `pos` on, to the offset `tot`.
abbrev pub put_out : (ℕ → ℕ) → (tot : ℕ) → Block → (pos m : ℕ) → ℕ → ℕ
put_out dst tot x pos m i = if leb tot i && ltb i (tot + m) then x (pos + (i - tot)) else dst i

-- The result, `none` for -1, the bytes from `dst` on, the inode and the blocks.
abbrev pub Reading : Type 0
Reading = Option ℕ × (ℕ → ℕ) × Inode × Blocks

-- `writable` is how many bytes from `dst` on `either_copyout` can write before it fails.
module _ (sb : Superblock) (writable : ℕ) where
  abbrev pub copied_out : (tot m : ℕ) → ℕ
  copied_out tot m = min m (writable - tot)

  abbrev pub read_round :
      (tot off n : ℕ)
      → (ℕ → ℕ)
      → (ℕ → ℕ → (ℕ → ℕ) → Inode → Blocks → Outcome Reading)
      → Mapped
      → Outcome Reading
  read_round tot off n dst rest (addr, ip, s) =
      let m = round_size tot off n in
      let out = put_out dst tot (s.contents addr) (off % bsize) (copied_out tot m) in
      if addr == 0
      then returned (some tot, dst, ip, s)
      else if ltb (copied_out tot m) m
      then returned (none, out, ip, s)
      else rest (tot + m) (off + m) out ip s

  pub read_loop : ℕ → (tot off n : ℕ) → (ℕ → ℕ) → Inode → Blocks → Outcome Reading
  read_loop zero tot off n dst ip s = returned (some tot, dst, ip, s)
  read_loop (suc fuel) tot off n dst ip s =
      if ltb tot n
      then bmap sb ip (off / bsize) s
        >>= read_round tot off n dst
            (λ tot' off' dst' ip' s'. read_loop fuel tot' off' n dst' ip' s')
      else returned (some tot, dst, ip, s)

  -- Each round but the last moves a byte, so `n + 1` rounds are enough.
  pub readi : (off n : ℕ) → (ℕ → ℕ) → Inode → Blocks → Outcome Reading
  unfolding read_loop
  readi off n dst ip s =
      let n' = if ltb ip.size (u32 (off + n)) then ip.size - off else n in
      if ltb ip.size off || ltb (u32 (off + n)) off
      then returned (some 0, dst, ip, s)
      else read_loop (n' + 1) 0 off n' dst ip s
