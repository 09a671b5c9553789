-- ===== src/Fs/Write.antt =====
-- `writei` of kernel/fs.c, on an inode that the caller has locked.
pub mod Chunk
pub mod Written
pub mod Loop
pub mod Result
pub mod Logged
mod Tests
use os_exp.Base.{
  ℕ, zero, suc, ◌+◌, ◌-◌, ◌*◌, ◌/◌, ◌%◌, ◌^◌, ◌≤◌, ◌<◌, min, ◌≡◌, refl, sym, ap, ◌∙◌, subst,
  fun_ext, ◌≢◌, ◌↔◌, ◌⊎◌, inl, inr, Bool, true, false, not, ◌&&◌, ◌||◌, Option, none, some, List,
  [], ◌∷◌, ◌++◌, map, append-nil, append_assoc, arith, ltb, leb, ◌==◌, if◌then◌else◌, ==_iff,
  Bool-cases, Option-cases, length, length-append, get_elem?, set, take, drop, All, elem, Distinct,
  update, update_self, update_ne, Outcome, returned, panicked, ◌>>=◌,
}
use os_exp.Base.Word.{u32}
use os_exp.Block.{Block, bsize}
use os_exp.Fs.{Blocks, Superblock, change}
use os_exp.Fs.Inode.{Inode, iupdate}
use os_exp.Log.{log_blocks}
use os_exp.Fs.File.{maxfile, Mapped, bmap}

-- What `either_copyin` copies from: the bytes from `src` on, and how many of them it can read before it
-- fails.
pub record Source : Type 0 where
  pub bytes : ℕ → ℕ
  pub readable : ℕ

-- `m` bytes of the source, from the offset `tot` of the source on, at `pos` of the block
abbrev pub put_bytes : Block → (pos : ℕ) → (ℕ → ℕ) → (tot m : ℕ) → Block
put_bytes x pos src tot m i = if leb pos i && ltb i (pos + m) then src (tot + (i - pos)) else x i

abbrev pub copied : Source → (tot m : ℕ) → ℕ
copied src tot m = min m (src.readable - tot)

-- `tot`, `off`, the inode and the blocks after the loop
abbrev pub Progress : Type 0
Progress = ℕ × ℕ × Inode × Blocks

-- How many of the blocks below `n` are logged: `log.lh.n`.
unfoldable pub count_logged : ℕ → (ℕ → Bool) → ℕ
count_logged zero logged = 0
count_logged (suc n) logged =
    let rest = count_logged n logged in if logged n then suc rest else rest

-- The size of the round that starts at `off`.
abbrev pub round_size : (tot off n : ℕ) → ℕ
round_size tot off n = min (n - tot) (bsize - off % bsize)

module _ (sb : Superblock) where
  -- `log.lh.n >= LOGBLOCKS`, for which `log_write` panics
  unfoldable pub log_full : Blocks → Bool
  unfolding count_logged
  log_full s = leb log_blocks (count_logged sb.size s.logged)

  -- `log_write` of `b`, changed to `x`. A check that fails in a `log_write` of `bmap` fails here too: no
  -- block leaves the log, and each way on from `bmap` comes to a `log_write`.
  abbrev pub log_change : ℕ → Block → Blocks → Outcome Blocks
  log_change b x s =
      if log_full s then panicked "too big a transaction" else returned (change b x s)

module _ (sb : Superblock) (src : Source) where
  -- The round after `bmap`; `rest` are the rounds after it. A failed copy is not logged.
  abbrev pub write_round :
      (tot off n : ℕ) → (ℕ → ℕ → Inode → Blocks → Outcome Progress) → Mapped → Outcome Progress
  write_round tot off n rest (addr, ip, s) =
      let m = round_size tot off n in
      let x = put_bytes (s.contents addr) (off % bsize) src.bytes tot (copied src tot m) in
      if addr == 0
      then returned (tot, off, ip, s)
      else if ltb (copied src tot m) m
      then returned (tot, off, ip, record s { contents = update s.contents addr x })
      else log_change sb addr x s >>= λ s'. rest (tot + m) (off + m) ip s'

  pub write_loop : ℕ → (tot off n : ℕ) → Inode → Blocks → Outcome Progress
  write_loop zero tot off n ip s = returned (tot, off, ip, s)
  write_loop (suc fuel) tot off n ip s =
      if ltb tot n
      then bmap sb ip (off / bsize) s
        >>= write_round tot off n (λ tot' off' ip' s'. write_loop fuel tot' off' n ip' s')
      else returned (tot, off, ip, s)

  abbrev pub after_writing : Progress → Outcome (Option ℕ × Inode × Blocks)
  after_writing (tot, off, ip, s) =
      let ip' = if ltb ip.size off then record ip { size = off } else ip in
      if log_full sb s
      then panicked "too big a transaction"
      else returned (some tot, ip', iupdate sb ip' s)

  -- `none` is the result -1. Each round but the last moves a byte, so `n + 1` rounds are enough.
  pub writei : (off n : ℕ) → Inode → Blocks → Outcome (Option ℕ × Inode × Blocks)
  unfolding write_loop
  writei off n ip s =
      if ltb ip.size off || ltb (u32 (off + n)) off
      then returned (none, ip, s)
      else if ltb (maxfile * bsize) (u32 (off + n))
      then returned (none, ip, s)
      else write_loop (n + 1) 0 off n ip s >>= after_writing
