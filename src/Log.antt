-- ===== src/Log.antt =====
-- The redo log, kernel/log.c. Each function takes `struct log` and returns the new one; blocks are
-- reached through `Storage`. A wake-up is counted, and a call that would sleep says so.
pub mod Header
pub mod Redo
pub mod Recovery
pub mod Commit
pub mod Atomicity
pub mod Absorb
pub mod End
pub mod Steps
pub mod Commits
pub mod Sound
pub mod Space
mod Tests
use os_exp.Base.{
  ℕ, zero, suc, ◌+◌, ◌-◌, ◌*◌, ◌^◌, Bool, true, false, Option, none, some, arith, ltb, leb, ◌==◌,
  if◌then◌else◌, update, Outcome, returned, panicked,
}
use os_exp.Block.{Block, Disk, get_uint, put_uint}
use os_exp.Storage.{
  Store, Run, done, crash, panic, M, pure, ◌>>=◌, ◌>>◌, bread, set_data, bwrite, bpin, bunpin, boot,
}

-- MAXOPBLOCKS and LOGBLOCKS
abbrev pub max_op_blocks : ℕ
max_op_blocks = 10

abbrev pub log_blocks : ℕ
log_blocks = max_op_blocks * 3

pub record LogHeader : Type 0 where
  pub n : ℕ
  pub block : ℕ → ℕ

pub record Log : Type 0 where
  pub start : ℕ
  pub outstanding : ℕ
  pub committing : Bool
  pub lh : LogHeader
  -- the calls of `wakeup(&log)`
  pub wakeups : ℕ

-- `install_trans`: `k` rounds are left, from `tail` on.
pub install_loop : Log → Bool → ℕ → ℕ → M (Unit {0})
install_loop lg recovering zero tail = pure tt
install_loop lg recovering (suc k) tail = do
  lbuf ← bread (lg.start + tail + 1)
  _ ← bread (lg.lh.block tail)
  set_data (lg.lh.block tail) lbuf
  bwrite (lg.lh.block tail)
  if recovering then pure tt else bunpin (lg.lh.block tail)
  install_loop lg recovering k (tail + 1)

pub install_trans : Log → Bool → M (Unit {0})
unfolding install_loop
install_trans lg recovering = install_loop lg recovering lg.lh.n 0

-- A negative `int` makes no round of a loop that counts up to it.
abbrev pub int_rounds : ℕ → ℕ
int_rounds n = if ltb n (2 ^ 31) then n else 0

-- the loop of `read_head`
pub read_blocks : Block → ℕ → ℕ → (ℕ → ℕ) → ℕ → ℕ
read_blocks b zero i block = block
read_blocks b (suc k) i block = read_blocks b k (i + 1) (update block i (get_uint b (i + 1)))

pub read_head : Log → M Log
unfolding read_blocks
read_head lg = do
  b ← bread lg.start
  let n = get_uint b 0
  let block = read_blocks b (int_rounds n) 0 lg.lh.block
  pure (record lg { lh = record { n = n; block = block } })

-- the loop of `write_head`
pub write_blocks : (ℕ → ℕ) → ℕ → ℕ → Block → Block
write_blocks block zero i b = b
write_blocks block (suc k) i b = write_blocks block k (i + 1) (put_uint b (i + 1) (block i))

pub write_head : Log → M (Unit {0})
unfolding write_blocks
write_head lg = do
  b ← bread lg.start
  set_data lg.start (write_blocks lg.lh.block lg.lh.n 0 (put_uint b 0 lg.lh.n))
  bwrite lg.start

-- `log.lh.n = 0`
abbrev pub cleared : Log → Log
cleared lg = record lg { lh = record { n = 0; block = lg.lh.block } }

pub recover_from_log : Log → M Log
recover_from_log lg = do
  lg ← read_head lg
  install_trans lg true
  write_head (cleared lg)
  pure (cleared lg)

abbrev zeroed : ℕ → Log
zeroed start = record {
  start = start;
  outstanding = 0;
  committing = false;
  lh = record { n = 0; block = λ _. 0 };
  wakeups = 0;
}

-- `initlog`: the log is a zeroed global before it; the size of the header is checked statically.
pub initlog : ℕ → M Log
initlog logstart = recover_from_log (zeroed logstart)

-- One round of the loop of `begin_op`: `none` means that the caller sleeps on the log, and makes
-- another round when it is woken.
pub begin_op : Log → Option Log
begin_op lg =
    if lg.committing
    then none
    else if ltb log_blocks (lg.lh.n + (lg.outstanding + 1) * max_op_blocks)
    then none
    else some (record lg { outstanding = lg.outstanding + 1 })

-- `write_log`: `k` rounds are left, from `tail` on.
pub write_loop : Log → ℕ → ℕ → M (Unit {0})
write_loop lg zero tail = pure tt
write_loop lg (suc k) tail = do
  _ ← bread (lg.start + tail + 1)
  from ← bread (lg.lh.block tail)
  set_data (lg.start + tail + 1) from
  bwrite (lg.start + tail + 1)
  write_loop lg k (tail + 1)

pub write_log : Log → M (Unit {0})
unfolding write_loop
write_log lg = write_loop lg lg.lh.n 0

pub commit : Log → M Log
commit lg =
    if ltb 0 lg.lh.n
    then (do
      write_log lg
      write_head lg
      install_trans lg false
      write_head (cleared lg)
      pure (cleared lg))
    else pure lg

-- The section of `end_op` before `commit`, and whether the caller commits. It is called with
-- `1 ≤ outstanding`: each call ends an operation that `begin_op` admitted.
pub leave : Log → Outcome (Bool × Log)
leave lg =
    let lg = record lg { outstanding = lg.outstanding - 1 } in
    if lg.committing
    then panicked "log.committing"
    else if lg.outstanding == 0
    then returned (true, record lg { committing = true })
    else returned (false, record lg { wakeups = lg.wakeups + 1 })

-- The section after `commit`.
abbrev pub finished : Log → Log
finished lg = record lg { committing = false; wakeups = lg.wakeups + 1 }

abbrev pub after_leaving : Outcome (Bool × Log) → M Log
after_leaving (panicked why) = λ _. panic why
after_leaving (returned (commits, lg)) =
    if commits then (do lg' ← commit lg; pure (finished lg')) else pure lg

-- The calls of an `end_op` one after the other; `commit` runs without the lock.
pub end_op : Log → M Log
unfolding leave
end_op lg = after_leaving (leave lg)

-- The loop of `log_write`: the first of the `k` entries from `i` on that is `blockno`, else the end.
pub find_block : (ℕ → ℕ) → ℕ → ℕ → ℕ → ℕ
find_block block blockno zero i = i
find_block block blockno (suc k) i =
    let rest = find_block block blockno k (i + 1) in if block i == blockno then i else rest

pub log_write : Log → ℕ → M Log
unfolding find_block
log_write lg blockno =
    if leb log_blocks lg.lh.n
    then (λ _. panic "too big a transaction")
    else if ltb lg.outstanding 1
    then (λ _. panic "log_write outside of trans")
    else let i = find_block lg.lh.block blockno lg.lh.n 0 in
      let block = update lg.lh.block i blockno in
      if i == lg.lh.n
      then bpin blockno >> pure (record lg { lh = record { n = lg.lh.n + 1; block = block } })
      else pure (record lg { lh = record { n = lg.lh.n; block = block } })
