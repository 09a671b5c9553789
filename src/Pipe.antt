-- ===== src/Pipe.antt =====
-- Pipes, kernel/pipe.c: a ring of `pipesize` bytes between processes. A call that sleeps returns
-- `Asleep` with what it has to continue with; it runs on from there when it is woken.
pub mod Ring
pub mod Stream
pub mod Writes
pub mod Reads
mod Tests
use os_exp.Base.{
  ℕ, zero, suc, ◌+◌, ◌-◌, ◌%◌, ◌^◌, ◌<◌, ◌≡◌, Bool, true, false, not, ◌&&◌, ◌||◌, Option, none,
  some, List, [], ◌∷◌, ltb, leb, ◌==◌, if◌then◌else◌, update,
}
use os_exp.Base.Word.{u32}

abbrev pub pipesize : ℕ
pipesize = 512

-- `data` is a byte for each index below `pipesize`.
pub record Pipe : Type 0 where
  pub bytes : ℕ → ℕ
  pub nread : ℕ
  pub nwrite : ℕ
  pub readopen : Bool
  pub writeopen : Bool
  -- the calls of `wakeup(&pi->nread)` and `wakeup(&pi->nwrite)`
  pub reader_wakeups : ℕ
  pub writer_wakeups : ℕ

-- The part of `pipealloc` that fills in a fresh page.
pub fresh : (ℕ → ℕ) → Pipe
fresh page = record {
  bytes = page;
  nread = 0;
  nwrite = 0;
  readopen = true;
  writeopen = true;
  reader_wakeups = 0;
  writer_wakeups = 0;
}

-- `pipeclose`: the Boolean says whether the page is freed.
pub pipeclose : Bool → Pipe → Bool × Pipe
pipeclose writable pi =
    let pi' =
      if writable
      then record pi { writeopen = false; reader_wakeups = pi.reader_wakeups + 1 }
      else record pi { readopen = false; writer_wakeups = pi.writer_wakeups + 1 } in
    (not pi'.readopen && not pi'.writeopen, pi')

-- How a call stops: with its value, with -1, or asleep with `i` bytes moved.
pub data Stop : Type 0 where
  value : ℕ → Stop
  failed : Stop
  asleep : ℕ → Stop

abbrev pub full : Pipe → Bool
full pi = pi.nwrite == u32 (pi.nread + pipesize)

abbrev pub empty : Pipe → Bool
empty pi = pi.nread == pi.nwrite

-- pi->data[pi->nwrite++ % PIPESIZE] = ch
abbrev pub put : Pipe → ℕ → Pipe
put pi ch = record pi {
  bytes = update pi.bytes (pi.nwrite % pipesize) ch;
  nwrite = u32 (pi.nwrite + 1);
}

-- pi->data[pi->nread % PIPESIZE], and pi->nread++
abbrev pub next_byte : Pipe → ℕ
next_byte pi = pi.bytes (pi.nread % pipesize)

abbrev pub advance : Pipe → Pipe
advance pi = record pi { nread = u32 (pi.nread + 1) }

abbrev pub wake_reader : Pipe → Pipe
wake_reader pi = record pi { reader_wakeups = pi.reader_wakeups + 1 }

abbrev pub wake_writer : Pipe → Pipe
wake_writer pi = record pi { writer_wakeups = pi.writer_wakeups + 1 }

-- The loop of `pipewrite` with `k` bytes to go. `copyin i` is the byte at `addr + i` of the caller,
-- `none` if it cannot be read.
module _ (killed : Bool) where
  write_loop : (ℕ → Option ℕ) → ℕ → ℕ → Pipe → Stop × Pipe
  write_loop copyin zero i pi = (value i, wake_reader pi)
  write_loop copyin (suc k) i pi =
      let stop : Stop × Pipe = (failed, pi) in
      let wait : Stop × Pipe = (asleep i, wake_reader pi) in
      let copy : Stop × Pipe = elim (copyin i) [
        | none ↦ (value i, wake_reader pi)
        | some ch ↦ write_loop copyin k (i + 1) (put pi ch)
      ] in
      if not pi.readopen || killed then stop else if full pi then wait else copy

  -- `pipewrite` of `n` bytes, entered or woken with `i` of them written.
  pub pipewrite : (ℕ → Option ℕ) → (n i : ℕ) → Pipe → Stop × Pipe
  unfolding write_loop
  pipewrite copyin n i pi = write_loop copyin (n - i) i pi

  -- The second loop of `piperead` with `k` bytes to go. `copyout i` says whether the byte could be
  -- stored at `addr + i`; the bytes stored are listed.
  read_loop : (ℕ → Bool) → ℕ → ℕ → Pipe → List ℕ × ℕ × Pipe
  read_loop copyout zero i pi = ([], i, pi)
  read_loop copyout (suc k) i pi =
      let ch = next_byte pi in
      let more = read_loop copyout k (i + 1) (advance pi) in
      let (got, j, pi') = more in
      if empty pi
      then ([], i, pi)
      else if copyout i
      then (ch ∷ got, j, pi')
      else ([], i, advance pi)

  -- `piperead` of `n` bytes, entered or woken: the first loop asks again for bytes or for a closed
  -- writing end.
  pub piperead : (ℕ → Bool) → ℕ → Pipe → List ℕ × Stop × Pipe
  unfolding read_loop
  piperead copyout n pi =
      let (got, i, pi') = read_loop copyout n 0 pi in
      if empty pi && pi.writeopen
      then (if killed then ([], failed, pi) else ([], asleep 0, pi))
      else (got, value i, wake_writer pi')
