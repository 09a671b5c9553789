-- ===== src/Bio.antt =====
-- The buffer cache, kernel/bio.c. A buffer is its index in `bcache.buf`; the linked list is the list of
-- the indices from `head.next` on. `bcache.lock` makes each section that it guards one step.
pub mod Valid
pub mod View
pub mod Change
pub mod Reuse
pub mod Read
pub mod Release
pub mod Wake
pub mod Looks
pub mod Counted
pub mod Shows
pub mod Refine
pub mod Boot
mod Tests
use os_exp.Base.{
  ℕ, zero, suc, ◌+◌, ◌-◌, ◌*◌, ◌/◌, ◌%◌, ◌^◌, ◌≤◌, ◌<◌, min, ◌≡◌, refl, sym, ap, ◌∙◌, subst,
  fun_ext, ◌≢◌, ◌↔◌, ◌⊎◌, inl, inr, Bool, true, false, not, ◌&&◌, ◌||◌, Option, none, some, List,
  [], ◌∷◌, ◌++◌, map, append-nil, append_assoc, arith, ltb, leb, ◌==◌, if◌then◌else◌, ==_iff,
  Bool-cases, Option-cases, length, length-append, get_elem?, set, take, drop, All, elem, Distinct,
  update, update_self, update_ne, Outcome, returned, panicked, ◌>>=◌,
}
use os_exp.Block.{Block, Disk}

-- NBUF
abbrev pub nbuf : ℕ
nbuf = 30

pub record Buf : Type 0 where
  pub valid : Bool
  pub dev : ℕ
  pub blockno : ℕ
  -- whether the sleep lock is held
  pub locked : Bool
  pub refcnt : ℕ
  pub bytes : Block

-- `disk` is what the driver reads and writes.
pub record Bcache : Type 0 where
  pub order : List ℕ
  pub buf : ℕ → Buf
  pub disk : Disk

abbrev pub set_buf : ℕ → Buf → Bcache → Bcache
set_buf b x s = record s { buf = update s.buf b x }

-- The loop of `binit`: each buffer is put behind the head.
pub binit_loop : ℕ → ℕ → List ℕ → List ℕ
binit_loop zero b order = order
binit_loop (suc k) b order = binit_loop k (b + 1) (b ∷ order)

pub binit : Bcache → Bcache
unfolding binit_loop
binit s = record s { order = binit_loop nbuf 0 [] }

-- The two searches of `bget`: for the block from the front, for an unused buffer from the back.
abbrev pub holds : (dev blockno : ℕ) → Buf → Bool
holds dev blockno x = (x.dev == dev) && (x.blockno == blockno)

pub find_cached : (dev blockno : ℕ) → List ℕ → (ℕ → Buf) → Option ℕ
find_cached dev blockno [] buf = none
find_cached dev blockno (b ∷ bs) buf =
    let rest = find_cached dev blockno bs buf in if holds dev blockno (buf b) then some b else rest

pub find_unused : List ℕ → (ℕ → Buf) → Option ℕ
find_unused [] buf = none
find_unused (b ∷ bs) buf = elim (find_unused bs buf) [
  | some c ↦ some c
  | none ↦ if (buf b).refcnt == 0 then some b else none
]

-- What a call of `bget` comes to: the buffer locked, or the caller asleep on its lock, or a panic.
pub data Got : Type 0 where
  got : ℕ → Bcache → Got
  sleeps : ℕ → Bcache → Got
  no_buffers : Got

-- acquiresleep(&b->lock)
abbrev pub lock_buf : ℕ → Bcache → Got
lock_buf b s =
    if (s.buf b).locked
    then sleeps b s
    else got b (set_buf b (record (s.buf b) { locked = true }) s)

abbrev pub reuse : (dev blockno : ℕ) → Buf → Buf
reuse dev blockno x = record x { dev = dev; blockno = blockno; valid = false; refcnt = 1 }

abbrev pub recycle : (dev blockno : ℕ) → Option ℕ → Bcache → Got
recycle dev blockno none s = no_buffers
recycle dev blockno (some b) s = lock_buf b (set_buf b (reuse dev blockno (s.buf b)) s)

abbrev pub taken : (dev blockno : ℕ) → Option ℕ → Bcache → Got
taken dev blockno (some b) s =
    lock_buf b (set_buf b (record (s.buf b) { refcnt = (s.buf b).refcnt + 1 }) s)
taken dev blockno none s = recycle dev blockno (find_unused s.order s.buf) s

pub bget : (dev blockno : ℕ) → Bcache → Got
unfolding find_unused
bget dev blockno s = taken dev blockno (find_cached dev blockno s.order s.buf) s

-- `bread` once the buffer is locked: virtio_disk_rw(b, 0)
pub fill : ℕ → Bcache → Bcache
fill b s =
    if (s.buf b).valid
    then s
    else set_buf b (record (s.buf b) { bytes = s.disk (s.buf b).blockno; valid = true }) s

abbrev pub filled : Got → Got
filled (got b s) = got b (fill b s)
filled (sleeps b s) = sleeps b s
filled no_buffers = no_buffers

pub bread : (dev blockno : ℕ) → Bcache → Got
bread dev blockno s = filled (bget dev blockno s)

-- virtio_disk_rw(b, 1)
pub bwrite : ℕ → Bcache → Outcome Bcache
bwrite b s =
    if not (s.buf b).locked
    then panicked "bwrite"
    else returned (record s { disk = update s.disk (s.buf b).blockno (s.buf b).bytes })

abbrev pub remove : ℕ → List ℕ → List ℕ
remove a [] = []
remove a (x ∷ xs) = if x == a then xs else x ∷ remove a xs

-- the section of `brelse` under `bcache.lock`
abbrev pub put_down : ℕ → Bcache → Bcache
put_down b s =
    let x = record (s.buf b) { locked = false; refcnt = (s.buf b).refcnt - 1 } in
    if x.refcnt == 0 then record (set_buf b x s) { order = b ∷ remove b s.order } else set_buf b x s

pub brelse : ℕ → Bcache → Outcome Bcache
brelse b s = if not (s.buf b).locked then panicked "brelse" else returned (put_down b s)

pub bpin : ℕ → Bcache → Bcache
bpin b s = set_buf b (record (s.buf b) { refcnt = (s.buf b).refcnt + 1 }) s

pub bunpin : ℕ → Bcache → Bcache
bunpin b s = set_buf b (record (s.buf b) { refcnt = (s.buf b).refcnt - 1 }) s

-- a caller's change of the bytes of a buffer that it has locked
abbrev pub modify : ℕ → Block → Bcache → Bcache
modify b x s = set_buf b (record (s.buf b) { bytes = x }) s
