-- ===== src/Ftable.antt =====
-- The table of open files, kernel/file.c with kernel/file.h: its entries and their reference counts. A
-- pointer to an entry is its index. What `fileclose` does after it has released the lock is a value.
pub mod Counts
mod Tests
use os_exp.Base.{
  ℕ, zero, suc, ◌+◌, ◌-◌, ◌*◌, ◌/◌, ◌%◌, ◌^◌, ◌≤◌, ◌<◌, min, ◌≡◌, refl, sym, ◌∙◌, subst, fun_ext,
  ◌≢◌, ◌↔◌, ◌⊎◌, inl, inr, Bool, true, false, not, ◌&&◌, ◌||◌, Option, none, some, List, [], ◌∷◌,
  ◌++◌, map, append-nil, append_assoc, arith, ltb, leb, ◌==◌, if◌then◌else◌, ==_iff, Bool-cases,
  Option-cases, length, length-append, get_elem?, set, take, drop, All, elem, Distinct, update,
  update_self, update_ne, Outcome, returned, panicked, ◌>>=◌,
}

abbrev pub nfile : ℕ
nfile = 100

pub data FileType : Type 0 where
  fd_none : FileType
  fd_pipe : FileType
  fd_inode : FileType
  fd_device : FileType

pub record File : Type 0 where
  pub kind : FileType
  pub ref : ℕ
  pub readable : Bool
  pub writable : Bool
  pub pipe : ℕ
  pub ip : ℕ
  pub off : ℕ
  pub major : ℕ

abbrev pub Ftable : Type 0
Ftable = ℕ → File

-- The loop of `filealloc` from the entry `f` on, with `n` entries left.
unfoldable pub filealloc_loop : (n f : ℕ) → Ftable → Option ℕ × Ftable
filealloc_loop zero f t = (none, t)
filealloc_loop (suc n) f t =
    let rest = filealloc_loop n (f + 1) t in
    if (t f).ref == 0 then (some f, update t f (record (t f) { ref = 1 })) else rest

unfoldable pub filealloc : Ftable → Option ℕ × Ftable
unfolding filealloc_loop
filealloc t = filealloc_loop nfile 0 t

unfoldable pub filedup : ℕ → Ftable → Outcome Ftable
filedup f t =
    if ltb (t f).ref 1
    then panicked "filedup"
    else returned (update t f (record (t f) { ref = (t f).ref + 1 }))

-- What is left to do: nothing, `pipeclose(ff.pipe, ff.writable)`, or `iput(ff.ip)`.
pub data Closing : Type 0 where
  nothing : Closing
  close_pipe : (pipe : ℕ) (writable : Bool) → Closing
  put_inode : (ip : ℕ) → Closing

pub closing : File → Closing
closing ff = elim ff.kind [
  | fd_none ↦ nothing
  | fd_pipe ↦ close_pipe ff.pipe ff.writable
  | fd_inode ↦ put_inode ff.ip
  | fd_device ↦ put_inode ff.ip
]

unfoldable pub fileclose : ℕ → Ftable → Outcome (Closing × Ftable)
unfolding closing
fileclose f t =
    let left = (t f).ref - 1 in
    if ltb (t f).ref 1
    then panicked "fileclose"
    else if ltb 0 left
    then returned (nothing, update t f (record (t f) { ref = left }))
    else returned (closing (t f), update t f (record (t f) { ref = 0; kind = fd_none }))
