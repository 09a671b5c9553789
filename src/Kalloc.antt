-- ===== src/Kalloc.antt =====
-- The allocator of physical pages, kernel/kalloc.c. The free pages are linked through their own first
-- words; `end_` is the symbol `end` of the linker script. `kmem.lock` makes each call one step.
pub mod Free
pub mod Init
pub mod Owners
mod Tests
use os_exp.Base.{
  ℕ, zero, suc, ◌+◌, ◌-◌, ◌*◌, ◌/◌, ◌%◌, ◌^◌, ◌≤◌, ◌<◌, ◌≡◌, Bool, not, ◌&&◌, ◌||◌, ltb, leb, ◌==◌,
  if◌then◌else◌, update, Outcome, returned, panicked, ◌>>=◌,
}
use os_exp.Base.Word.{u64}

abbrev pub pgsize : ℕ
pgsize = 4096

abbrev pub phystop : ℕ
phystop = 0x8000_0000 + 128 * 1024 * 1024

-- PGROUNDUP: `& ~(PGSIZE-1)` clears the low bits.
abbrev pub pgroundup : ℕ → ℕ
pgroundup sz = u64 (sz + (pgsize - 1)) / pgsize * pgsize

-- `kmem.freelist`, and the 64-bit word at each address
pub record Kmem : Type 0 where
  pub freelist : ℕ
  pub mem : ℕ → ℕ

-- `memset(pa, c, PGSIZE)` over words: every byte is `c`.
abbrev pub memset_page : ℕ → ℕ → (ℕ → ℕ) → ℕ → ℕ
memset_page pa c mem a =
    if leb pa a && ltb a (pa + pgsize) then c * 0x0101_0101_0101_0101 else mem a

module _ (end_ : ℕ) where
  pub kfree : ℕ → Kmem → Outcome Kmem
  kfree pa s =
      if not (pa % pgsize == 0) || (ltb pa end_ || leb phystop pa)
      then panicked "kfree"
      else
          -- r->next = kmem.freelist; kmem.freelist = r
          returned (record { freelist = pa; mem = update (memset_page pa 1 s.mem) pa s.freelist })

  -- The loop of `freerange`, with fuel.
  pub free_loop : ℕ → ℕ → ℕ → Kmem → Outcome Kmem
  free_loop zero p pa_end s = panicked "out of fuel"
  free_loop (suc fuel) p pa_end s =
      let rest = kfree p s >>= free_loop fuel (p + pgsize) pa_end in
      if leb (p + pgsize) pa_end then rest else returned s

  pub freerange : ℕ → ℕ → Kmem → Outcome Kmem
  unfolding free_loop
  freerange pa_start pa_end s = free_loop (pa_end / pgsize + 1) (pgroundup pa_start) pa_end s

  pub kinit : Kmem → Outcome Kmem
  kinit s = freerange end_ phystop s

-- The result is 0 if no page is free.
unfoldable pub kalloc : Kmem → ℕ × Kmem
kalloc s =
    let r = s.freelist in
    if r == 0 then (r, s) else (r, record { freelist = s.mem r; mem = memset_page r 5 s.mem })
