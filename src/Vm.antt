-- ===== src/Vm.antt =====
-- Page tables, kernel/vm.c, with the constants of kernel/riscv.h: a table is a page of 512 words in the
-- memory of the page allocator. `end_` is the symbol `end` of the linker script.
pub mod Tables
pub mod Grow
pub mod Link
pub mod Level
pub mod Walk
pub mod Entry
pub mod Map
pub mod MapLoop
pub mod Unmap
pub mod Create
mod Tests
use os_exp.Base.{
  ℕ, zero, suc, ◌+◌, ◌-◌, ◌*◌, ◌/◌, ◌%◌, ◌^◌, ◌≤◌, ◌<◌, min, ◌≡◌, refl, sym, ap, ◌∙◌, subst,
  fun_ext, ◌≢◌, ◌↔◌, ◌⊎◌, inl, inr, Bool, true, false, not, ◌&&◌, ◌||◌, Option, none, some, List,
  [], ◌∷◌, ◌++◌, map, append-nil, append_assoc, arith, ltb, leb, ◌==◌, if◌then◌else◌, ==_iff,
  Bool-cases, Option-cases, length, length-append, get_elem?, set, take, drop, All, elem, Distinct,
  update, update_self, update_ne, Outcome, returned, panicked, ◌>>=◌,
}
use Prim.Native.Nat.{bit_or}
use os_exp.Base.Word.{u64}
use os_exp.Kalloc.{Kmem, pgsize, memset_page, kfree, kalloc}

abbrev pub maxva : ℕ
maxva = 2 ^ (9 + 9 + 9 + 12 - 1)

-- PX: the index into the table of a level
abbrev pub px : (level va : ℕ) → ℕ
px level va = va / 2 ^ (12 + 9 * level) % 512

-- PA2PTE and PTE2PA
abbrev pub pa2pte : ℕ → ℕ
pa2pte pa = pa / 2 ^ 12 * 2 ^ 10

abbrev pub pte2pa : ℕ → ℕ
pte2pa pte = pte / 2 ^ 10 * 2 ^ 12

-- `pte & PTE_V` and `pte & PTE_U`
abbrev pub pte_v : ℕ → Bool
pte_v pte = pte % 2 == 1

abbrev pub pte_u : ℕ → Bool
pte_u pte = pte / 2 ^ 4 % 2 == 1

-- `flags | PTE_V`
abbrev pub valid : ℕ → ℕ
valid flags = if pte_v flags then flags else flags + 1

abbrev pub Walked : Type 0
Walked = Option ℕ × Kmem

-- The table that `kalloc` gave is entered at the address `pte`. The low bits of PA2PTE are 0, so `|`
-- adds.
abbrev pub new_table : ℕ → ℕ × Kmem → Walked
new_table pte (r, s) =
    if r == 0
    then (none, s)
    else (some r, record s { mem = update (memset_page r 0 s.mem) pte (pa2pte r + valid 0) })

-- The body of the loop of `walk`: the table of the next level.
abbrev pub walk_level : Bool → (level va : ℕ) → ℕ → Kmem → Walked
walk_level alloc level va pagetable s =
    let pte = pagetable + 8 * px level va in
    if pte_v (s.mem pte)
    then (some (pte2pa (s.mem pte)), s)
    else if alloc
    then new_table pte (kalloc s)
    else (none, s)

abbrev pub descend : (ℕ → Kmem → Walked) → Walked → Walked
descend rest (none, s) = (none, s)
descend rest (some pagetable, s) = rest pagetable s

pub walk_levels : Bool → (level va : ℕ) → ℕ → Kmem → Walked
walk_levels alloc zero va pagetable s = (some (pagetable + 8 * px 0 va), s)
walk_levels alloc (suc level) va pagetable s =
    descend (λ next s'. walk_levels alloc level va next s')
      (walk_level alloc (suc level) va pagetable s)

-- The address of the entry, `none` for 0.
pub walk : Bool → (va : ℕ) → ℕ → Kmem → Outcome Walked
unfolding walk_levels
walk alloc va pagetable s =
    if leb maxva va then panicked "walk" else returned (walk_levels alloc 2 va pagetable s)

-- The result is 0 if the page is not mapped for the user.
abbrev pub user_page : Kmem → Option ℕ → ℕ
user_page s none = 0
user_page s (some pte) =
    if not (pte_v (s.mem pte)) || not (pte_u (s.mem pte)) then 0 else pte2pa (s.mem pte)

pub walkaddr : (va : ℕ) → ℕ → Kmem → Outcome ℕ
walkaddr va pagetable s =
    if leb maxva va
    then returned 0
    else walk false va pagetable s >>= λ (w : Walked). returned (user_page w.1 w.0)

abbrev pub is_valid_entry : Kmem → Option ℕ → Bool
is_valid_entry s none = false
is_valid_entry s (some pte) = pte_v (s.mem pte)

pub ismapped : (va : ℕ) → ℕ → Kmem → Outcome Bool
ismapped va pagetable s =
    walk false va pagetable s >>= λ (w : Walked). returned (is_valid_entry w.1 w.0)

-- The body of the loop of `mappages` after `walk`: `false` is the result -1, and 1 is PTE_V.
abbrev pub map_page :
    (pa perm : ℕ) → (Kmem → Outcome (Bool × Kmem)) → Walked → Outcome (Bool × Kmem)
map_page pa perm rest (none, s) = returned (false, s)
map_page pa perm rest (some pte, s) =
    if pte_v (s.mem pte)
    then panicked "mappages: remap"
    else rest (record s { mem = update s.mem pte (bit_or (bit_or (pa2pte pa) perm) 1) })

-- The loop of `mappages` from `a` on, with `n` pages after this one to be mapped.
pub map_loop : ℕ → (a pa perm : ℕ) → ℕ → Kmem → Outcome (Bool × Kmem)
unfolding walk
map_loop zero a pa perm pagetable s =
    walk true a pagetable s >>= map_page pa perm (λ s'. returned (true, s'))
map_loop (suc n) a pa perm pagetable s =
    walk true a pagetable s
    >>= map_page pa perm (λ s'. map_loop n (u64 (a + pgsize)) (u64 (pa + pgsize)) perm pagetable s')

pub mappages : (va size pa perm : ℕ) → ℕ → Kmem → Outcome (Bool × Kmem)
unfolding map_loop
mappages va size pa perm pagetable s =
    if not (va % pgsize == 0)
    then panicked "mappages: va not aligned"
    else if not (size % pgsize == 0)
    then panicked "mappages: size not aligned"
    else if size == 0
    then panicked "mappages: size"
    else map_loop (size / pgsize - 1) va pa perm pagetable s

pub uvmcreate : Kmem → ℕ × Kmem
uvmcreate s =
    let (r, s') = kalloc s in
    if r == 0 then (0, s') else (r, record s' { mem = memset_page r 0 s'.mem })

module _ (end_ : ℕ) where
  abbrev pub clear_entry : Bool → ℕ → Kmem → Outcome Kmem
  clear_entry do_free pte s =
      (if do_free then kfree end_ (pte2pa (s.mem pte)) s else returned s) >>= λ s'.
      returned (record s' { mem = update s'.mem pte 0 })

  abbrev pub unmap_page : Bool → Walked → Outcome Kmem
  unmap_page do_free (none, s) = returned s
  unmap_page do_free (some pte, s) =
      if not (pte_v (s.mem pte)) then returned s else clear_entry do_free pte s

  -- The loop of `uvmunmap` from `a` on, with `n` pages left.
  pub unmap_loop : Bool → ℕ → (a : ℕ) → ℕ → Kmem → Outcome Kmem
  unfolding walk
  unmap_loop do_free zero a pagetable s = returned s
  unmap_loop do_free (suc n) a pagetable s =
      walk false a pagetable s >>= unmap_page do_free >>= λ s'.
      unmap_loop do_free n (a + pgsize) pagetable s'

  pub uvmunmap : (va npages : ℕ) → Bool → ℕ → Kmem → Outcome Kmem
  unfolding unmap_loop
  uvmunmap va npages do_free pagetable s =
      if not (va % pgsize == 0)
      then panicked "uvmunmap: not aligned"
      else unmap_loop do_free npages va pagetable s
