-- ===== src/Vm/Tables.antt =====
-- The tables of a page table as a tree in memory.
use os_exp.Base.{
  ℕ, ◌+◌, ◌-◌, ◌*◌, ◌/◌, ◌%◌, ◌^◌, ◌≤◌, ◌<◌, ◌≡◌, refl, ◌≢◌, ◌⊎◌, inl, inr, true, false, List,
  arith, ltb, ◌==◌, if◌then◌else◌, Bool-cases, elem,
}
use os_exp.Kalloc.{Kmem, pgsize}
use os_exp.Kalloc.Free.{IsPage, IsFree}
use os_exp.Vm.{pte_v, pte2pa}

-- The table that the entry `i` of a table leads to, 0 for none.
abbrev pub child : (ℕ → ℕ) → (pagetable i : ℕ) → ℕ
child mem pagetable i =
    if pte_v (mem (pagetable + 8 * i)) then pte2pa (mem (pagetable + 8 * i)) else 0

abbrev pub grandchild : (ℕ → ℕ) → (pagetable i : ℕ) → ℕ
grandchild mem pagetable i = if pagetable == 0 then 0 else child mem pagetable i

-- The tables of a root, numbered: 0 is the root, `1 + i` the table below its entry `i`, and `513 + q` the
-- table with the entries of the 2 MB of virtual memory from `q * 2^21` on.
abbrev pub tables : ℕ
tables = 513 + 512 * 512

abbrev pub table : (ℕ → ℕ) → (root k : ℕ) → ℕ
table mem root k =
    if k == 0
    then root
    else if ltb k 513
    then child mem root (k - 1)
    else grandchild mem (child mem root ((k - 513) / 512)) ((k - 513) % 512)

abbrev pub leaf_table : (va : ℕ) → ℕ
leaf_table va = 513 + va / 2 ^ 21

-- The last-level entry of a virtual address, 0 where there is no table for it.
abbrev pub entry_in : (ℕ → ℕ) → (pagetable va : ℕ) → ℕ
entry_in mem pagetable va = if pagetable == 0 then 0 else mem (pagetable + 8 * (va / 2 ^ 12 % 512))

abbrev pub entry : (ℕ → ℕ) → (root va : ℕ) → ℕ
entry mem root va = entry_in mem (table mem root (leaf_table va)) va

-- The words of a page are the same.
abbrev pub SameIn : ℕ → (ℕ → ℕ) → (ℕ → ℕ) → Type 0
SameIn p mem mem' = (a : ℕ) → p ≤ a → a < p + pgsize → mem' a ≡ mem a

pub child-entry :
    (mem mem' : ℕ → ℕ) (p i : ℕ)
    → mem' (p + 8 * i) ≡ mem (p + 8 * i)
    → child mem' p i ≡ child mem p i
child-entry mem mem' p i e = rw e refl

pub child-same :
    (mem mem' : ℕ → ℕ) (p i : ℕ) → SameIn p mem mem' → i < 512 → child mem' p i ≡ child mem p i
child-same mem mem' p i same h =
    let e : mem' (p + 8 * i) ≡ mem (p + 8 * i) = same (p + 8 * i) (omega arith) (omega arith) in
    rw e refl

pub grandchild-same :
    (mem mem' : ℕ → ℕ) (p i : ℕ)
    → (p ≢ 0 → SameIn p mem mem')
    → i < 512
    → grandchild mem' p i ≡ grandchild mem p i
grandchild-same mem mem' p i same h = elim (Bool-cases (p == 0)) [
  | inl y ↦ rw y refl
  | inr n ↦ rw n (child-same mem mem' p i (same λ z. ground (arith, n, z)) h)
]

-- The tables stand where they stood if the root and the tables of the middle level are the same.
pub table-same :
    (mem mem' : ℕ → ℕ) (root : ℕ)
    → SameIn root mem mem'
    → ((i : ℕ) → i < 512 → child mem root i ≢ 0 → SameIn (child mem root i) mem mem')
    → (k : ℕ) → k < tables
    → table mem' root k ≡ table mem root k
table-same mem mem' root top mid k h = elim (Bool-cases (k == 0)) [
  | inl y ↦ rw y refl
  | inr n ↦ elim (Bool-cases (ltb k 513)) [
    | inl y ↦ rw (n, y) (child-same mem mem' root (k - 1) top (ground arith))
    | inr far ↦
        let i = (k - 513) / 512 in
        let hi : i < 512 = ground arith in
        let same = child-same mem mem' root i top hi in
        rw (n, far, same)
          (grandchild-same mem mem' (child mem root i) ((k - 513) % 512) (mid i hi) (omega arith))
  ]
]

module _ (end_ : ℕ) where
  -- The tables are pages of the allocator, different ones, and not free; `free` lists the free pages.
  pub record IsTree (free : List ℕ) (s : Kmem) (root : ℕ) : Type 0 where
    pub listed : IsFree end_ s free
    pub root_page : root ≢ 0
    pub page : (k : ℕ) → k < tables → table s.mem root k ≢ 0 → IsPage end_ (table s.mem root k)
    pub apart :
        (j k : ℕ)
        → j < tables
        → k < tables
        → table s.mem root j ≢ 0
        → table s.mem root j ≡ table s.mem root k
        → j ≡ k
    pub in_use :
        (k : ℕ) → k < tables → table s.mem root k ≢ 0 → elem (table s.mem root k) free ≡ false
    -- an entry of the upper levels that is valid leads to a table
    pub links :
        (k i : ℕ)
        → k < 513
        → i < 512
        → table s.mem root k ≢ 0
        → pte_v (s.mem (table s.mem root k + 8 * i)) ≡ true
        → child s.mem (table s.mem root k) i ≢ 0

-- Different pages have different words.
pub page-apart :
    (end_ p q a : ℕ)
    → IsPage end_ p
    → IsPage end_ q
    → p ≢ q
    → p ≤ a
    → a < p + pgsize
    → (a < q) ⊎ (q + pgsize ≤ a)
page-apart end_ p q a hp hq ne lo hi = ground (arith, hp, hq, ne)
