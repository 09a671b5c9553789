-- ===== src/Vm/Tests.antt =====
-- A page table in a memory with five free pages; pages are mapped at 0x4000.
use os_exp.Base.{
  ℕ, ◌≡◌, refl, sym, ap, ◌∙◌, subst, Bool, true, false, List, [], ◌∷◌, arith, ◌==◌, if◌then◌else◌,
  returned,
}
use os_exp.Kalloc.{Kmem, kalloc}
use os_exp.Kalloc.Free.{IsFree}
use os_exp.Vm.{walk, walk_levels, walkaddr, mappages, map_loop, uvmunmap, uvmcreate, pte_v}
use os_exp.Vm.Tables.{entry, IsTree}
use os_exp.Vm.Map.{Unmapped, Mapped, MapResult}
use os_exp.Vm.MapLoop.{mappages-Mapped, mappages-walkaddr, result}
use os_exp.Vm.Unmap.{UnmapResult, uvmunmap-Unmapping}
use os_exp.Vm.Create.{CreateResult, uvmcreate_lem}

abbrev kernel_end : ℕ
kernel_end = 0x8000_0000

-- The free pages are linked from 0x80001000 to 0x80005000.
abbrev links : ℕ → ℕ
links a =
    if a == 0x8000_1000
    then 0x8000_2000
    else if a == 0x8000_2000
    then 0x8000_3000
    else if a == 0x8000_3000
    then 0x8000_4000
    else if a == 0x8000_4000
    then 0x8000_5000
    else 0

abbrev five_free : Kmem
five_free = record { freelist = 0x8000_1000; mem = links }

abbrev pages : List ℕ
pages = 0x8000_1000 ∷ 0x8000_2000 ∷ 0x8000_3000 ∷ 0x8000_4000 ∷ 0x8000_5000 ∷ []

five_free-IsFree : IsFree kernel_end five_free pages
five_free-IsFree = record {
  chain = (
    refl,
    omega arith,
    (refl, omega arith, (refl, omega arith, (refl, omega arith, (refl, omega arith, refl)))),
  );
  distinct = (refl, (refl, (refl, (refl, (refl, tt)))));
  pages = omega arith;
}

user_table_made : CreateResult kernel_end five_free pages (uvmcreate five_free)
user_table_made = uvmcreate_lem kernel_end five_free pages five_free-IsFree

abbrev root : ℕ
root = 0x8000_1000

abbrev user_table : Kmem
user_table = (uvmcreate five_free).1

root_taken : (uvmcreate five_free).0 ≡ root
root_taken = user_table_made.0

abbrev rest : List ℕ
rest = 0x8000_2000 ∷ 0x8000_3000 ∷ 0x8000_4000 ∷ 0x8000_5000 ∷ []

user_table-IsTree : IsTree kernel_end rest user_table root
user_table-IsTree = subst (IsTree kernel_end rest user_table) root_taken user_table_made.1

nothing_mapped : Unmapped kernel_end root 22 2 0x4000 user_table
nothing_mapped v hv h =
    let z : entry user_table.mem root v ≡ 0 =
      subst (λ r. entry user_table.mem r v ≡ 0) root_taken (user_table_made.2 v hv) in
    ap pte_v z

-- Two pages with the permissions R, W and U.
mappages-Mapped_example :
    MapResult kernel_end root 22 2 0x4000 0x8700_0000 user_table
      (mappages 0x4000 0x2000 0x8700_0000 22 root user_table)
mappages-Mapped_example =
    mappages-Mapped kernel_end root 22 (omega arith) 0x4000 0x2000 0x8700_0000 user_table rest
      user_table-IsTree (omega arith) (omega arith) (omega arith) (omega arith) (omega arith)
      nothing_mapped

abbrev two_mapped : Kmem
two_mapped = (result (true, user_table) (mappages 0x4000 0x2000 0x8700_0000 22 root user_table)).1

maps_both : mappages 0x4000 0x2000 0x8700_0000 22 root user_table ≡ returned (true, two_mapped)
unfolding mappages map_loop walk walk_levels uvmcreate kalloc
maps_both = refl

mappages-walkaddr_example : walkaddr 0x5678 root two_mapped ≡ returned 0x8700_1000
mappages-walkaddr_example =
    mappages-walkaddr kernel_end root 22 (omega arith) 0x4000 0x2000 0x8700_0000 user_table
      two_mapped rest user_table-IsTree (omega arith) (omega arith) (omega arith) (omega arith)
      (omega arith) (omega arith) refl nothing_mapped maps_both 0x5678 (omega arith) (omega arith)

two_mapped-Mapped : Mapped kernel_end root 22 2 0x4000 0x8700_0000 user_table true two_mapped
two_mapped-Mapped =
    let (r, eq, m) =
      mappages-Mapped kernel_end root 22 (omega arith) 0x4000 0x2000 0x8700_0000 user_table rest
        user_table-IsTree (omega arith) (omega arith) (omega arith) (omega arith) (omega arith)
        nothing_mapped in
    let same : r ≡ (true, two_mapped) = ap (result (true, two_mapped)) (sym eq ∙ maps_both) in
    subst (λ (q : Bool × Kmem). Mapped kernel_end root 22 2 0x4000 0x8700_0000 user_table q.0 q.1)
      same m

uvmunmap-Unmapping_example :
    UnmapResult kernel_end root 1 0x5000 two_mapped-Mapped.free two_mapped
      (uvmunmap kernel_end 0x5000 1 false root two_mapped)
uvmunmap-Unmapping_example =
    uvmunmap-Unmapping kernel_end root 0x5000 1 two_mapped-Mapped.free two_mapped
      two_mapped-Mapped.tree (omega arith) (omega arith)
