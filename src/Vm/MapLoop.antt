-- ===== src/Vm/MapLoop.antt =====
-- The loop of `mappages`.
use os_exp.Base.{
  ℕ, zero, suc, ◌+◌, ◌-◌, ◌*◌, ◌/◌, ◌%◌, ◌^◌, ◌≤◌, ◌<◌, ◌≡◌, refl, sym, ap, ◌∙◌, subst, ◌≢◌, inl,
  inr, Bool, true, false, not, none, some, List, arith, leb, ◌==◌, Bool-cases, Outcome, returned,
  panicked,
}
use Prim.Native.Nat.{bit_or}
use os_exp.Base.Bits.{doubled, bit_or-doubled, bit_or-one}
use os_exp.Base.Word.{u64, u64_mod}
use os_exp.Kalloc.{Kmem, pgsize}
use os_exp.Vm.{
  pte_v, pte_u, pa2pte, pte2pa, valid, maxva, Walked, map_page, map_loop, mappages, walkaddr,
}
use os_exp.Vm.Tables.{table, leaf_table, entry, IsTree}
use os_exp.Vm.Level.{Kept}
use os_exp.Vm.Walk.{slot, WalkResult, walk-Result}
use os_exp.Vm.Entry.{walkaddr_lem}
use os_exp.Vm.Map.{
  within, Mapped, MapResult, Unmapped, no_page, next, entry-next, one_page, more_pages,
}

abbrev pub result {ℓ} : {A : Type ℓ} → A → Outcome A → A
result d (returned a) = a
result d (panicked why) = d

entry_bits :
    (perm pa : ℕ)
    → perm < 2 ^ 10
    → pa % pgsize ≡ 0
    → pte_u perm ≡ true
    → (pte_v (pa2pte pa + valid perm) ≡ true)
      × (pte_u (pa2pte pa + valid perm) ≡ true)
      × (pte2pa (pa2pte pa + valid perm) ≡ pa)
entry_bits perm pa h al u = elim (Bool-cases (pte_v perm)) [
  | inl y ↦ rw y (ground arith, ground arith, omega arith)
  | inr n ↦ rw n (ground arith, ground arith, ground arith)
]

-- The flags have no bit in common with the number of the page.
entry_word :
    (perm pa : ℕ) → perm < 2 ^ 10 → bit_or (bit_or (pa2pte pa) perm) 1 ≡ pa2pte pa + valid perm
entry_word perm pa h =
    let page : doubled 10 (pa / 2 ^ 12) ≡ pa2pte pa = omega arith in
    let flags : bit_or (pa2pte pa) perm ≡ pa2pte pa + perm =
      rw page at (bit_or-doubled 10 (pa / 2 ^ 12) perm (omega arith)) in
    ap (λ w. bit_or w 1) flags ∙ bit_or-one (pa2pte pa + perm) ∙ elim (Bool-cases (pte_v perm)) [
      | inl y ↦ rw y (ground (arith, y))
      | inr n ↦ rw n (ground (arith, n))
    ]

module _ (end_ root perm : ℕ) (hperm : perm < 2 ^ 10) where
  -- The entry that `walk` has found is not valid and is written.
  map_page-Result :
      (n a pa : ℕ) (s : Kmem) (rest : Kmem → Outcome (Bool × Kmem)) (m : Walked)
      → (ha : a < maxva) → pte_v (entry s.mem root a) ≡ false
      → WalkResult end_ root s a m
      → ((s1 : Kmem) (free : List ℕ) (k : Kept end_ root s s1 free)
            (there : table s1.mem root (leaf_table a) ≢ 0)
          → let s2 = next end_ root perm a pa s s1 free k ha there in
            (r : Bool × Kmem) × (rest s2 ≡ returned r)
            × Mapped end_ root perm (suc n) a pa s r.0 r.1)
      → MapResult end_ root perm (suc n) a pa s (map_page pa perm rest m)
  map_page-Result n a pa s rest (none, s1) ha un k go =
      ((false, s1), refl, no_page end_ root perm (suc n) a pa s s1 (omega arith) k)
  map_page-Result n a pa s rest (some pte, s1) ha un (free, k, e, there) go =
      let present : (table s1.mem root (leaf_table a) == 0) ≡ false = ground (arith, there) in
      let here : entry s1.mem root a ≡ s1.mem (slot s1.mem root a) = rw present refl in
      let unused : pte_v (s1.mem (slot s1.mem root a)) ≡ false =
        sym (ap pte_v here) ∙ ap pte_v (k.entries a ha) ∙ un in
      rw (e, unused, entry_word perm pa hperm) (go s1 free k there)

  pub map_loop-Result :
      (n a pa : ℕ) (s : Kmem) (free : List ℕ)
      → IsTree end_ free s root
      → a % pgsize ≡ 0
      → a + suc n * pgsize ≤ maxva
      → pa + suc n * pgsize ≤ u64_mod
      → Unmapped end_ root perm (suc n) a s
      → MapResult end_ root perm (suc n) a pa s (map_loop n a pa perm root s)
  unfolding map_loop
  map_loop-Result zero a pa s free w al fits room un =
      let ha : a < maxva = omega arith in
      let (m, eq, r) = walk-Result end_ root s free a ha w in
      rw eq (
        map_page-Result 0 a pa s (λ s'. returned (true, s')) m ha (un a ha (ground arith)) r
          λ s1 free1 k there. (
            (true, next end_ root perm a pa s s1 free1 k ha there),
            refl,
            one_page end_ root perm a pa s s1 free1 k ha there,
          ))
  map_loop-Result (suc n) a pa s free w al fits room un =
      let ha : a < maxva = omega arith in
      let (m, eq, r) = walk-Result end_ root s free a ha w in
      let next_a : u64 (a + pgsize) ≡ a + pgsize = omega arith in
      let next_pa : u64 (pa + pgsize) ≡ pa + pgsize = omega arith in
      rw (eq, next_a, next_pa)
        (map_page-Result (suc n) a pa s (λ s'. map_loop n (a + pgsize) (pa + pgsize) perm root s') m
          ha (un a ha (ground arith)) r
          λ s1 free1 k there.
            let s2 = next end_ root perm a pa s s1 free1 k ha there in
            let still : Unmapped end_ root perm (suc n) (a + pgsize) s2 = λ v hv h.
              let other : (v / 2 ^ 12 == a / 2 ^ 12) ≡ false = ground arith in
              let inside : within a (suc (suc n)) v ≡ true = ground arith in
              let same = entry-next end_ root perm a pa s s1 free1 k ha there v hv in
              ap pte_v (same ∙ rw other refl) ∙ un v hv inside in
            let one = one_page end_ root perm a pa s s1 free1 k ha there in
            let ((ok, s'), eq', l) =
              map_loop-Result n (a + pgsize) (pa + pgsize) s2 one.free one.tree (omega arith)
                (omega arith) (omega arith) still in
            ((ok, s'), eq', more_pages end_ root perm a pa s s1 free1 k ha there (suc n) ok s' l))

  -- For an aligned range of at least one page below MAXVA without valid entries, permissions of at most 10
  -- bits and physical pages below 2^64, `mappages` returns; the
  -- entries of the first pages of the range, of all of them if the result is 0, lead to the physical
  -- pages from `pa` on with the permissions, all other entries of the last level are as before, and the
  -- tables are a tree still. If the result is -1 no page is free.
  pub mappages-Mapped :
      (va size pa : ℕ) (s : Kmem) (free : List ℕ)
      → IsTree end_ free s root
      → va % pgsize ≡ 0
      → size % pgsize ≡ 0
      → 0 < size
      → va + size ≤ maxva
      → pa + size ≤ u64_mod
      → Unmapped end_ root perm (size / pgsize) va s
      → MapResult end_ root perm (size / pgsize) va pa s (mappages va size pa perm root s)
  unfolding mappages
  mappages-Mapped va size pa s free w ha hs pos fits room un =
      let aligned : not (va % pgsize == 0) ≡ false = ground arith in
      let whole : not (size % pgsize == 0) ≡ false = ground arith in
      let some_size : (size == 0) ≡ false = ground arith in
      let n = size / pgsize - 1 in
      let pages : suc n ≡ size / pgsize = omega arith in
      rw (aligned, whole, some_size)
        (subst (λ k. MapResult end_ root perm k va pa s (map_loop n va pa perm root s)) pages
          (map_loop-Result n va pa s free w ha (omega arith) (omega arith)
            (subst (λ k. Unmapped end_ root perm k va s) (sym pages) un)))

  -- After `mappages` as above with result 0 and permission for the user, `walkaddr` translates each address of
  -- the range to its physical page.
  pub mappages-walkaddr :
      (va size pa : ℕ) (s s' : Kmem) (free : List ℕ)
      → IsTree end_ free s root
      → va % pgsize ≡ 0
      → size % pgsize ≡ 0
      → 0 < size
      → va + size ≤ maxva
      → pa % pgsize ≡ 0
      → pa + size ≤ u64_mod
      → pte_u perm ≡ true
      → Unmapped end_ root perm (size / pgsize) va s
      → mappages va size pa perm root s ≡ returned (true, s')
      → (v : ℕ) → va ≤ v
      → v < va + size
      → walkaddr v root s' ≡ returned (pa + (v / pgsize * pgsize - va))
  mappages-walkaddr va size pa s s' free w ha hs pos fits hp room user un e v lo hi =
      let (r, eq, m') = mappages-Mapped va size pa s free w ha hs pos fits room un in
      let same : r ≡ (true, s') = ap (result (true, s')) (sym eq ∙ e) in
      let m =
        subst (λ (q : Bool × Kmem). Mapped end_ root perm (size / pgsize) va pa s q.0 q.1) same
          m' in
      let all : m.d ≡ size / pgsize = elim m.ends [ inl (_, d) ↦ d | inr (bad, _, _) ↦ cc ] in
      let inside : within va m.d v ≡ true = ground (arith, all) in
      let hv : v < maxva = omega arith in
      let physical = pa + (v / pgsize - va / pgsize) * pgsize in
      let here : entry s'.mem root v ≡ pa2pte physical + valid perm =
        m.entries v hv ∙ rw inside refl in
      let low : leb maxva v ≡ false = ground arith in
      let aligned : physical % pgsize ≡ 0 = omega arith in
      let address : physical ≡ pa + (v / pgsize * pgsize - va) = omega arith in
      let (is_valid, is_user, back) = entry_bits perm physical hperm aligned user in
      walkaddr_lem end_ root s' m.free m.tree v
      ∙ rw (here, low, is_valid, is_user, back) (ap returned address)
