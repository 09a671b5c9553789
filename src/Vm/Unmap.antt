-- ===== src/Vm/Unmap.antt =====
-- What `uvmunmap` does where it does not free the pages.
use os_exp.Base.{
  ℕ, zero, suc, ◌+◌, ◌*◌, ◌/◌, ◌%◌, ◌^◌, ◌≤◌, ◌<◌, ◌≡◌, refl, ap, ◌∙◌, ◌≢◌, inl, inr, true, false,
  not, List, arith, ◌==◌, Bool-cases, Outcome, returned, ◌>>=◌,
}
use os_exp.Kalloc.{Kmem, pgsize}
use os_exp.Vm.{pte_v, maxva, walk, unmap_page, unmap_loop, uvmunmap}
use os_exp.Vm.Tables.{table, leaf_table, entry, IsTree}
use os_exp.Vm.Walk.{slot}
use os_exp.Vm.Entry.{walk-found, written, written-IsTree, entry-written}
use os_exp.Vm.Map.{within}

module _ (end_ root : ℕ) where
  -- No entry of the pages is valid; the others are as they were, and so are the free pages.
  pub record Unmapping (n a : ℕ) (free : List ℕ) (s s' : Kmem) : Type 0 where
    pub tree : IsTree end_ free s' root
    pub gone : (v : ℕ) → v < maxva → within a n v ≡ true → pte_v (entry s'.mem root v) ≡ false
    pub others :
        (v : ℕ) → v < maxva → within a n v ≡ false → entry s'.mem root v ≡ entry s.mem root v

  abbrev pub UnmapResult : (n a : ℕ) → List ℕ → Kmem → Outcome Kmem → Type 0
  UnmapResult n a free s c = (s' : Kmem) × (c ≡ returned s') × Unmapping n a free s s'

  same-entry :
      (mem : ℕ → ℕ) (v a : ℕ) → v / 2 ^ 12 ≡ a / 2 ^ 12 → entry mem root v ≡ entry mem root a
  same-entry mem v a e = let t : leaf_table v ≡ leaf_table a = omega (arith, e) in rw (t, e) refl

  unmap_one :
      (a : ℕ) (free : List ℕ) (s : Kmem)
      → a < maxva
      → IsTree end_ free s root
      → UnmapResult 1 a free s (walk false a root s >>= unmap_page end_ false)
  unmap_one a free s ha w =
      let at = walk-found end_ root s free w a ha in
      rw at (elim (Bool-cases (table s.mem root (leaf_table a) == 0)) [
        | inl y ↦
            let zero_entry : entry s.mem root a ≡ 0 = rw y refl in
            rw y (
              s,
              refl,
              record {
                tree = w;
                gone = λ v hv h. ap pte_v (same-entry s.mem v a (ground (arith, h)) ∙ zero_entry);
                others = λ v hv h. refl;
              },
            )
        | inr n ↦
            let there : table s.mem root (leaf_table a) ≢ 0 = λ z. ground (arith, n, z) in
            let here : entry s.mem root a ≡ s.mem (slot s.mem root a) = rw n refl in
            rw n (elim (Bool-cases (pte_v (s.mem (slot s.mem root a)))) [
              | inl y ↦ rw y (
                written end_ root s free w a 0 ha there,
                refl,
                record {
                  tree = written-IsTree end_ root s free w a 0 ha there;
                  gone = λ v hv h.
                      let same : (v / 2 ^ 12 == a / 2 ^ 12) ≡ true = ground arith in
                      let cleared : entry (written end_ root s free w a 0 ha there).mem root v ≡ 0 =
                        entry-written end_ root s free w a 0 ha there v hv ∙ rw same refl in
                      ap pte_v cleared;
                  others = λ v hv h.
                      let other : (v / 2 ^ 12 == a / 2 ^ 12) ≡ false = ground arith in
                      entry-written end_ root s free w a 0 ha there v hv ∙ rw other refl;
                },
              )
              | inr o ↦ rw o (
                s,
                refl,
                record {
                  tree = w;
                  gone = λ v hv h. ap pte_v (same-entry s.mem v a (ground (arith, h)) ∙ here) ∙ o;
                  others = λ v hv h. refl;
                },
              )
            ])
      ])

  unmap_loop-Result :
      (n a : ℕ) (free : List ℕ) (s : Kmem)
      → IsTree end_ free s root
      → a % pgsize ≡ 0
      → a + n * pgsize ≤ maxva
      → UnmapResult n a free s (unmap_loop end_ false n a root s)
  unfolding unmap_loop
  unmap_loop-Result zero a free s w ha fits = (
    s,
    refl,
    record { tree = w; gone = λ v hv h. absurd (ground arith); others = λ v hv h. refl },
  )
  unmap_loop-Result (suc n) a free s w ha fits =
      let (s1, eq, first) = unmap_one a free s (omega arith) w in
      let (s2, eq', rest) =
        unmap_loop-Result n (a + pgsize) free s1 first.tree (omega arith) (omega arith) in
      (
        s2,
        rw eq eq',
        record {
          tree = rest.tree;
          gone = λ v hv h. elim (Bool-cases (within (a + pgsize) n v)) [
            | inl y ↦ rest.gone v hv y
            | inr o ↦ ap pte_v (rest.others v hv o) ∙ first.gone v hv (ground arith)
          ];
          others = λ v hv h. rest.others v hv (ground arith) ∙ first.others v hv (ground arith);
        },
      )

  -- For an aligned range below MAXVA `uvmunmap` without freeing returns: no page of the range is mapped,
  -- all other entries are as before, and the tables are a tree with the same free pages.
  pub uvmunmap-Unmapping :
      (va npages : ℕ) (free : List ℕ) (s : Kmem)
      → IsTree end_ free s root
      → va % pgsize ≡ 0
      → va + npages * pgsize ≤ maxva
      → UnmapResult npages va free s (uvmunmap end_ va npages false root s)
  unfolding uvmunmap
  uvmunmap-Unmapping va npages free s w ha fits =
      let aligned : not (va % pgsize == 0) ≡ false = ground arith in
      rw aligned (unmap_loop-Result npages va free s w ha fits)
