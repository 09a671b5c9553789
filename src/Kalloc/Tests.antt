-- ===== src/Kalloc/Tests.antt =====
-- The theorems about the page allocator at a kernel that ends in the second page, with two free pages.
use os_exp.Base.{
  ℕ, ◌+◌, ◌%◌, ◌≤◌, ◌≡◌, ◌↔◌, refl, true, false, List, [], ◌∷◌, arith, update, elem, returned,
}
use os_exp.Kalloc.{Kmem, pgsize, phystop, kalloc, kinit}
use os_exp.Kalloc.Free.{IsPage, IsFree}
use os_exp.Kalloc.Init.{kinit-IsFree}
use os_exp.Kalloc.Owners.{Apart, Reach, here, next, alloc, kalloc-not_held}

abbrev kernel_end : ℕ
kernel_end = 0x8000_1234

abbrev page_a : ℕ
page_a = 0x8000_2000

abbrev page_b : ℕ
page_b = 0x8000_3000

abbrev page_c : ℕ
page_c = 0x8000_5000

abbrev two_free : Kmem
two_free = record { freelist = page_a; mem = update (λ _. 0) page_a page_b }

abbrev one_free : Kmem
one_free = (kalloc two_free).1

two_free-IsFree : IsFree kernel_end two_free (page_a ∷ page_b ∷ [])
two_free-IsFree = record {
  chain = (refl, omega arith, (refl, omega arith, refl));
  distinct = (refl, (refl, tt));
  pages = omega arith;
}

kinit-IsFree_example :
    (s' : Kmem) × (free : List ℕ) × (kinit kernel_end (record { freelist = 0; mem = λ _. 0 })
      ≡ returned s')
    × IsFree kernel_end s' free
    × ((p : ℕ)
        → (elem p free ≡ true) ↔ ((p % pgsize ≡ 0) × (kernel_end ≤ p) × (p + pgsize ≤ phystop)))
kinit-IsFree_example =
    kinit-IsFree kernel_end (record { freelist = 0; mem = λ _. 0 }) (omega arith) (omega arith) refl

two_free-Apart : Apart kernel_end (two_free, [])
two_free-Apart = record {
  free = page_a ∷ page_b ∷ [];
  listed = two_free-IsFree;
  held_pages = tt;
  held_once = tt;
  disjoint = λ p h. cc;
}

Reach-one_held : Reach kernel_end (two_free, []) (one_free, page_a ∷ [])
unfolding kalloc
Reach-one_held = next here (alloc page_a refl (omega arith))

kalloc-not_held_example : (elem page_b (page_a ∷ []) ≡ false) × IsPage kernel_end page_b
unfolding kalloc
kalloc-not_held_example =
    kalloc-not_held page_b (omega arith) two_free-Apart Reach-one_held refl (omega arith)
