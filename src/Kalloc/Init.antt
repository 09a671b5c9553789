-- ===== src/Kalloc/Init.antt =====
-- `kinit`: every whole page between the kernel and the end of memory becomes free, once.
use os_exp.Base.{
  ℕ, zero, suc, ◌+◌, ◌*◌, ◌/◌, ◌%◌, ◌≤◌, ◌<◌, ◌≡◌, ◌↔◌, inl, inr, refl, Bool, true, false, ◌||◌,
  ◌&&◌, List, [], ◌∷◌, arith, leb, ◌==◌, elem, Outcome, returned, Bool-cases,
}
use os_exp.Kalloc.{Kmem, pgsize, phystop, pgroundup, free_loop, freerange, kinit}
use os_exp.Kalloc.Free.{IsFree, kfree-IsFree}

-- `q` is a whole page between `p` and `pa_end`.
abbrev within : ℕ → ℕ → ℕ → Bool
within p pa_end q = (q % pgsize == 0) && (leb p q && leb (q + pgsize) pa_end)

-- What the loop leaves, from `p` on with the pages `xs` free.
record Filled (end_ p pa_end : ℕ) (xs : List ℕ) (r : Outcome Kmem) : Type 0 where
  state : Kmem
  free : List ℕ
  ends : r ≡ returned state
  listed : IsFree end_ state free
  which : (q : ℕ) → elem q free ≡ (within p pa_end q || elem q xs)

first_fresh : (p : ℕ) (xs : List ℕ) → ((q : ℕ) → elem q xs ≡ true → q < p) → elem p xs ≡ false
first_fresh p xs below = elim (Bool-cases (elem p xs)) [
  | inl yes_ ↦ absurd (omega (arith, below p yes_))
  | inr no_ ↦ no_
]

free_loop-Filled :
    (end_ fuel p pa_end : ℕ) {s : Kmem} (xs : List ℕ)
    → 0 < end_
    → end_ ≤ p
    → p % pgsize ≡ 0
    → pa_end ≤ phystop
    → 0 < fuel
    → pa_end < p + fuel * pgsize
    → ((q : ℕ) → elem q xs ≡ true → q < p)
    → IsFree end_ s xs
    → Filled end_ p pa_end xs (free_loop end_ fuel p pa_end s)
unfolding free_loop
free_loop-Filled end_ zero p pa_end {s} xs pos lo al hi fuel enough below w = absurd (omega arith)
free_loop-Filled end_ (suc fuel) p pa_end {s} xs pos lo al hi _ enough below w =
    elim (Bool-cases (leb (p + pgsize) pa_end)) [
      | inl more ↦
          let fits : p + pgsize ≤ pa_end = ground arith in
          let (s', e, w', _) =
            kfree-IsFree p pos w (al, lo, omega arith) (first_fresh p xs below) in
          let ih =
            free_loop-Filled end_ fuel (p + pgsize) pa_end (p ∷ xs) pos (omega arith) (omega arith)
              hi (omega arith) (omega arith) (λ q h. ground (arith, below q)) w' in
          rw (more, e)
            (record {
              state = ih.state;
              free = ih.free;
              ends = ih.ends;
              listed = ih.listed;
              which = λ q. ground (arith, ih.which q);
            })
      | inr done_ ↦
          rw done_
            (record { state = s; free = xs; ends = refl; listed = w; which = λ q. ground arith })
    ]

within_iff :
    (end_ first pa_end p : ℕ)
    → first % pgsize ≡ 0
    → end_ ≤ first
    → first < end_ + pgsize
    → (within first pa_end p || false ≡ true)
      ↔ ((p % pgsize ≡ 0) × (end_ ≤ p) × (p + pgsize ≤ pa_end))
within_iff end_ first pa_end p al lo hi = ((λ h. ground arith), λ h. ground arith)

-- Started with no free page, `kinit` returns, and then the free pages are exactly the aligned pages
-- that lie between the end of the kernel and `phystop`, each of them once.
pub kinit-IsFree :
    (end_ : ℕ) (s : Kmem)
    → 0 < end_
    → end_ ≤ phystop
    → s.freelist ≡ 0
    → (s' : Kmem) × (free : List ℕ) × (kinit end_ s ≡ returned s')
      × IsFree end_ s' free
      × ((p : ℕ) → (elem p free ≡ true) ↔ ((p % pgsize ≡ 0) × (end_ ≤ p) × (p + pgsize ≤ phystop)))
unfolding kinit freerange
kinit-IsFree end_ s pos small none_ =
    let first = pgroundup end_ in
    let f =
      free_loop-Filled end_ (phystop / pgsize + 1) first phystop {s = s} [] pos (omega arith)
        (omega arith) (omega arith) (omega arith) (omega arith) (λ q h. cc)
        (record { chain = none_; distinct = tt; pages = tt }) in
    (
      f.state,
      f.free,
      f.ends,
      f.listed,
      λ p.
          rw (f.which p)
            (within_iff end_ first phystop p (omega arith) (omega arith) (omega arith)),
    )
