-- ===== src/Kalloc/Free.antt =====
-- The free list as a list of pages: what `kfree` adds and `kalloc` takes.
use os_exp.Base.{
  ℕ, ◌+◌, ◌%◌, ◌≤◌, ◌<◌, ◌≡◌, ◌≢◌, ◌↔◌, ◌⊎◌, inl, inr, refl, not, ◌||◌, ltb, leb, false, List, [],
  ◌∷◌, arith, ◌==◌, update, elem, Distinct, returned, panicked, Bool-cases, update_self,
}
use os_exp.Kalloc.{Kmem, pgsize, phystop, memset_page, kfree, kalloc}

-- A page that the allocator may hand out.
abbrev pub IsPage : ℕ → ℕ → Type 0
IsPage end_ p = (p % pgsize ≡ 0) × (end_ ≤ p) × (p < phystop)

-- From `p` the links lead through the pages `xs` to 0.
abbrev pub Chain : (ℕ → ℕ) → ℕ → List ℕ → Type 0
Chain mem p [] = p ≡ 0
Chain mem p (x ∷ xs) = (p ≡ x) × (p ≢ 0) × Chain mem (mem x) xs

abbrev pub Pages : ℕ → List ℕ → Type 0
Pages end_ [] = Unit {0}
Pages end_ (x ∷ xs) = IsPage end_ x × Pages end_ xs

-- The free pages are `xs`, the next to be handed out first.
pub record IsFree (end_ : ℕ) (s : Kmem) (xs : List ℕ) : Type 0 where
  pub chain : Chain s.mem s.freelist xs
  pub distinct : Distinct xs
  pub pages : Pages end_ xs

-- Memory that is unchanged outside one page.
abbrev pub SameOutside : ℕ → (ℕ → ℕ) → (ℕ → ℕ) → Type 0
SameOutside pa mem mem' = (a : ℕ) → (a < pa) ⊎ (pa + pgsize ≤ a) → mem' a ≡ mem a

Chain-frame :
    {end_ pa : ℕ} {mem mem' : ℕ → ℕ} (p : ℕ) (xs : List ℕ)
    → SameOutside pa mem mem'
    → IsPage end_ pa
    → Pages end_ xs
    → elem pa xs ≡ false
    → Chain mem p xs
    → Chain mem' p xs
Chain-frame p [] same pg pgs out c = c
Chain-frame {pa} {mem} {mem'} p (x ∷ xs) same pg pgs out (e, ne, c) =
    (e, ne, Chain-frame (mem' x) xs same pg pgs.1 (ground arith) (rw (same x apart) c))
  where
    apart : (x < pa) ⊎ (pa + pgsize ≤ x)
    apart = ground arith

-- A write to a page that is not free keeps the free pages.
pub write-IsFree :
    {end_ : ℕ} {s : Kmem} {xs : List ℕ} (pa : ℕ) (mem : ℕ → ℕ)
    → IsFree end_ s xs
    → IsPage end_ pa
    → elem pa xs ≡ false
    → SameOutside pa s.mem mem
    → IsFree end_ (record s { mem = mem }) xs
write-IsFree {s} {xs} pa mem w pg out same = record {
  chain = Chain-frame s.freelist xs same pg w.pages out w.chain;
  distinct = w.distinct;
  pages = w.pages;
}

-- what `kfree` leaves
abbrev freed : ℕ → Kmem → Kmem
freed pa s = record { freelist = pa; mem = update (memset_page pa 1 s.mem) pa s.freelist }

freed-same : (pa : ℕ) (s : Kmem) → SameOutside pa s.mem (freed pa s).mem
freed-same pa s a o = ground arith

freed-IsFree :
    {end_ : ℕ} {s : Kmem} {xs : List ℕ} (pa : ℕ)
    → pa ≢ 0
    → IsFree end_ s xs
    → IsPage end_ pa
    → elem pa xs ≡ false
    → IsFree end_ (freed pa s) (pa ∷ xs)
freed-IsFree {s} {xs} pa ne w pg out = record {
  chain = (
    refl,
    ne,
    rw update_self (Chain-frame s.freelist xs (freed-same pa s) pg w.pages out w.chain),
  );
  distinct = (out, w.distinct);
  pages = (pg, w.pages);
}

-- `kfree` of a page of the allocator that is not free already succeeds: the page is the next to be
-- handed out, the pages that were free stay free in their order, and no memory outside the page has
-- changed.
pub kfree-IsFree :
    {end_ : ℕ} {s : Kmem} {xs : List ℕ} (pa : ℕ)
    → 0 < end_
    → IsFree end_ s xs
    → IsPage end_ pa
    → elem pa xs ≡ false
    → (s' : Kmem) × (kfree end_ pa s ≡ returned s')
      × IsFree end_ s' (pa ∷ xs)
      × SameOutside pa s.mem s'.mem
unfolding kfree
kfree-IsFree {s} pa pos w pg out =
    (freed pa s, ground arith, freed-IsFree pa (omega arith) w pg out, freed-same pa s)

-- `kfree` panics exactly at an address that is no page of the allocator.
pub kfree-panics :
    (end_ pa : ℕ) (s : Kmem) → (kfree end_ pa s ≡ panicked "kfree") ↔ (¬ (IsPage end_ pa))
unfolding kfree
kfree-panics end_ pa s = (
  (λ e pg. ground arith),
  λ no. elim (Bool-cases (not (pa % pgsize == 0) || (ltb pa end_ || leb phystop pa))) [
    | inl bad ↦ rw bad
    | inr fine ↦ absurd (no (ground arith))
  ],
)

taken-same : (x : ℕ) (s : Kmem) → SameOutside x s.mem (memset_page x 5 s.mem)
taken-same x s a o = ground arith

-- What a call of `kalloc` has done to the free pages `xs`.
abbrev pub Allocated : ℕ → Kmem → List ℕ → ℕ × Kmem → Type 0
Allocated end_ s [] (r, s') = (r ≡ 0) × (s' ≡ s)
Allocated end_ s (x ∷ xs) (r, s') =
    (r ≡ x)
    × IsFree end_ s' xs
    × SameOutside x s.mem s'.mem
    × ((a : ℕ) → x ≤ a → a < x + pgsize → s'.mem a ≡ 0x0505_0505_0505_0505)

-- `kalloc` hands out the page that was freed last and fills it with junk, keeping all other memory and
-- free pages; when there is none it returns 0 and changes nothing.
pub kalloc_lem :
    {end_ : ℕ} {s : Kmem} (xs : List ℕ) → IsFree end_ s xs → Allocated end_ s xs (kalloc s)
unfolding kalloc
kalloc_lem [] w = ground (arith, w.chain)
kalloc_lem {end_} {s} (x ∷ xs) w =
    let (e, ne, c) = w.chain in
    let head : s.freelist ≡ x = e in
    let some_ : (s.freelist == 0) ≡ false = ground arith in
    rw some_ (
      e,
      record {
        chain = rw e (Chain-frame (s.mem x) xs (taken-same x s) w.pages.0 w.pages.1 w.distinct.0 c);
        distinct = w.distinct.1;
        pages = w.pages.1;
      },
      rw e (taken-same x s),
      rw e (λ a lo hi. ground arith),
    )
