-- ===== src/Kalloc/Owners.antt =====
-- The pages that the rest of the kernel holds, over any sequence of calls.
use os_exp.Base.{
  ℕ, ◌<◌, ◌≡◌, sym, ◌∙◌, true, false, List, [], ◌∷◌, arith, ◌==◌, if◌then◌else◌, elem, Distinct,
  returned, Bool-cases, inl, inr,
}
use os_exp.Kalloc.{Kmem, kfree, kalloc}
use os_exp.Kalloc.Free.{IsPage, IsFree, Pages, Allocated, kfree-IsFree, kalloc_lem}

-- The list without the number.
abbrev pub without : ℕ → List ℕ → List ℕ
without a [] = []
without a (x ∷ xs) = if a == x then without a xs else x ∷ without a xs

-- A caller gets a page, or gives one back that it holds. `held` lists the pages handed out.
pub data Step (end_ : ℕ) : Kmem × List ℕ → Kmem × List ℕ → Type 0 where
  alloc :
      {s s' : Kmem} {held : List ℕ} (p : ℕ)
      → kalloc s ≡ (p, s')
      → (p ≡ 0 → ⊥)
      → Step end_ (s, held) (s', p ∷ held)
  out_of_memory :
      {s s' : Kmem} {held : List ℕ} → kalloc s ≡ (0, s') → Step end_ (s, held) (s', held)
  give_back :
      {s s' : Kmem} {held : List ℕ} (p : ℕ)
      → elem p held ≡ true
      → kfree end_ p s ≡ returned s'
      → Step end_ (s, held) (s', without p held)

-- The free pages and the pages held are different pages, each of them once.
pub record Apart (end_ : ℕ) (st : Kmem × List ℕ) : Type 0 where
  pub free : List ℕ
  pub listed : IsFree end_ st.0 free
  pub held_pages : Pages end_ st.1
  pub held_once : Distinct st.1
  pub disjoint : (p : ℕ) → elem p st.1 ≡ true → elem p free ≡ false

elem-without :
    (a p : ℕ) (xs : List ℕ) → elem p (without a xs) ≡ (if a == p then false else elem p xs)
elem-without a p [] = ground arith
elem-without a p (x ∷ xs) = ground (arith, elem-without a p xs)

Distinct-without : (a : ℕ) (xs : List ℕ) → Distinct xs → Distinct (without a xs)
Distinct-without a [] d = tt
Distinct-without a (x ∷ xs) d = elim (Bool-cases (a == x)) [
  | inl e ↦ rw e (Distinct-without a xs d.1)
  | inr n ↦ rw n (rw (elem-without a x xs, n) d.0, Distinct-without a xs d.1)
]

Pages-without : (end_ a : ℕ) (xs : List ℕ) → Pages end_ xs → Pages end_ (without a xs)
Pages-without end_ a [] d = tt
Pages-without end_ a (x ∷ xs) d = elim (Bool-cases (a == x)) [
  | inl e ↦ rw e (Pages-without end_ a xs d.1)
  | inr n ↦ rw n (d.0, Pages-without end_ a xs d.1)
]

Pages-elem : (end_ p : ℕ) (xs : List ℕ) → Pages end_ xs → elem p xs ≡ true → IsPage end_ p
Pages-elem end_ p [] d e = cc
Pages-elem end_ p (x ∷ xs) d e = elim (Bool-cases (p == x)) [
  | inl q ↦ let q' : p ≡ x = ground arith in rw q' d.0
  | inr n ↦ Pages-elem end_ p xs d.1 (ground arith)
]

module _ {end_ : ℕ} where
  alloc-Apart :
      {s s' : Kmem} {held : List ℕ} (p : ℕ) (free : List ℕ)
      → IsFree end_ s free
      → Pages end_ held
      → Distinct held
      → ((q : ℕ) → elem q held ≡ true → elem q free ≡ false)
      → (p ≡ 0 → ⊥)
      → Allocated end_ s free (p, s')
      → Apart end_ (s', p ∷ held)
  alloc-Apart p [] w pgs once dis ne a = absurd (ne a.0)
  alloc-Apart {held} p (x ∷ xs) w pgs once dis ne a = record {
    free = xs;
    listed = a.1;
    held_pages = (rw a.0 w.pages.0, pgs);
    held_once = (
      elim (Bool-cases (elem p held)) [
        | inl yes_ ↦ ground (arith, dis p yes_, a.0)
        | inr no_ ↦ no_
      ],
      once,
    );
    disjoint = λ q h. elim (Bool-cases (q == p)) [
      | inl e ↦ let e' : q ≡ x = ground (arith, a.0) in rw e' w.distinct.0
      | inr n ↦ ground (arith, dis q)
    ];
  }

  none-Apart :
      {s s' : Kmem} {held : List ℕ} (free : List ℕ)
      → IsFree end_ s free
      → Apart end_ (s, held)
      → Allocated end_ s free (0, s')
      → Apart end_ (s', held)
  none-Apart [] f w a = rw a.1 w
  none-Apart (x ∷ xs) f w a = absurd (f.chain.1 (f.chain.0 ∙ sym a.0))

  -- Each call keeps the free pages and those held apart.
  pub Step-Apart :
      {st st' : Kmem × List ℕ} → 0 < end_ → Step end_ st st' → Apart end_ st → Apart end_ st'
  Step-Apart pos (alloc p e ne) w =
      alloc-Apart p w.free w.listed w.held_pages w.held_once w.disjoint ne
        (rw e at (kalloc_lem w.free w.listed))
  Step-Apart pos (out_of_memory e) w =
      none-Apart w.free w.listed w (rw e at (kalloc_lem w.free w.listed))
  Step-Apart pos (give_back {s} {s'} {held} p h e) w =
      let pg = Pages-elem end_ p held w.held_pages h in
      let (s'', e', f, _) = kfree-IsFree p pos w.listed pg (w.disjoint p h) in
      let same : s' ≡ s'' = ground (arith, e, e') in
      rw same (record {
        free = p ∷ w.free;
        listed = f;
        held_pages = Pages-without end_ p held w.held_pages;
        held_once = Distinct-without p held w.held_once;
        disjoint = λ q hq. ground (arith, elem-without p q held, w.disjoint q);
      })

pub data Reach (end_ : ℕ) (st : Kmem × List ℕ) : Kmem × List ℕ → Type 0 where
  here : Reach end_ st st
  next : {st' st'' : Kmem × List ℕ} → Reach end_ st st' → Step end_ st' st'' → Reach end_ st st''

Reach-Apart :
    {end_ : ℕ} {st st' : Kmem × List ℕ}
    → 0 < end_
    → Reach end_ st st'
    → Apart end_ st
    → Apart end_ st'
Reach-Apart pos here w = w
Reach-Apart pos (next r step) w = Step-Apart pos step (Reach-Apart pos r w)

not_held :
    {end_ : ℕ} {s : Kmem} (held free : List ℕ) (p : ℕ) (s' : Kmem)
    → IsFree end_ s free
    → ((q : ℕ) → elem q held ≡ true → elem q free ≡ false)
    → (p ≡ 0 → ⊥)
    → Allocated end_ s free (p, s')
    → (elem p held ≡ false) × IsPage end_ p
not_held held [] p s' w dis ne a = absurd (ne a.0)
not_held held (x ∷ xs) p s' w dis ne a = (
  elim (Bool-cases (elem p held)) [ inl yes_ ↦ ground (arith, dis p yes_, a.0) | inr no_ ↦ no_ ],
  rw a.0 w.pages.0,
)

-- Over any sequence of allocations and of frees of pages that are held, `kalloc` never hands out a page
-- that somebody still holds, and what it hands out is an aligned page of the allocator's range.
pub kalloc-not_held :
    {end_ : ℕ} {start : Kmem × List ℕ} {s s' : Kmem} {held : List ℕ} (p : ℕ)
    → 0 < end_
    → Apart end_ start
    → Reach end_ start (s, held)
    → kalloc s ≡ (p, s')
    → (p ≡ 0 → ⊥)
    → (elem p held ≡ false) × IsPage end_ p
kalloc-not_held {s'} {held} p pos w r e ne =
    let v = Reach-Apart pos r w in
    not_held held v.free p s' v.listed v.disjoint ne (rw e at (kalloc_lem v.free v.listed))
