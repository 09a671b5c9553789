-- ===== src/Vm/Map.antt =====
-- What `mappages` maps.
use os_exp.Base.{
  ℕ, suc, ◌+◌, ◌-◌, ◌*◌, ◌/◌, ◌^◌, ◌≤◌, ◌<◌, ◌≡◌, refl, ap, ◌∙◌, ◌≢◌, ◌⊎◌, inl, inr, Bool, true,
  false, ◌&&◌, List, [], arith, ltb, leb, ◌==◌, if◌then◌else◌, Bool-cases, Outcome, returned,
}
use os_exp.Kalloc.{Kmem, pgsize}
use os_exp.Vm.{pte_v, pa2pte, valid, maxva}
use os_exp.Vm.Tables.{table, leaf_table, entry, IsTree}
use os_exp.Vm.Level.{Kept}
use os_exp.Vm.Entry.{written, written-IsTree, entry-written}

-- The address lies in one of the `d` pages from `a` on.
abbrev pub within : (a d v : ℕ) → Bool
within a d v = leb (a / pgsize) (v / pgsize) && ltb (v / pgsize) (a / pgsize + d)

-- The entry of `v` when the pages from `a` on are mapped to those from `pa` on.
abbrev pub mapped_entry : (a pa perm v : ℕ) → ℕ
mapped_entry a pa perm v = pa2pte (pa + (v / pgsize - a / pgsize) * pgsize) + valid perm

module _ (end_ root perm : ℕ) where
  -- `d` of the `n` pages are mapped, all of them if the result is `true`; otherwise no page is free.
  pub record Mapped (n a pa : ℕ) (s : Kmem) (ok : Bool) (s' : Kmem) : Type 0 where
    pub free : List ℕ
    pub tree : IsTree end_ free s' root
    pub d : ℕ
    pub bound : d ≤ n
    pub entries :
        (v : ℕ)
        → v < maxva
        → entry s'.mem root v
          ≡ (if within a d v then mapped_entry a pa perm v else entry s.mem root v)
    pub ends : ((ok ≡ true) × (d ≡ n)) ⊎ ((ok ≡ false) × (d < n) × (free ≡ []))

  abbrev pub MapResult : (n a pa : ℕ) → Kmem → Outcome (Bool × Kmem) → Type 0
  MapResult n a pa s c = (r : Bool × Kmem) × (c ≡ returned r) × Mapped n a pa s r.0 r.1

  abbrev pub Unmapped : (n a : ℕ) → Kmem → Type 0
  Unmapped n a s = (v : ℕ) → v < maxva → within a n v ≡ true → pte_v (entry s.mem root v) ≡ false

  pub no_page :
      (n a pa : ℕ) (s s' : Kmem) → 0 < n → Kept end_ root s s' [] → Mapped n a pa s false s'
  no_page n a pa s s' h k = record {
    free = [];
    tree = k.tree;
    d = 0;
    bound = omega arith;
    entries =
        λ v hv. let none_in : within a 0 v ≡ false = ground arith in rw none_in (k.entries v hv);
    ends = inr (refl, h, refl);
  }

  -- The entry of `a` has been written.
  module _ (a pa : ℕ) (s s1 : Kmem) (free : List ℕ) (k : Kept end_ root s s1 free) (ha : a < maxva)
      (there : table s1.mem root (leaf_table a) ≢ 0) where
    abbrev pub next : Kmem
    next = written end_ root s1 free k.tree a (pa2pte pa + valid perm) ha there

    pub entry-next :
        (v : ℕ)
        → v < maxva
        → entry next.mem root v
          ≡ (if v / 2 ^ 12 == a / 2 ^ 12 then pa2pte pa + valid perm else entry s.mem root v)
    entry-next v hv =
        entry-written end_ root s1 free k.tree a (pa2pte pa + valid perm) ha there v hv
        ∙ ap (λ e. if v / 2 ^ 12 == a / 2 ^ 12 then pa2pte pa + valid perm else e) (k.entries v hv)

    pub one_page : Mapped 1 a pa s true next
    one_page = record {
      free = free;
      tree = written-IsTree end_ root s1 free k.tree a (pa2pte pa + valid perm) ha there;
      d = 1;
      bound = omega arith;
      entries = λ v hv. entry-next v hv ∙ elim (Bool-cases (v / 2 ^ 12 == a / 2 ^ 12)) [
        | inl y ↦
            let inside : within a 1 v ≡ true = ground arith in
            let address : pa ≡ pa + (v / pgsize - a / pgsize) * pgsize = ground arith in
            rw (y, inside) (ap (λ p. pa2pte p + valid perm) address)
        | inr o ↦ let outside : within a 1 v ≡ false = ground arith in rw (o, outside) refl
      ];
      ends = inl (refl, refl);
    }

    pub more_pages :
        (n : ℕ) (ok : Bool) (s' : Kmem)
        → Mapped n (a + pgsize) (pa + pgsize) next ok s'
        → Mapped (suc n) a pa s ok s'
    more_pages n ok s' m = record {
      free = m.free;
      tree = m.tree;
      d = m.d + 1;
      bound = omega (arith, m.bound);
      entries = λ v hv.
          m.entries v hv
          ∙ ap
              (λ e.
                if within (a + pgsize) m.d v
                then mapped_entry (a + pgsize) (pa + pgsize) perm v
                else e)
              (entry-next v hv)
          ∙ elim (Bool-cases (v / 2 ^ 12 == a / 2 ^ 12)) [
            | inl y ↦
                let inside : within a (m.d + 1) v ≡ true = ground arith in
                let outside : within (a + pgsize) m.d v ≡ false = ground arith in
                let address : pa ≡ pa + (v / pgsize - a / pgsize) * pgsize = ground arith in
                rw (y, inside, outside) (ap (λ p. pa2pte p + valid perm) address)
            | inr o ↦
                let same : within (a + pgsize) m.d v ≡ within a (m.d + 1) v = ground arith in
                rw (o, same)
                  (elim (Bool-cases (within a (m.d + 1) v)) [
                    | inl y ↦
                        let address : pa + pgsize + (v / pgsize - (a + pgsize) / pgsize) * pgsize
                            ≡ pa + (v / pgsize - a / pgsize) * pgsize =
                          ground arith in
                        rw y (ap (λ p. pa2pte p + valid perm) address)
                    | inr z ↦ rw z refl
                  ])
          ];
      ends = elim m.ends [
        | inl (e, all) ↦ inl (e, omega (arith, all))
        | inr (e, lt, none_left) ↦ inr (e, omega (arith, lt), none_left)
      ];
    }
