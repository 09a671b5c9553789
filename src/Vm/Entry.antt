-- ===== src/Vm/Entry.antt =====
-- Reading and writing the last-level entries.
use os_exp.Base.{
  ℕ, ◌+◌, ◌*◌, ◌/◌, ◌^◌, ◌<◌, ◌≡◌, refl, sym, ap, ◌∙◌, subst, ◌≢◌, inl, inr, true, false, not, ◌||◌,
  Option, none, some, List, arith, leb, ◌==◌, if◌then◌else◌, Bool-cases, update, update_self,
  update_ne, Outcome, returned,
}
use os_exp.Kalloc.{Kmem}
use os_exp.Kalloc.Free.{write-IsFree}
use os_exp.Vm.{
  pte_v, pte_u, pte2pa, maxva, px, Walked, walk_level, descend, walk_levels, walk, walkaddr,
}
use os_exp.Vm.Tables.{
  child, child-entry, tables, table, leaf_table, entry, SameIn, table-same, IsTree, page-apart,
}
use os_exp.Vm.Link.{mid_table}
use os_exp.Vm.Walk.{slot, low_child, low_none}

-- The address that `walk` without allocation finds.
abbrev pub found : (ℕ → ℕ) → (root va : ℕ) → Option ℕ
found mem root va = if table mem root (leaf_table va) == 0 then none else some (slot mem root va)

module _ (end_ root : ℕ) (s : Kmem) (free : List ℕ) (w : IsTree end_ free s root) where
  abbrev Level : (c : ℕ) → Walked → Type 0
  Level c m = m ≡ (if table s.mem root c == 0 then none else some (table s.mem root c), s)

  lookup-Level :
      (p c level va : ℕ)
      → p < 513
      → table s.mem root p ≢ 0
      → table s.mem root c ≡ child s.mem (table s.mem root p) (px level va)
      → Level c (walk_level false level va (table s.mem root p) s)
  lookup-Level p c level va hp ne here =
      let t = table s.mem root p in
      let j = px level va in
      let hj : j < 512 = omega arith in
      elim (Bool-cases (pte_v (s.mem (t + 8 * j)))) [
        | inl y ↦
            let there : child s.mem t j ≡ pte2pa (s.mem (t + 8 * j)) = rw y refl in
            let to : table s.mem root c ≡ pte2pa (s.mem (t + 8 * j)) = here ∙ there in
            let some_c : (pte2pa (s.mem (t + 8 * j)) == 0) ≡ false =
              ground (arith, there, w.links p j hp hj ne y) in
            rw (y, to, some_c) refl
        | inr n ↦ let vacant : table s.mem root c ≡ 0 = here ∙ rw n refl in rw (n, vacant) refl
      ]

  last_step :
      (va k : ℕ)
      → ◌≡◌ {A = Outcome Walked}
          (returned (
            descend
              (λ next s'. (some (next + 8 * px 0 va), s'))
              (if table s.mem root k == 0 then none else some (table s.mem root k), s)))
          (returned
            (if table s.mem root k == 0 then none else some (table s.mem root k + 8 * px 0 va), s))
  last_step va k = elim (Bool-cases (table s.mem root k == 0)) [
    | inl y ↦ rw y refl
    | inr n ↦ rw n refl
  ]

  pub walk-found : (va : ℕ) → va < maxva → walk false va root s ≡ returned (found s.mem root va, s)
  unfolding walk walk_levels
  walk-found va hv =
      let low : leb maxva va ≡ false = ground arith in
      let i = px 2 va in
      let j = px 1 va in
      let hi : i < 512 = omega arith in
      let hj : j < 512 = omega arith in
      let c : ℕ = 513 + (512 * i + j) in
      let number : c ≡ leaf_table va = omega arith in
      let top = lookup-Level 0 (1 + i) 2 va (omega arith) w.root_page (mid_table s.mem root i hi) in
      rw (low, top)
        (elim (Bool-cases (table s.mem root (1 + i) == 0)) [
          | inl y ↦
              let z : table s.mem root (1 + i) ≡ 0 = ground arith in
              let nothing : table s.mem root c ≡ 0 = low_none s.mem root i j hi hj z in
              let nothing' : table s.mem root (leaf_table va) ≡ 0 =
                sym (ap (table s.mem root) number) ∙ nothing in
              rw (y, nothing') refl
          | inr n ↦
              let ne : table s.mem root (1 + i) ≢ 0 = λ z. ground (arith, n, z) in
              let mid =
                lookup-Level (1 + i) c 1 va (omega arith) ne (low_child s.mem root i j hi hj ne) in
              rw (n, mid)
                (last_step va c
                  ∙ ap
                      (λ k. returned (
                        (if table s.mem root k == 0
                            then none
                            else some (table s.mem root k + 8 * px 0 va)),
                        s,
                      ))
                      number)
        ])

  -- \`walkaddr\` gives the page of a user address, 0 if it is not mapped for the user.
  pub walkaddr_lem :
      (va : ℕ)
      → walkaddr va root s
        ≡ returned (
            if leb maxva va
              || not (pte_v (entry s.mem root va))
              || not (pte_u (entry s.mem root va))
            then 0
            else pte2pa (entry s.mem root va))
  unfolding walkaddr
  walkaddr_lem va = elim (Bool-cases (leb maxva va)) [
    | inl y ↦ rw y refl
    | inr n ↦
        let at = walk-found va (ground arith) in
        rw (n, at)
          (elim (Bool-cases (table s.mem root (leaf_table va) == 0)) [
            | inl y ↦ rw y refl
            | inr o ↦ rw o refl
          ])
  ]

  -- A word of a last-level table is written.
  module _ (va v : ℕ) (hv : va < maxva) (there : table s.mem root (leaf_table va) ≢ 0) where
    abbrev pub written : Kmem
    written = record s { mem = update s.mem (slot s.mem root va) v }

    hk : leaf_table va < tables
    hk = omega arith

    other_page :
        (k : ℕ)
        → k < tables
        → table s.mem root k ≢ 0
        → k ≢ leaf_table va
        → SameIn (table s.mem root k) s.mem written.mem
    other_page k h ne far a lo hi =
        let p = table s.mem root k in
        let q = table s.mem root (leaf_table va) in
        update_ne s.mem (slot s.mem root va) v a λ e.
          let apart =
            page-apart end_ p q a (w.page k h ne) (w.page (leaf_table va) hk there)
              (λ z. far (w.apart k (leaf_table va) h hk ne z)) lo hi in
          elim apart [ inl o ↦ omega arith | inr o ↦ omega arith ]

    table-written : (k : ℕ) → k < tables → table written.mem root k ≡ table s.mem root k
    table-written =
        table-same s.mem written.mem root
          (other_page 0 (omega arith) w.root_page (λ e. omega (arith, e)))
          λ i h ne.
            let mid = mid_table s.mem root i h in
            subst (λ t. SameIn t s.mem written.mem) mid
              (other_page (1 + i) (omega arith) (λ z. ne (sym mid ∙ z)) (λ e. omega (arith, e)))

    pub written-IsTree : IsTree end_ free written root
    written-IsTree = record {
      listed =
          write-IsFree (table s.mem root (leaf_table va)) written.mem w.listed
            (w.page (leaf_table va) hk there) (w.in_use (leaf_table va) hk there)
            (λ a o.
              update_ne s.mem (slot s.mem root va) v a
                λ e. elim o [ inl x ↦ omega arith | inr x ↦ omega arith ]);
      root_page = w.root_page;
      page = λ k h ne. rw (table-written k h) (w.page k h (λ z. ne (table-written k h ∙ z)));
      apart = λ j k hj h ne e.
          w.apart j k hj h (λ z. ne (table-written j hj ∙ z))
            (sym (table-written j hj) ∙ e ∙ table-written k h);
      in_use = λ k h ne. rw (table-written k h) (w.in_use k h (λ z. ne (table-written k h ∙ z)));
      links = λ k i h hi ne l.
          let far : k ≢ leaf_table va = λ e. omega (arith, e) in
          let ne' : table s.mem root k ≢ 0 = λ z. ne (table-written k (omega arith) ∙ z) in
          let same = table-written k (omega arith) in
          let e =
            other_page k (omega arith) ne' far (table s.mem root k + 8 * i) (omega arith)
              (omega arith) in
          let l' = subst (λ t. pte_v (written.mem (t + 8 * i)) ≡ true) same l in
          λ q. w.links k i h hi ne' (sym (ap pte_v e) ∙ l') (
            sym (child-entry s.mem written.mem (table s.mem root k) i e)
            ∙ subst (λ t. child written.mem t i ≡ 0) same q);
    }

    pub entry-written :
        (va' : ℕ)
        → va' < maxva
        → entry written.mem root va'
          ≡ (if va' / 2 ^ 12 == va / 2 ^ 12 then v else entry s.mem root va')
    entry-written va' h =
        let k = leaf_table va' in
        let same = table-written k (omega arith) in
        rw same (elim (Bool-cases (va' / 2 ^ 12 == va / 2 ^ 12)) [
          | inl y ↦
              let table_same : leaf_table va' ≡ leaf_table va = ground arith in
              let word_same : px 0 va' ≡ px 0 va = ground arith in
              let present : (table s.mem root (leaf_table va) == 0) ≡ false =
                ground (arith, there) in
              rw (y, table_same, word_same, present) (update_self s.mem (slot s.mem root va) v)
          | inr n ↦ elim (Bool-cases (table s.mem root k == 0)) [
            | inl y ↦ rw (n, y) refl
            | inr o ↦
                rw (n, o)
                  (elim (Bool-cases (k == leaf_table va)) [
                    | inl y ↦
                        let table_same : k ≡ leaf_table va = ground arith in
                        let at : table s.mem root k ≡ table s.mem root (leaf_table va) =
                          ap (table s.mem root) table_same in
                        let words : px 0 va' ≢ px 0 va = λ e. ground (arith, e, y, n) in
                        update_ne s.mem (slot s.mem root va) v (table s.mem root k + 8 * px 0 va')
                          (λ e. words (omega (arith, e, at)))
                    | inr m ↦
                        other_page k (omega arith) (λ z. ground (arith, o, z))
                          (λ e. ground (arith, m, e)) (table s.mem root k + 8 * px 0 va')
                          (omega arith) (omega arith)
                  ])
          ]
        ])
