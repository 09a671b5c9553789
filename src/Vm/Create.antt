-- ===== src/Vm/Create.antt =====
-- What `uvmcreate` creates.
use os_exp.Base.{
  ℕ, ◌+◌, ◌-◌, ◌*◌, ◌/◌, ◌≤◌, ◌<◌, ◌≡◌, refl, sym, ap, ◌∙◌, subst, ◌≢◌, inl, inr, true, false, ◌&&◌,
  List, [], ◌∷◌, arith, ltb, leb, ◌==◌, if◌then◌else◌, Bool-cases, elem,
}
use os_exp.Kalloc.{Kmem, pgsize, memset_page, kalloc}
use os_exp.Kalloc.Free.{IsPage, IsFree, Allocated, kalloc_lem, write-IsFree}
use os_exp.Vm.{pte_v, maxva, uvmcreate}
use os_exp.Vm.Tables.{child, tables, table, leaf_table, entry, IsTree}

module _ (end_ : ℕ) (s : Kmem) (free : List ℕ) (root : ℕ) (listed : IsFree end_ s free)
    (root_page : IsPage end_ root) (root_pos : root ≢ 0) (used : elem root free ≡ false)
    (zeroed : (a : ℕ) → root ≤ a → a < root + pgsize → s.mem a ≡ 0) where
  no_child : (i : ℕ) → i < 512 → child s.mem root i ≡ 0
  no_child i h = let z = zeroed (root + 8 * i) (omega arith) (omega arith) in rw z refl

  only_root : (k : ℕ) → k < tables → k ≢ 0 → table s.mem root k ≡ 0
  only_root k h ne =
      let n : (k == 0) ≡ false = ground (arith, ne) in
      elim (Bool-cases (ltb k 513)) [
        | inl y ↦ rw (n, y) (no_child (k - 1) (ground arith))
        | inr far ↦ let z = no_child ((k - 513) / 512) (ground arith) in rw (n, far, z) refl
      ]

  root_only : (k : ℕ) → k < tables → table s.mem root k ≢ 0 → k ≡ 0
  root_only k h ne = elim (Bool-cases (k == 0)) [
    | inl y ↦ ground arith
    | inr n ↦ absurd (ne (only_root k h λ e. ground (arith, n, e)))
  ]

  at_root : (k : ℕ) → k < tables → table s.mem root k ≢ 0 → table s.mem root k ≡ root
  at_root k h ne = ap (table s.mem root) (root_only k h ne)

  zeroed-IsTree : IsTree end_ free s root
  zeroed-IsTree = record {
    listed = listed;
    root_page = root_pos;
    page = λ k h ne. subst (IsPage end_) (sym (at_root k h ne)) root_page;
    apart = λ j k hj hk ne e. root_only j hj ne ∙ sym (root_only k hk λ z. ne (e ∙ z));
    in_use = λ k h ne. subst (λ t. elem t free ≡ false) (sym (at_root k h ne)) used;
    links = λ k i hk hi ne v.
        let at = at_root k (omega arith) ne in
        let v' = subst (λ t. pte_v (s.mem (t + 8 * i)) ≡ true) at v in
        let z = zeroed (root + 8 * i) (omega arith) (omega arith) in
        absurd (false_link (sym (ap pte_v z) ∙ v'));
  }
    where
      false_link : pte_v 0 ≢ true
      false_link e = cc

  zeroed-entry : (va : ℕ) → va < maxva → entry s.mem root va ≡ 0
  zeroed-entry va h =
      let z = only_root (leaf_table va) (omega arith) (λ e. omega (arith, e)) in rw z refl

abbrev pub CreateResult : (end_ : ℕ) → Kmem → List ℕ → ℕ × Kmem → Type 0
CreateResult end_ s [] (r, s') = (r ≡ 0) × (s' ≡ s)
CreateResult end_ s (x ∷ xs) (r, s') =
    (r ≡ x) × IsTree end_ xs s' r × ((va : ℕ) → va < maxva → entry s'.mem r va ≡ 0)

created :
    (end_ : ℕ) (s : Kmem) (free : List ℕ) (m : ℕ × Kmem)
    → IsFree end_ s free
    → Allocated end_ s free m
    → CreateResult end_ s free
        (if m.0 == 0 then (0, m.1) else (m.0, record m.1 { mem = memset_page m.0 0 m.1.mem }))
created end_ s [] (r, s1) w (e, same) =
    let none_left : (r == 0) ≡ true = ground arith in rw none_left (refl, same)
created end_ s (x ∷ xs) (r, s1) w (e, listed, same, junk) =
    let pos : x ≢ 0 = λ z. w.chain.1 (w.chain.0 ∙ z) in
    let some_x : (x == 0) ≡ false = ground (arith, pos) in
    let s2 = record s1 { mem = memset_page x 0 s1.mem } in
    let zeroed : (a : ℕ) → x ≤ a → a < x + pgsize → s2.mem a ≡ 0 = λ a lo hi.
      let inside : (leb x a && ltb a (x + pgsize)) ≡ true = ground arith in rw inside refl in
    let free' : IsFree end_ s2 xs =
      write-IsFree x (memset_page x 0 s1.mem) listed w.pages.0 w.distinct.0 λ a o.
        let outside : (leb x a && ltb a (x + pgsize)) ≡ false = ground arith in rw outside refl in
    rw (e, some_x)
      (
        refl,
        zeroed-IsTree end_ s2 xs x free' w.pages.0 pos w.distinct.0 zeroed,
        zeroed-entry end_ s2 xs x free' w.pages.0 pos w.distinct.0 zeroed,
      )

-- `uvmcreate` takes a free page and makes it a page table in which nothing is mapped; it returns 0 if no
-- page is free.
pub uvmcreate_lem :
    (end_ : ℕ) (s : Kmem) (free : List ℕ)
    → IsFree end_ s free
    → CreateResult end_ s free (uvmcreate s)
unfolding uvmcreate
uvmcreate_lem end_ s free w = created end_ s free (kalloc s) w (kalloc_lem free w)
