-- ===== src/Vm/Walk.antt =====
-- What `walk` finds.
use os_exp.Base.{
  ℕ, ◌+◌, ◌-◌, ◌*◌, ◌/◌, ◌%◌, ◌<◌, ◌≡◌, refl, sym, ap, ◌∙◌, subst, ◌≢◌, true, false, none, some,
  List, [], arith, ltb, leb, ◌==◌, returned,
}
use os_exp.Kalloc.{Kmem}
use os_exp.Vm.{maxva, px, Walked, walk_level, descend, walk_levels, walk}
use os_exp.Vm.Tables.{child, grandchild, table, leaf_table, IsTree}
use os_exp.Vm.Link.{mid_table, low_table, grandchild-present, table-top, table-mid}
use os_exp.Vm.Level.{Kept, refl-Kept, trans-Kept, LevelResult, level-Result}

-- The address of the last-level entry of `va`.
abbrev pub slot : (ℕ → ℕ) → (root va : ℕ) → ℕ
slot mem root va = table mem root (leaf_table va) + 8 * px 0 va

low_grandchild :
    (mem : ℕ → ℕ) (root i j : ℕ)
    → i < 512
    → j < 512
    → table mem root (513 + (512 * i + j)) ≡ grandchild mem (table mem root (1 + i)) j
low_grandchild mem root i j hi hj =
    let k : ℕ = 513 + (512 * i + j) in
    let first : (k - 513) / 512 ≡ i = omega arith in
    let second : (k - 513) % 512 ≡ j = omega arith in
    let n : (k == 0) ≡ false = ground arith in
    let far : ltb k 513 ≡ false = ground arith in
    low_table mem root k n far
    ∙ ap (λ a. grandchild mem (child mem root a) ((k - 513) % 512)) first
    ∙ ap (λ t. grandchild mem t ((k - 513) % 512)) (sym (mid_table mem root i hi))
    ∙ ap (grandchild mem (table mem root (1 + i))) second

pub low_child :
    (mem : ℕ → ℕ) (root i j : ℕ)
    → i < 512
    → j < 512
    → table mem root (1 + i) ≢ 0
    → table mem root (513 + (512 * i + j)) ≡ child mem (table mem root (1 + i)) j
low_child mem root i j hi hj ne =
    let present : (table mem root (1 + i) == 0) ≡ false = ground (arith, ne) in
    low_grandchild mem root i j hi hj ∙ grandchild-present mem (table mem root (1 + i)) j present

pub low_none :
    (mem : ℕ → ℕ) (root i j : ℕ)
    → i < 512
    → j < 512
    → table mem root (1 + i) ≡ 0
    → table mem root (513 + (512 * i + j)) ≡ 0
low_none mem root i j hi hj z = low_grandchild mem root i j hi hj ∙ ap (λ t. grandchild mem t j) z

module _ (end_ root : ℕ) where
  -- The address of the entry, with a table for it; or no page is free.
  abbrev pub WalkResult : Kmem → (va : ℕ) → Walked → Type 0
  WalkResult s va (some pte, s') =
      (free' : List ℕ) × Kept end_ root s s' free'
      × (pte ≡ slot s'.mem root va)
      × (table s'.mem root (leaf_table va) ≢ 0)
  WalkResult s va (none, s') = Kept end_ root s s' []

  second_level :
      (s : Kmem) (free : List ℕ) (va t : ℕ)
      → va < maxva
      → IsTree end_ free s root
      → t ≡ table s.mem root (1 + px 2 va)
      → table s.mem root (1 + px 2 va) ≢ 0
      → WalkResult s va (walk_levels true 1 va t s)
  unfolding walk_levels
  second_level s free va t hv w e ne =
      let i = px 2 va in
      let j = px 1 va in
      let hi : i < 512 = omega arith in
      let hj : j < 512 = omega arith in
      let c : ℕ = 513 + (512 * i + j) in
      let number : c ≡ leaf_table va = omega arith in
      let here = low_child s.mem root i j hi hj ne in
      rw e (
        finish c number (walk_level true 1 va (table s.mem root (1 + i)) s) (
          level-Result end_ root free s (1 + i) c 1 va w (omega arith) ne (omega arith) here
            (λ z x xs mem' w' x_page x_pos g. table-mid x xs mem' w' x_page x_pos j hj i hi ne g)))
    where
      finish :
          (c : ℕ)
          → c ≡ leaf_table va
          → (m : Walked) → LevelResult end_ root free s c m
          → WalkResult s va (descend (λ next s'. walk_levels true 0 va next s') m)
      finish c number (some next, s') (free', k, e', ne') = (
        free',
        k,
        ap (λ a. a + 8 * px 0 va) (e' ∙ ap (table s'.mem root) number),
        λ z. ne' (ap (table s'.mem root) number ∙ z),
      )
      finish c number (none, s') (z, same) =
          rw same (subst (Kept end_ root s s) z (refl-Kept end_ root s free w))

  first_level :
      (s : Kmem) (free : List ℕ) (va : ℕ)
      → va < maxva
      → IsTree end_ free s root
      → WalkResult s va (walk_levels true 2 va root s)
  unfolding walk_levels
  first_level s free va hv w =
      let i = px 2 va in
      let hi : i < 512 = omega arith in
      finish (walk_level true 2 va root s) (
        level-Result end_ root free s 0 (1 + i) 2 va w (omega arith) w.root_page (omega arith)
          (mid_table s.mem root i hi)
          (λ z x xs mem' w' x_page x_pos g.
            table-top x xs mem' w' x_page x_pos i hi g (sym (mid_table s.mem root i hi) ∙ z)))
    where
      after :
          (m : Walked) (s1 : Kmem) (free1 : List ℕ)
          → Kept end_ root s s1 free1
          → WalkResult s1 va m
          → WalkResult s va m
      after (some pte, s') s1 free1 k (free', l, e, ne) = (free', trans-Kept end_ root k l, e, ne)
      after (none, s') s1 free1 k l = trans-Kept end_ root k l

      finish :
          (m : Walked)
          → LevelResult end_ root free s (1 + px 2 va) m
          → WalkResult s va (descend (λ next s'. walk_levels true 1 va next s') m)
      finish (some next, s') (free', k, e, ne) =
          after (walk_levels true 1 va next s') s' free' k
            (second_level s' free' va next hv k.tree e ne)
      finish (none, s') (z, same) =
          rw same (subst (Kept end_ root s s) z (refl-Kept end_ root s free w))

  -- `walk` with allocation of an address below MAXVA moves no table of the tree and changes no entry of
  -- the last level; it returns the address of the entry, or 0 when no page is free.
  pub walk-Result :
      (s : Kmem) (free : List ℕ) (va : ℕ)
      → va < maxva
      → IsTree end_ free s root
      → (m : Walked) × (walk true va root s ≡ returned m) × WalkResult s va m
  unfolding walk
  walk-Result s free va hv w =
      let low : leb maxva va ≡ false = ground arith in
      (walk_levels true 2 va root s, rw low refl, first_level s free va hv w)
