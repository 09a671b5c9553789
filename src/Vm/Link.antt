-- ===== src/Vm/Link.antt =====
-- Where the tables stand after a new one has been entered into the root or into a middle table.
use os_exp.Base.{
  ℕ, ◌+◌, ◌-◌, ◌*◌, ◌/◌, ◌%◌, ◌<◌, ◌≡◌, refl, sym, ap, ◌∙◌, subst, ◌≢◌, inl, inr, true, false, List,
  ◌∷◌, arith, ltb, ◌==◌, Bool-cases, update,
}
use os_exp.Kalloc.{Kmem}
use os_exp.Kalloc.Free.{IsPage}
use os_exp.Vm.Tables.{
  child, grandchild, child-entry, tables, table, SameIn, child-same, grandchild-same, IsTree,
}
use os_exp.Vm.Grow.{Entered, same_page, same_entry, linked, empty}

some_false : (x : ℕ) → x ≢ 0 → (x == 0) ≡ false
some_false x ne = ground arith

-- The table numbers of the last level.
pub low_table :
    (mem : ℕ → ℕ) (root k : ℕ)
    → (k == 0) ≡ false
    → ltb k 513 ≡ false
    → table mem root k ≡ grandchild mem (child mem root ((k - 513) / 512)) ((k - 513) % 512)
low_table mem root k n far = rw (n, far) refl

pub mid_table : (mem : ℕ → ℕ) (root i : ℕ) → i < 512 → table mem root (1 + i) ≡ child mem root i
mid_table mem root i h =
    let n : (1 + i == 0) ≡ false = ground arith in
    let y : ltb (1 + i) 513 ≡ true = ground arith in
    let back : 1 + i - 1 ≡ i = omega arith in rw (n, y, back) refl

pub grandchild-present :
    (mem : ℕ → ℕ) (p i : ℕ) → (p == 0) ≡ false → grandchild mem p i ≡ child mem p i
grandchild-present mem p i n = rw n refl

update-same :
    (f h : ℕ → ℕ) (j c x m k : ℕ)
    → (m == j) ≡ (k == c)
    → f m ≡ h k
    → update f j x m ≡ update h c x k
update-same f h j c x m k e same = rw (e, same) refl

module _ {end_ : ℕ} {s : Kmem} {root : ℕ} (x : ℕ) (xs : List ℕ) (mem' : ℕ → ℕ)
    (w : IsTree end_ (x ∷ xs) s root) (x_page : IsPage end_ x) (x_pos : x ≢ 0) (j : ℕ)
    (hj : j < 512) where
  module _ (g : Entered s.mem mem' x (root + 8 * j)) (vacant : child s.mem root j ≡ 0) where
    child-top : (i : ℕ) → i < 512 → child mem' root i ≡ update (child s.mem root) j x i
    child-top i h = elim (Bool-cases (i == j)) [
      | inl y ↦
          let i_j : i ≡ j = ground arith in
          ap (child mem' root) i_j
          ∙ linked x xs mem' w x_page x_pos 0 j (omega arith) hj w.root_page g
          ∙ sym (rw y refl)
      | inr n ↦
          child-entry s.mem mem' root i (
            same_entry x xs mem' w x_page x_pos 0 j (omega arith) hj w.root_page g i h
              λ e. ground (arith, n, e))
          ∙ sym (rw n refl)
    ]

    pub table-top : (k : ℕ) → k < tables → table mem' root k ≡ update (table s.mem root) (1 + j) x k
    table-top k h = elim (Bool-cases (k == 0)) [
      | inl y ↦ let far : (k == 1 + j) ≡ false = ground arith in rw (far, y) refl
      | inr n ↦ elim (Bool-cases (ltb k 513)) [
        | inl y ↦
            let same : (k == 1 + j) ≡ (k - 1 == j) = ground arith in
            rw (n, y, same) (child-top (k - 1) (ground arith))
        | inr far ↦
            let i = (k - 513) / 512 in
            let hi : i < 512 = ground arith in
            let other : (k == 1 + j) ≡ false = ground arith in
            low_table mem' root k n far ∙ elim (Bool-cases (i == j)) [
              | inl y ↦
                  let i_j : i ≡ j = ground arith in
                  let new : child mem' root i ≡ x = child-top i hi ∙ rw y refl in
                  let old : child s.mem root i ≡ 0 = ap (child s.mem root) i_j ∙ vacant in
                  rw (new, some_false x x_pos, other, n, far, old)
                    (empty x xs mem' w x_page x_pos 0 j (omega arith) hj w.root_page g
                      ((k - 513) % 512) (omega arith))
              | inr m ↦
                  let same : child mem' root i ≡ child s.mem root i = child-top i hi ∙ rw m refl in
                  let mid = mid_table s.mem root i hi in
                  rw (same, other, n, far)
                    (grandchild-same s.mem mem' (child s.mem root i) ((k - 513) % 512)
                      (λ ne.
                        subst (λ t. SameIn t s.mem mem') mid
                          (same_page x xs mem' w x_page x_pos 0 j (omega arith) hj w.root_page g
                            (1 + i) (omega arith) (λ z. ne (sym mid ∙ z)) (λ e. omega (arith, e))))
                      (omega arith))
            ]
      ]
    ]

  module _ (i : ℕ) (hi : i < 512) (some_p : table s.mem root (1 + i) ≢ 0)
      (g : Entered s.mem mem' x (table s.mem root (1 + i) + 8 * j)) where
    top_same : SameIn root s.mem mem'
    top_same =
        same_page x xs mem' w x_page x_pos (1 + i) j (omega arith) hj some_p g 0 (omega arith)
          w.root_page (λ e. omega (arith, e))

    child-mid :
        (m : ℕ)
        → m < 512
        → child mem' (table s.mem root (1 + i)) m
          ≡ update (child s.mem (table s.mem root (1 + i))) j x m
    child-mid m h = elim (Bool-cases (m == j)) [
      | inl y ↦
          let m_j : m ≡ j = ground arith in
          ap (child mem' (table s.mem root (1 + i))) m_j
          ∙ linked x xs mem' w x_page x_pos (1 + i) j (omega arith) hj some_p g
          ∙ sym (rw y refl)
      | inr n ↦
          child-entry s.mem mem' (table s.mem root (1 + i)) m (
            same_entry x xs mem' w x_page x_pos (1 + i) j (omega arith) hj some_p g m h
              λ e. ground (arith, n, e))
          ∙ sym (rw n refl)
    ]

    pub table-mid :
        (k : ℕ)
        → k < tables
        → table mem' root k ≡ update (table s.mem root) (513 + (512 * i + j)) x k
    table-mid k h = elim (Bool-cases (k == 0)) [
      | inl y ↦ let far : (k == 513 + (512 * i + j)) ≡ false = ground arith in rw (far, y) refl
      | inr n ↦ elim (Bool-cases (ltb k 513)) [
        | inl y ↦
            let other : (k == 513 + (512 * i + j)) ≡ false = ground arith in
            rw (other, n, y) (child-same s.mem mem' root (k - 1) top_same (ground arith))
        | inr far ↦
            let m = (k - 513) / 512 in
            let hm : m < 512 = ground arith in
            let same : child mem' root m ≡ child s.mem root m =
              child-same s.mem mem' root m top_same hm in
            low_table mem' root k n far ∙ elim (Bool-cases (m == i)) [
              | inl y ↦
                  let m_i : m ≡ i = ground arith in
                  let here : child s.mem root m ≡ table s.mem root (1 + i) =
                    ap (child s.mem root) m_i ∙ sym (mid_table s.mem root i hi) in
                  let number : (k == 513 + (512 * i + j)) ≡ ((k - 513) % 512 == j) = ground arith in
                  let present : (table s.mem root (1 + i) == 0) ≡ false =
                    some_false (table s.mem root (1 + i)) some_p in
                  ap (λ t. grandchild mem' t ((k - 513) % 512)) (same ∙ here)
                  ∙ grandchild-present mem' (table s.mem root (1 + i)) ((k - 513) % 512) present
                  ∙ child-mid ((k - 513) % 512) (omega arith)
                  ∙ update-same (child s.mem (table s.mem root (1 + i))) (table s.mem root) j
                      (513 + (512 * i + j)) x ((k - 513) % 512) k (sym number)
                      (sym (
                        low_table s.mem root k n far
                        ∙ ap (λ t. grandchild s.mem t ((k - 513) % 512)) here
                        ∙ grandchild-present s.mem (table s.mem root (1 + i)) ((k - 513) % 512)
                            present))
              | inr o ↦
                  let other : (k == 513 + (512 * i + j)) ≡ false = ground arith in
                  let mid = mid_table s.mem root m hm in
                  rw (same, other, n, far)
                    (grandchild-same s.mem mem' (child s.mem root m) ((k - 513) % 512)
                      (λ ne.
                        subst (λ t. SameIn t s.mem mem') mid
                          (same_page x xs mem' w x_page x_pos (1 + i) j (omega arith) hj some_p g
                            (1 + m) (omega arith) (λ z. ne (sym mid ∙ z))
                            (λ e. ground (arith, e, o))))
                      (omega arith))
            ]
      ]
    ]
