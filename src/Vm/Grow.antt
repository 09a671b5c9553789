-- ===== src/Vm/Grow.antt =====
-- A new table is entered into another one.
use os_exp.Base.{
  ℕ, ◌+◌, ◌*◌, ◌/◌, ◌%◌, ◌^◌, ◌≤◌, ◌<◌, ◌≡◌, refl, sym, ap, ◌∙◌, subst, ◌≢◌, ◌⊎◌, inl, inr, true,
  false, List, ◌∷◌, arith, ◌==◌, Bool-cases, elem, update,
}
use os_exp.Kalloc.{Kmem, pgsize}
use os_exp.Kalloc.Free.{IsPage, IsFree}
use os_exp.Vm.{pte_v, pte2pa, pa2pte, valid, maxva}
use os_exp.Vm.Tables.{
  child, child-entry, tables, table, leaf_table, entry, SameIn, IsTree, page-apart,
}

-- The page `x` has been zeroed and entered at the address `e`.
pub record Entered (mem mem' : ℕ → ℕ) (x e : ℕ) : Type 0 where
  pub link : mem' e ≡ pa2pte x + valid 0
  pub zeroed : (a : ℕ) → x ≤ a → a < x + pgsize → mem' a ≡ 0
  pub others : (a : ℕ) → a ≢ e → (a < x) ⊎ (x + pgsize ≤ a) → mem' a ≡ mem a

pub head_in : (x : ℕ) (xs : List ℕ) → elem x (x ∷ xs) ≢ false
head_in x xs e = ground arith

pub tail_out : (t x : ℕ) (xs : List ℕ) → elem t (x ∷ xs) ≡ false → elem t xs ≡ false
tail_out t x xs e = ground arith

update_cases :
    (f : ℕ → ℕ) (c x k : ℕ) → ((k ≡ c) × (update f c x k ≡ x)) ⊎ ((k ≢ c) × (update f c x k ≡ f k))
update_cases f c x k = elim (Bool-cases (k == c)) [
  | inl y ↦ inl (ground arith, rw y refl)
  | inr n ↦ inr ((λ e. ground (arith, n, e)), rw n refl)
]

module _ {end_ : ℕ} {s : Kmem} {root : ℕ} (x : ℕ) (xs : List ℕ) (mem' : ℕ → ℕ)
    (w : IsTree end_ (x ∷ xs) s root) (x_page : IsPage end_ x) (x_pos : x ≢ 0) (p j : ℕ)
    (hp : p < 513) (hj : j < 512) (some_p : table s.mem root p ≢ 0)
    (g : Entered s.mem mem' x (table s.mem root p + 8 * j)) where
  -- The tables that are there already are not `x`.
  not_x : (k : ℕ) → k < tables → table s.mem root k ≢ 0 → table s.mem root k ≢ x
  not_x k h ne e = head_in x xs (subst (λ t. elem t (x ∷ xs) ≡ false) e (w.in_use k h ne))

  pub same_page :
      (k : ℕ) → k < tables → table s.mem root k ≢ 0 → k ≢ p → SameIn (table s.mem root k) s.mem mem'
  same_page k h ne far a lo hi =
      let here = w.page k h ne in
      g.others a
        (λ e.
          let apart =
            page-apart end_ (table s.mem root k) (table s.mem root p) a here
              (w.page p (omega arith) some_p) (λ q. far (w.apart k p h (omega arith) ne q)) lo hi in
          elim apart [ inl o ↦ omega arith | inr o ↦ omega arith ])
        (page-apart end_ (table s.mem root k) x a here x_page (not_x k h ne) lo hi)

  -- The other entries of the table that has the new one.
  pub same_entry :
      (i : ℕ)
      → i < 512
      → i ≢ j
      → mem' (table s.mem root p + 8 * i) ≡ s.mem (table s.mem root p + 8 * i)
  same_entry i h ne = g.others (table s.mem root p + 8 * i) (omega arith) (
      page-apart end_ (table s.mem root p) x (table s.mem root p + 8 * i)
        (w.page p (omega arith) some_p) x_page (not_x p (omega arith) some_p) (omega arith)
        (omega arith))

  pub linked : child mem' (table s.mem root p) j ≡ x
  linked =
      let is_valid : pte_v (pa2pte x + valid 0) ≡ true = ground arith in
      let back : pte2pa (pa2pte x + valid 0) ≡ x = omega (arith, x_page) in
      rw (g.link, is_valid) back

  pub empty : (i : ℕ) → i < 512 → child mem' x i ≡ 0
  empty i h = let z = g.zeroed (x + 8 * i) (omega arith) (omega arith) in rw z refl

  bad_link : pte_v 0 ≢ true
  bad_link e = cc

  link_stays :
      (k i : ℕ)
      → k < 513
      → i < 512
      → table s.mem root k ≢ 0
      → pte_v (mem' (table s.mem root k + 8 * i)) ≡ true
      → child mem' (table s.mem root k) i ≢ 0
  link_stays k i hk hi ne v = elim (Bool-cases (k == p)) [
    | inl y ↦
        let k_p : k ≡ p = ground arith in
        elim (Bool-cases (i == j)) [
          | inl z ↦
              let i_j : i ≡ j = ground arith in
              λ q. x_pos (
                sym linked
                ∙ ap (λ m. child mem' (table s.mem root p) m) (sym i_j)
                ∙ ap (λ t. child mem' (table s.mem root t) i) (sym k_p)
                ∙ q)
          | inr o ↦
              let e =
                ap (λ t. mem' (table s.mem root t + 8 * i)) k_p
                ∙ same_entry i hi (λ q. ground (arith, o, q))
                ∙ ap (λ t. s.mem (table s.mem root t + 8 * i)) (sym k_p) in
              λ q.
                w.links k i hk hi ne (sym (ap pte_v e) ∙ v)
                  (sym (child-entry s.mem mem' (table s.mem root k) i e) ∙ q)
        ]
    | inr o ↦
        let e =
          same_page k (omega arith) ne (λ q. ground (arith, o, q)) (table s.mem root k + 8 * i)
            (omega arith) (omega arith) in
        λ q.
          w.links k i hk hi ne (sym (ap pte_v e) ∙ v)
            (sym (child-entry s.mem mem' (table s.mem root k) i e) ∙ q)
  ]

  -- The tree with the new table.
  pub grown-IsTree :
      (c freelist : ℕ)
      → IsFree end_ (record { freelist = freelist; mem = mem' }) xs
      → c < tables
      → ((k : ℕ) → k < tables → table mem' root k ≡ update (table s.mem root) c x k)
      → IsTree end_ xs (record { freelist = freelist; mem = mem' }) root
  grown-IsTree c freelist listed hc grown =
      let cases : (k : ℕ)
          → k < tables
          → ((k ≡ c) × (table mem' root k ≡ x))
            ⊎ ((k ≢ c) × (table mem' root k ≡ table s.mem root k)) =
        λ k h. elim (update_cases (table s.mem root) c x k) [
          | inl (e, u) ↦ inl (e, grown k h ∙ u)
          | inr (ne, u) ↦ inr (ne, grown k h ∙ u)
        ] in
      record {
        listed = listed;
        root_page = w.root_page;
        page = λ k h ne. elim (cases k h) [
          | inl (_, u) ↦ rw u x_page
          | inr (_, u) ↦ rw u (w.page k h λ z. ne (u ∙ z))
        ];
        apart = λ i k hi hk ne e. elim (cases i hi) [
          | inl (ic, u) ↦ elim (cases k hk) [
            | inl (kc, v) ↦ ic ∙ sym kc
            | inr (kn, v) ↦
                let t_x : table s.mem root k ≡ x = sym v ∙ sym e ∙ u in
                absurd (not_x k hk (λ z. x_pos (sym t_x ∙ z)) t_x)
          ]
          | inr (inn, u) ↦ elim (cases k hk) [
            | inl (kc, v) ↦ absurd (not_x i hi (λ z. ne (u ∙ z)) (sym u ∙ e ∙ v))
            | inr (kn, v) ↦ w.apart i k hi hk (λ z. ne (u ∙ z)) (sym u ∙ e ∙ v)
          ]
        ];
        in_use = λ k h ne. elim (cases k h) [
          | inl (_, u) ↦ rw u w.listed.distinct.0
          | inr (_, u) ↦ rw u (tail_out (table s.mem root k) x xs (w.in_use k h λ z. ne (u ∙ z)))
        ];
        links = λ k i hk hi ne v. elim (cases k (omega arith)) [
          | inl (_, u) ↦
              let z = g.zeroed (x + 8 * i) (omega arith) (omega arith) in
              absurd (bad_link (rw (u, z) at v))
          | inr (_, u) ↦ rw u (link_stays k i hk hi (λ z. ne (u ∙ z)) (rw u at v))
        ];
      }

  -- A last-level entry is 0 if its table is new, and the same otherwise.
  pub grown-entry :
      (c : ℕ)
      → table s.mem root c ≡ 0
      → ((k : ℕ) → k < tables → table mem' root k ≡ update (table s.mem root) c x k)
      → (va : ℕ) → va < maxva
      → entry mem' root va ≡ entry s.mem root va
  grown-entry c z grown va hv =
      let k = leaf_table va in
      let i = va / 2 ^ 12 % 512 in
      let hk : k < tables = omega arith in
      elim (update_cases (table s.mem root) c x k) [
        | inl (e, u) ↦
            let new : table mem' root k ≡ x = grown k hk ∙ u in
            let old : table s.mem root k ≡ 0 = ap (table s.mem root) e ∙ z in
            let some_x : (x == 0) ≡ false = ground (arith, x_pos) in
            rw (new, old, some_x) (g.zeroed (x + 8 * i) (omega arith) (omega arith))
        | inr (ne, u) ↦
            let same : table mem' root k ≡ table s.mem root k = grown k hk ∙ u in
            rw same (elim (Bool-cases (table s.mem root k == 0)) [
              | inl y ↦ rw y refl
              | inr n ↦ rw n (
                  same_page k hk (λ q. ground (arith, n, q)) (omega arith)
                    (table s.mem root k + 8 * i) (omega arith) (omega arith))
            ])
      ]
