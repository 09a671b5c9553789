-- ===== src/Vm/Level.antt =====
-- One round of the loop of `walk` that may allocate.
use os_exp.Base.{
  ℕ, ◌+◌, ◌*◌, ◌≤◌, ◌<◌, ◌≡◌, refl, sym, ap, ◌∙◌, subst, ◌≢◌, ◌⊎◌, inl, inr, true, false, ◌&&◌,
  none, some, List, [], ◌∷◌, arith, ltb, leb, ◌==◌, Bool-cases, elem, update, update_self,
  update_ne,
}
use os_exp.Kalloc.{Kmem, pgsize, memset_page, kalloc}
use os_exp.Kalloc.Free.{IsPage, IsFree, Allocated, SameOutside, write-IsFree, kalloc_lem}
use os_exp.Vm.{pte_v, pte2pa, pa2pte, valid, maxva, px, Walked, new_table, walk_level}
use os_exp.Vm.Tables.{child, tables, table, entry, IsTree, page-apart}
use os_exp.Vm.Grow.{Entered, head_in, tail_out, grown-IsTree, grown-entry}

outside_word : (a t j : ℕ) → j < 512 → (a < t) ⊎ (t + pgsize ≤ a) → a ≢ t + 8 * j
outside_word a t j h (inl o) e = omega arith
outside_word a t j h (inr o) e = omega arith

module _ (end_ root : ℕ) where
  -- No table has moved and no last-level entry has changed.
  pub record Kept (s s' : Kmem) (free : List ℕ) : Type 0 where
    pub tree : IsTree end_ free s' root
    pub entries : (va : ℕ) → va < maxva → entry s'.mem root va ≡ entry s.mem root va
    pub stays :
        (k : ℕ) → k < tables → table s.mem root k ≢ 0 → table s'.mem root k ≡ table s.mem root k

  pub refl-Kept : (s : Kmem) (free : List ℕ) → IsTree end_ free s root → Kept s s free
  refl-Kept s free w = record { tree = w; entries = λ va h. refl; stays = λ k h ne. refl }

  pub trans-Kept :
      {s t u : Kmem} {free free' : List ℕ} → Kept s t free → Kept t u free' → Kept s u free'
  trans-Kept k l = record {
    tree = l.tree;
    entries = λ va h. l.entries va h ∙ k.entries va h;
    stays = λ j h ne. l.stays j h (λ z. ne (sym (k.stays j h ne) ∙ z)) ∙ k.stays j h ne;
  }

  -- The table `c` is there, or it was not and no page is free.
  abbrev pub LevelResult : List ℕ → Kmem → (c : ℕ) → Walked → Type 0
  LevelResult free s c (some t, s') =
      (free' : List ℕ) × Kept s s' free' × (t ≡ table s'.mem root c) × (table s'.mem root c ≢ 0)
  LevelResult free s c (none, s') = (free ≡ []) × (s' ≡ s)

  taken-IsPage :
      {s : Kmem} (x : ℕ) (xs : List ℕ) → IsTree end_ (x ∷ xs) s root → IsPage end_ x × (x ≢ 0)
  taken-IsPage x xs w = (w.listed.pages.0, λ z. w.listed.chain.1 (w.listed.chain.0 ∙ z))

  new_table-Entered :
      (s s1 : Kmem) (x e : ℕ)
      → (e < x) ⊎ (x + pgsize ≤ e)
      → SameOutside x s.mem s1.mem
      → Entered s.mem (update (memset_page x 0 s1.mem) e (pa2pte x + valid 0)) x e
  new_table-Entered s s1 x e out same = record {
    link = update_self (memset_page x 0 s1.mem) e _;
    zeroed = λ a lo hi.
        let inside : (leb x a && ltb a (x + pgsize)) ≡ true = ground arith in
        update_ne (memset_page x 0 s1.mem) e _ a (λ q. ground (arith, out, q)) ∙ rw inside refl;
    others = λ a ne o.
        let outside : (leb x a && ltb a (x + pgsize)) ≡ false = ground arith in
        update_ne (memset_page x 0 s1.mem) e _ a ne ∙ rw outside refl ∙ same a o;
  }

  new_table-Level :
      (free : List ℕ) (s : Kmem) (m : ℕ × Kmem) (p j c : ℕ)
      → (w : IsTree end_ free s root) → p < 513
      → j < 512
      → table s.mem root p ≢ 0
      → c < tables
      → table s.mem root c ≡ 0
      → ((x : ℕ) (xs : List ℕ) (mem' : ℕ → ℕ)
          → IsTree end_ (x ∷ xs) s root
          → IsPage end_ x
          → x ≢ 0
          → Entered s.mem mem' x (table s.mem root p + 8 * j)
          → (k : ℕ) → k < tables
          → table mem' root k ≡ update (table s.mem root) c x k)
      → Allocated end_ s free m
      → LevelResult free s c (new_table (table s.mem root p + 8 * j) m)
  new_table-Level [] s (r, s1) p j c w hp hj some_p hc z grown (e, same) =
      let none_left : (r == 0) ≡ true = ground arith in rw none_left (refl, same)
  new_table-Level (x ∷ xs) s (r, s1) p j c w hp hj some_p hc z grown (e, listed, same, junk) =
      let (x_page, x_pos) = taken-IsPage x xs w in
      let some_x : (x == 0) ≡ false = ground (arith, x_pos) in
      let t = table s.mem root p in
      let t_page = w.page p (omega arith) some_p in
      let used = w.in_use p (omega arith) some_p in
      let apart : t ≢ x = λ q. head_in x xs (subst (λ a. elem a (x ∷ xs) ≡ false) q used) in
      let out = page-apart end_ t x (t + 8 * j) t_page x_page apart (omega arith) (omega arith) in
      let mem' = update (memset_page x 0 s1.mem) (t + 8 * j) (pa2pte x + valid 0) in
      let g = new_table-Entered s s1 x (t + 8 * j) out same in
      let tree_table = grown x xs mem' w x_page x_pos g in
      let zeroed_free =
        write-IsFree x (memset_page x 0 s1.mem) listed x_page w.listed.distinct.0 (λ a o.
          let outside : (leb x a && ltb a (x + pgsize)) ≡ false = ground arith in
          rw outside refl) in
      let free' : IsFree end_ (record { freelist = s1.freelist; mem = mem' }) xs =
        write-IsFree t mem' zeroed_free t_page (tail_out t x xs used)
          (λ a o. update_ne (memset_page x 0 s1.mem) (t + 8 * j) _ a (outside_word a t j hj o)) in
      let here : table mem' root c ≡ x = tree_table c hc ∙ update_self (table s.mem root) c x in
      rw (e, some_x)
        (
          xs,
          record {
            tree =
                grown-IsTree x xs mem' w x_page x_pos p j hp hj some_p g c s1.freelist free' hc
                  tree_table;
            entries = grown-entry x xs mem' w x_page x_pos p j hp hj some_p g c z tree_table;
            stays = λ k h ne.
                tree_table k h
                ∙ update_ne (table s.mem root) c x k (λ q. ne (ap (table s.mem root) q ∙ z));
          },
          sym here,
          λ q. x_pos (sym here ∙ q),
        )

  pub level-Result :
      (free : List ℕ) (s : Kmem) (p c level va : ℕ)
      → (w : IsTree end_ free s root) → p < 513
      → table s.mem root p ≢ 0
      → c < tables
      → table s.mem root c ≡ child s.mem (table s.mem root p) (px level va)
      → (table s.mem root c ≡ 0
          → (x : ℕ) (xs : List ℕ) (mem' : ℕ → ℕ) → IsTree end_ (x ∷ xs) s root
          → IsPage end_ x
          → x ≢ 0
          → Entered s.mem mem' x (table s.mem root p + 8 * px level va)
          → (k : ℕ) → k < tables
          → table mem' root k ≡ update (table s.mem root) c x k)
      → LevelResult free s c (walk_level true level va (table s.mem root p) s)
  level-Result free s p c level va w hp some_p hc here grown =
      let j = px level va in
      let t = table s.mem root p in
      let hj : j < 512 = omega arith in
      elim (Bool-cases (pte_v (s.mem (t + 8 * j)))) [
        | inl y ↦
            let there : child s.mem t j ≡ pte2pa (s.mem (t + 8 * j)) = rw y refl in
            rw y (
              free,
              refl-Kept s free w,
              sym (here ∙ there),
              λ z. w.links p j hp hj some_p y (sym here ∙ z),
            )
        | inr n ↦
            let vacant : child s.mem t j ≡ 0 = rw n refl in
            rw n (
              new_table-Level free s (kalloc s) p j c w hp hj some_p hc (here ∙ vacant)
                (grown (here ∙ vacant)) (kalloc_lem free w.listed))
      ]
