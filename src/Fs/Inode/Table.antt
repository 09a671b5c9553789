-- ===== src/Fs/Inode/Table.antt =====
-- `iget` gives one entry for each inode.
use os_exp.Base.{
  ℕ, zero, suc, ◌+◌, ◌≤◌, ◌<◌, ◌≡◌, refl, sym, ap, ◌∙◌, subst, ◌⊎◌, inl, inr, ◌&&◌, Option, none,
  some, arith, ltb, ◌==◌, Bool-cases,
}
use os_exp.Fs.Inode.{Inode, ninode, Table, Slot, present, vacant, remember, iget_loop}

-- The entry is in use for the inode.
abbrev pub Names : (dev inum : ℕ) → Inode → Type 0
Names dev inum ip = (0 < ip.ref) × (ip.dev ≡ dev) × (ip.inum ≡ inum)

-- An inode has one entry at most.
abbrev pub IsTable : Table → Type 0
IsTable t =
    (i j : ℕ) → i < ninode → j < ninode → 0 < (t i).ref → Names (t i).dev (t i).inum (t j) → i ≡ j

-- What the loop has found from the entry `i` to before `n`, with `empty` found before.
abbrev pub Searched : (dev inum n i : ℕ) → Option ℕ → Table → Slot → Type 0
Searched dev inum n i empty t (present c) = (i ≤ c) × (c < n) × Names dev inum (t c)
Searched dev inum n i empty t (vacant r) =
    ((j : ℕ) → i ≤ j → j < n → ¬ (Names dev inum (t j)))
    × ((c : ℕ) → r ≡ some c → (empty ≡ some c) ⊎ ((i ≤ c) × (c < n) × ((t c).ref ≡ 0)))
    × (r ≡ none → (empty ≡ none) × ((j : ℕ) → i ≤ j → j < n → 0 < (t j).ref))

remember_lem :
    (empty : Option ℕ) (i : ℕ) (ip : Inode) (c : ℕ)
    → remember empty i ip ≡ some c
    → (empty ≡ some c) ⊎ ((c ≡ i) × (ip.ref ≡ 0))
remember_lem (some e) i ip c h = inl h
remember_lem none i ip c h = elim (Bool-cases (ip.ref == 0)) [
  | inl y ↦ inr (cc (rw y at h), ground arith)
  | inr n ↦ cc (rw n at h)
]

remember-none :
    (empty : Option ℕ) (i : ℕ) (ip : Inode)
    → remember empty i ip ≡ none
    → (empty ≡ none) × (0 < ip.ref)
remember-none (some e) i ip h = cc
remember-none none i ip h = elim (Bool-cases (ip.ref == 0)) [
  | inl y ↦ cc (rw y at h)
  | inr n ↦ (refl, ground arith)
]

more-Searched :
    (dev inum n i : ℕ) (empty : Option ℕ) (t : Table) (r : Slot)
    → i < n
    → ¬ (Names dev inum (t i))
    → Searched dev inum n (i + 1) (remember empty i (t i)) t r
    → Searched dev inum n i empty t r
more-Searched dev inum n i empty t (present c) lt no_ w = (omega arith, w.1, w.2)
more-Searched dev inum n i empty t (vacant r) lt no_ w = (
  (λ j lo hi m. elim (Bool-cases (j == i)) [
    | inl y ↦ let j_i : j ≡ i = ground arith in no_ (subst (λ k. Names dev inum (t k)) j_i m)
    | inr ne ↦ w.0 j (ground arith) hi m
  ]),
  (λ c e. elim (w.1 c e) [
    | inl before ↦ elim (remember_lem empty i (t i) c before) [
      | inl b ↦ inl b
      | inr (c_i, z) ↦ inr (omega arith, omega arith, ap (λ k. (t k).ref) c_i ∙ z)
    ]
    | inr (lo, hi, z) ↦ inr (omega arith, hi, z)
  ]),
  λ e.
      let (before, all) = w.2 e in
      let (first, here) = remember-none empty i (t i) before in
      (
        first,
        λ j lo hi. elim (Bool-cases (j == i)) [
          | inl y ↦ let j_i : j ≡ i = ground arith in subst (λ k. 0 < (t k).ref) (sym j_i) here
          | inr ne ↦ all j (ground arith) hi
        ],
      ),
)

pub iget_loop-Searched :
    (dev inum k i : ℕ) (empty : Option ℕ) (t : Table)
    → Searched dev inum (i + k) i empty t (iget_loop dev inum k i empty t)
unfolding iget_loop
iget_loop-Searched dev inum zero i empty t =
    ((λ j lo hi. absurd (omega arith)), (λ c e. inl e), λ e. (e, λ j lo hi. absurd (omega arith)))
iget_loop-Searched dev inum (suc k) i empty t =
    let ends : i + 1 + k ≡ i + suc k = omega arith in
    elim (Bool-cases (ltb 0 (t i).ref && ((t i).dev == dev) && ((t i).inum == inum))) [
      | inl y ↦ rw y (omega arith, omega arith, (ground arith, ground arith, ground arith))
      | inr n ↦ rw n (
          more-Searched dev inum (i + suc k) i empty t
            (iget_loop dev inum k (i + 1) (remember empty i (t i)) t) (omega arith)
            (λ m. ground (arith, n, m.0, m.1, m.2))
            (subst
              (λ m.
                Searched dev inum m (i + 1) (remember empty i (t i)) t
                  (iget_loop dev inum k (i + 1) (remember empty i (t i)) t))
              ends (iget_loop-Searched dev inum k (i + 1) (remember empty i (t i)) t)))
    ]
