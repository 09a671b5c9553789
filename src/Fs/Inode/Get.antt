-- ===== src/Fs/Inode/Get.antt =====
-- What `iget` gives.
use os_exp.Base.{
  ℕ, ◌+◌, ◌<◌, ◌≡◌, refl, sym, ap, ◌∙◌, subst, ◌≢◌, ◌⊎◌, inl, inr, false, none, some, arith, ◌==◌,
  Bool-cases, update, update_self, update_ne, Outcome, returned, panicked,
}
use os_exp.Fs.Inode.{Inode, ninode, Table, Slot, present, vacant, iget_loop, iget_slot, iget}
use os_exp.Fs.Inode.Table.{Names, IsTable, Searched, iget_loop-Searched}

pub record Referenced (dev inum i : ℕ) (t t' : Table) : Type 0 where
  pub in_range : i < ninode
  pub named : Names dev inum (t' i)
  pub others : (j : ℕ) → j ≢ i → t' j ≡ t j
  pub valid : IsTable t'
  -- the entry was there already, or it was not in use and the inode will be read
  pub how :
      ((0 < (t i).ref) × (t' i ≡ record (t i) { ref = (t i).ref + 1 }))
      ⊎ (((t i).ref ≡ 0)
          × ((t' i).ref ≡ 1)
          × ((t' i).valid ≡ false)
          × ((j : ℕ) → j < ninode → ¬ (Names dev inum (t j))))

abbrev pub IgetResult : (dev inum : ℕ) → Table → Outcome (ℕ × Table) → Type 0
IgetResult dev inum t (returned (i, t')) = Referenced dev inum i t t'
IgetResult dev inum t (panicked why) =
    (j : ℕ) → j < ninode → (0 < (t j).ref) × ¬ (Names dev inum (t j))

update-cases :
    (t : Table) (c : ℕ) (p : Inode) (j : ℕ)
    → ((j ≡ c) × (update t c p j ≡ p)) ⊎ ((j ≢ c) × (update t c p j ≡ t j))
update-cases t c p j = elim (Bool-cases (j == c)) [
  | inl e ↦ inl (ground arith, rw e)
  | inr n ↦ inr (ground arith, rw n)
]

-- An entry that is given an inode that no other entry in use has.
set-IsTable :
    (t : Table) (c : ℕ) (p : Inode)
    → IsTable t
    → ((j : ℕ) → j < ninode → j ≢ c → ¬ (Names p.dev p.inum (t j)))
    → IsTable (update t c p)
set-IsTable t c p w alone i j hi hj pos m = elim (update-cases t c p i) [
  | inl (ic, ei) ↦ elim (update-cases t c p j) [
    | inl (jc, ej) ↦ ic ∙ sym jc
    | inr (jn, ej) ↦ absurd (
        alone j hj jn (
          subst (λ (q : Inode). 0 < q.ref) ej m.0,
          sym (ap Inode.dev ej) ∙ m.1 ∙ ap Inode.dev ei,
          sym (ap Inode.inum ej) ∙ m.2 ∙ ap Inode.inum ei,
        ))
  ]
  | inr (ni, ei) ↦ elim (update-cases t c p j) [
    | inl (jc, ej) ↦ absurd (
        alone i hi ni (
          subst (λ (q : Inode). 0 < q.ref) ei pos,
          sym (ap Inode.dev ei) ∙ sym m.1 ∙ ap Inode.dev ej,
          sym (ap Inode.inum ei) ∙ sym m.2 ∙ ap Inode.inum ej,
        ))
    | inr (jn, ej) ↦ w i j hi hj (subst (λ (q : Inode). 0 < q.ref) ei pos) (
      subst (λ (q : Inode). 0 < q.ref) ej m.0,
      sym (ap Inode.dev ej) ∙ m.1 ∙ ap Inode.dev ei,
      sym (ap Inode.inum ej) ∙ m.2 ∙ ap Inode.inum ei,
    )
  ]
]

iget_slot-result :
    (dev inum : ℕ) (t : Table) (r : Slot)
    → IsTable t
    → Searched dev inum ninode 0 none t r
    → IgetResult dev inum t (iget_slot dev inum r t)
iget_slot-result dev inum t (present i) w (_, hi, m) =
    let p = record (t i) { ref = (t i).ref + 1 } in
    let here = update_self t i p in
    record {
      in_range = hi;
      named = (omega (arith, ap Inode.ref here), ap Inode.dev here ∙ m.1, ap Inode.inum here ∙ m.2);
      others = λ j ne. update_ne t i p j ne;
      valid = set-IsTable t i p w λ j hj ne n. ne (sym (w i j hi hj m.0 n));
      how = inl (m.0, here);
    }
iget_slot-result dev inum t (vacant (some i)) w (alone, free, _) =
    let p = record (t i) { dev = dev; inum = inum; ref = 1; valid = false } in
    let here = update_self t i p in
    let found : (i < ninode) × ((t i).ref ≡ 0) = elim (free i refl) [
      | inl e ↦ cc
      | inr (_, hi, z) ↦ (hi, z)
    ] in
    record {
      in_range = found.0;
      named = (omega (arith, ap Inode.ref here), ap Inode.dev here, ap Inode.inum here);
      others = λ j ne. update_ne t i p j ne;
      valid = set-IsTable t i p w λ j hj ne n. alone j (omega arith) hj n;
      how = inr (found.1, ap Inode.ref here, ap Inode.valid here, λ j hj. alone j (omega arith) hj);
    }
iget_slot-result dev inum t (vacant none) w (alone, _, full) =
    λ j hj. ((full refl).1 j (omega arith) hj, alone j (omega arith) hj)

-- In a table with at most one entry for each inode `iget` gives the entry of the inode with one more
-- reference, or an entry that was not in use, to be read; no other entry changes and there is still
-- one for each inode at most. If it panics, all entries are in use for other inodes.
pub iget_lem : (dev inum : ℕ) (t : Table) → IsTable t → IgetResult dev inum t (iget dev inum t)
unfolding iget
iget_lem dev inum t w =
    iget_slot-result dev inum t (iget_loop dev inum ninode 0 none t) w
      (iget_loop-Searched dev inum ninode 0 none t)
