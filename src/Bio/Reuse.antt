-- ===== src/Bio/Reuse.antt =====
-- The recycling of a buffer in `bget` changes no block.
use os_exp.Base.{ℕ, ◌<◌, ◌≡◌, refl, sym, ap, ◌∙◌, subst, inl, inr, arith, Bool-cases}
use os_exp.Bio.{Buf, Bcache, nbuf, set_buf, reuse}
use os_exp.Bio.Valid.{rootdev, IsCache}
use os_exp.Bio.View.{content, view, Has, at_some, at_none, where_is}
use os_exp.Bio.Change.{Settled, LockedInUse, update-cases}

-- Nothing that a caller can see of the blocks has changed.
pub record Same (s t : Bcache) : Type 0 where
  pub valid : IsCache t
  pub same_view : (k : ℕ) → view t k ≡ view s k
  pub same_disk : t.disk ≡ s.disk

pub Same-trans : {s t u : Bcache} → Same s t → Same t u → Same s u
Same-trans a b = record {
  valid = b.valid;
  same_view = λ k. b.same_view k ∙ a.same_view k;
  same_disk = b.same_disk ∙ a.same_disk;
}

-- An unused buffer is given to a block that is in no buffer.
module _ (s : Bcache) (b n : ℕ) (w : IsCache s) (h : b < nbuf) (free : (s.buf b).refcnt ≡ 0)
    (new_ : (i : ℕ) → ¬ (Has s n i)) where
  abbrev pub again : Bcache
  again = set_buf b (reuse rootdev n (s.buf b)) s

  reuse-IsCache : IsCache again
  reuse-IsCache = record {
    listed = w.listed;
    once = w.once;
    unique = λ i j hi hj di dj e. elim (update-cases s.buf b (reuse rootdev n (s.buf b)) i) [
      | inl (ib, ei) ↦ elim (update-cases s.buf b (reuse rootdev n (s.buf b)) j) [
        | inl (jb, ej) ↦ ib ∙ sym jb
        | inr (_, ej) ↦ absurd (
            new_ j
              (hj, sym (ap Buf.dev ej) ∙ dj, sym (ap Buf.blockno ej) ∙ sym e ∙ ap Buf.blockno ei))
      ]
      | inr (_, ei) ↦ elim (update-cases s.buf b (reuse rootdev n (s.buf b)) j) [
        | inl (jb, ej) ↦
            absurd (
              new_ i
                (hi, sym (ap Buf.dev ei) ∙ di, sym (ap Buf.blockno ei) ∙ e ∙ ap Buf.blockno ej))
        | inr (_, ej) ↦
            w.unique i j hi hj (sym (ap Buf.dev ei) ∙ di) (sym (ap Buf.dev ej) ∙ dj)
              (sym (ap Buf.blockno ei) ∙ e ∙ ap Buf.blockno ej)
      ]
    ];
    settled = λ i hi. elim (update-cases s.buf b (reuse rootdev n (s.buf b)) i) [
      | inl (_, e) ↦ subst (Settled s.disk) (sym e) (λ zero_. absurd (omega arith))
      | inr (_, e) ↦ subst (Settled s.disk) (sym e) (w.settled i hi)
    ];
    unlocked = λ i hi. elim (update-cases s.buf b (reuse rootdev n (s.buf b)) i) [
      | inl (_, e) ↦ subst LockedInUse (sym e) (λ _. omega arith)
      | inr (_, e) ↦ subst LockedInUse (sym e) (w.unlocked i hi)
    ];
  }

  -- The block that was in the buffer before is on the disk as it is shown.
  was_settled : (k : ℕ) → Has s k b → view s k ≡ s.disk k
  was_settled k (hb, db, ob) = at_some s k b w (hb, db, ob) ∙ elim (Bool-cases (s.buf b).valid) [
    | inl y ↦ rw y (w.settled b hb free db y ∙ ap s.disk ob)
    | inr m ↦ rw m refl
  ]

  reuse-view : (k : ℕ) → view again k ≡ view s k
  reuse-view k = elim (where_is again k reuse-IsCache) [
    | inl (i, (hi, di, oi)) ↦
        let after = at_some again k i reuse-IsCache (hi, di, oi) in
        elim (update-cases s.buf b (reuse rootdev n (s.buf b)) i) [
          | inl (_, e) ↦
              let n_k : n ≡ k = sym (ap Buf.blockno e) ∙ oi in
              after
              ∙ ap (λ y. content y (s.disk k)) e
              ∙ sym (at_none s k w (subst (λ m. (i : ℕ) → ¬ (Has s m i)) n_k new_))
          | inr (_, e) ↦
              after
              ∙ ap (λ y. content y (s.disk k)) e
              ∙ sym (at_some s k i w (hi, sym (ap Buf.dev e) ∙ di, sym (ap Buf.blockno e) ∙ oi))
        ]
    | inr nowhere ↦ at_none again k reuse-IsCache nowhere ∙ elim (where_is s k w) [
      | inr none_ ↦ sym (at_none s k w none_)
      | inl (i, (hi, di, oi)) ↦ elim (update-cases s.buf b (reuse rootdev n (s.buf b)) i) [
        | inl (ib, _) ↦ sym (
            was_settled k
              (h, ap (λ j. (s.buf j).dev) (sym ib) ∙ di, ap (λ j. (s.buf j).blockno) (sym ib) ∙ oi))
        | inr (_, e) ↦ absurd (nowhere i (hi, ap Buf.dev e ∙ di, ap Buf.blockno e ∙ oi))
      ]
    ]
  ]

  pub reuse-Same : Same s again
  reuse-Same = record { valid = reuse-IsCache; same_view = reuse-view; same_disk = refl }
