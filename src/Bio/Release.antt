-- ===== src/Bio/Release.antt =====
-- `brelse` and its like keep the cache well formed and show the same blocks.
use os_exp.Base.{
  ℕ, ◌+◌, ◌-◌, ◌<◌, ◌≡◌, refl, sym, ap, ◌∙◌, ◌≢◌, inl, inr, true, false, List, [], ◌∷◌, arith, ◌==◌,
  if◌then◌else◌, Bool-cases, elem, Distinct, update, update_self, update_ne, returned,
}
use os_exp.Bio.{Buf, Bcache, nbuf, set_buf, remove, put_down, brelse}
use os_exp.Bio.Valid.{IsCache}
use os_exp.Bio.View.{at_some, at_none, where_is}
use os_exp.Bio.Change.{Good, set-IsCache, view_kept}
use os_exp.Bio.Reuse.{Same, Same-trans}

elem-remove : (a b : ℕ) (xs : List ℕ) → elem a xs ≡ false → elem a (remove b xs) ≡ false
elem-remove a b [] e = refl
elem-remove a b (x ∷ xs) e = elim (Bool-cases (x == b)) [
  | inl y ↦ rw y (ground (arith, e))
  | inr n ↦ rw n (ground (arith, e, elem-remove a b xs (ground (arith, e))))
]

remove-elem : (b : ℕ) (xs : List ℕ) → Distinct xs → elem b (remove b xs) ≡ false
remove-elem b [] d = refl
remove-elem b (x ∷ xs) d = elim (Bool-cases (x == b)) [
  | inl y ↦ let x_b : x ≡ b = ground arith in rw (y, ← x_b) d.0
  | inr n ↦ rw n (ground (arith, n, remove-elem b xs d.1))
]

remove-Distinct : (b : ℕ) (xs : List ℕ) → Distinct xs → Distinct (remove b xs)
remove-Distinct b [] d = tt
remove-Distinct b (x ∷ xs) d = elim (Bool-cases (x == b)) [
  | inl y ↦ rw y d.1
  | inr n ↦ rw n (elem-remove x b xs d.0, remove-Distinct b xs d.1)
]

-- Moving a buffer to the front loses none.
elem-front : (a b : ℕ) (xs : List ℕ) → elem b xs ≡ true → elem a (b ∷ remove b xs) ≡ elem a xs
elem-front a b [] e = cc
elem-front a b (x ∷ xs) e = elim (Bool-cases (x == b)) [
  | inl y ↦ let x_b : x ≡ b = ground arith in rw (y, x_b) refl
  | inr n ↦
      let rest : elem b xs ≡ true = ground (arith, e, n) in
      rw n (ground (arith, elem-front a b xs rest))
]

-- The order of the buffers is of no concern to the blocks.
front-Same :
    (s : Bcache) (b : ℕ) → IsCache s → b < nbuf → Same s (record s { order = b ∷ remove b s.order })
front-Same s b w h = record {
  valid = valid;
  same_view = λ k. elim (where_is s k w) [
    | inl (i, m) ↦
        at_some (record s { order = b ∷ remove b s.order }) k i valid m ∙ sym (at_some s k i w m)
    | inr none_ ↦
        at_none (record s { order = b ∷ remove b s.order }) k valid none_
        ∙ sym (at_none s k w none_)
  ];
  same_disk = refl;
}
  where
    valid : IsCache (record s { order = b ∷ remove b s.order })
    valid = record {
      listed = λ a. rw (elem-front a b s.order ((w.listed b).1 h)) (w.listed a);
      once = (remove-elem b s.order w.once, remove-Distinct b s.order w.once);
      unique = w.unique;
      settled = w.settled;
      unlocked = w.unlocked;
    }

-- A caller that holds the last reference leaves nothing that the disk has not.
abbrev pub Clean : Bcache → ℕ → Type 0
Clean s b = (s.buf b).refcnt ≡ 1 → (s.buf b).bytes ≡ s.disk (s.buf b).blockno

pub record Released (s : Bcache) (b : ℕ) (t : Bcache) : Type 0 where
  pub same : Same s t
  pub unlocked : (t.buf b).locked ≡ false
  pub kept : ((t.buf b).dev ≡ (s.buf b).dev) × ((t.buf b).blockno ≡ (s.buf b).blockno)
  pub counted : (t.buf b).refcnt + 1 ≡ (s.buf b).refcnt
  pub others : (j : ℕ) → j ≢ b → t.buf j ≡ s.buf j
  pub order : t.order ≡ (if (t.buf b).refcnt == 0 then b ∷ remove b s.order else s.order)

-- `brelse` of a locked buffer succeeds: it is unlocked and has one reference less, and goes to the front
-- of the list if that was the last one; where the last holder leaves what is on the disk, the cache
-- stays well formed and every block shows what it showed.
pub brelse-Released :
    (s : Bcache) (b : ℕ)
    → IsCache s
    → b < nbuf
    → (s.buf b).locked ≡ true
    → Clean s b
    → (t : Bcache) × (brelse b s ≡ returned t) × Released s b t
unfolding brelse
brelse-Released s b w h l clean = (put_down b s, rw l refl, go)
  where
    x : Buf
    x = record (s.buf b) { locked = false; refcnt = (s.buf b).refcnt - 1 }

    pos : 0 < (s.buf b).refcnt
    pos = w.unlocked b h l

    good : Good x s.disk
    good = ((λ z _ _. clean (omega arith)), λ (e : false ≡ true). cc)

    laid : Same s (set_buf b x s)
    laid = record {
      valid = set-IsCache s b x w refl refl good;
      same_view = view_kept s b x w h refl refl good refl refl;
      same_disk = refl;
    }

    here : update s.buf b x b ≡ x
    here = update_self s.buf b x

    go : Released s b (put_down b s)
    go = elim (Bool-cases ((s.buf b).refcnt - 1 == 0)) [
      | inl y ↦ rw y (record {
        same = Same-trans laid (front-Same (set_buf b x s) b laid.valid h);
        unlocked = ap Buf.locked here;
        kept = (ap Buf.dev here, ap Buf.blockno here);
        counted = omega (arith, ap Buf.refcnt here, pos);
        others = λ j ne. update_ne s.buf b x j ne;
        order = rw (ap Buf.refcnt here, y) refl;
      })
      | inr n ↦ rw n (record {
        same = laid;
        unlocked = ap Buf.locked here;
        kept = (ap Buf.dev here, ap Buf.blockno here);
        counted = omega (arith, ap Buf.refcnt here, pos);
        others = λ j ne. update_ne s.buf b x j ne;
        order = rw (ap Buf.refcnt here, n) refl;
      })
    ]

-- A change of the count alone, with a reference left.
pub count-Same :
    (s : Bcache) (b n : ℕ)
    → IsCache s
    → b < nbuf
    → 0 < n
    → Same s (set_buf b (record (s.buf b) { refcnt = n }) s)
count-Same s b n w h pos =
    let good : Good (record (s.buf b) { refcnt = n }) s.disk =
      ((λ z. absurd (omega arith)), λ _. pos) in
    record {
      valid = set-IsCache s b (record (s.buf b) { refcnt = n }) w refl refl good;
      same_view = view_kept s b (record (s.buf b) { refcnt = n }) w h refl refl good refl refl;
      same_disk = refl;
    }
