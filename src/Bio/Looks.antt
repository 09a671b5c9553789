-- ===== src/Bio/Looks.antt =====
-- The blocks that a cache shows, after a change of the contents and after a write to the disk.
use os_exp.Base.{
  ℕ, ◌<◌, ◌≡◌, refl, sym, ap, ◌∙◌, inl, inr, true, false, arith, ◌==◌, Bool-cases, update,
  update_ne,
}
use os_exp.Block.{Block}
use os_exp.Storage.{Store}
use os_exp.Bio.{Buf, Bcache, nbuf, holds, modify}
use os_exp.Bio.Valid.{rootdev, IsCache}
use os_exp.Bio.View.{content, view, Has, at_some, at_none, where_is}
use os_exp.Bio.Change.{Good, set-IsCache, view-set}
use os_exp.Bio.Reuse.{Same}

-- Blocks as they are shown.
pub record Looks (s : Bcache) (a : Store) : Type 0 where
  pub on_disk : (k : ℕ) → a.disk k ≡ s.disk k
  pub current : (k : ℕ) → a.cache k ≡ view s k

-- A buffer that somebody uses.
abbrev pub InUse : Bcache → ℕ → Type 0
InUse s b =
    (b < nbuf) × ((s.buf b).dev ≡ rootdev) × ((s.buf b).valid ≡ true) × (0 < (s.buf b).refcnt)

pub Same-Looks : (s t : Bcache) (a : Store) → Same s t → Looks s a → Looks t a
Same-Looks s t a k w = record {
  on_disk = λ j. w.on_disk j ∙ ap (λ d. d j) (sym k.same_disk);
  current = λ j. w.current j ∙ sym (k.same_view j);
}

pub modify-Looks :
    (s : Bcache) (a : Store) (b : ℕ) (x : Block)
    → IsCache s
    → InUse s b
    → Looks s a
    → IsCache (modify b x s)
      × Looks (modify b x s) (record a { cache = update a.cache (s.buf b).blockno x })
modify-Looks s a b x w u sh = (
  set-IsCache s b y w refl refl good,
  record {
    on_disk = sh.on_disk;
    current = λ k. elim (Bool-cases (k == (s.buf b).blockno)) [
      | inl e ↦
          let here : holds rootdev k (s.buf b) ≡ true = ground (arith, u.1) in
          let set_ = rw here at (view-set s b y w u.0 refl refl good k) in
          let is_x : content y (s.disk k) ≡ x = rw u.2 refl in rw e (sym (set_ ∙ is_x))
      | inr n ↦
          let elsewhere : holds rootdev k (s.buf b) ≡ false = ground (arith, u.1) in
          rw n (sh.current k ∙ sym (rw elsewhere at (view-set s b y w u.0 refl refl good k)))
    ];
  },
)
  where
    y : Buf
    y = record (s.buf b) { bytes = x }

    good : Good y s.disk
    good = ((λ z. absurd (omega (arith, u.3))), λ _. u.3)

abbrev pub written : Bcache → ℕ → Bcache
written s b = record s { disk = update s.disk (s.buf b).blockno (s.buf b).bytes }

pub written-IsCache : (s : Bcache) (b : ℕ) → IsCache s → InUse s b → IsCache (written s b)
written-IsCache s b w u = record {
  listed = w.listed;
  once = w.once;
  unique = w.unique;
  settled = λ i h free d v. elim (Bool-cases ((s.buf i).blockno == (s.buf b).blockno)) [
    | inl e ↦
        let same : i ≡ b = w.unique i b h u.0 d u.1 (ground arith) in
        absurd (omega (arith, u.3, ap (λ j. (s.buf j).refcnt) same))
    | inr n ↦ w.settled i h free d v ∙ rw n
  ];
  unlocked = w.unlocked;
}

written-view :
    (s : Bcache) (b : ℕ) → IsCache s → InUse s b → (k : ℕ) → view (written s b) k ≡ view s k
written-view s b w u k = elim (where_is s k w) [
  | inl (i, m) ↦
      at_some (written s b) k i (written-IsCache s b w u) m ∙ go i m ∙ sym (at_some s k i w m)
  | inr none_ ↦
      at_none (written s b) k (written-IsCache s b w u) none_
      ∙ update_ne s.disk (s.buf b).blockno (s.buf b).bytes k (λ e. none_ b (u.0, u.1, sym e))
      ∙ sym (at_none s k w none_)
]
  where
    go :
        (i : ℕ)
        → Has s k i
        → content (s.buf i) ((written s b).disk k) ≡ content (s.buf i) (s.disk k)
    go i m = elim (Bool-cases (k == (s.buf b).blockno)) [
      | inl e ↦
          let same : i ≡ b = w.unique i b m.0 u.0 m.1 u.1 (ground (arith, m.2)) in
          let valid : (s.buf i).valid ≡ true = ap (λ j. (s.buf j).valid) same ∙ u.2 in rw valid refl
      | inr n ↦ ap (content (s.buf i)) (
          update_ne s.disk (s.buf b).blockno (s.buf b).bytes k (λ e. absurd (ground (arith, e, n))))
    ]

pub written-Looks :
    (s : Bcache) (a : Store) (b : ℕ) (p : ℕ)
    → IsCache s
    → InUse s b
    → Looks s a
    → Looks
        (written s b)
        (record a { disk = update a.disk (s.buf b).blockno (a.cache (s.buf b).blockno); power = p })
written-Looks s a b p w u sh = record {
  on_disk = λ k. elim (Bool-cases (k == (s.buf b).blockno)) [
    | inl e ↦ rw e (
        sh.current (s.buf b).blockno ∙ rw u.2 at (at_some s (s.buf b).blockno b w (u.0, u.1, refl)))
    | inr n ↦ rw n (sh.on_disk k)
  ];
  current = λ k. sh.current k ∙ sym (written-view s b w u k);
}
