-- ===== src/Bio/Change.antt =====
-- A change of one buffer that keeps its block.
use os_exp.Base.{
  ℕ, ◌<◌, ◌≡◌, sym, ap, ◌∙◌, subst, ◌≢◌, ◌⊎◌, inl, inr, true, false, arith, ◌==◌, if◌then◌else◌,
  Bool-cases, update,
}
use os_exp.Block.{Disk}
use os_exp.Bio.{Buf, Bcache, nbuf, holds, set_buf}
use os_exp.Bio.Valid.{rootdev, IsCache}
use os_exp.Bio.View.{content, view, at_some, at_none, where_is}

-- What a buffer has to be so that the cache is well formed.
abbrev pub Settled : Disk → Buf → Type 0
Settled disk x = x.refcnt ≡ 0 → x.dev ≡ rootdev → x.valid ≡ true → x.bytes ≡ disk x.blockno

abbrev pub LockedInUse : Buf → Type 0
LockedInUse x = x.locked ≡ true → 0 < x.refcnt

abbrev pub Good : Buf → Disk → Type 0
Good x disk = Settled disk x × LockedInUse x

pub update-cases :
    {A : Type 0} (f : ℕ → A) (c : ℕ) (p : A) (j : ℕ)
    → ((j ≡ c) × (update f c p j ≡ p)) ⊎ ((j ≢ c) × (update f c p j ≡ f j))
update-cases f c p j = elim (Bool-cases (j == c)) [
  | inl e ↦ inl (ground arith, rw e)
  | inr n ↦ inr (ground arith, rw n)
]

not_held : (x : Buf) (k : ℕ) → (x.dev ≡ rootdev → x.blockno ≡ k → ⊥) → holds rootdev k x ≡ false
not_held x k f = elim (Bool-cases (holds rootdev k x)) [
  | inl y ↦ absurd (f (ground arith) (ground arith))
  | inr n ↦ n
]

-- A change of a buffer that keeps its block.
module _ (s : Bcache) (b : ℕ) (x : Buf) where
  same_block :
      x.dev ≡ (s.buf b).dev
      → x.blockno ≡ (s.buf b).blockno
      → (i : ℕ)
      → ((update s.buf b x i).dev ≡ (s.buf i).dev)
        × ((update s.buf b x i).blockno ≡ (s.buf i).blockno)
  same_block d o i = elim (update-cases s.buf b x i) [
    | inl (i_b, e) ↦ (
      ap Buf.dev e ∙ d ∙ ap (λ j. (s.buf j).dev) (sym i_b),
      ap Buf.blockno e ∙ o ∙ ap (λ j. (s.buf j).blockno) (sym i_b),
    )
    | inr (_, e) ↦ (ap Buf.dev e, ap Buf.blockno e)
  ]

  pub set-IsCache :
      IsCache s
      → x.dev ≡ (s.buf b).dev
      → x.blockno ≡ (s.buf b).blockno
      → Good x s.disk
      → IsCache (set_buf b x s)
  set-IsCache w d o g = record {
    listed = w.listed;
    once = w.once;
    unique = λ i j hi hj di dj e.
        let (si, oi) = same_block d o i in
        let (sj, oj) = same_block d o j in
        w.unique i j hi hj (sym si ∙ di) (sym sj ∙ dj) (sym oi ∙ e ∙ oj);
    settled = λ i h. elim (update-cases s.buf b x i) [
      | inl (_, e) ↦ subst (Settled s.disk) (sym e) g.0
      | inr (_, e) ↦ subst (Settled s.disk) (sym e) (w.settled i h)
    ];
    unlocked = λ i h. elim (update-cases s.buf b x i) [
      | inl (_, e) ↦ subst LockedInUse (sym e) g.1
      | inr (_, e) ↦ subst LockedInUse (sym e) (w.unlocked i h)
    ];
  }

  -- Such a change shows in the block of the buffer only.
  pub view-set :
      IsCache s
      → b < nbuf
      → x.dev ≡ (s.buf b).dev
      → x.blockno ≡ (s.buf b).blockno
      → Good x s.disk
      → (k : ℕ)
      → view (set_buf b x s) k
        ≡ (if holds rootdev k (s.buf b) then content x (s.disk k) else view s k)
  view-set w h d o g k = elim (where_is s k w) [
    | inl (i, (hi, di, oi)) ↦
        let after =
          at_some (set_buf b x s) k i (set-IsCache w d o g)
            (hi, (same_block d o i).0 ∙ di, (same_block d o i).1 ∙ oi) in
        elim (update-cases s.buf b x i) [
          | inl (i_b, e) ↦
              let here : holds rootdev k (s.buf b) ≡ true =
                ground (arith, ap (λ j. (s.buf j).dev) i_b, ap (λ j. (s.buf j).blockno) i_b) in
              rw here (after ∙ ap (λ y. content y (s.disk k)) e)
          | inr (ne, e) ↦
              let elsewhere : holds rootdev k (s.buf b) ≡ false =
                not_held (s.buf b) k λ db ob. ne (w.unique i b hi h di db (oi ∙ sym ob)) in
              rw elsewhere
                (after ∙ ap (λ y. content y (s.disk k)) e ∙ sym (at_some s k i w (hi, di, oi)))
        ]
    | inr nowhere ↦
        let elsewhere : holds rootdev k (s.buf b) ≡ false =
          not_held (s.buf b) k λ db ob. nowhere b (h, db, ob) in
        rw elsewhere (
          at_none (set_buf b x s) k (set-IsCache w d o g)
            (λ i m. nowhere i (m.0, sym (same_block d o i).0 ∙ m.1, sym (same_block d o i).1 ∙ m.2))
          ∙ sym (at_none s k w nowhere))
  ]

  -- No change of a block is seen when neither contents nor validity change.
  pub view_kept :
      IsCache s
      → b < nbuf
      → x.dev ≡ (s.buf b).dev
      → x.blockno ≡ (s.buf b).blockno
      → Good x s.disk
      → x.valid ≡ (s.buf b).valid
      → x.bytes ≡ (s.buf b).bytes
      → (k : ℕ) → view (set_buf b x s) k ≡ view s k
  view_kept w h d o g v e k = elim (Bool-cases (holds rootdev k (s.buf b))) [
    | inl y ↦
        rw y at (view-set w h d o g k)
        ∙ rw (v, e) (sym (at_some s k b w (h, ground arith, ground arith)))
    | inr n ↦ rw n at (view-set w h d o g k)
  ]
