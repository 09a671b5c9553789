-- ===== src/Bio/Read.antt =====
-- `bread` shows the current contents of the block that is asked for, and changes no block.
use os_exp.Base.{
  ℕ, ◌+◌, ◌<◌, ◌≡◌, refl, sym, ap, ◌∙◌, ◌≢◌, ◌⊎◌, inl, inr, true, false, Option, none, some, arith,
  Bool-cases, update_self, update_ne,
}
use os_exp.Bio.{
  Buf, Bcache, nbuf, holds, set_buf, find_cached, find_unused, Got, got, sleeps, no_buffers,
  lock_buf, reuse, recycle, taken, bget, fill, filled, bread,
}
use os_exp.Bio.Valid.{
  rootdev, IsCache, find_cached-some, find_cached-none, find_unused-some, find_unused-none,
}
use os_exp.Bio.View.{view, Has, at_some}
use os_exp.Bio.Change.{Good, set-IsCache, view_kept, view-set}
use os_exp.Bio.Reuse.{Same, Same-trans, reuse-Same}

-- A buffer as its holder finds it: one more reference, and no other buffer changed. It had the block
-- already, or no buffer had it and this one was unused.
pub record Taken (s : Bcache) (n b : ℕ) (t : Bcache) : Type 0 where
  pub same : Same s t
  pub has : Has t n b
  pub counted : (t.buf b).refcnt ≡ (s.buf b).refcnt + 1
  pub others : (j : ℕ) → j ≢ b → t.buf j ≡ s.buf j
  pub found : Has s n b ⊎ (((s.buf b).refcnt ≡ 0) × ((i : ℕ) → ¬ (Has s n i)))

abbrev pub Obtained : Bcache → ℕ → Got → Type 0
Obtained s n (got b t) = Taken s n b t × ((t.buf b).locked ≡ true)
Obtained s n (sleeps b t) = Taken s n b t × ((s.buf b).locked ≡ true)
Obtained s n no_buffers = ((i : ℕ) → ¬ (Has s n i)) × ((b : ℕ) → b < nbuf → 0 < (s.buf b).refcnt)

-- A change of a buffer that nobody sees, and that leaves it in use.
pub touch-Same :
    (s : Bcache) (b : ℕ) (x : Buf)
    → IsCache s
    → b < nbuf
    → x.dev ≡ (s.buf b).dev
    → x.blockno ≡ (s.buf b).blockno
    → x.valid ≡ (s.buf b).valid
    → x.bytes ≡ (s.buf b).bytes
    → 0 < x.refcnt
    → Same s (set_buf b x s)
touch-Same s b x w h d o v e pos = record {
  valid = set-IsCache s b x w d o good;
  same_view = view_kept s b x w h d o good v e;
  same_disk = refl;
}
  where
    good : Good x s.disk
    good = ((λ z. absurd (omega arith)), λ _. pos)

-- The lock of a buffer that is in use is taken, or waited for.
lock_buf-Obtained :
    (s t : Bcache) (n b : ℕ)
    → Taken s n b t
    → (t.buf b).locked ≡ (s.buf b).locked
    → Obtained s n (lock_buf b t)
lock_buf-Obtained s t n b k l = elim (Bool-cases (t.buf b).locked) [
  | inl y ↦ rw y (k, sym l ∙ y)
  | inr m ↦
      let x = record (t.buf b) { locked = true } in
      let here = update_self t.buf b x in
      rw m (
        record {
          same = Same-trans k.same (
              touch-Same t b x k.same.valid k.has.0 refl refl refl refl (omega (arith, k.counted)));
          has = (k.has.0, ap Buf.dev here ∙ k.has.1, ap Buf.blockno here ∙ k.has.2);
          counted = ap Buf.refcnt here ∙ k.counted;
          others = λ j ne. update_ne t.buf b x j ne ∙ k.others j ne;
          found = k.found;
        },
        ap Buf.locked here,
      )
]

hit-Taken :
    (s : Bcache) (n b : ℕ)
    → IsCache s
    → Has s n b
    → Taken s n b (set_buf b (record (s.buf b) { refcnt = (s.buf b).refcnt + 1 }) s)
hit-Taken s n b w h =
    let x = record (s.buf b) { refcnt = (s.buf b).refcnt + 1 } in
    let here = update_self s.buf b x in
    record {
      same = touch-Same s b x w h.0 refl refl refl refl (omega arith);
      has = (h.0, ap Buf.dev here ∙ h.1, ap Buf.blockno here ∙ h.2);
      counted = ap Buf.refcnt here;
      others = λ j ne. update_ne s.buf b x j ne;
      found = inl h;
    }

miss-Taken :
    (s : Bcache) (n b : ℕ)
    → IsCache s
    → b < nbuf
    → (s.buf b).refcnt ≡ 0
    → ((i : ℕ) → ¬ (Has s n i))
    → Taken s n b (set_buf b (reuse rootdev n (s.buf b)) s)
miss-Taken s n b w h free new_ =
    let here = update_self s.buf b (reuse rootdev n (s.buf b)) in
    record {
      same = reuse-Same s b n w h free new_;
      has = (h, ap Buf.dev here, ap Buf.blockno here);
      counted = ap Buf.refcnt here ∙ omega (arith, free);
      others = λ j ne. update_ne s.buf b (reuse rootdev n (s.buf b)) j ne;
      found = inr (free, new_);
    }

recycle-Obtained :
    (s : Bcache) (n : ℕ) (found : Option ℕ)
    → IsCache s
    → ((i : ℕ) → ¬ (Has s n i))
    → find_unused s.order s.buf ≡ found
    → Obtained s n (recycle rootdev n found s)
recycle-Obtained s n none w new_ e =
    (new_, λ b h. find_unused-none s.order s.buf e b ((w.listed b).1 h))
recycle-Obtained s n (some b) w new_ e =
    let (m, free) = find_unused-some s.order s.buf b e in
    let here = update_self s.buf b (reuse rootdev n (s.buf b)) in
    lock_buf-Obtained s _ n b (miss-Taken s n b w ((w.listed b).0 m) free new_) (ap Buf.locked here)

taken-Obtained :
    (s : Bcache) (n : ℕ) (found : Option ℕ)
    → IsCache s
    → find_cached rootdev n s.order s.buf ≡ found
    → Obtained s n (taken rootdev n found s)
taken-Obtained s n (some b) w e =
    let (m, d, o) = find_cached-some rootdev n s.order s.buf b e in
    let here = update_self s.buf b (record (s.buf b) { refcnt = (s.buf b).refcnt + 1 }) in
    lock_buf-Obtained s _ n b (hit-Taken s n b w ((w.listed b).0 m, d, o)) (ap Buf.locked here)
taken-Obtained s n none w e =
    recycle-Obtained s n (find_unused s.order s.buf) w
      (λ i h. find_cached-none rootdev n s.order s.buf e i ((w.listed i).1 h.0) h.1 h.2) refl

pub bget-Obtained : (s : Bcache) (n : ℕ) → IsCache s → Obtained s n (bget rootdev n s)
unfolding bget
bget-Obtained s n w = taken-Obtained s n (find_cached rootdev n s.order s.buf) w refl

-- What `bread` gives.
abbrev pub Bread : Bcache → ℕ → Got → Type 0
Bread s n (got b t) =
    Taken s n b t
    × ((t.buf b).locked ≡ true)
    × ((t.buf b).valid ≡ true)
    × ((t.buf b).bytes ≡ view s n)
Bread s n (sleeps b t) = Taken s n b t × ((s.buf b).locked ≡ true)
Bread s n no_buffers = ((i : ℕ) → ¬ (Has s n i)) × ((b : ℕ) → b < nbuf → 0 < (s.buf b).refcnt)

-- Reading a buffer that is not valid shows what the disk showed.
pub read-Same :
    (t : Bcache) (b : ℕ)
    → IsCache t
    → b < nbuf
    → (t.buf b).dev ≡ rootdev
    → 0 < (t.buf b).refcnt
    → (t.buf b).valid ≡ false
    → Same t (set_buf b (record (t.buf b) { bytes = t.disk (t.buf b).blockno; valid = true }) t)
read-Same t b w h d pos m = record {
  valid = set-IsCache t b x w refl refl good;
  same_view = λ k. elim (Bool-cases (holds rootdev k (t.buf b))) [
    | inl y ↦
        let at_k : (t.buf b).blockno ≡ k = ground arith in
        rw y at (view-set t b x w h refl refl good k)
        ∙ ap t.disk at_k
        ∙ sym (rw m at (at_some t k b w (h, d, at_k)))
    | inr n ↦ rw n at (view-set t b x w h refl refl good k)
  ];
  same_disk = refl;
}
  where
    x : Buf
    x = record (t.buf b) { bytes = t.disk (t.buf b).blockno; valid = true }

    good : Good x t.disk
    good = ((λ z. absurd (omega arith)), λ _. pos)

pub fill-Bread :
    (s : Bcache) (n b : ℕ) (t : Bcache)
    → Taken s n b t
    → (t.buf b).locked ≡ true
    → Bread s n (got b (fill b t))
unfolding fill
fill-Bread s n b t k l = elim (Bool-cases (t.buf b).valid) [
  | inl y ↦
      let now = at_some t n b k.same.valid k.has in
      rw y (k, l, y, rw y at (sym now) ∙ k.same.same_view n)
  | inr m ↦
      let x = record (t.buf b) { bytes = t.disk (t.buf b).blockno; valid = true } in
      let here = update_self t.buf b x in
      let read = read-Same t b k.same.valid k.has.0 k.has.1 (omega (arith, k.counted)) m in
      let shown_ =
        at_some (set_buf b x t) n b read.valid
          (k.has.0, ap Buf.dev here ∙ k.has.1, ap Buf.blockno here ∙ k.has.2) in
      rw m (
        record {
          same = Same-trans k.same read;
          has = (k.has.0, ap Buf.dev here ∙ k.has.1, ap Buf.blockno here ∙ k.has.2);
          counted = ap Buf.refcnt here ∙ k.counted;
          others = λ j ne. update_ne t.buf b x j ne ∙ k.others j ne;
          found = k.found;
        },
        ap Buf.locked here ∙ l,
        ap Buf.valid here,
        sym (rw (ap Buf.valid here) at shown_) ∙ read.same_view n ∙ k.same.same_view n,
      )
]

filled-Bread : (s : Bcache) (n : ℕ) (g : Got) → Obtained s n g → Bread s n (filled g)
filled-Bread s n (got b t) k = fill-Bread s n b t k.0 k.1
filled-Bread s n (sleeps b t) k = k
filled-Bread s n no_buffers k = k

-- In a well-formed cache `bread` gives the buffer of the block, locked, with one more reference and with
-- the current contents; or the caller waits for the lock of that buffer; or it panics, and then the
-- block is in no buffer and all of them are in use. In the first two cases no other buffer changes
-- and every block shows what it showed.
pub bread_lem : (s : Bcache) (n : ℕ) → IsCache s → Bread s n (bread rootdev n s)
unfolding bread
bread_lem s n w = filled-Bread s n (bget rootdev n s) (bget-Obtained s n w)
