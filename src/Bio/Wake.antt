-- ===== src/Bio/Wake.antt =====
-- A caller of `bread` that waited for the lock of its buffer, once it has the lock.
use os_exp.Base.{
  ℕ, ◌<◌, ◌≡◌, refl, sym, ap, ◌∙◌, subst, ◌≢◌, inl, inr, true, Bool-cases, update_self, update_ne,
}
use os_exp.Bio.{Buf, Bcache, set_buf, Got, got, lock_buf, fill, filled}
use os_exp.Bio.Valid.{IsCache}
use os_exp.Bio.View.{view, Has, at_some}
use os_exp.Bio.Reuse.{Same, Same-trans}
use os_exp.Bio.Read.{touch-Same, read-Same}

-- The buffer of block `n` with its contents, and nothing else changed.
pub record Woken (s : Bcache) (n b : ℕ) (t : Bcache) : Type 0 where
  pub same : Same s t
  pub has : Has t n b
  pub counted : (t.buf b).refcnt ≡ (s.buf b).refcnt
  pub contents : (t.buf b).bytes ≡ view s n
  pub others : (j : ℕ) → j ≢ b → t.buf j ≡ s.buf j

fill-Woken :
    (s : Bcache) (n b : ℕ) → IsCache s → Has s n b → 0 < (s.buf b).refcnt → Woken s n b (fill b s)
unfolding fill
fill-Woken s n b w h pos = elim (Bool-cases (s.buf b).valid) [
  | inl y ↦ rw y (record {
    same = record { valid = w; same_view = λ _. refl; same_disk = refl };
    has = h;
    counted = refl;
    contents = sym (rw y at (at_some s n b w h));
    others = λ _ _. refl;
  })
  | inr m ↦
      let x = record (s.buf b) { bytes = s.disk (s.buf b).blockno; valid = true } in
      let here = update_self s.buf b x in
      let read = read-Same s b w h.0 h.1 pos m in
      let has_ : Has (set_buf b x s) n b =
        (h.0, ap Buf.dev here ∙ h.1, ap Buf.blockno here ∙ h.2) in
      let shown_ = at_some (set_buf b x s) n b read.valid has_ in
      rw m (record {
        same = read;
        has = has_;
        counted = ap Buf.refcnt here;
        contents = sym (rw (ap Buf.valid here) at shown_) ∙ read.same_view n;
        others = λ j ne. update_ne s.buf b x j ne;
      })
]

abbrev pub Wakes : Bcache → ℕ → ℕ → Got → Type 0
Wakes s n b (got c t) = Woken s n b t
Wakes s n b _ = Unit {0}

pub lock_buf-Wakes :
    (s : Bcache) (n b : ℕ)
    → IsCache s
    → Has s n b
    → 0 < (s.buf b).refcnt
    → Wakes s n b (filled (lock_buf b s))
lock_buf-Wakes s n b w h pos = elim (Bool-cases (s.buf b).locked) [
  | inl y ↦ rw y tt
  | inr m ↦
      let x = record (s.buf b) { locked = true } in
      let here = update_self s.buf b x in
      let same = touch-Same s b x w h.0 refl refl refl refl pos in
      let k =
        fill-Woken (set_buf b x s) n b same.valid
          (h.0, ap Buf.dev here ∙ h.1, ap Buf.blockno here ∙ h.2)
          (subst (λ c. 0 < c) (sym (ap Buf.refcnt here)) pos) in
      rw m (record {
        same = Same-trans same k.same;
        has = k.has;
        counted = k.counted ∙ ap Buf.refcnt here;
        contents = k.contents ∙ same.same_view n;
        others = λ j ne. k.others j ne ∙ update_ne s.buf b x j ne;
      })
]
