-- ===== src/Bio/Shows.antt =====
-- What the cache and its counts stand for, and what becomes of it as the counts change.
use os_exp.Base.{
  ℕ, ◌+◌, ◌<◌, ◌≡◌, refl, sym, ap, ◌∙◌, ◌≢◌, inl, inr, arith, ◌==◌, Bool-cases, update, update_self,
  update_ne,
}
use os_exp.Storage.{Store}
use os_exp.Bio.{Buf, Bcache, nbuf, set_buf}
use os_exp.Bio.Valid.{rootdev, IsCache}
use os_exp.Bio.Read.{Taken}
use os_exp.Bio.Release.{count-Same}
use os_exp.Bio.Looks.{Looks, Same-Looks}
use os_exp.Bio.Counted.{Counted, recounted, Taken-Counted}

-- The store that a cache and its disk stand for, where the callers of `bread` hold `held k` references
-- to each block `k`: the contents of the blocks, and the references, which are theirs and the pins.
pub record Shows (s : Bcache) (held : ℕ → ℕ) (a : Store) : Type 0 where
  pub looks : Looks s a
  pub counted : Counted s (λ k. held k + a.pins k)

-- A reference more to block `n`, for a caller.
pub one_more :
    (s t : Bcache) (held : ℕ → ℕ) (a : Store) (n b : ℕ)
    → IsCache s
    → Shows s held a
    → Taken s n b t
    → Shows t (update held n (held n + 1)) a
one_more s t held a n b w sh k = record {
  looks = Same-Looks s t a k.same sh.looks;
  counted =
      Taken-Counted s t _ _ n b w k
        (λ j ne. ap (λ m. m + a.pins j) (update_ne held n (held n + 1) j ne))
        (omega (arith, update_self held n (held n + 1))) sh.counted;
}

-- Every other step keeps the block of every buffer.
module _ (s : Bcache) (held : ℕ → ℕ) (a : Store) (b : ℕ) (w : IsCache s) (h : b < nbuf)
    (d : (s.buf b).dev ≡ rootdev) (sh : Shows s held a) where
  pub counted_now : (s.buf b).refcnt ≡ held (s.buf b).blockno + a.pins (s.buf b).blockno
  counted_now = sh.counted.cached b (s.buf b).blockno (h, d, refl)

  -- One buffer is changed, in its contents, lock or count.
  pub one_changed :
      (x : Buf) (g : ℕ → ℕ)
      → x.dev ≡ (s.buf b).dev
      → x.blockno ≡ (s.buf b).blockno
      → x.refcnt ≡ g (s.buf b).blockno
      → ((j : ℕ) → j ≢ (s.buf b).blockno → g j ≡ held j + a.pins j)
      → (t : Bcache) → t.buf b ≡ x
      → ((i : ℕ) → i ≢ b → t.buf i ≡ s.buf i)
      → Counted t g
  one_changed x g dx ox cx elsewhere t now others =
      recounted s t (λ k. held k + a.pins k) g b (s.buf b).blockno w (h, d, refl)
        (λ i. elim (Bool-cases (i == b)) [
          | inl e ↦
              let i_b : i ≡ b = ground arith in
              (
                ap (λ m. (t.buf m).dev) i_b
                    ∙ ap Buf.dev now
                    ∙ dx
                    ∙ ap (λ m. (s.buf m).dev) (sym i_b),
                ap (λ m. (t.buf m).blockno) i_b
                    ∙ ap Buf.blockno now
                    ∙ ox
                    ∙ ap (λ m. (s.buf m).blockno) (sym i_b),
              )
          | inr n ↦ let same = others i (ground arith) in (ap Buf.dev same, ap Buf.blockno same)
        ])
        (λ i ne. ap Buf.refcnt (others i ne)) elsewhere (ap Buf.refcnt now ∙ cx) sh.counted

  -- The count alone is changed, and with it the references to the block.
  pub recount :
      (n : ℕ) (g p : ℕ → ℕ)
      → 0 < n
      → n ≡ g (s.buf b).blockno + p (s.buf b).blockno
      → ((j : ℕ) → j ≢ (s.buf b).blockno → g j + p j ≡ held j + a.pins j)
      → IsCache (set_buf b (record (s.buf b) { refcnt = n }) s)
        × Shows (set_buf b (record (s.buf b) { refcnt = n }) s) g (record a { pins = p })
  recount n g p pos is_n elsewhere =
      let x = record (s.buf b) { refcnt = n } in
      let same = count-Same s b n w h pos in
      let look = Same-Looks s (set_buf b x s) a same sh.looks in
      (
        same.valid,
        record {
          looks = record { on_disk = look.on_disk; current = look.current };
          counted =
              one_changed x (λ k. g k + p k) refl refl is_n elsewhere (set_buf b x s)
                (update_self s.buf b x) (λ i ne. update_ne s.buf b x i ne);
        },
      )
