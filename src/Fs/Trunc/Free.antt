-- ===== src/Fs/Trunc/Free.antt =====
-- A block of a file is freed.
use os_exp.Base.{
  ℕ, ◌<◌, ◌≡◌, refl, sym, ◌∙◌, ◌≢◌, inl, inr, true, false, arith, ◌==◌, Bool-cases, update,
  returned,
}
use os_exp.Fs.{Blocks, Superblock, bblock, bfree}
use os_exp.Fs.Bitmap.{used}
use os_exp.Fs.Alloc.{IsBitmap, IsData, Freed, bfree-Freed}
use os_exp.Fs.File.{maxfile}
use os_exp.Fs.File.Mapping.{IsMapping}
use os_exp.Fs.File.Kept.{Logs}

module _ (sb : Superblock) where
  Freed-Logs : {s s' : Blocks} (c : ℕ) → Freed sb s c s' → Logs s s'
  Freed-Logs {s} c f b = elim (Bool-cases (b == bblock c sb)) [
    | inl y ↦ inl (f.logs b ∙ rw y refl)
    | inr n ↦ inr (f.kept b (λ e. ground (arith, n, e)), f.logs b ∙ rw n refl)
  ]

  abbrev pub Without : (ℕ → ℕ) → ℕ → Type 0
  Without f c = (n : ℕ) → n < maxfile → f n ≢ 0 → f n ≢ c

  -- All blocks that are not `c` keep their bits; data blocks keep their contents.
  pub record Dropped (s : Blocks) (c : ℕ) (s' : Blocks) : Type 0 where
    pub bitmap : IsBitmap sb s'
    pub free : used sb s' c ≡ false
    pub others : (b : ℕ) → b ≢ c → used sb s' b ≡ used sb s b
    pub contents : (b : ℕ) → IsData sb b → s'.contents b ≡ s.contents b
    pub logs : Logs s s'

  pub bfree-Dropped :
      (s : Blocks) (c : ℕ)
      → IsBitmap sb s
      → IsData sb c
      → used sb s c ≡ true
      → (s' : Blocks) × (bfree sb c s ≡ returned s') × Dropped s c s'
  bfree-Dropped s c w d u =
      let (s', eq, f) = bfree-Freed sb s c w d u in
      (
        s',
        eq,
        record {
          bitmap = f.valid;
          free = let self : (c == c) ≡ true = ground arith in f.now_used c ∙ rw self refl;
          others = λ b n.
              let differ : (b == c) ≡ false = ground (arith, n) in f.now_used b ∙ rw differ refl;
          contents = λ b db. f.kept b λ e. db.2 c d.1 (sym e);
          logs = Freed-Logs c f;
        },
      )

  -- What is left of a file without its block `k`.
  pub drop-IsMapping :
      (s s' : Blocks) (f g : ℕ → ℕ) (ind k : ℕ)
      → IsMapping sb s f ind
      → k < maxfile
      → f k ≢ 0
      → Dropped s (f k) s'
      → ((n : ℕ) → g n ≡ update f k 0 n)
      → IsMapping sb s' g ind
  drop-IsMapping s s' f g ind k w hk ne d eg =
      let old : (n : ℕ) → g n ≢ 0 → (n ≢ k) × (g n ≡ f n) = λ n z. elim (Bool-cases (n == k)) [
        | inl y ↦ absurd (z (eg n ∙ rw y refl))
        | inr o ↦ ((λ e. ground (arith, o, e)), eg n ∙ rw o refl)
      ] in
      record {
        in_use = λ n h z.
            let (far, e) = old n z in
            let nf : f n ≢ 0 = λ q. z (e ∙ q) in
            let (data_block, u) = w.in_use n h nf in
            rw e (data_block, d.others (f n) (λ q. far (w.distinct n k h hk nf q)) ∙ u);
        ind_in_use = λ z.
            let (data_block, u) = w.ind_in_use z in
            (data_block, d.others ind (λ q. w.apart k hk ne (sym q)) ∙ u);
        apart = λ n h z. let (_, e) = old n z in rw e (w.apart n h (λ q. z (e ∙ q)));
        distinct = λ m n hm hn z e.
            let (_, em) = old m z in
            let (_, en) = old n (λ q. z (e ∙ q)) in
            w.distinct m n hm hn (λ q. z (em ∙ q)) (sym em ∙ e ∙ en);
      }
