-- ===== src/Fs/Trunc/Emptied.antt =====
-- A file whose first blocks have been freed.
use os_exp.Base.{
  ℕ, ◌+◌, ◌<◌, ◌≡◌, refl, sym, ap, ◌∙◌, subst, ◌≢◌, inl, inr, true, false, arith, ltb, ◌==◌,
  if◌then◌else◌, Bool-cases, update, returned,
}
use os_exp.Fs.{Blocks, Superblock, bfree}
use os_exp.Fs.Bitmap.{used}
use os_exp.Fs.Alloc.{IsBitmap, IsData}
use os_exp.Fs.File.{maxfile}
use os_exp.Fs.File.Mapping.{IsMapping, ext-IsMapping}
use os_exp.Fs.File.Kept.{Logs, trans-Logs}
use os_exp.Fs.Trunc.Free.{Dropped, bfree-Dropped, drop-IsMapping}

-- `f` with 0 below `k`.
abbrev pub cleared : ℕ → (ℕ → ℕ) → ℕ → ℕ
cleared k f n = if ltb n k then 0 else f n

pub cleared-suc : (k : ℕ) (f : ℕ → ℕ) (n : ℕ) → cleared (k + 1) f n ≡ update (cleared k f) k 0 n
cleared-suc k f n = ground arith

pub cleared-skip : (k : ℕ) (f : ℕ → ℕ) → f k ≡ 0 → (n : ℕ) → cleared (k + 1) f n ≡ cleared k f n
cleared-skip k f z n = elim (Bool-cases (n == k)) [
  | inl y ↦
      let n_k : n ≡ k = ground arith in
      let zero_there : f n ≡ 0 = ap f n_k ∙ z in ground (arith, zero_there)
  | inr o ↦ ground arith
]

module _ (sb : Superblock) (s : Blocks) (f : ℕ → ℕ) (ind : ℕ) (w : IsMapping sb s f ind) where
  pub record Emptied (k : ℕ) (t : Blocks) : Type 0 where
    pub bitmap : IsBitmap sb t
    pub mapping : IsMapping sb t (cleared k f) ind
    pub freed : (n : ℕ) → n < k → n < maxfile → f n ≢ 0 → used sb t (f n) ≡ false
    pub keeps : (b : ℕ) → ((n : ℕ) → n < maxfile → f n ≢ b) → used sb t b ≡ used sb s b
    pub contents : (b : ℕ) → IsData sb b → t.contents b ≡ s.contents b
    pub logs : Logs s t

  pub start-Emptied : IsBitmap sb s → Emptied 0 s
  start-Emptied v = record {
    bitmap = v;
    mapping = ext-IsMapping sb (cleared 0 f) (λ n. ground arith) w;
    freed = λ n lt h ne. absurd (omega arith);
    keeps = λ b h. refl;
    contents = λ b d. refl;
    logs = λ b. inr (refl, refl);
  }

  pub skip-Emptied : (k : ℕ) (t : Blocks) → f k ≡ 0 → Emptied k t → Emptied (k + 1) t
  skip-Emptied k t z e = record {
    bitmap = e.bitmap;
    mapping = ext-IsMapping sb (cleared (k + 1) f) (cleared-skip k f z) e.mapping;
    freed = λ n lt h ne. elim (Bool-cases (n == k)) [
      | inl y ↦ let n_k : n ≡ k = ground arith in absurd (ne (ap f n_k ∙ z))
      | inr o ↦ e.freed n (ground arith) h ne
    ];
    keeps = e.keeps;
    contents = e.contents;
    logs = e.logs;
  }

  pub free-Emptied :
      (k : ℕ) (t : Blocks)
      → k < maxfile
      → f k ≢ 0
      → Emptied k t
      → (u : Blocks) × (bfree sb (f k) t ≡ returned u) × Emptied (k + 1) u
  free-Emptied k t hk ne e =
      let here : cleared k f k ≡ f k = ground arith in
      let there : cleared k f k ≢ 0 = λ z. ne (sym here ∙ z) in
      let (d, busy) =
        subst (λ b. IsData sb b × (used sb t b ≡ true)) here (e.mapping.in_use k hk there) in
      let (u, eq, dropped) = bfree-Dropped sb t (f k) e.bitmap d busy in
      (
        u,
        eq,
        record {
          bitmap = dropped.bitmap;
          mapping =
              drop-IsMapping sb t u (cleared k f) (cleared (k + 1) f) ind k e.mapping hk there
                (subst (λ b. Dropped sb t b u) (sym here) dropped) (cleared-suc k f);
          freed = λ n lt h nz. elim (Bool-cases (n == k)) [
            | inl y ↦ let n_k : n ≡ k = ground arith in ap (λ j. used sb u (f j)) n_k ∙ dropped.free
            | inr o ↦
                dropped.others (f n) (λ q. ground (arith, o, w.distinct n k h hk nz q))
                ∙ e.freed n (ground arith) h nz
          ];
          keeps = λ b h. dropped.others b (λ q. h k hk (sym q)) ∙ e.keeps b h;
          contents = λ b db. dropped.contents b db ∙ e.contents b db;
          logs = trans-Logs s t u e.logs dropped.logs;
        },
      )
