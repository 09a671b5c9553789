-- ===== src/Fs/File/Found.antt =====
-- What a search for a block of a file gives, and the search among the direct addresses.
use os_exp.Base.{
  ap, subst, ℕ, ◌<◌, ◌≡◌, refl, ◌∙◌, ◌≢◌, ◌⊎◌, inl, inr, true, false, arith, ltb, ◌==◌, Bool-cases,
  update, update_self, update_ne,
}
use os_exp.Fs.{Blocks, Superblock, balloc}
use os_exp.Fs.Bitmap.{used}
use os_exp.Fs.Alloc.{IsBitmap, Allocated, balloc_lem}
use os_exp.Fs.Inode.{Inode, ndirect}
use os_exp.Fs.File.{Mapped, keep_addr, slot}
use os_exp.Fs.File.Mapping.{block_of, IsFile}
use os_exp.Fs.File.Kept.{Kept, refl-Kept}
use os_exp.Fs.File.Slot.{with_addr, add-direct}

module _ (sb : Superblock) where
  abbrev pub Full : Blocks → Type 0
  Full s = (b : ℕ) → b < sb.size → used sb s b ≡ true

  -- The file has the same contents; its block `bn` is `r`, 0 only if no block is free any more, and all
  -- other blocks are where they were. A block that was there already changes nothing.
  pub record Found (s : Blocks) (ip : Inode) (bn : ℕ) (m : Mapped) : Type 0 where
    pub kept : Kept sb s ip m.2 m.1
    pub here : block_of m.1 m.2 bn ≡ m.0
    pub others : (n : ℕ) → n ≢ bn → block_of m.1 m.2 n ≡ block_of ip s n
    pub full : m.0 ≡ 0 → Full m.2
    pub was : block_of ip s bn ≢ 0 → m ≡ (block_of ip s bn, ip, s)

  pub present-Found :
      (s : Blocks) (ip : Inode) (bn : ℕ)
      → IsFile sb s ip
      → block_of ip s bn ≢ 0
      → Found s ip bn (block_of ip s bn, ip, s)
  present-Found s ip bn w ne = record {
    kept = refl-Kept sb s ip w;
    here = refl;
    others = λ n h. refl;
    full = λ z. absurd (ne z);
    was = λ h. refl;
  }

  pub none-Found :
      (s : Blocks) (ip : Inode) (bn : ℕ)
      → IsFile sb s ip
      → block_of ip s bn ≡ 0
      → Full s
      → Found s ip bn (0, ip, s)
  none-Found s ip bn w z full = record {
    kept = refl-Kept sb s ip w;
    here = z;
    others = λ n h. refl;
    full = λ e. full;
    was = λ ne. absurd (ne z);
  }

  pub added-Found :
      (s : Blocks) (ip : Inode) (bn r : ℕ) (s' : Blocks) (ip' : Inode)
      → Kept sb s ip s' ip'
      → ((n : ℕ) → block_of ip' s' n ≡ update (block_of ip s) bn r n)
      → 0 < r
      → block_of ip s bn ≡ 0
      → Found s ip bn (r, ip', s')
  added-Found s ip bn r s' ip' k blocks pos z = record {
    kept = k;
    here = blocks bn ∙ update_self (block_of ip s) bn r;
    others = λ n ne. blocks n ∙ update_ne (block_of ip s) bn r n ne;
    full = λ e. absurd (omega (arith, pos, e));
    was = λ ne. absurd (ne z);
  }

  abbrev pub Given : Blocks → ℕ × Blocks → Type 0
  Given s (r, s') = ((r ≡ 0) × (s' ≡ s) × Full s) ⊎ Allocated sb s r s'

  pub balloc-Given : (s : Blocks) → IsBitmap sb s → Given s (balloc sb s)
  balloc-Given s w = elim (balloc_lem sb s w) [ inl e ↦ inl e | inr (a, u) ↦ inr a ]

  pub keep_addr-Found :
      (s : Blocks) (ip : Inode) (k : ℕ) (m : ℕ × Blocks)
      → IsFile sb s ip
      → k < ndirect
      → ip.addrs k ≡ 0
      → Given s m
      → Found s ip k (keep_addr sb ip k m)
  keep_addr-Found s ip k (r, s') w hk z (inl (e, same, full)) =
      let direct : ltb k ndirect ≡ true = ground arith in
      rw (e, same) (none-Found s ip k w (rw direct z) full)
  keep_addr-Found s ip k (r, s') w hk z (inr a) =
      let direct : ltb k ndirect ≡ true = ground arith in
      let given : (r == 0) ≡ false = ground (arith, a.positive) in
      let (kept, blocks) = add-direct sb k r w a hk z in
      rw given (added-Found s ip k r s' (with_addr sb ip k r) kept blocks a.positive (rw direct z))

  pub slot-Found :
      (s : Blocks) (ip : Inode) (k : ℕ)
      → IsFile sb s ip
      → k < ndirect
      → Found s ip k (slot sb ip k s)
  unfolding slot
  slot-Found s ip k w hk =
      let direct : ltb k ndirect ≡ true = ground arith in
      let here : block_of ip s k ≡ ip.addrs k = rw direct refl in
      elim (Bool-cases (ip.addrs k == 0)) [
        | inl y ↦
            rw y
              (keep_addr-Found s ip k (balloc sb s) w hk (ground arith) (balloc-Given s w.bitmap))
        | inr n ↦ rw (n, ← here) (present-Found s ip k w λ z. ground (arith, n, here, z))
      ]

  -- A block that is there stays where it is.
  pub stays :
      (s : Blocks) (ip : Inode) (bn : ℕ) (m : Mapped)
      → Found s ip bn m
      → (k : ℕ) → block_of ip s k ≢ 0
      → block_of m.1 m.2 k ≡ block_of ip s k
  stays s ip bn m f k ne = elim (Bool-cases (k == bn)) [
    | inl y ↦
        let k_bn : k ≡ bn = ground arith in
        ap (λ (q : Mapped). block_of q.1 q.2 k) (f.was (subst (λ j. block_of ip s j ≢ 0) k_bn ne))
    | inr o ↦ f.others k λ e. ground (arith, o, e)
  ]
