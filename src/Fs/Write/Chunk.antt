-- ===== src/Fs/Write/Chunk.antt =====
-- A change of one block of a file.
use os_exp.Base.{
  ℕ, ◌<◌, ◌≡◌, refl, sym, ap, ◌∙◌, ◌≢◌, inl, inr, false, arith, ◌==◌, if◌then◌else◌, Bool-cases,
  update_self, update_ne,
}
use os_exp.Block.{Block}
use os_exp.Fs.{Blocks, Superblock, change}
use os_exp.Fs.Alloc.{IsData}
use os_exp.Fs.Inode.{Inode, ndirect}
use os_exp.Fs.File.{maxfile}
use os_exp.Fs.File.Mapping.{block_of, byte_in, IsFile, grow-IsMapping, ext-IsMapping}
use os_exp.Fs.File.Kept.{Avoids, kept_bytes}
use os_exp.Fs.File.Entry.{change-used, change-IsBitmap}

-- A change of a block other than the indirect block does not move the file.
pub change-block_of :
    (s : Blocks) (ip : Inode) (c : ℕ) (x : Block)
    → ip.addrs ndirect ≢ c
    → (n : ℕ) → block_of ip (change c x s) n ≡ block_of ip s n
change-block_of s ip c x ne n =
    let off = update_ne s.contents c x (ip.addrs ndirect) ne in rw off refl

module _ (sb : Superblock) where
  pub change-IsFile :
      (s : Blocks) (ip : Inode) (c : ℕ) (x : Block)
      → IsFile sb s ip
      → IsData sb c
      → ip.addrs ndirect ≢ c
      → IsFile sb (change c x s) ip
  change-IsFile s ip c x w d ne = record {
    bitmap = change-IsBitmap sb s c x d w.bitmap;
    mapping =
        ext-IsMapping sb (block_of ip (change c x s)) (change-block_of s ip c x ne)
          (grow-IsMapping sb (change c x s) (λ b h u. change-used sb s c x d b h ∙ u) w.mapping);
  }

  -- A block of its own is changed.
  pub change-own :
      (s : Blocks) (ip : Inode) (k : ℕ) (x : Block)
      → IsFile sb s ip
      → k < maxfile
      → block_of ip s k ≢ 0
      → let t = change (block_of ip s k) x s in
        IsFile sb t ip
        × ((n : ℕ)
            → n < maxfile
            → (i : ℕ)
            → byte_in t (block_of ip t n) i
              ≡ (if n == k then x i else byte_in s (block_of ip s n) i))
  change-own s ip k x w hk ne =
      let c = block_of ip s k in
      let t = change c x s in
      let data_block = (w.mapping.in_use k hk ne).0 in
      let not_ind : ip.addrs ndirect ≢ c = λ e. w.mapping.apart k hk ne (sym e) in
      (
        change-IsFile s ip c x w data_block not_ind,
        λ n h i.
            ap (λ b. byte_in t b i) (change-block_of s ip c x not_ind n)
            ∙ elim (Bool-cases (n == k)) [
              | inl y ↦
                  let n_k : n ≡ k = ground arith in
                  let present : (c == 0) ≡ false = ground (arith, ne) in
                  rw (y, n_k, present, update_self s.contents c x) refl
              | inr o ↦ rw o (
                  kept_bytes s t (block_of ip s) n
                    (λ e.
                      update_ne s.contents c x (block_of ip s n)
                        λ q. ground (arith, o, w.mapping.distinct n k h hk e q))
                    i)
            ],
      )

  -- A block that is none of the file's is changed.
  pub change-other :
      (s : Blocks) (ip : Inode) (c : ℕ) (x : Block)
      → IsFile sb s ip
      → IsData sb c
      → Avoids ip s c
      → let t = change c x s in
        IsFile sb t ip
        × ((n : ℕ)
            → n < maxfile
            → (i : ℕ) → byte_in t (block_of ip t n) i ≡ byte_in s (block_of ip s n) i)
  change-other s ip c x w d v = (
    change-IsFile s ip c x w d v.1,
    λ n h i.
        ap (λ b. byte_in (change c x s) b i) (change-block_of s ip c x v.1 n)
        ∙ kept_bytes s (change c x s) (block_of ip s) n
            (λ e. update_ne s.contents c x (block_of ip s n) (v.0 n h)) i,
  )
