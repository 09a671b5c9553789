-- ===== src/Fs/File/Slot.antt =====
-- The three places that `bmap` puts a new block in.
use os_exp.Base.{
  sym, ℕ, ◌<◌, ◌≡◌, refl, ap, ◌∙◌, subst, inl, inr, true, false, arith, ltb, ◌==◌, Bool-cases,
  update,
}
use os_exp.Block.{get_uint}
use os_exp.Fs.{Blocks, Superblock}
use os_exp.Fs.Alloc.{IsBitmap, Allocated}
use os_exp.Fs.Inode.{Inode, ndirect}
use os_exp.Fs.File.Mapping.{
  block_of, byte_in, IsMapping, IsFile, grow-IsMapping, ext-IsMapping, add_block, fresh-IsData,
  Allocated-Grows, fresh-ne, kept-contents,
}
use os_exp.Fs.File.Kept.{avoid-new, kept_bytes, new_bytes, Kept, Allocated-Logs, mapped-contents}

module _ (sb : Superblock) where
  abbrev pub with_addr : Inode → ℕ → ℕ → Inode
  with_addr ip k r = record ip { addrs = update ip.addrs k r }

  block_of-direct :
      {s s' : Blocks} {ip : Inode} (k r : ℕ)
      → IsFile sb s ip
      → Allocated sb s r s'
      → k < ndirect
      → (n : ℕ) → block_of (with_addr ip k r) s' n ≡ update (block_of ip s) k r n
  block_of-direct {s} {s'} {ip} k r w a hk n = elim (Bool-cases (ltb n ndirect)) [
    | inl y ↦ rw y refl
    | inr o ↦
        let n_k : (n == k) ≡ false = ground arith in
        let ind_k : (ndirect == k) ≡ false = ground arith in
        rw (o, n_k, ind_k)
          (elim (Bool-cases (ip.addrs ndirect == 0)) [
            | inl z ↦ rw z refl
            | inr z ↦
                let (d, u) = w.mapping.ind_in_use λ e. ground (arith, z, e) in
                rw (z, kept-contents sb r (ip.addrs ndirect) a d u) refl
          ])
  ]

  pub add-direct :
      {s s' : Blocks} {ip : Inode} (k r : ℕ)
      → IsFile sb s ip
      → Allocated sb s r s'
      → k < ndirect
      → ip.addrs k ≡ 0
      → Kept sb s ip s' (with_addr ip k r)
        × ((n : ℕ) → block_of (with_addr ip k r) s' n ≡ update (block_of ip s) k r n)
  add-direct {s} {s'} {ip} k r w a hk z =
      let blocks = block_of-direct k r w a hk in
      let ind_k : (ndirect == k) ≡ false = ground arith in
      let direct : ltb k ndirect ≡ true = ground arith in
      (
        record {
          valid = record {
            bitmap = a.valid;
            mapping = rw ind_k (
                ext-IsMapping sb (block_of (with_addr ip k r) s') blocks
                  (add_block sb r k w.bitmap a w.mapping));
          };
          fields = refl;
          same = λ n h.
              new_bytes s s' (block_of ip s) (block_of (with_addr ip k r) s') k r blocks
                (rw direct z) a.zeroed n (mapped-contents sb r w a n h);
          grows = Allocated-Grows sb r a;
          logs = Allocated-Logs sb r a;
          avoids = λ c hc u v. (
            avoid-new (block_of ip s) (block_of (with_addr ip k r) s') k r c blocks
                (fresh-ne sb r c a u) v.0,
            rw ind_k v.1,
          );
        },
        blocks,
      )

  block_of-indirect :
      {s s' : Blocks} (ip : Inode) (r : ℕ)
      → Allocated sb s r s'
      → ip.addrs ndirect ≡ 0
      → (n : ℕ) → block_of (with_addr ip ndirect r) s' n ≡ block_of ip s n
  unfolding get_uint
  block_of-indirect ip r a z n = elim (Bool-cases (ltb n ndirect)) [
    | inl y ↦ let n_ind : (n == ndirect) ≡ false = ground arith in rw (y, n_ind) refl
    | inr o ↦
        let pos : (r == 0) ≡ false = ground (arith, a.positive) in rw (o, pos, z, a.zeroed) refl
  ]

  new_indirect :
      {s s' : Blocks} {f : ℕ → ℕ} (r : ℕ)
      → IsBitmap sb s
      → Allocated sb s r s'
      → IsMapping sb s f 0
      → IsMapping sb s' f r
  new_indirect {s} {s'} {f} r w a m =
      let m' = grow-IsMapping sb s' (Allocated-Grows sb r a) m in
      record {
        in_use = m'.in_use;
        ind_in_use = λ n. fresh-IsData sb r w a;
        apart = λ bn h n. fresh-ne sb r (f bn) a (m.in_use bn h n).1;
        distinct = m.distinct;
      }

  pub add-indirect :
      {s s' : Blocks} {ip : Inode} (r : ℕ)
      → IsFile sb s ip
      → Allocated sb s r s'
      → ip.addrs ndirect ≡ 0
      → Kept sb s ip s' (with_addr ip ndirect r)
        × ((n : ℕ) → block_of (with_addr ip ndirect r) s' n ≡ block_of ip s n)
  add-indirect {s} {s'} {ip} r w a z =
      let blocks = block_of-indirect ip r a z in
      (
        record {
          valid = record {
            bitmap = a.valid;
            mapping =
                ext-IsMapping sb (block_of (with_addr ip ndirect r) s') blocks
                  (new_indirect r w.bitmap a (subst (IsMapping sb s (block_of ip s)) z w.mapping));
          };
          fields = refl;
          same = λ n h i.
              ap (λ b. byte_in s' b i) (blocks n)
              ∙ kept_bytes s s' (block_of ip s) n (mapped-contents sb r w a n h) i;
          grows = Allocated-Grows sb r a;
          logs = Allocated-Logs sb r a;
          avoids = λ c hc u v.
              ((λ n h e. v.0 n h (sym (blocks n) ∙ e)), λ e. fresh-ne sb r c a u (sym e));
        },
        blocks,
      )
