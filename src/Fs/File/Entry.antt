-- ===== src/Fs/File/Entry.antt =====
-- A new block in the indirect block of the file.
use os_exp.Base.{
  ℕ, ◌+◌, ◌-◌, ◌%◌, ◌≤◌, ◌<◌, ◌≡◌, refl, sym, ◌∙◌, ◌≢◌, inl, inr, false, arith, ltb, ◌==◌,
  Bool-cases, update, update_self, update_ne,
}
use os_exp.Base.Word.{u32_mod}
use os_exp.Block.{Block, put_uint, get_uint-put_uint}
use os_exp.Fs.{Blocks, Superblock, change, bblock}
use os_exp.Fs.Bitmap.{used}
use os_exp.Fs.Alloc.{IsBitmap, IsData, Allocated}
use os_exp.Fs.Inode.{Inode, ndirect}
use os_exp.Fs.File.{nindirect}
use os_exp.Fs.File.Mapping.{
  block_of, IsFile, grow-IsMapping, ext-IsMapping, add_block, Allocated-Grows, fresh-ne,
  kept-contents,
}
use os_exp.Fs.File.Kept.{
  avoid-new, trans-Logs, change-Logs, new_bytes, Kept, Allocated-Logs, mapped-contents,
}

module _ (sb : Superblock) where
  -- A change of a data block does not change the bitmap.
  change-bitmap :
      (s : Blocks) (a : ℕ) (x : Block)
      → IsData sb a
      → (b : ℕ) → b < sb.size
      → (change a x s).contents (bblock b sb) ≡ s.contents (bblock b sb)
  change-bitmap s a x d b h = update_ne s.contents a x (bblock b sb) (d.2 b h)

  pub change-used :
      (s : Blocks) (a : ℕ) (x : Block)
      → IsData sb a
      → (b : ℕ) → b < sb.size
      → used sb (change a x s) b ≡ used sb s b
  change-used s a x d b h = let e = change-bitmap s a x d b h in rw e refl

  pub change-IsBitmap :
      (s : Blocks) (a : ℕ) (x : Block) → IsData sb a → IsBitmap sb s → IsBitmap sb (change a x s)
  change-IsBitmap s a x d w = record {
    bytes = λ b h. let e = change-bitmap s a x d b h in rw e (w.bytes b h);
    own = λ b h. let (lt, u) = w.own b h in (lt, change-used s a x d (bblock b sb) lt ∙ u);
    boot = change-used s a x d 0 (omega (arith, d.1)) ∙ w.boot;
  }

  module _ (small : sb.size ≤ u32_mod) {s s' : Blocks} {ip : Inode} (i r : ℕ) (w : IsFile sb s ip)
      (a : Allocated sb s r s') (some_ind : ip.addrs ndirect ≢ 0) where
    abbrev pub with_entry : Blocks
    with_entry = change (ip.addrs ndirect) (put_uint (s'.contents (ip.addrs ndirect)) i r) s'

    block_of-entry : (n : ℕ) → block_of ip with_entry n ≡ update (block_of ip s) (ndirect + i) r n
    block_of-entry n = elim (Bool-cases (ltb n ndirect)) [
      | inl y ↦ let differ : (n == ndirect + i) ≡ false = ground arith in rw (y, differ) refl
      | inr o ↦
          let (d, u) = w.mapping.ind_in_use some_ind in
          let present : (ip.addrs ndirect == 0) ≡ false = ground (arith, some_ind) in
          let fits : r % u32_mod ≡ r = omega (arith, a.in_range) in
          let same : (i == n - ndirect) ≡ (n == ndirect + i) = ground arith in
          rw
            (
              o,
              present,
              update_self s'.contents (ip.addrs ndirect)
                  (put_uint (s'.contents (ip.addrs ndirect)) i r),
              get_uint-put_uint (s'.contents (ip.addrs ndirect)) i (n - ndirect) r,
              same,
              fits,
              kept-contents sb r (ip.addrs ndirect) a d u,
            )
            refl
    ]

    entry-contents : (b : ℕ) → b ≢ ip.addrs ndirect → with_entry.contents b ≡ s'.contents b
    entry-contents b ne = update_ne s'.contents (ip.addrs ndirect) _ b ne

    pub add-entry :
        i < nindirect
        → block_of ip s (ndirect + i) ≡ 0
        → Kept sb s ip with_entry ip
          × ((n : ℕ) → block_of ip with_entry n ≡ update (block_of ip s) (ndirect + i) r n)
    add-entry hi z =
        let (d, u) = w.mapping.ind_in_use some_ind in
        let bitmap_kept =
          change-used s' (ip.addrs ndirect) (put_uint (s'.contents (ip.addrs ndirect)) i r) d in
        let not_ind : r ≢ ip.addrs ndirect = λ e. fresh-ne sb r (ip.addrs ndirect) a u (sym e) in
        (
          record {
            valid = record {
              bitmap = change-IsBitmap s' (ip.addrs ndirect) _ d a.valid;
              mapping = ext-IsMapping sb (block_of ip with_entry) block_of-entry (
                  grow-IsMapping sb with_entry (λ b h e. bitmap_kept b h ∙ e)
                    (add_block sb r (ndirect + i) w.bitmap a w.mapping));
            };
            fields = refl;
            same = λ n h.
                new_bytes s with_entry (block_of ip s) (block_of ip with_entry) (ndirect + i) r
                  block_of-entry z (entry-contents r not_ind ∙ a.zeroed) n
                  (λ ne.
                    entry-contents (block_of ip s n) (w.mapping.apart n h ne)
                    ∙ mapped-contents sb r w a n h ne);
            grows = λ b h e. bitmap_kept b h ∙ Allocated-Grows sb r a b h e;
            logs =
                trans-Logs s s' with_entry (Allocated-Logs sb r a)
                  (change-Logs s' (ip.addrs ndirect) _);
            avoids = λ c hc e v. (
              avoid-new (block_of ip s) (block_of ip with_entry) (ndirect + i) r c block_of-entry
                  (fresh-ne sb r c a e) v.0,
              v.1,
            );
          },
          block_of-entry,
        )
