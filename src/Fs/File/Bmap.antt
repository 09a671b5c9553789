-- ===== src/Fs/File/Bmap.antt =====
-- What `bmap` finds.
use os_exp.Base.{
  ℕ, ◌+◌, ◌-◌, ◌≤◌, ◌<◌, ◌≡◌, refl, sym, ◌∙◌, subst, ◌≢◌, inl, inr, true, false, arith, ltb, ◌==◌,
  Bool-cases, returned,
}
use os_exp.Base.Word.{u32_mod}
use os_exp.Block.{get_uint}
use os_exp.Fs.{Blocks, Superblock, balloc}
use os_exp.Fs.Inode.{Inode, ndirect}
use os_exp.Fs.File.{nindirect, maxfile, Mapped, keep_addr, slot, keep_entry, entry, indirect, bmap}
use os_exp.Fs.File.Mapping.{block_of, IsFile}
use os_exp.Fs.File.Kept.{Kept, trans-Kept}
use os_exp.Fs.File.Slot.{with_addr, add-indirect}
use os_exp.Fs.File.Entry.{with_entry, add-entry}
use os_exp.Fs.File.Found.{
  Given, Found, present-Found, none-Found, added-Found, balloc-Given, slot-Found,
}

module _ (sb : Superblock) where
  module _ (small : sb.size ≤ u32_mod) where
    keep_entry-Found :
        (s : Blocks) (ip : Inode) (i : ℕ) (m : ℕ × Blocks)
        → IsFile sb s ip
        → ip.addrs ndirect ≢ 0
        → i < nindirect
        → block_of ip s (ndirect + i) ≡ 0
        → Given sb s m
        → Found sb s ip (ndirect + i) (keep_entry sb ip (ip.addrs ndirect) i m)
    keep_entry-Found s ip i (r, s') w ind hi z (inl (e, same, full)) =
        rw (e, same) (none-Found sb s ip (ndirect + i) w z full)
    keep_entry-Found s ip i (r, s') w ind hi z (inr a) =
        let given : (r == 0) ≡ false = ground (arith, a.positive) in
        let (kept, blocks) = add-entry sb small i r w a ind hi z in
        rw given (
          added-Found sb s ip (ndirect + i) r (with_entry sb small i r w a ind) ip kept blocks
            a.positive z)

    entry-Found :
        (s : Blocks) (ip : Inode) (i : ℕ)
        → IsFile sb s ip
        → ip.addrs ndirect ≢ 0
        → i < nindirect
        → Found sb s ip (ndirect + i) (entry sb (ip.addrs ndirect) i ip s)
    entry-Found s ip i w ind hi =
        let present : (ip.addrs ndirect == 0) ≡ false = ground (arith, ind) in
        let far : ltb (ndirect + i) ndirect ≡ false = ground arith in
        let back : ndirect + i - ndirect ≡ i = omega arith in
        let here : block_of ip s (ndirect + i) ≡ get_uint (s.contents (ip.addrs ndirect)) i =
          rw (far, present, back) refl in
        elim (Bool-cases (get_uint (s.contents (ip.addrs ndirect)) i == 0)) [
          | inl y ↦ rw y (
              keep_entry-Found s ip i (balloc sb s) w ind hi (here ∙ ground arith)
                (balloc-Given sb s w.bitmap))
          | inr n ↦
              rw (n, ← here) (present-Found sb s ip (ndirect + i) w λ z. ground (arith, n, here, z))
        ]

    -- The indirect block is there, or has been added.
    indirect-Found :
        (s t : Blocks) (ip jp : Inode) (i : ℕ)
        → Kept sb s ip t jp
        → ((n : ℕ) → block_of jp t n ≡ block_of ip s n)
        → (block_of ip s (ndirect + i) ≢ 0 → (t ≡ s) × (jp ≡ ip))
        → jp.addrs ndirect ≢ 0
        → i < nindirect
        → Found sb s ip (ndirect + i) (entry sb (jp.addrs ndirect) i jp t)
    indirect-Found s t ip jp i k blocks was ind hi =
        let f = entry-Found t jp i k.valid ind hi in
        record {
          kept = trans-Kept sb k f.kept;
          here = f.here;
          others = λ n ne. f.others n ne ∙ blocks n;
          full = f.full;
          was = λ ne.
              let (e, g) = was ne in
              f.was (λ z. ne (sym (blocks (ndirect + i)) ∙ z))
              ∙ rw (blocks (ndirect + i), e, g) refl;
        }

    -- The indirect block of a file that has none.
    new-indirect-Found :
        (s : Blocks) (ip : Inode) (i : ℕ) (m : ℕ × Blocks)
        → IsFile sb s ip
        → ip.addrs ndirect ≡ 0
        → i < nindirect
        → Given sb s m
        → Found sb s ip (ndirect + i) (indirect sb i (keep_addr sb ip ndirect m))
    new-indirect-Found s ip i (r, s') w z hi (inl (e, same, full)) =
        let far : ltb (ndirect + i) ndirect ≡ false = ground arith in
        rw (e, same) (none-Found sb s ip (ndirect + i) w (rw (far, z) refl) full)
    new-indirect-Found s ip i (r, s') w z hi (inr a) =
        let far : ltb (ndirect + i) ndirect ≡ false = ground arith in
        let given : (r == 0) ≡ false = ground (arith, a.positive) in
        let (kept, blocks) = add-indirect sb r w a z in
        rw given (
          indirect-Found s s' ip (with_addr sb ip ndirect r) i kept blocks
            (λ ne. absurd (ne (rw (far, z) refl))) (λ e. omega (arith, a.positive, e)) hi)

    via_indirect-Found :
        (s : Blocks) (ip : Inode) (i : ℕ)
        → IsFile sb s ip
        → i < nindirect
        → Found sb s ip (ndirect + i) (indirect sb i (slot sb ip ndirect s))
    unfolding slot
    via_indirect-Found s ip i w hi = elim (Bool-cases (ip.addrs ndirect == 0)) [
      | inl y ↦
          rw y (
            new-indirect-Found s ip i (balloc sb s) w (ground arith) hi
              (balloc-Given sb s w.bitmap))
      | inr n ↦ rw (n, n) (entry-Found s ip i w (λ e. ground (arith, n, e)) hi)
    ]

    -- In a file system of at most 2^32 blocks whose bitmap and whose file are well formed, `bmap` of a
    -- block number below MAXFILE returns. The file is well formed then and reads the same at every
    -- offset, all blocks in use are still in use, and each block that has changed is in the log. The
    -- number returned is the block of the file, 0 only if no block is free any more; the other blocks of
    -- the file are where they were, and a block that was there already changes nothing.
    pub bmap-Found :
        (s : Blocks) (ip : Inode) (bn : ℕ)
        → IsFile sb s ip
        → bn < maxfile
        → (m : Mapped) × (bmap sb ip bn s ≡ returned m) × Found sb s ip bn m
    unfolding bmap
    bmap-Found s ip bn w h = elim (Bool-cases (ltb bn ndirect)) [
      | inl y ↦ (slot sb ip bn s, rw y refl, slot-Found sb s ip bn w (ground arith))
      | inr n ↦
          let near : ltb (bn - ndirect) nindirect ≡ true = ground arith in
          let whole : ndirect + (bn - ndirect) ≡ bn = ground arith in
          (
            indirect sb (bn - ndirect) (slot sb ip ndirect s),
            rw (n, near) refl,
            subst (λ k. Found sb s ip k (indirect sb (bn - ndirect) (slot sb ip ndirect s))) whole
                (via_indirect-Found s ip (bn - ndirect) w (ground arith)),
          )
    ]
