-- ===== src/Fs/Trunc/Result.antt =====
-- What `itrunc` does.
use os_exp.Base.{
  ℕ, ◌+◌, ◌%◌, ◌<◌, ◌≡◌, refl, sym, ap, ◌∙◌, subst, fun_ext, ◌≢◌, inl, inr, true, false, arith, ltb,
  ◌==◌, Bool-cases, update, returned, ◌>>=◌,
}
use os_exp.Block.{Block}
use os_exp.Fs.{Blocks, Superblock}
use os_exp.Fs.Bitmap.{used}
use os_exp.Fs.Alloc.{IsBitmap}
use os_exp.Fs.Inode.{Inode, ndirect, ipb, iblock, with_inode, iupdate}
use os_exp.Fs.File.{nindirect, maxfile}
use os_exp.Fs.File.Mapping.{block_of, IsFile}
use os_exp.Fs.File.Kept.{Logs, trans-Logs, Avoids}
use os_exp.Fs.Write.Result.{IsStored, iupdate-IsFile}
use os_exp.Fs.Trunc.{free_direct, free_indirect, empty_file, itrunc}
use os_exp.Fs.Trunc.Free.{bfree-Dropped}
use os_exp.Fs.Trunc.Emptied.{cleared, cleared-suc, cleared-skip, start-Emptied}
use os_exp.Fs.Trunc.Loops.{cut, Left, free_direct-Left, free_entries-Left}

module _ (sb : Superblock) (s : Blocks) (ip : Inode) where
  -- The blocks of the file are free, and no other block.
  pub record Gone (u : Blocks) : Type 0 where
    pub bitmap : IsBitmap sb u
    pub freed : (n : ℕ) → n < maxfile → block_of ip s n ≢ 0 → used sb u (block_of ip s n) ≡ false
    pub ind_freed : ip.addrs ndirect ≢ 0 → used sb u (ip.addrs ndirect) ≡ false
    pub keeps : (b : ℕ) → b < sb.size → Avoids ip s b → used sb u b ≡ used sb s b
    pub logs : Logs s u

  pub record Truncated (ip' : Inode) (s' : Blocks) : Type 0 where
    pub gone : Gone s'
    pub inode : ip' ≡ record ip { size = 0; addrs = cleared (ndirect + 1) ip.addrs }
    pub empty : (n : ℕ) → block_of ip' s' n ≡ 0
    pub valid : IsFile sb s' ip'
    pub stored : IsStored sb s' ip'
    pub saved : (x : Block) × (s'.contents (iblock ip'.inum sb) ≡ with_inode ip' (ip'.inum % ipb) x)

  module _ (w : IsFile sb s ip) where
    free_indirect-Gone :
        (t : Blocks)
        → Left sb s ip w ndirect t
        → (u : Blocks) × (free_indirect sb (cut ip ndirect, t) ≡ returned (cut ip (ndirect + 1), u))
          × Gone u
    free_indirect-Gone t e = elim (Bool-cases (ip.addrs ndirect == 0)) [
      | inl y ↦
          let z : ip.addrs ndirect ≡ 0 = ground arith in
          let same : cut ip ndirect ≡ cut ip (ndirect + 1) =
            ap (λ g. record ip { addrs = g }) (sym (fun_ext (cleared-skip ndirect ip.addrs z))) in
          (
            t,
            rw y (ap (λ j. returned (j, t)) same),
            record {
              bitmap = e.bitmap;
              freed = λ n h ne. elim (Bool-cases (ltb n ndirect)) [
                | inl d ↦ e.freed n (ground arith) h ne
                | inr far ↦ absurd (ne (rw (far, z) refl))
              ];
              ind_freed = λ ne. absurd (ne z);
              keeps = λ b h v. e.keeps b v.0;
              logs = e.logs;
            },
          )
      | inr n ↦
          let ind : ip.addrs ndirect ≢ 0 = λ z. ground (arith, n, z) in
          let (t', eq, e') = free_entries-Left sb s ip w ind nindirect 0 t (omega arith) e in
          let (d, busy) = e'.mapping.ind_in_use ind in
          let (u, freed, dropped) = bfree-Dropped sb t' (ip.addrs ndirect) e'.bitmap d busy in
          let same : record ip { addrs = update (cleared ndirect ip.addrs) ndirect 0 }
              ≡ cut ip (ndirect + 1) =
            ap (λ g. record ip { addrs = g }) (sym (fun_ext (cleared-suc ndirect ip.addrs))) in
          (
            u,
            rw (n, eq, freed) (ap (λ j. returned (j, u)) same),
            record {
              bitmap = dropped.bitmap;
              freed = λ m h ne.
                  dropped.others (block_of ip s m) (w.mapping.apart m h ne) ∙ e'.freed m h h ne;
              ind_freed = λ ne. dropped.free;
              keeps = λ b h v. dropped.others b (λ q. v.1 (sym q)) ∙ e'.keeps b v.0;
              logs = trans-Logs s t' u e'.logs dropped.logs;
            },
          )
    ]

    abbrev emptied : Inode
    emptied = record ip { size = 0; addrs = cleared (ndirect + 1) ip.addrs }

    emptied-block_of : (u : Blocks) (n : ℕ) → block_of emptied u n ≡ 0
    emptied-block_of u n = elim (Bool-cases (ltb n ndirect)) [
      | inl d ↦ let low : ltb n (ndirect + 1) ≡ true = ground arith in rw (d, low) refl
      | inr far ↦ rw far refl
    ]

    emptied-IsFile : (u : Blocks) → IsBitmap sb u → IsFile sb u emptied
    emptied-IsFile u v = record {
      bitmap = v;
      mapping = record {
        in_use = λ n h ne. absurd (ne (emptied-block_of u n));
        ind_in_use = λ ne. absurd (ne refl);
        apart = λ n h ne. absurd (ne (emptied-block_of u n));
        distinct = λ m n hm hn ne e. absurd (ne (emptied-block_of u m));
      };
    }

    emptied-IsStored : (u : Blocks) → IsStored sb s ip → Gone u → IsStored sb u emptied
    emptied-IsStored u st g =
        let c = iblock ip.inum sb in
        record {
          data_block = st.data_block;
          in_use = g.keeps c st.data_block.1 st.apart ∙ st.in_use;
          apart = (
            (λ n h e. omega (arith, st.data_block.0, sym (emptied-block_of u n) ∙ e)),
            λ e. omega (arith, st.data_block.0, e),
          );
        }

    -- For a well-formed file whose inode lies in a block of its own, `itrunc` returns: exactly the blocks
    -- of the file, with its indirect block, have been freed, the inode has the size 0 and no blocks and is
    -- in its block on the disk so, all is well formed, and each block that has changed is in the log.
    pub itrunc-Truncated :
        IsStored sb s ip
        → (ip' : Inode) × (s' : Blocks) × (itrunc sb ip s ≡ returned (ip', s')) × Truncated ip' s'
    unfolding itrunc
    itrunc-Truncated st =
        let whole : cut ip 0 ≡ ip = ap (λ g. record ip { addrs = g }) (fun_ext λ n. ground arith) in
        let (t, eq, e) =
          free_direct-Left sb s ip w ndirect 0 s (omega arith)
            (start-Emptied sb s (block_of ip s) (ip.addrs ndirect) w.mapping w.bitmap) in
        let (u, eq', g) = free_indirect-Gone t e in
        let first : free_direct sb ndirect 0 ip s ≡ returned (cut ip ndirect, t) =
          subst (λ j. free_direct sb ndirect 0 j s ≡ returned (cut ip ndirect, t)) whole eq in
        let (valid, stored, _, logs, bitmap, _, saved) =
          iupdate-IsFile sb u emptied (emptied-IsFile u g.bitmap) (emptied-IsStored u st g) in
        (
          emptied,
          iupdate sb emptied u,
          ap (λ c. c >>= free_indirect sb >>= empty_file sb) first
              ∙ ap (λ c. c >>= empty_file sb) eq',
          record {
            gone = record {
              bitmap = valid.bitmap;
              freed =
                  λ n h ne. bitmap (block_of ip s n) (w.mapping.in_use n h ne).0.1 ∙ g.freed n h ne;
              ind_freed =
                  λ ne. bitmap (ip.addrs ndirect) (w.mapping.ind_in_use ne).0.1 ∙ g.ind_freed ne;
              keeps = λ b h v. bitmap b h ∙ g.keeps b h v;
              logs = trans-Logs s u (iupdate sb emptied u) g.logs logs;
            };
            inode = refl;
            empty = emptied-block_of (iupdate sb emptied u);
            valid = valid;
            stored = stored;
            saved = (u.contents (iblock ip.inum sb), saved);
          },
        )
