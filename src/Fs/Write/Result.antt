-- ===== src/Fs/Write/Result.antt =====
-- What `writei` does.
use os_exp.Base.{
  ◌≢◌, ℕ, ◌+◌, ◌-◌, ◌*◌, ◌/◌, ◌%◌, ◌≤◌, ◌<◌, ◌≡◌, refl, sym, ap, ◌∙◌, subst, ◌⊎◌, inl, inr, true,
  ◌&&◌, ◌||◌, Option, none, some, arith, ltb, leb, if◌then◌else◌, Bool-cases, update_self, Outcome,
  returned, panicked,
}
use os_exp.Base.Word.{u32, u32_mod}
use os_exp.Block.{Block, bsize}
use os_exp.Fs.{Blocks, Superblock}
use os_exp.Fs.Bitmap.{used}
use os_exp.Fs.Alloc.{IsData}
use os_exp.Fs.Inode.{Inode, ipb, iblock, with_inode, iupdate}
use os_exp.Fs.File.{maxfile}
use os_exp.Fs.File.Mapping.{block_of, byte_in, byte, IsFile}
use os_exp.Fs.File.Kept.{Logs, change-Logs, trans-Logs, Avoids}
use os_exp.Fs.File.Entry.{change-used}
use os_exp.Fs.File.Found.{Full}
use os_exp.Fs.Write.{Source, Progress, after_writing, log_full, write_loop, writei}
use os_exp.Fs.Write.Chunk.{change-other, change-block_of}
use os_exp.Fs.Write.Written.{Written}
use os_exp.Log.{log_blocks}
use os_exp.Fs.Write.Logged.{rounds, logged_count, Bounded, write_loop-Bounded}
use os_exp.Fs.Write.Loop.{write_loop-Written}

module _ (sb : Superblock) where
  -- The block of the inode is a data block in use that is none of the file's.
  pub record IsStored (s : Blocks) (ip : Inode) : Type 0 where
    pub data_block : IsData sb (iblock ip.inum sb)
    pub in_use : used sb s (iblock ip.inum sb) ≡ true
    pub apart : Avoids ip s (iblock ip.inum sb)

  resize-IsFile :
      (s : Blocks) (ip : Inode) (size : ℕ)
      → IsFile sb s ip
      → IsFile sb s (record ip { size = size })
  resize-IsFile s ip size w = record { bitmap = w.bitmap; mapping = w.mapping }

  -- `iupdate` of a stored inode.
  pub iupdate-IsFile :
      (s : Blocks) (ip : Inode)
      → IsFile sb s ip
      → IsStored s ip
      → let t = iupdate sb ip s in
        IsFile sb t ip
        × IsStored t ip
        × ((n : ℕ)
            → n < maxfile
            → (i : ℕ) → byte_in t (block_of ip t n) i ≡ byte_in s (block_of ip s n) i)
        × Logs s t
        × ((b : ℕ) → b < sb.size → used sb t b ≡ used sb s b)
        × ((n : ℕ) → block_of ip t n ≡ block_of ip s n)
        × (t.contents (iblock ip.inum sb)
            ≡ with_inode ip (ip.inum % ipb) (s.contents (iblock ip.inum sb)))
  unfolding iupdate
  iupdate-IsFile s ip w st =
      let c = iblock ip.inum sb in
      let x = with_inode ip (ip.inum % ipb) (s.contents c) in
      let (valid, bytes) = change-other sb s ip c x w st.data_block st.apart in
      let bitmap = change-used sb s c x st.data_block in
      (
        valid,
        record {
          data_block = st.data_block;
          in_use = bitmap c st.data_block.1 ∙ st.in_use;
          apart = (
            (λ n h e. st.apart.0 n h (sym (change-block_of s ip c x st.apart.1 n) ∙ e)),
            st.apart.1,
          );
        },
        bytes,
        change-Logs s c x,
        bitmap,
        change-block_of s ip c x st.apart.1,
        update_self s.contents c x,
      )

  module _ (src : Source) (off n : ℕ) where
    -- What has been done where `tot` is returned.
    pub record WriteiDone (ip : Inode) (s : Blocks) (tot : ℕ) (ip' : Inode) (s' : Blocks)
        : Type 0 where
      pub from : off ≤ ip.size
      pub to : off + n ≤ maxfile * bsize
      pub high : tot ≤ n
      pub ends : (tot ≡ n) ⊎ Full sb s'
      pub valid : IsFile sb s' ip'
      pub stored : IsStored s' ip'
      pub fields : ip' ≡ record ip { size = ip'.size; addrs = ip'.addrs }
      pub size : ip'.size ≡ (if ltb ip.size (off + tot) then off + tot else ip.size)
      pub bytes :
          (o : ℕ)
          → o < maxfile * bsize
          → byte ip' s' o
            ≡ (if leb off o && ltb o (off + tot) then src.bytes (o - off) else byte ip s o)
      pub present : (o : ℕ) → off ≤ o → o < off + tot → block_of ip' s' (o / bsize) ≢ 0
      pub logs : Logs s s'
      pub saved :
          (x : Block) × (s'.contents (iblock ip'.inum sb) ≡ with_inode ip' (ip'.inum % ipb) x)

    abbrev pub WriteiResult : Inode → Blocks → Outcome (Option ℕ × Inode × Blocks) → Type 0
    WriteiResult ip s (returned (some tot, ip', s')) = WriteiDone ip s tot ip' s'
    WriteiResult ip s (returned (none, ip', s')) =
        (ip' ≡ ip) × (s' ≡ s) × ((ip.size < off) ⊎ (maxfile * bsize < off + n))
    WriteiResult ip s (panicked why) =
        (why ≡ "too big a transaction") × (log_blocks ≤ logged_count sb s + 6 * rounds off n)

    larger :
        (ip : Inode) (q : ℕ)
        → (if ltb ip.size q then record ip { size = q } else ip)
          ≡ record ip { size = if ltb ip.size q then q else ip.size }
    larger ip q = elim (Bool-cases (ltb ip.size q)) [ inl y ↦ rw y refl | inr o ↦ rw o refl ]

    full_log : (t : Blocks) {k : ℕ} → log_full sb t ≡ true → logged_count sb t ≤ k → log_blocks ≤ k
    unfolding log_full
    full_log t full few = ground (arith, full, few)

    finish-Done :
        (ip : Inode) (s : Blocks) (p : Progress)
        → IsStored s ip
        → off ≤ ip.size
        → off + n ≤ maxfile * bsize
        → Written sb src off n 0 ip s p
        → Bounded sb src n (logged_count sb s + 6 * rounds off n) (returned p)
        → WriteiResult ip s (after_writing sb src p)
    finish-Done ip s (tot, off', ip1, s1) st from to l few =
        let q = if ltb ip1.size off' then off' else ip1.size in
        let ip2 = record ip1 { size = q } in
        let number : ip1.inum ≡ ip.inum = ap Inode.inum l.fields in
        let place : iblock ip1.inum sb ≡ iblock ip.inum sb = ap (λ k. iblock k sb) number in
        let stored : IsStored s1 ip2 = record {
          data_block = subst (IsData sb) (sym place) st.data_block;
          in_use = ap (used sb s1) place ∙ l.grows (iblock ip.inum sb) st.data_block.1 st.in_use;
          apart =
              subst (Avoids ip1 s1) (sym place)
                (l.avoids (iblock ip.inum sb) st.data_block.1 st.in_use st.apart);
        } in
        let (valid, stored', bytes, logs, bitmap, places, saved) =
          iupdate-IsFile s1 ip2 (resize-IsFile s1 ip1 q l.valid) stored in
        elim (Bool-cases (log_full sb s1)) [
          | inl full ↦ rw full (refl, full_log s1 full few)
          | inr room ↦
              rw (room, larger ip1 off')
                (record {
                  from = from;
                  to = to;
                  high = l.high;
                  ends = elim l.ends [ inl e ↦ inl e | inr f ↦ inr λ b h. bitmap b h ∙ f b h ];
                  valid = valid;
                  stored = stored';
                  fields = ap (λ (i : Inode). record i { size = q; addrs = ip1.addrs }) l.fields;
                  size =
                      let same : ip1.size ≡ ip.size = ap Inode.size l.fields in
                      rw (l.moved, same) refl;
                  bytes = λ o h.
                      bytes (o / bsize) (omega arith) (o % bsize)
                      ∙ l.bytes o h
                      ∙ (let z : off + 0 ≡ off = omega arith in rw z refl);
                  present =
                      λ o lo hi e. l.present o (omega arith) hi (sym (places (o / bsize)) ∙ e);
                  logs = trans-Logs s s1 (iupdate sb ip2 s1) l.logs logs;
                  saved = (s1.contents (iblock ip2.inum sb), saved);
                })
        ]

    -- In a file system of at most 2^32 blocks, for a file that is well formed and whose inode lies in a
    -- block of its own, and for a source that can be read, `writei` returns, unless the blocks in the log
    -- and six for each block that it writes come to LOGBLOCKS; then `log_write` may panic, for lack of
    -- space and for nothing else. It returns -1 and changes
    -- nothing if the offset is beyond the end of the file or the end of the bytes beyond MAXFILE blocks.
    -- Otherwise it returns the number of bytes written, all of them unless no block is free any more;
    -- the file has these bytes then from the offset on and is the same elsewhere, it is well formed, its
    -- size has grown to the end of the bytes, its inode is in its block on the disk, and each block that
    -- has changed is in the log.
    pub writei_lem :
        (small : sb.size ≤ u32_mod) (ip : Inode) (s : Blocks)
        → IsFile sb s ip
        → IsStored s ip
        → off < u32_mod
        → n < u32_mod
        → n ≤ src.readable
        → WriteiResult ip s (writei sb src off n ip s)
    unfolding writei
    writei_lem small ip s w st ho hn hr =
        elim (Bool-cases (ltb ip.size off || ltb (u32 (off + n)) off)) [
          | inl y ↦ rw y (refl, refl, ground arith)
          | inr fine ↦ elim (Bool-cases (ltb (maxfile * bsize) (u32 (off + n)))) [
            | inl y ↦ rw (fine, y) (refl, refl, ground arith)
            | inr small_end ↦
                let to : off + n ≤ maxfile * bsize = ground arith in
                let limit = logged_count sb s + 6 * rounds off n in
                let whole : n - 0 ≡ n = omega arith in
                let few =
                  subst
                    (λ k.
                      Bounded sb src n (logged_count sb s + 6 * rounds off k)
                        (write_loop sb src (n + 1) 0 off n ip s))
                    whole (write_loop-Bounded sb src n (n + 1) 0 off ip s (omega arith)) in
                elim (write_loop-Written sb src off n small (n + 1) 0 off ip s w (omega arith)
                  (omega arith) to hr (omega arith)) [
                    | inl (p, eq, l) ↦
                        rw (fine, small_end, eq)
                          (finish-Done ip s p st (ground arith) to l
                            (subst (Bounded sb src n limit) eq few))
                    | inr eq ↦
                        rw (fine, small_end, eq) (refl, subst (Bounded sb src n limit) eq few)
                  ]
          ]
        ]
