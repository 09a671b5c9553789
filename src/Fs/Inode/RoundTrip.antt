-- ===== src/Fs/Inode/RoundTrip.antt =====
-- `ilock` reads what `iupdate` has written.
use os_exp.Base.{
  ℕ, ◌+◌, ◌*◌, ◌%◌, ◌≤◌, ◌<◌, ◌≡◌, refl, sym, ap, ◌∙◌, ◌≢◌, inl, inr, true, false, ◌&&◌, some,
  arith, ltb, leb, ◌==◌, Bool-cases, update, update_self, returned,
}
use os_exp.Block.{Block, get_uint}
use os_exp.Fs.{Blocks, Superblock}
use os_exp.Fs.Inode.{Inode, ndirect, ipb, iblock, get_short, with_inode, iupdate, load, ilock}
use os_exp.Fs.Inode.Store.{
  Fits, SameFields, loaded_self, with_inode-short, with_meta-short, with_inode-uint,
}

loaded_other :
    (ip ip' : Inode) (n m : ℕ) (x : Block)
    → m ≢ n
    → SameFields (load x m ip') (load (with_inode ip n x) m ip')
loaded_other ip ip' n m x ne = record {
  itype =
      ap (get_short (with_inode ip n x)) (sym (plus_0 (32 * m)))
      ∙ short 0 (omega arith)
      ∙ ap (get_short x) (plus_0 (32 * m));
  major = short 1 (omega arith);
  minor = short 2 (omega arith);
  nlink = short 3 (omega arith);
  size = word 2 (omega arith) (omega arith);
  addrs = λ k h.
      ap (get_uint (with_inode ip n x)) (sym (plus_3 k))
      ∙ word (3 + k) (omega arith) (omega arith)
      ∙ ap (get_uint x) (plus_3 k);
}
  where
    plus_0 : (j : ℕ) → j + 0 ≡ j
    plus_0 j = omega arith

    plus_3 : (k : ℕ) → 16 * m + (3 + k) ≡ 16 * m + 3 + k
    plus_3 k = omega arith

    short : (r : ℕ) → r < 4 → get_short (with_inode ip n x) (32 * m + r) ≡ get_short x (32 * m + r)
    short r h =
        let n3 : (32 * n + 3 == 32 * m + r) ≡ false = ground arith in
        let n2 : (32 * n + 2 == 32 * m + r) ≡ false = ground arith in
        let n1 : (32 * n + 1 == 32 * m + r) ≡ false = ground arith in
        let n0 : (32 * n == 32 * m + r) ≡ false = ground arith in
        with_inode-short ip n x m r h
        ∙ with_meta-short ip n x (32 * m + r)
        ∙ rw (n3, n2, n1, n0) refl

    word :
        (r : ℕ)
        → 2 ≤ r
        → r < 16
        → get_uint (with_inode ip n x) (16 * m + r) ≡ get_uint x (16 * m + r)
    word r lo hi =
        let outside : (leb (16 * n + 3) (16 * m + r)
              && ltb (16 * m + r) (16 * n + 3 + (ndirect + 1)))
            ≡ false =
          ground arith in
        let no_size : (16 * n + 2 == 16 * m + r) ≡ false = ground arith in
        with_inode-uint ip n x (16 * m + r) (omega arith) (omega arith) ∙ rw (outside, no_size) refl

-- The inode that `ilock` would read for the number `i`.
abbrev pub on_disk : Superblock → Blocks → ℕ → Inode → Inode
on_disk sb s i = load (s.contents (iblock i sb)) (i % ipb)

-- After `iupdate` of an inode whose fields fit the disk, `ilock` of an entry of the same number that is
-- not valid yet and that nobody has locked succeeds and has the same fields, if the type is not 0.
pub iupdate-ilock :
    (sb : Superblock) (ip entry : Inode) (s : Blocks)
    → Fits ip
    → entry.inum ≡ ip.inum
    → 0 < entry.ref
    → entry.locked ≡ false
    → entry.valid ≡ false
    → ip.itype ≢ 0
    → (ip' : Inode) × (ilock sb entry (iupdate sb ip s) ≡ returned (some ip'))
      × SameFields ip ip'
      × (ip'.valid ≡ true)
      × (ip'.locked ≡ true)
unfolding ilock iupdate
iupdate-ilock sb ip entry s f same pos free stale typed =
    let x = with_inode ip (ip.inum % ipb) (s.contents (iblock ip.inum sb)) in
    let here : update s.contents (iblock ip.inum sb) x (iblock entry.inum sb) ≡ x =
      rw same (update_self s.contents (iblock ip.inum sb) x) in
    let fields =
      loaded_self ip (record entry { locked = true }) (ip.inum % ipb)
        (s.contents (iblock ip.inum sb)) f in
    let in_use : ltb entry.ref 1 ≡ false = ground arith in
    let real : (get_short x (32 * (ip.inum % ipb)) == 0) ≡ false = ground (arith, fields.itype) in
    (
      load x (ip.inum % ipb) (record entry { locked = true }),
      rw (in_use, free, stale, here, same, real) refl,
      fields,
      refl,
      refl,
    )

-- `iupdate` leaves every other inode on the disk as it was.
pub iupdate-others :
    (sb : Superblock) (ip entry : Inode) (s : Blocks) (i : ℕ)
    → i ≢ ip.inum
    → SameFields (on_disk sb s i entry) (on_disk sb (iupdate sb ip s) i entry)
unfolding iupdate
iupdate-others sb ip entry s i ne = elim (Bool-cases (iblock i sb == iblock ip.inum sb)) [
  | inl y ↦
      let block : iblock i sb ≡ iblock ip.inum sb = ground arith in
      rw (y, block)
        (loaded_other ip entry (ip.inum % ipb) (i % ipb) (s.contents (iblock ip.inum sb))
          (ground arith))
  | inr n ↦ rw n (record {
    itype = refl;
    major = refl;
    minor = refl;
    nlink = refl;
    size = refl;
    addrs = λ k h. refl;
  })
]
