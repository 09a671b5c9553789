-- ===== src/Fs/Inode/Store.antt =====
-- What `iupdate` writes is what `ilock` reads.
use os_exp.Base.{
  ℕ, zero, suc, ◌+◌, ◌-◌, ◌*◌, ◌/◌, ◌%◌, ◌^◌, ◌≤◌, ◌<◌, ◌≡◌, refl, sym, ap, ◌∙◌, ◌≢◌, ◌⊎◌, inl, inr,
  true, false, ◌&&◌, arith, ltb, leb, ◌==◌, if◌then◌else◌, Bool-cases,
}
use os_exp.Base.Word.{u32_mod}
use os_exp.Block.{Block, get_uint, put_uint, get_uint-put_uint}
use os_exp.Fs.Inode.{Inode, ndirect, get_short, put_addrs, with_meta, with_inode, load}
use os_exp.Fs.Inode.Fields.{get_short-put_short, get_uint-put_short, get_short-put_uint}

get_uint-put_addrs :
    (addrs : ℕ → ℕ) (k i w : ℕ) (x : Block) (j : ℕ)
    → get_uint (put_addrs addrs k i w x) j
      ≡ (if leb w j && ltb j (w + k) then addrs (i + (j - w)) % u32_mod else get_uint x j)
unfolding put_addrs
get_uint-put_addrs addrs zero i w x j =
    let none_ : (leb w j && ltb j (w + 0)) ≡ false = ground arith in rw none_ refl
get_uint-put_addrs addrs (suc k) i w x j = elim (Bool-cases (w == j)) [
  | inl y ↦
      let past : (leb (w + 1) j && ltb j (w + 1 + k)) ≡ false = ground arith in
      let inside : (leb w j && ltb j (w + suc k)) ≡ true = ground arith in
      let first : i + (j - w) ≡ i = ground arith in
      rw
        (
          get_uint-put_addrs addrs k (i + 1) (w + 1) (put_uint x w (addrs i)) j,
          past,
          inside,
          get_uint-put_uint x w j (addrs i),
          y,
          first,
        )
        refl
  | inr n ↦ elim (Bool-cases (leb w j && ltb j (w + suc k))) [
    | inl y ↦
        let inside : (leb (w + 1) j && ltb j (w + 1 + k)) ≡ true = ground arith in
        let shift : i + 1 + (j - (w + 1)) ≡ i + (j - w) = ground arith in
        rw (get_uint-put_addrs addrs k (i + 1) (w + 1) (put_uint x w (addrs i)) j, inside, y, shift)
          refl
    | inr m ↦
        let outside : (leb (w + 1) j && ltb j (w + 1 + k)) ≡ false = ground arith in
        rw
          (
            get_uint-put_addrs addrs k (i + 1) (w + 1) (put_uint x w (addrs i)) j,
            outside,
            m,
            get_uint-put_uint x w j (addrs i),
            n,
          )
          refl
  ]
]

get_short-put_addrs :
    (addrs : ℕ → ℕ) (k i w : ℕ) (x : Block) (j : ℕ)
    → (j / 2 < w) ⊎ (w + k ≤ j / 2)
    → get_short (put_addrs addrs k i w x) j ≡ get_short x j
unfolding put_addrs
get_short-put_addrs addrs zero i w x j h = refl
get_short-put_addrs addrs (suc k) i w x j h =
    get_short-put_addrs addrs k (i + 1) (w + 1) (put_uint x w (addrs i)) j (ground arith)
    ∙ get_short-put_uint x w j (addrs i) (ground arith)

module _ (ip : Inode) (n : ℕ) (x : Block) where
  pub with_inode-short :
      (m r : ℕ)
      → r < 4
      → get_short (with_inode ip n x) (32 * m + r) ≡ get_short (with_meta ip n x) (32 * m + r)
  with_inode-short m r h =
      get_short-put_addrs ip.addrs (ndirect + 1) 0 (16 * n + 3)
        (put_uint (with_meta ip n x) (16 * n + 2) ip.size) (32 * m + r) (ground arith)
      ∙ get_short-put_uint (with_meta ip n x) (16 * n + 2) (32 * m + r) ip.size (omega arith)

  pub with_meta-short :
      (j : ℕ)
      → get_short (with_meta ip n x) j ≡ (
          if 32 * n + 3 == j
          then ip.nlink % 2 ^ 16
          else if 32 * n + 2 == j
          then ip.minor % 2 ^ 16
          else if 32 * n + 1 == j
          then ip.major % 2 ^ 16
          else if 32 * n == j
          then ip.itype % 2 ^ 16
          else get_short x j)
  with_meta-short j =
      rw
        (
          get_short-put_short _ (32 * n + 3) j ip.nlink,
          get_short-put_short _ (32 * n + 2) j ip.minor,
          get_short-put_short _ (32 * n + 1) j ip.major,
          get_short-put_short x (32 * n) j ip.itype,
        )
        refl

  with_meta-uint :
      (j : ℕ) → j ≢ 16 * n → j ≢ 16 * n + 1 → get_uint (with_meta ip n x) j ≡ get_uint x j
  with_meta-uint j h h' =
      get_uint-put_short _ (32 * n + 3) j ip.nlink (omega arith)
      ∙ get_uint-put_short _ (32 * n + 2) j ip.minor (omega arith)
      ∙ get_uint-put_short _ (32 * n + 1) j ip.major (omega arith)
      ∙ get_uint-put_short x (32 * n) j ip.itype (omega arith)

  pub with_inode-uint :
      (j : ℕ)
      → j ≢ 16 * n
      → j ≢ 16 * n + 1
      → get_uint (with_inode ip n x) j ≡ (
          if leb (16 * n + 3) j && ltb j (16 * n + 3 + (ndirect + 1))
          then ip.addrs (0 + (j - (16 * n + 3))) % u32_mod
          else if 16 * n + 2 == j
          then ip.size % u32_mod
          else get_uint x j)
  with_inode-uint j h h' =
      rw
        (
          get_uint-put_addrs ip.addrs (ndirect + 1) 0 (16 * n + 3)
              (put_uint (with_meta ip n x) (16 * n + 2) ip.size) j,
          get_uint-put_uint (with_meta ip n x) (16 * n + 2) j ip.size,
          with_meta-uint j h h',
        )
        refl

-- The fields fit the disk.
pub record Fits (ip : Inode) : Type 0 where
  pub itype : ip.itype < 2 ^ 16
  pub major : ip.major < 2 ^ 16
  pub minor : ip.minor < 2 ^ 16
  pub nlink : ip.nlink < 2 ^ 16
  pub size : ip.size < u32_mod
  pub addrs : (k : ℕ) → k < ndirect + 1 → ip.addrs k < u32_mod

-- Two inodes have the same fields on the disk.
pub record SameFields (ip ip' : Inode) : Type 0 where
  pub itype : ip'.itype ≡ ip.itype
  pub major : ip'.major ≡ ip.major
  pub minor : ip'.minor ≡ ip.minor
  pub nlink : ip'.nlink ≡ ip.nlink
  pub size : ip'.size ≡ ip.size
  pub addrs : (k : ℕ) → k < ndirect + 1 → ip'.addrs k ≡ ip.addrs k

pub loaded_self :
    (ip ip' : Inode) (n : ℕ) (x : Block) → Fits ip → SameFields ip (load (with_inode ip n x) n ip')
loaded_self ip ip' n x f = record {
  itype =
      ap (get_short (with_inode ip n x)) (sym (plus_0 (32 * n)))
      ∙ with_inode-short ip n x n 0 (omega arith)
      ∙ with_meta-short ip n x (32 * n + 0)
      ∙ ground (arith, f.itype);
  major =
      with_inode-short ip n x n 1 (omega arith)
      ∙ with_meta-short ip n x (32 * n + 1)
      ∙ ground (arith, f.major);
  minor =
      with_inode-short ip n x n 2 (omega arith)
      ∙ with_meta-short ip n x (32 * n + 2)
      ∙ ground (arith, f.minor);
  nlink =
      with_inode-short ip n x n 3 (omega arith)
      ∙ with_meta-short ip n x (32 * n + 3)
      ∙ ground (arith, f.nlink);
  size = with_inode-uint ip n x (16 * n + 2) (omega arith) (omega arith) ∙ ground (arith, f.size);
  addrs = λ k h. with_inode-uint ip n x (16 * n + 3 + k) (omega arith) (omega arith) ∙ in_addrs k h;
}
  where
    plus_0 : (m : ℕ) → m + 0 ≡ m
    plus_0 m = omega arith

    in_addrs :
        (k : ℕ)
        → k < ndirect + 1
        → (if leb (16 * n + 3) (16 * n + 3 + k) && ltb (16 * n + 3 + k) (16 * n + 3 + (ndirect + 1))
            then ip.addrs (0 + (16 * n + 3 + k - (16 * n + 3))) % u32_mod
            else if 16 * n + 2 == 16 * n + 3 + k
            then ip.size % u32_mod
            else get_uint x (16 * n + 3 + k))
          ≡ ip.addrs k
    in_addrs k h =
        let inside : (leb (16 * n + 3) (16 * n + 3 + k)
              && ltb (16 * n + 3 + k) (16 * n + 3 + (ndirect + 1)))
            ≡ true =
          ground arith in
        let index : 0 + (16 * n + 3 + k - (16 * n + 3)) ≡ k = omega arith in
        rw (inside, index) (omega (arith, f.addrs k h))
