-- ===== src/Fs/File/Mapping.antt =====
-- Which blocks a file has, and that they are its own.
use os_exp.Base.{
  ℕ, ◌-◌, ◌/◌, ◌%◌, ◌<◌, ◌≡◌, sym, ap, ◌∙◌, subst, fun_ext, ◌≢◌, ◌⊎◌, inl, inr, true, false, arith,
  ltb, ◌==◌, if◌then◌else◌, Bool-cases, update,
}
use os_exp.Block.{bsize, get_uint}
use os_exp.Fs.{Blocks, Superblock}
use os_exp.Fs.Bitmap.{used}
use os_exp.Fs.Alloc.{IsBitmap, IsData, Allocated}
use os_exp.Fs.Inode.{Inode, ndirect}
use os_exp.Fs.File.{maxfile}

-- The block number of the block `bn` of the file, 0 for none.
abbrev pub block_of : Inode → Blocks → ℕ → ℕ
block_of ip s bn =
    if ltb bn ndirect
    then ip.addrs bn
    else if ip.addrs ndirect == 0
    then 0
    else get_uint (s.contents (ip.addrs ndirect)) (bn - ndirect)

-- The byte at an offset of the file; where there is no block it is 0.
abbrev pub byte_in : Blocks → ℕ → ℕ → ℕ
byte_in s b i = if b == 0 then 0 else s.contents b i

abbrev pub byte : Inode → Blocks → ℕ → ℕ
byte ip s o = byte_in s (block_of ip s (o / bsize)) (o % bsize)

module _ (sb : Superblock) where
  -- The blocks `f bn` and the indirect block are different data blocks in use.
  pub record IsMapping (s : Blocks) (f : ℕ → ℕ) (ind : ℕ) : Type 0 where
    pub in_use : (bn : ℕ) → bn < maxfile → f bn ≢ 0 → IsData sb (f bn) × (used sb s (f bn) ≡ true)
    pub ind_in_use : ind ≢ 0 → IsData sb ind × (used sb s ind ≡ true)
    pub apart : (bn : ℕ) → bn < maxfile → f bn ≢ 0 → f bn ≢ ind
    pub distinct : (m n : ℕ) → m < maxfile → n < maxfile → f m ≢ 0 → f m ≡ f n → m ≡ n

  pub record IsFile (s : Blocks) (ip : Inode) : Type 0 where
    pub bitmap : IsBitmap sb s
    pub mapping : IsMapping s (block_of ip s) (ip.addrs ndirect)

  abbrev pub Grows : Blocks → Blocks → Type 0
  Grows s t = (b : ℕ) → b < sb.size → used sb s b ≡ true → used sb t b ≡ true

  pub grow-IsMapping :
      {s : Blocks} {f : ℕ → ℕ} {ind : ℕ} (t : Blocks)
      → Grows s t
      → IsMapping s f ind
      → IsMapping t f ind
  grow-IsMapping t g w = record {
    in_use = λ bn h n. let (d, u) = w.in_use bn h n in (d, g _ d.1 u);
    ind_in_use = λ n. let (d, u) = w.ind_in_use n in (d, g _ d.1 u);
    apart = w.apart;
    distinct = w.distinct;
  }

  pub ext-IsMapping :
      {s : Blocks} {f : ℕ → ℕ} {ind : ℕ} (g : ℕ → ℕ)
      → ((bn : ℕ) → g bn ≡ f bn)
      → IsMapping s f ind
      → IsMapping s g ind
  ext-IsMapping {s} {f} {ind} g e w = subst (λ h. IsMapping s h ind) (sym (fun_ext e)) w

  -- A block that was free is none of the file's.
  pub fresh-IsData :
      {s s' : Blocks} (r : ℕ)
      → IsBitmap sb s
      → Allocated sb s r s'
      → IsData sb r × (used sb s' r ≡ true)
  fresh-IsData {s} {s'} r w a = (
    (a.positive, a.in_range, λ c h e. cc ((w.own c h).1, ap (used sb s) e, a.was_free)),
    a.now_used r a.in_range ∙ ground arith,
  )

  pub Allocated-Grows : {s s' : Blocks} (r : ℕ) → Allocated sb s r s' → Grows s s'
  Allocated-Grows {s} r a b h u = a.now_used b h ∙ ground (arith, u)

  pub fresh-ne : {s s' : Blocks} (r b : ℕ) → Allocated sb s r s' → used sb s b ≡ true → b ≢ r
  fresh-ne {s} r b a u e = cc (ap (used sb s) e, u, a.was_free)

  -- The contents of a data block in use do not change by an allocation.
  pub kept-contents :
      {s s' : Blocks} (r b : ℕ)
      → Allocated sb s r s'
      → IsData sb b
      → used sb s b ≡ true
      → s'.contents b ≡ s.contents b
  kept-contents r b a d u = a.kept b (fresh-ne r b a u) λ e. d.2 r a.in_range (sym e)

  pub add_block :
      {s s' : Blocks} {f : ℕ → ℕ} {ind : ℕ} (r k : ℕ)
      → IsBitmap sb s
      → Allocated sb s r s'
      → IsMapping s f ind
      → IsMapping s' (update f k r) ind
  add_block {s} {s'} {f} {ind} r k w a m =
      let (d, u) = fresh-IsData r w a in
      let m' = grow-IsMapping s' (Allocated-Grows r a) m in
      record {
        in_use = λ bn h n. elim (Bool-cases (bn == k)) [
          | inl y ↦ rw y (d, u)
          | inr o ↦ rw o (m'.in_use bn h (rw o at n))
        ];
        ind_in_use = m'.ind_in_use;
        apart = λ bn h n. elim (Bool-cases (bn == k)) [
          | inl y ↦ rw y (not_ind (Bool-cases (ind == 0)))
          | inr o ↦ rw o (m'.apart bn h (rw o at n))
        ];
        distinct = λ i j hi hj n e. elim (Bool-cases (i == k)) [
          | inl y ↦ elim (Bool-cases (j == k)) [
            | inl z ↦ ground arith
            | inr z ↦ absurd (not_file j hj (rw (y, z) at (sym e)))
          ]
          | inr y ↦ elim (Bool-cases (j == k)) [
            | inl z ↦ absurd (not_file i hi (rw (y, z) at e))
            | inr z ↦ m.distinct i j hi hj (rw y at n) (rw (y, z) at e)
          ]
        ];
      }
    where
      not_ind : ((ind == 0) ≡ true) ⊎ ((ind == 0) ≡ false) → r ≢ ind
      not_ind (inl z) e = ground (arith, z, e, a.positive)
      not_ind (inr z) e = fresh-ne r ind a (m.ind_in_use λ h. ground (arith, z, h)).1 (sym e)

      not_file : (j : ℕ) → j < maxfile → f j ≢ r
      not_file j h e = fresh-ne r (f j) a (m.in_use j h λ z. omega (arith, a.positive, z, e)).1 e
