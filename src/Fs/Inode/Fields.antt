-- ===== src/Fs/Inode/Fields.antt =====
-- The fields of an inode on the disk do not overlap.
use os_exp.Base.{
  ℕ, ◌+◌, ◌*◌, ◌/◌, ◌%◌, ◌^◌, ◌≡◌, refl, ◌≢◌, inl, inr, true, false, arith, ◌==◌, if◌then◌else◌,
  Bool-cases,
}
use os_exp.Block.{Block, get_uint, put_uint}
use os_exp.Fs.Inode.{get_short, put_short}

pub get_short-put_short :
    (x : Block) (i j v : ℕ)
    → get_short (put_short x i v) j ≡ (if i == j then v % 2 ^ 16 else get_short x j)
unfolding get_short put_short
get_short-put_short x i j v =
    let q0 : 2 * j / 2 ≡ j = omega arith in
    let q1 : (2 * j + 1) / 2 ≡ j = omega arith in
    let m0 : 2 * j % 2 ≡ 0 = omega arith in
    let m1 : (2 * j + 1) % 2 ≡ 1 = omega arith in
    elim (Bool-cases (i == j)) [
      | inl y ↦
          let back : (j == i) ≡ true = ground arith in rw (q0, q1, m0, m1, y, back) (omega arith)
      | inr n ↦ let back : (j == i) ≡ false = ground arith in rw (q0, q1, m0, m1, n, back) refl
    ]

-- The four bytes of the word `j` are outside of the short `i`.
pub get_uint-put_short :
    (x : Block) (i j v : ℕ) → i / 2 ≢ j → get_uint (put_short x i v) j ≡ get_uint x j
unfolding put_short get_uint
get_uint-put_short x i j v ne =
    let q0 : (4 * j / 2 == i) ≡ false = ground arith in
    let q1 : ((4 * j + 1) / 2 == i) ≡ false = ground arith in
    let q2 : ((4 * j + 2) / 2 == i) ≡ false = ground arith in
    let q3 : ((4 * j + 3) / 2 == i) ≡ false = ground arith in rw (q0, q1, q2, q3) refl

pub get_short-put_uint :
    (x : Block) (i j v : ℕ) → j / 2 ≢ i → get_short (put_uint x i v) j ≡ get_short x j
unfolding get_short put_uint
get_short-put_uint x i j v ne =
    let q0 : (2 * j / 4 == i) ≡ false = ground arith in
    let q1 : ((2 * j + 1) / 4 == i) ≡ false = ground arith in rw (q0, q1) refl
