-- ===== src/Block.antt =====
-- A disk block of `BSIZE` bytes (kernel/fs.h), and the `uint` arrays that the file system reads and
-- writes in it by casting `b->data`.
use os_exp.Base.{
  ℕ, ◌+◌, ◌*◌, ◌/◌, ◌%◌, ◌^◌, ◌<◌, ◌≡◌, ◌≢◌, refl, false, arith, ◌==◌, if◌then◌else◌, ==_iff,
}
use native.Mathlib.Nat.{add-zero}
use os_exp.Base.Word.{u32_mod}

abbrev pub bsize : ℕ
bsize = 1024

-- byte `k` of the block, for `k < bsize`
abbrev pub Block : Type 0
Block = ℕ → ℕ

-- the disk, or what a process sees of it: a block for each block number
abbrev pub Disk : Type 0
Disk = ℕ → Block

-- byte `r` of the little-endian word `v`
abbrev byte_of : ℕ → ℕ → ℕ
byte_of v r =
    if r == 0
    then v % 2 ^ 8
    else if r == 1
    then v / 2 ^ 8 % 2 ^ 8
    else if r == 2
    then v / 2 ^ 16 % 2 ^ 8
    else v / 2 ^ 24 % 2 ^ 8

-- `((uint*)b->data)[i]`
unfoldable pub get_uint : Block → ℕ → ℕ
get_uint b i = b (4 * i) + 2 ^ 8 * b (4 * i + 1) + 2 ^ 16 * b (4 * i + 2) + 2 ^ 24 * b (4 * i + 3)

-- `((uint*)b->data)[i] = v`
unfoldable pub put_uint : Block → ℕ → ℕ → Block
put_uint b i v k = if k / 4 == i then byte_of v (k % 4) else b k

put_uint_at : (b : Block) (i v r : ℕ) → r < 4 → put_uint b i v (4 * i + r) ≡ byte_of v r
unfolding put_uint
put_uint_at b i v r h =
    let q : (4 * i + r) / 4 ≡ i = omega arith in
    let m : (4 * i + r) % 4 ≡ r = omega arith in rw (q, m, (==_iff i i).1 refl)

put_uint_off :
    (b : Block) (i j v r : ℕ) → i ≢ j → r < 4 → put_uint b i v (4 * j + r) ≡ b (4 * j + r)
unfolding put_uint
put_uint_off b i j v r n h =
    let q : (4 * j + r) / 4 ≡ j = omega arith in
    let m : (j == i) ≡ false = ground arith in rw (q, m)

bytes_sum :
    (v : ℕ)
    → v % 2 ^ 8
        + 2 ^ 8 * (v / 2 ^ 8 % 2 ^ 8)
        + 2 ^ 16 * (v / 2 ^ 16 % 2 ^ 8)
        + 2 ^ 24 * (v / 2 ^ 24 % 2 ^ 8)
      ≡ v % u32_mod
bytes_sum v = omega arith

get_uint-put_uint_self : (b : Block) (i v : ℕ) → get_uint (put_uint b i v) i ≡ v % u32_mod
unfolding get_uint
get_uint-put_uint_self b i v =
    rw
      (
        put_uint_at b i v 1 (omega arith),
        put_uint_at b i v 2 (omega arith),
        put_uint_at b i v 3 (omega arith),
        ← add-zero (4 * i),
        put_uint_at b i v 0 (omega arith),
      )
      (bytes_sum v)

get_uint-put_uint_ne : (b : Block) (i j v : ℕ) → i ≢ j → get_uint (put_uint b i v) j ≡ get_uint b j
unfolding get_uint
get_uint-put_uint_ne b i j v h =
    omega
      (arith, put_uint_off b i j v 1 h, put_uint_off b i j v 2 h, put_uint_off b i j v 3 h, zeroth)
  where
    zeroth : put_uint b i v (4 * j) ≡ b (4 * j)
    zeroth = rw (add-zero (4 * j)) at (put_uint_off b i j v 0 h (omega arith))

pub get_uint-put_uint :
    (b : Block) (i j v : ℕ)
    → get_uint (put_uint b i v) j ≡ (if i == j then v % u32_mod else get_uint b j)
get_uint-put_uint b i j v =
    ground (arith, get_uint-put_uint_self b i v, get_uint-put_uint_ne b i j v)
