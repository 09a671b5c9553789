-- ===== src/Log/Header.antt =====
-- The header block of the log: what `write_head` puts there and `read_head` takes from it.
use os_exp.Base.{ℕ, zero, suc, ◌+◌, ◌-◌, ◌%◌, ◌≡◌, ◌&&◌, arith, ltb, leb, update, if◌then◌else◌}
use os_exp.Base.Word.{u32_mod}
use os_exp.Block.{Block, get_uint, put_uint, get_uint-put_uint}
use os_exp.Log.{read_blocks, write_blocks}

pub get_uint-write_blocks :
    (block : ℕ → ℕ) (k i : ℕ) (b : Block) (j : ℕ)
    → get_uint (write_blocks block k i b) j
      ≡ (if ltb i j && leb j (i + k) then block (j - 1) % u32_mod else get_uint b j)
unfolding write_blocks
get_uint-write_blocks block zero i b j = ground arith
get_uint-write_blocks block (suc k) i b j = ground (
  arith,
  get_uint-write_blocks block k (i + 1) (put_uint b (i + 1) (block i)) j,
  get_uint-put_uint b (i + 1) j (block i),
)

pub read_blocks_lem :
    (b : Block) (k i : ℕ) (block : ℕ → ℕ) (j : ℕ)
    → read_blocks b k i block j ≡ (if leb i j && ltb j (i + k) then get_uint b (j + 1) else block j)
unfolding read_blocks
read_blocks_lem b zero i block j = ground arith
read_blocks_lem b (suc k) i block j =
    ground (arith, read_blocks_lem b k (i + 1) (update block i (get_uint b (i + 1))) j)
