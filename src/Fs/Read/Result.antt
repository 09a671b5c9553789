-- ===== src/Fs/Read/Result.antt =====
-- What `readi` does.
use os_exp.Base.{
  ℕ, ◌+◌, ◌-◌, ◌*◌, ◌≤◌, ◌<◌, min, ◌≡◌, refl, subst, inl, inr, ◌||◌, some, arith, ltb, leb,
  if◌then◌else◌, Bool-cases, returned,
}
use os_exp.Base.Word.{u32, u32_mod}
use os_exp.Block.{bsize}
use os_exp.Fs.{Blocks, Superblock}
use os_exp.Fs.Inode.{Inode}
use os_exp.Fs.File.{maxfile}
use os_exp.Fs.File.Mapping.{IsFile}
use os_exp.Fs.File.Kept.{refl-Kept}
use os_exp.Fs.Read.{Reading, readi}
use os_exp.Fs.Read.Loop.{WasRead, stop-WasRead, read_loop-WasRead}

-- How many of the `n` bytes from `off` on the file has; none if the end is no 32-bit number.
abbrev pub wanted : (size off n : ℕ) → ℕ
wanted size off n = if ltb size off || leb u32_mod (off + n) then 0 else min n (size - off)

module _ (sb : Superblock) (writable off n : ℕ) where
  -- In a file system of at most 2^32 blocks, for a well-formed file of at most MAXFILE blocks and a
  -- target that can be written, `readi` returns the number of bytes read. They are the bytes of the file
  -- from the offset on, as many of the `n` bytes as the file has; fewer only if it comes to a block that
  -- is missing and no block is free any more. The target is the same elsewhere, and the file is as
  -- well formed as before and has the same contents. It reads nothing where offset and number add up to
  -- 2^32 or more.
  pub readi_lem :
      (small : sb.size ≤ u32_mod) (dst : ℕ → ℕ) (ip : Inode) (s : Blocks)
      → IsFile sb s ip
      → ip.size ≤ maxfile * bsize
      → off < u32_mod
      → n < u32_mod
      → n ≤ writable
      → (p : Reading) × (readi sb writable off n dst ip s ≡ returned p)
        × WasRead sb writable off (wanted ip.size off n) 0 dst ip s p
  unfolding readi
  readi_lem small dst ip s w fits ho hn hw =
      elim (Bool-cases (ltb ip.size off || ltb (u32 (off + n)) off)) [
        | inl y ↦
            let nothing : wanted ip.size off n ≡ 0 = ground arith in
            (
              (some 0, dst, ip, s),
              rw y refl,
              rw nothing (
                  stop-WasRead sb writable off 0 0 dst ip ip s s (refl-Kept sb s ip w) (omega arith)
                    (inl refl)),
            )
        | inr fine ↦
            let m = if ltb ip.size (u32 (off + n)) then ip.size - off else n in
            let number : m ≡ wanted ip.size off n = ground arith in
            let within : off + m ≤ maxfile * bsize = ground arith in
            let room : m ≤ writable = ground arith in
            let (p, eq, l) =
              read_loop-WasRead sb writable off m small (m + 1) 0 off dst ip s w (omega arith)
                (omega arith) within room (omega arith) in
            (p, rw fine eq, subst (λ k. WasRead sb writable off k 0 dst ip s p) number l)
      ]
