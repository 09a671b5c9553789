-- ===== src/Fs/RoundTrip.antt =====
-- `readi` reads what `writei` has written.
use os_exp.Base.{
  ℕ, ◌+◌, ◌-◌, ◌*◌, ◌≤◌, ◌<◌, ◌≡◌, refl, ap, ◌∙◌, subst, inl, inr, true, ◌&&◌, some, arith, ltb,
  leb, Bool-cases, returned,
}
use os_exp.Base.Word.{u32_mod}
use os_exp.Block.{bsize}
use os_exp.Fs.{Blocks, Superblock}
use os_exp.Fs.Inode.{Inode}
use os_exp.Fs.File.{maxfile}
use os_exp.Fs.File.Mapping.{IsFile}
use os_exp.Fs.Write.{Source, writei}
use os_exp.Fs.Write.Result.{IsStored, WriteiResult, writei_lem}
use os_exp.Fs.Read.{Reading, readi}
use os_exp.Fs.Read.Result.{wanted, readi_lem}

-- In a file system of at most 2^32 blocks, for a well-formed file of at most MAXFILE blocks whose inode
-- lies in a block of its own: if `writei` of readable bytes has returned `tot`, then `readi` of `tot`
-- bytes from the same offset returns `tot`, and has put the first `tot` bytes of the source into the
-- target, if these can be written, and nothing else.
pub writei-readi :
    (sb : Superblock) (src : Source) (off n writable tot : ℕ) (small : sb.size ≤ u32_mod)
    (dst : ℕ → ℕ) (ip ip' : Inode) (s s' : Blocks)
    → IsFile sb s ip
    → IsStored sb s ip
    → ip.size ≤ maxfile * bsize
    → off < u32_mod
    → n < u32_mod
    → n ≤ src.readable
    → tot ≤ writable
    → writei sb src off n ip s ≡ returned (some tot, ip', s')
    → (p : Reading) × (readi sb writable off tot dst ip' s' ≡ returned p)
      × (p.0 ≡ some tot)
      × ((i : ℕ) → i < tot → p.1 i ≡ src.bytes i)
      × ((i : ℕ) → tot ≤ i → p.1 i ≡ dst i)
writei-readi sb src off n writable tot small dst ip ip' s s' w st fits ho hn hr hw e =
    let d =
      subst (WriteiResult sb src off n ip s) e (writei_lem sb src off n small ip s w st ho hn hr) in
    let in_file : ip'.size ≤ maxfile * bsize = ground (arith, d.size, d.to, d.high) in
    let all : wanted ip'.size off tot ≡ tot = ground (arith, d.size, d.from, d.to, d.high) in
    let (p, eq, l) =
      readi_lem sb writable off tot small dst ip' s' d.valid in_file ho (omega (arith, d.high))
        hw in
    let total : l.total ≡ tot = elim l.ends [
      | inl full ↦ full ∙ all
      | inr (_, hole) ↦ elim (Bool-cases (ltb l.total tot)) [
        | inl y ↦ absurd (d.present (off + l.total) (omega arith) (ground arith) hole)
        | inr o ↦ ground (arith, o, l.high, all)
      ]
    ] in
    (
      p,
      eq,
      l.result ∙ ap some total,
      (λ i h.
          let inside : (leb off (off + i) && ltb (off + i) (off + tot)) ≡ true = ground arith in
          let index : off + i - off ≡ i = omega arith in
          l.got i (omega arith) (omega (arith, total, h))
          ∙ d.bytes (off + i) (omega (arith, d.to, d.high, h))
          ∙ rw (inside, index) refl),
      λ i h. l.others i (inr (omega (arith, total, h))),
    )
