-- ===== src/Fs/Read/Loop.antt =====
-- The loop of `readi`.
use os_exp.Base.{
  ℕ, zero, suc, ◌+◌, ◌-◌, ◌*◌, ◌/◌, ◌%◌, ◌≤◌, ◌<◌, ◌≡◌, refl, sym, ◌∙◌, subst, ◌≢◌, ◌⊎◌, inl, inr,
  true, false, ◌&&◌, some, arith, ltb, leb, ◌==◌, Bool-cases, Outcome, returned,
}
use os_exp.Base.Word.{u32_mod}
use os_exp.Block.{bsize}
use os_exp.Fs.{Blocks, Superblock}
use os_exp.Fs.Inode.{Inode}
use os_exp.Fs.File.{maxfile, Mapped}
use os_exp.Fs.File.Mapping.{block_of, byte, IsFile}
use os_exp.Fs.File.Kept.{Kept, refl-Kept, trans-Kept}
use os_exp.Fs.File.Found.{Full, Found, stays}
use os_exp.Fs.File.Bmap.{bmap-Found}
use os_exp.Fs.Write.{round_size}
use os_exp.Fs.Read.{put_out, Reading, copied_out, read_round, read_loop}

-- The bytes of one round are those of the file.
round-byte :
    (ip : Inode) (s : Blocks) (start tot off m i : ℕ)
    → off ≡ start + tot
    → m ≤ bsize - off % bsize
    → block_of ip s (off / bsize) ≢ 0
    → tot ≤ i
    → i < tot + m
    → byte ip s (start + i) ≡ s.contents (block_of ip s (off / bsize)) (off % bsize + (i - tot))
round-byte ip s start tot off m i e hm ne lo hi =
    let same : (start + i) / bsize ≡ off / bsize = omega arith in
    let index : (start + i) % bsize ≡ off % bsize + (i - tot) = omega arith in
    let present : (block_of ip s (off / bsize) == 0) ≡ false = ground (arith, ne) in
    rw (same, index, present) refl

module _ (sb : Superblock) (writable start n : ℕ) where
  -- The bytes from `tot` on to `total` have been read; the loop stops early only at a block that the file
  -- does not have, when no block is free any more.
  pub record WasRead (tot : ℕ) (dst : ℕ → ℕ) (ip : Inode) (s : Blocks) (p : Reading) : Type 0 where
    pub total : ℕ
    pub result : p.0 ≡ some total
    pub low : tot ≤ total
    pub high : total ≤ n
    pub kept : Kept sb s ip p.3 p.2
    pub got : (i : ℕ) → tot ≤ i → i < total → p.1 i ≡ byte ip s (start + i)
    pub others : (i : ℕ) → (i < tot) ⊎ (total ≤ i) → p.1 i ≡ dst i
    pub ends : (total ≡ n) ⊎ (Full sb p.3 × (block_of ip s ((start + total) / bsize) ≡ 0))

  abbrev pub Result : ℕ → (ℕ → ℕ) → Inode → Blocks → Outcome Reading → Type 0
  Result tot dst ip s c = (p : Reading) × (c ≡ returned p) × WasRead tot dst ip s p

  pub stop-WasRead :
      (tot : ℕ) (dst : ℕ → ℕ) (ip jp : Inode) (s t : Blocks)
      → Kept sb s ip t jp
      → tot ≤ n
      → (tot ≡ n) ⊎ (Full sb t × (block_of ip s ((start + tot) / bsize) ≡ 0))
      → WasRead tot dst ip s (some tot, dst, jp, t)
  stop-WasRead tot dst ip jp s t k le why = record {
    total = tot;
    result = refl;
    low = omega arith;
    high = le;
    kept = k;
    got = λ i lo hi. absurd (omega (arith, lo, hi));
    others = λ i h. refl;
    ends = why;
  }

  zero_before :
      (s : Blocks) (ip : Inode) (bn : ℕ) (m : Mapped)
      → Found sb s ip bn m
      → (k : ℕ) → block_of m.1 m.2 k ≡ 0
      → block_of ip s k ≡ 0
  zero_before s ip bn m f k z = elim (Bool-cases (block_of ip s k == 0)) [
    | inl y ↦ ground arith
    | inr o ↦
        let ne : block_of ip s k ≢ 0 = λ e. ground (arith, o, e) in
        absurd (ne (sym (stays sb s ip bn m f k ne) ∙ z))
  ]

  round-WasRead :
      (tot off m : ℕ) (dst : ℕ → ℕ) (ip jp : Inode) (s t : Blocks) (r : ℕ) (p : Reading)
      → Found sb s ip (off / bsize) (r, jp, t)
      → off ≡ start + tot
      → m ≤ bsize - off % bsize
      → start + n ≤ maxfile * bsize
      → r ≢ 0
      → WasRead (tot + m) (put_out dst tot (t.contents r) (off % bsize) m) jp t p
      → WasRead tot dst ip s p
  round-WasRead tot off m dst ip jp s t r p f e hm fits ne l =
      let here : block_of jp t (off / bsize) ≡ r = f.here in
      let same : (i : ℕ) → i < n → byte jp t (start + i) ≡ byte ip s (start + i) =
        λ i h. f.kept.same ((start + i) / bsize) (omega arith) ((start + i) % bsize) in
      let taken : (i : ℕ)
          → tot ≤ i
          → i < tot + m
          → byte jp t (start + i) ≡ t.contents r (off % bsize + (i - tot)) =
        λ i lo hi.
          subst (λ b. byte jp t (start + i) ≡ t.contents b (off % bsize + (i - tot))) here
            (round-byte jp t start tot off m i e hm (λ z. ne (sym here ∙ z)) lo hi) in
      record {
        total = l.total;
        result = l.result;
        low = omega (arith, l.low);
        high = l.high;
        kept = trans-Kept sb f.kept l.kept;
        got = λ i lo hi. elim (Bool-cases (ltb i (tot + m))) [
          | inl y ↦
              let inside : (leb tot i && ltb i (tot + m)) ≡ true = ground (arith, lo) in
              l.others i (inl (ground arith))
              ∙ rw inside (sym (taken i lo (ground arith)) ∙ same i (omega (arith, hi, l.high)))
          | inr o ↦ l.got i (ground arith) hi ∙ same i (omega (arith, hi, l.high))
        ];
        others = λ i h.
            let off_i : (leb tot i && ltb i (tot + m)) ≡ false = elim h [
              | inl a ↦ ground arith
              | inr b ↦ ground (arith, l.low)
            ] in
            l.others i (elim h [ inl a ↦ inl (omega arith) | inr b ↦ inr b ]) ∙ rw off_i refl;
        ends = elim l.ends [
          | inl x ↦ inl x
          | inr (full, z) ↦
              inr (full, zero_before s ip (off / bsize) (r, jp, t) f ((start + l.total) / bsize) z)
        ];
      }

  round-Result :
      (tot off : ℕ) (dst : ℕ → ℕ) (ip : Inode) (s : Blocks)
      (rest : ℕ → ℕ → (ℕ → ℕ) → Inode → Blocks → Outcome Reading) (m : Mapped)
      → off ≡ start + tot
      → tot < n
      → start + n ≤ maxfile * bsize
      → n ≤ writable
      → Found sb s ip (off / bsize) m
      → ((dst' : ℕ → ℕ) (ip' : Inode) (s' : Blocks)
          → IsFile sb s' ip'
          → Result
              (tot + round_size tot off n)
              dst'
              ip'
              s'
              (rest (tot + round_size tot off n) (off + round_size tot off n) dst' ip' s'))
      → Result tot dst ip s (read_round sb writable tot off n dst rest m)
  round-Result tot off dst ip s rest (r, jp, t) e lt fits hw f next = elim (Bool-cases (r == 0)) [
    | inl y ↦
        let r_0 : r ≡ 0 = ground arith in
        let hole : block_of ip s ((start + tot) / bsize) ≡ 0 =
          subst (λ o. block_of ip s (o / bsize) ≡ 0) e
            (zero_before s ip (off / bsize) (r, jp, t) f (off / bsize) (f.here ∙ r_0)) in
        (
          (some tot, dst, jp, t),
          rw y refl,
          stop-WasRead tot dst ip jp s t f.kept (omega arith) (inr (f.full r_0, hole)),
        )
    | inr ne ↦
        let m = round_size tot off n in
        let all : copied_out sb writable tot m ≡ m = ground arith in
        let whole : ltb m m ≡ false = ground arith in
        let (p, eq, l) = next (put_out dst tot (t.contents r) (off % bsize) m) jp t f.kept.valid in
        (
          p,
          rw (ne, all, whole) eq,
          round-WasRead tot off m dst ip jp s t r p f e (omega arith) fits
              (λ z. ground (arith, ne, z)) l,
        )
  ]

  pub read_loop-WasRead :
      (small : sb.size ≤ u32_mod) (fuel tot off : ℕ) (dst : ℕ → ℕ) (ip : Inode) (s : Blocks)
      → IsFile sb s ip
      → off ≡ start + tot
      → tot ≤ n
      → start + n ≤ maxfile * bsize
      → n ≤ writable
      → n < tot + fuel
      → Result tot dst ip s (read_loop sb writable fuel tot off n dst ip s)
  unfolding read_loop
  read_loop-WasRead small zero tot off dst ip s w e le fits hw enough = absurd (omega arith)
  read_loop-WasRead small (suc fuel) tot off dst ip s w e le fits hw enough =
      elim (Bool-cases (ltb tot n)) [
        | inl y ↦
            let lt : tot < n = ground arith in
            let in_file : off / bsize < maxfile = omega arith in
            let m = round_size tot off n in
            let moves : 0 < m = ground arith in
            let (found, eq, f) = bmap-Found sb small s ip (off / bsize) w in_file in
            rw (y, eq)
              (round-Result tot off dst ip s
                (λ tot' off' dst' ip' s'. read_loop sb writable fuel tot' off' n dst' ip' s') found
                e lt fits hw f
                λ dst' ip' s' v.
                  read_loop-WasRead small fuel (tot + m) (off + m) dst' ip' s' v (omega arith)
                    (ground arith) fits hw (omega arith))
        | inr no_more ↦ (
          (some tot, dst, ip, s),
          rw no_more refl,
          stop-WasRead tot dst ip ip s s (refl-Kept sb s ip w) le (inl (ground arith)),
        )
      ]
