-- ===== src/Fs/Write/Written.antt =====
-- What part of the loop of `writei` has written.
use os_exp.Base.{
  sym, ◌≢◌, ℕ, ◌+◌, ◌-◌, ◌*◌, ◌/◌, ◌%◌, ◌≤◌, ◌<◌, ◌≡◌, refl, ap, ◌∙◌, ◌⊎◌, inl, inr, true, false,
  ◌&&◌, arith, ltb, leb, ◌==◌, if◌then◌else◌, Bool-cases,
}
use os_exp.Block.{Block, bsize}
use os_exp.Fs.{Blocks, Superblock}
use os_exp.Fs.Bitmap.{used}
use os_exp.Fs.Inode.{Inode}
use os_exp.Fs.File.{maxfile}
use os_exp.Fs.File.Mapping.{block_of, byte, IsFile, Grows}
use os_exp.Fs.File.Kept.{Logs, trans-Logs, Avoids, Kept}
use os_exp.Fs.File.Found.{Full}
use os_exp.Fs.Write.{Source, put_bytes, Progress}

-- The bytes of one round, seen from the offset in the file and from the offset in the block.
pub chunk_bytes :
    (x : Block) (src : ℕ → ℕ) (start tot off m o : ℕ)
    → off ≡ start + tot
    → m ≤ bsize - off % bsize
    → o / bsize ≡ off / bsize
    → put_bytes x (off % bsize) src tot m (o % bsize) ≡ (
        if leb (start + tot) o && ltb o (start + (tot + m)) then src (o - start) else x (o % bsize))
chunk_bytes x src start tot off m o e hm same =
    let test : (leb (off % bsize) (o % bsize) && ltb (o % bsize) (off % bsize + m))
        ≡ (leb (start + tot) o && ltb o (start + (tot + m))) =
      ground arith in
    elim (Bool-cases (leb (start + tot) o && ltb o (start + (tot + m)))) [
      | inl y ↦
          let index : tot + (o % bsize - off % bsize) ≡ o - start = ground arith in
          rw (test, y, index) refl
      | inr n ↦ rw (test, n) refl
    ]

pub outside_chunk :
    (start tot off m o : ℕ)
    → off ≡ start + tot
    → m ≤ bsize - off % bsize
    → (o / bsize == off / bsize) ≡ false
    → (leb (start + tot) o && ltb o (start + (tot + m))) ≡ false
outside_chunk start tot off m o e hm far = ground arith

module _ (sb : Superblock) (src : Source) (start n : ℕ) where
  -- From `tot` on to the end, the bytes of the source are in the file, and the others are as they were.
  pub record Written (tot : ℕ) (ip : Inode) (s : Blocks) (p : Progress) : Type 0 where
    pub valid : IsFile sb p.3 p.2
    pub fields : p.2 ≡ record ip { addrs = p.2.addrs }
    pub moved : p.1 ≡ start + p.0
    pub low : tot ≤ p.0
    pub high : p.0 ≤ n
    pub bytes :
        (o : ℕ)
        → o < maxfile * bsize
        → byte p.2 p.3 o ≡ (
            if leb (start + tot) o && ltb o (start + p.0)
            then src.bytes (o - start)
            else byte ip s o)
    pub stays : (k : ℕ) → block_of ip s k ≢ 0 → block_of p.2 p.3 k ≡ block_of ip s k
    pub present : (o : ℕ) → start + tot ≤ o → o < start + p.0 → block_of p.2 p.3 (o / bsize) ≢ 0
    pub grows : Grows sb s p.3
    pub logs : Logs s p.3
    pub avoids : (c : ℕ) → c < sb.size → used sb s c ≡ true → Avoids ip s c → Avoids p.2 p.3 c
    pub ends : (p.0 ≡ n) ⊎ Full sb p.3

  pub stay-Written :
      (tot off : ℕ) (ip : Inode) (s : Blocks)
      → IsFile sb s ip
      → off ≡ start + tot
      → tot ≤ n
      → (tot ≡ n) ⊎ Full sb s
      → Written tot ip s (tot, off, ip, s)
  stay-Written tot off ip s w e le why = record {
    valid = w;
    fields = refl;
    moved = e;
    low = omega arith;
    high = le;
    bytes = λ o h.
        let nowhere : (leb (start + tot) o && ltb o (start + tot)) ≡ false = ground arith in
        rw nowhere refl;
    stays = λ k ne. refl;
    present = λ o lo hi. absurd (omega (arith, lo, hi));
    grows = λ b h u. u;
    logs = λ b. inr (refl, refl);
    avoids = λ c h u v. v;
    ends = why;
  }

  pub bmap-Written :
      (tot : ℕ) (ip jp : Inode) (s t : Blocks) (p : Progress)
      → Kept sb s ip t jp
      → ((k : ℕ) → block_of ip s k ≢ 0 → block_of jp t k ≡ block_of ip s k)
      → Written tot jp t p
      → Written tot ip s p
  bmap-Written tot ip jp s t p k st l = record {
    valid = l.valid;
    fields = l.fields ∙ ap (λ (q : Inode). record q { addrs = p.2.addrs }) k.fields;
    moved = l.moved;
    low = l.low;
    high = l.high;
    bytes = λ o h.
        l.bytes o h
        ∙ ap (λ v. if leb (start + tot) o && ltb o (start + p.0) then src.bytes (o - start) else v)
            (k.same (o / bsize) (omega arith) (o % bsize));
    stays = λ j ne. l.stays j (λ z. ne (sym (st j ne) ∙ z)) ∙ st j ne;
    present = l.present;
    grows = λ b h u. l.grows b h (k.grows b h u);
    logs = trans-Logs s t p.3 k.logs l.logs;
    avoids = λ c h u v. l.avoids c h (k.grows c h u) (k.avoids c h u v);
    ends = l.ends;
  }
